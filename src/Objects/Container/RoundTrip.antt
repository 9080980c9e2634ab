-- ===== src/Objects/Container/RoundTrip.antt =====
-- A container comes back as the messages that went into it.
use gogram.Common.{
  ℕ, ◌%◌, ◌^◌, ◌≡◌, ◌≤◌, refl, ap, ◌∙◌, false, ◌||◌, Option, none, List, [], ◌++◌, length, All, ltb,
  lt→ltb, ge→ltb, arith,
}
use mathlib.Core.List.{map}
use gogram.Common.Int.{signed32}
use gogram.Common.Bytes.{Bytes, le_bytes}
use gogram.Common.Results.{Result, ok}
use gogram.Io.{Writer, IsBuffer}
use gogram.Tl.Defs.{TlError}
use gogram.Tl.Encoder.{Encoder, put_uint, put_int}
use gogram.Tl.Encoder.Appends.{Appends, Appends-trans, put_uint-Appends}
use gogram.Tl.Decoder.{Decoder, rest, pop_int, pop_uint, new_decoder_bytes}
use gogram.Tl.Decoder.Reads.{pop_uint-Pops}
use gogram.Messages.Plain.{new_encoder}
use gogram.Messages.Encrypted.{Encrypted, int_below}
use gogram.Objects.Container.{
  max_container_messages, container_crc, put_items, put_after_count, marshal_container,
  ContainerError, read_items, checked_all, read_counted, unmarshal_container,
}
use gogram.Objects.Container.Written.{Carryable, as_read, items_wire, put_items-Appends}
use gogram.Objects.Container.Items.{Read, read_items-Read}

count_passes :
    (n : ℕ) → n ≤ 1024 → (int_below (signed32 n) 0 || ltb max_container_messages n) ≡ false
count_passes n h =
    rw (lt→ltb n (2 ^ 31) (omega arith), ge→ltb n 0 (omega arith), ge→ltb 1024 n h) refl

checked_all_lem :
    (messages : List Encrypted) (r : Result ContainerError (List Encrypted)) (x : Option TlError)
    → r ≡ ok messages
    → x ≡ none
    → checked_all r x ≡ ok messages
unfolding checked_all
checked_all_lem messages r x h k = rw (h, k) refl

read_counted-Read :
    (messages : List Encrypted) (d : Decoder)
    → All Carryable messages
    → length messages ≤ 1024
    → d.err ≡ none
    → rest d ≡ items_wire messages
    → Read (read_counted (length messages) d) (map as_read messages) []
unfolding read_counted
read_counted-Read messages d good few clean here =
    let q = read_items-Read messages 0 d good clean here in
    let r : Decoder × Result ContainerError (List Encrypted) = read_items (length messages) 0 d in
    rw (count_passes (length messages) few) (record {
      value = checked_all_lem (map as_read messages) r.1 r.0.err q.value q.no_error;
      no_error = q.no_error;
      left = q.left;
    })

module _ {W : Type 0} (o : Writer W) (bytes_of : W → Bytes) (new_buffer : W)
    (lawful : IsBuffer o bytes_of) (empty : bytes_of new_buffer ≡ []) (messages : List Encrypted)
    (good : All Carryable messages) (few : length messages ≤ 1024) where
  abbrev container_wire : Bytes
  container_wire = le_bytes 4 container_crc ++ (le_bytes 4 (length messages) ++ items_wire messages)

  after_count_lem :
      (e : Encoder W)
      → e.err ≡ none
      → Appends bytes_of e (put_items o e messages) (items_wire messages)
      → put_after_count o e.err e messages ≡ (put_items o e messages, none)
  unfolding put_after_count
  after_count_lem e clean p = after_lem e.err clean
    where
      after_lem :
          (x : Option TlError)
          → x ≡ none
          → put_after_count o x e messages ≡ (put_items o e messages, none)
      after_lem x h = rw (h, p.no_error) refl

  written_lem :
      (let r = marshal_container o messages (new_encoder new_buffer) in
        (r.1 ≡ none) × (bytes_of r.0.writer ≡ container_wire))
  unfolding marshal_container
  written_lem =
      let e0 = new_encoder new_buffer in
      let p1 = put_uint-Appends lawful e0 container_crc refl in
      let e1 = put_uint o e0 container_crc in
      let size : length messages % 2 ^ 32 ≡ length messages = omega arith in
      let p2 = put_uint-Appends lawful e1 (length messages) p1.no_error in
      let e2 = put_int o e1 (length messages) in
      let p3 = put_items-Appends lawful e2 messages p2.no_error good in
      let all = Appends-trans lawful p1 (Appends-trans lawful p2 p3) in
      rw (size, after_count_lem e2 p2.no_error p3)
        (refl, all.wrote_bytes ∙ ap (λ b. b ++ container_wire) empty)

-- What the container writes, and what comes of reading it behind its number.
pub record Contained {W : Type 0} (o : Writer W) (bytes_of : W → Bytes) (new_buffer : W)
    (messages : List Encrypted) : Type 0 where
  pub no_error : (marshal_container o messages (new_encoder new_buffer)).1 ≡ none
  pub number :
      (let d =
          new_decoder_bytes
            (bytes_of (marshal_container o messages (new_encoder new_buffer)).0.writer) in
        (pop_uint d).1 ≡ container_crc)
  pub read_back :
      (let d =
          new_decoder_bytes
            (bytes_of (marshal_container o messages (new_encoder new_buffer)).0.writer) in
        (unmarshal_container (pop_uint d).0).1 ≡ ok (map as_read messages))
  pub nothing_left :
      (let d =
          new_decoder_bytes
            (bytes_of (marshal_container o messages (new_encoder new_buffer)).0.writer) in
        rest (unmarshal_container (pop_uint d).0).0 ≡ [])

-- Into a new buffer that takes every write, for at most 1024 messages, each with a 64-bit id, a
-- 32-bit sequence number and a content of at least 4 bytes, a multiple of 4, and below 2^31:
-- `MarshalTL` meets no error and starts with the number of the type, and `UnmarshalTL` behind the
-- number gives the ids, the sequence numbers and the contents, and reads to the end.
pub unmarshal-marshal_container :
    {W : Type 0} (o : Writer W) (bytes_of : W → Bytes) (new_buffer : W) (messages : List Encrypted)
    → IsBuffer o bytes_of
    → bytes_of new_buffer ≡ []
    → All Carryable messages
    → length messages ≤ 1024
    → Contained o bytes_of new_buffer messages
unfolding unmarshal_container
unmarshal-marshal_container o bytes_of new_buffer messages lawful empty good few =
    let (clean, wired) = written_lem o bytes_of new_buffer lawful empty messages good few in
    let d =
      new_decoder_bytes
        (bytes_of (marshal_container o messages (new_encoder new_buffer)).0.writer) in
    let p1 =
      pop_uint-Pops d container_crc (le_bytes 4 (length messages) ++ items_wire messages) refl
        (omega arith) wired in
    let d1 : Decoder = (pop_uint d).0 in
    let p2 =
      pop_uint-Pops d1 (length messages) (items_wire messages) p1.no_error (omega arith) p1.left in
    let d2 : Decoder = (pop_int d1).0 in
    let q = read_counted-Read messages d2 good few p2.no_error p2.left in
    record {
      no_error = clean;
      number = p1.value;
      read_back = rw p2.value q.value;
      nothing_left = rw p2.value q.left;
    }
