-- ===== src/Messages/RoundTrip.antt =====
-- What `Serialize` writes, `DeserializeUnencrypted` reads.
use gogram.Common.{
  ℕ, ◌+◌, ◌-◌, ◌%◌, ◌^◌, ◌≤◌, ◌<◌, ◌≡◌, ◌⊎◌, inl, inr, refl, ap, ◌∙◌, none, [], ◌++◌, append_assoc,
  length, length-append, take, take_prefix, ge→ltb, ==_iff, arith,
}
use gogram.Common.Bits.{and_three}
use gogram.Common.Int.{pos}
use gogram.Common.Bytes.{Bytes, le_bytes, length-le_bytes, from_le, from_le-le_bytes}
use gogram.Common.Results.{ok}
use gogram.Io.{Writer, IsBuffer}
use gogram.Tl.Encoder.{put_long, put_uint}
use gogram.Tl.Encoder.Appends.{write-Appends, put_uint-Appends, put_long-Appends}
use gogram.Tl.Decoder.{
  Decoder, new_decoder_bytes, rest, pop_raw_bytes, pop_long, pop_uint, get_rest_of_message,
}
use gogram.Tl.Decoder.Reads.{pop_raw_bytes-Pops, pop_long-Pops, pop_uint-Pops}
use gogram.Messages.Plain.{
  Unencrypted, new_encoder, serialize_unencrypted, finish, check_size, check_id, after_header,
  deserialize_unencrypted,
}

abbrev plain_wire : Unencrypted → Bytes
plain_wire m = le_bytes 8 0 ++ (le_bytes 8 m.msg_id ++ (le_bytes 4 (length m.msg) ++ m.msg))

length-plain_wire : (m : Unencrypted) → length (plain_wire m) ≡ 20 + length m.msg
length-plain_wire m = omega (
  arith,
  length-append (le_bytes 8 0) (le_bytes 8 m.msg_id ++ (le_bytes 4 (length m.msg) ++ m.msg)),
  length-append (le_bytes 8 m.msg_id) (le_bytes 4 (length m.msg) ++ m.msg),
  length-append (le_bytes 4 (length m.msg)) m.msg,
  length-le_bytes 8 0,
  length-le_bytes 8 m.msg_id,
  length-le_bytes 4 (length m.msg),
)

serialize_lem :
    {W : Type 0} (o : Writer W) (bytes_of : W → Bytes) (new_buffer : W) (m : Unencrypted)
    → IsBuffer o bytes_of
    → bytes_of new_buffer ≡ []
    → length m.msg < 2 ^ 32
    → serialize_unencrypted o bytes_of new_buffer m ≡ plain_wire m
unfolding serialize_unencrypted
serialize_lem o bytes_of new_buffer m lawful empty h =
    let e0 = new_encoder new_buffer in
    let p1 = put_long-Appends lawful e0 0 refl in
    let e1 = put_long o e0 0 in
    let p2 = put_long-Appends lawful e1 m.msg_id p1.no_error in
    let e2 = put_long o e1 m.msg_id in
    let size : length m.msg % 2 ^ 32 ≡ length m.msg = omega arith in
    let p3 = put_uint-Appends lawful e2 (length m.msg) p2.no_error in
    let e3 = put_uint o e2 (length m.msg) in
    let p4 = write-Appends lawful e3 m.msg p3.no_error in
    let a = le_bytes 8 0 in
    let b = le_bytes 8 m.msg_id in
    let c = le_bytes 4 (length m.msg) in
    rw
      (
        size,
        p4.wrote_bytes,
        p3.wrote_bytes,
        p2.wrote_bytes,
        p1.wrote_bytes,
        empty,
        append_assoc (a ++ b) c m.msg,
        append_assoc a b (c ++ m.msg),
      )
      refl

finish_lem :
    (d : Decoder) (id : ℕ) (msg : Bytes)
    → d.err ≡ none
    → rest d ≡ msg
    → finish id (get_rest_of_message d) ≡ ok (record { msg = msg; msg_id = id })
unfolding finish get_rest_of_message
finish_lem d id msg e left = ground arith

module _ (m : Unencrypted) (few : length m.msg < 2 ^ 32) (whole : length m.msg % 4 ≡ 0)
    (least : 4 ≤ length m.msg) where
  size_lem :
      (r : Decoder × ℕ)
      → r.1 ≡ length m.msg
      → r.0.err ≡ none
      → rest r.0 ≡ m.msg
      → check_size (20 + length m.msg) m.msg_id r ≡ ok m
  unfolding check_size
  size_lem r value clean left =
      let same : 20 + length m.msg - (8 + 8 + 4) ≡ r.1 = omega arith in
      let whole' : r.1 % 4 ≡ 0 = rw value whole in
      let least' : 4 ≤ r.1 = rw value least in
      rw (ge→ltb r.1 4 least', whole', (==_iff (20 + length m.msg - (8 + 8 + 4)) r.1).1 same)
        (finish_lem r.0 m.msg_id m.msg clean left)

  id_lem :
      (r : Decoder × ℕ)
      → (m.msg_id % 4 ≡ 1) ⊎ (m.msg_id % 4 ≡ 3)
      → r.1 ≡ m.msg_id
      → r.0.err ≡ none
      → rest r.0 ≡ le_bytes 4 (length m.msg) ++ m.msg
      → check_id (20 + length m.msg) r ≡ ok m
  unfolding check_id
  id_lem r bits value clean left =
      let p = pop_uint-Pops r.0 (length m.msg) m.msg clean few left in
      let done = size_lem (pop_uint r.0) p.value p.no_error p.left in
      elim bits [
        | inl one ↦ rw (value, and_three m.msg_id, one) done
        | inr three ↦ rw (value, and_three m.msg_id, three) done
      ]

  -- After the test of the header, from its first byte on.
  header_lem :
      (d : Decoder)
      → (m.msg_id % 4 ≡ 1) ⊎ (m.msg_id % 4 ≡ 3)
      → m.msg_id < 2 ^ 64
      → d.err ≡ none
      → rest d ≡ plain_wire m
      → after_header (20 + length m.msg) (pop_raw_bytes (pos 8) d) ≡ ok m
  unfolding after_header le_bytes
  header_lem d bits small clean here =
      let after = le_bytes 8 m.msg_id ++ (le_bytes 4 (length m.msg) ++ m.msg) in
      let p =
        pop_raw_bytes-Pops d (le_bytes 8 0) after clean here (omega (arith, length-plain_wire m)) in
      let q =
        pop_long-Pops (pop_raw_bytes (pos 8) d).0 m.msg_id (le_bytes 4 (length m.msg) ++ m.msg)
          p.no_error small p.left in
      id_lem (pop_long (pop_raw_bytes (pos 8) d).0) bits q.value q.no_error q.left

-- Into a new buffer that takes every write: a message of at least 4 bytes, a multiple of 4, and
-- below 2^32, under a 64-bit id with the bits of a server's (01 or 11), comes back from what
-- `Serialize` wrote.
pub deserialize-serialize_unencrypted :
    {W : Type 0} (o : Writer W) (bytes_of : W → Bytes) (new_buffer : W) (m : Unencrypted)
    → IsBuffer o bytes_of
    → bytes_of new_buffer ≡ []
    → 4 ≤ length m.msg
    → length m.msg % 4 ≡ 0
    → length m.msg < 2 ^ 32
    → (m.msg_id % 4 ≡ 1) ⊎ (m.msg_id % 4 ≡ 3)
    → m.msg_id < 2 ^ 64
    → deserialize_unencrypted (serialize_unencrypted o bytes_of new_buffer m) ≡ ok m
unfolding deserialize_unencrypted le_bytes
deserialize-serialize_unencrypted o bytes_of new_buffer m lawful empty least whole few bits small =
    let wire = serialize_lem o bytes_of new_buffer m lawful empty few in
    let size = length-plain_wire m in
    let after = le_bytes 8 m.msg_id ++ (le_bytes 4 (length m.msg) ++ m.msg) in
    let key : from_le (take 8 (plain_wire m)) ≡ 0 =
      ap from_le (take_prefix 8 (le_bytes 8 0) after refl) ∙ from_le-le_bytes 8 0 (omega arith) in
    rw (wire, ge→ltb (length (plain_wire m)) 24 (omega arith), key, size)
      (header_lem m few whole least (new_decoder_bytes (plain_wire m)) bits small refl refl)
