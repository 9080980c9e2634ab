-- ===== src/Messages/Encrypted/Packet.antt =====
-- The bytes of a packet and of an envelope, and the fields that pass the tests.
use gogram.Common.{
  ℕ, ◌+◌, ◌-◌, ◌%◌, ◌^◌, ◌≡◌, ◌≤◌, ◌<◌, ◌⊎◌, inl, inr, refl, sym, ap, ◌∙◌, false, not, ◌&&◌, [],
  ◌++◌, append_assoc, length, take, drop, take_prefix, drop_prefix, drop-drop, bit_and, lt→ltb,
  ge→ltb, ◌==◌, arith,
}
use gogram.Common.Bits.{and_three}
use gogram.Common.Int.{pos}
use gogram.Common.Bytes.{Bytes, IsBytes, le_bytes}
use gogram.Common.Results.{ok}
use gogram.Io.{Writer, IsBuffer}
use gogram.Tl.Encoder.{put_long, put_uint, put_raw_bytes}
use gogram.Tl.Encoder.Appends.{write-Appends, put_uint-Appends, put_long-Appends}
use gogram.Tl.Decoder.{Decoder, pop_raw_bytes}
use gogram.Messages.Plain.{new_encoder}
use gogram.Messages.Encrypted.{
  Encrypted, MessageInformator, serialize_packet, put_envelope, is_bad_length, check_fields,
  with_body,
}
use gogram.Messages.Encrypted.Parsing.{part}

-- The bytes at `i` are `xs`, with `ys` behind them.
pub part_at :
    (b xs ys : Bytes) (i k j : ℕ)
    → drop i b ≡ xs ++ ys
    → length xs ≡ k
    → i + k ≡ j
    → (part b i k ≡ xs) × (drop j b ≡ ys)
part_at b xs ys i k j here size ends = (
  ap (take k) here ∙ take_prefix k xs ys (sym size),
  sym (drop-drop k i j b ends) ∙ ap (drop k) here ∙ drop_prefix k xs ys (sym size),
)

abbrev pub packet_wire : MessageInformator → Bytes → ℕ → ℕ → Bytes → Bytes
packet_wire client msg id seq more =
    le_bytes 8 client.get_server_salt
    ++ (le_bytes 8 client.get_session_id
        ++ (le_bytes 8 id ++ (le_bytes 4 seq ++ (le_bytes 4 (length msg) ++ (msg ++ more)))))

module _ {W : Type 0} (w : Writer W) (bytes_of : W → Bytes) (new_buffer : W)
    (takes : IsBuffer w bytes_of) (empty : bytes_of new_buffer ≡ []) where
  pub serialize_packet_lem :
      (client : MessageInformator) (msg more : Bytes) (id seq : ℕ)
      → length msg < 2 ^ 32
      → serialize_packet w bytes_of new_buffer client msg id seq ++ more
        ≡ packet_wire client msg id seq more
  unfolding serialize_packet
  serialize_packet_lem client msg more id seq h =
      let a = le_bytes 8 client.get_server_salt in
      let b = le_bytes 8 client.get_session_id in
      let c = le_bytes 8 id in
      let d = le_bytes 4 seq in
      let n = le_bytes 4 (length msg) in
      let e0 = new_encoder new_buffer in
      let p1 = write-Appends takes e0 a refl in
      let e1 = put_raw_bytes w e0 a in
      let p2 = put_long-Appends takes e1 client.get_session_id p1.no_error in
      let e2 = put_long w e1 client.get_session_id in
      let p3 = put_long-Appends takes e2 id p2.no_error in
      let e3 = put_long w e2 id in
      let p4 = put_uint-Appends takes e3 seq p3.no_error in
      let e4 = put_uint w e3 seq in
      let size : length msg % 2 ^ 32 ≡ length msg = omega arith in
      let p5 = put_uint-Appends takes e4 (length msg) p4.no_error in
      let p6 = write-Appends takes (put_uint w e4 (length msg)) msg p5.no_error in
      rw
        (
          size,
          p6.wrote_bytes,
          p5.wrote_bytes,
          p4.wrote_bytes,
          p3.wrote_bytes,
          p2.wrote_bytes,
          p1.wrote_bytes,
          empty,
          append_assoc (((((a ++ b) ++ c) ++ d) ++ n)) msg more,
          append_assoc (((a ++ b) ++ c) ++ d) n (msg ++ more),
          append_assoc ((a ++ b) ++ c) d (n ++ (msg ++ more)),
          append_assoc (a ++ b) c (d ++ (n ++ (msg ++ more))),
          append_assoc a b (c ++ (d ++ (n ++ (msg ++ more)))),
        )
        refl

  pub put_envelope_lem :
      (key_hash msg_key encrypted : Bytes)
      → put_envelope w bytes_of new_buffer key_hash (ok (encrypted, msg_key))
        ≡ ok (key_hash ++ (msg_key ++ encrypted))
  unfolding put_envelope
  put_envelope_lem key_hash msg_key encrypted =
      let e0 = new_encoder new_buffer in
      let p1 = write-Appends takes e0 key_hash refl in
      let e1 = put_raw_bytes w e0 key_hash in
      let p2 = write-Appends takes e1 msg_key p1.no_error in
      let p3 = write-Appends takes (put_raw_bytes w e1 msg_key) encrypted p2.no_error in
      rw
        (
          p3.wrote_bytes,
          p2.wrote_bytes,
          p1.wrote_bytes,
          empty,
          append_assoc key_hash msg_key encrypted,
        )
        refl

-- A message that a server may send under these fields.
pub record FromServer (m : Encrypted) : Type 0 where
  pub content-IsBytes : IsBytes m.msg
  pub least : 4 ≤ length m.msg
  pub whole : length m.msg % 4 ≡ 0
  pub few : length m.msg < 2 ^ 31
  pub salt_fits : m.salt < 2 ^ 64
  pub session_fits : m.session_id < 2 ^ 64
  pub id_fits : m.msg_id < 2 ^ 64
  pub sequence : m.seq_no < 2 ^ 31
  pub bits : (m.msg_id % 4 ≡ 1) ⊎ (m.msg_id % 4 ≡ 3)

module _ (m : Encrypted) (good : FromServer m) where
  good_length_lem :
      (size : ℕ) → 32 + length m.msg ≤ size → is_bad_length (length m.msg) size ≡ false
  unfolding is_bad_length
  good_length_lem size h =
      rw
        (
          lt→ltb (length m.msg) (2 ^ 31) good.few,
          ge→ltb (length m.msg) 4 good.least,
          good.whole,
          ge→ltb (size - 32) (length m.msg) (omega arith),
        )
        refl

  bits_lem : (not (bit_and m.msg_id 3 == 1) && not (bit_and m.msg_id 3 == 3)) ≡ false
  bits_lem = elim good.bits [
    | inl one ↦ rw (and_three m.msg_id, one) refl
    | inr three ↦ rw (and_three m.msg_id, three) refl
  ]

  pub check_fields_lem :
      (base : Encrypted) (size : ℕ) (d : Decoder)
      → base.msg_id ≡ m.msg_id
      → base.seq_no ≡ m.seq_no
      → 32 + length m.msg + 12 ≤ size
      → size ≤ 32 + length m.msg + 1024
      → check_fields base (length m.msg) size d
        ≡ with_body base (pop_raw_bytes (pos (length m.msg)) d)
  unfolding check_fields
  check_fields_lem base size d id seq enough few =
      rw
        (
          id,
          seq,
          good_length_lem size (omega arith),
          ge→ltb (size - 32 - length m.msg) 12 (omega arith),
          ge→ltb 1024 (size - 32 - length m.msg) (omega arith),
          lt→ltb m.seq_no (2 ^ 31) good.sequence,
          bits_lem,
        )
        refl
