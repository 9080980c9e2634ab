-- ===== src/Messages/Encrypted/Wire.antt =====
-- The plaintext of a packet is read back to its message.
use gogram.Common.{◌+◌, ◌≡◌, ◌≤◌, refl, ap, ◌∙◌, none, ◌++◌, length, length-append, arith}
use gogram.Common.Bytes.{Bytes, le_bytes, length-le_bytes, from_le, from_le-le_bytes}
use gogram.Common.Results.{ok}
use gogram.Tl.Decoder.{new_decoder_bytes}
use gogram.Messages.Encrypted.{
  Encrypted, MessageInformator, packet_info, read_fields, fresh_message,
}
use gogram.Messages.Encrypted.Parsing.{part, with_fields, parsed, body_lem}
use gogram.Messages.Encrypted.Packet.{part_at, packet_wire, FromServer, check_fields_lem}

abbrev pub informator : Bytes → Encrypted → MessageInformator
informator auth_key m = packet_info auth_key m.salt m.session_id m.seq_no

module _ (m : Encrypted) (good : FromServer m) (auth_key more : Bytes) where
  abbrev pub wire : Bytes
  wire = packet_wire (informator auth_key m) m.msg m.msg_id m.seq_no more

  pub length-wire : length wire ≡ 32 + length m.msg + length more
  length-wire =
      let a = le_bytes 8 m.salt in
      let b = le_bytes 8 m.session_id in
      let c = le_bytes 8 m.msg_id in
      let d = le_bytes 4 m.seq_no in
      let n = le_bytes 4 (length m.msg) in
      omega (
        arith,
        length-append a (b ++ (c ++ (d ++ (n ++ (m.msg ++ more))))),
        length-append b (c ++ (d ++ (n ++ (m.msg ++ more)))),
        length-append c (d ++ (n ++ (m.msg ++ more))),
        length-append d (n ++ (m.msg ++ more)),
        length-append n (m.msg ++ more),
        length-append m.msg more,
        length-le_bytes 8 m.salt,
        length-le_bytes 8 m.session_id,
        length-le_bytes 8 m.msg_id,
        length-le_bytes 4 m.seq_no,
        length-le_bytes 4 (length m.msg),
      )

  -- What the fields of the packet say.
  pub record WireFields : Type 0 where
    salt_field : from_le (part wire 0 8) ≡ m.salt
    session_field : from_le (part wire 8 8) ≡ m.session_id
    id_field : from_le (part wire 16 8) ≡ m.msg_id
    seq_field : from_le (part wire 24 4) ≡ m.seq_no
    size_field : from_le (part wire 28 4) ≡ length m.msg
    content : part wire 32 (length m.msg) ≡ m.msg

  wire_fields : WireFields
  wire_fields =
      let f1 = good.salt_fits in
      let f2 = good.session_fits in
      let f3 = good.id_fits in
      let f4 = good.sequence in
      let f5 = good.few in
      let a = le_bytes 8 m.salt in
      let b = le_bytes 8 m.session_id in
      let c = le_bytes 8 m.msg_id in
      let d = le_bytes 4 m.seq_no in
      let n = le_bytes 4 (length m.msg) in
      let (v1, h1) =
        part_at wire a (b ++ (c ++ (d ++ (n ++ (m.msg ++ more))))) 0 8 8 refl
          (length-le_bytes 8 m.salt) refl in
      let (v2, h2) =
        part_at wire b (c ++ (d ++ (n ++ (m.msg ++ more)))) 8 8 16 h1
          (length-le_bytes 8 m.session_id) refl in
      let (v3, h3) =
        part_at wire c (d ++ (n ++ (m.msg ++ more))) 16 8 24 h2 (length-le_bytes 8 m.msg_id) refl in
      let (v4, h4) =
        part_at wire d (n ++ (m.msg ++ more)) 24 4 28 h3 (length-le_bytes 4 m.seq_no) refl in
      let (v5, h5) =
        part_at wire n (m.msg ++ more) 28 4 32 h4 (length-le_bytes 4 (length m.msg)) refl in
      let (v6, h6) = part_at wire m.msg more 32 (length m.msg) (32 + length m.msg) h5 refl refl in
      record {
        salt_field = ap from_le v1 ∙ from_le-le_bytes 8 m.salt (omega arith);
        session_field = ap from_le v2 ∙ from_le-le_bytes 8 m.session_id (omega arith);
        id_field = ap from_le v3 ∙ from_le-le_bytes 8 m.msg_id (omega arith);
        seq_field = ap from_le v4 ∙ from_le-le_bytes 4 m.seq_no (omega arith);
        size_field = ap from_le v5 ∙ from_le-le_bytes 4 (length m.msg) (omega arith);
        content = v6;
      }

  -- The message that was read, under its key.
  abbrev pub read_as : Bytes → Bytes → Encrypted
  read_as key_hash msg_key = record m {
    auth_key_hash = key_hash;
    auth_key = none;
    msg_key = msg_key;
  }

  pub read_wire :
      (key_hash msg_key : Bytes)
      → 12 ≤ length more
      → length more ≤ 1024
      → read_fields (fresh_message key_hash msg_key) (length wire) (new_decoder_bytes wire)
        ≡ ok (read_as key_hash msg_key)
  read_wire key_hash msg_key enough few =
      let q =
        parsed (fresh_message key_hash msg_key) (length wire) wire (omega (arith, length-wire)) in
      let f = wire_fields in
      let base = with_fields (fresh_message key_hash msg_key) wire in
      let least = good.least in
      q.fields_read
      ∙ rw f.size_field (
          check_fields_lem m good base (length wire) q.at_body f.id_field f.seq_field
            (omega (arith, length-wire)) (omega (arith, length-wire)))
      ∙ body_lem base wire q.at_body (length m.msg) q.no_error q.left (omega arith)
          (omega (arith, length-wire))
      ∙ rw (f.content, f.salt_field, f.session_field, f.id_field, f.seq_field) refl
