-- ===== src/Messages/Encrypted/Delivery.antt =====
-- What is encrypted for the client, DeserializeEncrypted reads, and what Serialize encrypts, the
-- server can open.
use gogram.Common.{
  ℕ, ◌+◌, ◌-◌, ◌%◌, ◌^◌, ◌≡◌, ◌≤◌, ◌<◌, refl, sym, ap, ◌∙◌, true, false, none, [], ◌++◌, append-nil,
  length, length-append, length-take, length-drop, take, drop, take_all, All-append, ge→ltb, arith,
}
use mathlib.Core.Path.{subst}
use gogram.Common.Bytes.{Bytes, IsByte, IsBytes, le_bytes, le_bytes-IsBytes, same_bytes_refl}
use gogram.Common.Results.{ok}
use gogram.Io.{Writer, IsBuffer}
use gogram.Tl.Decoder.{new_decoder_bytes}
use gogram.Aes.Message.{Crypto, IsCrypto, message_key, encrypt, encrypt_with, decrypt, decrypt_with}
use gogram.Aes.Message.RoundTrip.{decrypt-encrypt_message}
use gogram.Messages.Encrypted.{
  Encrypted, MessageInformator, client_for, serialize_packet, auth_key_hash_of, read_fields,
  fresh_message, serialize_encrypted, authenticated, deserialize_encrypted,
}
use gogram.Messages.Encrypted.Parsing.{part, check_key_hash_lem}
use gogram.Messages.Encrypted.Packet.{
  part_at, packet_wire, serialize_packet_lem, put_envelope_lem, FromServer,
}
use gogram.Messages.Encrypted.Wire.{informator, wire, length-wire, read_wire}

module _ (o : Crypto) (sha1 : Bytes → Bytes) (auth_key msg_key out : Bytes) where
  abbrev key_hash : Bytes
  key_hash = auth_key_hash_of sha1 auth_key

  abbrev envelope : Bytes
  envelope = key_hash ++ (msg_key ++ out)

  module _ (eight : length key_hash ≡ 8) (sixteen : length msg_key ≡ 16) where
    length-envelope : length envelope ≡ 24 + length out
    length-envelope =
        omega (arith, length-append key_hash (msg_key ++ out), length-append msg_key out)

    out_part : part envelope 24 (length envelope - 24) ≡ out
    out_part =
        let (_, h1) = part_at envelope key_hash (msg_key ++ out) 0 8 8 refl eight refl in
        let (_, h2) = part_at envelope msg_key out 8 16 24 h1 sixteen refl in
        ap (take (length envelope - 24)) h2
        ∙ take_all (length envelope - 24) out (omega (arith, length-envelope))

    opened_envelope :
        (padded : Bytes)
        → length auth_key ≡ 256
        → 48 ≤ length out
        → length out % 16 ≡ 0
        → decrypt o out auth_key msg_key ≡ ok padded
        → message_key o auth_key padded true ≡ msg_key
        → deserialize_encrypted o sha1 envelope auth_key
          ≡ read_fields (fresh_message key_hash msg_key) (length padded) (new_decoder_bytes padded)
    unfolding deserialize_encrypted authenticated
    opened_envelope padded fits least whole opened authentic =
        let (v1, h1) = part_at envelope key_hash (msg_key ++ out) 0 8 8 refl eight refl in
        let (v2, _) = part_at envelope msg_key out 8 16 24 h1 sixteen refl in
        let blocks : (length envelope - 24) % 16 ≡ 0 = omega (arith, length-envelope) in
        rw
          (
            fits,
            ge→ltb (length envelope) 72 (omega (arith, length-envelope)),
            blocks,
            check_key_hash_lem o sha1 auth_key envelope (omega (arith, length-envelope)),
            v1,
            v2,
            out_part,
            same_bytes_refl key_hash,
            opened,
            authentic,
            same_bytes_refl msg_key,
          )
          refl

module _ (o : Crypto) (lawful : IsCrypto o) (sha1 : Bytes → Bytes)
    (twenty : (b : Bytes) → length (sha1 b) ≡ 20) where
  length-key_hash : (key : Bytes) → length (auth_key_hash_of sha1 key) ≡ 8
  unfolding auth_key_hash_of
  length-key_hash key =
      omega (arith, twenty key, length-take 8 (drop 12 (sha1 key)), length-drop 12 (sha1 key))

  module _ {W : Type 0} (w : Writer W) (bytes_of : W → Bytes) (new_buffer : W)
      (takes : IsBuffer w bytes_of) (empty : bytes_of new_buffer ≡ []) (m : Encrypted) where
    abbrev packet_of : MessageInformator → ℕ → Bytes
    packet_of client seq = serialize_packet w bytes_of new_buffer client m.msg m.msg_id seq

    packet-IsBytes :
        (client : MessageInformator) (seq : ℕ)
        → IsBytes m.msg
        → length m.msg < 2 ^ 32
        → IsBytes (packet_of client seq)
    packet-IsBytes client seq h few =
        let a = le_bytes 8 client.get_server_salt in
        let b = le_bytes 8 client.get_session_id in
        let c = le_bytes 8 m.msg_id in
        let d = le_bytes 4 seq in
        let n = le_bytes 4 (length m.msg) in
        let wired =
          serialize_packet_lem w bytes_of new_buffer takes empty client m.msg [] m.msg_id seq few in
        let content = All-append IsByte m.msg [] h tt in
        let with_size =
          All-append IsByte n (m.msg ++ []) (le_bytes-IsBytes 4 (length m.msg)) content in
        let with_seq =
          All-append IsByte d (n ++ (m.msg ++ [])) (le_bytes-IsBytes 4 seq) with_size in
        let with_id =
          All-append IsByte c (d ++ (n ++ (m.msg ++ []))) (le_bytes-IsBytes 8 m.msg_id) with_seq in
        let with_session =
          All-append IsByte b (c ++ (d ++ (n ++ (m.msg ++ []))))
            (le_bytes-IsBytes 8 client.get_session_id) with_id in
        subst IsBytes (sym wired ∙ append-nil (packet_of client seq)) (
          All-append IsByte a (b ++ (c ++ (d ++ (n ++ (m.msg ++ [])))))
            (le_bytes-IsBytes 8 client.get_server_salt) with_session)

    -- The packet, encrypted by the server, and the message that the client reads.
    pub record Answered (auth_key : Bytes) : Type 0 where
      pub msg_key : Bytes
      pub out : Bytes
      pub sent :
          encrypt_with o (packet_of (informator auth_key m) m.seq_no) auth_key true
          ≡ ok (out, msg_key)
      pub received :
          deserialize_encrypted o sha1 (auth_key_hash_of sha1 auth_key ++ (msg_key ++ out)) auth_key
          ≡ ok (record m {
            auth_key_hash = auth_key_hash_of sha1 auth_key;
            auth_key = none;
            msg_key = msg_key;
          })

    -- Over a hash of 20 bytes, lawful cryptography and a new buffer that takes every write, under a
    -- shared key of 256 bytes: a packet with the fields and the content of a message that
    -- a server may send, encrypted for the client, comes back from `DeserializeEncrypted` as the
    -- message.
    pub deserialize-encrypt_answer :
        (auth_key : Bytes) → length auth_key ≡ 256 → FromServer m → Answered auth_key
    deserialize-encrypt_answer auth_key fits good =
        let few = good.few in
        let least = good.least in
        let whole = good.whole in
        let plain = packet_of (informator auth_key m) m.seq_no in
        let q =
          decrypt-encrypt_message o lawful plain auth_key true
            (packet-IsBytes (informator auth_key m) m.seq_no good.content-IsBytes (omega arith))
            fits in
        let wired =
          serialize_packet_lem w bytes_of new_buffer takes empty (informator auth_key m) m.msg
            q.padding m.msg_id m.seq_no (omega arith) in
        let padded = wire m good auth_key q.padding in
        let size = length-wire m good auth_key q.padding in
        let p1 = q.enough_padding in
        let p2 = q.little_padding in
        let total : length q.out ≡ length padded =
          q.length-out ∙ sym (length-append plain q.padding) ∙ ap length wired in
        record {
          msg_key = q.msg_key;
          out = q.out;
          sent = q.sent;
          received =
              opened_envelope o sha1 auth_key q.msg_key q.out (length-key_hash auth_key)
                q.length-msg_key padded fits (omega arith) q.whole_blocks (q.received ∙ ap ok wired)
                (ap (λ b. message_key o auth_key b true) (sym wired) ∙ q.authentic)
              ∙ read_wire m good auth_key q.padding (auth_key_hash_of sha1 auth_key) q.msg_key
                  (omega arith) (omega arith);
        }

    -- What goes over the wire, and what the server gets from it.
    pub record Carried (client used : MessageInformator) (seq_no : ℕ) : Type 0 where
      pub msg_key : Bytes
      pub out : Bytes
      pub padding : Bytes
      pub sent :
          serialize_encrypted o sha1 w bytes_of new_buffer m client seq_no
          ≡ ok (auth_key_hash_of sha1 used.get_auth_key ++ (msg_key ++ out))
      pub opens :
          decrypt_with o out used.get_auth_key msg_key false
          ≡ ok (packet_wire used m.msg m.msg_id seq_no padding)
      pub authentic :
          message_key o used.get_auth_key (packet_wire used m.msg m.msg_id seq_no padding) false
          ≡ msg_key
      pub enough_padding : 12 ≤ length padding
      pub little_padding : length padding ≤ 1024

    serialize_call :
        (client : MessageInformator) (seq_no : ℕ) (out msg_key : Bytes)
        → (let used = client_for m.auth_key m client seq_no in
            encrypt o (packet_of used seq_no) used.get_auth_key ≡ ok (out, msg_key))
        → serialize_encrypted o sha1 w bytes_of new_buffer m client seq_no
          ≡ ok (
              auth_key_hash_of sha1 (client_for m.auth_key m client seq_no).get_auth_key
              ++ (msg_key ++ out))
    unfolding serialize_encrypted
    serialize_call client seq_no out msg_key h =
        let used = client_for m.auth_key m client seq_no in
        rw h (
          put_envelope_lem w bytes_of new_buffer takes empty
            (auth_key_hash_of sha1 used.get_auth_key) msg_key out)

    -- Over a hash of 20 bytes, lawful cryptography and a new buffer that takes every write, for a
    -- content below 2^32 bytes, under the key of the message, or else that of the client, of 256 bytes: `Serialize` writes
    -- the hash of the key, the message key and a ciphertext, which opens under the client's
    -- direction to the salt, the session, the id, the sequence number, the size and the content,
    -- with 12 to 1024 bytes of padding, and the message key is that of the whole plaintext.
    pub serialize_encrypted-Carried :
        (client : MessageInformator) (seq_no : ℕ)
        → length (client_for m.auth_key m client seq_no).get_auth_key ≡ 256
        → IsBytes m.msg
        → length m.msg < 2 ^ 32
        → Carried client (client_for m.auth_key m client seq_no) seq_no
    serialize_encrypted-Carried client seq_no fits h few =
        let used = client_for m.auth_key m client seq_no in
        let q =
          decrypt-encrypt_message o lawful (packet_of used seq_no) used.get_auth_key false
            (packet-IsBytes used seq_no h few) fits in
        let wired =
          serialize_packet_lem w bytes_of new_buffer takes empty used m.msg q.padding m.msg_id
            seq_no few in
        let p1 = q.enough_padding in
        let p2 = q.little_padding in
        record {
          msg_key = q.msg_key;
          out = q.out;
          padding = q.padding;
          sent = serialize_call client seq_no q.out q.msg_key q.sent;
          opens = q.received ∙ ap ok wired;
          authentic = ap (λ b. message_key o used.get_auth_key b false) (sym wired) ∙ q.authentic;
          enough_padding = omega arith;
          little_padding = omega arith;
        }
