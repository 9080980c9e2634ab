-- ===== src/Aes/Message/RoundTrip.antt =====
-- A message that was encrypted opens again under the same key and direction, and its content
-- makes the message key that it came with.
use gogram.Common.{
  ℕ, ◌+◌, ◌-◌, ◌%◌, ◌≡◌, ◌≤◌, refl, ◌∙◌, Bool, some, ◌++◌, length, length-append, length-take,
  length-drop, take, drop, All-append, arith,
}
use gogram.Common.Bits.{and_fifteen}
use gogram.Common.Bytes.{Bytes, IsByte, IsBytes}
use gogram.Common.Results.{ok}
use gogram.Aes.Ige.{Cipher, new_cipher}
use gogram.Aes.Ige.RoundTrip.{OpensTo}
use gogram.Aes.Message.Sealing.{cipher_of, zeros, seal_lem, unseal_lem, sealed_data}
use gogram.Aes.Message.{
  Crypto, IsCrypto, key_offset, padding_for, message_key, aes_keys, encrypt_padded, with_padding,
  encrypt_with, decrypt_with,
}

padding_bounds :
    (size : ℕ)
    → (16 ≤ padding_for size) × (padding_for size ≤ 31) × ((size + padding_for size) % 16 ≡ 0)
unfolding padding_for
padding_bounds size = rw (and_fifteen (16 - size % 16)) (omega arith, omega arith, omega arith)

module _ (o : Crypto) (lawful : IsCrypto o) where
  length-message_key :
      (auth_key padded : Bytes) (decode : Bool)
      → length auth_key ≡ 256
      → length (message_key o auth_key padded decode) ≡ 16
  unfolding message_key
  length-message_key auth_key padded decode h =
      let large = take 32 (drop (88 + key_offset decode) auth_key) ++ padded in
      rw h (
        omega (
          arith,
          length-take 16 (drop 8 (o.sha256 large)),
          length-drop 8 (o.sha256 large),
          lawful.length-sha256 large,
        ))

  -- What the encryption of a message gives, and what its decryption gives.
  pub record Delivered (msg auth_key : Bytes) (decode : Bool) : Type 0 where
    pub out : Bytes
    pub msg_key : Bytes
    pub padding : Bytes
    pub sent : encrypt_with o msg auth_key decode ≡ ok (out, msg_key)
    pub received : decrypt_with o out auth_key msg_key decode ≡ ok (msg ++ padding)
    pub authentic : message_key o auth_key (msg ++ padding) decode ≡ msg_key
    pub length-msg_key : length msg_key ≡ 16
    pub length-out : length out ≡ length msg + length padding
    pub whole_blocks : length out % 16 ≡ 0
    pub enough_padding : 16 ≤ length padding
    pub little_padding : length padding ≤ 31

  module _ (msg auth_key padding : Bytes) (decode : Bool)
      (drew : o.rand (padding_for (length msg)) ≡ some padding) (h : length auth_key ≡ 256) where
    abbrev padded : Bytes
    padded = msg ++ padding

    abbrev key : Bytes
    key = message_key o auth_key padded decode

    module _ (c : Cipher)
        (made : new_cipher o.new_aes
            (aes_keys o key auth_key decode).0
            (aes_keys o key auth_key decode).1
          ≡ ok c)
        (q : OpensTo c padded (zeros o lawful padded) (zeros o lawful padded)) where
      sent_lem : encrypt_with o msg auth_key decode ≡ ok (q.sealed_bytes, key)
      unfolding encrypt_with with_padding encrypt_padded
      sent_lem = rw (h, drew, made) (seal_lem o lawful c padded key q)

      received_lem : decrypt_with o q.sealed_bytes auth_key key decode ≡ ok padded
      unfolding decrypt_with
      received_lem =
          rw (h, length-message_key auth_key padded decode h, made) (unseal_lem o lawful c padded q)

      delivered : length padding ≡ padding_for (length msg) → Delivered msg auth_key decode
      delivered lp =
          let (least, most, whole) = padding_bounds (length msg) in
          record {
            out = q.sealed_bytes;
            msg_key = key;
            padding = padding;
            sent = sent_lem;
            received = received_lem;
            authentic = refl;
            length-msg_key = length-message_key auth_key padded decode h;
            length-out = q.length-sealed ∙ length-append msg padding;
            whole_blocks = omega (arith, q.length-sealed, length-append msg padding);
            enough_padding = omega arith;
            little_padding = omega arith;
          }

  -- With a shared key of 256 bytes, `encrypt` takes every message: it pads it with 16 to 31 bytes
  -- to whole blocks. `decrypt` for the same direction gives the message and the padding back,
  -- and `MessageKey` of these is the message key that was sent.
  pub decrypt-encrypt_message :
      (msg auth_key : Bytes) (decode : Bool)
      → IsBytes msg
      → length auth_key ≡ 256
      → Delivered msg auth_key decode
  decrypt-encrypt_message msg auth_key decode k h =
      let (least, most, whole) = padding_bounds (length msg) in
      let (padding, drew, lp, kp) = lawful.drawn (padding_for (length msg)) in
      let lpad = length-append msg padding in
      let msg_key = message_key o auth_key (msg ++ padding) decode in
      let (c, made, good) = cipher_of o lawful msg_key auth_key decode in
      delivered msg auth_key padding decode drew h c made
        (sealed_data o lawful c (msg ++ padding) good (All-append IsByte msg padding k kp)
          (omega arith) (omega arith))
        lp
