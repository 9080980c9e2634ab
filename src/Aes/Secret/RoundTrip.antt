-- ===== src/Aes/Secret/RoundTrip.antt =====
-- Both sides of a secret chat: what one encrypts the other decrypts.
use gogram.Common.{
  ℕ, ◌+◌, ◌%◌, ◌^◌, ◌≡◌, ◌≤◌, ◌<◌, refl, sym, ap, ◌∙◌, Bool, some, ◌++◌, append_assoc, length,
  length-append, length-take, length-drop, take, drop, take_prefix, drop_prefix, All-append, arith,
  ge→ltb,
}
use gogram.Common.Bytes.{
  Bytes, IsByte, IsBytes, le_bytes, from_le, le_bytes-IsBytes, length-le_bytes, from_le-le_bytes,
  same_bytes_refl,
}
use gogram.Common.Results.{ok}
use gogram.Aes.Message.{Crypto, IsCrypto, interleave}
use gogram.Aes.Message.Sealing.{Sealed, seals, length-interleave, interleave-IsBytes}
use gogram.Aes.Secret.{
  originator_offset, rand_num, round_up, padding_len_for, with_length, turned, check_plain,
  compute_secret_chat_aes_key_iv, secret_msg_key, encrypt_data, fill_padding, with_rand_bytes,
  encrypt_message_mt_proto, check_decrypted, decrypt_message_mt_proto,
}

padding_len_bounds :
    (prefixed num : ℕ)
    → (12 ≤ padding_len_for prefixed num)
      × (padding_len_for prefixed num ≤ 1024)
      × ((prefixed + padding_len_for prefixed num) % 16 ≡ 0)
unfolding padding_len_for round_up
padding_len_bounds prefixed num = (ground arith, ground arith, ground arith)

-- The tests on the text that was decrypted.
module _ (plaintext padding : Bytes) (small : length plaintext < 2 ^ 32)
    (least : 12 ≤ length padding) (most : length padding ≤ 1024) where
  check_plain-with_length : check_plain (with_length plaintext padding) ≡ ok plaintext
  unfolding check_plain with_length
  check_plain-with_length =
      let head = le_bytes 4 (length plaintext) in
      let four = length-le_bytes 4 (length plaintext) in
      let whole = (head ++ plaintext) ++ padding in
      let total : length whole ≡ 4 + length plaintext + length padding =
        omega (arith, length-append (head ++ plaintext) padding, length-append head plaintext) in
      let front : take 4 whole ≡ head =
        ap (take 4) (append_assoc head plaintext padding)
        ∙ take_prefix 4 head (plaintext ++ padding) (sym four) in
      let back : drop 4 whole ≡ plaintext ++ padding =
        ap (drop 4) (append_assoc head plaintext padding)
        ∙ drop_prefix 4 head (plaintext ++ padding) (sym four) in
      let size : from_le (take 4 whole) ≡ length plaintext =
        ap from_le front ∙ from_le-le_bytes 4 (length plaintext) (omega arith) in
      rw (size, back, take_prefix (length plaintext) plaintext padding refl, total) (ground arith)

  length-with_length :
      length (with_length plaintext padding) ≡ 4 + length plaintext + length padding
  unfolding with_length
  length-with_length =
      let head = le_bytes 4 (length plaintext) in
      omega (
        arith,
        length-append (head ++ plaintext) padding,
        length-append head plaintext,
        length-le_bytes 4 (length plaintext),
      )

with_length-IsBytes :
    (plaintext padding : Bytes)
    → IsBytes plaintext
    → IsBytes padding
    → IsBytes (with_length plaintext padding)
unfolding with_length
with_length-IsBytes plaintext padding h k =
    let head = le_bytes 4 (length plaintext) in
    All-append IsByte (head ++ plaintext) padding
      (All-append IsByte head plaintext (le_bytes-IsBytes 4 (length plaintext)) h) k

module _ (o : Crypto) (lawful : IsCrypto o) where
  length-secret_msg_key :
      (key plain : Bytes) (is_originator : Bool)
      → length (secret_msg_key o key plain is_originator) ≡ 16
  unfolding secret_msg_key
  length-secret_msg_key key plain is_originator =
      let large = take 32 (drop (88 + originator_offset is_originator) key) ++ plain in
      omega (
        arith,
        length-take 16 (drop 8 (o.sha256 large)),
        length-drop 8 (o.sha256 large),
        lawful.length-sha256 large,
      )

  -- One or more whole blocks under the keys of a message.
  secret_keys_seal :
      (msg_key key plain : Bytes) (is_originator : Bool)
      → IsBytes plain
      → 16 ≤ length plain
      → length plain % 16 ≡ 0
      → (let (aes_key, aes_iv) = compute_secret_chat_aes_key_iv o msg_key key is_originator in
          Sealed o lawful aes_key aes_iv msg_key plain)
  unfolding compute_secret_chat_aes_key_iv
  secret_keys_seal msg_key key plain is_originator h least whole =
      let first = msg_key ++ take 36 (drop (originator_offset is_originator) key) in
      let second = take 36 (drop (40 + originator_offset is_originator) key) ++ msg_key in
      let a = o.sha256 first in
      let b = o.sha256 second in
      let la = lawful.length-sha256 first in
      let lb = lawful.length-sha256 second in
      seals o lawful (interleave a b) (interleave b a) msg_key plain (length-interleave a b la lb)
        (length-interleave b a lb la)
        (interleave-IsBytes b a (lawful.sha256-IsBytes second) (lawful.sha256-IsBytes first)) h
        least whole

  -- What the sender gets, and what the receiver gets from that.
  pub record SecretDelivered (key plaintext : Bytes) (is_originator : Bool) : Type 0 where
    pub msg_key : Bytes
    pub encrypted : Bytes
    pub sent : encrypt_message_mt_proto o key plaintext is_originator ≡ ok (msg_key, encrypted)
    pub received : decrypt_message_mt_proto o key msg_key encrypted is_originator ≡ ok plaintext

  module _ (key plaintext padding : Bytes) (is_originator : Bool) (h : length key ≡ 256) where
    abbrev plain : Bytes
    plain = with_length plaintext padding

    abbrev hash : Bytes
    hash = secret_msg_key o key plain is_originator

    abbrev KeysSeal : Type 0
    KeysSeal =
        Sealed o lawful (compute_secret_chat_aes_key_iv o hash key is_originator).0
          (compute_secret_chat_aes_key_iv o hash key is_originator).1 hash plain

    encrypt_data_lem : (q : KeysSeal) → encrypt_data o key is_originator plain ≡ ok (hash, q.out)
    unfolding encrypt_data turned
    encrypt_data_lem q = rw q.sealing refl

    decrypt_lem :
        (q : KeysSeal)
        → check_plain plain ≡ ok plaintext
        → decrypt_message_mt_proto o key hash q.out is_originator ≡ ok plaintext
    unfolding decrypt_message_mt_proto check_decrypted
    decrypt_lem q opened =
        rw (h, length-secret_msg_key key plain is_originator, q.opening, same_bytes_refl hash)
          opened

    with_padding_lem :
        (bytes : Bytes)
        → o.rand 2 ≡ some bytes
        → o.rand (padding_len_for (4 + length plaintext) (rand_num bytes)) ≡ some padding
        → encrypt_message_mt_proto o key plaintext is_originator
          ≡ encrypt_data o key is_originator plain
    unfolding encrypt_message_mt_proto with_rand_bytes fill_padding
    with_padding_lem bytes drew filled =
        let (least, most, _) = padding_len_bounds (4 + length plaintext) (rand_num bytes) in
        let pad = padding_len_for (4 + length plaintext) (rand_num bytes) in
        rw (h, drew, ge→ltb pad 12 least, ge→ltb 1024 pad most, filled) refl

  -- Over a hash of 32 bytes, a lawful block cipher and a random source that works, under a shared
  -- key of 256 bytes: every text below 2^32 bytes is encrypted, whatever is drawn,
  -- and the other side decrypts it to the text.
  pub decrypt-encrypt_secret :
      (key plaintext : Bytes) (is_originator : Bool)
      → IsBytes plaintext
      → length key ≡ 256
      → length plaintext < 2 ^ 32
      → SecretDelivered key plaintext is_originator
  decrypt-encrypt_secret key plaintext is_originator k h small =
      let (bytes, drew, _, _) = lawful.drawn 2 in
      let pad = padding_len_for (4 + length plaintext) (rand_num bytes) in
      let (least, most, whole) = padding_len_bounds (4 + length plaintext) (rand_num bytes) in
      let (padding, filled, lp, kp) = lawful.drawn pad in
      let total = length-with_length plaintext padding small (omega arith) (omega arith) in
      let q =
        secret_keys_seal (secret_msg_key o key (with_length plaintext padding) is_originator) key
          (with_length plaintext padding) is_originator (with_length-IsBytes plaintext padding k kp)
          (omega arith) (omega arith) in
      record {
        msg_key = secret_msg_key o key (with_length plaintext padding) is_originator;
        encrypted = q.out;
        sent =
            with_padding_lem key plaintext padding is_originator h bytes drew filled
            ∙ encrypt_data_lem key plaintext padding is_originator h q;
        received =
            decrypt_lem key plaintext padding is_originator h q
              (check_plain-with_length plaintext padding small (omega arith) (omega arith));
      }
