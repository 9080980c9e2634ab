-- ===== src/Aes/Secret/Authentic.antt =====
-- What DecryptMessageMTProto returns was authenticated.
use mathlib.Core.Path.{subst}
use gogram.Common.{
  ℕ, ◌+◌, ◌-◌, ◌≡◌, ◌≤◌, refl, sym, Bool, not, ◌||◌, length, length-take, length-drop, take, drop,
  arith, ltb, ltb→ge, ◌==◌, if◌then◌else◌,
}
use gogram.Common.Bytes.{Bytes, from_le, same_bytes, same_bytes-eq}
use gogram.Common.Results.{Result, ok, err, else_branch, ok_injective, not-false, or_false}
use gogram.Aes.Ige.{IgeError, key_size, msg_key_size, new_cipher}
use gogram.Aes.Message.{Crypto, unseal}
use gogram.Aes.Secret.{
  SecretError, crypto, msg_key_mismatch, decrypted_too_short, invalid_length, invalid_padding,
  min_pad, max_pad, check_plain, compute_secret_chat_aes_key_iv, secret_msg_key, check_decrypted,
  decrypt_message_mt_proto,
}

-- The text stands in `decrypted` behind its length, with 12 to 1024 bytes after it.
pub record Framed (decrypted plaintext : Bytes) : Type 0 where
  pub text : plaintext ≡ take (length plaintext) (drop 4 decrypted)
  pub size : from_le (take 4 decrypted) ≡ length plaintext
  pub least : 4 + length plaintext + 12 ≤ length decrypted
  pub most : length decrypted ≤ 4 + length plaintext + 1024

frames :
    (d : Bytes) (n : ℕ)
    → from_le (take 4 d) ≡ n
    → 4 ≤ length d
    → n ≤ length d - 4
    → 12 ≤ length d - 4 - n
    → length d - 4 - n ≤ 1024
    → Framed d (take n (drop 4 d))
frames d n e four fits least most =
    let size : length (take n (drop 4 d)) ≡ n =
      omega (arith, length-take n (drop 4 d), length-drop 4 d) in
    record { text = rw size refl; size = rw size e; least = omega arith; most = omega arith }

check_plain-Framed : (d t : Bytes) → check_plain d ≡ ok t → Framed d t
unfolding check_plain
check_plain-Framed d t h =
    let n = from_le (take 4 d) in
    let pad = length d - 4 - n in
    let inner : Result SecretError Bytes = ok (take n (drop 4 d)) in
    let padded : Result SecretError Bytes =
      if ltb pad min_pad || ltb max_pad pad then err (invalid_padding pad) else inner in
    let fitting : Result SecretError Bytes =
      if ltb (length d - 4) n then err (invalid_length n) else padded in
    let (four, h1) = else_branch (ltb (length d) 4) decrypted_too_short fitting h in
    let (fits, h2) = else_branch (ltb (length d - 4) n) (invalid_length n) padded h1 in
    let (both, h3) =
      else_branch (ltb pad min_pad || ltb max_pad pad) (invalid_padding pad) inner h2 in
    let (least, most) = or_false (ltb pad min_pad) (ltb max_pad pad) both in
    subst (Framed d) (ok_injective h3) (
      frames d n refl (ltb→ge (length d) 4 four) (ltb→ge (length d - 4) n fits)
        (ltb→ge pad min_pad least) (ltb→ge max_pad pad most))

module _ (o : Crypto) (key msg_key : Bytes) (is_originator : Bool) where
  -- Bytes that make the message key, and hold the text.
  pub record Authentic (plaintext : Bytes) : Type 0 where
    pub decrypted : Bytes
    pub made_key : secret_msg_key o key decrypted is_originator ≡ msg_key
    pub framed : Framed decrypted plaintext

  check_decrypted-Authentic :
      (r : Result IgeError Bytes) (t : Bytes)
      → check_decrypted o key msg_key is_originator r ≡ ok t
      → Authentic t
  unfolding check_decrypted
  check_decrypted-Authentic (ok d) t h =
      let expected = secret_msg_key o key d is_originator in
      let (same, inner) =
        else_branch (not (same_bytes msg_key expected)) msg_key_mismatch (check_plain d) h in
      record {
        decrypted = d;
        made_key =
            sym (same_bytes-eq msg_key expected (not-false (same_bytes msg_key expected) same));
        framed = check_plain-Framed d t inner;
      }
  check_decrypted-Authentic (err e) t h = ground arith

  -- Whatever arrives: a text that `DecryptMessageMTProto` returns was framed in bytes that make the
  -- message key under the shared key, with 12 to 1024 bytes of padding behind it.
  pub decrypt_message_mt_proto-Authentic :
      (encrypted plaintext : Bytes)
      → decrypt_message_mt_proto o key msg_key encrypted is_originator ≡ ok plaintext
      → (length key ≡ 256) × (length msg_key ≡ 16) × Authentic plaintext
  unfolding decrypt_message_mt_proto
  decrypt_message_mt_proto-Authentic encrypted plaintext h =
      let (aes_key, aes_iv) = compute_secret_chat_aes_key_iv o msg_key key is_originator in
      let opened = unseal o (new_cipher o.new_aes aes_key aes_iv) encrypted in
      let checked = check_decrypted o key msg_key is_originator opened in
      let inner : Result SecretError Bytes =
        if not (length msg_key == 16) then err (crypto msg_key_size) else checked in
      let (key_fits, h1) = else_branch (not (length key == 256)) (crypto key_size) inner h in
      let (hash_fits, h2) =
        else_branch (not (length msg_key == 16)) (crypto msg_key_size) checked h1 in
      (ground arith, ground arith, check_decrypted-Authentic opened plaintext h2)
