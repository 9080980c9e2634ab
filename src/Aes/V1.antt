-- ===== src/Aes/V1.antt =====
-- internal/aes_ige/aes.go: EncryptV1, the encryption of MTProto 1.0, and its keys. SHA-1 is a
-- parameter.
pub mod Opens
use gogram.Common.{
  ℕ, ◌+◌, ◌-◌, ◌%◌, Bool, false, not, Option, none, some, [], ◌++◌, length, take, drop, ltb, ◌==◌,
  if◌then◌else◌,
}
use gogram.Common.Bytes.{Bytes}
use gogram.Common.Results.{Result, ok, err}
use gogram.Aes.Ige.{IgeError, key_size, random, new_cipher}
use gogram.Aes.Message.{Crypto, key_offset, seal}

-- No more than 15 bytes.
unfoldable pub padding_v1 : ℕ → ℕ
padding_v1 size = let padding = 16 - size % 16 in if padding == 16 then 0 else padding

-- The bytes from `i` up to `i + n`.
abbrev pub substr : Bytes → ℕ → ℕ → Bytes
substr b i n = take n (drop i b)

module _ (o : Crypto) (sha1 : Bytes → Bytes) where
  unfoldable pub aes_keys_v1 : Bytes → Bytes → Bool → Bytes × Bytes
  aes_keys_v1 msg_key auth_key decode =
      let x = key_offset decode in
      let sha1a = sha1 (msg_key ++ substr auth_key x 32) in
      let sha1b = sha1 (substr auth_key (32 + x) 16 ++ (msg_key ++ substr auth_key (48 + x) 16)) in
      let sha1c = sha1 (substr auth_key (64 + x) 32 ++ msg_key) in
      let sha1d = sha1 (msg_key ++ substr auth_key (96 + x) 32) in
      (
        take 8 sha1a ++ (substr sha1b 8 12 ++ substr sha1c 4 12),
        substr sha1a 8 12 ++ (take 8 sha1b ++ (substr sha1c 16 4 ++ take 8 sha1d)),
      )

  unfoldable pub seal_v1 : Bytes → Bytes → Bytes → Bool → Result IgeError (Bytes × Bytes)
  seal_v1 msg_data auth_key msg_key decode =
      let (aes_key, aes_iv) = aes_keys_v1 msg_key auth_key decode in
      seal o (new_cipher o.new_aes aes_key aes_iv) msg_key msg_data

  -- What `rand.Read` put behind the text.
  unfoldable pub padded_v1 :
      Bytes → Bytes → Bytes → Bool → Option Bytes → Result IgeError (Bytes × Bytes)
  padded_v1 plaintext auth_key msg_key decode none = err random
  padded_v1 plaintext auth_key msg_key decode (some padding) =
      seal_v1 (plaintext ++ padding) auth_key msg_key decode

  unfoldable pub encrypt_v1_with : Bytes → Bytes → Bool → Result IgeError (Bytes × Bytes)
  encrypt_v1_with plaintext auth_key decode =
      let padding = padding_v1 (length plaintext) in
      let msg_key = take 16 (drop 4 (sha1 plaintext)) in
      if not (length auth_key == 256)
      then err key_size
      else if ltb 0 padding
      then padded_v1 plaintext auth_key msg_key decode (o.rand padding)
      else seal_v1 plaintext auth_key msg_key decode

  abbrev pub encrypt_v1 : Bytes → Bytes → Result IgeError (Bytes × Bytes)
  encrypt_v1 plaintext auth_key = encrypt_v1_with plaintext auth_key false
