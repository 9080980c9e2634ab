-- ===== src/Aes/Message.antt =====
-- internal/aes_ige/aes.go and aesKeys: a message is encrypted under a part of the shared key, and
-- under a message key that is made from its content. SHA-256, AES and the random source are
-- parameters.
pub mod Sealing
pub mod RoundTrip
use gogram.Common.{
  ℕ, ◌+◌, ◌-◌, ◌%◌, ◌≡◌, ◌≤◌, Bool, not, Option, none, some, [], ◌++◌, length, take, drop,
  replicate, bit_and, ◌==◌, if◌then◌else◌,
}
use gogram.Common.Bytes.{Bytes, IsBytes}
use gogram.Common.Results.{Result, ok, err}
use gogram.Aes.Ige.{
  Block, IsBlock, Cipher, IgeError, key_size, msg_key_size, random, new_cipher,
  do_aes256_ige_encrypt, do_aes256_ige_decrypt,
}

-- The libraries that the code calls: `sha256.Sum256`, `aes.NewCipher` and `rand.Read`.
pub record Crypto : Type 0 where
  pub sha256 : Bytes → Bytes
  pub new_aes : Bytes → Option Block
  pub rand : ℕ → Option Bytes

-- A hash has 32 bytes, a key of 32 bytes has a block cipher, and the random source gives as many
-- bytes as it is asked for.
pub record IsCrypto (o : Crypto) : Type 0 where
  pub length-sha256 : (b : Bytes) → length (o.sha256 b) ≡ 32
  pub sha256-IsBytes : (b : Bytes) → IsBytes (o.sha256 b)
  pub block_of :
      (key : Bytes) → length key ≡ 32 → (b : Block) × (o.new_aes key ≡ some b) × IsBlock b
  pub drawn : (n : ℕ) → (bs : Bytes) × (o.rand n ≡ some bs) × (length bs ≡ n) × IsBytes bs

-- Where the key material for a direction starts.
abbrev pub key_offset : Bool → ℕ
key_offset decode = if decode then 8 else 0

-- `substr (sha256_a, 0, 8) + substr (sha256_b, 8, 16) + substr (sha256_a, 24, 8)`
unfoldable pub interleave : Bytes → Bytes → Bytes
interleave a b = take 8 a ++ (take 16 (drop 8 b) ++ take 8 (drop 24 a))

unfoldable pub padding_for : ℕ → ℕ
padding_for size = 16 + bit_and (16 - size % 16) 15

-- The result of a call of the cipher, which is used for one message only.
unfoldable pub sealed_with :
    Bytes → Cipher × Result IgeError Bytes → Result IgeError (Bytes × Bytes)
sealed_with msg_key (c, ok out) = ok (out, msg_key)
sealed_with msg_key (c, err e) = err e

unfoldable pub opened_with : Cipher × Result IgeError Bytes → Result IgeError Bytes
opened_with (c, r) = r

module _ (o : Crypto) where
  unfoldable pub message_key : Bytes → Bytes → Bool → Bytes
  message_key auth_key msg_padded decode =
      if not (length auth_key == 256)
      then []
      else take 16
          (drop 8 (o.sha256 (take 32 (drop (88 + key_offset decode) auth_key) ++ msg_padded)))

  unfoldable pub aes_keys : Bytes → Bytes → Bool → Bytes × Bytes
  aes_keys msg_key auth_key decode =
      let x = key_offset decode in
      let sha256_a = o.sha256 (msg_key ++ take 36 (drop x auth_key)) in
      let sha256_b = o.sha256 (take 36 (drop (40 + x) auth_key) ++ msg_key) in
      (interleave sha256_a sha256_b, interleave sha256_b sha256_a)

  unfoldable pub seal : Result IgeError Cipher → Bytes → Bytes → Result IgeError (Bytes × Bytes)
  seal (err e) msg_key plain = err e
  seal (ok c) msg_key plain =
      sealed_with msg_key (do_aes256_ige_encrypt c plain (replicate (length plain) 0))

  unfoldable pub encrypt_padded : Bytes → Bytes → Bool → Result IgeError (Bytes × Bytes)
  encrypt_padded plain auth_key decode =
      let msg_key = message_key auth_key plain decode in
      let (key, iv) = aes_keys msg_key auth_key decode in
      seal (new_cipher o.new_aes key iv) msg_key plain

  -- A read of the random source that fails ends the call.
  unfoldable pub with_padding :
      Option Bytes → Bytes → Bytes → Bool → Result IgeError (Bytes × Bytes)
  with_padding none msg auth_key decode = err random
  with_padding (some padding) msg auth_key decode = encrypt_padded (msg ++ padding) auth_key decode

  unfoldable pub encrypt_with : Bytes → Bytes → Bool → Result IgeError (Bytes × Bytes)
  encrypt_with msg auth_key decode =
      if not (length auth_key == 256)
      then err key_size
      else with_padding (o.rand (padding_for (length msg))) msg auth_key decode

  abbrev pub encrypt : Bytes → Bytes → Result IgeError (Bytes × Bytes)
  encrypt msg auth_key = encrypt_with msg auth_key Bool.false

  unfoldable pub unseal : Result IgeError Cipher → Bytes → Result IgeError Bytes
  unseal (err e) msg = err e
  unseal (ok c) msg = opened_with (do_aes256_ige_decrypt c msg (replicate (length msg) 0))

  unfoldable pub decrypt_with : Bytes → Bytes → Bytes → Bool → Result IgeError Bytes
  decrypt_with msg auth_key msg_key decode =
      if not (length auth_key == 256)
      then err key_size
      else if not (length msg_key == 16)
      then err msg_key_size
      else (let (key, iv) = aes_keys msg_key auth_key decode in
          unseal (new_cipher o.new_aes key iv) msg)

  abbrev pub decrypt : Bytes → Bytes → Bytes → Result IgeError Bytes
  decrypt msg auth_key check_data = decrypt_with msg auth_key check_data Bool.true
