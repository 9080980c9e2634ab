-- ===== src/Aes/TempKeys.antt =====
-- internal/aes_ige/aes.go: the messages of the key exchange, under keys that both nonces make.
-- SHA-1 is a parameter, and the random bytes of the padding are the argument `random_bytes`.
pub mod Rounds
pub mod RoundTrip
use gogram.Common.{
  ℕ, zero, suc, ◌+◌, ◌-◌, ◌%◌, ◌^◌, Bool, not, ◌||◌, Option, none, some, [], ◌++◌, length, take,
  drop, ltb, ◌==◌, if◌then◌else◌,
}
use gogram.Common.Int.{ℤ, pos, negsuc}
use gogram.Common.Bytes.{Bytes, be_bytes, same_bytes}
use gogram.Common.Results.{Result, ok, err}
use gogram.Aes.Ige.{IgeError, new_cipher}
use gogram.Aes.Message.{Crypto, seal, unseal}

pub data TempError : Type 0 where
  nil_nonce nonce_too_large shorter_than_hash incompatible_hashes : TempError
  cipher : IgeError → TempError

-- A nonce is nil, or an integer. `BitLen() > n` is that it is not below 2^n.
unfoldable pub nonce_bytes : ℕ → ℤ → Option Bytes
nonce_bytes size (pos n) = if not (ltb n (256 ^ size)) then none else some (be_bytes size n)
nonce_bytes size (negsuc n) = none

unfoldable pub pair_nonces : Option Bytes → Option Bytes → Result TempError (Bytes × Bytes)
pair_nonces none server = err nonce_too_large
pair_nonces (some second) none = err nonce_too_large
pair_nonces (some second) (some server) = ok (second, server)

unfoldable pub both_nonces : Option ℤ → Option ℤ → Result TempError (Bytes × Bytes)
both_nonces none server = err nil_nonce
both_nonces (some second) none = err nil_nonce
both_nonces (some second) (some server) =
    pair_nonces (nonce_bytes 32 second) (nonce_bytes 16 server)

unfoldable pub cipher_error : {A : Type 0} → Result IgeError A → Result TempError A
cipher_error (ok a) = ok a
cipher_error (err e) = err (cipher e)

unfoldable pub ciphertext_of : Result IgeError (Bytes × Bytes) → Result TempError Bytes
ciphertext_of (ok (out, _)) = ok out
ciphertext_of (err e) = err (cipher e)

module _ (o : Crypto) (sha1 : Bytes → Bytes) where
  unfoldable pub temp_key : Bytes → Bytes → Bytes
  temp_key second server = sha1 (second ++ server) ++ take 12 (sha1 (server ++ second))

  unfoldable pub temp_iv : Bytes → Bytes → Bytes
  temp_iv second server =
      take 8 (drop 12 (sha1 (server ++ second))) ++ (sha1 (second ++ second) ++ take 4 second)

  unfoldable pub encrypt_under : Bytes → Result TempError (Bytes × Bytes) → Result TempError Bytes
  encrypt_under msg (err e) = err e
  encrypt_under msg (ok (second, server)) =
      ciphertext_of
        (seal o (new_cipher o.new_aes (temp_key second server) (temp_iv second server)) [] msg)

  unfoldable pub need_to_add : ℕ → ℕ
  need_to_add size = 16 - size % 16

  unfoldable pub encrypt_message_with_temp_keys :
      (ℕ → Bytes) → Bytes → Option ℤ → Option ℤ → Result TempError Bytes
  encrypt_message_with_temp_keys random_bytes msg second server =
      let hash = sha1 msg in
      encrypt_under (hash ++ (msg ++ random_bytes (need_to_add (length hash + length msg))))
        (both_nonces second server)

  -- The loop from `i` down.
  unfoldable pub trim_loop : ℕ → Bytes → Bytes → ℕ → Option Bytes
  trim_loop zero hash message i = none
  trim_loop (suc rounds) hash message i =
      let rest = trim_loop rounds hash message (i - 1) in
      if same_bytes hash (sha1 (take i message)) then some (take i message) else rest

  unfoldable pub trimmed : Option Bytes → Result TempError Bytes
  trimmed none = err incompatible_hashes
  trimmed (some message) = ok message

  unfoldable pub trim : Result TempError Bytes → Result TempError Bytes
  trim (err e) = err e
  trim (ok decoded) =
      let message = drop 20 decoded in
      let size = length message in
      if ltb (length decoded) 20
      then err shorter_than_hash
      else trimmed (trim_loop (size - (size - 15) + 1) (take 20 decoded) message size)

  unfoldable pub decrypt_under : Bytes → Result TempError (Bytes × Bytes) → Result TempError Bytes
  decrypt_under msg (err e) = err e
  decrypt_under msg (ok (second, server)) = trim (
      cipher_error
        (unseal o (new_cipher o.new_aes (temp_key second server) (temp_iv second server)) msg))

  unfoldable pub decrypt_message_with_temp_keys :
      Bytes → Option ℤ → Option ℤ → Result TempError Bytes
  decrypt_message_with_temp_keys msg second server = decrypt_under msg (both_nonces second server)
