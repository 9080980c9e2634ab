-- ===== src/Aes/Secret.antt =====
-- internal/aes_ige/aes.go: EncryptMessageMTProto and DecryptMessageMTProto, the encryption of the
-- messages of secret chats. Each call of `rand.Read` is a call of `rand` with the size that it fills.
pub mod RoundTrip
pub mod Authentic
use gogram.Common.{
  ℕ, ◌+◌, ◌-◌, ◌*◌, ◌%◌, ◌^◌, Bool, not, ◌||◌, Option, none, some, ◌++◌, length, take, drop, get_or,
  bit_or, ltb, ◌==◌, if◌then◌else◌,
}
use gogram.Common.Bytes.{Bytes, le_bytes, from_le, same_bytes}
use gogram.Common.Results.{Result, ok, err}
use gogram.Aes.Ige.{IgeError, key_size, msg_key_size, random, new_cipher}
use gogram.Aes.Message.{Crypto, interleave, seal, unseal}

pub data SecretError : Type 0 where
  crypto : IgeError → SecretError
  invalid_padding : ℕ → SecretError
  bad_key msg_key_mismatch decrypted_too_short : SecretError
  invalid_length : ℕ → SecretError

abbrev pub originator_offset : Bool → ℕ
originator_offset is_originator = if not is_originator then 8 else 0

abbrev pub min_pad : ℕ
min_pad = 12

abbrev pub max_pad : ℕ
max_pad = 1024

-- `int(randBytes[0])<<8 | int(randBytes[1])`
unfoldable pub rand_num : Bytes → ℕ
rand_num bytes = bit_or (get_or bytes 0 0 * 2 ^ 8) (get_or bytes 1 0)

unfoldable pub round_up : ℕ → ℕ → ℕ
round_up prefixed padding_len =
    let r = (prefixed + padding_len) % 16 in
    if not (r == 0) then padding_len + (16 - r) else padding_len

unfoldable pub padding_len_for : ℕ → ℕ → ℕ
padding_len_for prefixed num =
    let rounded = round_up prefixed (min_pad + num % (max_pad - min_pad + 1)) in
    if ltb max_pad rounded then rounded - 16 else rounded

-- The four bytes of the length, the lowest first, in front of the text.
unfoldable pub with_length : Bytes → Bytes → Bytes
with_length plaintext padding = (le_bytes 4 (length plaintext) ++ plaintext) ++ padding

-- The two results change places on the way out.
unfoldable pub turned : Result IgeError (Bytes × Bytes) → Result SecretError (Bytes × Bytes)
turned (ok (out, msg_key)) = ok (msg_key, out)
turned (err e) = err (crypto e)

unfoldable pub check_plain : Bytes → Result SecretError Bytes
check_plain decrypted =
    let size = from_le (take 4 decrypted) in
    let pad = length decrypted - 4 - size in
    if ltb (length decrypted) 4
    then err decrypted_too_short
    else if ltb (length decrypted - 4) size
    then err (invalid_length size)
    else if ltb pad min_pad || ltb max_pad pad
    then err (invalid_padding pad)
    else ok (take size (drop 4 decrypted))

module _ (o : Crypto) where
  unfoldable pub compute_secret_chat_aes_key_iv : Bytes → Bytes → Bool → Bytes × Bytes
  compute_secret_chat_aes_key_iv msg_key key is_originator =
      let x = originator_offset is_originator in
      let hash_a = o.sha256 (msg_key ++ take 36 (drop x key)) in
      let hash_b = o.sha256 (take 36 (drop (40 + x) key) ++ msg_key) in
      (interleave hash_a hash_b, interleave hash_b hash_a)

  unfoldable pub secret_msg_key : Bytes → Bytes → Bool → Bytes
  secret_msg_key key plain is_originator =
      take 16
        (drop 8 (o.sha256 (take 32 (drop (88 + originator_offset is_originator) key) ++ plain)))

  unfoldable pub encrypt_data : Bytes → Bool → Bytes → Result SecretError (Bytes × Bytes)
  encrypt_data key is_originator plain =
      let msg_key = secret_msg_key key plain is_originator in
      let (aes_key, aes_iv) = compute_secret_chat_aes_key_iv msg_key key is_originator in
      turned (seal o (new_cipher o.new_aes aes_key aes_iv) msg_key plain)

  unfoldable pub fill_padding :
      Bytes → Bytes → Bool → Option Bytes → Result SecretError (Bytes × Bytes)
  fill_padding key plaintext is_originator none = err (crypto random)
  fill_padding key plaintext is_originator (some padding) =
      encrypt_data key is_originator (with_length plaintext padding)

  unfoldable pub with_rand_bytes :
      Bytes → Bytes → Bool → Option Bytes → Result SecretError (Bytes × Bytes)
  with_rand_bytes key plaintext is_originator none = err (crypto random)
  with_rand_bytes key plaintext is_originator (some bytes) =
      let padding_len = padding_len_for (4 + length plaintext) (rand_num bytes) in
      if ltb padding_len min_pad || ltb max_pad padding_len
      then err (invalid_padding padding_len)
      else fill_padding key plaintext is_originator (o.rand padding_len)

  unfoldable pub encrypt_message_mt_proto :
      Bytes → Bytes → Bool → Result SecretError (Bytes × Bytes)
  encrypt_message_mt_proto key plaintext is_originator =
      if not (length key == 256)
      then err bad_key
      else with_rand_bytes key plaintext is_originator (o.rand 2)

  unfoldable pub check_decrypted :
      Bytes → Bytes → Bool → Result IgeError Bytes → Result SecretError Bytes
  check_decrypted key msg_key is_originator (err e) = err (crypto e)
  check_decrypted key msg_key is_originator (ok decrypted) =
      if not (same_bytes msg_key (secret_msg_key key decrypted is_originator))
      then err msg_key_mismatch
      else check_plain decrypted

  unfoldable pub decrypt_message_mt_proto : Bytes → Bytes → Bytes → Bool → Result SecretError Bytes
  decrypt_message_mt_proto key msg_key encrypted is_originator =
      if not (length key == 256)
      then err (crypto key_size)
      else if not (length msg_key == 16)
      then err (crypto msg_key_size)
      else (let (aes_key, aes_iv) = compute_secret_chat_aes_key_iv msg_key key is_originator in
          check_decrypted key msg_key is_originator
            (unseal o (new_cipher o.new_aes aes_key aes_iv) encrypted))
