-- ===== src/Aes/KeyTests.antt =====
-- Witnesses for secret chats, temporary keys and MTProto 1.0, at the toy cipher.
use gogram.Common.{
  ℕ, ◌%◌, ◌≡◌, ap, true, false, [], ◌∷◌, ◌++◌, length, length-append, length-replicate, get_or,
  replicate, All-replicate, arith,
}
use gogram.Common.Bytes.{Bytes, IsByte, IsBytes}
use gogram.Aes.Tests.{toy_crypto, toy_crypto-IsCrypto}
use gogram.Aes.Secret.RoundTrip.{SecretDelivered, decrypt-encrypt_secret}
use gogram.Aes.Secret.Authentic.{Authentic, decrypt_message_mt_proto-Authentic}
use gogram.Aes.TempKeys.RoundTrip.{Exchanged, decrypt-encrypt_temp, IsAlone}

abbrev text : Bytes
text = 1 ∷ 2 ∷ 3 ∷ []

text-IsBytes : IsBytes text
text-IsBytes = (omega arith, (omega arith, (omega arith, tt)))

abbrev shared : Bytes
shared = replicate 256 4

length-shared : length shared ≡ 256
length-shared = length-replicate {A = ℕ} 256 4

secret_example : SecretDelivered toy_crypto toy_crypto-IsCrypto shared text true
secret_example =
    decrypt-encrypt_secret toy_crypto toy_crypto-IsCrypto shared text true text-IsBytes
      length-shared (omega arith)

abbrev sent_secret : SecretDelivered toy_crypto toy_crypto-IsCrypto shared text false
sent_secret =
    decrypt-encrypt_secret toy_crypto toy_crypto-IsCrypto shared text false text-IsBytes
      length-shared (omega arith)

authentic_example :
    (length shared ≡ 256)
    × (length sent_secret.msg_key ≡ 16)
    × Authentic toy_crypto shared sent_secret.msg_key false text
authentic_example =
    decrypt_message_mt_proto-Authentic toy_crypto shared sent_secret.msg_key false
      sent_secret.encrypted text sent_secret.received

abbrev pub toy_sha1 : Bytes → Bytes
toy_sha1 b = replicate 20 (length b % 256)

pub length-toy_sha1 : (b : Bytes) → length (toy_sha1 b) ≡ 20
length-toy_sha1 b = length-replicate 20 (length b % 256)

toy_sha1-IsBytes : (b : Bytes) → IsBytes (toy_sha1 b)
toy_sha1-IsBytes b = All-replicate IsByte 20 (length b % 256) (omega arith)

text-IsAlone : IsAlone toy_crypto toy_sha1 length-toy_sha1 toy_sha1-IsBytes text
text-IsAlone pad some_pad few e =
    let same : 3 % 256 ≡ length (text ++ pad) % 256 = ap (λ (b : Bytes). get_or b 0 0) e in
    omega (arith, same, length-append text pad)

temp_example :
    Exchanged toy_crypto toy_sha1 length-toy_sha1 toy_sha1-IsBytes text
      (λ n. replicate n 7)
      1000
      2000
temp_example =
    decrypt-encrypt_temp toy_crypto toy_sha1 length-toy_sha1 toy_sha1-IsBytes toy_crypto-IsCrypto
      text (λ n. replicate n 7) 1000 2000
      (λ n. (length-replicate n 7, All-replicate IsByte n 7 (omega arith))) text-IsBytes
      text-IsAlone (omega arith) (omega arith)
