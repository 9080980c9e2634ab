-- ===== src/Messages/EnvelopeTests.antt =====
-- Witnesses for the encrypted envelope, at the toy cipher.
use gogram.Common.{
  ℕ, ◌≡◌, refl, inl, none, some, [], ◌∷◌, ◌++◌, length, length-replicate, replicate, arith,
}
use gogram.Common.Bytes.{Bytes, IsBytes}
use gogram.Io.Pipe.{buffer, buffer-IsBuffer}
use gogram.Aes.Tests.{toy_crypto, toy_crypto-IsCrypto}
use gogram.Aes.KeyTests.{toy_sha1, length-toy_sha1}
use gogram.Messages.Encrypted.{
  Encrypted, MessageInformator, packet_info, client_for, auth_key_hash_of,
}
use gogram.Messages.Encrypted.Packet.{FromServer}
use gogram.Messages.Encrypted.Trusted.{Trusted, deserialize_encrypted-Trusted}
use gogram.Messages.Encrypted.Delivery.{
  Answered, deserialize-encrypt_answer, Carried, serialize_encrypted-Carried,
}

abbrev shared : Bytes
shared = replicate 256 4

length-shared : length shared ≡ 256
length-shared = length-replicate {A = ℕ} 256 4

abbrev text : Bytes
text = 1 ∷ 2 ∷ 3 ∷ 4 ∷ []

text-IsBytes : IsBytes text
text-IsBytes = (omega arith, (omega arith, (omega arith, (omega arith, tt))))

abbrev answer : Encrypted
answer = record {
  msg = text;
  msg_id = 4000000001;
  auth_key_hash = [];
  auth_key = some shared;
  salt = 17;
  session_id = 19;
  seq_no = 3;
  msg_key = [];
}

answer-FromServer : FromServer answer
answer-FromServer = record {
  content-IsBytes = text-IsBytes;
  least = omega arith;
  whole = refl;
  few = omega arith;
  salt_fits = omega arith;
  session_fits = omega arith;
  id_fits = omega arith;
  sequence = omega arith;
  bits = inl refl;
}

answered_example :
    Answered toy_crypto toy_crypto-IsCrypto toy_sha1 length-toy_sha1 buffer
      (λ w. w)
      []
      buffer-IsBuffer
      refl
      answer
      shared
answered_example =
    deserialize-encrypt_answer toy_crypto toy_crypto-IsCrypto toy_sha1 length-toy_sha1 buffer
      (λ w. w) [] buffer-IsBuffer refl answer shared length-shared answer-FromServer

abbrev sent_answer :
    Answered toy_crypto toy_crypto-IsCrypto toy_sha1 length-toy_sha1 buffer
      (λ w. w)
      []
      buffer-IsBuffer
      refl
      answer
      shared
sent_answer =
    deserialize-encrypt_answer toy_crypto toy_crypto-IsCrypto toy_sha1 length-toy_sha1 buffer
      (λ w. w) [] buffer-IsBuffer refl answer shared length-shared answer-FromServer

envelope_trust_example :
    Trusted toy_crypto toy_sha1
      (auth_key_hash_of toy_sha1 shared ++ (sent_answer.msg_key ++ sent_answer.out))
      shared
      (record answer {
        auth_key_hash = auth_key_hash_of toy_sha1 shared;
        auth_key = none;
        msg_key = sent_answer.msg_key;
      })
envelope_trust_example =
    deserialize_encrypted-Trusted toy_crypto toy_sha1
      (auth_key_hash_of toy_sha1 shared ++ (sent_answer.msg_key ++ sent_answer.out)) shared
      (record answer {
        auth_key_hash = auth_key_hash_of toy_sha1 shared;
        auth_key = none;
        msg_key = sent_answer.msg_key;
      })
      sent_answer.received

abbrev no_client : MessageInformator
no_client = packet_info [] 0 0 0

length-carried_key : length (client_for (some shared) answer no_client 5).get_auth_key ≡ 256
unfolding client_for
length-carried_key = length-shared

written_example :
    Carried toy_crypto toy_crypto-IsCrypto toy_sha1 length-toy_sha1 buffer
      (λ w. w)
      []
      buffer-IsBuffer
      refl
      answer
      no_client
      (client_for (some shared) answer no_client 5)
      5
written_example =
    serialize_encrypted-Carried toy_crypto toy_crypto-IsCrypto toy_sha1 length-toy_sha1 buffer
      (λ w. w) [] buffer-IsBuffer refl answer no_client 5 length-carried_key text-IsBytes
      (omega arith)
