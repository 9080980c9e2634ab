-- ===== src/Aes/Message/Sealing.antt =====
-- A cipher of a key and an initialization vector, used for one message only.
use gogram.Common.{
  ◌+◌, ◌-◌, ◌/◌, ◌%◌, ◌≡◌, ◌≤◌, refl, Bool, [], ◌++◌, length, length-append, length-take,
  length-drop, length-replicate, take, drop, drop_all, append-nil, replicate, All-append, All-take,
  All-drop, arith,
}
use gogram.Common.Bytes.{Bytes, IsByte, IsBytes}
use gogram.Common.Results.{ok}
use gogram.Aes.Ige.{Cipher, cipher_over, new_cipher}
use gogram.Aes.Ige.RoundTrip.{IsCipher, OpensTo, decrypt-encrypt_ige}
use gogram.Aes.Message.{
  Crypto, IsCrypto, key_offset, interleave, sealed_with, opened_with, aes_keys, seal, unseal,
}

pub length-interleave : (a b : Bytes) → length a ≡ 32 → length b ≡ 32 → length (interleave a b) ≡ 32
unfolding interleave
length-interleave a b h k = omega (
  arith,
  length-append (take 8 a) (take 16 (drop 8 b) ++ take 8 (drop 24 a)),
  length-append (take 16 (drop 8 b)) (take 8 (drop 24 a)),
  length-take 8 a,
  length-take 16 (drop 8 b),
  length-take 8 (drop 24 a),
  length-drop 8 b,
  length-drop 24 a,
)

pub interleave-IsBytes : (a b : Bytes) → IsBytes a → IsBytes b → IsBytes (interleave a b)
unfolding interleave
interleave-IsBytes a b h k =
    All-append IsByte (take 8 a) (take 16 (drop 8 b) ++ take 8 (drop 24 a)) (All-take IsByte 8 a h)
      (All-append IsByte (take 16 (drop 8 b)) (take 8 (drop 24 a))
        (All-take IsByte 16 (drop 8 b) (All-drop IsByte 8 b k))
        (All-take IsByte 8 (drop 24 a) (All-drop IsByte 24 a h)))

module _ (o : Crypto) (lawful : IsCrypto o) where
  -- A key and an initialization vector of 32 bytes make a cipher.
  pub cipher_from :
      (key iv : Bytes)
      → length key ≡ 32
      → length iv ≡ 32
      → IsBytes iv
      → (c : Cipher) × (new_cipher o.new_aes key iv ≡ ok c) × IsCipher c
  unfolding new_cipher cipher_over
  cipher_from key iv lk li bi =
      let (b, made, lb) = lawful.block_of key lk in
      (
        record { block = b; previous_ciphertext = take 16 iv; previous_plaintext = drop 16 iv },
        rw (li, made) refl,
        record {
          lawful = lb;
          length-ciphertext = omega (arith, length-take 16 iv);
          length-plaintext = omega (arith, length-drop 16 iv);
          ciphertext-IsBytes = All-take IsByte 16 iv bi;
          plaintext-IsBytes = All-drop IsByte 16 iv bi;
        },
      )

  -- The keys of a message make a cipher.
  pub cipher_of :
      (msg_key auth_key : Bytes) (decode : Bool)
      → (let (key, iv) = aes_keys o msg_key auth_key decode in
          (c : Cipher) × (new_cipher o.new_aes key iv ≡ ok c) × IsCipher c)
  unfolding aes_keys
  cipher_of msg_key auth_key decode =
      let first = msg_key ++ take 36 (drop (key_offset decode) auth_key) in
      let second = take 36 (drop (40 + key_offset decode) auth_key) ++ msg_key in
      let a = o.sha256 first in
      let b = o.sha256 second in
      let la = lawful.length-sha256 first in
      let lb = lawful.length-sha256 second in
      cipher_from (interleave a b) (interleave b a) (length-interleave a b la lb)
        (length-interleave b a lb la)
        (interleave-IsBytes b a (lawful.sha256-IsBytes second) (lawful.sha256-IsBytes first))

  abbrev pub zeros : Bytes → Bytes
  zeros b = replicate (length b) 0

  no_rest : (plain : Bytes) → drop (length plain) (zeros plain) ≡ []
  no_rest plain =
      let same : length (zeros plain) ≡ length plain = length-replicate (length plain) 0 in
      drop_all (length plain) (zeros plain) (omega arith)

  pub seal_lem :
      (c : Cipher) (plain msg_key : Bytes) (q : OpensTo c plain (zeros plain) (zeros plain))
      → seal o (ok c) msg_key plain ≡ ok (q.sealed_bytes, msg_key)
  unfolding seal sealed_with
  seal_lem c plain msg_key q = rw (q.sealing, no_rest plain, append-nil q.sealed_bytes) refl

  pub unseal_lem :
      (c : Cipher) (plain : Bytes) (q : OpensTo c plain (zeros plain) (zeros plain))
      → unseal o (ok c) q.sealed_bytes ≡ ok plain
  unfolding unseal opened_with
  unseal_lem c plain q = rw (q.length-sealed, q.opening, no_rest plain, append-nil plain) refl

  pub sealed_data :
      (c : Cipher) (padded : Bytes)
      → IsCipher c
      → IsBytes padded
      → 16 ≤ length padded
      → length padded % 16 ≡ 0
      → OpensTo c padded (zeros padded) (zeros padded)
  sealed_data c padded good k least whole =
      let same : length (zeros padded) ≡ length padded = length-replicate (length padded) 0 in
      decrypt-encrypt_ige c (length padded / 16 - 1) padded (zeros padded) (zeros padded) good k
        (omega arith) (omega arith) (omega arith)

  -- One or more whole blocks, sealed and opened under the same key.
  pub record Sealed (key iv msg_key plain : Bytes) : Type 0 where
    pub out : Bytes
    pub sealing : seal o (new_cipher o.new_aes key iv) msg_key plain ≡ ok (out, msg_key)
    pub opening : unseal o (new_cipher o.new_aes key iv) out ≡ ok plain
    pub length-out : length out ≡ length plain

  pub seals :
      (key iv msg_key plain : Bytes)
      → length key ≡ 32
      → length iv ≡ 32
      → IsBytes iv
      → IsBytes plain
      → 16 ≤ length plain
      → length plain % 16 ≡ 0
      → Sealed key iv msg_key plain
  seals key iv msg_key plain lk li bi bp least whole =
      let (c, made, good) = cipher_from key iv lk li bi in
      let q = sealed_data c plain good bp least whole in
      record {
        out = q.sealed_bytes;
        sealing = rw made (seal_lem c plain msg_key q);
        opening = rw made (unseal_lem c plain q);
        length-out = q.length-sealed;
      }
