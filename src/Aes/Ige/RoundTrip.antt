-- ===== src/Aes/Ige/RoundTrip.antt =====
-- Decryption takes back what encryption did, block after block.
use gogram.Common.{
  ℕ, zero, suc, ◌*◌, ◌≤◌, ◌<◌, ◌≡◌, refl, sym, ◌∙◌, none, [], ◌∷◌, ◌++◌, length, length-append,
  length-take, length-drop, take, drop, take_prefix, drop_prefix, take-append-drop, All-append,
  All-take, All-drop, ge→ltb, arith,
}
use gogram.Common.Bytes.{Bytes, IsByte, IsBytes}
use gogram.Common.Results.{ok}
use gogram.Aes.Ige.{
  IsBlock, Cipher, xor_bytes, is_correct_data, encrypt_round, decrypt_round, rounds, unless_refused,
  rounds_of, store, checked, do_aes256_ige_encrypt, do_aes256_ige_decrypt,
}
use gogram.Aes.Ige.Xor.{xor_bytes_cancel, length-xor_bytes, xor_bytes-IsBytes}

-- A lawful block cipher, and chaining values of 16 bytes.
pub record IsCipher (c : Cipher) : Type 0 where
  pub lawful : IsBlock c.block
  pub length-ciphertext : length c.previous_ciphertext ≡ 16
  pub length-plaintext : length c.previous_plaintext ≡ 16
  pub ciphertext-IsBytes : IsBytes c.previous_ciphertext
  pub plaintext-IsBytes : IsBytes c.previous_plaintext

module _ {c : Cipher} (p : IsCipher c) (plain : Bytes) (h : length plain ≡ 16)
    (k : IsBytes plain) where
  mixed : length (xor_bytes plain c.previous_ciphertext) ≡ 16
  mixed = length-xor_bytes plain c.previous_ciphertext (h ∙ sym p.length-ciphertext) ∙ h

  sealed : length (c.block.encrypt_block (xor_bytes plain c.previous_ciphertext)) ≡ 16
  sealed = p.lawful.length-encrypt_block (xor_bytes plain c.previous_ciphertext) mixed

  mixed-IsBytes : IsBytes (xor_bytes plain c.previous_ciphertext)
  mixed-IsBytes = xor_bytes-IsBytes plain c.previous_ciphertext k p.ciphertext-IsBytes

  length-encrypt_round : length (encrypt_round c plain).1 ≡ 16
  unfolding encrypt_round
  length-encrypt_round =
      length-xor_bytes (c.block.encrypt_block (xor_bytes plain c.previous_ciphertext))
        c.previous_plaintext (sealed ∙ sym p.length-plaintext)
      ∙ sealed

  encrypt_round-IsBytes : IsBytes (encrypt_round c plain).1
  unfolding encrypt_round
  encrypt_round-IsBytes =
      xor_bytes-IsBytes (c.block.encrypt_block (xor_bytes plain c.previous_ciphertext))
        c.previous_plaintext
        (p.lawful.encrypt_block-IsBytes (xor_bytes plain c.previous_ciphertext) mixed-IsBytes)
        p.plaintext-IsBytes

  encrypt_round-IsCipher : IsCipher (encrypt_round c plain).0
  unfolding encrypt_round
  encrypt_round-IsCipher = record {
    lawful = p.lawful;
    length-ciphertext = length-encrypt_round;
    length-plaintext = h;
    ciphertext-IsBytes = encrypt_round-IsBytes;
    plaintext-IsBytes = k;
  }

  decrypt_round-encrypt_round :
      decrypt_round c (encrypt_round c plain).1 ≡ ((encrypt_round c plain).0, plain)
  unfolding encrypt_round decrypt_round
  decrypt_round-encrypt_round =
      let made = xor_bytes plain c.previous_ciphertext in
      let back =
        xor_bytes_cancel (c.block.encrypt_block made) c.previous_plaintext
          (sealed ∙ sym p.length-plaintext) in
      let opened = p.lawful.decrypt_block-encrypt_block made mixed mixed-IsBytes in
      let undone = xor_bytes_cancel plain c.previous_ciphertext (h ∙ sym p.length-ciphertext) in
      rw (back, opened, undone) refl

rounds_step :
    (round : Cipher → Bytes → Cipher × Bytes) (fuel : ℕ) (c : Cipher) (xs : Bytes)
    → 0 < length xs
    → rounds round (suc fuel) c xs ≡ (
        let (c1, block) = round c (take 16 xs) in
        let (c2, out) = rounds round fuel c1 (drop 16 xs) in (c2, block ++ out))
unfolding rounds
rounds_step round fuel c (x ∷ xs) h = refl
rounds_step round fuel c [] h = absurd (omega arith)

rounds_block :
    (round : Cipher → Bytes → Cipher × Bytes) (fuel : ℕ) (c : Cipher) (block rest : Bytes)
    → length block ≡ 16
    → rounds round (suc fuel) c (block ++ rest) ≡ (
        let (c1, done) = round c block in
        let (c2, out) = rounds round fuel c1 rest in (c2, done ++ out))
rounds_block round fuel c block rest h =
    rw
      (
        rounds_step round fuel c (block ++ rest) (omega (arith, length-append block rest)),
        take_prefix 16 block rest (sym h),
        drop_prefix 16 block rest (sym h),
      )
      refl

-- On whole blocks: as many bytes come out, and decryption from the same chaining values gives
-- them back and ends in the same chaining values.
record Undone (c : Cipher) (n : ℕ) (plain : Bytes) (r : Cipher × Bytes) : Type 0 where
  pub length-out : length r.1 ≡ length plain
  pub out-IsBytes : IsBytes r.1
  pub chained : IsCipher r.0
  pub undone : rounds decrypt_round n c r.1 ≡ (r.0, plain)

undo_nothing :
    (c : Cipher) (plain : Bytes)
    → IsCipher c
    → length plain ≡ 0
    → Undone c 0 plain (rounds encrypt_round 0 c plain)
unfolding rounds
undo_nothing c [] p h = record { length-out = refl; out-IsBytes = tt; chained = p; undone = refl }
undo_nothing c (x ∷ plain) p h = absurd (omega arith)

undo :
    (n : ℕ) (c : Cipher) (plain : Bytes)
    → IsCipher c
    → IsBytes plain
    → length plain ≡ n * 16
    → Undone c n plain (rounds encrypt_round n c plain)
undo zero c plain p k h = undo_nothing c plain p (omega arith)
undo (suc n) c plain p k h =
    let front = take 16 plain in
    let size : length front ≡ 16 = omega (arith, length-take 16 plain) in
    let kf = All-take IsByte 16 plain k in
    let c1 = (encrypt_round c front).0 in
    let block = (encrypt_round c front).1 in
    let q =
      undo n c1 (drop 16 plain) (encrypt_round-IsCipher p front size kf)
        (All-drop IsByte 16 plain k) (omega (arith, length-drop 16 plain)) in
    rw (rounds_step encrypt_round n c plain (omega arith)) record {
      length-out = omega (
        arith,
        q.length-out,
        length-encrypt_round p front size kf,
        length-append block (rounds encrypt_round n c1 (drop 16 plain)).1,
        length-drop 16 plain,
      );
      out-IsBytes =
          All-append IsByte block (rounds encrypt_round n c1 (drop 16 plain)).1
            (encrypt_round-IsBytes p front size kf) q.out-IsBytes;
      chained = q.chained;
      undone =
          rw
            (
              rounds_block decrypt_round n c block (rounds encrypt_round n c1 (drop 16 plain)).1
                  (length-encrypt_round p front size kf),
              decrypt_round-encrypt_round p front size kf,
              q.undone,
              take-append-drop 16 plain,
            )
            refl;
    }

correct_data : (input : Bytes) (n : ℕ) → length input ≡ suc n * 16 → is_correct_data input ≡ none
unfolding is_correct_data
correct_data input n h = ground arith

count_rounds : (size n : ℕ) → size ≡ suc n * 16 → rounds_of size ≡ suc n
count_rounds size n h = omega arith

checked_ok :
    (round : Cipher → Bytes → Cipher × Bytes) (c : Cipher) (input out : Bytes) (n : ℕ)
    → length input ≡ suc n * 16
    → length input ≤ length out
    → checked round c input out ≡ store out (rounds round (suc n) c input)
unfolding checked unless_refused
checked_ok round c input out n h room =
    rw
      (
        correct_data input n h,
        ge→ltb (length out) (length input) room,
        count_rounds (length input) n h,
      )
      refl

-- What the encryption of `plain` into `out`, and the decryption of that into `out'`, give back.
pub record OpensTo (c : Cipher) (plain out out' : Bytes) : Type 0 where
  pub sealed_bytes : Bytes
  pub length-sealed : length sealed_bytes ≡ length plain
  pub sealed-IsBytes : IsBytes sealed_bytes
  pub after : Cipher
  pub after-IsCipher : IsCipher after
  pub sealing :
      do_aes256_ige_encrypt c plain out ≡ (after, ok (sealed_bytes ++ drop (length plain) out))
  pub opening :
      do_aes256_ige_decrypt c sealed_bytes out' ≡ (after, ok (plain ++ drop (length plain) out'))

-- Over a lawful block cipher, for one or more whole blocks and output buffers that have room: what
-- `DoAES256IGEencrypt` stores is as long as its input, `DoAES256IGEdecrypt` from the same chaining
-- values takes it back to the input, the rest of both buffers stays, and both end in the same
-- chaining values, so that the next call goes on from there.
pub decrypt-encrypt_ige :
    (c : Cipher) (n : ℕ) (plain out out' : Bytes)
    → IsCipher c
    → IsBytes plain
    → length plain ≡ suc n * 16
    → length plain ≤ length out
    → length plain ≤ length out'
    → OpensTo c plain out out'
unfolding do_aes256_ige_encrypt do_aes256_ige_decrypt
decrypt-encrypt_ige c n plain out out' p k h room room' =
    let made = rounds encrypt_round (suc n) c plain in
    let q = undo (suc n) c plain p k h in
    record {
      sealed_bytes = made.1;
      length-sealed = q.length-out;
      sealed-IsBytes = q.out-IsBytes;
      after = made.0;
      after-IsCipher = q.chained;
      sealing = rw (checked_ok encrypt_round c plain out n h room, q.length-out) refl;
      opening =
          rw
            (
              checked_ok decrypt_round c made.1 out' n (q.length-out ∙ h)
                  (omega (arith, q.length-out, room')),
              q.undone,
            )
            refl;
    }
