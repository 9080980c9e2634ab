-- ===== src/Aes/TempKeys/Rounds.antt =====
-- The loop that looks for the end of a message, and nonces that fit.
use mathlib.Core.Path.{subst}
use gogram.Common.{
  ℕ, zero, suc, ◌+◌, ◌-◌, ◌%◌, ◌^◌, ◌≡◌, ◌≤◌, ◌<◌, inl, inr, refl, sym, ap, true, false, Bool-cases,
  none, some, take, lt→ltb, ◌==◌, ==_iff, arith,
}
use gogram.Common.Int.{pos}
use gogram.Common.Bytes.{Bytes, be_bytes, same_bytes}
use gogram.Common.Results.{ok}
use gogram.Aes.Message.{Crypto}
use gogram.Aes.TempKeys.{nonce_bytes, pair_nonces, both_nonces, trim_loop}

module _ (o : Crypto) (sha1 : Bytes → Bytes) (hash message : Bytes) where
  abbrev pub Misses : ℕ → Type 0
  Misses j = same_bytes hash (sha1 (take j message)) ≡ false

  pub trim_loop-Misses :
      (rounds i : ℕ)
      → ((j : ℕ) → j ≤ i → i < j + rounds → Misses j)
      → rounds ≤ i + 1
      → trim_loop o sha1 rounds hash message i ≡ none
  unfolding trim_loop
  trim_loop-Misses zero i h f = refl
  trim_loop-Misses (suc rounds) i h f =
      rw (h i (omega arith) (omega arith))
        (trim_loop-Misses rounds (i - 1) (λ j p q. h j (omega arith) (omega arith)) (omega arith))

  pub trim_loop_hits :
      (rounds i t : ℕ)
      → t ≤ i
      → i < t + rounds
      → ((j : ℕ) → j ≤ i → t < j → Misses j)
      → same_bytes hash (sha1 (take t message)) ≡ true
      → trim_loop o sha1 rounds hash message i ≡ some (take t message)
  unfolding trim_loop
  trim_loop_hits zero i t h k miss hit = absurd (omega arith)
  trim_loop_hits (suc rounds) i t h k miss hit = elim (Bool-cases (t == i)) [
    | inl same ↦
        (let e = (==_iff t i).0 same in
          rw (subst (λ j. same_bytes hash (sha1 (take j message)) ≡ true) e hit)
            (ap (λ j. some (take j message)) (sym e)))
    | inr other ↦
        (let below : t < i = ground arith in
          rw (miss i (omega arith) below) (
            trim_loop_hits rounds (i - 1) t (omega arith) (omega arith)
              (λ j p q. miss j (omega arith) q) hit))
  ]

pub same_when : (n : ℕ) → (16 - n % 16 == 16) ≡ (n % 16 == 0)
same_when n = ground arith

abbrev pub NonceFits : ℕ → ℕ → Type 0
NonceFits size n = n < 256 ^ size

nonce_bytes-fits :
    (size n : ℕ) → NonceFits size n → nonce_bytes size (pos n) ≡ some (be_bytes size n)
unfolding nonce_bytes
nonce_bytes-fits size n h = rw (lt→ltb n (256 ^ size) h) refl

pub both_nonces-fit :
    (second server : ℕ)
    → NonceFits 32 second
    → NonceFits 16 server
    → both_nonces (some (pos second)) (some (pos server))
      ≡ ok (be_bytes 32 second, be_bytes 16 server)
unfolding both_nonces pair_nonces
both_nonces-fit second server h k =
    rw (nonce_bytes-fits 32 second h, nonce_bytes-fits 16 server k) refl
