-- ===== src/Tl/FlagWords.antt =====
-- A flags word as the number whose binary digits are the flags: `|=` adds one, `&` reads one.
use gogram.Common.{
  ℕ, zero, suc, ◌+◌, ◌*◌, ◌-◌, ◌%◌, ◌^◌, ◌≤◌, ◌<◌, ◌≡◌, refl, ap, ◌∙◌, Bool, true, false, not, ◌&&◌,
  ◌||◌, Bool-cases, inl, inr, ltb, ltb→lt, ltb→ge, lt→ltb, ge→ltb, ◌⊎◌, ◌==◌, bit_or, bit_and, min,
  sym, arith,
}
use Prim.Native.Nat.{max, ◌/◌}
use native.Mathlib.Nat.{pow-suc, mul_assoc}
use gogram.Common.Bits.{bit_or_step, bit_and_step, or-zero_within, and-zero_within, and_one}
use gogram.Tl.FlagLaws.{two_pow-lt}
use gogram.Tl.WireForm.{digit, word_of}

-- Only the digits below the width count.
pub word_of_same :
    (k : ℕ) (f g : ℕ → Bool) → ((i : ℕ) → i < k → f i ≡ g i) → word_of f k ≡ word_of g k
unfolding word_of
word_of_same zero f g h = refl
word_of_same (suc k) f g h =
    rw
      (
        h 0 (omega arith),
        word_of_same k (λ i. f (suc i)) (λ i. g (suc i)) (λ i p. h (suc i) (omega arith)),
      )
      refl

digit-lt : (b : Bool) → digit b < 2
unfolding digit
digit-lt true = omega arith
digit-lt false = omega arith

digit_or_one : (b : Bool) → digit (b || true) ≡ 1
unfolding digit
digit_or_one true = refl
digit_or_one false = refl

pub or_falsity : (b : Bool) → (b || false) ≡ b
or_falsity true = refl
or_falsity false = refl

-- `a | m * 2`, `a | 1` and `a & m * 2` at a number with the lowest digit `d`.
or_above : (w d m : ℕ) → d < 2 → bit_or (w * 2 + d) (m * 2) ≡ bit_or w m * 2 + d
or_above w d m h =
    let half : (w * 2 + d) / 2 ≡ w = omega arith in
    let half' : m * 2 / 2 ≡ m = omega arith in
    let low : max ((w * 2 + d) % 2) (m * 2 % 2) ≡ d = ground arith in
    bit_or_step (w * 2 + d) (m * 2) ∙ rw (half, half', low) refl

or_lowest : (w d : ℕ) → d < 2 → bit_or (w * 2 + d) 1 ≡ w * 2 + 1
or_lowest w d h =
    let half : (w * 2 + d) / 2 ≡ w = omega arith in
    let low : max ((w * 2 + d) % 2) 1 ≡ 1 = ground arith in
    bit_or_step (w * 2 + d) 1 ∙ rw (half, low, or-zero_within w w (omega arith)) refl

and_above : (w d m : ℕ) → d < 2 → bit_and (w * 2 + d) (m * 2) ≡ bit_and w m * 2
and_above w d m h =
    let half : (w * 2 + d) / 2 ≡ w = omega arith in
    let half' : m * 2 / 2 ≡ m = omega arith in
    let low : min ((w * 2 + d) % 2) (m * 2 % 2) ≡ 0 = ground arith in
    bit_and_step (w * 2 + d) (m * 2) ∙ rw (half, half', low) (omega arith)

doubled : (j : ℕ) → 2 ^ suc j ≡ 2 ^ j * 2
doubled j = omega (arith, pow-suc 2 j)

suc_zero : (i : ℕ) → (suc i == 0) ≡ false
suc_zero i = ground arith

zero_suc : (j : ℕ) → (0 == suc j) ≡ false
zero_suc j = ground arith

same_suc : (i j : ℕ) → (suc i == suc j) ≡ (i == j)
same_suc i j = ground arith

or_bit_below :
    (k j : ℕ) (f : ℕ → Bool)
    → j < k
    → bit_or (word_of f k) (2 ^ j) ≡ word_of (λ i. f i || (i == j)) k
unfolding word_of
or_bit_below zero j f p = absurd (omega arith)
or_bit_below (suc k) zero f p =
    let high =
      word_of_same k (λ i. f (suc i)) (λ i. f (suc i) || (suc i == 0))
        (λ i q. sym (ap (◌||◌ (f (suc i))) (suc_zero i) ∙ or_falsity (f (suc i)))) in
    or_lowest (word_of (λ i. f (suc i)) k) (digit (f 0)) (digit-lt (f 0))
    ∙ rw (high, digit_or_one (f 0)) refl
or_bit_below (suc k) (suc j) f p =
    let w = word_of (λ i. f (suc i)) k in
    let high = or_bit_below k j (λ i. f (suc i)) (omega arith) in
    let same =
      word_of_same k (λ i. f (suc i) || (i == j)) (λ i. f (suc i) || (suc i == suc j))
        (λ i q. ap (◌||◌ (f (suc i))) (sym (same_suc i j))) in
    ap (bit_or (w * 2 + digit (f 0))) (doubled j)
    ∙ or_above w (digit (f 0)) (2 ^ j) (digit-lt (f 0))
    ∙ omega (arith, high, same, ap digit (ap (◌||◌ (f 0)) (zero_suc j) ∙ or_falsity (f 0)))

and_bit_below :
    (k j : ℕ) (f : ℕ → Bool) → j < k → bit_and (word_of f k) (2 ^ j) ≡ digit (f j) * 2 ^ j
unfolding word_of
and_bit_below zero j f p = absurd (omega arith)
and_bit_below (suc k) zero f p =
    omega (arith, and_one (word_of (λ i. f (suc i)) k * 2 + digit (f 0)), digit-lt (f 0))
and_bit_below (suc k) (suc j) f p =
    let w = word_of (λ i. f (suc i)) k in
    ap (bit_and (w * 2 + digit (f 0))) (doubled j)
    ∙ and_above w (digit (f 0)) (2 ^ j) (digit-lt (f 0))
    ∙ ap (λ (x : ℕ). x * 2) (and_bit_below k j (λ i. f (suc i)) (omega arith))
    ∙ rw (doubled j) (omega (arith, mul_assoc (digit (f (suc j))) (2 ^ j) 2))

two_pow_beyond : (m : ℕ) → 2 ^ (m + 32) ≡ 2 ^ m * 2 ^ 32
two_pow_beyond zero = refl
two_pow_beyond (suc m) =
    let next : suc m + 32 ≡ suc (m + 32) = omega arith in
    ap (◌^◌ 2) next ∙ omega (arith, pow-suc 2 (m + 32), pow-suc 2 m, two_pow_beyond m)

-- `1 << j` is 0 from 32 on.
bit_within : (j : ℕ) → j < 32 → 2 ^ j % 2 ^ 32 ≡ 2 ^ j
bit_within j p = omega (arith, two_pow-lt 32 j p)

bit_beyond : (j : ℕ) → 32 ≤ j → 2 ^ j % 2 ^ 32 ≡ 0
bit_beyond j p =
    let whole : (j - 32) + 32 ≡ j = omega arith in
    ap (λ (i : ℕ). 2 ^ i % 2 ^ 32) (sym whole) ∙ omega (arith, two_pow_beyond (j - 32))

below : (j k : ℕ) → (j < k) ⊎ (k ≤ j)
below j k = elim (Bool-cases (ltb j k)) [ inl h ↦ inl (ltb→lt j k h) | inr h ↦ inr (ltb→ge j k h) ]

-- `word |= 1 << j`
pub word_of-or :
    (f : ℕ → Bool) (j : ℕ)
    → bit_or (word_of f 32) (2 ^ j % 2 ^ 32) ≡ word_of (λ i. f i || (i == j)) 32
word_of-or f j = elim (below j 32) [
  | inl p ↦ ap (bit_or (word_of f 32)) (bit_within j p) ∙ or_bit_below 32 j f p
  | inr p ↦
      ap (bit_or (word_of f 32)) (bit_beyond j p)
      ∙ or-zero_within (word_of f 32) (word_of f 32) (omega arith)
      ∙ word_of_same 32 f (λ i. f i || (i == j))
          (λ i q.
            let other : (i == j) ≡ false = ground arith in
            sym (ap (◌||◌ (f i)) other ∙ or_falsity (f i)))
]

digit_test : (b : Bool) (m : ℕ) → 0 < m → not (digit b * m == 0) ≡ b
unfolding digit
digit_test true m h = ground arith
digit_test false m h = ground arith

-- `word & (1 << j) != 0`
pub word_of-and :
    (f : ℕ → Bool) (j : ℕ) → not (bit_and (word_of f 32) (2 ^ j % 2 ^ 32) == 0) ≡ (ltb j 32 && f j)
word_of-and f j = elim (below j 32) [
  | inl p ↦
      let read = ap (bit_and (word_of f 32)) (bit_within j p) ∙ and_bit_below 32 j f p in
      rw (read, lt→ltb j 32 p) (digit_test (f j) (2 ^ j) (two_pow-lt 32 j p).0)
  | inr p ↦
      let read =
        ap (bit_and (word_of f 32)) (bit_beyond j p)
        ∙ and-zero_within (word_of f 32) (word_of f 32) (omega arith) in
      rw (read, ge→ltb j 32 p) refl
]

pub word_of-lt : (k : ℕ) (f : ℕ → Bool) → word_of f k < 2 ^ k
unfolding word_of
word_of-lt zero f = omega arith
word_of-lt (suc k) f = omega (arith, word_of-lt k (λ i. f (suc i)), digit-lt (f 0), pow-suc 2 k)
