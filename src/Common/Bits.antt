-- ===== src/Common/Bits.antt =====
-- Laws of `|`, `&` and `^` at variables. The native operations mean `bitwise`, which reads the
-- binary digits of its first argument on fuel; here the fuel is dropped, a digit at a time.
use Prim.Native.Nat.{
  ℕ, zero, suc, ◌+◌, ◌*◌, ◌/◌, ◌%◌, ◌^◌, ◌≤◌, ◌<◌, min, max, differ, bit_and, bit_or, bit_xor,
  bitwise, digits, bit_and-bitwise, bit_or-bitwise, bit_xor-bitwise,
}
use mathlib.Core.Path.{◌≡◌, refl, ap, ◌∙◌}
use native.Mathlib.Nat.{pow-suc}
use native.Mathlib.Omega.{arith}

module _ (rest : ℕ → ℕ) (digit : ℕ → ℕ → ℕ) where
  -- Fuel beyond the first argument makes no difference.
  digits_more :
      (more less x y : ℕ)
      → x ≤ less
      → x ≤ more
      → digits rest digit more x y ≡ digits rest digit less x y
  digits_more (suc more) (suc less) (suc x) y p q =
      rw (digits_more more less (suc x / 2) (y / 2) (omega arith) (omega arith))
  digits_more (suc more) (suc less) zero y p q = refl
  digits_more zero zero zero y p q = refl
  digits_more (suc more) zero zero y p q = refl
  digits_more zero (suc less) zero y p q = refl
  digits_more more zero (suc x) y p q = absurd (omega arith)
  digits_more zero less (suc x) y p q = absurd (omega arith)

  lowest_digit :
      (x y : ℕ)
      → bitwise rest digit (suc x) y
        ≡ bitwise rest digit (suc x / 2) (y / 2) * 2 + digit (suc x % 2) (y % 2)
  lowest_digit x y =
      omega (arith, digits_more x (suc x / 2) (suc x / 2) (y / 2) (omega arith) (omega arith))

pub bit_or_step : (x y : ℕ) → bit_or x y ≡ bit_or (x / 2) (y / 2) * 2 + max (x % 2) (y % 2)
bit_or_step (suc x) y = simp bit_or-bitwise (lowest_digit (λ d. d) max x y)
bit_or_step zero y = simp bit_or-bitwise (omega arith)

pub bit_and_step : (x y : ℕ) → bit_and x y ≡ bit_and (x / 2) (y / 2) * 2 + min (x % 2) (y % 2)
bit_and_step (suc x) y = simp bit_and-bitwise (lowest_digit (λ d. 0) min x y)
bit_and_step zero y = simp bit_and-bitwise (omega arith)

zero-bit_xor : (b : ℕ) → bit_xor 0 b ≡ b
zero-bit_xor b = bit_xor-bitwise 0 b

zero_digit : (b : ℕ) → b ≡ b / 2 * 2 + differ 0 (b % 2)
zero_digit b = omega arith

bit_xor_step : (a b : ℕ) → bit_xor a b ≡ bit_xor (a / 2) (b / 2) * 2 + differ (a % 2) (b % 2)
bit_xor_step zero b = omega (arith, zero-bit_xor b, zero-bit_xor (b / 2), zero_digit b)
bit_xor_step (suc a) b = simp bit_xor-bitwise (lowest_digit (λ y. y) differ a b)

differ_bits : (x y : ℕ) → x < 2 → y < 2 → (differ x y < 2) × (differ (differ x y) y ≡ x)
differ_bits zero zero p q = (omega arith, refl)
differ_bits zero (suc zero) p q = (omega arith, refl)
differ_bits (suc zero) zero p q = (omega arith, refl)
differ_bits (suc zero) (suc zero) p q = (omega arith, refl)
differ_bits (suc (suc x)) y p q = absurd (omega arith)
differ_bits x (suc (suc y)) p q = absurd (omega arith)

xor_halves :
    (a b : ℕ)
    → (bit_xor a b / 2 ≡ bit_xor (a / 2) (b / 2)) × (bit_xor a b % 2 ≡ differ (a % 2) (b % 2))
xor_halves a b =
    let d = differ_bits (a % 2) (b % 2) (omega arith) (omega arith) in
    (omega (arith, bit_xor_step a b, d.0), omega (arith, bit_xor_step a b, d.0))

xor_cancel_within : (n a b : ℕ) → a ≤ n → b ≤ n → bit_xor (bit_xor a b) b ≡ a
xor_cancel_within zero zero zero p q = refl
xor_cancel_within zero (suc a) b p q = absurd (omega arith)
xor_cancel_within zero a (suc b) p q = absurd (omega arith)
xor_cancel_within (suc n) a b p q =
    let halves = xor_halves a b in
    bit_xor_step (bit_xor a b) b
    ∙ rw (halves.0, halves.1, xor_cancel_within n (a / 2) (b / 2) (omega arith) (omega arith))
        (omega (arith, (differ_bits (a % 2) (b % 2) (omega arith) (omega arith)).1))

-- The same operand twice cancels, at every width.
pub xor_cancel : (a b : ℕ) → bit_xor (bit_xor a b) b ≡ a
xor_cancel a b = xor_cancel_within (a + b) a b (omega arith) (omega arith)

pub xor-lt : (k a b : ℕ) → a < 2 ^ k → b < 2 ^ k → bit_xor a b < 2 ^ k
xor-lt zero a b p q =
    omega (arith, xor_cancel_within zero a b (omega arith) (omega arith), zeros a b p q)
  where
    zeros : (a b : ℕ) → a < 2 ^ 0 → b < 2 ^ 0 → bit_xor a b < 1
    zeros zero zero p q = omega arith
    zeros (suc a) b p q = absurd (omega arith)
    zeros a (suc b) p q = absurd (omega arith)
xor-lt (suc k) a b p q = omega (
  arith,
  bit_xor_step a b,
  differ_bits (a % 2) (b % 2) (omega arith) (omega arith),
  pow-suc 2 k,
  xor-lt k (a / 2) (b / 2) (omega (arith, pow-suc 2 k)) (omega (arith, pow-suc 2 k)),
)

pub or-zero_within : (n a : ℕ) → a ≤ n → bit_or a 0 ≡ a
or-zero_within zero zero p = refl
or-zero_within zero (suc a) p = absurd (omega arith)
or-zero_within (suc n) a p = omega (arith, bit_or_step a 0, or-zero_within n (a / 2) (omega arith))

-- `q << k | r` is a sum where `r` fits `k` bits.
pub or_fields : (k q r : ℕ) → r < 2 ^ k → bit_or (q * 2 ^ k) r ≡ q * 2 ^ k + r
or_fields zero q zero p = or-zero_within (q * 2 ^ 0) (q * 2 ^ 0) (omega arith) ∙ omega arith
or_fields zero q (suc r) p = absurd (omega arith)
or_fields (suc k) q r p =
    let doubled : q * 2 ^ suc k ≡ 2 * (q * 2 ^ k) =
      omega (arith, ap (λ (t : ℕ). q * t) (pow-suc 2 k)) in
    let halved : q * 2 ^ suc k / 2 ≡ q * 2 ^ k = omega arith in
    let even : q * 2 ^ suc k % 2 ≡ 0 = omega arith in
    bit_or_step (q * 2 ^ suc k) r
    ∙ rw (halved, even, or_fields k q (r / 2) (omega (arith, pow-suc 2 k))) (omega arith)

pub and-zero_within : (n a : ℕ) → a ≤ n → bit_and a 0 ≡ 0
and-zero_within zero zero p = refl
and-zero_within zero (suc a) p = absurd (omega arith)
and-zero_within (suc n) a p =
    omega (arith, bit_and_step a 0, and-zero_within n (a / 2) (omega arith))

pub and_one : (a : ℕ) → bit_and a 1 ≡ a % 2
and_one a = omega (arith, bit_and_step a 1, and-zero_within (a / 2) (a / 2) (omega arith))

-- `a & 3` and `a & 15`
pub and_three : (a : ℕ) → bit_and a 3 ≡ a % 4
and_three a = omega (arith, bit_and_step a 3, and_one (a / 2))

pub and_fifteen : (a : ℕ) → bit_and a 15 ≡ a % 16
and_fifteen a = omega (arith, bit_and_step a 15, bit_and_step (a / 2) 7, and_three (a / 2 / 2))

zero-bit_or : (b : ℕ) → bit_or 0 b ≡ b
zero-bit_or b = bit_or-bitwise 0 b

-- `r | q << k`, the low field first.
pub or_low_field : (k q r : ℕ) → r < 2 ^ k → bit_or r (q * 2 ^ k) ≡ q * 2 ^ k + r
or_low_field zero q zero p = omega (arith, zero-bit_or (q * 2 ^ 0))
or_low_field zero q (suc r) p = absurd (omega arith)
or_low_field (suc k) q r p =
    let doubled : q * 2 ^ suc k ≡ 2 * (q * 2 ^ k) =
      omega (arith, ap (λ (t : ℕ). q * t) (pow-suc 2 k)) in
    let halved : q * 2 ^ suc k / 2 ≡ q * 2 ^ k = omega arith in
    let even : q * 2 ^ suc k % 2 ≡ 0 = omega arith in
    bit_or_step r (q * 2 ^ suc k)
    ∙ rw (halved, even, or_low_field k q (r / 2) (omega (arith, pow-suc 2 k))) (omega arith)

and_or_within : (n a m : ℕ) → m ≤ n → bit_and (bit_or a m) m ≡ m
and_or_within zero a zero p = and-zero_within (bit_or a 0) (bit_or a 0) (omega arith)
and_or_within zero a (suc m) p = absurd (omega arith)
and_or_within (suc n) a m p =
    let or = bit_or_step a m in
    let half : bit_or a m / 2 ≡ bit_or (a / 2) (m / 2) = omega (arith, or) in
    let low : bit_or a m % 2 ≡ max (a % 2) (m % 2) = omega (arith, or) in
    bit_and_step (bit_or a m) m
    ∙ rw (half, low, and_or_within n (a / 2) (m / 2) (omega arith)) (omega arith)

-- What was or-ed in is there.
pub and_or : (a m : ℕ) → bit_and (bit_or a m) m ≡ m
and_or a m = and_or_within m a m (omega arith)

-- What was there stays there.
or_keeps_within : (n a x m : ℕ) → m ≤ n → bit_and (bit_or a x) m ≡ 0 → bit_and a m ≡ 0
or_keeps_within zero a x zero p h = and-zero_within a a (omega arith)
or_keeps_within zero a x (suc m) p h = absurd (omega arith)
or_keeps_within (suc n) a x m p h =
    let or = bit_or_step a x in
    let half : bit_or a x / 2 ≡ bit_or (a / 2) (x / 2) = omega (arith, or) in
    let low : bit_or a x % 2 ≡ max (a % 2) (x % 2) = omega (arith, or) in
    let and = bit_and_step (bit_or a x) m in
    let whole : bit_and (bit_or a x / 2) (m / 2) ≡ 0 = omega (arith, and, h) in
    let rest : bit_and (bit_or (a / 2) (x / 2)) (m / 2) ≡ 0 = rw⁻¹ half whole in
    omega (arith, bit_and_step a m, or_keeps_within n (a / 2) (x / 2) (m / 2) (omega arith) rest)

pub or_keeps : (a x m : ℕ) → bit_and (bit_or a x) m ≡ 0 → bit_and a m ≡ 0
or_keeps a x m = or_keeps_within m a x m (omega arith)
