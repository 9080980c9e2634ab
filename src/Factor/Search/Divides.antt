-- ===== src/Factor/Search/Divides.antt =====
-- What a search finds divides its number.
use native.Mathlib.Nat.{dvd_refl, one-dvd, div-mul_cancel}
use Prim.Native.Nat.{◌∣◌}
use gogram.Common.{
  ℕ, zero, suc, ◌+◌, ◌-◌, ◌*◌, ◌/◌, ◌%◌, ◌^◌, ◌≡◌, ◌≤◌, ◌<◌, ◌⊎◌, inl, inr, refl, ap, min, Bool,
  true, false, Bool-cases, not, ◌&&◌, ◌||◌, Option, none, some, ltb, leb, ltb→ge, ltb→lt, ◌==◌,
  if◌then◌else◌, arith,
}
use mathlib.Core.Path.{subst}
use gogram.Common.Results.{or_false, not-false}
use gogram.Common.Int.{ℤ, pos, negsuc}
use gogram.Factor.{gcd64}
use gogram.Factor.Laws.{gcd64_lem}
use gogram.Factor.Search.{
  max_iter_per_try, Rho, distance, multiply, next_gcd, batches, round, walk, search, start,
  try_with, in_order, factors_of_try, or_next, tries, factorize_u64, both_proper, factorize,
}

module _ (c n : ℕ) where
  next_gcd-divides : (x ys q : ℕ) → next_gcd c n x ys q ∣ n
  unfolding next_gcd
  next_gcd-divides x ys q = elim (Bool-cases (q == 0)) [
    | inl zero_product ↦ rw zero_product (
        ((gcd64_lem (distance x ys) n (gcd64 (distance x ys) n)).0
          (dvd_refl (gcd64 (distance x ys) n))).1)
    | inr product ↦ rw product (((gcd64_lem q n (gcd64 q n)).0 (dvd_refl (gcd64 q n))).1)
  ]

  batches-divides : (x rounds left : ℕ) (s : Rho) → s.g ∣ n → (batches c n x rounds left s).g ∣ n
  unfolding batches
  batches-divides x zero left s h = h
  batches-divides x (suc rounds) left s h =
      let limit = min left 128 in
      let (y, q, iter) = multiply c n x limit s.y s.q s.iter in
      elim (Bool-cases ((ltb 0 left && (s.g == 1)) && ltb s.iter max_iter_per_try)) [
        | inl goes_on ↦ rw goes_on (
            batches-divides x rounds (left - limit)
              (record { y = y; q = q; g = next_gcd c n x s.y q; iter = iter })
              (next_gcd-divides x s.y q))
        | inr ends ↦ rw ends h
      ]

  search-divides : (rounds r : ℕ) (s : Rho) → s.g ∣ n → (search c n rounds r s).g ∣ n
  unfolding search round
  search-divides zero r s h = h
  search-divides (suc rounds) r s h =
      let (y, iter) = walk c n r s.y s.iter in
      elim (Bool-cases ((s.g == 1) && ltb s.iter max_iter_per_try)) [
        | inl goes_on ↦ rw goes_on (
            search-divides rounds (r * 2 % 2 ^ 64) (round c n r s)
              (batches-divides s.y r r (record s { y = y; iter = iter }) h))
        | inr ends ↦ rw ends h
      ]

-- No factors, or two proper ones, the lower one first.
abbrev pub Splits : ℕ → ℕ × ℕ → Type 0
Splits n r = (r ≡ (0, 0)) ⊎ ((r.0 * r.1 ≡ n) × (1 < r.0) × (r.0 ≤ r.1))

in_order-Splits : (n p q : ℕ) → p * q ≡ n → 1 < p → 1 < q → Splits n (in_order p q)
unfolding in_order
in_order-Splits n p q h lp lq = inr (elim (Bool-cases (ltb q p)) [
  | inl less ↦ rw less (omega (arith, h), lq, ground arith)
  | inr more ↦ rw more (h, lp, ground arith)
])

proper : (n g k : ℕ) → k * g ≡ n → 0 < n → (g == n) ≡ false → (g == 1) ≡ false → (1 < g) × (1 < k)
proper n g zero h some_n not_all not_one = absurd (omega arith)
proper n zero (suc k) h some_n not_all not_one = absurd (omega arith)
proper n (suc zero) (suc k) h some_n not_all not_one = absurd (ground arith)
proper n (suc (suc g)) (suc zero) h some_n not_all not_one =
    absurd (let same : suc (suc g) ≡ n = omega arith in ground arith)
proper n (suc (suc g)) (suc (suc k)) h some_n not_all not_one = (omega arith, omega arith)

factors_of_try-Splits :
    (n g : ℕ) (next : ℕ × ℕ)
    → 0 < n
    → g ∣ n
    → Splits n next
    → Splits n (or_next (factors_of_try n g) next)
unfolding factors_of_try or_next
factors_of_try-Splits n g next some_n divides later =
    let whole = div-mul_cancel g divides in
    elim (Bool-cases (g == n)) [
      | inl all ↦ rw all later
      | inr not_all ↦ elim (Bool-cases (g == 1)) [
        | inl one ↦ rw (not_all, one) later
        | inr not_one ↦
            (let (lp, lq) = proper n g (n / g) whole some_n not_all not_one in
              rw (not_all, not_one) (in_order-Splits n g (n / g) (omega (arith, whole)) lp lq))
      ]
    ]

tries-Splits : (left c n : ℕ) → 0 < n → Splits n (tries left c n)
unfolding tries
tries-Splits zero c n h = inl refl
tries-Splits (suc left) c n h =
    factors_of_try-Splits n (try_with c n).g (tries left (c + 1) n) h
      (search-divides c n max_iter_per_try 1 start (one-dvd n)) (tries-Splits left (c + 1) n h)

factorize_u64-Splits : (n : ℕ) → 4 ≤ n → Splits n (factorize_u64 n)
unfolding factorize_u64
factorize_u64-Splits n h = elim (Bool-cases (n % 2 == 0)) [
  | inl even ↦ rw even (inr (ground arith, omega arith, ground arith))
  | inr odd ↦
      (let more : ltb n 3 ≡ false = ground arith in
        rw (odd, more) (tries-Splits 31 1 n (omega arith)))
]

-- What `Factorize` was given, and its two factors.
pub record Factored (pq : Option ℤ) (p q : ℕ) : Type 0 where
  pub n : ℕ
  pub given : pq ≡ some (pos n)
  pub product : p * q ≡ n
  pub proper_p : 1 < p
  pub ordered : p ≤ q
  pub fits : n < 2 ^ 64

value_of : ℕ × ℕ → Option (ℕ × ℕ) → ℕ × ℕ
value_of z none = z
value_of z (some r) = r

-- What an `if` with nothing in its first branch returned came from the other.
some_branch :
    (b : Bool) (o : Option (ℕ × ℕ)) (r : ℕ × ℕ)
    → (if b then none else o) ≡ some r
    → (b ≡ false) × (o ≡ some r)
some_branch true o r h = ground arith
some_branch false o r h = (refl, h)

some_injective : (r t : ℕ × ℕ) → (let o : Option (ℕ × ℕ) = some r in o) ≡ some t → r ≡ t
unfolding value_of
some_injective r t h = ap (value_of r) h

both_proper-Splits :
    (n : ℕ) (r : ℕ × ℕ) (p q : ℕ)
    → Splits n r
    → both_proper r ≡ some (p, q)
    → (p * q ≡ n) × (1 < p) × (p ≤ q)
unfolding both_proper
both_proper-Splits n (a, b) p q (inl nothing) e =
    let (fine, made) = some_branch (leb a 1 || leb b 1) (some (a, b)) (p, q) e in
    let (first, _) = or_false (leb a 1) (leb b 1) fine in
    absurd (let a_zero : a ≡ 0 = ap (λ (t : ℕ × ℕ). t.0) nothing in ground arith)
both_proper-Splits n (a, b) p q (inr good) e =
    let (fine, made) = some_branch (leb a 1 || leb b 1) (some (a, b)) (p, q) e in
    subst (λ (t : ℕ × ℕ). (t.0 * t.1 ≡ n) × (1 < t.0) × (t.0 ≤ t.1))
      (some_injective (a, b) (p, q) made) good

-- Whatever the test for primes answers: where `Factorize` returns factors of a number, it was
-- given one below 2^64, and they are proper factors with that product, the lower one first.
pub factorize-Factored :
    (probably_prime : ℕ → Bool) (pq : Option ℤ) (p q : ℕ)
    → factorize probably_prime pq ≡ some (p, q)
    → Factored pq p q
unfolding factorize
factorize-Factored probably_prime none p q h = absurd (ground arith)
factorize-Factored probably_prime (some (negsuc n)) p q h = absurd (ground arith)
factorize-Factored probably_prime (some (pos n)) p q h =
    let too_low = ltb n 4 in
    let too_high = not (ltb n (2 ^ 64)) in
    let (accepted, made) =
      some_branch ((too_low || too_high) || probably_prime n) (both_proper (factorize_u64 n)) (p, q)
        h in
    let (in_range, _) = or_false (too_low || too_high) (probably_prime n) accepted in
    let (least, most) = or_false too_low too_high in_range in
    let (product, proper_p, ordered) =
      both_proper-Splits n (factorize_u64 n) p q (factorize_u64-Splits n (ltb→ge n 4 least)) made in
    record {
      n = n;
      given = refl;
      product = product;
      proper_p = proper_p;
      ordered = ordered;
      fits = ltb→lt n (2 ^ 64) (not-false (ltb n (2 ^ 64)) most);
    }
