-- ===== src/Factor/Search.antt =====
-- internal/math/math.go: factorizeU64, which is Pollard's rho in Brent's variant, and Factorize. The
-- test `ProbablyPrime` is a parameter.
pub mod Divides
pub mod Ends
use gogram.Common.{
  ℕ, zero, suc, ◌+◌, ◌-◌, ◌*◌, ◌/◌, ◌%◌, ◌^◌, min, Bool, not, ◌&&◌, ◌||◌, Option, none, some, ltb,
  leb, ◌==◌, if◌then◌else◌,
}
use gogram.Common.Int.{ℤ, pos, negsuc}
use gogram.Factor.{gcd64, mulmod, f_step}

abbrev pub max_iter_per_try : ℕ
max_iter_per_try = 1000000

-- The variables that go from one round to the next.
pub record Rho : Type 0 where
  pub y : ℕ
  pub q : ℕ
  pub g : ℕ
  pub iter : ℕ

unfoldable pub distance : ℕ → ℕ → ℕ
distance x y = if ltb y x then x - y else y - x

module _ (c n : ℕ) where
  -- The loop of `r` steps, with `left` of them to go.
  unfoldable pub walk : ℕ → ℕ → ℕ → ℕ × ℕ
  walk zero y iter = (y, iter)
  walk (suc left) y iter =
      let rest = walk left (f_step y c n) (iter + 1) in
      if ltb iter max_iter_per_try then rest else (y, iter)

  -- `for range limit`: the value of `y`, the product and the count of steps.
  unfoldable pub multiply : ℕ → ℕ → ℕ → ℕ → ℕ → ℕ × ℕ × ℕ
  multiply x zero y q iter = (y, q, iter)
  multiply x (suc left) y q iter =
      let y' = f_step y c n in
      let diff = distance x y' in
      let q' = mulmod q diff n in
      let rest = multiply x left y' q' (iter + 1) in
      if diff == 0
      then (y', 0, iter + 1)
      else if leb max_iter_per_try (iter + 1)
      then (y', q', iter + 1)
      else rest

  unfoldable pub next_gcd : ℕ → ℕ → ℕ → ℕ
  next_gcd x ys q = if not (q == 0) then gcd64 q n else gcd64 (distance x ys) n

  -- The loop on `k`, with `r - k` of its steps left, and at most as many rounds.
  unfoldable pub batches : ℕ → ℕ → ℕ → Rho → Rho
  batches x zero left s = s
  batches x (suc rounds) left s =
      let limit = min left 128 in
      let (y, q, iter) = multiply x limit s.y s.q s.iter in
      let rest =
        batches x rounds (left - limit)
          (record { y = y; q = q; g = next_gcd x s.y q; iter = iter }) in
      if (ltb 0 left && (s.g == 1)) && ltb s.iter max_iter_per_try then rest else s

  unfoldable pub round : ℕ → Rho → Rho
  round r s = let (y, iter) = walk r s.y s.iter in batches s.y r r (record s { y = y; iter = iter })

  -- The loop of a try, for at most `rounds` rounds.
  unfoldable pub search : ℕ → ℕ → Rho → Rho
  search zero r s = s
  search (suc rounds) r s =
      let rest = search rounds (r * 2 % 2 ^ 64) (round r s) in
      if (s.g == 1) && ltb s.iter max_iter_per_try then rest else s

abbrev pub start : Rho
start = record { y = 2; q = 1; g = 1; iter = 0 }

abbrev pub try_with : ℕ → ℕ → Rho
try_with c n = search c n max_iter_per_try 1 start

unfoldable pub in_order : ℕ → ℕ → ℕ × ℕ
in_order p q = if ltb q p then (q, p) else (p, q)

unfoldable pub factors_of_try : ℕ → ℕ → Option (ℕ × ℕ)
factors_of_try n g = if (g == n) || (g == 1) then none else some (in_order g (n / g))

unfoldable pub or_next : Option (ℕ × ℕ) → ℕ × ℕ → ℕ × ℕ
or_next (some factors) next = factors
or_next none next = next

-- The tries from `c` on.
unfoldable pub tries : ℕ → ℕ → ℕ → ℕ × ℕ
tries zero c n = (0, 0)
tries (suc left) c n = or_next (factors_of_try n (try_with c n).g) (tries left (c + 1) n)

unfoldable pub factorize_u64 : ℕ → ℕ × ℕ
factorize_u64 n = if n % 2 == 0 then (2, n / 2) else if ltb n 3 then (1, n) else tries 31 1 n

unfoldable pub both_proper : ℕ × ℕ → Option (ℕ × ℕ)
both_proper (p, q) = if leb p 1 || leb q 1 then none else some (p, q)

-- `BitLen() > 64` is that the number is not below 2^64.
unfoldable pub factorize : (ℕ → Bool) → Option ℤ → Option (ℕ × ℕ)
factorize probably_prime none = none
factorize probably_prime (some (negsuc n)) = none
factorize probably_prime (some (pos n)) =
    if (ltb n 4 || not (ltb n (2 ^ 64))) || probably_prime n
    then none
    else both_proper (factorize_u64 n)
