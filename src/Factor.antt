-- ===== src/Factor.antt =====
-- internal/math/math.go: the arithmetic of the factorization, on words of 64 bits.
pub mod Laws
pub mod Search
pub mod Tests
use gogram.Common.{ℕ, zero, suc, ◌+◌, ◌-◌, ◌*◌, ◌%◌, not, ltb, ◌==◌, if◌then◌else◌}

-- The loop of gcd64, on fuel: the second number falls in each round.
unfoldable pub gcd_loop : ℕ → ℕ → ℕ → ℕ
gcd_loop zero a b = a
gcd_loop (suc fuel) a b = let rest = gcd_loop fuel b (a % b) in if b == 0 then a else rest

unfoldable pub gcd64 : ℕ → ℕ → ℕ
gcd64 a b = gcd_loop b a b

-- The product has 128 bits, and the quotient 64, where both factors are below the modulus.
unfoldable pub mulmod : ℕ → ℕ → ℕ → ℕ
mulmod a b m = a * b % m

unfoldable pub f_step : ℕ → ℕ → ℕ → ℕ
f_step x c n =
    let square = mulmod x x n in
    let c' = c % n in if not (ltb square (n - c')) then square - (n - c') else square + c'
