-- ===== src/Factor/Laws.antt =====
-- gcd64 is the greatest common divisor, and fStep the polynomial of the search.
use native.Mathlib.Nat.{dvd-mod_iff, dvd-zero, mod-lt, add-mod, mod-eq_of_lt, mod-eq-sub-mod}
use Prim.Native.Nat.{◌∣◌}
use gogram.Common.{
  ℕ, zero, suc, ◌+◌, ◌-◌, ◌*◌, ◌%◌, ◌≤◌, ◌<◌, ◌≡◌, ◌↔◌, sym, ◌∙◌, false, Bool-cases, inl, inr, ltb,
  ltb→lt, ltb→ge, ◌==◌, arith,
}
use gogram.Factor.{gcd_loop, gcd64, mulmod, f_step}

-- For every modulus but 0, `fStep` is the square plus `c`, reduced, and below the modulus.
pub f_step_lem : (x c n : ℕ) → 0 < n → (f_step x c n ≡ (x * x + c) % n) × (f_step x c n < n)
unfolding f_step mulmod
f_step_lem x c n h =
    let s = mod-lt (x * x) h in
    let t = mod-lt c h in
    let sum = add-mod (x * x) c n in
    elim (Bool-cases (ltb (x * x % n) (n - c % n))) [
      | inl small ↦
          (let below = ltb→lt (x * x % n) (n - c % n) small in
            rw small (sym (sum ∙ mod-eq_of_lt (omega arith)), omega arith))
      | inr large ↦
          (let above = ltb→ge (x * x % n) (n - c % n) large in
            let once : x * x % n + c % n - n ≡ x * x % n - (n - c % n) = omega arith in
            rw large (
              sym (sum ∙ mod-eq-sub-mod (omega arith) ∙ mod-eq_of_lt (omega arith) ∙ once),
              omega arith,
            ))
    ]

gcd_loop_lem : (fuel a b d : ℕ) → b ≤ fuel → (d ∣ gcd_loop fuel a b) ↔ ((d ∣ a) × (d ∣ b))
unfolding gcd_loop
gcd_loop_lem zero a zero d h = (λ p. (p, dvd-zero d), λ p. p.0)
gcd_loop_lem zero a (suc b) d h = absurd (omega arith)
gcd_loop_lem (suc fuel) a zero d h = (λ p. (p, dvd-zero d), λ p. p.0)
gcd_loop_lem (suc fuel) a (suc b) d h =
    let less : a % suc b ≤ fuel = omega (arith, mod-lt a {m = suc b} (omega arith)) in
    let rest = gcd_loop_lem fuel (suc b) (a % suc b) d less in
    let more : (suc b == 0) ≡ false = ground arith in
    rw more (
      λ p. (let q = rest.0 p in ((dvd-mod_iff d q.0).0 q.1, q.0)),
      λ p. rest.1 (p.1, (dvd-mod_iff d p.1).1 p.0),
    )

-- The divisors of `gcd64(a, b)` are the common divisors of `a` and `b`.
pub gcd64_lem : (a b d : ℕ) → (d ∣ gcd64 a b) ↔ ((d ∣ a) × (d ∣ b))
unfolding gcd64
gcd64_lem a b d = gcd_loop_lem b a b d (omega arith)
