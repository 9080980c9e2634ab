-- ===== src/Factor/Tests.antt =====
-- Witnesses.
use gogram.Common.{◌≡◌, ◌↔◌}
use gogram.Factor.{gcd64, gcd_loop, mulmod, f_step}
use gogram.Common.{ℕ, suc, refl, false, some}
use Prim.Native.Nat.{◌∣◌}
use gogram.Factor.Laws.{gcd64_lem}
use gogram.Common.Int.{pos}
use gogram.Factor.Search.{
  Rho, factorize, factorize_u64, tries, or_next, factors_of_try, in_order, both_proper, search,
  round, batches, next_gcd, multiply, walk, distance, try_with,
}
use gogram.Factor.Search.Divides.{Factored, factorize-Factored}
use gogram.Factor.Search.Ends.{in_loop, try_ends}

small_factors : factorize (λ n. false) (some (pos 91)) ≡ some (7, 13)
unfolding factorize factorize_u64 tries or_next factors_of_try in_order both_proper search round
    batches next_gcd multiply walk distance gcd64 gcd_loop f_step mulmod
small_factors = refl

factorize_example : Factored (some (pos 91)) 7 13
factorize_example = factorize-Factored (λ n. false) (some (pos 91)) 7 13 small_factors

ends_example :
    (in_loop 3 91 (try_with 3 91) ≡ false)
    × ((x r : ℕ) (s : Rho) → batches 3 91 x (suc r) r s ≡ batches 3 91 x r r s)
ends_example = try_ends 3 91

gcd64_example : (7 ∣ gcd64 84 91) ↔ ((7 ∣ 84) × (7 ∣ 91))
gcd64_example = gcd64_lem 84 91 7
