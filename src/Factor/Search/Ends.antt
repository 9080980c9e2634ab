-- ===== src/Factor/Search/Ends.antt =====
-- Each loop of a search ends by its condition: the bounds on the rounds are never reached.
use gogram.Common.{
  ℕ, zero, suc, ◌+◌, ◌-◌, ◌*◌, ◌%◌, ◌^◌, ◌≡◌, ◌≤◌, ◌<◌, ◌⊎◌, inl, inr, refl, ap, min, Bool, true,
  false, Bool-cases, ◌&&◌, ltb, leb, ltb→ge, ◌==◌, if◌then◌else◌, arith,
}
use gogram.Factor.Search.{
  max_iter_per_try, Rho, distance, multiply, next_gcd, batches, round, walk, search, start,
  try_with,
}
use gogram.Factor.{mulmod, f_step}

module _ (c n : ℕ) where
  walk_counts :
      (left y iter : ℕ)
      → (iter ≤ (walk c n left y iter).1)
        × ((iter + left ≤ (walk c n left y iter).1) ⊎ (max_iter_per_try ≤ (walk c n left y iter).1))
  unfolding walk
  walk_counts zero y iter = (omega arith, inl (omega arith))
  walk_counts (suc left) y iter = elim (Bool-cases (ltb iter max_iter_per_try)) [
    | inr stops ↦ rw stops (omega arith, inr (ltb→ge iter max_iter_per_try stops))
    | inl goes_on ↦
        (let (up, enough) = walk_counts left (f_step y c n) (iter + 1) in
          rw goes_on
            (omega arith, elim enough [ inl all ↦ inl (omega arith) | inr most ↦ inr most ]))
  ]

  multiply_counts : (x left y q iter : ℕ) → iter ≤ (multiply c n x left y q iter).2
  unfolding multiply
  multiply_counts x zero y q iter = omega arith
  multiply_counts x (suc left) y q iter =
      let y' = f_step y c n in
      let diff = distance x y' in
      let rest = multiply_counts x left y' (mulmod q diff n) (iter + 1) in
      elim (Bool-cases (diff == 0)) [
        | inl same ↦ rw same (omega arith)
        | inr apart ↦ elim (Bool-cases (leb max_iter_per_try (iter + 1))) [
          | inl stops ↦ rw (apart, stops) (omega arith)
          | inr goes_on ↦ rw (apart, goes_on) (omega arith)
        ]
      ]

  batches_count : (x rounds left : ℕ) (s : Rho) → s.iter ≤ (batches c n x rounds left s).iter
  unfolding batches
  batches_count x zero left s = omega arith
  batches_count x (suc rounds) left s =
      let limit = min left 128 in
      let (y, q, iter) = multiply c n x limit s.y s.q s.iter in
      let once = multiply_counts x limit s.y s.q s.iter in
      let s' : Rho = record { y = y; q = q; g = next_gcd c n x s.y q; iter = iter } in
      let rest = batches_count x rounds (left - limit) s' in
      elim (Bool-cases ((ltb 0 left && (s.g == 1)) && ltb s.iter max_iter_per_try)) [
        | inl goes_on ↦ rw goes_on (omega arith)
        | inr ends ↦ rw ends (omega arith)
      ]

  -- With as many rounds as steps are left, one more round changes nothing.
  pub batches_end :
      (x rounds left : ℕ) (s : Rho)
      → left ≤ rounds
      → batches c n x (suc rounds) left s ≡ batches c n x rounds left s
  unfolding batches
  batches_end x zero zero s h = refl
  batches_end x zero (suc left) s h = absurd (omega arith)
  batches_end x (suc rounds) left s h =
      let limit = min left 128 in
      let (y, q, iter) = multiply c n x limit s.y s.q s.iter in
      let s' : Rho = record { y = y; q = q; g = next_gcd c n x s.y q; iter = iter } in
      ap (λ (t : Rho). if (ltb 0 left && (s.g == 1)) && ltb s.iter max_iter_per_try then t else s)
        (batches_end x rounds (left - limit) s' (omega arith))

  -- The condition of the loop of a try.
  abbrev pub in_loop : Rho → Bool
  in_loop s = (s.g == 1) && ltb s.iter max_iter_per_try

  round_counts :
      (r : ℕ) (s : Rho)
      → (s.iter ≤ (round c n r s).iter)
        × ((s.iter + r ≤ (round c n r s).iter) ⊎ (max_iter_per_try ≤ (round c n r s).iter))
  unfolding round
  round_counts r s =
      let (y, iter) = walk c n r s.y s.iter in
      let (up, enough) = walk_counts r s.y s.iter in
      let more = batches_count s.y r r (record s { y = y; iter = iter }) in
      (omega arith, elim enough [ inl all ↦ inl (omega arith) | inr most ↦ inr (omega arith) ])

  ends_at_once : (s : Rho) → max_iter_per_try ≤ s.iter → in_loop s ≡ false
  ends_at_once s h = ground arith

  -- The number of steps of a round is at most the steps so far, and one.
  abbrev InStep : ℕ → ℕ → Type 0
  InStep r iter = ((1 ≤ r) × (r ≤ iter + 1)) ⊎ (max_iter_per_try ≤ iter)

  keeps_step :
      (r : ℕ) (s : Rho)
      → in_loop s ≡ true
      → InStep r s.iter
      → InStep (r * 2 % 2 ^ 64) (round c n r s).iter
  keeps_step r s goes (inr most) = absurd (let ends = ends_at_once s most in ground arith)
  keeps_step r s goes (inl (least, step)) =
      let below : s.iter < max_iter_per_try = ground arith in
      let (up, enough) = round_counts r s in
      elim enough [ inl all ↦ inl (omega arith, omega arith) | inr most ↦ inr most ]

  takes_step :
      (r : ℕ) (s : Rho)
      → in_loop s ≡ true
      → InStep r s.iter
      → (s.iter < (round c n r s).iter) ⊎ (max_iter_per_try ≤ (round c n r s).iter)
  takes_step r s goes (inr most) = absurd (let ends = ends_at_once s most in ground arith)
  takes_step r s goes (inl (least, step)) =
      let (up, enough) = round_counts r s in
      elim enough [ inl all ↦ inl (omega arith) | inr most ↦ inr most ]

  search_ends :
      (rounds r : ℕ) (s : Rho)
      → InStep r s.iter
      → max_iter_per_try ≤ s.iter + rounds
      → in_loop (search c n rounds r s) ≡ false
  unfolding search
  search_ends zero r s h f = ends_at_once s (omega arith)
  search_ends (suc rounds) r s h f = elim (Bool-cases (in_loop s)) [
    | inr ends ↦ rw ends ends
    | inl goes_on ↦ rw goes_on (
        search_ends rounds (r * 2 % 2 ^ 64) (round c n r s) (keeps_step r s goes_on h)
          (elim (takes_step r s goes_on h) [ inl more ↦ omega arith | inr most ↦ omega arith ]))
  ]

-- For every number and every `c`: the loop of a try ends by its condition within the rounds that
-- it is given, so the factor is not 1 or the count of steps has come to its bound; and the loop of
-- the batches does, where one more round changes nothing.
pub try_ends :
    (c n : ℕ)
    → (in_loop c n (try_with c n) ≡ false)
      × ((x r : ℕ) (s : Rho) → batches c n x (suc r) r s ≡ batches c n x r r s)
try_ends c n = (
  search_ends c n max_iter_per_try 1 start (inl (omega arith, omega arith)) (omega arith),
  λ x r s. batches_end c n x r r s (omega arith),
)
