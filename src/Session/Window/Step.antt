-- ===== src/Session/Window/Step.antt =====
-- What a call of `remember` does to a window.
use gogram.Common.{
  ℕ, ◌+◌, ◌^◌, ◌≡◌, ◌≤◌, ◌<◌, ◌⊎◌, inl, inr, refl, Bool, true, false, Bool-cases, [], ◌∷◌, ◌++◌,
  length, length-append, get_or, set, ltb, ◌==◌, ==_iff, arith,
}
use gogram.Session.Window.{
  Window, rank, has_id, delete, sift_down, sift_up, replace_lowest, remember,
}
use gogram.Session.Window.Swap.{length-set, one_if, count, count-set, count-append, count_one}
use gogram.Session.Window.Sift.{sift_up-Sifted, sift_down-Sifted}
use gogram.Session.Window.Valid.{
  IsWindow, root_lowest, count_first, has_id-delete, root_BelowInv, last_AboveInv,
}

-- The window after a call that took the id, where the lowest one may leave.
pub record Took (w : Window) (id : ℕ) (w' : Window) : Type 0 where
  pub valid : IsWindow w'
  pub fresh : count id w.heap ≡ 0
  pub moved :
      ((x : ℕ) → count x w'.heap ≡ count x w.heap + one_if (x == id))
        × (length w'.heap ≡ length w.heap + 1)
      ⊎ ((lowest : ℕ) × ((x : ℕ)
            → count x w'.heap + one_if (x == lowest) ≡ count x w.heap + one_if (x == id))
          × (0 < count lowest w.heap)
          × ((x : ℕ) → 0 < count x w.heap → rank lowest ≤ rank x)
          × (rank lowest ≤ rank id)
          × (length w.heap ≡ 1024)
          × (length w'.heap ≡ 1024))

unheld : (w : Window) (id : ℕ) → IsWindow w → has_id w.ids id ≡ false → count id w.heap ≡ 0
unheld w id v h = let s = v.synced id in ground arith

-- The window where the id is added, and where it takes the place of the lowest.
abbrev added : Window → ℕ → Window
added w id = record {
  ids = id ∷ w.ids;
  heap = sift_up (length w.heap + 1) (w.heap ++ id ∷ []) (length w.heap);
}

abbrev replaced : Window → ℕ → Window
replaced w id = record {
  ids = id ∷ delete w.ids (get_or w.heap 0 0);
  heap = sift_down (length w.heap) (set w.heap 0 id) 0;
}

module _ (w : Window) (id : ℕ) (v : IsWindow w) (small : id < 2 ^ 64)
    (new : has_id w.ids id ≡ false) where
  added-Took : length w.heap < 1024 → Took w id (added w id)
  unfolding has_id
  added-Took few =
      let s =
        sift_up-Sifted (length w.heap + 1) (w.heap ++ id ∷ []) (length w.heap) (omega arith)
          (last_AboveInv w.heap id v.ordered) in
      let size = length-append w.heap (id ∷ []) in
      let same = s.same_length in
      let fresh = unheld w id v new in
      let counts : (x : ℕ) → count x (added w id).heap ≡ count x w.heap + one_if (x == id) =
        λ x. omega (arith, s.same_count x, count-append x w.heap (id ∷ []), count_one x id) in
      record {
        valid = record {
          ordered = s.ordered;
          bounded = omega arith;
          once = λ x. ground (arith, counts x, v.once x);
          synced = λ x. ground (arith, counts x, v.synced x);
          words = λ x p. ground (arith, counts x, v.words x);
        };
        fresh = fresh;
        moved = inl (counts, omega arith);
      }

  replaced-Took :
      length w.heap ≡ 1024 → rank (get_or w.heap 0 0) ≤ rank id → Took w id (replaced w id)
  unfolding has_id
  replaced-Took full higher =
      let s =
        sift_down-Sifted (length w.heap) (set w.heap 0 id) 0 (omega (arith, length-set w.heap 0 id))
          (root_BelowInv w.heap id v.ordered (omega arith)) in
      let lowest = get_or w.heap 0 0 in
      let fresh = unheld w id v new in
      let same = s.same_length in
      let size = length-set w.heap 0 id in
      let held = count_first w.heap (omega arith) in
      let counts : (x : ℕ)
          → count x (replaced w id).heap + one_if (x == lowest)
            ≡ count x w.heap + one_if (x == id) =
        λ x. omega (arith, s.same_count x, count-set x w.heap 0 id (omega arith)) in
      record {
        valid = record {
          ordered = s.ordered;
          bounded = omega arith;
          once = λ x. ground (arith, counts x, v.once x);
          synced =
              λ x. ground (arith, counts x, v.synced x, v.once x, has_id-delete w.ids lowest x);
          words = λ x p. ground (arith, counts x, v.words x);
        };
        fresh = fresh;
        moved = inr (
          lowest,
          counts,
          held,
          (λ x. root_lowest w.heap x v.ordered),
          higher,
          full,
          omega arith,
        );
      }

-- How a call ends: the id was there, or ranks below all the ids of a full window, or was taken.
pub data Outcome (w : Window) (id : ℕ) (r : Window × Bool) : Type 0 where
  held : r ≡ (w, false) → 0 < count id w.heap → Outcome w id r
  too_low :
      r ≡ (w, false)
      → count id w.heap ≡ 0
      → length w.heap ≡ 1024
      → ((x : ℕ) → 0 < count x w.heap → rank id < rank x)
      → Outcome w id r
  taken : r.1 ≡ true → Took w id r.0 → Outcome w id r

pub remember-Outcome :
    (w : Window) (id : ℕ) → IsWindow w → id < 2 ^ 64 → Outcome w id (remember w id)
unfolding remember replace_lowest
remember-Outcome w id v small = elim (Bool-cases (has_id w.ids id)) [
  | inl known ↦ held (rw known refl) (let s = v.synced id in ground arith)
  | inr new ↦ elim (Bool-cases (length w.heap == 1024)) [
    | inr room ↦
        (let bounded = v.bounded in
          rw (new, room) (taken refl (added-Took w id v small new (ground arith))))
    | inl full ↦
        (let size = (==_iff (length w.heap) 1024).0 full in
          elim (Bool-cases (ltb (rank id) (rank (get_or w.heap 0 0)))) [
            | inl low ↦
                rw (new, full, low)
                  (too_low refl (unheld w id v new) size
                    λ x p. (let least = root_lowest w.heap x v.ordered p in ground arith))
            | inr higher ↦
                rw (new, full, higher)
                  (taken refl (replaced-Took w id v small new size (ground arith)))
          ])
  ]
]
