-- ===== src/Session/Window/Highest.antt =====
-- Over all the ids that were received: the window keeps the highest.
use gogram.Common.{
  ◌≢◌, ℕ, ◌+◌, ◌^◌, ◌≡◌, ◌≤◌, ◌<◌, ◌⊎◌, inl, inr, refl, sym, Bool, false, Bool-cases, List, [], ◌∷◌,
  length, All, ◌==◌, ==_iff, arith,
}
use mathlib.Core.Path.{subst}
use gogram.Session.Window.{Window, no_ids, rank, has_id, remember}
use gogram.Session.Window.Swap.{one_if, count}
use gogram.Session.Window.Valid.{IsWindow, rank_injective}
use gogram.Session.Window.Step.{Took, Outcome, held, too_low, taken, remember-Outcome}

-- The window after these ids, the last one first.
unfoldable pub remember_all : List ℕ → Window
remember_all [] = no_ids
remember_all (id ∷ received) = (remember (remember_all received) id).0

abbrev pub IsWord : ℕ → Type 0
IsWord id = id < 2 ^ 64

-- What a window holds of the ids that were received.
pub record Highest (received : List ℕ) (w : Window) : Type 0 where
  pub valid : IsWindow w
  pub only : (x : ℕ) → 0 < count x w.heap → 0 < count x received
  pub lower :
      (y : ℕ)
      → 0 < count y received
      → (0 < count y w.heap)
        ⊎ ((length w.heap ≡ 1024) × ((x : ℕ) → 0 < count x w.heap → rank y < rank x))

module _ (received : List ℕ) (w : Window) (q : Highest received w) (id : ℕ)
    (small : IsWord id) where
  count_later : (x : ℕ) → count x (id ∷ received) ≡ one_if (x == id) + count x received
  unfolding count
  count_later x = refl

  -- The window as it was, where the id is in it or ranks lower.
  stays :
      (0 < count id w.heap)
        ⊎ ((length w.heap ≡ 1024) × ((x : ℕ) → 0 < count x w.heap → rank id < rank x))
      → Highest (id ∷ received) w
  stays below = record {
    valid = q.valid;
    only = λ x p. omega (arith, count_later x, q.only x p);
    lower = λ y p. elim (Bool-cases (y == id)) [
      | inl same ↦
          subst
            (λ z.
              (0 < count z w.heap)
              ⊎ ((length w.heap ≡ 1024) × ((x : ℕ) → 0 < count x w.heap → rank z < rank x)))
            (sym ((==_iff y id).0 same)) below
      | inr other ↦ q.lower y (ground (arith, count_later y))
    ];
  }

  added_lower :
      (w' : Window)
      → ((x : ℕ) → count x w'.heap ≡ count x w.heap + one_if (x == id))
      → length w.heap ≢ 1024
      → (y : ℕ) → 0 < count y (id ∷ received)
      → 0 < count y w'.heap
  added_lower w' counts room y p = elim (Bool-cases (y == id)) [
    | inl same ↦ ground (arith, counts y)
    | inr other ↦ elim (q.lower y (ground (arith, count_later y))) [
      | inl there ↦ omega (arith, counts y)
      | inr (full, _) ↦ absurd (room full)
    ]
  ]

  -- All that is held after the lowest has left ranks above it.
  module _ (w' : Window) (t : Took w id w') (lowest : ℕ)
      (counts : (x : ℕ)
        → count x w'.heap + one_if (x == lowest) ≡ count x w.heap + one_if (x == id))
      (there : 0 < count lowest w.heap)
      (least : (x : ℕ) → 0 < count x w.heap → rank lowest ≤ rank x) (higher : rank lowest ≤ rank id)
      (full' : length w'.heap ≡ 1024) where
    other_id : (lowest == id) ≡ false
    other_id =
        let fresh = t.fresh in
        elim (Bool-cases (lowest == id)) [
          | inr other ↦ other
          | inl same ↦ absurd (
              let none_left = subst (λ y. 0 < count y w.heap) ((==_iff lowest id).0 same) there in
              omega arith)
        ]

    left_out : count lowest w'.heap ≡ 0
    left_out = ground (arith, counts lowest, q.valid.once lowest, other_id)

    at_least : (x : ℕ) → 0 < count x w'.heap → rank lowest ≤ rank x
    at_least x p = elim (Bool-cases (x == id)) [
      | inl same ↦ subst (λ y. rank lowest ≤ rank y) (sym ((==_iff x id).0 same)) higher
      | inr other ↦ least x (ground (arith, counts x))
    ]

    above_lowest : (x : ℕ) → 0 < count x w'.heap → rank lowest < rank x
    above_lowest x p =
        let at = at_least x p in
        elim (Bool-cases (rank lowest == rank x)) [
          | inr other ↦ ground arith
          | inl same ↦
              (let equal =
                  rank_injective lowest x (q.valid.words lowest there) (t.valid.words x p)
                    ((==_iff (rank lowest) (rank x)).0 same) in
                absurd (
                  let gone = subst (λ y. 0 < count y w'.heap) (sym equal) p in
                  omega (arith, left_out)))
        ]

    replaced_lower :
        (y : ℕ)
        → 0 < count y (id ∷ received)
        → (0 < count y w'.heap)
          ⊎ ((length w'.heap ≡ 1024) × ((x : ℕ) → 0 < count x w'.heap → rank y < rank x))
    replaced_lower y p = elim (Bool-cases (y == id)) [
      | inl same ↦ inl (
          subst (λ z. 0 < count z w'.heap) (sym ((==_iff y id).0 same))
            (ground (arith, counts id, other_id)))
      | inr other ↦ elim (q.lower y (ground (arith, count_later y))) [
        | inl kept ↦ elim (Bool-cases (y == lowest)) [
          | inl gone ↦ inr (
            full',
            subst (λ z. (x : ℕ) → 0 < count x w'.heap → rank z < rank x)
                (sym ((==_iff y lowest).0 gone)) above_lowest,
          )
          | inr stayed ↦ inl (ground (arith, counts y))
        ]
        | inr (full, above) ↦
            inr
              (full', λ x k. let below = above lowest there in let at = at_least x k in omega arith)
      ]
    ]

    replaced_only : (x : ℕ) → 0 < count x w'.heap → 0 < count x (id ∷ received)
    replaced_only x p = elim (Bool-cases (x == id)) [
      | inl same ↦ ground (arith, count_later x)
      | inr other ↦ omega (arith, count_later x, q.only x (ground (arith, counts x)))
    ]

  takes : (w' : Window) → Took w id w' → Highest (id ∷ received) w'
  takes w' t = elim t.moved [
    | inl (counts, longer) ↦
        (let bounded = t.valid.bounded in
          record {
            valid = t.valid;
            only = λ x p. elim (Bool-cases (x == id)) [
              | inl same ↦ ground (arith, count_later x)
              | inr other ↦ omega (arith, count_later x, q.only x (ground (arith, counts x)))
            ];
            lower = λ y p. inl (added_lower w' counts (λ full. absurd (omega arith)) y p);
          })
    | inr (lowest, counts, there, least, higher, full, full') ↦ record {
      valid = t.valid;
      only = replaced_only w' t lowest counts there least higher full';
      lower = replaced_lower w' t lowest counts there least higher full';
    }
  ]

  later-Highest : (r : Window × Bool) → Outcome w id r → Highest (id ∷ received) r.0
  later-Highest r (held same there) = rw same (stays (inl there))
  later-Highest r (too_low same new full below) = rw same (stays (inr (full, below)))
  later-Highest r (taken accepted t) = takes r.0 t

no_ids-Highest : Highest [] no_ids
unfolding count has_id
no_ids-Highest = record {
  valid = record {
    ordered = λ c p q. absurd (omega arith);
    bounded = omega arith;
    once = λ x. omega arith;
    synced = λ x. ground arith;
    words = λ x p. absurd (omega arith);
  };
  only = λ x p. p;
  lower = λ y p. absurd (omega arith);
}

-- After any sequence of `int64` ids since the window was clear: no id is kept twice, at most 1024
-- are, each of them was received, and an id that was received is kept, or there are 1024, which
-- all are greater.
pub remember_all-Highest :
    (received : List ℕ) → All IsWord received → Highest received (remember_all received)
unfolding remember_all
remember_all-Highest [] h = no_ids-Highest
remember_all-Highest (id ∷ received) h =
    let w = remember_all received in
    let q = remember_all-Highest received h.1 in
    later-Highest received w q id h.0 (remember w id) (remember-Outcome w id q.valid h.0)
