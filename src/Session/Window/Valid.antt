-- ===== src/Session/Window/Valid.antt =====
-- What a window keeps to: the heap in order, no id twice, and the map with the same ids.
use gogram.Common.{
  ℕ, zero, suc, ◌^◌, ◌≡◌, ◌≤◌, ◌<◌, inl, inr, refl, sym, ap, false, Bool-cases, List, [], ◌∷◌, ◌++◌,
  length, length-append, get_or, set, ltb, ◌==◌, ==_iff, if◌then◌else◌, arith,
}
use mathlib.Core.Path.{subst}
use gogram.Session.Window.{Window, rank, key, has_id, delete}
use gogram.Session.Window.Swap.{get_or-append_left, length-set, count}
use gogram.Session.Window.Sift.{parent, IsHeap, AboveInv, BelowInv}

pub record IsWindow (w : Window) : Type 0 where
  pub ordered : IsHeap w.heap
  pub bounded : length w.heap ≤ 1024
  pub once : (x : ℕ) → count x w.heap ≤ 1
  pub synced : (x : ℕ) → has_id w.ids x ≡ ltb 0 (count x w.heap)
  pub words : (x : ℕ) → 0 < count x w.heap → x < 2 ^ 64

root_below : (k : ℕ) (a : List ℕ) (i : ℕ) → IsHeap a → i < k → i < length a → key a 0 ≤ key a i
root_below zero a i h f p = absurd (omega arith)
root_below (suc k) a i h f p = ground (arith, h i, root_below k a (parent i) h)

place_of : (x : ℕ) (a : List ℕ) → 0 < count x a → (i : ℕ) × (i < length a) × (get_or a i 0 ≡ x)
unfolding count
place_of x [] h = absurd (omega arith)
place_of x (y ∷ a) h = elim (Bool-cases (x == y)) [
  | inl same ↦ (0, omega arith, sym ((==_iff x y).0 same))
  | inr other ↦ (let (i, p, e) = place_of x a (ground arith) in (suc i, omega arith, e))
]

-- The root ranks lowest.
pub root_lowest : (a : List ℕ) (x : ℕ) → IsHeap a → 0 < count x a → key a 0 ≤ rank x
root_lowest a x h p =
    let (i, inside, e) = place_of x a p in
    subst (λ y. key a 0 ≤ rank y) e (root_below (suc i) a i h (omega arith) inside)

pub rank_injective : (x y : ℕ) → x < 2 ^ 64 → y < 2 ^ 64 → rank x ≡ rank y → x ≡ y
unfolding rank
rank_injective x y h p e = omega arith

pub count_first : (a : List ℕ) → 0 < length a → 0 < count (get_or a 0 0) a
unfolding count
count_first [] h = absurd (omega arith)
count_first (x ∷ a) h = ground arith

pub has_id-delete :
    (xs : List ℕ) (id x : ℕ) → has_id (delete xs id) x ≡ (if x == id then false else has_id xs x)
unfolding has_id delete
has_id-delete [] id x = ground arith
has_id-delete (y ∷ xs) id x = ground (arith, has_id-delete xs id x)

key_past_root : (a : List ℕ) (id c : ℕ) → 0 < c → key (set a 0 id) c ≡ key a c
key_past_root [] id c h = refl
key_past_root (x ∷ a) id zero h = absurd (omega arith)
key_past_root (x ∷ a) id (suc c) h = refl

key_before_last : (a : List ℕ) (id c : ℕ) → c < length a → key (a ++ id ∷ []) c ≡ key a c
key_before_last a id c h = ap rank (get_or-append_left a (id ∷ []) c 0 h)

-- A new root, and a new last entry.
pub root_BelowInv : (a : List ℕ) (id : ℕ) → IsHeap a → 0 < length a → BelowInv (set a 0 id) 0
root_BelowInv a id h some_entry =
    let size = length-set a 0 id in
    record {
      inside = omega arith;
      edges = λ c p q r.
          rw (key_past_root a id c p, key_past_root a id (parent c) (omega arith))
            (h c p (omega arith));
      around = λ c p q r s. absurd (omega arith);
    }

pub last_AboveInv : (a : List ℕ) (id : ℕ) → IsHeap a → AboveInv (a ++ id ∷ []) (length a)
last_AboveInv a id h =
    let size = length-append a (id ∷ []) in
    record {
      inside = omega arith;
      edges = λ c p q r.
          rw (key_before_last a id c (omega arith), key_before_last a id (parent c) (omega arith))
            (h c p (omega arith));
      around = λ c p q r s. absurd (omega arith);
    }
