-- ===== src/Session/Window/Sift.antt =====
-- The loops of the heap put one entry where it belongs.
use gogram.Common.{
  ℕ, zero, suc, ◌+◌, ◌-◌, ◌*◌, ◌/◌, ◌≡◌, ◌≢◌, ◌≤◌, ◌<◌, ◌⊎◌, inl, inr, refl, ◌∙◌, Bool-cases, List,
  length, ltb, leb, ◌==◌, if◌then◌else◌, arith,
}
use gogram.Session.Window.{key, swap, lower_child, sift_down, sift_up}
use gogram.Session.Window.Swap.{length-swap, get_or-swap, count, count-swap}

abbrev pub parent : ℕ → ℕ
parent c = (c - 1) / 2

abbrev pub IsHeap : List ℕ → Type 0
IsHeap a = (c : ℕ) → 0 < c → c < length a → key a (parent c) ≤ key a c

-- The same entries, in the order of a heap.
pub record Sifted (a b : List ℕ) : Type 0 where
  pub ordered : IsHeap b
  pub same_length : length b ≡ length a
  pub same_count : (x : ℕ) → count x b ≡ count x a

-- All edges are in order but those at `i`: the one above it (`up`), or those below it. An edge
-- from the parent of `i` to a child of `i` would be in order.
pub record AboveInv (a : List ℕ) (i : ℕ) : Type 0 where
  pub around : (k : ℕ) → 0 < k → k < length a → parent k ≡ i → 0 < i → key a (parent i) ≤ key a k
  pub edges : (k : ℕ) → 0 < k → k < length a → k ≢ i → key a (parent k) ≤ key a k
  pub inside : i < length a

pub record BelowInv (a : List ℕ) (i : ℕ) : Type 0 where
  pub around : (k : ℕ) → 0 < k → k < length a → parent k ≡ i → 0 < i → key a (parent i) ≤ key a k
  pub edges : (k : ℕ) → 0 < k → k < length a → parent k ≢ i → key a (parent k) ≤ key a k
  pub inside : i < length a

key-swap :
    (a : List ℕ) (i j k : ℕ)
    → i < length a
    → j < length a
    → key (swap a i j) k ≡ (if j == k then key a i else if i == k then key a j else key a k)
key-swap a i j k h p = rw (get_or-swap a i j k h p) (elim (Bool-cases (j == k)) [
  | inl same ↦ rw same refl
  | inr other ↦
      rw other (elim (Bool-cases (i == k)) [ inl same ↦ rw same refl | inr other ↦ rw other refl ])
])

module _ (a : List ℕ) (i : ℕ) (v : AboveInv a i) (some_i : 0 < i)
    (below : key a i < key a (parent i)) where
  abbrev swapped_up : List ℕ
  swapped_up = swap a i (parent i)

  swapped_up-AboveInv : AboveInv swapped_up (parent i)
  swapped_up-AboveInv =
      let inside = v.inside in
      let size = length-swap a i (parent i) in
      let read = λ (k : ℕ). key-swap a i (parent i) k inside (omega arith) in
      record {
        around = λ c p q r s. ground (
          arith,
          read c,
          read (parent (parent i)),
          v.edges c p (omega arith),
          v.edges (parent i) s (omega arith),
        );
        edges = λ c p q r.
            ground (
              arith,
              read c,
              read (parent c),
              v.edges c p (omega arith),
              v.around c p (omega arith),
            );
        inside = omega arith;
      }

Sifted-refl : (a : List ℕ) → IsHeap a → Sifted a a
Sifted-refl a h = record { ordered = h; same_length = refl; same_count = λ x. refl }

swap-Sifted :
    {a b : List ℕ} (i j : ℕ) → i < length a → j < length a → Sifted (swap a i j) b → Sifted a b
swap-Sifted {a} i j h p s = record {
  ordered = s.ordered;
  same_length = s.same_length ∙ length-swap a i j;
  same_count = λ x. s.same_count x ∙ count-swap x a i j h p;
}

pub sift_up-Sifted :
    (rounds : ℕ) (a : List ℕ) (i : ℕ) → i < rounds → AboveInv a i → Sifted a (sift_up rounds a i)
unfolding sift_up
sift_up-Sifted zero a i h v = absurd (omega arith)
sift_up-Sifted (suc rounds) a i h v = elim (Bool-cases (ltb 0 i)) [
  | inr root ↦ rw root (Sifted-refl a λ c p q. v.edges c p q (ground arith))
  | inl some_i ↦ elim (Bool-cases (leb (key a (parent i)) (key a i))) [
    | inl settled ↦ rw (some_i, settled) (Sifted-refl a λ c p q. ground (arith, v.edges c p q))
    | inr below ↦
        (let higher : key a i < key a (parent i) = ground arith in
          let positive : 0 < i = ground arith in
          let rest =
            sift_up-Sifted rounds (swapped_up a i v positive higher) (parent i) (omega arith)
              (swapped_up-AboveInv a i v positive higher) in
          rw (some_i, below)
            (swap-Sifted i (parent i) v.inside (let inside = v.inside in omega arith) rest))
  ]
]

two_children : (i c : ℕ) → 0 < c → parent c ≡ i → (c ≡ 2 * i + 1) ⊎ (c ≡ 2 * i + 1 + 1)
two_children i c p e = elim (Bool-cases (c == 2 * i + 1)) [
  | inl left ↦ inl (ground arith)
  | inr other ↦ inr (ground arith)
]

-- The child that the loop compares with is a child of `i`, and no greater than either.
lower_child_lem :
    (a : List ℕ) (i : ℕ)
    → 2 * i + 1 < length a
    → (0 < lower_child a i)
      × (lower_child a i < length a)
      × (parent (lower_child a i) ≡ i)
      × ((c : ℕ) → 0 < c → c < length a → parent c ≡ i → key a (lower_child a i) ≤ key a c)
unfolding lower_child
lower_child_lem a i h = (
  ground arith,
  ground arith,
  ground arith,
  λ c p q e. elim (two_children i c p e) [
    | inl left ↦ rw left (ground arith)
    | inr right ↦ rw right (ground arith)
  ],
)

swap-BelowInv :
    (a : List ℕ) (i j : ℕ)
    → BelowInv a i
    → 0 < j
    → j < length a
    → parent j ≡ i
    → ((c : ℕ) → 0 < c → c < length a → parent c ≡ i → key a j ≤ key a c)
    → key a j < key a i
    → BelowInv (swap a i j) j
swap-BelowInv a i j v some_j fits above least below =
    let inside = v.inside in
    let size = length-swap a i j in
    let read = λ (k : ℕ). key-swap a i j k inside fits in
    record {
      inside = omega arith;
      edges = λ c p q r. ground (
        arith,
        read c,
        read (parent c),
        v.edges c p (omega arith),
        v.around j some_j fits above,
        least c p (omega arith),
      );
      around = λ c p q r s. ground (arith, read c, read (parent j), v.edges c p (omega arith));
    }

pub sift_down-Sifted :
    (rounds : ℕ) (a : List ℕ) (i : ℕ)
    → length a ≤ i + rounds
    → BelowInv a i
    → Sifted a (sift_down rounds a i)
unfolding sift_down
sift_down-Sifted zero a i h v = absurd (let inside = v.inside in omega arith)
sift_down-Sifted (suc rounds) a i h v = elim (Bool-cases (leb (length a) (2 * i + 1))) [
  | inl leaf ↦ rw leaf (Sifted-refl a λ c p q. v.edges c p q λ e. absurd (ground arith))
  | inr inner ↦
      (let (some_child, fits, above, least) = lower_child_lem a i (ground arith) in
        elim (Bool-cases (leb (key a i) (key a (lower_child a i)))) [
          | inl settled ↦
              rw (inner, settled)
                (Sifted-refl a λ c p q. ground (arith, least c p q, v.edges c p q))
          | inr below ↦
              (let inside = v.inside in
                rw (inner, below)
                  (swap-Sifted i (lower_child a i) inside fits (
                    sift_down-Sifted rounds (swap a i (lower_child a i)) (lower_child a i)
                      (omega (arith, length-swap a i (lower_child a i)))
                      (swap-BelowInv a i (lower_child a i) v some_child fits above least
                        (ground arith)))))
        ])
]
