-- ===== src/Session/Window/Swap.antt =====
-- Writes and swaps in a list, what they read back as, and how often a value stands there.
use gogram.Common.{
  ◌∙◌, ℕ, zero, suc, ◌+◌, ◌≡◌, ◌<◌, refl, ap, Bool, List, [], ◌∷◌, ◌++◌, length, get_or, set, ◌==◌,
  if◌then◌else◌, arith,
}
use gogram.Session.Window.{swap}

pub length-set : (xs : List ℕ) (at new : ℕ) → length (set xs at new) ≡ length xs
length-set (x ∷ xs) (suc at) new = ap suc (length-set xs at new)
length-set (x ∷ xs) zero new = refl
length-set [] at new = refl

pub get_or-set :
    (xs : List ℕ) (at place new none_there : ℕ)
    → at < length xs
    → get_or (set xs at new) place none_there
      ≡ (if at == place then new else get_or xs place none_there)
get_or-set (x ∷ xs) zero zero new z inside = refl
get_or-set (x ∷ xs) (suc at) (suc place) new z inside =
    ground (arith, get_or-set xs at place new z (omega arith))
get_or-set (x ∷ xs) zero (suc place) new z inside = ground arith
get_or-set (x ∷ xs) (suc at) zero new z inside = ground arith
get_or-set [] at place new z inside = absurd (omega arith)

pub length-swap : (a : List ℕ) (i j : ℕ) → length (swap a i j) ≡ length a
unfolding swap
length-swap a i j =
    omega
      (arith, length-set (set a i (get_or a j 0)) j (get_or a i 0), length-set a i (get_or a j 0))

pub get_or-swap :
    (a : List ℕ) (i j k : ℕ)
    → i < length a
    → j < length a
    → get_or (swap a i j) k 0
      ≡ (if j == k then get_or a i 0 else if i == k then get_or a j 0 else get_or a k 0)
unfolding swap
get_or-swap a i j k h p =
    let size = length-set a i (get_or a j 0) in
    rw
      (
        get_or-set (set a i (get_or a j 0)) j k (get_or a i 0) 0 (omega arith),
        get_or-set a i k (get_or a j 0) 0 h,
      )
      refl

pub get_or-append_left :
    (a b : List ℕ) (i d : ℕ) → i < length a → get_or (a ++ b) i d ≡ get_or a i d
get_or-append_left [] b i d h = absurd (omega arith)
get_or-append_left (x ∷ a) b zero d h = refl
get_or-append_left (x ∷ a) b (suc i) d h = get_or-append_left a b i d (omega arith)

abbrev pub one_if : Bool → ℕ
one_if b = if b then 1 else 0

-- How often a value stands in a list.
unfoldable pub count : ℕ → List ℕ → ℕ
count x [] = 0
count x (y ∷ ys) = one_if (x == y) + count x ys

pub count-set :
    (x : ℕ) (a : List ℕ) (i v : ℕ)
    → i < length a
    → count x (set a i v) + one_if (x == get_or a i 0) ≡ count x a + one_if (x == v)
unfolding count
count-set x [] i v h = absurd (omega arith)
count-set x (y ∷ a) zero v h = omega arith
count-set x (y ∷ a) (suc i) v h = omega (arith, count-set x a i v (omega arith))

pub count-append : (x : ℕ) (a b : List ℕ) → count x (a ++ b) ≡ count x a + count x b
unfolding count
count-append x [] b = omega arith
count-append x (y ∷ a) b = omega (arith, count-append x a b)

pub count_one : (x y : ℕ) → count x (y ∷ []) ≡ one_if (x == y)
unfolding count
count_one x y = omega arith

pub count-swap :
    (x : ℕ) (a : List ℕ) (i j : ℕ) → i < length a → j < length a → count x (swap a i j) ≡ count x a
unfolding swap
count-swap x a i j h p =
    let first = set a i (get_or a j 0) in
    let size = length-set a i (get_or a j 0) in
    let second = count-set x first j (get_or a i 0) (omega arith) in
    let read = get_or-set a i j (get_or a j 0) 0 h in
    let one = count-set x a i (get_or a j 0) h in
    let same : one_if (x == get_or first j 0) ≡ one_if (x == get_or a j 0) =
      ap (λ (y : ℕ). one_if (x == y)) (read ∙ ground arith) in
    omega arith
