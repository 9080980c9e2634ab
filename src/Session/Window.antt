-- ===== src/Session/Window.antt =====
-- mtproto.go: receivedMessageWindow, the message ids that were received, in a map and in a heap.
-- An `int64` is its word in two's complement. The map is the list of its keys, and nil is [].
pub mod Swap
pub mod Sift
pub mod Valid
pub mod Step
pub mod Highest
pub mod Once
pub mod Tests
use gogram.Common.{
  ℕ, zero, suc, ◌+◌, ◌-◌, ◌*◌, ◌/◌, ◌%◌, ◌^◌, Bool, true, false, not, ◌&&◌, List, [], ◌∷◌, ◌++◌,
  length, get_or, set, ltb, leb, ◌==◌, if◌then◌else◌,
}

pub record Window : Type 0 where
  pub ids : List ℕ
  pub heap : List ℕ

abbrev pub no_ids : Window
no_ids = record { ids = []; heap = [] }

-- The order of the integers that the words stand for.
unfoldable pub rank : ℕ → ℕ
rank w = (w + 2 ^ 63) % 2 ^ 64

-- `w.heap[i]`, by its place in the order.
abbrev pub key : List ℕ → ℕ → ℕ
key heap i = rank (get_or heap i 0)

unfoldable pub has_id : List ℕ → ℕ → Bool
has_id [] id = false
has_id (x ∷ xs) id = if x == id then true else has_id xs id

unfoldable pub delete : List ℕ → ℕ → List ℕ
delete [] id = []
delete (x ∷ xs) id = if x == id then delete xs id else x ∷ delete xs id

unfoldable pub swap : List ℕ → ℕ → ℕ → List ℕ
swap a i j = set (set a i (get_or a j 0)) j (get_or a i 0)

-- The lower one of the children of `i`, of which the first is inside.
unfoldable pub lower_child : List ℕ → ℕ → ℕ
lower_child heap i =
    let child = 2 * i + 1 in
    if ltb (child + 1) (length heap) && ltb (key heap (child + 1)) (key heap child)
    then child + 1
    else child

-- The loop from the root, for at most as many rounds as it is given.
unfoldable pub sift_down : ℕ → List ℕ → ℕ → List ℕ
sift_down zero heap i = heap
sift_down (suc rounds) heap i =
    let child = lower_child heap i in
    let rest = sift_down rounds (swap heap i child) child in
    if leb (length heap) (2 * i + 1)
    then heap
    else if leb (key heap i) (key heap child)
    then heap
    else rest

-- The loop from the new entry at the end.
unfoldable pub sift_up : ℕ → List ℕ → ℕ → List ℕ
sift_up zero heap i = heap
sift_up (suc rounds) heap i =
    let parent = (i - 1) / 2 in
    let rest = sift_up rounds (swap heap i parent) parent in
    if not (ltb 0 i) then heap else if leb (key heap parent) (key heap i) then heap else rest

abbrev pub window_size : ℕ
window_size = 1024

unfoldable pub replace_lowest : Window → ℕ → Window × Bool
replace_lowest w id =
    let lowest = get_or w.heap 0 0 in
    if ltb (rank id) (rank lowest) then (w, false) else (
      record {
        ids = id ∷ delete w.ids lowest;
        heap = sift_down (length w.heap) (set w.heap 0 id) 0;
      },
      true,
    )

unfoldable pub remember : Window → ℕ → Window × Bool
remember w id =
    if has_id w.ids id
    then (w, false)
    else if length w.heap == window_size
    then replace_lowest w id
    else (
      record {
        ids = id ∷ w.ids;
        heap = sift_up (length w.heap + 1) (w.heap ++ id ∷ []) (length w.heap);
      },
      true,
    )

abbrev pub contains : Window → ℕ → Bool
contains w id = has_id w.ids id

abbrev pub clear : Window → Window
clear w = no_ids
