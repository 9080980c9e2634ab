-- ===== src/Session/Window/Tests.antt =====
-- Witnesses: a window after some ids, of which one came twice.
use gogram.Common.{ℕ, ◌≡◌, ◌<◌, false, List, [], ◌∷◌, All, arith}
use gogram.Session.Window.{remember}
use gogram.Session.Window.Swap.{count}
use gogram.Session.Window.Highest.{remember_all, IsWord, Highest, remember_all-Highest}
use gogram.Session.Window.Once.{remember_once}

abbrev some_ids : List ℕ
some_ids = 9 ∷ 5 ∷ 7 ∷ 5 ∷ []

some_ids-IsWord : All IsWord some_ids
some_ids-IsWord = (omega arith, (omega arith, (omega arith, (omega arith, tt))))

count-some_ids : 0 < count 7 some_ids
unfolding count
count-some_ids = omega arith

window_example : Highest some_ids (remember_all some_ids)
window_example = remember_all-Highest some_ids some_ids-IsWord

once_example : (remember (remember_all some_ids) 7).1 ≡ false
once_example = remember_once some_ids 7 some_ids-IsWord (omega arith) count-some_ids
