-- ===== src/Session/Window/Once.antt =====
-- No id is taken twice.
use gogram.Common.{ℕ, ◌≡◌, ◌<◌, inl, inr, ap, Bool, false, List, All, arith}
use gogram.Session.Window.{Window, remember}
use gogram.Session.Window.Swap.{count}
use gogram.Session.Window.Step.{Outcome, held, too_low, taken, remember-Outcome}
use gogram.Session.Window.Highest.{remember_all, IsWord, Highest, remember_all-Highest}

-- After any sequence of `int64` ids since the window was clear, an id that was among them is
-- refused, also where it has left the window.
pub remember_once :
    (received : List ℕ) (id : ℕ)
    → All IsWord received
    → IsWord id
    → 0 < count id received
    → (remember (remember_all received) id).1 ≡ false
remember_once received id h small among =
    let w = remember_all received in
    let q = remember_all-Highest received h in
    refused w q (remember w id) (remember-Outcome w id q.valid small)
  where
    refused : (w : Window) → Highest received w → (r : Window × Bool) → Outcome w id r → r.1 ≡ false
    refused w q r (held same there) = ap (λ (s : Window × Bool). s.1) same
    refused w q r (too_low same new full below) = ap (λ (s : Window × Bool). s.1) same
    refused w q r (taken accepted t) =
        let fresh = t.fresh in
        elim (q.lower id among) [
          | inl there ↦ absurd (omega arith)
          | inr (full, below) ↦
              (let bounded = t.valid.bounded in
                elim t.moved [
                  | inl (counts, longer) ↦ absurd (omega arith)
                  | inr (lowest, counts, there, least, higher, at_bound, after) ↦
                      absurd (let lower_than = below lowest there in omega arith)
                ])
        ]
