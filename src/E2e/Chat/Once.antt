-- ===== src/E2e/Chat/Once.antt =====
-- No message is accepted twice.
use mathlib.Core.Path.{subst}
use gogram.Common.{
  ℕ, ◌+◌, ◌-◌, ◌*◌, ◌/◌, ◌%◌, ◌^◌, ◌<◌, ◌≡◌, ◌⊎◌, inl, inr, refl, sym, ap, ◌∙◌, Bool, true, false,
  not, ◌||◌, length, ltb, ◌==◌, if◌then◌else◌, arith,
}
use gogram.Common.Results.{Result, ok, err}
use gogram.E2e.Chat.{
  SecretChat, Layer, ChatError, invalid_layer, invalid_parity, invalid_acknowledgment, out_of_order,
  word, min_layer, is_ready, is_neg, lt_int32, is_twice, side, advance, accept_ack, accept_numbers,
  accept_incoming_layer,
}
use gogram.E2e.Chat.Advance.{Advanced, advance-Advanced}

abbrev Reply : Type 0
Reply = SecretChat × Result ChatError (Unit {0})

-- A message in sequence moves the chat on, and an error leaves it as it is.
abbrev Outcome : SecretChat → Layer → ℕ → Reply → Type 0
Outcome chat m p r =
    ((k : ℕ) × (r ≡ (advance chat m k, ok tt))
      × (is_twice m.out_seq_no chat.in_seq_no_counter p ≡ true))
    ⊎ ((e : ChatError) × (r ≡ (chat, err e)))

refused_if :
    (b : Bool) (chat : SecretChat) (m : Layer) (p : ℕ) (e : ChatError) (r : Reply)
    → Outcome chat m p r
    → Outcome chat m p (if b then (chat, err e) else r)
refused_if true chat m p e r o = inr (e, refl)
refused_if false chat m p e r o = o

in_sequence :
    (b : Bool) (chat : SecretChat) (m : Layer) (p k : ℕ)
    → is_twice m.out_seq_no chat.in_seq_no_counter p ≡ b
    → Outcome chat m p (if not b then (chat, err out_of_order) else (advance chat m k, ok tt))
in_sequence true chat m p k h = inl (k, refl, h)
in_sequence false chat m p k h = inr (out_of_order, refl)

accept_incoming_layer-Outcome :
    (chat : SecretChat) (m : Layer) → Outcome chat m (side chat) (accept_incoming_layer chat m)
unfolding accept_incoming_layer accept_numbers accept_ack
accept_incoming_layer-Outcome chat m =
    let p = side chat in
    let q : ℕ = if chat.is_originator then 1 else 0 in
    let k = (m.in_seq_no - q) / 2 in
    refused_if
      ((not (is_ready chat.state) || lt_int32 m.number min_layer) || ltb (length m.random_bytes) 15)
      chat m p invalid_layer (accept_numbers chat m p q)
      (refused_if
        (((is_neg m.out_seq_no || is_neg m.in_seq_no) || not (m.out_seq_no % 2 == p))
          || not (m.in_seq_no % 2 == q))
        chat m p invalid_parity (accept_ack chat m p k)
        (refused_if (lt_int32 k chat.remote_ack || lt_int32 chat.out_seq_no_counter k) chat m p
          invalid_acknowledgment
          (if not (is_twice m.out_seq_no chat.in_seq_no_counter p)
            then (chat, err out_of_order)
            else (advance chat m k, ok tt))
          (in_sequence (is_twice m.out_seq_no chat.in_seq_no_counter p) chat m p k refl)))

twice_lem : (a b c : ℕ) → is_twice a b c ≡ true → (b < 2 ^ 31) × (a ≡ 2 * b + c)
unfolding is_twice is_neg
twice_lem a b c h = ground arith

-- The next counter is another one.
not_twice : (a b c : ℕ) → is_twice a b c ≡ true → is_twice a ((b + 1) % word) c ≡ true → ⊥
not_twice a b c h k =
    let (small, e) = twice_lem a b c h in
    let (small', e') = twice_lem a ((b + 1) % word) c k in omega arith

module _ (chat : SecretChat) (m : Layer) (k : ℕ)
    (h : is_twice m.out_seq_no chat.in_seq_no_counter (side chat) ≡ true) where
  refused_now :
      (b : SecretChat)
      → Advanced chat b k
      → (e : ChatError) × (accept_incoming_layer b m ≡ (b, err e))
  refused_now b p = elim (accept_incoming_layer-Outcome b m) [
    | inr refused ↦ refused
    | inl (_, _, again) ↦ absurd (
        not_twice m.out_seq_no chat.in_seq_no_counter (side chat) h (
          subst (λ c. is_twice m.out_seq_no c (side chat) ≡ true) p.new_in
            (subst (λ s. is_twice m.out_seq_no b.in_seq_no_counter s ≡ true) p.same_side again)))
  ]

is_err : Result ChatError (Unit {0}) → Bool
is_err (ok a) = false
is_err (err e) = true

not_both : (e : ChatError) (r : Result ChatError (Unit {0})) → r ≡ err e → r ≡ ok tt → ⊥
unfolding is_err
not_both e r h k = let clash : true ≡ false = ap is_err (sym h ∙ k) in ground arith

-- A message that `AcceptIncomingLayer` accepted is refused when it comes again, and the chat stays
-- as it is then: for every state of the chat and every message, in sequence or not.
pub accept_once :
    (chat chat' : SecretChat) (m : Layer)
    → accept_incoming_layer chat m ≡ (chat', ok tt)
    → (e : ChatError) × (accept_incoming_layer chat' m ≡ (chat', err e))
accept_once chat chat' m h = elim (accept_incoming_layer-Outcome chat m) [
  | inl (k, moved, twice) ↦
      subst (λ c. (e : ChatError) × (accept_incoming_layer c m ≡ (c, err e)))
        (ap (λ r. r.0) (sym moved ∙ h))
        (refused_now chat m k twice (advance chat m k) (advance-Advanced chat m k))
  | inr (e, refusal) ↦
      absurd (not_both e (accept_incoming_layer chat m).1 (ap (λ r. r.1) refusal) (ap (λ r. r.1) h))
]
