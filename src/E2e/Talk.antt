-- ===== src/E2e/Talk.antt =====
-- The messages of one direction of a chat that are on their way, in the order of their numbers.
pub mod World
use gogram.Common.{
  ℕ, suc, ◌+◌, ◌-◌, ◌*◌, ◌/◌, ◌%◌, ◌^◌, ◌≤◌, ◌<◌, ◌≡◌, refl, sym, ap, ◌∙◌, Bool, true, false, not,
  ◌||◌, List, [], ◌∷◌, ◌++◌, length, ltb, ◌==◌, if◌then◌else◌, arith, tests, ge→ltb, ==_iff,
}
use gogram.Common.Bytes.{Bytes}
use gogram.Common.Results.{Result, ok, err}
use gogram.E2e.Chat.{
  SecretChat, Layer, State, ready, is_ready, word, min_layer, is_neg, lt_int32, is_twice, side,
  next_out_seq_no, current_in_seq_no, send, advance, accept_ack, accept_numbers,
  accept_incoming_layer,
}

-- The messages from the number `n` on, which acknowledge `low` at least, where the sender has sent
-- `sent` messages and received `seen`.
unfoldable pub InFlight : ℕ → ℕ → ℕ → ℕ → ℕ → List Layer → Type 0
InFlight x n low sent seen [] = (n ≡ sent) × (low ≤ seen)
InFlight x n low sent seen (m ∷ ms) =
    (k : ℕ) × (m.out_seq_no ≡ 2 * n + (1 - x))
    × (m.in_seq_no ≡ 2 * k + x)
    × (low ≤ k)
    × (k ≤ seen)
    × (n < sent)
    × (m.number ≡ 73)
    × (15 ≤ length m.random_bytes)
    × InFlight x (suc n) k sent seen ms

pub side_bit : (chat : SecretChat) → side chat ≤ 1
side_bit chat = ground arith

pub other_side : (chat : SecretChat) → (if chat.is_originator then 1 else 0) ≡ 1 - side chat
other_side chat = ground arith

module _ (chat : SecretChat) (random : Bytes) where
  -- Below 2^30 messages no word wraps around.
  pub sent_numbers :
      chat.out_seq_no_counter < 2 ^ 30 - 1
      → chat.in_seq_no_counter < 2 ^ 30
      → ((send chat random).1.out_seq_no ≡ 2 * chat.out_seq_no_counter + (1 - side chat))
        × ((send chat random).1.in_seq_no ≡ 2 * chat.in_seq_no_counter + side chat)
        × ((send chat random).0.out_seq_no_counter ≡ chat.out_seq_no_counter + 1)
  unfolding send next_out_seq_no current_in_seq_no
  sent_numbers h k = (omega (arith, side_bit chat), omega (arith, side_bit chat), omega arith)

not_neg : (a : ℕ) → a < 2 ^ 31 → is_neg a ≡ false
unfolding is_neg
not_neg a h = ground arith

not_lt_int32 : (a b : ℕ) → b ≤ a → a < 2 ^ 31 → lt_int32 a b ≡ false
unfolding lt_int32
not_lt_int32 a b h k = ge→ltb ((a + 2 ^ 31) % word) ((b + 2 ^ 31) % word) (omega arith)

is_twice-small : (a b c : ℕ) → b < 2 ^ 31 → a ≡ 2 * b + c → is_twice a b c ≡ true
unfolding is_twice
is_twice-small a b c h e = rw (not_neg b h) ((==_iff a (2 * b + c)).1 e)

has_parity : (a n p : ℕ) → p ≤ 1 → a ≡ 2 * n + p → (a % 2 == p) ≡ true
has_parity a n p h e = (==_iff (a % 2) p).1 (omega arith)

-- A message that both counters of the receiver expect is accepted.
module _ (chat : SecretChat) (m : Layer) (k p q : ℕ) (ci : chat.in_seq_no_counter < 2 ^ 30)
    (co : chat.out_seq_no_counter < 2 ^ 30) where
  module _ (hp : p ≤ 1) (hq : q ≤ 1) (e : m.out_seq_no ≡ 2 * chat.in_seq_no_counter + p)
      (e' : m.in_seq_no ≡ 2 * k + q) (low : chat.remote_ack ≤ k)
      (high : k ≤ chat.out_seq_no_counter) where
    accept_ack_lem : accept_ack chat m p k ≡ (advance chat m k, ok tt)
    unfolding accept_ack
    accept_ack_lem =
        rw
          (
            not_lt_int32 k chat.remote_ack low (omega arith),
            not_lt_int32 chat.out_seq_no_counter k high (omega arith),
            is_twice-small m.out_seq_no chat.in_seq_no_counter p (omega arith) e,
          )
          refl

    accept_numbers_lem : accept_numbers chat m p q ≡ (advance chat m k, ok tt)
    unfolding accept_numbers
    accept_numbers_lem =
        let half : (m.in_seq_no - q) / 2 ≡ k = omega arith in
        rw
          (
            not_neg m.out_seq_no (omega arith),
            not_neg m.in_seq_no (omega arith),
            has_parity m.out_seq_no chat.in_seq_no_counter p hp e,
            has_parity m.in_seq_no k q hq e',
            half,
          )
          accept_ack_lem

pub accept_expected :
    (chat : SecretChat) (m : Layer) (k : ℕ)
    → chat.state ≡ ready
    → chat.in_seq_no_counter < 2 ^ 30
    → chat.out_seq_no_counter < 2 ^ 30
    → m.out_seq_no ≡ 2 * chat.in_seq_no_counter + side chat
    → m.in_seq_no ≡ 2 * k + (1 - side chat)
    → chat.remote_ack ≤ k
    → k ≤ chat.out_seq_no_counter
    → m.number ≡ 73
    → 15 ≤ length m.random_bytes
    → accept_incoming_layer chat m ≡ (advance chat m k, ok tt)
unfolding accept_incoming_layer is_ready
accept_expected chat m k r ci co e e' low high num rnd =
    rw
      (
        ap is_ready r,
        not_lt_int32 m.number min_layer (omega arith) (omega arith),
        ge→ltb (length m.random_bytes) 15 rnd,
        other_side chat,
      )
      (accept_numbers_lem chat m k (side chat) (1 - side chat) ci co (side_bit chat) (omega arith) e
        e' low high)

pub InFlight-le :
    (x n low sent seen : ℕ) (ms : List Layer)
    → InFlight x n low sent seen ms
    → (n ≤ sent) × (low ≤ seen)
unfolding InFlight
InFlight-le x n low sent seen [] (e, h) = (omega arith, h)
InFlight-le x n low sent seen (m ∷ ms) (k, _, _, h, h', l, _, _, _) = (omega arith, omega arith)

-- Another message is sent.
pub InFlight-send :
    (x n low sent seen : ℕ) (ms : List Layer) (m : Layer)
    → InFlight x n low sent seen ms
    → m.out_seq_no ≡ 2 * sent + (1 - x)
    → m.in_seq_no ≡ 2 * seen + x
    → m.number ≡ 73
    → 15 ≤ length m.random_bytes
    → InFlight x n low (sent + 1) seen (ms ++ (m ∷ []))
unfolding InFlight
InFlight-send x n low sent seen [] m (e, h) out inn num rnd =
    (seen, omega arith, inn, h, omega arith, omega arith, num, rnd, (omega arith, omega arith))
InFlight-send x n low sent seen (m' ∷ ms) m (k, o, i, h, h', l, u, r, rest) out inn num rnd = (
  k,
  o,
  i,
  h,
  h',
  omega arith,
  u,
  r,
  InFlight-send x (suc n) k sent seen ms m rest out inn num rnd,
)

-- The sender received more.
pub InFlight-seen :
    (x n low sent seen seen' : ℕ) (ms : List Layer)
    → seen ≤ seen'
    → InFlight x n low sent seen ms
    → InFlight x n low sent seen' ms
unfolding InFlight
InFlight-seen x n low sent seen seen' [] p (e, h) = (e, omega arith)
InFlight-seen x n low sent seen seen' (m ∷ ms) p (k, o, i, h, h', l, u, r, rest) =
    (k, o, i, h, omega arith, l, u, r, InFlight-seen x (suc n) k sent seen seen' ms p rest)
