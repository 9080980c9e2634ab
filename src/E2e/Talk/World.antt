-- ===== src/E2e/Talk/World.antt =====
-- The two sides of a chat, the messages that are on their way, and any order of sends and receipts.
pub mod Sync
use gogram.Common.{
  ℕ, zero, suc, ◌+◌, ◌-◌, ◌*◌, ◌%◌, ◌^◌, ◌≤◌, ◌<◌, ◌≡◌, refl, sym, ap, ◌∙◌, Bool, true, false, List,
  [], ◌∷◌, ◌++◌, length, All, if◌then◌else◌, arith,
}
use gogram.Common.Bytes.{Bytes}
use gogram.Common.Results.{Result, ok, err}
use gogram.E2e.Chat.{
  SecretChat, Layer, State, ready, ChatError, lt_int32, word, side, send, advance,
  accept_incoming_layer, next_out_seq_no,
}
use gogram.E2e.Talk.{
  InFlight, sent_numbers, accept_expected, other_side, side_bit, InFlight-le, InFlight-send,
  InFlight-seen,
}

pub record World : Type 0 where
  pub creator : SecretChat
  pub responder : SecretChat
  pub to_responder : List Layer
  pub to_creator : List Layer

pub data Event : Type 0 where
  creator_sends responder_sends : Bytes → Event
  creator_receives responder_receives : Event

-- The receipt of the oldest message; without a message nothing happens.
unfoldable pub receive : SecretChat → List Layer → SecretChat × List Layer
receive chat [] = (chat, [])
receive chat (m ∷ ms) = ((accept_incoming_layer chat m).0, ms)

unfoldable pub step : Event → World → World
step (creator_sends random) w =
    let (chat, m) = send w.creator random in
    record w { creator = chat; to_responder = w.to_responder ++ (m ∷ []) }
step (responder_sends random) w =
    let (chat, m) = send w.responder random in
    record w { responder = chat; to_creator = w.to_creator ++ (m ∷ []) }
step creator_receives w =
    let (chat, ms) = receive w.creator w.to_creator in record w { creator = chat; to_creator = ms }
step responder_receives w =
    let (chat, ms) = receive w.responder w.to_responder in
    record w { responder = chat; to_responder = ms }

unfoldable pub run : List Event → World → World
run [] w = w
run (e ∷ es) w = run es (step e w)

-- `RandomBytes(15)`
unfoldable pub Drawn : Event → Type 0
Drawn (creator_sends random) = length random ≡ 15
Drawn (responder_sends random) = length random ≡ 15
Drawn creator_receives = Unit {0}
Drawn responder_receives = Unit {0}

-- Two sides that share a key: both are ready, and neither sent or received anything.
pub record Fresh (w : World) : Type 0 where
  pub creator_ready : w.creator.state ≡ ready
  pub responder_ready : w.responder.state ≡ ready
  pub creator_side : w.creator.is_originator ≡ true
  pub responder_side : w.responder.is_originator ≡ false
  pub nothing_sent :
      (w.creator.out_seq_no_counter ≡ 0)
      × (w.responder.out_seq_no_counter ≡ 0)
      × (w.creator.in_seq_no_counter ≡ 0)
      × (w.responder.in_seq_no_counter ≡ 0)
      × (w.creator.remote_ack ≡ 0)
      × (w.responder.remote_ack ≡ 0)
  pub nothing_underway : (w.to_responder ≡ []) × (w.to_creator ≡ [])

-- The message in front of a queue is accepted.
unfoldable pub Accepted : SecretChat → List Layer → Type 0
Accepted chat [] = Unit {0}
Accepted chat (m ∷ ms) = (chat' : SecretChat) × (accept_incoming_layer chat m ≡ (chat', ok tt))
