-- ===== src/E2e/Tests.antt =====
-- Witnesses: a chat in which the messages of both directions cross.
use gogram.Aes.Tests.{toy_crypto, toy_crypto-IsCrypto}
use gogram.E2e.Chat.Content.{Paired, Conveyed, decrypt-encrypt_content}
use gogram.Common.{
  ℕ, length-replicate, ◌≡◌, refl, Bool, true, false, List, [], ◌∷◌, replicate, arith,
}
use gogram.Common.Bytes.{Bytes}
use gogram.Common.Results.{ok, err}
use gogram.E2e.Chat.{
  SecretChat, Layer, ChatError, ready, min_layer, current_layer, accept_incoming_layer, is_ready,
  lt_int32, accept_numbers, is_neg, accept_ack, is_twice, advance,
}
use gogram.E2e.Chat.Once.{accept_once}
use gogram.E2e.Talk.World.{
  World, Event, creator_sends, responder_sends, creator_receives, responder_receives, run, Fresh,
  Accepted, Drawn,
}
use gogram.E2e.Talk.World.Sync.{run-Accepted}

abbrev new_chat : Bool → SecretChat
new_chat originator = record {
  layer = min_layer;
  in_seq_no_counter = 0;
  out_seq_no_counter = 0;
  is_originator = originator;
  state = ready;
  message_count = 0;
  shared_key = [];
  key_created_at = 0;
  last_message_time = 0;
  pending_rekey = false;
  remote_ack = 0;
}

abbrev new_world : World
new_world = record {
  creator = new_chat true;
  responder = new_chat false;
  to_responder = [];
  to_creator = [];
}

new_world-Fresh : Fresh new_world
new_world-Fresh = record {
  creator_ready = refl;
  responder_ready = refl;
  creator_side = refl;
  responder_side = refl;
  nothing_sent = (refl, refl, refl, refl, refl, refl);
  nothing_underway = (refl, refl);
}

abbrev salt : Bytes
salt = replicate 15 8

abbrev crossing : List Event
crossing =
    creator_sends salt
    ∷ responder_sends salt
    ∷ responder_receives
    ∷ creator_sends salt
    ∷ responder_sends salt
    ∷ creator_receives
    ∷ []

crossing_example :
    Accepted (run crossing new_world).responder (run crossing new_world).to_responder
    × Accepted (run crossing new_world).creator (run crossing new_world).to_creator
unfolding Drawn
crossing_example =
    run-Accepted new_world crossing new_world-Fresh (refl, (refl, (tt, (refl, (refl, (tt, tt))))))
      (omega arith)

abbrev first : Layer
first = record { random_bytes = salt; number = current_layer; in_seq_no = 0; out_seq_no = 1 }

abbrev after_first : SecretChat
after_first = record {
  layer = current_layer;
  in_seq_no_counter = 1;
  out_seq_no_counter = 0;
  is_originator = false;
  state = ready;
  message_count = 1;
  shared_key = [];
  key_created_at = 0;
  last_message_time = 0;
  pending_rekey = false;
  remote_ack = 0;
}

first_accepted : accept_incoming_layer (new_chat false) first ≡ (after_first, ok tt)
unfolding accept_incoming_layer is_ready lt_int32 accept_numbers is_neg accept_ack is_twice advance
first_accepted = refl

replay_example : (e : ChatError) × (accept_incoming_layer after_first first ≡ (after_first, err e))
replay_example = accept_once (new_chat false) after_first first first_accepted

abbrev keyed_chat : Bool → SecretChat
keyed_chat originator = record (new_chat originator) { shared_key = replicate 256 4 }

keyed_chat-Paired : Paired (keyed_chat true) (keyed_chat false)
keyed_chat-Paired = record {
  sender_ready = refl;
  receiver_ready = refl;
  same_key = refl;
  key_size = length-replicate {A = ℕ} 256 4;
  other_side = refl;
}

content_example : Conveyed toy_crypto (keyed_chat true) (keyed_chat false) 100 101 (1 ∷ 2 ∷ [])
content_example =
    decrypt-encrypt_content toy_crypto toy_crypto-IsCrypto (keyed_chat true) (keyed_chat false) 100
      101 (1 ∷ 2 ∷ []) keyed_chat-Paired (omega arith, (omega arith, tt)) (omega arith)
