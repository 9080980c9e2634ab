-- ===== src/Session/Tests.antt =====
-- Witnesses.
use gogram.Session.KeyRing.{KeyRing}
use gogram.Common.{replicate, ℕ, ◌*◌, ◌^◌, ◌≡◌, ◌<◌, refl, true, false, List, [], ◌∷◌, min, arith}
use gogram.Common.Int.{pos, negsuc}
use gogram.Session.TcpState.{
  IsSound, Call, sets_active, closes, Reached, new_tcp_state, calls_released,
}
use gogram.Session.Backoff.{
  reconnect_delay, or_default, default_base_reconnect_delay, default_maximum, reconnect_delay_lem,
}
use gogram.Session.MsgId.{second, Increasing, msg_ids, new_msg_id_generator, msg_ids-Increasing}

new_tcp_state-IsSound : IsSound new_tcp_state
new_tcp_state-IsSound = record { released = refl; exclusive = refl; none_left = tt }

abbrev some_calls : List Call
some_calls = sets_active true ∷ closes ∷ closes ∷ sets_active true ∷ sets_active false ∷ closes ∷ []

released_example : Reached some_calls new_tcp_state
released_example = calls_released some_calls new_tcp_state new_tcp_state-IsSound

delay_example :
    (reconnect_delay (pos (3 * second)) (negsuc 0) 12
      ≡ min
          (or_default (pos (3 * second)) default_base_reconnect_delay * 2 ^ 12)
          (or_default (negsuc 0) default_maximum))
    × (0 < reconnect_delay (pos (3 * second)) (negsuc 0) 12)
delay_example = reconnect_delay_lem (pos (3 * second)) (negsuc 0) 12

abbrev readings : List ℕ
readings = 1700000000 * second ∷ 1700000000 * second ∷ 1600000000 * second ∷ []

ids_example : Increasing 0 (msg_ids 5 readings new_msg_id_generator)
ids_example =
    msg_ids-Increasing 5 readings (omega arith, (omega arith, (omega arith, tt))) (omega arith)

abbrev ring : KeyRing
ring = record {
  auth_key = replicate 256 1;
  auth_key_hash = replicate 8 1;
  temp_auth_key = replicate 256 2;
  temp_auth_key_hash = replicate 8 2;
  pending_temp_auth_key = replicate 256 3;
  pending_temp_key_hash = replicate 8 3;
  previous_temp_auth_key = [];
  previous_temp_key_hash = [];
  server_salt = 11;
  temp_server_salt = 12;
  pending_temp_salt = 13;
  previous_temp_salt = 0;
  enable_pfs = true;
}
