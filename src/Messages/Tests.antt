-- ===== src/Messages/Tests.antt =====
-- A witness: a message under an id of the server.
use gogram.Common.{◌≡◌, refl, inl, [], ◌∷◌, arith}
use gogram.Common.Results.{ok}
use gogram.Io.Pipe.{buffer, buffer-IsBuffer}
use gogram.Messages.Plain.{Unencrypted, serialize_unencrypted, deserialize_unencrypted}
use gogram.Messages.RoundTrip.{deserialize-serialize_unencrypted}

abbrev answer : Unencrypted
answer = record { msg = 1 ∷ 2 ∷ 3 ∷ 4 ∷ 5 ∷ 6 ∷ 7 ∷ 8 ∷ []; msg_id = 4000000001 }

unencrypted_example :
    deserialize_unencrypted (serialize_unencrypted buffer (λ w. w) [] answer) ≡ ok answer
unencrypted_example =
    deserialize-serialize_unencrypted buffer (λ w. w) [] answer buffer-IsBuffer refl (omega arith)
      (omega arith) (omega arith) (inl (omega arith)) (omega arith)
