-- ===== src/Objects/Tests.antt =====
-- A witness: a container of two messages.
use gogram.Common.{refl, [], ◌∷◌, arith}
use gogram.Io.Pipe.{buffer, buffer-IsBuffer}
use gogram.Messages.Encrypted.{Encrypted, fresh_message}
use gogram.Objects.Container.Written.{Carryable}
use gogram.Objects.Container.RoundTrip.{Contained, unmarshal-marshal_container}

abbrev short : Encrypted
short = record (fresh_message [] []) { msg_id = 4000000001; seq_no = 3; msg = 1 ∷ 2 ∷ 3 ∷ 4 ∷ [] }

abbrev longer : Encrypted
longer = record (fresh_message [] []) {
  msg_id = 4000000005;
  seq_no = 4;
  msg = 1 ∷ 2 ∷ 3 ∷ 4 ∷ 5 ∷ 6 ∷ 7 ∷ 8 ∷ [];
}

short-Carryable : Carryable short
short-Carryable = record {
  id_fits = omega arith;
  seq_fits = omega arith;
  least = omega arith;
  few = omega arith;
  whole = refl;
}

longer-Carryable : Carryable longer
longer-Carryable = record {
  id_fits = omega arith;
  seq_fits = omega arith;
  least = omega arith;
  few = omega arith;
  whole = refl;
}

container_example : Contained buffer (λ w. w) [] (short ∷ longer ∷ [])
container_example =
    unmarshal-marshal_container buffer (λ w. w) [] (short ∷ longer ∷ []) buffer-IsBuffer refl
      (short-Carryable, (longer-Carryable, tt)) (omega arith)
