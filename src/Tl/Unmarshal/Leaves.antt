-- ===== src/Tl/Unmarshal/Leaves.antt =====
-- What the reflective decoder takes for values that have no others inside.
use gogram.Common.{
  ℕ, suc, ◌^◌, ◌<◌, ◌≡◌, refl, ap, Bool, true, none, some, [], append-nil, length, length-append,
  arith,
}
use mathlib.Core.Path.{subst}
use gogram.Common.Bytes.{Bytes, le_bytes, be_bytes, length-be_bytes}
use gogram.Common.Int.{pos}
use gogram.Tl.Schema.{
  GoType, Value, Values, object, boxed, big128, big256, pseudo_true, pseudo_false,
}
use gogram.Tl.Wire.{message_wire}
use gogram.Tl.WireForm.{bool_wire}
use gogram.Tl.BigInts.{set_bytes}
use gogram.Tl.BigInts.Laws.{set_bytes-be_bytes}
use gogram.Tl.Decoder.{D, Decoder, give, pop_uint, pop_long, pop_bool, pop_raw_bytes, pop_message}
use gogram.Tl.Decoder.Reads.{
  Pops, pop_uint-Pops, pop_long-Pops, pop_bool-Pops, pop_raw_bytes-Pops, give-Pops, Pops-then,
}
use gogram.Tl.Decoder.Message.{pop_message-Pops}
use gogram.Tl.Unmarshal.{Program, unmarshal128, unmarshal256}
use gogram.Tl.Unmarshal.Steps.{Takes}
use gogram.Tl.Unmarshal.Registered.{registered_object-Takes}
use gogram.Tl.Unmarshal.Kinds.{
  decode_by_crc, decode_registered_object, assign_interface, assign_boxed,
}

-- More levels left than the call takes.
pub roomy :
    {A : Type 0} (fuel r : ℕ) (m : D A) {a : A} (b : Bytes)
    → Takes fuel r m a b
    → Takes fuel (suc r) m a b
roomy fuel r m b takes d more clean fueled room arrives =
    takes d more clean fueled (omega arith) arrives

pub no_fuel : {A : Type 0} (r : ℕ) (m : D A) {a : A} (b : Bytes) → Takes 0 r m a b
no_fuel r m b d more clean fueled room arrives = absurd (omega arith)

module _ (fuel r : ℕ) where
  pub uint-Takes : {v : ℕ} → v < 2 ^ 32 → Takes fuel r pop_uint v (le_bytes 4 v)
  uint-Takes {v} h d more clean fueled room arrives = pop_uint-Pops d v more clean h arrives

  pub long-Takes : {v : ℕ} → v < 2 ^ 64 → Takes fuel r pop_long v (le_bytes 8 v)
  long-Takes {v} h d more clean fueled room arrives = pop_long-Pops d v more clean h arrives

  pub bool-Takes : (b : Bool) → Takes fuel r pop_bool b (bool_wire b)
  bool-Takes b d more clean fueled room arrives = pop_bool-Pops d b more clean arrives

  pub message-Takes : (s : Bytes) → length s < 2 ^ 24 → Takes fuel r pop_message s (message_wire s)
  message-Takes s h d more clean fueled room arrives = pop_message-Pops d s more clean h arrives

  pub int128-Takes :
      {v : ℕ} → v < 2 ^ 128 → Takes fuel r unmarshal128 (big128 (some (pos v))) (be_bytes 16 v)
  unfolding unmarshal128
  int128-Takes {v} h d more clean fueled room arrives =
      let size = length-be_bytes 16 v in
      let raw =
        pop_raw_bytes-Pops d (be_bytes 16 v) more clean arrives
          (omega (arith, size, length-append (be_bytes 16 v) more)) in
      Pops-then d (pop_raw_bytes (pos 16)) (big128 none)
        (λ val. give (big128 (some (pos (set_bytes 0 val)))))
        (subst (λ n. Pops d (pop_raw_bytes (pos n) d) (be_bytes 16 v) more) size raw)
        λ d' clean' left.
          give-Pops d' _ _ clean' left (ap (λ n. big128 (some (pos n))) (set_bytes-be_bytes 16 v h))

  pub int256-Takes :
      {v : ℕ} → v < 2 ^ 256 → Takes fuel r unmarshal256 (big256 (some (pos v))) (be_bytes 32 v)
  unfolding unmarshal256
  int256-Takes {v} h d more clean fueled room arrives =
      let size = length-be_bytes 32 v in
      let raw =
        pop_raw_bytes-Pops d (be_bytes 32 v) more clean arrives
          (omega (arith, size, length-append (be_bytes 32 v) more)) in
      Pops-then d (pop_raw_bytes (pos 32)) (big256 none)
        (λ val. give (big256 (some (pos (set_bytes 0 val)))))
        (subst (λ n. Pops d (pop_raw_bytes (pos n) d) (be_bytes 32 v) more) size raw)
        λ d' clean' left.
          give-Pops d' _ _ clean' left (ap (λ n. big256 (some (pos n))) (set_bytes-be_bytes 32 v h))

module _ (p : Program) where
  pub assigned_object :
      (i n : ℕ) (vs : Values) (d : Decoder)
      → p.converts (object n vs) i ≡ true
      → assign_interface p i (object n vs) d ≡ (d, boxed (object n vs))
  unfolding assign_interface assign_boxed
  assigned_object i n vs d fits = rw fits refl

  pub assigned_true :
      (i : ℕ) (d : Decoder)
      → p.converts pseudo_true i ≡ true
      → assign_interface p i pseudo_true d ≡ (d, boxed pseudo_true)
  unfolding assign_interface assign_boxed
  assigned_true i d fits = rw fits refl

  pub assigned_false :
      (i : ℕ) (d : Decoder)
      → p.converts pseudo_false i ≡ true
      → assign_interface p i pseudo_false d ≡ (d, boxed pseudo_false)
  unfolding assign_interface assign_boxed
  assigned_false i d fits = rw fits refl

  -- A built-in constructor without a content.
  pub constructor_word :
      (fuel r crc : ℕ) (self : GoType → D Value) (v : Value)
      → crc < 2 ^ 32
      → Takes fuel r (decode_by_crc p self crc) v []
      → Takes fuel (suc r) (decode_registered_object p self) v (le_bytes 4 crc)
  constructor_word fuel r crc self v small takes =
      subst (Takes fuel (suc r) (decode_registered_object p self) v) (append-nil (le_bytes 4 crc))
        (registered_object-Takes p fuel r self crc v [] small takes)
