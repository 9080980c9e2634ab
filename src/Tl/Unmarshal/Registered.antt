-- ===== src/Tl/Unmarshal/Registered.antt =====
-- Registered objects and interfaces, from the struct inside.
use gogram.Common.{ℕ, suc, ◌^◌, ◌<◌, ◌≡◌, refl, sym, ap, ◌∙◌, false, Option, none, some, ◌++◌}
use mathlib.Core.Path.{subst}
use gogram.Common.Bytes.{Bytes, le_bytes}
use gogram.Tl.Defs.{reading_crc, in_object, in_interface, not_registered}
use gogram.Tl.Schema.{GoType, Value, Values, nil, object, boxed, interface}
use gogram.Tl.WireForm.{IsObjectCrc}
use gogram.Tl.Decoder.{D, or_wrap, give, fail, Decoder, dump_without_read}
use gogram.Tl.Decoder.Reads.{Pops, give-Pops, Pops-bind, or_wrap_ok}
use gogram.Tl.Unmarshal.{Program, decode_object_body}
use gogram.Tl.Unmarshal.Steps.{Takes}
use gogram.Tl.Unmarshal.Kinds.{
  decode_registered, decode_by_crc, decode_registered_object, assign_interface, decode_kind,
}
use gogram.Tl.Unmarshal.Whole.{after_word, free_level}

module _ (p : Program) (fuel r : ℕ) (self : GoType → D Value) where
  registered-Takes :
      (crc n : ℕ) (vs : Values) (b : Bytes)
      → p.is_enum_crc crc ≡ false
      → Takes fuel r (decode_object_body self (p.types n)) vs b
      → Takes fuel r (decode_registered p self crc n) (object n vs) b
  unfolding decode_registered
  registered-Takes crc n vs b plain takes d more clean fueled room arrives = rw plain (
      Pops-bind d (decode_object_body self (p.types n))
        (λ fs. or_wrap in_object (object n fs) (give (object n fs)))
        (takes d more clean fueled room arrives)
        λ d1 clean1 left1.
          subst (λ x. Pops d1 x (object n vs) more)
            (sym (or_wrap_ok in_object (object n vs) (give (object n vs)) d1 clean1))
            (give-Pops d1 (object n vs) (object n vs) clean1 left1 refl))

  -- The call that the crc of a registered struct type selects.
  by_crc-Takes :
      (crc n : ℕ) (vs : Values) (b : Bytes)
      → IsObjectCrc crc
      → p.lookup_object_type crc ≡ some n
      → Takes fuel r (decode_registered p self crc n) (object n vs) b
      → Takes fuel r (decode_by_crc p self crc) (object n vs) b
  unfolding decode_by_crc
  by_crc-Takes crc n vs b free known takes =
      rw (free.no_vector, free.no_false, free.no_true, free.no_null)
        (subst (λ m. Takes fuel r m (object n vs) b)
          (sym (
            ap {B = D Value}
              (λ (x : Option ℕ). elim x [
                | none ↦ λ d. fail (not_registered crc (dump_without_read d)) nil d
                | some n ↦ decode_registered p self crc n
              ])
              known))
          takes)

  -- A registered object, with its crc in front.
  pub registered_object-Takes :
      (crc : ℕ) (v : Value) (b : Bytes)
      → crc < 2 ^ 32
      → Takes fuel r (decode_by_crc p self crc) v b
      → Takes fuel (suc r) (decode_registered_object p self) v (le_bytes 4 crc ++ b)
  unfolding decode_registered_object
  registered_object-Takes crc v b small takes =
      free_level fuel r nil _ (le_bytes 4 crc ++ b)
        (after_word fuel r crc reading_crc nil (decode_by_crc p self) b small takes)

  pub known_object-Takes :
      (n : ℕ) (vs : Values) (b : Bytes)
      → IsObjectCrc (p.types n).crc
      → p.lookup_object_type (p.types n).crc ≡ some n
      → p.is_enum_crc (p.types n).crc ≡ false
      → Takes fuel r (decode_object_body self (p.types n)) vs b
      → Takes fuel
          (suc r)
          (decode_registered_object p self)
          (object n vs)
          (le_bytes 4 (p.types n).crc ++ b)
  known_object-Takes n vs b free known plain takes =
      let crc = (p.types n).crc in
      registered_object-Takes crc (object n vs) b free.word_sized
        (by_crc-Takes crc n vs b free known (registered-Takes crc n vs b plain takes))

  -- What an interface takes: an object that its type admits.
  pub interface-Takes :
      (i : ℕ) (v : Value) (b : Bytes)
      → ((d : Decoder) → assign_interface p i v d ≡ (d, boxed v))
      → Takes fuel r (decode_registered_object p self) v b
      → Takes fuel r (decode_kind p self (interface i)) (boxed v) b
  unfolding decode_kind
  interface-Takes i v b assigned takes d more clean fueled room arrives =
      Pops-bind d (decode_registered_object p self)
        (λ w. or_wrap in_interface nil (assign_interface p i w))
        (takes d more clean fueled room arrives)
        λ d1 clean1 left1.
          subst (λ x. Pops d1 x (boxed v) more)
            (sym (or_wrap_ok in_interface nil (assign_interface p i v) d1 clean1 ∙ assigned d1))
            (give-Pops d1 (boxed v) (boxed v) clean1 left1 refl)
