-- ===== src/Tl/Unmarshal/Wired.antt =====
-- The reflective decoder reads the wire form.
use gogram.Common.{
  ℕ, Bool, zero, suc, ◌+◌, ◌≤◌, ◌<◌, ◌≡◌, ◌∙◌, true, none, some, List, [], ◌∷◌, ◌++◌, arith,
}
use gogram.Common.Bytes.{Bytes, le_bytes}
use gogram.Tl.Defs.{crc_true, crc_false}
use gogram.Tl.Schema.{
  value, GoType, FieldTag, Field, Value, Values, word, long, truth, text, bytes, object,
  pseudo_true, pseudo_false, no_values, count, zero_value,
}
use gogram.Tl.Flags.{Flags, has_flag}
use mathlib.Core.Path.{subst}
use gogram.Tl.Laid.{
  layout_of, words_of, words_of-AreWords, flags_wire-laid, flag_layout-HasPlaces, InPlace-Placed,
  has_flag-words,
}
use gogram.Tl.FlagLaws.{AreWords}
use gogram.Tl.WireForm.{
  Places, InPlace, is_set, flag_of, IsWire, ObjectWire, an_object, AreWire, FieldsWire, FieldWire,
  a_uint32, an_int32, an_int64, a_float64, a_boolean, a_str, a_byte_slice, an_int128, an_int256,
  a_slice, a_pointer, an_interface, a_true, a_false, no_elements, an_element, no_fields, a_field,
  untagged, left_out, absent, by_flag, present,
}
use gogram.Tl.Lengths.{wires_ge}
use gogram.Tl.Decoder.{Decoder, rest, give, pop_uint, pop_long, pop_bool, pop_message}
use gogram.Tl.Decoder.Reads.{Pops}
use gogram.Tl.Unmarshal.{
  Program, decode_field, decode_fields, decode_object, decode_object_body, decode_present,
  pop_elements,
}
use gogram.Tl.Unmarshal.Takes.{Seen, none-Seen, next_flags, next_flags-Seen, has_flag-Seen}
use gogram.Tl.Unmarshal.Steps.{
  Takes, as_call, given, untagged_call, ignored_call, tagged_call, absent_call, bitflag_call,
  present_call, present_field, last_flags, next_field,
}
use gogram.Tl.Unmarshal.Whole.{
  as_value-Takes, level, object_body-Takes, object-Takes, next_element, vector-Takes,
}
use gogram.Tl.Unmarshal.Registered.{known_object-Takes, interface-Takes}
use gogram.Tl.Unmarshal.Kinds.{decode_value, decode_kind, decode_by_crc}
use gogram.Tl.Unmarshal.Leaves.{
  roomy, no_fuel, uint-Takes, long-Takes, bool-Takes, message-Takes, int128-Takes, int256-Takes,
  assigned_object, assigned_true, assigned_false, constructor_word,
}

-- A flag that was read is that of the values.
InPlace-Seen :
    (places : Places) (flag : ℕ → ℕ → Bool) (g : Flags) (i : ℕ) (info : FieldTag)
    → Seen (layout_of places) (words_of flag) (suc i) g
    → InPlace places info i
    → has_flag g info ≡ is_set flag info
InPlace-Seen places flag g i info seen place =
    has_flag-Seen (layout_of places) (words_of flag) g i info seen
      (InPlace-Placed places info i place)
    ∙ has_flag-words places flag info i place

module _ (p : Program) where
  mutual
    unfolding decode_value decode_kind count decode_by_crc pop_elements

    value-Takes :
        {r : ℕ} {t : GoType} {v : Value} {b : Bytes}
        → IsWire p r t v b
        → (fuel : ℕ) → Takes fuel r (decode_value p fuel t) v b
    value-Takes (a_uint32 {r} h) (suc fuel) =
        level fuel r _ _ _ (as_value-Takes fuel r word pop_uint _ (uint-Takes fuel r h))
    value-Takes (an_int32 {r} h) (suc fuel) =
        level fuel r _ _ _ (as_value-Takes fuel r word pop_uint _ (uint-Takes fuel r h))
    value-Takes (an_int64 {r} h) (suc fuel) =
        level fuel r _ _ _ (as_value-Takes fuel r long pop_long _ (long-Takes fuel r h))
    value-Takes (a_float64 {r} h) (suc fuel) =
        level fuel r _ _ _ (as_value-Takes fuel r long pop_long _ (long-Takes fuel r h))
    value-Takes (a_boolean {r} {b}) (suc fuel) =
        level fuel r _ _ _ (as_value-Takes fuel r truth pop_bool _ (bool-Takes fuel r b))
    value-Takes (a_str {r} {s} h) (suc fuel) =
        level fuel r _ _ _ (as_value-Takes fuel r text pop_message _ (message-Takes fuel r s h))
    value-Takes (a_byte_slice {r} {s} h) (suc fuel) =
        level fuel r _ _ _
          (as_value-Takes fuel r (λ x. bytes (some x)) pop_message _ (message-Takes fuel r s h))
    value-Takes (an_int128 {r} h) (suc fuel) = level fuel r _ _ _ (int128-Takes fuel r h)
    value-Takes (an_int256 {r} h) (suc fuel) = level fuel r _ _ _ (int256-Takes fuel r h)
    value-Takes (a_slice {r} {t} {vs} {b} few small parts) (suc fuel) = level fuel r _ _ _ (
        vector-Takes fuel r (decode_value p fuel) t p vs b few small (wires_ge parts)
          (elements-Takes parts fuel))
    value-Takes (a_pointer {r} {n} {vs} {b} whole) (suc fuel) = level fuel (suc r) _ _ _ (
        roomy fuel r _ _ (
          as_value-Takes fuel r (object n) (decode_object (decode_value p fuel) (p.types n)) _
            (pointed-Takes whole fuel)))
    value-Takes (an_interface {r} {n} {i} {vs} {b} crc known plain fits whole) (suc fuel) =
        level fuel (suc (suc r)) _ _ _ (
          interface-Takes p fuel (suc (suc r)) (decode_value p fuel) i (object n vs) _
            (λ d. assigned_object p i n vs d fits)
            (roomy fuel (suc r) _ _ (
              known_object-Takes p fuel r (decode_value p fuel) n vs b crc known plain
                (body-Takes whole fuel))))
    value-Takes (a_true {r} {i} fits) (suc fuel) = level fuel (suc (suc r)) _ _ _ (
        interface-Takes p fuel (suc (suc r)) (decode_value p fuel) i pseudo_true _
          (λ d. assigned_true p i d fits)
          (constructor_word p fuel (suc r) crc_true (decode_value p fuel) pseudo_true (omega arith)
            (given fuel (suc r) pseudo_true)))
    value-Takes (a_false {r} {i} fits) (suc fuel) = level fuel (suc (suc r)) _ _ _ (
        interface-Takes p fuel (suc (suc r)) (decode_value p fuel) i pseudo_false _
          (λ d. assigned_false p i d fits)
          (constructor_word p fuel (suc r) crc_false (decode_value p fuel) pseudo_false
            (omega arith) (given fuel (suc r) pseudo_false)))
    value-Takes {r} {b = b} _ zero = no_fuel r _ b

    pointed-Takes :
        {r n : ℕ} {vs : Values} {b : Bytes}
        → ObjectWire p r n vs b
        → (fuel : ℕ)
        → Takes fuel r
            (decode_object (decode_value p fuel) (p.types n))
            vs
            (le_bytes 4 (p.types n).crc ++ b)
    pointed-Takes (an_object {r} {n} {vs} {places} {b} sized placed parts) fuel =
        object-Takes fuel r (decode_value p fuel) (p.types n)
          (flag_layout-HasPlaces (p.types n) placed) b
          (fields-Takes parts fuel (words_of-AreWords (flag_of (p.types n).fields vs)) (0, 0)
            (none-Seen (layout_of places) (words_of (flag_of (p.types n).fields vs)) (0, 0)))
          sized

    body-Takes :
        {r n : ℕ} {vs : Values} {b : Bytes}
        → ObjectWire p r n vs b
        → (fuel : ℕ) → Takes fuel r (decode_object_body (decode_value p fuel) (p.types n)) vs b
    body-Takes (an_object {r} {n} {vs} {places} {b} sized placed parts) fuel =
        object_body-Takes fuel r (decode_value p fuel) (p.types n)
          (flag_layout-HasPlaces (p.types n) placed) b
          (fields-Takes parts fuel (words_of-AreWords (flag_of (p.types n).fields vs)) (0, 0)
            (none-Seen (layout_of places) (words_of (flag_of (p.types n).fields vs)) (0, 0)))

    elements-Takes :
        {r : ℕ} {t : GoType} {vs : Values} {b : Bytes}
        → AreWire p r t vs b
        → (fuel : ℕ) → Takes fuel r (pop_elements (decode_value p fuel) t (count vs)) vs b
    elements-Takes (no_elements {r}) fuel = given fuel r no_values
    elements-Takes (an_element {r} {t} {v} {vs} {b} {bs} form more) fuel =
        next_element fuel r (decode_value p fuel) t (count vs) v vs b bs (value-Takes form fuel)
          (elements-Takes more fuel)

    fields-Takes :
        {r i : ℕ} {places : Places} {flag : ℕ → ℕ → Bool} {fs : List Field} {vs : Values}
        {b : Bytes}
        → FieldsWire p r places flag i fs vs b
        → (fuel : ℕ) → AreWords (words_of flag)
        → (g : Flags) → Seen (layout_of places) (words_of flag) i g
        → Takes fuel r (decode_fields (decode_value p fuel) (layout_of places) g i fs) vs b
    fields-Takes (no_fields {r} {i} {places} {flag}) fuel words g seen =
        subst
          (Takes fuel r (decode_fields (decode_value p fuel) (layout_of places) g i []) no_values)
          (flags_wire-laid places flag i)
          (last_flags fuel r (decode_value p fuel) (layout_of places) (words_of flag) g i words)
    fields-Takes (a_field {r} {i} {places} {flag} {f} {fs} {v} {vs} {b} {bs} one more) fuel words g
          seen =
        let seen' = next_flags-Seen (layout_of places) (words_of flag) g i seen in
        let g' = next_flags (layout_of places) (words_of flag) i g in
        subst
          (λ w.
            Takes fuel r (decode_fields (decode_value p fuel) (layout_of places) g i (f ∷ fs))
              (value v vs) (w ++ (b ++ bs)))
          (flags_wire-laid places flag i)
          (next_field fuel r (decode_value p fuel) (layout_of places) (words_of flag) g i f fs v vs
            b bs words (field-Takes one fuel g' seen') (fields-Takes more fuel words g' seen'))

    field-Takes :
        {r i : ℕ} {places : Places} {flag : ℕ → ℕ → Bool} {f : Field} {v : Value} {b : Bytes}
        → FieldWire p r places flag i f v b
        → (fuel : ℕ) (g : Flags) → Seen (layout_of places) (words_of flag) (suc i) g
        → Takes fuel r (decode_field (decode_value p fuel) (layout_of places) g f) v b
    field-Takes (untagged {r} {places = places} {f = f} {v} {b} tag out form) fuel g seen =
        as_call fuel r _ (decode_present (decode_value p fuel) f) b
          (λ d. untagged_call (decode_value p fuel) (layout_of places) g f d tag out)
          (present_field fuel r (decode_value p fuel) f v b (value-Takes form fuel))
    field-Takes (left_out {r} {places = places} {f = f} tag skip) fuel g seen =
        as_call fuel r _ (give (zero_value f.type)) []
          (λ d. ignored_call (decode_value p fuel) (layout_of places) g f d tag skip)
          (given fuel r (zero_value f.type))
    field-Takes (absent {r} {i} {places} {flag} {f} {info} tag keep out place off type) fuel g
          seen =
        as_call fuel r _ (give (zero_value f.type)) []
          (λ d.
            tagged_call (decode_value p fuel) (layout_of places) g f d tag out
            ∙ absent_call (decode_value p fuel) (layout_of places) g info f d
                (InPlace-Placed places info i place).has_word
                (InPlace-Seen places flag g i info seen place ∙ off))
          (given fuel r (zero_value f.type))
    field-Takes (by_flag {r} {i} {places} {flag} {f} {info} tag keep out place on bit type) fuel g
          seen =
        as_call fuel r _ (give (truth true)) []
          (λ d.
            tagged_call (decode_value p fuel) (layout_of places) g f d tag out
            ∙ bitflag_call (decode_value p fuel) (layout_of places) g info f d keep
                (InPlace-Placed places info i place).has_word
                (InPlace-Seen places flag g i info seen place ∙ on) bit type)
          (given fuel r (truth true))
    field-Takes (present {r} {i} {places} {flag} {f} {info} {v} {b} tag keep out place on bit form)
          fuel g seen =
        as_call fuel r _ (decode_present (decode_value p fuel) f) b
          (λ d.
            tagged_call (decode_value p fuel) (layout_of places) g f d tag out
            ∙ present_call (decode_value p fuel) (layout_of places) g info f d keep
                (InPlace-Placed places info i place).has_word
                (InPlace-Seen places flag g i info seen place ∙ on) bit)
          (present_field fuel r (decode_value p fuel) f v b (value-Takes form fuel))

  -- A reader that has, without an error so far, the wire form of a value of the type `t` and any
  -- others before it gets that value back from the reflective decoder, and the others are left:
  -- where the levels of the value are left below the limit of 128, and the fuel is what the depth
  -- leaves of 129.
  pub decode_value-Pops :
      {r : ℕ} {t : GoType} {v : Value} {b : Bytes} (fuel : ℕ)
      → IsWire p r t v b
      → (d : Decoder) (more : Bytes) → d.err ≡ none
      → 128 < fuel + d.depth
      → d.depth + r ≤ 128
      → rest d ≡ b ++ more
      → Pops d (decode_value p fuel t d) v more
  decode_value-Pops fuel form = value-Takes form fuel
