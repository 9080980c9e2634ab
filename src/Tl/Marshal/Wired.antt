-- ===== src/Tl/Marshal/Wired.antt =====
-- The reflective encoder writes the wire form.
use gogram.Common.{ℕ, Bool, suc, ◌+◌, ◌≤◌, ◌≡◌, ◌∙◌, ap, none, List, ◌++◌, arith}
use gogram.Common.Bytes.{Bytes, le_bytes}
use gogram.Io.{Writer, IsBuffer}
use gogram.Tl.Defs.{crc_true, crc_false}
use gogram.Tl.Schema.{GoType, Field, Value, Values, count}
use gogram.Tl.FlagsOf.{field_flags-FieldsWire}
use gogram.Tl.Laid.{layout_of, words_of, flags_wire-laid, flag_layout-HasPlaces, has_flag-words}
use mathlib.Core.Path.{subst}
use gogram.Tl.WireForm.{
  Places, IsWire, ObjectWire, an_object, AreWire, FieldsWire, FieldWire, a_uint32, an_int32,
  an_int64, a_float64, a_boolean, a_str, a_byte_slice, an_int128, an_int256, a_slice, a_pointer,
  an_interface, a_true, a_false, no_elements, an_element, no_fields, a_field, untagged, left_out,
  absent, by_flag, present,
}
use gogram.Tl.Unmarshal.{Program}
use gogram.Tl.Encoder.{Encoder}
use gogram.Tl.Marshal.{
  max_depth, encode_boxed, encode_field, encode_fields, encode_body, encode_struct, encode_elements,
  encode_value, encoders,
}
use gogram.Tl.Marshal.Sends.{
  Sent, Sent-trans, put_uint-Sent, put_long-Sent, put_bool-Sent, put_message-Sent, put_string-Sent,
  nothing-Sent, put_flags-Sent,
}
use gogram.Tl.Marshal.Steps.{
  Sends, level, as_code, present-Sent, next_field, next_element, vector-Sends, int128-Sends,
  int256-Sends,
}
use gogram.Tl.Marshal.Codes.{
  struct_code, untagged_code, ignored_code, tagged_code, absent_code, bitflag_code,
}

module _ (p : Program) {W : Type 0} {o : Writer W} {written : W → Bytes}
    (lawful : IsBuffer o written) where
  same_wire : {e e' : Encoder W} {b c : Bytes} → b ≡ c → Sent written e e' b → Sent written e e' c
  same_wire {e} {e'} same = subst (Sent written e e') same

  mutual
    unfolding encode_value encode_boxed encode_fields encode_elements encode_body

    value-Sends :
        {r : ℕ} {t : GoType} {v : Value} {b : Bytes}
        → IsWire p r t v b
        → Sends written r (encode_value p.types o v) b
    value-Sends (a_uint32 {r} {v} h) =
        level lawful r _ λ e clean room. put_uint-Sent lawful e v clean
    value-Sends (an_int32 {r} {v} h) =
        level lawful r _ λ e clean room. put_uint-Sent lawful e v clean
    value-Sends (an_int64 {r} {v} h) =
        level lawful r _ λ e clean room. put_long-Sent lawful e v clean
    value-Sends (a_float64 {r} {v} h) =
        level lawful r _ λ e clean room. put_long-Sent lawful e v clean
    value-Sends (a_boolean {r} {b}) =
        level lawful r _ λ e clean room. put_bool-Sent lawful e b clean
    value-Sends (a_str {r} {s} h) =
        level lawful r _ λ e clean room. put_string-Sent lawful e s clean h
    value-Sends (a_byte_slice {r} {s} h) =
        level lawful r _ λ e clean room. put_message-Sent lawful e s clean h
    value-Sends (an_int128 {r} {v} h) = level lawful r _ (int128-Sends lawful r v h)
    value-Sends (an_int256 {r} {v} h) = level lawful r _ (int256-Sends lawful r v h)
    value-Sends (a_slice {r} {vs = vs} few small parts) =
        level lawful r _ (vector-Sends lawful r (count vs) _ (omega arith) (elements-Sends parts 0))
    value-Sends (a_pointer {r} {n} {vs} whole) =
        level lawful (suc r) _ (level lawful r _ (object-Sends whole))
    value-Sends (an_interface {r} {n} {vs = vs} crc known plain fits whole) =
        level lawful (suc (suc r)) _
          (level lawful (suc r) _ (level lawful r _ (object-Sends whole)))
    value-Sends (a_true {r} fits) = level lawful (suc (suc r)) _ (
        level lawful (suc r) _
          (level lawful r _ λ e clean room. put_uint-Sent lawful e crc_true clean))
    value-Sends (a_false {r} fits) = level lawful (suc (suc r)) _ (
        level lawful (suc r) _
          (level lawful r _ λ e clean room. put_uint-Sent lawful e crc_false clean))

    object-Sends :
        {r n : ℕ} {vs : Values} {b : Bytes}
        → ObjectWire p r n vs b
        → Sends written r
            (encode_struct o (p.types n) vs (encoders p.types o vs))
            (le_bytes 4 (p.types n).crc ++ b)
    object-Sends (an_object {r} {n} {vs} {places} sized placed parts) e clean room =
        let laid = flag_layout-HasPlaces (p.types n) placed in
        let set = field_flags-FieldsWire p parts in
        let first = put_uint-Sent lawful e (p.types n).crc clean in
        as_code lawful (struct_code o (p.types n) vs (encoders p.types o vs) e clean laid set) (
          Sent-trans lawful first
            (fields-Sends parts _ first.appends.no_error (omega (arith, first.same_depth))))

    elements-Sends :
        {r : ℕ} {t : GoType} {vs : Values} {b : Bytes}
        → AreWire p r t vs b
        → (i : ℕ) → Sends written r (encode_elements i (encoders p.types o vs)) b
    elements-Sends no_elements i e clean room = nothing-Sent lawful e clean
    elements-Sends (an_element {r} {vs = vs} form rest) i e clean room =
        next_element lawful r i _ (encoders p.types o vs) (value-Sends form)
          (elements-Sends rest (suc i)) e clean room

    fields-Sends :
        {r i : ℕ} {places : Places} {flag : ℕ → ℕ → Bool} {fs : List Field} {vs : Values}
        {b : Bytes}
        → FieldsWire p r places flag i fs vs b
        → Sends written r
            (encode_fields o (layout_of places) (words_of flag) i fs vs (encoders p.types o vs))
            b
    fields-Sends (no_fields {r} {i} {places} {flag}) e clean room =
        same_wire (flags_wire-laid places flag i)
          (put_flags-Sent lawful (layout_of places) (words_of flag) i e clean)
    fields-Sends (a_field {r} {i} {places} {flag} {f} {fs} {v} {vs} {b} {bs} one more) e clean
          room =
        same_wire (ap (λ w. w ++ (b ++ bs)) (flags_wire-laid places flag i)) (
          next_field lawful r (layout_of places) (words_of flag) i f fs v vs _
            (encoders p.types o vs) (field-Sends one) (fields-Sends more) e clean room)

    field-Sends :
        {r i : ℕ} {places : Places} {flag : ℕ → ℕ → Bool} {f : Field} {v : Value} {b : Bytes}
        → FieldWire p r places flag i f v b
        → Sends written r (encode_field o (words_of flag) f v (encode_value p.types o v)) b
    field-Sends (untagged {flag = flag} {f} {v} tag out form) e clean room =
        as_code lawful (untagged_code o (words_of flag) f v _ e tag out)
          (value-Sends form e clean room)
    field-Sends (left_out {flag = flag} {f} tag skip) e clean room =
        as_code lawful (ignored_code o (words_of flag) f _ _ e tag skip)
          (nothing-Sent lawful e clean)
    field-Sends (absent {i = i} {places} {flag} {f} {info} tag skip out place off type) e clean
          room =
        as_code lawful
          (tagged_code o (words_of flag) f _ _ e tag out
            ∙ absent_code o (words_of flag) info _ _ e
                (has_flag-words places flag info i place ∙ off))
          (nothing-Sent lawful e clean)
    field-Sends (by_flag {i = i} {places} {flag} {f} {info} tag skip out place on bit type) e clean
          room =
        as_code lawful
          (tagged_code o (words_of flag) f _ _ e tag out
            ∙ bitflag_code o (words_of flag) info _ _ e bit)
          (nothing-Sent lawful e clean)
    field-Sends (present {i = i} {places} {flag} {f} {info} tag skip out place on bit form) e clean
          room =
        as_code lawful (tagged_code o (words_of flag) f _ _ e tag out) (
          present-Sent lawful (words_of flag) info _ e form clean skip bit
            (has_flag-words places flag info i place ∙ on) (value-Sends form e clean room))

  pub encode_value-Sent :
      {r : ℕ} {t : GoType} {v : Value} {b : Bytes}
      → IsWire p r t v b
      → (e : Encoder W) → e.err ≡ none
      → e.depth + r ≤ max_depth
      → Sent written e (encode_value p.types o v e) b
  encode_value-Sent = value-Sends
