-- ===== src/Tl/Marshal/Steps.antt =====
-- The steps of the reflective encoder, each with the call that comes back to `encodeValue` as an
-- assumption.
use gogram.Common.{
  ℕ, suc, ◌+◌, ◌%◌, ◌^◌, ◌≤◌, ◌<◌, ◌≡◌, refl, sym, ap, true, false, Bool-cases, inl, inr, Option,
  none, some, List, [], ◌∷◌, ◌++◌, arith,
}
use mathlib.Core.Path.{subst}
use gogram.Common.Bytes.{Bytes, le_bytes, be_bytes}
use gogram.Common.Int.{pos}
use gogram.Io.{Writer, IsBuffer}
use gogram.Tl.Defs.{TlError, in_element, crc_vector}
use gogram.Tl.Schema.{GoType, FieldTag, Field, Value, Values, value, is_zero}
use gogram.Tl.Laid.{laid_wire}
use gogram.Tl.Flags.{Layout, Flags, has_flag}
use gogram.Tl.WireForm.{IsWire, a_uint32, an_int32, an_int64, a_float64, a_boolean, a_str}
use gogram.Tl.Unmarshal.{Program}
use gogram.Tl.Encoder.{Encoder, put_crc}
use gogram.Tl.Marshal.{
  Encode, max_depth, stop, unless_err, nested, put_flags, encode_zero_for_flag_partner,
  encode_tagged, encode_field, encode_fields, encode_elements, encode_vector_value,
}
use gogram.Tl.BigInts.{is_bit_length, marshal_bytes, marshal128, marshal256}
use gogram.Tl.BigInts.Laws.{big_int_bytes_lem}
use gogram.Tl.Marshal.Sends.{
  Sent, Sent-trans, write-Sent, put_uint-Sent, put_long-Sent, put_bool-Sent, put_string-Sent,
  nested-Sent, unless_err-Sent, put_flags-Sent,
}

-- From any encoder with room for `r` levels and without an error, the call sends `b`.
abbrev pub Sends : {W : Type 0} → (W → Bytes) → ℕ → Encode W → Bytes → Type 0
Sends written r m b =
    (e : Encoder _) → e.err ≡ none → e.depth + r ≤ max_depth → Sent written e (m e) b

module _ {W : Type 0} {o : Writer W} {written : W → Bytes} (lawful : IsBuffer o written) where
  pub level :
      (r : ℕ) (m : Encode W) {b : Bytes} → Sends written r m b → Sends written (suc r) (nested m) b
  level r m s e h k = nested-Sent lawful m e h (omega arith) λ e1 h1 d1 w1. s e1 h1 (omega arith)

  -- An error that is reset, where there was none.
  cleared :
      {e f : Encoder W} {b : Bytes}
      → Sent written e f b
      → Sent written e (record f { err = none }) b
  cleared q = record {
    appends = record { wrote_bytes = q.appends.wrote_bytes; no_error = refl };
    same_depth = q.same_depth;
  }

  -- The zero value of a flag partner, if it has a wire form.
  zero_partner-Sent :
      {p : Program} {r : ℕ} {t : GoType} {v : Value} {b : Bytes}
      → IsWire p r t v b
      → is_zero v ≡ true
      → (e : Encoder W) → e.err ≡ none
      → Sent written e (encode_zero_for_flag_partner o v e) b
  unfolding encode_zero_for_flag_partner is_zero
  zero_partner-Sent (a_uint32 {v = v} h) z e clean =
      let same : 0 ≡ v = ground arith in rw⁻¹ same (cleared (put_uint-Sent lawful e 0 clean))
  zero_partner-Sent (an_int32 {v = v} h) z e clean =
      let same : 0 ≡ v = ground arith in rw⁻¹ same (cleared (put_uint-Sent lawful e 0 clean))
  zero_partner-Sent (an_int64 {v = v} h) z e clean =
      let same : 0 ≡ v = ground arith in rw⁻¹ same (cleared (put_long-Sent lawful e 0 clean))
  zero_partner-Sent (a_float64 {v = v} h) z e clean =
      let same : 0 ≡ v = ground arith in rw⁻¹ same (cleared (put_long-Sent lawful e 0 clean))
  zero_partner-Sent (a_boolean {b = false}) z e clean = cleared (put_bool-Sent lawful e false clean)
  zero_partner-Sent (a_boolean {b = true}) z e clean = absurd (ground arith)
  zero_partner-Sent (a_str {s = []} h) z e clean = cleared (put_string-Sent lawful e [] clean h)
  zero_partner-Sent (a_str {s = x ∷ xs} h) z e clean = absurd (ground arith)
  zero_partner-Sent _ z e clean = absurd (ground arith)

  pub as_code : {e f g : Encoder W} {b : Bytes} → f ≡ g → Sent written e g b → Sent written e f b
  as_code {e} {b = b} same q = subst (λ f. Sent written e f b) (sym same) q

  -- A present field: its own wire form, also where the zero value is sent for it.
  pub present-Sent :
      {p : Program} {r : ℕ} {t : GoType} {v : Value} {b : Bytes} (flags : Flags) (info : FieldTag)
      (m : Encode W) (e : Encoder W)
      → IsWire p r t v b
      → e.err ≡ none
      → info.ignore ≡ false
      → info.encoded_in_bitflag ≡ false
      → has_flag flags info ≡ true
      → Sent written e (m e) b
      → Sent written e (encode_tagged o flags info v m e) b
  unfolding encode_tagged
  present-Sent {v = v} flags info m e form clean skip bit on q = elim (Bool-cases (is_zero v)) [
    | inl zeroed ↦ elim (Bool-cases info.explicit) [
      | inl explicit ↦ rw (on, skip, bit, zeroed, explicit) q
      | inr implicit ↦ rw (on, skip, bit, zeroed, implicit) (zero_partner-Sent form zeroed e clean)
    ]
    | inr set ↦ rw (on, skip, bit, set) q
  ]

  -- The field after the flags words in front of it, and the fields after it.
  pub next_field :
      (r : ℕ) (layout : Layout) (flags : Flags) (i : ℕ) (f : Field) (fs : List Field) (v : Value)
      (vs : Values) (m : Encode W) (ms : List (Encode W)) {b bs : Bytes}
      → Sends written r (encode_field o flags f v m) b
      → Sends written r (encode_fields o layout flags (suc i) fs vs ms) bs
      → Sends written r
          (encode_fields o layout flags i (f ∷ fs) (value v vs) (m ∷ ms))
          (laid_wire layout flags i ++ (b ++ bs))
  unfolding encode_fields
  next_field r layout flags i f fs v vs m ms one more e clean room =
      let words = put_flags-Sent lawful layout flags i e clean in
      unless_err-Sent lawful
        (λ e1.
          unless_err (encode_fields o layout flags (suc i) fs vs ms)
            (encode_field o flags f v m e1))
        words
        λ ok1.
          let here = one (put_flags o layout flags i e) ok1 (omega (arith, words.same_depth)) in
          unless_err-Sent lawful (encode_fields o layout flags (suc i) fs vs ms) here
            λ ok2. more _ ok2 (omega (arith, words.same_depth, here.same_depth))

  pub next_element :
      (r i : ℕ) (m : Encode W) (ms : List (Encode W)) {b bs : Bytes}
      → Sends written r m b
      → Sends written r (encode_elements (suc i) ms) bs
      → Sends written r (encode_elements i (m ∷ ms)) (b ++ bs)
  unfolding encode_elements
  next_element r i m ms one more e clean room =
      let here = one e clean room in
      as_code
        (ap {B = Encoder W}
          (λ (x : Option TlError). elim x [
            | none ↦ encode_elements (suc i) ms (m e)
            | some x ↦ stop (in_element i x) (m e)
          ])
          here.appends.no_error)
        (Sent-trans lawful here (more (m e) here.appends.no_error (omega (arith, here.same_depth))))

  pub vector-Sends :
      (r size : ℕ) (ms : List (Encode W)) {b : Bytes}
      → size < 2 ^ 32
      → Sends written r (encode_elements 0 ms) b
      → Sends written r
          (encode_vector_value o size ms)
          (le_bytes 4 crc_vector ++ (le_bytes 4 size ++ b))
  unfolding encode_vector_value
  vector-Sends r size ms small rest e clean room =
      let fits : size % 2 ^ 32 ≡ size = omega arith in
      let first = put_uint-Sent lawful e crc_vector clean in
      let second = put_uint-Sent lawful (put_crc o e crc_vector) size first.appends.no_error in
      rw fits (
        Sent-trans lawful first (
          Sent-trans lawful second
            (rest _ second.appends.no_error (omega (arith, first.same_depth, second.same_depth)))))

  pub int128-Sends :
      (r v : ℕ) → v < 2 ^ 128 → Sends written r (marshal128 o (some (pos v))) (be_bytes 16 v)
  unfolding marshal128 marshal_bytes is_bit_length
  int128-Sends r v h e clean room =
      rw (big_int_bytes_lem v 128 refl h) (cleared (write-Sent lawful e (be_bytes 16 v) clean))

  pub int256-Sends :
      (r v : ℕ) → v < 2 ^ 256 → Sends written r (marshal256 o (some (pos v))) (be_bytes 32 v)
  unfolding marshal256 marshal_bytes is_bit_length
  int256-Sends r v h e clean room =
      rw (big_int_bytes_lem v 256 refl h) (cleared (write-Sent lawful e (be_bytes 32 v) clean))
