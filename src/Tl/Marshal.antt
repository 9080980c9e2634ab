-- ===== src/Tl/Marshal.antt =====
-- internal/encoding/tl/encoder.go and `PutVector` of cursor_w.go: the encoder of Go values by
-- reflection. A type's own `MarshalTL` is modelled for `Int128` and `Int256`.
pub mod Sends
pub mod Codes
pub mod Steps
pub mod Wired
use gogram.Common.{
  ℕ, zero, suc, ◌+◌, ◌-◌, ◌*◌, ◌%◌, ◌^◌, Bool, true, false, not, ◌&&◌, ◌||◌, Option, none, some,
  List, [], ◌∷◌, length, leb, ◌==◌, ltb, if◌then◌else◌,
}
use gogram.Common.Bytes.{Bytes}
use gogram.Common.Results.{Result, ok, err}
use gogram.Io.{Writer}
use gogram.Tl.Defs.{
  TlError, nil_value, nesting, unexported, no_flags_word, bitflag_not_bool, empty_partner,
  unsupported, in_element, crc_vector, crc_true, crc_false, crc_null,
}
use gogram.Tl.Schema.{
  GoType, FieldTag, Field, StructType, Value, Values, word, long, truth, text, bytes, nil_slice,
  nil, unknown, elements, object, boxed, big128, big256, pseudo_true, pseudo_false, pseudo_nil,
  wrapped_slice, no_values, value, count, is_zero, ignored,
}
use gogram.Tl.Flags.{Layout, flag_layout, Flags, has_flag, field_flags}
use gogram.Tl.Encoder.{Encoder, put_uint, put_crc, put_long, put_bool, put_string, put_message}
use gogram.Tl.BigInts.{marshal128, marshal256}

-- The number of levels that a value may nest.
abbrev pub max_depth : ℕ
max_depth = 128

-- A call of the encoder.
abbrev pub Encode : Type 0 → Type 0
Encode W = Encoder W → Encoder W

module _ {W : Type 0} where
  unfoldable pub stop : TlError → Encode W
  stop x e = record e { err = some x }

  -- `if c.err != nil { return }` in front of `k`
  abbrev pub unless_err : Encode W → Encode W
  unless_err k e = elim e.err [ none ↦ k e | some _ ↦ e ]

  -- `c.depth++` and the deferred `c.depth--` around the body
  abbrev pub one_deeper : Encode W → Encode W
  one_deeper body e =
      let e' = body (record e { depth = e.depth + 1 }) in record e' { depth = e'.depth - 1 }

  -- `encodeValue` around what it does for the kind of a value that is not nil.
  unfoldable pub nested : Encode W → Encode W
  nested body = unless_err λ e. if leb max_depth e.depth then stop nesting e else one_deeper body e

  -- An interface: a value with a `MarshalTL` is encoded at this level.
  unfoldable pub encode_boxed : Value → Encode W → Encode W
  encode_boxed (big128 i) encode = encode
  encode_boxed (big256 i) encode = encode
  encode_boxed _ encode = nested encode

  -- The elements in order, up to the first error, which gets the element's number.
  unfoldable pub encode_elements : ℕ → List (Encode W) → Encode W
  encode_elements i [] e = e
  encode_elements i (encode ∷ rest) e =
      let e' = encode e in
      elim e'.err [ none ↦ encode_elements (suc i) rest e' | some x ↦ stop (in_element i x) e' ]

module _ {W : Type 0} (o : Writer W) where
  unfoldable pub put_word_at : Bool → ℕ → Encode W
  put_word_at true w e = put_uint o e w
  put_word_at false w e = e

  -- The flags words that stand before field `i`.
  unfoldable pub put_flags : Layout → Flags → ℕ → Encode W
  put_flags layout (a, b) i e =
      put_word_at (ltb 1 layout.words && (layout.second == i)) b
        (put_word_at (ltb 0 layout.words && (layout.first == i)) a e)

  -- The zero value of a field that another field's flag announces.
  unfoldable pub encode_zero_for_flag_partner : Value → Encode W
  encode_zero_for_flag_partner (text s) e = record (put_string o e []) { err = none }
  encode_zero_for_flag_partner (word v) e = record (put_uint o e 0) { err = none }
  encode_zero_for_flag_partner (long v) e = record (put_long o e 0) { err = none }
  encode_zero_for_flag_partner (truth b) e = record (put_bool o e false) { err = none }
  encode_zero_for_flag_partner (bytes b) e = record (put_message o e []) { err = none }
  encode_zero_for_flag_partner nil_slice e = record (put_uint o (put_crc o e crc_vector) 0) {
    err = none;
  }
  encode_zero_for_flag_partner (elements vs) e = record (put_uint o (put_crc o e crc_vector) 0) {
    err = none;
  }
  encode_zero_for_flag_partner _ e = stop empty_partner e

  -- A field with a tag.
  unfoldable pub encode_tagged : Flags → FieldTag → Value → Encode W → Encode W
  encode_tagged flags info v encode e =
      if info.ignore || info.encoded_in_bitflag
      then e
      else if not (has_flag flags info)
      then e
      else if is_zero v && not info.explicit
      then encode_zero_for_flag_partner v e
      else encode e

  unfoldable pub encode_field : Flags → Field → Value → Encode W → Encode W
  encode_field flags f v encode e =
      if not f.exported && not (ignored f.tag)
      then stop unexported e
      else elim f.tag [ none ↦ encode e | some info ↦ encode_tagged flags info v encode e ]

  -- A struct has as many values and encoders as fields.
  unfoldable pub encode_fields :
      Layout → Flags → ℕ → List Field → Values → List (Encode W) → Encode W
  encode_fields layout flags i (f ∷ fs) (value v vs) (encode ∷ rest) e =
      unless_err
        (λ e1.
          unless_err (encode_fields layout flags (suc i) fs vs rest)
            (encode_field flags f v encode e1))
        (put_flags layout flags i e)
  encode_fields layout flags i _ _ _ e = put_flags layout flags i e

  -- `encodeStruct` from `PutCRC` on, and from the flags on.
  unfoldable pub encode_body : StructType → Layout → Values → List (Encode W) → Flags → Encode W
  encode_body st layout vs encoders flags e =
      encode_fields layout flags 0 st.fields vs encoders (put_crc o e st.crc)

  unfoldable pub encode_laid_out : StructType → Values → List (Encode W) → Layout → Encode W
  encode_laid_out st vs encoders layout e = elim (field_flags layout (0, 0) st.fields vs) [
    | ok flags ↦ encode_body st layout vs encoders flags e
    | err x ↦ stop x e
  ]

  unfoldable pub encode_struct : StructType → Values → List (Encode W) → Encode W
  encode_struct st vs encoders = unless_err λ e. elim (flag_layout st (length st.fields)) [
    | ok layout ↦ encode_laid_out st vs encoders layout e
    | err x ↦ stop x e
  ]

  unfoldable pub encode_vector_value : ℕ → List (Encode W) → Encode W
  encode_vector_value size encoders e =
      encode_elements 0 encoders (put_uint o (put_crc o e crc_vector) (size % 2 ^ 32))

-- The struct types by their numbers.
module _ (types : ℕ → StructType) {W : Type 0} (o : Writer W) where
  -- `encodeValue`: a pointer to a struct takes one level for the pointer and one for the struct.
  -- A `WrappedSlice` has only an unexported field.
  unfoldable mutual
    pub encode_value : Value → Encode W
    encode_value (word v) = nested (λ e. put_uint o e v)
    encode_value (long v) = nested (λ e. put_long o e v)
    encode_value (truth b) = nested (λ e. put_bool o e b)
    encode_value (text s) = nested (λ e. put_string o e s)
    encode_value (bytes none) = nested (λ e. put_message o e [])
    encode_value (bytes (some b)) = nested (λ e. put_message o e b)
    encode_value nil_slice = nested (encode_vector_value o 0 [])
    encode_value (elements vs) = nested (encode_vector_value o (count vs) (encoders vs))
    encode_value nil = unless_err (stop nil_value)
    encode_value unknown = nested (stop unsupported)
    encode_value (object n vs) = nested (nested (encode_struct o (types n) vs (encoders vs)))
    encode_value (boxed v) = encode_boxed v (encode_value v)
    encode_value (big128 i) = nested (marshal128 o i)
    encode_value (big256 i) = nested (marshal256 o i)
    encode_value pseudo_true = nested (nested (λ e. put_crc o e crc_true))
    encode_value pseudo_false = nested (nested (λ e. put_crc o e crc_false))
    encode_value pseudo_nil = nested (nested (λ e. put_crc o e crc_null))
    encode_value (wrapped_slice v) =
        nested (nested (λ e. unless_err (stop unexported) (put_crc o e crc_vector)))

    pub encoders : Values → List (Encode W)
    encoders no_values = []
    encoders (value v vs) = encode_value v ∷ encoders vs

  -- `PutVector` of a slice.
  unfoldable pub put_vector : Values → Encode W
  put_vector vs = encode_vector_value o (count vs) (encoders vs)

-- `Marshal` into an empty `bytes.Buffer`.
unfoldable pub marshal : (ℕ → StructType) → Writer Bytes → Value → Result TlError Bytes
marshal types o v =
    let e = encode_value types o v (record { depth = 0; writer = []; err = none }) in
    elim e.err [ none ↦ ok e.writer | some x ↦ err x ]
