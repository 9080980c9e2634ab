-- ===== src/Tl/Unmarshal/Kinds.antt =====
-- internal/encoding/tl: `popVector`, `decodeRegisteredObject` and `decodeValue`.
use gogram.Common.{
  ℕ, zero, suc, ◌*◌, ◌^◌, not, ◌||◌, Option, none, some, List, [], ◌∷◌, length, ltb, ◌==◌,
  if◌then◌else◌,
}
use gogram.Common.Bytes.{Bytes}
use gogram.Common.Results.{Result, ok, err}
use gogram.Tl.Defs.{
  TlError, reading_crc, reading_vector_size, in_interface, in_object, unknown_kind, not_assignable,
  not_a_slice, not_vector, vector_too_long, vector_exceeds_input, vector_too_large, not_registered,
  out_of_fuel, crc_vector, crc_true, crc_false, crc_null,
}
use gogram.Tl.Schema.{
  GoType, uint32, int32, int64, float64, boolean, str, byte_slice, int128, int256, unsupported,
  slice, pointer, interface, Value, Values, word, long, truth, text, bytes, nil, elements, object,
  boxed, pseudo_true, pseudo_false, pseudo_nil, wrapped_slice, no_values, value, zero_value,
  zero_values,
}
use gogram.Tl.Decoder.{
  D, ◌>>=◌, or_return, or_wrap, give, fail, rest, pop_uint, pop_crc, pop_long, pop_bool,
  pop_message, dump_without_read, unread, expect_types_in_interface, new_decoder_bytes,
}
use gogram.Tl.Unmarshal.{
  Program, max_vector_elements, object_interface, nested, unmarshal128, unmarshal256, as_value,
  decode_object, decode_object_body, pop_elements,
}

-- The element type of a slice type. A `[]byte` has the elements `uint8`, which have no decoder.
unfoldable pub element_of : GoType → Option GoType
element_of (slice t) = some t
element_of byte_slice = some unsupported
element_of _ = none

module _ (p : Program) where
  -- `popVector` after the size was read.
  unfoldable pub pop_sized_vector : (GoType → D Value) → GoType → ℕ → D Value
  pop_sized_vector self t size d =
      if ltb max_vector_elements size
      then fail (vector_too_long size) nil d
      else if ltb (length (rest d)) (size * 4)
      then fail (vector_exceeds_input size) nil d
      else if ltb (2 ^ 26) (size * p.size_of t)
      then fail (vector_too_large size) nil d
      else (do vs ← pop_elements self t size; or_return nil (give (elements vs))) d

  unfoldable pub pop_vector_body : (GoType → D Value) → GoType → D Value
  pop_vector_body self t = do
    size ← pop_uint
    or_wrap reading_vector_size nil (pop_sized_vector self t size)

  -- `popVector` with `ignoreCRC` and `PopVector`.
  unfoldable pub pop_bare_vector : (GoType → D Value) → GoType → D Value
  pop_bare_vector self t = or_return nil (pop_vector_body self t)

  unfoldable pub pop_vector : (GoType → D Value) → GoType → D Value
  pop_vector self t = or_return nil (do
    crc ← pop_crc
    or_wrap reading_crc nil
        (if not (crc == crc_vector) then fail (not_vector crc) nil else pop_vector_body self t))

  -- All objects converted to the registered type `n`, if all can be.
  unfoldable pub convert_all : ℕ → Values → Option Values
  convert_all n no_values = some no_values
  convert_all n (value (boxed v) vs) =
      let rest = convert_all n vs in
      elim (p.to_registered v n) [
        | some w ↦ elim rest [ some ws ↦ some (value w ws) | none ↦ none ]
        | none ↦ none
      ]
  convert_all n (value _ vs) = none

  -- The objects of a vector as a slice of the type that is registered under `crc`, if they
  -- all have it.
  unfoldable pub as_registered : ℕ → Values → Value
  as_registered crc vs = elim (p.lookup_object_type crc) [
    | some n ↦ elim (convert_all n vs) [ some ws ↦ elements ws | none ↦ elements vs ]
    | none ↦ elements vs
  ]

  unfoldable pub wrap_objects : ℕ → Values → Value
  wrap_objects crc no_values = pseudo_nil
  wrap_objects crc (value v vs) = wrapped_slice (as_registered crc (value v vs))

  unfoldable pub wrap_vector : GoType → ℕ → Value → Value
  wrap_vector (interface zero) crc (elements vs) = wrap_objects crc vs
  wrap_vector _ crc v = wrapped_slice v

  unfoldable pub decode_hinted : (GoType → D Value) → ℕ → GoType → D Value
  decode_hinted self crc hint = elim (element_of hint) [
    | none ↦ fail not_a_slice nil
    | some t ↦ (do v ← pop_bare_vector self t; or_return nil (give (wrap_vector t crc v)))
  ]

  -- A vector behind an interface takes its type from the first hint.
  unfoldable pub decode_vector : (GoType → D Value) → ℕ → GoType → List GoType → D Value
  decode_vector self crc hint hints d =
      decode_hinted self crc hint (expect_types_in_interface hints d)

  -- Without a hint the first element decides: Booleans, or objects. The size and the element
  -- are stepped back over.
  unfoldable pub guess_vector : (GoType → D Value) → D Value
  guess_vector self = do
    size ← pop_uint
    if size == 0 then give pseudo_nil else (do
      vec_crc ← pop_crc
      λ d.
          if (vec_crc == crc_true) || (vec_crc == crc_false)
          then decode_vector self crc_vector (slice boolean) [] (unread 8 d)
          else decode_vector self vec_crc (slice (interface object_interface)) [] (unread 8 d))

  unfoldable pub decode_boxed_vector : (GoType → D Value) → D Value
  decode_boxed_vector self d = elim d.expected_types [
    | [] ↦ guess_vector self d
    | hint ∷ hints ↦ decode_vector self crc_vector hint hints d
  ]

  -- The value of an enum's type has no content of its own.
  unfoldable pub decode_registered : (GoType → D Value) → ℕ → ℕ → D Value
  decode_registered self crc n =
      if p.is_enum_crc crc then give (object n (zero_values (p.types n).fields)) else (do
        fs ← decode_object_body self (p.types n)
        or_wrap in_object (object n fs) (give (object n fs)))

  unfoldable pub decode_by_crc : (GoType → D Value) → ℕ → D Value
  decode_by_crc self crc =
      if crc == crc_vector
      then decode_boxed_vector self
      else if crc == crc_false
      then give pseudo_false
      else if crc == crc_true
      then give pseudo_true
      else if crc == crc_null
      then give pseudo_nil
      else elim (p.lookup_object_type crc) [
        | none ↦ λ d. fail (not_registered crc (dump_without_read d)) nil d
        | some n ↦ decode_registered self crc n
      ]

  unfoldable pub decode_registered_object : (GoType → D Value) → D Value
  decode_registered_object self =
      nested nil (do crc ← pop_crc; or_wrap reading_crc nil (decode_by_crc self crc))

  -- `assignValue` to an interface: a wrapped slice is unwrapped if its data fits.
  unfoldable pub assign_boxed : ℕ → Value → D Value
  assign_boxed i v = if p.converts v i then give (boxed v) else fail not_assignable nil

  unfoldable pub assign_interface : ℕ → Value → D Value
  assign_interface i (wrapped_slice v) =
      if p.converts v i then assign_boxed i v else assign_boxed i (wrapped_slice v)
  assign_interface i v = assign_boxed i v

  -- What `decodeValue` does for each kind. After an error the value is of no use: a byte slice is
  -- then empty here, and nil in the code.
  unfoldable pub decode_kind : (GoType → D Value) → GoType → D Value
  decode_kind self uint32 = as_value word pop_uint
  decode_kind self int32 = as_value word pop_uint
  decode_kind self int64 = as_value long pop_long
  decode_kind self float64 = as_value long pop_long
  decode_kind self boolean = as_value truth pop_bool
  decode_kind self str = as_value text pop_message
  decode_kind self byte_slice = as_value (λ b. bytes (some b)) pop_message
  decode_kind self int128 = unmarshal128
  decode_kind self int256 = unmarshal256
  decode_kind self unsupported = fail unknown_kind nil
  decode_kind self (slice t) = pop_vector self t
  decode_kind self (pointer n) = as_value (object n) (decode_object self (p.types n))
  decode_kind self (interface i) = do
    v ← decode_registered_object self
    or_wrap in_interface nil (assign_interface i v)

  -- `decodeValue`: every call takes a level, so that the fuel is what is left of the levels.
  unfoldable pub decode_value : ℕ → GoType → D Value
  decode_value zero t = fail out_of_fuel (zero_value t)
  decode_value (suc fuel) t = nested (zero_value t) (decode_kind (decode_value fuel) t)

  -- `DecodeUnknownObject`.
  unfoldable pub decode_unknown_object : List GoType → Bytes → Result TlError Value
  decode_unknown_object hints input =
      let (d, v) =
        decode_registered_object (decode_value 129)
          (expect_types_in_interface hints (new_decoder_bytes input)) in
      elim d.err [ none ↦ ok v | some x ↦ err (in_object x) ]
