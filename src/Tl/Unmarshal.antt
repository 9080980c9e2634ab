-- ===== src/Tl/Unmarshal.antt =====
-- internal/encoding/tl/decoder.go and `popVector` of cursor_r.go: the decoder of Go values by
-- reflection. `decodeValue` is the only call by which the decoder comes back to itself, so its
-- parts take it as an argument, and it is closed on fuel at the end.
pub mod Kinds
pub mod Takes
pub mod Steps
pub mod Whole
pub mod Registered
pub mod Leaves
pub mod Wired
pub mod Same
pub mod SameParts
pub mod SameKinds
pub mod Fuel
pub mod Sample
mod Tests
use gogram.Common.{
  ℕ, zero, suc, ◌+◌, ◌-◌, ◌*◌, ◌%◌, ◌^◌, Bool, true, false, not, ◌&&◌, ◌||◌, Option, none, some,
  List, [], ◌∷◌, length, leb, ltb, ◌==◌, if◌then◌else◌,
}
use gogram.Common.Bytes.{Bytes}
use gogram.Common.Int.{pos}
use gogram.Common.Results.{Result, ok, err}
use gogram.Tl.Defs.{
  TlError, nesting, no_flags_word, bitflag_not_bool, reading_crc, reading_vector_size, in_field,
  in_interface, in_object, wrong_crc, not_decodable, unknown_kind, not_assignable, not_a_slice,
  not_vector, vector_too_long, vector_exceeds_input, vector_too_large, not_registered, out_of_fuel,
  crc_vector, crc_true, crc_false, crc_null, int128_len, int256_len,
}
use gogram.Tl.Schema.{
  GoType, uint32, int32, int64, float64, boolean, str, byte_slice, int128, int256, unsupported,
  slice, pointer, interface, FieldTag, Field, StructType, Value, Values, word, long, truth, text,
  bytes, nil_slice, nil, elements, object, boxed, big128, big256, pseudo_true, pseudo_false,
  pseudo_nil, wrapped_slice, no_values, value, zero_value, zero_values, ignored,
}
use gogram.Tl.Flags.{Layout, flag_layout, Flags, has_flag, no_word}
use gogram.Tl.BigInts.{set_bytes}
use gogram.Tl.Decoder.{
  Decoder, D, ◌>>=◌, or_return, or_wrap, give, fail, rest, pop_uint, pop_crc, pop_long, pop_bool,
  pop_raw_bytes, pop_message, dump_without_read, unread,
}

-- What the decoder asks of Go's types and of the registry (register.go): the struct types by
-- number, the type registered under a crc and whether it is an enum, the size of a type in
-- memory, whether a value's type converts to an interface type, and the value converted to a
-- registered pointer type, where that is possible.
pub record Program : Type 0 where
  pub types : ℕ → StructType
  pub lookup_object_type : ℕ → Option ℕ
  pub is_enum_crc : ℕ → Bool
  pub size_of : GoType → ℕ
  pub converts : Value → ℕ → Bool
  pub to_registered : Value → ℕ → Option Value

abbrev pub max_vector_elements : ℕ
max_vector_elements = 2 ^ 20

-- The interface type `Object`.
abbrev pub object_interface : ℕ
object_interface = 0

-- Around a call: `d.depth++` and the deferred `d.depth--`, past the test of the depth.
unfoldable pub nested : {A : Type 0} → A → D A → D A
nested z body = or_return z λ d.
    if leb 128 d.depth
    then fail nesting z d
    else (let (d', a) = body (record d { depth = d.depth + 1 }) in
        (record d' { depth = d'.depth - 1 }, a))

-- `UnmarshalTL` of `Int128` and `Int256`.
unfoldable pub unmarshal128 : D Value
unmarshal128 = do
  val ← pop_raw_bytes (pos int128_len)
  or_return (big128 none) (give (big128 (some (pos (set_bytes 0 val)))))

unfoldable pub unmarshal256 : D Value
unmarshal256 = do
  val ← pop_raw_bytes (pos int256_len)
  or_return (big256 none) (give (big256 (some (pos (set_bytes 0 val)))))

module _ {A : Type 0} where
  -- What a call gives, made into a value.
  abbrev pub as_value : (A → Value) → D A → D Value
  as_value f m = m >>= λ a. give (f a)

unfoldable pub pop_word_at : Bool → ℕ → D ℕ
pop_word_at true w = pop_uint
pop_word_at false w = give w

-- The flags words that stand before field `i`.
unfoldable pub pop_flags : Layout → Flags → ℕ → D Flags
pop_flags layout (a, b) i = do
  a' ← pop_word_at (ltb 0 layout.words && (layout.first == i)) a
  b' ← pop_word_at (ltb 1 layout.words && (layout.second == i)) b
  give (a', b')

unfoldable pub is_boolean : GoType → Bool
is_boolean boolean = true
is_boolean _ = false

module _ (self : GoType → D Value) where
  -- A field that is read: an error is wrapped with the field's name.
  unfoldable pub decode_present : Field → D Value
  decode_present f = do v ← self f.type; or_wrap in_field v (give v)

  unfoldable pub decode_bitflag : Field → D Value
  decode_bitflag f =
      if is_boolean f.type then give (truth true) else fail bitflag_not_bool (zero_value f.type)

  unfoldable pub decode_tagged : Layout → Flags → FieldTag → Field → D Value
  decode_tagged layout flags info f =
      if info.ignore
      then give (zero_value f.type)
      else if no_word layout info
      then fail no_flags_word (zero_value f.type)
      else if not (has_flag flags info)
      then give (zero_value f.type)
      else if info.encoded_in_bitflag
      then decode_bitflag f
      else decode_present f

  -- A field of a struct that was just allocated.
  unfoldable pub decode_field : Layout → Flags → Field → D Value
  decode_field layout flags f =
      if not f.exported && not (ignored f.tag)
      then fail not_decodable (zero_value f.type)
      else elim f.tag [ none ↦ decode_present f | some info ↦ decode_tagged layout flags info f ]

  -- After an error the fields that are left keep their zero values.
  unfoldable pub decode_fields : Layout → Flags → ℕ → List Field → D Values
  decode_fields layout flags i [] = do flags' ← pop_flags layout flags i; give no_values
  decode_fields layout flags i (f ∷ fs) = do
    flags' ← pop_flags layout flags i
    or_return (zero_values (f ∷ fs)) (do
      v ← decode_field layout flags' f
      or_return (value v (zero_values fs))
          (do vs ← decode_fields layout flags' (suc i) fs; give (value v vs)))

  unfoldable pub decode_struct : StructType → D Values
  decode_struct st = elim (flag_layout st (length st.fields)) [
    | ok layout ↦ decode_fields layout (0, 0) 0 st.fields
    | err x ↦ fail x (zero_values st.fields)
  ]

  -- `decodeObject` into a new struct, without its crc and with it.
  unfoldable pub decode_object_body : StructType → D Values
  decode_object_body st = or_return (zero_values st.fields) (decode_struct st)

  unfoldable pub decode_object : StructType → D Values
  decode_object st = or_return (zero_values st.fields) (do
    crc ← pop_crc
    or_wrap reading_crc (zero_values st.fields) (
        if not (crc == st.crc)
        then fail (wrong_crc crc st.crc) (zero_values st.fields)
        else decode_struct st))

  unfoldable pub pop_elements : GoType → ℕ → D Values
  pop_elements t zero = give no_values
  pop_elements t (suc n) = do
    v ← self t
    or_return no_values (do vs ← pop_elements t n; give (value v vs))
