-- ===== src/Tl/Flags.antt =====
-- internal/encoding/tl/encoder.go: the flags words of a struct, their places (`flagLayout`) and
-- their values (the first loop of `encodeStruct`).
use gogram.Common.{
  ℕ, ◌^◌, ◌%◌, Bool, true, false, not, ◌&&◌, ◌||◌, Option, none, some, List, ◌∷◌, ltb, ◌==◌, bit_or,
  bit_and, if◌then◌else◌,
}
use gogram.Common.Int.{ℤ, pos, negsuc}
use gogram.Common.Results.{Result, ok, err}
use gogram.Tl.Defs.{TlError, flags_position, no_flags_word, bitflag_not_bool}
use gogram.Tl.Schema.{FieldTag, Field, StructType, Value, Values, truth, value, is_zero}

-- Where the flags words stand among the fields; `first` and `second` count only below `words`.
pub record Layout : Type 0 where
  pub first : ℕ
  pub second : ℕ
  pub words : ℕ

-- `index < 0 || index > fields`
unfoldable pub outside : ℤ → ℕ → Bool
outside (pos i) fields = ltb fields i
outside (negsuc i) fields = true

abbrev pub at_least_zero : ℤ → ℕ
at_least_zero (pos i) = i
at_least_zero (negsuc i) = 0

abbrev checked_second : ℤ → ℤ → ℕ → Result TlError Layout
checked_second a b fields =
    if outside a fields
    then err (flags_position a)
    else if outside b fields || ltb (at_least_zero b) (at_least_zero a)
    then err (flags_position b)
    else ok (record { first = at_least_zero a; second = at_least_zero b; words = 2 })

-- A second flags word counts two words, also where there is no first one: its place is then 0.
unfoldable pub flag_layout : StructType → ℕ → Result TlError Layout
flag_layout st fields = elim st.flag_index2 [
  | some b ↦ elim st.flag_index [
    | some a ↦ checked_second a b fields
    | none ↦ checked_second (pos 0) b fields
  ]
  | none ↦ elim st.flag_index [
    | some a ↦
        if outside a fields
        then err (flags_position a)
        else ok (record { first = at_least_zero a; second = 0; words = 1 })
    | none ↦ ok (record { first = 0; second = 0; words = 0 })
  ]
]

-- The two flags words.
abbrev pub Flags : Type 0
Flags = ℕ × ℕ

unfoldable pub flags_word : Flags → ℕ → ℕ
flags_word (a, b) version = if version == 1 then a else b

-- `flags[info.version-1] |= 1 << info.index`
unfoldable pub set_flag : Flags → FieldTag → Flags
set_flag (a, b) info =
    if info.version == 1
    then (bit_or a (2 ^ info.index % 2 ^ 32), b)
    else (a, bit_or b (2 ^ info.index % 2 ^ 32))

-- `flags[info.version-1]&(1<<info.index) != 0`
unfoldable pub has_flag : Flags → FieldTag → Bool
has_flag flags info = not (bit_and (flags_word flags info.version) (2 ^ info.index % 2 ^ 32) == 0)

-- `info.version < 1 || info.version > count`
abbrev pub no_word : Layout → FieldTag → Bool
no_word layout info = ltb info.version 1 || ltb layout.words info.version

unfoldable pub is_bool : Value → Bool
is_bool (truth b) = true
is_bool _ = false

unfoldable pub check_tag : Layout → FieldTag → Value → Option TlError
check_tag layout info v =
    if no_word layout info
    then some no_flags_word
    else if info.encoded_in_bitflag && not (is_bool v)
    then some bitflag_not_bool
    else none

-- A field sets its flag if it is not zero, or explicit.
unfoldable pub add_flag : Flags → FieldTag → Value → Flags
add_flag flags info v = if not (is_zero v) || info.explicit then set_flag flags info else flags

-- The flags of all fields, or the first error of a tag.
unfoldable pub field_flags : Layout → Flags → List Field → Values → Result TlError Flags
field_flags layout flags (f ∷ fs) (value v vs) = elim f.tag [
  | none ↦ field_flags layout flags fs vs
  | some info ↦
      if info.ignore then field_flags layout flags fs vs else elim (check_tag layout info v) [
        | some x ↦ err x
        | none ↦ field_flags layout (add_flag flags info v) fs vs
      ]
]
field_flags layout flags _ _ = ok flags
