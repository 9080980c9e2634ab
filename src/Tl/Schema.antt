-- ===== src/Tl/Schema.antt =====
-- internal/encoding/tl: what the reflective encoder and decoder see of Go's types and values, and
-- the tags of fields (`fieldTag` of tag.go).
use gogram.Common.{ℕ, suc, Bool, true, false, not, Option, none, some, List, [], ◌∷◌, ◌==◌}
use gogram.Common.Bytes.{Bytes}
use gogram.Common.Int.{ℤ}

-- A Go type by its kind. `pointer n` points to the struct type number `n`, which implements
-- `Object`; `interface i` is the interface type number `i`; `int128` and `int256` are `*Int128`
-- and `*Int256`. Every kind that is not supported is `unsupported`.
pub data GoType : Type 0 where
  uint32 int32 int64 float64 boolean str byte_slice int128 int256 unsupported : GoType
  slice : GoType → GoType
  pointer interface : ℕ → GoType

pub record FieldTag : Type 0 where
  pub index : ℕ
  pub encoded_in_bitflag : Bool
  pub ignore : Bool
  pub optional : Bool
  pub version : ℕ
  pub explicit : Bool

pub record Field : Type 0 where
  pub tag : Option FieldTag
  pub type : GoType
  pub exported : Bool

-- `FlagIndex` and `FlagIndex2` of a type that has them.
pub record StructType : Type 0 where
  pub crc : ℕ
  pub flag_index : Option ℤ
  pub flag_index2 : Option ℤ
  pub fields : List Field

-- A word stands for a `uint32` or `int32`, a long for an `int64` or `float64`, each by its bits. A
-- slice is nil or has elements. `nil` is the nil pointer and the nil interface. `boxed v` is
-- an interface that holds `v`. An `Int128` or `Int256` holds a `*big.Int`, which may be nil.
mutual
  pub data Value : Type 0 where
    word long : ℕ → Value
    truth : Bool → Value
    text : Bytes → Value
    bytes : Option Bytes → Value
    nil_slice nil unknown : Value
    elements : Values → Value
    object : ℕ → Values → Value
    boxed : Value → Value
    big128 big256 : Option ℤ → Value
    pseudo_true pseudo_false pseudo_nil : Value
    wrapped_slice : Value → Value

  pub data Values : Type 0 where
    no_values : Values
    value : Value → Values → Values

unfoldable pub count : Values → ℕ
count no_values = 0
count (value v vs) = suc (count vs)

-- `reflect.Zero`.
unfoldable pub zero_value : GoType → Value
zero_value uint32 = word 0
zero_value int32 = word 0
zero_value int64 = long 0
zero_value float64 = long 0
zero_value boolean = truth false
zero_value str = text []
zero_value byte_slice = bytes none
zero_value (slice t) = nil_slice
zero_value unsupported = unknown
zero_value _ = nil

unfoldable pub zero_values : List Field → Values
zero_values [] = no_values
zero_values (f ∷ fs) = value (zero_value f.type) (zero_values fs)

-- `Value.IsZero`: a float by its bits, an empty slice that is not nil is not zero.
unfoldable pub is_zero : Value → Bool
is_zero (word v) = v == 0
is_zero (long v) = v == 0
is_zero (truth b) = not b
is_zero (text []) = true
is_zero (bytes none) = true
is_zero nil_slice = true
is_zero nil = true
is_zero _ = false

unfoldable pub ignored : Option FieldTag → Bool
ignored none = false
ignored (some info) = info.ignore
