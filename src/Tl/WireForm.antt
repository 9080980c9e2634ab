-- ===== src/Tl/WireForm.antt =====
-- The wire form of Go values, as the TL documentation describes serialization: which bytes stand
-- for a value of a type, in terms of the types and of the registry alone. Nothing here is taken from
-- the encoder: the flags words are binary numbers whose digits the values of the fields decide.
use gogram.Common.{
  ℕ, zero, suc, ◌+◌, ◌*◌, ◌^◌, ◌≤◌, ◌<◌, ◌≡◌, Bool, true, false, not, ◌&&◌, ◌||◌, Option, none,
  some, List, [], ◌∷◌, ◌++◌, length, ltb, ◌==◌, if◌then◌else◌,
}
use gogram.Common.Bytes.{Bytes, le_bytes, be_bytes}
use gogram.Common.Int.{ℤ, pos}
use gogram.Tl.Defs.{crc_vector, crc_true, crc_false, crc_null}
use gogram.Tl.Schema.{
  GoType, uint32, int32, int64, float64, boolean, str, byte_slice, int128, int256, slice, pointer,
  interface, FieldTag, Field, Value, Values, word, long, truth, text, bytes, elements, object,
  boxed, big128, big256, pseudo_true, pseudo_false, no_values, value, count, zero_value, is_zero,
}
use gogram.Tl.Wire.{message_wire}
use gogram.Tl.Unmarshal.{Program, max_vector_elements}

abbrev pub bool_wire : Bool → Bytes
bool_wire b = le_bytes 4 (if b then crc_true else crc_false)

abbrev pub word_wire : Bool → ℕ → Bytes
word_wire here w = if here then le_bytes 4 w else []

-- The fields in front of which the flags words of a struct stand.
pub data Places : Type 0 where
  no_words : Places
  one_word : ℕ → Places
  two_words : ℕ → ℕ → Places

-- The places that a struct type declares, among its fields or after them. A second word
-- comes with a first one: where only the second is declared, the first stands in front of all.
pub data HasPlaces : Option ℤ → Option ℤ → ℕ → Places → Type 0 where
  none_declared : {n : ℕ} → HasPlaces none none n no_words
  one_declared : {a n : ℕ} → a ≤ n → HasPlaces (some (pos a)) none n (one_word a)
  two_declared :
      {a b n : ℕ} → a ≤ b → b ≤ n → HasPlaces (some (pos a)) (some (pos b)) n (two_words a b)
  second_declared : {b n : ℕ} → b ≤ n → HasPlaces none (some (pos b)) n (two_words 0 b)

-- Where the word of a version stands.
unfoldable pub word_place : Places → ℕ → Option ℕ
word_place no_words version = none
word_place (one_word a) version = if version == 1 then some a else none
word_place (two_words a b) version =
    if version == 1 then some a else if version == 2 then some b else none

unfoldable pub digit : Bool → ℕ
digit true = 1
digit false = 0

-- The number whose `k` lowest binary digits are the first `k` flags, flag 0 lowest.
unfoldable pub word_of : (ℕ → Bool) → ℕ → ℕ
word_of f zero = 0
word_of f (suc k) = word_of (λ i. f (suc i)) k * 2 + digit (f 0)

-- A field whose tag names the flag sets it, unless it is ignored, by not being zero or by being
-- explicit.
abbrev pub sets_flag : ℕ → ℕ → Option FieldTag → Value → Bool
sets_flag version index none v = false
sets_flag version index (some info) v =
    not info.ignore
    && ((info.version == version) && ((info.index == index) && (not (is_zero v) || info.explicit)))

-- Whether the values of the fields set a flag: a version, and an index in its word.
unfoldable pub flag_of : List Field → Values → ℕ → ℕ → Bool
flag_of (f ∷ fs) (value v vs) version index =
    sets_flag version index f.tag v || flag_of fs vs version index
flag_of _ _ version index = false

-- A word has 32 flags.
abbrev pub is_set : (ℕ → ℕ → Bool) → FieldTag → Bool
is_set flag info = ltb info.index 32 && flag info.version info.index

-- The flags words in front of field `i`.
unfoldable pub flags_wire : Places → (ℕ → ℕ → Bool) → ℕ → Bytes
flags_wire no_words flag i = []
flags_wire (one_word a) flag i = word_wire (a == i) (word_of (flag 1) 32)
flags_wire (two_words a b) flag i =
    word_wire (a == i) (word_of (flag 1) 32) ++ word_wire (b == i) (word_of (flag 2) 32)

-- A tag whose flags word stands in front of field `i` or before.
pub record InPlace (places : Places) (info : FieldTag) (i : ℕ) : Type 0 where
  pub place : ℕ
  pub has_word : word_place places info.version ≡ some place
  pub read_before : place ≤ i

-- A crc that a registered object may have: that of none of the four built-in constructors.
pub record IsObjectCrc (crc : ℕ) : Type 0 where
  pub word_sized : crc < 2 ^ 32
  pub no_vector : (crc == crc_vector) ≡ false
  pub no_false : (crc == crc_false) ≡ false
  pub no_true : (crc == crc_true) ≡ false
  pub no_null : (crc == crc_null) ≡ false

module _ (p : Program) where
  -- `IsWire r t v b`: the value `v` of type `t` has the wire form `b`, and nests at most `r`
  -- levels as the encoder counts them. An interface holds an object of a registered type or a
  -- Boolean constructor. A nil slice has no wire form: it is written as the empty slice, and
  -- read as that.
  mutual
    pub data IsWire : ℕ → GoType → Value → Bytes → Type 0 where
      a_uint32 : {r v : ℕ} → v < 2 ^ 32 → IsWire (suc r) uint32 (word v) (le_bytes 4 v)
      an_int32 : {r v : ℕ} → v < 2 ^ 32 → IsWire (suc r) int32 (word v) (le_bytes 4 v)
      an_int64 : {r v : ℕ} → v < 2 ^ 64 → IsWire (suc r) int64 (long v) (le_bytes 8 v)
      a_float64 : {r v : ℕ} → v < 2 ^ 64 → IsWire (suc r) float64 (long v) (le_bytes 8 v)
      a_boolean : {r : ℕ} {b : Bool} → IsWire (suc r) boolean (truth b) (bool_wire b)
      a_str : {r : ℕ} {s : Bytes} → length s < 2 ^ 24 → IsWire (suc r) str (text s) (message_wire s)
      a_byte_slice :
          {r : ℕ} {s : Bytes}
          → length s < 2 ^ 24
          → IsWire (suc r) byte_slice (bytes (some s)) (message_wire s)
      an_int128 :
          {r v : ℕ} → v < 2 ^ 128 → IsWire (suc r) int128 (big128 (some (pos v))) (be_bytes 16 v)
      an_int256 :
          {r v : ℕ} → v < 2 ^ 256 → IsWire (suc r) int256 (big256 (some (pos v))) (be_bytes 32 v)
      a_slice :
          {r : ℕ} {t : GoType} {vs : Values} {b : Bytes}
          → count vs ≤ max_vector_elements
          → count vs * p.size_of t ≤ 2 ^ 26
          → AreWire r t vs b
          → IsWire
              (suc r)
              (slice t)
              (elements vs)
              (le_bytes 4 crc_vector ++ (le_bytes 4 (count vs) ++ b))
      a_pointer :
          {r n : ℕ} {vs : Values} {b : Bytes}
          → ObjectWire r n vs b
          → IsWire (suc (suc r)) (pointer n) (object n vs) (le_bytes 4 (p.types n).crc ++ b)
      an_interface :
          {r n i : ℕ} {vs : Values} {b : Bytes}
          → IsObjectCrc (p.types n).crc
          → p.lookup_object_type (p.types n).crc ≡ some n
          → p.is_enum_crc (p.types n).crc ≡ false
          → p.converts (object n vs) i ≡ true
          → ObjectWire r n vs b
          → IsWire
              (suc (suc (suc r)))
              (interface i)
              (boxed (object n vs))
              (le_bytes 4 (p.types n).crc ++ b)
      a_true :
          {r i : ℕ}
          → p.converts pseudo_true i ≡ true
          → IsWire (suc (suc (suc r))) (interface i) (boxed pseudo_true) (bool_wire true)
      a_false :
          {r i : ℕ}
          → p.converts pseudo_false i ≡ true
          → IsWire (suc (suc (suc r))) (interface i) (boxed pseudo_false) (bool_wire false)

    -- A struct after its crc: the flags are those that its values have.
    pub data ObjectWire : ℕ → ℕ → Values → Bytes → Type 0 where
      an_object :
          {r n : ℕ} {vs : Values} {places : Places} {b : Bytes}
          → (p.types n).crc < 2 ^ 32
          → HasPlaces
              (p.types n).flag_index
              (p.types n).flag_index2
              (length (p.types n).fields)
              places
          → FieldsWire r places (flag_of (p.types n).fields vs) 0 (p.types n).fields vs b
          → ObjectWire r n vs b

    pub data AreWire : ℕ → GoType → Values → Bytes → Type 0 where
      no_elements : {r : ℕ} {t : GoType} → AreWire r t no_values []
      an_element :
          {r : ℕ} {t : GoType} {v : Value} {vs : Values} {b bs : Bytes}
          → IsWire r t v b
          → AreWire r t vs bs
          → AreWire r t (value v vs) (b ++ bs)

    -- The fields from number `i` on, with the flags words among them and after them.
    pub data FieldsWire
        : ℕ → Places → (ℕ → ℕ → Bool) → ℕ → List Field → Values → Bytes → Type 0 where
      no_fields :
          {r i : ℕ} {places : Places} {flag : ℕ → ℕ → Bool}
          → FieldsWire r places flag i [] no_values (flags_wire places flag i)
      a_field :
          {r i : ℕ} {places : Places} {flag : ℕ → ℕ → Bool} {f : Field} {fs : List Field}
          {v : Value} {vs : Values} {b bs : Bytes}
          → FieldWire r places flag i f v b
          → FieldsWire r places flag (suc i) fs vs bs
          → FieldsWire r places flag i (f ∷ fs) (value v vs) (flags_wire places flag i ++ (b ++ bs))

    -- One field: without a tag; left out of the wire form; absent, with its zero value; true by
    -- its flag alone; or present by its flag.
    pub data FieldWire : ℕ → Places → (ℕ → ℕ → Bool) → ℕ → Field → Value → Bytes → Type 0 where
      untagged :
          {r i : ℕ} {places : Places} {flag : ℕ → ℕ → Bool} {f : Field} {v : Value} {b : Bytes}
          → f.tag ≡ none
          → f.exported ≡ true
          → IsWire r f.type v b
          → FieldWire r places flag i f v b
      left_out :
          {r i : ℕ} {places : Places} {flag : ℕ → ℕ → Bool} {f : Field} {info : FieldTag}
          → f.tag ≡ some info
          → info.ignore ≡ true
          → FieldWire r places flag i f (zero_value f.type) []
      absent :
          {r i : ℕ} {places : Places} {flag : ℕ → ℕ → Bool} {f : Field} {info : FieldTag}
          → f.tag ≡ some info
          → info.ignore ≡ false
          → f.exported ≡ true
          → InPlace places info i
          → is_set flag info ≡ false
          → (info.encoded_in_bitflag ≡ true → f.type ≡ boolean)
          → FieldWire r places flag i f (zero_value f.type) []
      by_flag :
          {r i : ℕ} {places : Places} {flag : ℕ → ℕ → Bool} {f : Field} {info : FieldTag}
          → f.tag ≡ some info
          → info.ignore ≡ false
          → f.exported ≡ true
          → InPlace places info i
          → is_set flag info ≡ true
          → info.encoded_in_bitflag ≡ true
          → f.type ≡ boolean
          → FieldWire r places flag i f (truth true) []
      present :
          {r i : ℕ} {places : Places} {flag : ℕ → ℕ → Bool} {f : Field} {info : FieldTag}
          {v : Value} {b : Bytes}
          → f.tag ≡ some info
          → info.ignore ≡ false
          → f.exported ≡ true
          → InPlace places info i
          → is_set flag info ≡ true
          → info.encoded_in_bitflag ≡ false
          → IsWire r f.type v b
          → FieldWire r places flag i f v b
