-- ===== src/Tl/Unmarshal/Sample.antt =====
-- A schema of two struct types, and a value of it with its wire form: data for the tests.
use gogram.Common.{
  ℕ, zero, suc, ◌≡◌, refl, Bool, true, false, none, some, [], ◌∷◌, arith, ◌==◌, if◌then◌else◌,
}
use gogram.Common.Bytes.{Bytes, le_bytes}
use gogram.Common.Int.{pos}
use gogram.Common.Results.{ok}
use gogram.Io.Pipe.{buffer}
use gogram.Tl.Schema.{
  GoType, int64, boolean, str, slice, pointer, interface, FieldTag, Field, StructType, Value,
  Values, long, truth, text, elements, object, boxed, no_values, value, count, is_zero, ignored,
  zero_value,
}
use gogram.Tl.Flags.{
  Layout, flag_layout, outside, flags_word, set_flag, has_flag, is_bool, check_tag, add_flag,
  field_flags,
}
use gogram.Tl.Defs.{padding4}
use gogram.Tl.WireForm.{
  IsWire, ObjectWire, IsObjectCrc, InPlace, one_word, word_place, none_declared, one_declared,
  is_set, flag_of, an_int64, a_str, a_slice, a_pointer, an_interface, an_object, no_elements,
  an_element, no_fields, a_field, untagged, by_flag, absent, present,
}
use gogram.Tl.Encoder.{
  Encoder, write, write_string, put_uint8, put_uint, put_long, put_padding, put_short, put_content,
}
use gogram.Tl.Marshal.{
  nested, put_word_at, put_flags, encode_tagged, encode_field, encode_fields, encode_body,
  encode_laid_out, encode_struct, encode_elements, encode_vector_value, encode_boxed, encode_value,
}
use gogram.Tl.Unmarshal.{Program}

abbrev pub plain : GoType → Field
plain t = record { tag = none; type = t; exported = true }

abbrev pub tag_at : ℕ → Bool → FieldTag
tag_at i in_bitflag = record {
  index = i;
  encoded_in_bitflag = in_bitflag;
  ignore = false;
  optional = true;
  version = 1;
  explicit = false;
}

abbrev pub flagged : ℕ → GoType → Field
flagged i t = record { tag = some (tag_at i false); type = t; exported = true }

abbrev pub bitflag : ℕ → Field
bitflag i = record { tag = some (tag_at i true); type = boolean; exported = true }

-- A user (0) and a message (1) from it.
abbrev pub user : StructType
user = record {
  crc = 0x11223344;
  flag_index = none;
  flag_index2 = none;
  fields = plain int64 ∷ plain str ∷ [];
}

abbrev pub message : StructType
message = record {
  crc = 0x55667788;
  flag_index = some (pos 0);
  flag_index2 = none;
  fields =
      bitflag 1
      ∷ plain (pointer 0)
      ∷ flagged 3 str
      ∷ flagged 4 str
      ∷ plain (slice (interface 7))
      ∷ [];
}

abbrev pub types : ℕ → StructType
types zero = user
types (suc n) = message

abbrev pub ann : Value
ann = object 0 (value (long 42) (value (text (65 ∷ 110 ∷ 110 ∷ [])) no_values))

abbrev pub note_fields : Values
note_fields = value (truth true) (
    value ann (
      value (text [])
        (value (text (72 ∷ 105 ∷ [])) (value (elements (value (boxed ann) no_values)) no_values))))

abbrev pub note : Value
note = object 1 note_fields

abbrev pub program : Program
program = record {
  types = types;
  lookup_object_type = λ crc. if crc == 0x11223344 then some 0 else none;
  is_enum_crc = λ crc. false;
  size_of = λ t. 16;
  converts = λ v i. true;
  to_registered = λ v n. none;
}

abbrev pub note_bytes : Bytes
note_bytes =
    136 ∷ 119 ∷ 102 ∷ 85 ∷ 18 ∷ 0 ∷ 0 ∷ 0 ∷ 68 ∷ 51 ∷ 34 ∷ 17 ∷ 42 ∷ 0 ∷ 0 ∷ 0 ∷ 0 ∷ 0 ∷ 0 ∷ 0 ∷ 3
    ∷ 65 ∷ 110 ∷ 110 ∷ 2 ∷ 72 ∷ 105 ∷ 0 ∷ 21 ∷ 196 ∷ 181 ∷ 28 ∷ 1 ∷ 0 ∷ 0 ∷ 0 ∷ 68 ∷ 51 ∷ 34 ∷ 17
    ∷ 42 ∷ 0 ∷ 0 ∷ 0 ∷ 0 ∷ 0 ∷ 0 ∷ 0 ∷ 3 ∷ 65 ∷ 110 ∷ 110 ∷ []

abbrev pub fresh : Encoder Bytes
fresh = record { depth = 0; writer = []; err = none }

pub note_written : (encode_value types buffer note fresh).writer ≡ note_bytes
unfolding encode_value encode_boxed encode_vector_value encode_elements encode_struct
    encode_laid_out encode_body encode_fields encode_field encode_tagged put_flags put_word_at
    nested put_content put_short put_padding put_long put_uint put_uint8 write write_string padding4
    field_flags add_flag check_tag is_bool set_flag has_flag flags_word flag_layout outside le_bytes
    is_zero ignored count
note_written = refl

abbrev pub ann_fields : Values
ann_fields = value (long 42) (value (text (65 ∷ 110 ∷ 110 ∷ [])) no_values)

abbrev pub message_layout : Layout
message_layout = record { first = 0; second = 0; words = 1 }

-- The bits 1 and 4.
pub message_flags : field_flags message_layout (0, 0) message.fields note_fields ≡ ok (18, 0)
unfolding field_flags add_flag check_tag is_bool set_flag is_zero
message_flags = refl

pub has_1 : is_set (flag_of message.fields note_fields) (tag_at 1 true) ≡ true
unfolding flag_of is_zero
has_1 = refl

pub has_4 : is_set (flag_of message.fields note_fields) (tag_at 4 false) ≡ true
unfolding flag_of is_zero
has_4 = refl

pub has_no_3 : is_set (flag_of message.fields note_fields) (tag_at 3 false) ≡ false
unfolding flag_of is_zero
has_no_3 = refl

abbrev pub placed : (i n : ℕ) (b : Bool) → InPlace (one_word 0) (tag_at i b) n
unfolding word_place
placed i n b = record { place = 0; has_word = refl; read_before = omega arith }

abbrev pub ann_form : (r : ℕ) → (b : Bytes) × ObjectWire program (suc r) 0 ann_fields b
ann_form r = (
  _,
  an_object {n = 0} (omega arith) none_declared (
      a_field (untagged refl refl (an_int64 (omega arith)))
        (a_field (untagged refl refl (a_str (omega arith))) no_fields)),
)

abbrev pub user_crc : IsObjectCrc 0x11223344
user_crc = record {
  word_sized = omega arith;
  no_vector = refl;
  no_false = refl;
  no_true = refl;
  no_null = refl;
}

pub note_form : (b : Bytes) × IsWire program 7 (pointer 1) note b
unfolding count zero_value
note_form = (
  _,
  a_pointer (
      an_object {n = 1} (omega arith) (one_declared (omega arith)) (
        a_field (by_flag refl refl refl (placed 1 0 true) has_1 refl refl) (
          a_field (untagged refl refl (a_pointer (ann_form 2).1)) (
            a_field
              (absent refl refl refl (placed 3 2 false) has_no_3 (λ bit. absurd (ground arith)))
              (a_field (present refl refl refl (placed 4 3 false) has_4 refl (a_str (omega arith)))
                (a_field
                  (untagged refl refl (
                    a_slice (omega arith) (omega arith) (
                      an_element (an_interface user_crc refl refl refl (ann_form 0).1)
                        no_elements)))
                  no_fields)))))),
)
