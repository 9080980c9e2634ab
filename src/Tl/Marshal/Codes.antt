-- ===== src/Tl/Marshal/Codes.antt =====
-- What the reflective encoder does on each branch of a struct or a field.
use gogram.Common.{◌≡◌, refl, ap, ◌∙◌, true, false, none, some, List, length, arith}
use gogram.Common.Results.{Result, ok, err}
use gogram.Io.{Writer}
use gogram.Tl.Defs.{TlError}
use gogram.Tl.Schema.{FieldTag, Field, StructType, Value, Values, ignored}
use gogram.Tl.Flags.{Layout, flag_layout, Flags, has_flag, field_flags}
use gogram.Tl.Encoder.{Encoder}
use gogram.Tl.Marshal.{
  Encode, stop, encode_tagged, encode_field, encode_body, encode_laid_out, encode_struct,
}
use gogram.Tl.Marshal.Sends.{unless_err_ok}

module _ {W : Type 0} (o : Writer W) where
  -- What `encodeStruct` does where the layout and the flags are known.
  pub struct_code :
      (st : StructType) (vs : Values) (encs : List (Encode W)) (e : Encoder W) {layout : Layout}
      {flags : Flags}
      → e.err ≡ none
      → flag_layout st (length st.fields) ≡ ok layout
      → field_flags layout (0, 0) st.fields vs ≡ ok flags
      → encode_struct o st vs encs e ≡ encode_body o st layout vs encs flags e
  unfolding encode_struct encode_laid_out
  struct_code st vs encs e {layout} {flags} clean laid set =
      unless_err_ok
        (λ e1. elim (flag_layout st (length st.fields)) [
          | ok layout ↦ encode_laid_out o st vs encs layout e1
          | err x ↦ stop x e1
        ])
        e clean
      ∙ rw laid (
          ap {B = Encoder W}
            (λ (r : Result TlError Flags). elim r [
              | ok flags ↦ encode_body o st layout vs encs flags e
              | err x ↦ stop x e
            ])
            set)

  pub untagged_code :
      (flags : Flags) (f : Field) (v : Value) (m : Encode W) (e : Encoder W)
      → f.tag ≡ none
      → f.exported ≡ true
      → encode_field o flags f v m e ≡ m e
  unfolding encode_field ignored
  untagged_code flags f v m e tag out = rw (tag, out) refl

  pub ignored_code :
      (flags : Flags) (f : Field) (v : Value) (m : Encode W) (e : Encoder W) {info : FieldTag}
      → f.tag ≡ some info
      → info.ignore ≡ true
      → encode_field o flags f v m e ≡ e
  unfolding encode_field encode_tagged ignored
  ignored_code flags f v m e tag skip = ground (arith, tag, skip)

  pub tagged_code :
      (flags : Flags) (f : Field) (v : Value) (m : Encode W) (e : Encoder W) {info : FieldTag}
      → f.tag ≡ some info
      → f.exported ≡ true
      → encode_field o flags f v m e ≡ encode_tagged o flags info v m e
  unfolding encode_field
  tagged_code flags f v m e tag out = rw (tag, out) refl

  pub absent_code :
      (flags : Flags) (info : FieldTag) (v : Value) (m : Encode W) (e : Encoder W)
      → has_flag flags info ≡ false
      → encode_tagged o flags info v m e ≡ e
  unfolding encode_tagged
  absent_code flags info v m e off = ground (arith, off)

  pub bitflag_code :
      (flags : Flags) (info : FieldTag) (v : Value) (m : Encode W) (e : Encoder W)
      → info.encoded_in_bitflag ≡ true
      → encode_tagged o flags info v m e ≡ e
  unfolding encode_tagged
  bitflag_code flags info v m e bit = ground (arith, bit)
