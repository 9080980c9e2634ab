-- ===== src/Tl/Unmarshal/SameParts.antt =====
-- The decoder of structs and elements does the same with two decoders of values that do the same.
use gogram.Common.{
  ℕ, zero, suc, Bool, true, false, not, ◌&&◌, Option, none, some, List, [], ◌∷◌, length, ltb, ◌==◌,
}
use gogram.Common.Int.{pos}
use gogram.Common.Results.{Result, ok, err}
use gogram.Tl.Defs.{
  TlError, reading_crc, in_field, wrong_crc, not_decodable, bitflag_not_bool, no_flags_word,
  int128_len, int256_len,
}
use gogram.Tl.Schema.{
  GoType, FieldTag, Field, StructType, Value, truth, big128, big256, no_values, value, zero_value,
  zero_values, ignored,
}
use gogram.Tl.Flags.{Layout, flag_layout, Flags, has_flag, no_word}
use gogram.Tl.BigInts.{set_bytes}
use gogram.Tl.Decoder.{D, fail}
use gogram.Tl.Unmarshal.{
  unmarshal128, unmarshal256, pop_word_at, pop_flags, is_boolean, decode_present, decode_bitflag,
  decode_tagged, decode_field, decode_fields, decode_struct, decode_object, decode_object_body,
  pop_elements, as_value,
}
use gogram.Tl.Unmarshal.Same.{
  Same, give-Same, fail-Same, or_return-Same, or_wrap-Same, if-Same, bind-Same, pop_uint-Same,
  pop_raw_bytes-Same,
}

module _ (k : ℕ) where
  pop_word_at-Same : (here : Bool) (w : ℕ) → Same k (pop_word_at here w) (pop_word_at here w)
  unfolding pop_word_at
  pop_word_at-Same true w = pop_uint-Same k
  pop_word_at-Same false w = give-Same k w

  pop_flags-Same :
      (layout : Layout) (g : Flags) (i : ℕ) → Same k (pop_flags layout g i) (pop_flags layout g i)
  unfolding pop_flags
  pop_flags-Same layout (a, b) i =
      bind-Same k _ _ _ _ (pop_word_at-Same (ltb 0 layout.words && (layout.first == i)) a) λ a'.
        bind-Same k _ _ _ _ (pop_word_at-Same (ltb 1 layout.words && (layout.second == i)) b)
          λ b'. give-Same k (a', b')

  pub unmarshal128-Same : Same k unmarshal128 unmarshal128
  unfolding unmarshal128
  unmarshal128-Same = bind-Same k _ _ _ _ (pop_raw_bytes-Same k int128_len) λ val.
      or_return-Same k (big128 none) _ _ (give-Same k (big128 (some (pos (set_bytes 0 val)))))

  pub unmarshal256-Same : Same k unmarshal256 unmarshal256
  unfolding unmarshal256
  unmarshal256-Same = bind-Same k _ _ _ _ (pop_raw_bytes-Same k int256_len) λ val.
      or_return-Same k (big256 none) _ _ (give-Same k (big256 (some (pos (set_bytes 0 val)))))

  pub as-Same :
      {A : Type 0} (f : A → Value) (m n : D A) → Same k m n → Same k (as_value f m) (as_value f n)
  as-Same f m n p = bind-Same k m n _ _ p λ a. give-Same k (f a)

module _ (k : ℕ) (self self' : GoType → D Value)
    (agree : (t : GoType) → Same k (self t) (self' t)) where
  present-Same : (f : Field) → Same k (decode_present self f) (decode_present self' f)
  unfolding decode_present
  present-Same f =
      bind-Same k _ _ _ _ (agree f.type) λ v. or_wrap-Same k in_field v _ _ (give-Same k v)

  bitflag-Same : (f : Field) → Same k (decode_bitflag self f) (decode_bitflag self' f)
  unfolding decode_bitflag
  bitflag-Same f =
      if-Same k (is_boolean f.type) _ _ _ _ (give-Same k (truth true))
        (fail-Same k bitflag_not_bool (zero_value f.type))

  tagged-Same :
      (layout : Layout) (g : Flags) (info : FieldTag) (f : Field)
      → Same k (decode_tagged self layout g info f) (decode_tagged self' layout g info f)
  unfolding decode_tagged
  tagged-Same layout g info f = if-Same k info.ignore _ _ _ _ (give-Same k (zero_value f.type)) (
      if-Same k (no_word layout info) _ _ _ _ (fail-Same k no_flags_word (zero_value f.type)) (
        if-Same k (not (has_flag g info)) _ _ _ _ (give-Same k (zero_value f.type))
          (if-Same k info.encoded_in_bitflag _ _ _ _ (bitflag-Same f) (present-Same f))))

  by_tag-Same :
      (layout : Layout) (g : Flags) (f : Field) (tag : Option FieldTag)
      → Same k
          (elim tag [
            | none ↦ decode_present self f
            | some info ↦ decode_tagged self layout g info f
          ])
          (elim tag [
            | none ↦ decode_present self' f
            | some info ↦ decode_tagged self' layout g info f
          ])
  by_tag-Same layout g f none = present-Same f
  by_tag-Same layout g f (some info) = tagged-Same layout g info f

  field-Same :
      (layout : Layout) (g : Flags) (f : Field)
      → Same k (decode_field self layout g f) (decode_field self' layout g f)
  unfolding decode_field
  field-Same layout g f =
      if-Same k (not f.exported && not (ignored f.tag)) _ _ _ _
        (fail-Same k not_decodable (zero_value f.type)) (by_tag-Same layout g f f.tag)

  fields-Same :
      (layout : Layout) (g : Flags) (i : ℕ) (fs : List Field)
      → Same k (decode_fields self layout g i fs) (decode_fields self' layout g i fs)
  unfolding decode_fields
  fields-Same layout g i [] =
      bind-Same k _ _ _ _ (pop_flags-Same k layout g i) λ g'. give-Same k no_values
  fields-Same layout g i (f ∷ fs) = bind-Same k _ _ _ _ (pop_flags-Same k layout g i) λ g'.
      or_return-Same k (zero_values (f ∷ fs)) _ _ (
        bind-Same k _ _ _ _ (field-Same layout g' f) λ v.
          or_return-Same k (value v (zero_values fs)) _ _
            (bind-Same k _ _ _ _ (fields-Same layout g' (suc i) fs) λ vs. give-Same k (value v vs)))

  laid-Same :
      (st : StructType) (r : Result TlError Layout)
      → Same k
          (elim r [
            | ok layout ↦ decode_fields self layout (0, 0) 0 st.fields
            | err x ↦ fail x (zero_values st.fields)
          ])
          (elim r [
            | ok layout ↦ decode_fields self' layout (0, 0) 0 st.fields
            | err x ↦ fail x (zero_values st.fields)
          ])
  laid-Same st (ok layout) = fields-Same layout (0, 0) 0 st.fields
  laid-Same st (err x) = fail-Same k x (zero_values st.fields)

  struct-Same : (st : StructType) → Same k (decode_struct self st) (decode_struct self' st)
  unfolding decode_struct
  struct-Same st = laid-Same st (flag_layout st (length st.fields))

  pub body-Same :
      (st : StructType) → Same k (decode_object_body self st) (decode_object_body self' st)
  unfolding decode_object_body
  body-Same st = or_return-Same k (zero_values st.fields) _ _ (struct-Same st)

  pub object-Same : (st : StructType) → Same k (decode_object self st) (decode_object self' st)
  unfolding decode_object
  object-Same st = or_return-Same k (zero_values st.fields) _ _ (
      bind-Same k _ _ _ _ (pop_uint-Same k) λ crc.
        or_wrap-Same k reading_crc (zero_values st.fields) _ _ (
          if-Same k (not (crc == st.crc)) _ _ _ _
            (fail-Same k (wrong_crc crc st.crc) (zero_values st.fields)) (struct-Same st)))

  pub elements-Same : (t : GoType) (n : ℕ) → Same k (pop_elements self t n) (pop_elements self' t n)
  unfolding pop_elements
  elements-Same t zero = give-Same k no_values
  elements-Same t (suc n) = bind-Same k _ _ _ _ (agree t) λ v.
      or_return-Same k no_values _ _
        (bind-Same k _ _ _ _ (elements-Same t n) λ vs. give-Same k (value v vs))
