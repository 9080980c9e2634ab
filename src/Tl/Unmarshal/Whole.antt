-- ===== src/Tl/Unmarshal/Whole.antt =====
-- Structs and vectors as a whole, from their parts.
use gogram.Common.{
  ℕ, suc, ◌+◌, ◌*◌, ◌^◌, ◌≤◌, ◌<◌, ◌≡◌, refl, sym, ap, ◌∙◌, true, not, ◌++◌, append_assoc, length,
  length-append, ge→ltb, ◌==◌, arith, if◌then◌else◌,
}
use mathlib.Core.Path.{subst}
use gogram.Common.Bytes.{Bytes, le_bytes}
use gogram.Common.Results.{Result, ok, err}
use gogram.Tl.Defs.{TlError, reading_crc, reading_vector_size, wrong_crc, not_vector, crc_vector}
use gogram.Tl.Schema.{
  GoType, StructType, Value, Values, elements, nil, no_values, value, count, zero_values,
}
use gogram.Tl.Flags.{Layout, flag_layout}
use gogram.Tl.Decoder.{D, ◌>>=◌, or_return, or_wrap, give, fail, rest, pop_uint}
use gogram.Tl.Decoder.Reads.{
  Pops, give-Pops, Pops-bind, or_return_ok, pop_uint-Pops, Pops-Onward_then, Pops-Onward_wrapped,
}
use gogram.Tl.Unmarshal.{
  nested, Program, max_vector_elements, decode_fields, decode_struct, decode_object,
  decode_object_body, pop_elements, as_value,
}
use gogram.Tl.Unmarshal.Takes.{nested-Pops}
use gogram.Tl.Unmarshal.Steps.{Takes}
use gogram.Tl.Unmarshal.Kinds.{pop_sized_vector, pop_vector_body, pop_vector}

-- The first call after the test for an error.
unguarded :
    {A : Type 0} (fuel r : ℕ) (z : A) (m : D A) {a : A} (b : Bytes)
    → Takes fuel r m a b
    → Takes fuel r (or_return z m) a b
unguarded fuel r z m {a} b takes d more clean fueled room arrives =
    subst (λ x. Pops d x a more) (sym (or_return_ok z m d clean))
      (takes d more clean fueled room arrives)

-- A word, and what follows it.
pub after_word :
    {A : Type 0} (fuel r v : ℕ) (w : TlError → TlError) (z : A) (f : ℕ → D A) {a : A} (b : Bytes)
    → v < 2 ^ 32
    → Takes fuel r (f v) a b
    → Takes fuel r (pop_uint >>= λ x. or_wrap w z (f x)) a (le_bytes 4 v ++ b)
after_word fuel r v w z f b small takes d more clean fueled room arrives =
    Pops-Onward_wrapped d pop_uint w z f
      (pop_uint-Pops d v (b ++ more) clean small (arrives ∙ append_assoc (le_bytes 4 v) b more))
      λ d1 clean1 deep1 left1. takes d1 more clean1 (omega arith) (omega arith) left1

pub as_value-Takes :
    {A : Type 0} (fuel r : ℕ) (f : A → Value) (m : D A) {a : A} (b : Bytes)
    → Takes fuel r m a b
    → Takes fuel r (as_value f m) (f a) b
as_value-Takes fuel r f m {a} b takes d more clean fueled room arrives =
    Pops-bind d m (λ x. give (f x)) (takes d more clean fueled room arrives)
      λ d1 clean1 left1. give-Pops d1 (f a) (f a) clean1 left1 refl

-- A level of nesting.
pub level :
    {A : Type 0} (fuel r : ℕ) (z : A) (m : D A) {a : A} (b : Bytes)
    → Takes fuel r m a b
    → Takes (suc fuel) (suc r) (nested z m) a b
level fuel r z m b takes d more clean fueled room arrives =
    nested-Pops z m d clean (omega arith)
      (takes (record d { depth = d.depth + 1 }) more clean (omega arith) (omega arith) arrives)

-- A level that takes no fuel.
pub free_level :
    {A : Type 0} (fuel r : ℕ) (z : A) (m : D A) {a : A} (b : Bytes)
    → Takes fuel r m a b
    → Takes fuel (suc r) (nested z m) a b
free_level fuel r z m b takes d more clean fueled room arrives =
    nested-Pops z m d clean (omega arith)
      (takes (record d { depth = d.depth + 1 }) more clean (omega arith) (omega arith) arrives)

module _ (fuel r : ℕ) (self : GoType → D Value) (st : StructType) {layout : Layout}
    (laid : flag_layout st (length st.fields) ≡ ok layout) {vs : Values} (b : Bytes)
    (parts : Takes fuel r (decode_fields self layout (0, 0) 0 st.fields) vs b) where
  struct-Takes : Takes fuel r (decode_struct self st) vs b
  unfolding decode_struct
  struct-Takes =
      subst (λ m. Takes fuel r m vs b)
        (sym (
          ap {B = D Values}
            (λ (x : Result TlError Layout). elim x [
              | ok layout ↦ decode_fields self layout (0, 0) 0 st.fields
              | err x ↦ fail x (zero_values st.fields)
            ])
            laid))
        parts

  pub object_body-Takes : Takes fuel r (decode_object_body self st) vs b
  unfolding decode_object_body
  object_body-Takes =
      unguarded fuel r (zero_values st.fields) (decode_struct self st) b struct-Takes

  same_crc : (st.crc == st.crc) ≡ true
  same_crc = ground arith

  pub object-Takes :
      st.crc < 2 ^ 32 → Takes fuel r (decode_object self st) vs (le_bytes 4 st.crc ++ b)
  unfolding decode_object
  object-Takes small = unguarded fuel r (zero_values st.fields) _ (le_bytes 4 st.crc ++ b) (
      after_word fuel r st.crc reading_crc (zero_values st.fields)
        (λ crc.
          if not (crc == st.crc)
          then fail (wrong_crc crc st.crc) (zero_values st.fields)
          else decode_struct self st)
        b small (rw same_crc struct-Takes))

module _ (fuel r : ℕ) (self : GoType → D Value) (t : GoType) where
  pub next_element :
      (n : ℕ) (v : Value) (vs : Values) (b bs : Bytes)
      → Takes fuel r (self t) v b
      → Takes fuel r (pop_elements self t n) vs bs
      → Takes fuel r (pop_elements self t (suc n)) (value v vs) (b ++ bs)
  unfolding pop_elements
  next_element n v vs b bs one others d more clean fueled room arrives =
      Pops-Onward_then d (self t) no_values (λ w. do ws ← pop_elements self t n; give (value w ws))
        (one d (bs ++ more) clean fueled room (arrives ∙ append_assoc b bs more))
        λ d1 clean1 deep1 left1.
          Pops-bind d1 (pop_elements self t n) (λ ws. give (value v ws))
            (others d1 more clean1 (omega arith) (omega arith) left1)
            λ d2 clean2 left2. give-Pops d2 _ _ clean2 left2 refl

  -- A vector that passes the tests of its size.
  pub vector-Takes :
      (p : Program) (vs : Values) (b : Bytes)
      → count vs ≤ max_vector_elements
      → count vs * p.size_of t ≤ 2 ^ 26
      → count vs * 4 ≤ length b
      → Takes fuel r (pop_elements self t (count vs)) vs b
      → Takes fuel r
          (pop_vector p self t)
          (elements vs)
          (le_bytes 4 crc_vector ++ (le_bytes 4 (count vs) ++ b))
  unfolding pop_vector pop_vector_body pop_sized_vector
  vector-Takes p vs b few small long parts = unguarded fuel r nil _ _ (
      after_word fuel r crc_vector reading_crc nil
        (λ crc.
          if not (crc == crc_vector) then fail (not_vector crc) nil else pop_vector_body p self t)
        (le_bytes 4 (count vs) ++ b) (omega arith)
        (after_word fuel r (count vs) reading_vector_size nil (pop_sized_vector p self t) b
          (omega arith) sized))
    where
      sized : Takes fuel r (pop_sized_vector p self t (count vs)) (elements vs) b
      sized d more clean fueled room arrives =
          let one = ge→ltb max_vector_elements (count vs) few in
          let two =
            ge→ltb (length (rest d)) (count vs * 4)
              (rw arrives (omega (arith, length-append b more))) in
          let three = ge→ltb (2 ^ 26) (count vs * p.size_of t) small in
          rw (one, two, three)
            (Pops-Onward_then d (pop_elements self t (count vs)) nil (λ ws. give (elements ws))
              (parts d more clean fueled room arrives)
              λ d1 clean1 deep1 left1. give-Pops d1 _ _ clean1 left1 refl)
