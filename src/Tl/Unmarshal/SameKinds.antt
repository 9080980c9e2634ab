-- ===== src/Tl/Unmarshal/SameKinds.antt =====
-- The decoder of vectors and registered objects does the same with two decoders of values that do
-- the same.
use gogram.Common.{
  ℕ, ◌*◌, ◌^◌, ◌≡◌, refl, ◌∙◌, not, ◌||◌, Option, none, some, List, [], ◌∷◌, length, ltb, ◌==◌,
  arith,
}
use gogram.Tl.Defs.{
  reading_crc, reading_vector_size, in_object, not_assignable, not_a_slice, not_vector,
  vector_too_long, vector_exceeds_input, vector_too_large, not_registered, crc_vector, crc_true,
  crc_false, crc_null,
}
use gogram.Tl.Schema.{
  GoType, boolean, slice, interface, Value, nil, elements, object, boxed, pseudo_true, pseudo_false,
  pseudo_nil, wrapped_slice,
}
use gogram.Tl.Decoder.{
  D, give, fail, rest, dump_without_read, or_return, ◌>>=◌, unread, expect_types_in_interface,
}
use gogram.Tl.Unmarshal.{Program, max_vector_elements, object_interface}
use gogram.Tl.Unmarshal.Kinds.{
  element_of, pop_sized_vector, pop_vector_body, pop_bare_vector, pop_vector, wrap_vector,
  decode_hinted, decode_vector, guess_vector, decode_boxed_vector, decode_registered, decode_by_crc,
  assign_boxed, assign_interface,
}
use gogram.Tl.Unmarshal.Same.{
  Alike, Same, give-Same, fail-Same, or_return-Same, or_wrap-Same, if-Same, if_at-Same, bind-Same,
  pop_uint-Same,
}
use gogram.Tl.Unmarshal.SameParts.{body-Same, elements-Same}

module _ (p : Program) (k : ℕ) where
  boxed-Same : (i : ℕ) (v : Value) → Same k (assign_boxed p i v) (assign_boxed p i v)
  unfolding assign_boxed
  boxed-Same i v =
      if-Same k (p.converts v i) _ _ _ _ (give-Same k (boxed v)) (fail-Same k not_assignable nil)

  pub interface-Same :
      (i : ℕ) (v : Value) → Same k (assign_interface p i v) (assign_interface p i v)
  unfolding assign_interface
  interface-Same i (wrapped_slice v) =
      if-Same k (p.converts v i) _ _ _ _ (boxed-Same i v) (boxed-Same i (wrapped_slice v))
  interface-Same i v = boxed-Same i v

module _ (p : Program) (k : ℕ) (self self' : GoType → D Value)
    (agree : (t : GoType) → Same k (self t) (self' t)) where
  sized-Same :
      (t : GoType) (n : ℕ) → Same k (pop_sized_vector p self t n) (pop_sized_vector p self' t n)
  unfolding pop_sized_vector
  sized-Same t n =
      if_at-Same k (λ d. ltb max_vector_elements n) _ _ _ _ (fail-Same k (vector_too_long n) nil)
        (if_at-Same k (λ d. ltb (length (rest d)) (n * 4)) _ _ _ _
          (fail-Same k (vector_exceeds_input n) nil)
          (if_at-Same k (λ d. ltb (2 ^ 26) (n * p.size_of t)) _ _ _ _
            (fail-Same k (vector_too_large n) nil)
            (bind-Same k _ _ _ _ (elements-Same k self self' agree t n)
              λ vs. or_return-Same k nil _ _ (give-Same k (elements vs)))))

  vector_body-Same : (t : GoType) → Same k (pop_vector_body p self t) (pop_vector_body p self' t)
  unfolding pop_vector_body
  vector_body-Same t =
      bind-Same k _ _ _ _ (pop_uint-Same k)
        λ size. or_wrap-Same k reading_vector_size nil _ _ (sized-Same t size)

  pub vector-Same : (t : GoType) → Same k (pop_vector p self t) (pop_vector p self' t)
  unfolding pop_vector
  vector-Same t = or_return-Same k nil _ _ (
      bind-Same k _ _ _ _ (pop_uint-Same k) λ crc. or_wrap-Same k reading_crc nil _ _ (
        if-Same k (not (crc == crc_vector)) _ _ _ _ (fail-Same k (not_vector crc) nil)
          (vector_body-Same t)))

  hinted-Same :
      (crc : ℕ) (hint : GoType)
      → Same k (decode_hinted p self crc hint) (decode_hinted p self' crc hint)
  unfolding decode_hinted pop_bare_vector
  hinted-Same crc hint = by_element (element_of hint)
    where
      by_element :
          (o : Option GoType)
          → Same k
              (elim o [
                | none ↦ fail not_a_slice nil
                | some t ↦ (do
                  v ← pop_bare_vector p self t
                  or_return nil (give (wrap_vector p t crc v)))
              ])
              (elim o [
                | none ↦ fail not_a_slice nil
                | some t ↦ (do
                  v ← pop_bare_vector p self' t
                  or_return nil (give (wrap_vector p t crc v)))
              ])
      by_element none = fail-Same k not_a_slice nil
      by_element (some t) =
          bind-Same k _ _ _ _ (or_return-Same k nil _ _ (vector_body-Same t))
            λ v. or_return-Same k nil _ _ (give-Same k (wrap_vector p t crc v))

  decode_vector-Same :
      (crc : ℕ) (hint : GoType) (hints : List GoType)
      → Same k (decode_vector p self crc hint hints) (decode_vector p self' crc hint hints)
  unfolding decode_vector expect_types_in_interface
  decode_vector-Same crc hint hints d h =
      let q = hinted-Same crc hint (record d { expected_types = hints }) h in
      record { same = q.same; back = q.back }

  -- The same after a step back.
  unread-Same : (m n : D Value) → Same k m n → Same k (λ d. m (unread 8 d)) (λ d. n (unread 8 d))
  unfolding unread
  unread-Same m n alike d h =
      let kept : (unread 8 d).depth ≡ d.depth = ground arith in
      let q = alike (unread 8 d) (omega (arith, kept)) in
      record { same = q.same; back = q.back ∙ kept }

  guess-Same : Same k (guess_vector p self) (guess_vector p self')
  unfolding guess_vector
  guess-Same = bind-Same k _ _ _ _ (pop_uint-Same k) λ size.
      if-Same k (size == 0) _ _ _ _ (give-Same k pseudo_nil) (
        bind-Same k _ _ _ _ (pop_uint-Same k) λ vec_crc.
          if_at-Same k (λ d. (vec_crc == crc_true) || (vec_crc == crc_false)) _ _ _ _
            (unread-Same _ _ (decode_vector-Same crc_vector (slice boolean) []))
            (unread-Same _ _ (decode_vector-Same vec_crc (slice (interface object_interface)) [])))

  boxed_vector-Same : Same k (decode_boxed_vector p self) (decode_boxed_vector p self')
  unfolding decode_boxed_vector
  boxed_vector-Same d h = by_hints d.expected_types
    where
      by_hints :
          (ts : List GoType)
          → Alike {A = Value} d
              (elim ts [
                | [] ↦ guess_vector p self d
                | hint ∷ hints ↦ decode_vector p self crc_vector hint hints d
              ])
              (elim ts [
                | [] ↦ guess_vector p self' d
                | hint ∷ hints ↦ decode_vector p self' crc_vector hint hints d
              ])
      by_hints [] = guess-Same d h
      by_hints (hint ∷ hints) = decode_vector-Same crc_vector hint hints d h

  registered-Same :
      (crc n : ℕ) → Same k (decode_registered p self crc n) (decode_registered p self' crc n)
  unfolding decode_registered
  registered-Same crc n = if-Same k (p.is_enum_crc crc) _ _ _ _ (give-Same k _) (
      bind-Same k _ _ _ _ (body-Same k self self' agree (p.types n))
        λ fs. or_wrap-Same k in_object (object n fs) _ _ (give-Same k (object n fs)))

  pub by_crc-Same : (crc : ℕ) → Same k (decode_by_crc p self crc) (decode_by_crc p self' crc)
  unfolding decode_by_crc
  by_crc-Same crc = if-Same k (crc == crc_vector) _ _ _ _ boxed_vector-Same (
      if-Same k (crc == crc_false) _ _ _ _ (give-Same k pseudo_false) (
        if-Same k (crc == crc_true) _ _ _ _ (give-Same k pseudo_true) (
          if-Same k (crc == crc_null) _ _ _ _ (give-Same k pseudo_nil)
            (by_type (p.lookup_object_type crc)))))
    where
      by_type :
          (o : Option ℕ)
          → Same k
              (elim o [
                | none ↦ λ d. fail (not_registered crc (dump_without_read d)) nil d
                | some n ↦ decode_registered p self crc n
              ])
              (elim o [
                | none ↦ λ d. fail (not_registered crc (dump_without_read d)) nil d
                | some n ↦ decode_registered p self' crc n
              ])
      by_type none = λ d h. record { same = refl; back = refl }
      by_type (some n) = registered-Same crc n
