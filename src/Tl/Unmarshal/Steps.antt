-- ===== src/Tl/Unmarshal/Steps.antt =====
-- The steps of the reflective decoder, each with the call that comes back to `decodeValue` as an
-- assumption.
use gogram.Common.{
  ℕ, suc, ◌+◌, ◌≤◌, ◌<◌, ◌≡◌, refl, sym, ap, ◌∙◌, true, false, none, some, List, [], ◌∷◌, ◌++◌,
  append_assoc, arith,
}
use mathlib.Core.Path.{subst}
use gogram.Common.Bytes.{Bytes}
use gogram.Tl.Defs.{in_field}
use gogram.Tl.Schema.{
  GoType, boolean, FieldTag, Field, Value, Values, truth, no_values, value, zero_value, zero_values,
  ignored,
}
use gogram.Tl.Laid.{laid_wire}
use gogram.Tl.Flags.{Layout, Flags, has_flag, no_word}
use gogram.Tl.FlagLaws.{AreWords}
use gogram.Tl.Decoder.{D, ◌>>=◌, or_return, or_wrap, give, Decoder, rest}
use gogram.Tl.Decoder.Reads.{
  Pops, give-Pops, Pops-bind, or_return_ok, or_wrap_ok, Pops-Onward, Pops-Onward_then,
}
use gogram.Tl.Unmarshal.{
  pop_flags, decode_present, decode_bitflag, is_boolean, decode_tagged, decode_field, decode_fields,
}
use gogram.Tl.Unmarshal.Takes.{next_flags, pop_flags-Pops}

-- From any decoder that has `r` levels left below the limit, fuel for them and no error, the
-- call takes `b` off the input and returns `a`.
abbrev pub Takes : {A : Type 0} → ℕ → ℕ → D A → A → Bytes → Type 0
Takes fuel r m a b =
    (d : Decoder) (more : Bytes)
    → d.err ≡ none
    → 128 < fuel + d.depth
    → d.depth + r ≤ 128
    → rest d ≡ b ++ more
    → Pops d (m d) a more

-- A call that is computed to another.
pub as_call :
    {A : Type 0} (fuel r : ℕ) (m k : D A) {a : A} (b : Bytes)
    → ((d : Decoder) → m d ≡ k d)
    → Takes fuel r k a b
    → Takes fuel r m a b
as_call fuel r m k {a} b same takes d more clean fueled room arrives =
    subst (λ x. Pops d x a more) (sym (same d)) (takes d more clean fueled room arrives)

-- A value that is given without a read.
pub given : {A : Type 0} (fuel r : ℕ) (a : A) → Takes fuel r (give a) a []
given fuel r a d more clean fueled room arrives = give-Pops d a a clean arrives refl

module _ (self : GoType → D Value) where
  pub untagged_call :
      (layout : Layout) (g : Flags) (f : Field) (d : Decoder)
      → f.tag ≡ none
      → f.exported ≡ true
      → decode_field self layout g f d ≡ decode_present self f d
  unfolding decode_field ignored decode_present
  untagged_call layout g f d tag out = rw (tag, out) refl

  pub ignored_call :
      (layout : Layout) (g : Flags) (f : Field) (d : Decoder) {info : FieldTag}
      → f.tag ≡ some info
      → info.ignore ≡ true
      → decode_field self layout g f d ≡ (d, zero_value f.type)
  unfolding decode_field decode_tagged ignored
  ignored_call layout g f d tag skip = ground (arith, tag, skip)

  pub tagged_call :
      (layout : Layout) (g : Flags) (f : Field) (d : Decoder) {info : FieldTag}
      → f.tag ≡ some info
      → f.exported ≡ true
      → decode_field self layout g f d ≡ decode_tagged self layout g info f d
  unfolding decode_field decode_tagged decode_bitflag decode_present
  tagged_call layout g f d tag out = rw (tag, out) refl

  pub absent_call :
      (layout : Layout) (g : Flags) (info : FieldTag) (f : Field) (d : Decoder)
      → no_word layout info ≡ false
      → has_flag g info ≡ false
      → decode_tagged self layout g info f d ≡ (d, zero_value f.type)
  unfolding decode_tagged
  absent_call layout g info f d has off = rw (off, has) (ground arith)

  pub bitflag_call :
      (layout : Layout) (g : Flags) (info : FieldTag) (f : Field) (d : Decoder)
      → info.ignore ≡ false
      → no_word layout info ≡ false
      → has_flag g info ≡ true
      → info.encoded_in_bitflag ≡ true
      → f.type ≡ boolean
      → decode_tagged self layout g info f d ≡ (d, truth true)
  unfolding decode_tagged decode_bitflag is_boolean
  bitflag_call layout g info f d keep has on bit type = rw (on, has, keep, bit, type) refl

  pub present_call :
      (layout : Layout) (g : Flags) (info : FieldTag) (f : Field) (d : Decoder)
      → info.ignore ≡ false
      → no_word layout info ≡ false
      → has_flag g info ≡ true
      → info.encoded_in_bitflag ≡ false
      → decode_tagged self layout g info f d ≡ decode_present self f d
  unfolding decode_tagged
  present_call layout g info f d keep has on bit = rw (on, has, keep, bit) refl

module _ (fuel r : ℕ) (self : GoType → D Value) where
  pub present_field :
      (f : Field) (v : Value) (b : Bytes)
      → Takes fuel r (self f.type) v b
      → Takes fuel r (decode_present self f) v b
  unfolding decode_present
  present_field f v b takes d more clean fueled room arrives =
      Pops-bind d (self f.type) (λ w. or_wrap in_field w (give w))
        (takes d more clean fueled room arrives)
        λ d' clean' left.
          subst (λ x. Pops d' x v more) (sym (or_wrap_ok in_field v (give v) d' clean'))
            (give-Pops d' v v clean' left refl)

  pub last_flags :
      (layout : Layout) (flags g : Flags) (i : ℕ)
      → AreWords flags
      → Takes fuel r (decode_fields self layout g i []) no_values (laid_wire layout flags i)
  unfolding decode_fields
  last_flags layout flags g i words d more clean fueled room arrives =
      Pops-bind d (pop_flags layout g i) (λ _. give no_values)
        (pop_flags-Pops layout flags g i d more clean words.0 words.1 arrives)
        λ d' clean' left. give-Pops d' no_values no_values clean' left refl

  pub next_field :
      (layout : Layout) (flags g : Flags) (i : ℕ) (f : Field) (fs : List Field) (v : Value)
      (vs : Values) (b bs : Bytes)
      → AreWords flags
      → Takes fuel r (decode_field self layout (next_flags layout flags i g) f) v b
      → Takes fuel r (decode_fields self layout (next_flags layout flags i g) (suc i) fs) vs bs
      → Takes fuel r
          (decode_fields self layout g i (f ∷ fs))
          (value v vs)
          (laid_wire layout flags i ++ (b ++ bs))
  unfolding decode_fields
  next_field layout flags g i f fs v vs b bs words one others d more clean fueled room arrives =
      let g' : Flags = next_flags layout flags i g in
      let others_left : Bytes = b ++ (bs ++ more) in
      let start : rest d ≡ laid_wire layout flags i ++ others_left =
        arrives
        ∙ append_assoc (laid_wire layout flags i) (b ++ bs) more
        ∙ ap (◌++◌ (laid_wire layout flags i)) (append_assoc b bs more) in
      Pops-Onward_then d (pop_flags layout g i) (zero_values (f ∷ fs))
        (λ h. do
          w ← decode_field self layout h f
          or_return (value w (zero_values fs))
              (do ws ← decode_fields self layout h (suc i) fs; give (value w ws)))
        (pop_flags-Pops layout flags g i d others_left clean words.0 words.1 start)
        λ d1 clean1 deep1 left1.
          Pops-Onward d1 (decode_field self layout g' f)
            (λ w.
              or_return (value w (zero_values fs))
                (do ws ← decode_fields self layout g' (suc i) fs; give (value w ws)))
            (one d1 (bs ++ more) clean1 (omega arith) (omega arith) left1)
            λ d2 clean2 deep2 left2.
              subst (λ x. Pops d2 x (value v vs) more)
                (sym (
                  or_return_ok (value v (zero_values fs))
                    (do ws ← decode_fields self layout g' (suc i) fs; give (value v ws)) d2 clean2))
                (Pops-bind d2 (decode_fields self layout g' (suc i) fs) (λ ws. give (value v ws))
                  (others d2 more clean2 (omega arith) (omega arith) left2)
                  λ d3 clean3 left3. give-Pops d3 _ _ clean3 left3 refl)
