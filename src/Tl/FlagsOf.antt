-- ===== src/Tl/FlagsOf.antt =====
-- The flags that the first loop of `encodeStruct` computes are those that the values have.
use gogram.Common.{
  ℕ, ◌%◌, ◌^◌, ◌≡◌, refl, sym, ap, ◌∙◌, Bool, true, false, not, ◌||◌, Option, none, some, List, ◌∷◌,
  Bool-cases, inl, inr, ◌⊎◌, ◌==◌, bit_or, arith,
}
use gogram.Common.Bytes.{Bytes}
use gogram.Common.Results.{ok}
use gogram.Tl.Schema.{FieldTag, Field, Value, Values, value, zero_value, is_zero}
use gogram.Tl.Flags.{Layout, Flags, set_flag, is_bool, check_tag, add_flag, field_flags, no_word}
use gogram.Tl.FlagWords.{word_of-or, word_of_same, or_falsity}
use mathlib.Core.Path.{subst}
use gogram.Tl.FlagLaws.{tag_step}
use gogram.Tl.Laid.{Placed, layout_of, words_of, InPlace-Placed, word_versions}
use gogram.Tl.Unmarshal.{Program}
use gogram.Tl.WireForm.{
  Places, digit, word_of, sets_flag, flag_of, FieldsWire, FieldWire, no_fields, a_field, untagged,
  left_out, absent, by_flag, present,
}

-- The words after a field.
abbrev with_field : (ℕ → Bool) → ℕ → Option FieldTag → Value → ℕ
with_field f version tag v = word_of (λ i. f i || sets_flag version i tag v) 32

both : {a b c d : ℕ} → a ≡ b → c ≡ d → ◌≡◌ {A = Flags} (a, c) (b, d)
both p q = rw (p, q) refl

module _ (f g : ℕ → Bool) where
  abbrev words : Flags
  words = (word_of f 32, word_of g 32)

  no_bits : (h : ℕ → Bool) → word_of h 32 ≡ word_of (λ i. h i || false) 32
  no_bits h = word_of_same 32 h (λ i. h i || false) (λ i q. sym (or_falsity (h i)))

  pub word_or :
      (h : ℕ → Bool) (n : ℕ) (s : ℕ → Bool)
      → ((i : ℕ) → s i ≡ (n == i))
      → bit_or (word_of h 32) (2 ^ n % 2 ^ 32) ≡ word_of (λ i. h i || s i) 32
  word_or h n s same =
      word_of-or h n
      ∙ word_of_same 32 (λ i. h i || (i == n)) (λ i. h i || s i)
          (λ i q. ap (◌||◌ (h i)) (turned i n ∙ sym (same i)))
    where
      turned : (i j : ℕ) → (i == j) ≡ (j == i)
      turned i j = ground arith

  word_kept :
      (h s : ℕ → Bool) → ((i : ℕ) → s i ≡ false) → word_of h 32 ≡ word_of (λ i. h i || s i) 32
  word_kept h s off =
      word_of_same 32 h (λ i. h i || s i) (λ i q. sym (ap (◌||◌ (h i)) (off i) ∙ or_falsity (h i)))

  abbrev added : FieldTag → Value → Flags
  added info v = (with_field f 1 (some info) v, with_field g 2 (some info) v)

  abbrev sets : FieldTag → Value → Bool
  sets info v = not (is_zero v) || info.explicit

  first_added :
      (info : FieldTag) (v : Value)
      → info.ignore ≡ false
      → info.version ≡ 1
      → sets info v ≡ true
      → ◌≡◌ {A = Flags}
          (bit_or (word_of f 32) (2 ^ info.index % 2 ^ 32), word_of g 32)
          (added info v)
  first_added info v keep one set =
      both
        (word_or f info.index (λ i. sets_flag 1 i (some info) v)
          (λ i. ground (arith, keep, one, set)))
        (word_kept g (λ i. sets_flag 2 i (some info) v) (λ i. ground (arith, keep, one, set)))

  second_added :
      (info : FieldTag) (v : Value)
      → info.ignore ≡ false
      → info.version ≡ 2
      → sets info v ≡ true
      → ◌≡◌ {A = Flags}
          (word_of f 32, bit_or (word_of g 32) (2 ^ info.index % 2 ^ 32))
          (added info v)
  second_added info v keep two set =
      both (word_kept f (λ i. sets_flag 1 i (some info) v) (λ i. ground (arith, keep, two, set))) (
        word_or g info.index (λ i. sets_flag 2 i (some info) v)
          (λ i. ground (arith, keep, two, set)))

  none_added :
      (info : FieldTag) (v : Value)
      → ((version i : ℕ) → sets_flag version i (some info) v ≡ false)
      → words ≡ added info v
  none_added info v off =
      both (word_kept f (λ i. sets_flag 1 i (some info) v) (off 1))
        (word_kept g (λ i. sets_flag 2 i (some info) v) (off 2))

  add_flag-words :
      (info : FieldTag) (v : Value)
      → info.ignore ≡ false
      → (info.version ≡ 1) ⊎ (info.version ≡ 2)
      → add_flag words info v ≡ added info v
  unfolding add_flag set_flag
  add_flag-words info v keep version = elim (Bool-cases (sets info v)) [
    | inl set ↦ elim version [
      | inl one ↦ ground (arith, set, one) ∙ first_added info v keep one set
      | inr two ↦ ground (arith, set, two) ∙ second_added info v keep two set
    ]
    | inr off ↦ ground (arith, off) ∙ none_added info v (λ version i. ground (arith, off))
  ]

-- The words from a field on, where the tag of the field is in order.
module _ (layout : Layout) (f g : ℕ → Bool) (fs : List Field) (v : Value) (vs : Values) where
  abbrev Adds : Option FieldTag → Type 0
  Adds tag =
      tag_step layout (words f g) tag fs v vs
      ≡ field_flags layout (with_field f 1 tag v, with_field g 2 tag v) fs vs

  untagged-Adds : Adds none
  untagged-Adds =
      ap (λ flags. field_flags layout flags fs vs) (both (no_bits f g f) (no_bits f g g))

  ignored-Adds : (info : FieldTag) → info.ignore ≡ true → Adds (some info)
  ignored-Adds info skip =
      ground (arith, skip)
      ∙ ap (λ flags. field_flags layout flags fs vs)
          (none_added f g info v (λ version i. ground (arith, skip)))

  tagged-Adds :
      (info : FieldTag)
      → info.ignore ≡ false
      → (info.version ≡ 1) ⊎ (info.version ≡ 2)
      → check_tag layout info v ≡ none
      → Adds (some info)
  tagged-Adds info keep version checked =
      ground (arith, keep, checked)
      ∙ ap (λ flags. field_flags layout flags fs vs) (add_flag-words f g info v keep version)

-- A tag with a word is in order if it is a Boolean's or of no bit alone.
check_tag-none :
    (layout : Layout) (info : FieldTag) (v : Value)
    → no_word layout info ≡ false
    → (info.encoded_in_bitflag ≡ true → is_bool v ≡ true)
    → check_tag layout info v ≡ none
unfolding check_tag
check_tag-none layout info v word bit = elim (Bool-cases info.encoded_in_bitflag) [
  | inl one ↦ rw (word, one, bit one) refl
  | inr two ↦ rw (word, two) refl
]

in_order :
    (layout : Layout) (f g : ℕ → Bool) (fs : List Field) (v : Value) (vs : Values)
    {tag : Option FieldTag} {info : FieldTag} {i : ℕ}
    → tag ≡ some info
    → info.ignore ≡ false
    → (info.version ≡ 1) ⊎ (info.version ≡ 2)
    → Placed layout info i
    → (info.encoded_in_bitflag ≡ true → is_bool v ≡ true)
    → Adds layout f g fs v vs tag
in_order layout f g fs v vs {info = info} tag keep version place bit =
    subst (Adds layout f g fs v vs) (sym tag) (
      tagged-Adds layout f g fs v vs info keep version
        (check_tag-none layout info v place.has_word bit))

module _ (p : Program) where
  field-Adds :
      {r i : ℕ} {places : Places} {flag : ℕ → ℕ → Bool} {x : Field} {v : Value} {b : Bytes}
      (f g : ℕ → Bool) (fs : List Field) (vs : Values)
      → FieldWire p r places flag i x v b
      → Adds (layout_of places) f g fs v vs x.tag
  unfolding is_bool zero_value
  field-Adds {v = v} f g fs vs (untagged {places = places} tag out form) =
      subst (Adds (layout_of places) f g fs v vs) (sym tag)
        (untagged-Adds (layout_of places) f g fs v vs)
  field-Adds {v = v} f g fs vs (left_out {places = places} {info = info} tag skip) =
      subst (Adds (layout_of places) f g fs v vs) (sym tag)
        (ignored-Adds (layout_of places) f g fs v vs info skip)
  field-Adds {v = v} f g fs vs
        (absent {i = i} {places} {f = x} {info = info} tag keep out place off type) =
      in_order (layout_of places) f g fs v vs tag keep (word_versions places info i place)
        (InPlace-Placed places info i place) (λ bit. rw (type bit) refl)
  field-Adds {v = v} f g fs vs
        (by_flag {i = i} {places} {f = x} {info} tag keep out place on bit type) =
      in_order (layout_of places) f g fs v vs tag keep (word_versions places info i place)
        (InPlace-Placed places info i place) (λ bit. refl)
  field-Adds {v = v} f g fs vs
        (present {i = i} {places} {f = x} {info} tag keep out place on bit form) =
      in_order (layout_of places) f g fs v vs tag keep (word_versions places info i place)
        (InPlace-Placed places info i place) (λ bit'. absurd (ground (arith, bit, bit')))

  after_field :
      (h : ℕ → Bool) (version : ℕ) (x : Field) (fs : List Field) (v : Value) (vs : Values)
      → word_of (λ i. (h i || sets_flag version i x.tag v) || flag_of fs vs version i) 32
        ≡ word_of (λ i. h i || flag_of (x ∷ fs) (value v vs) version i) 32
  unfolding flag_of
  after_field h version x fs v vs =
      word_of_same 32 _ _
        λ i q. or_assoc (h i) (sets_flag version i x.tag v) (flag_of fs vs version i)
    where
      or_assoc : (a b c : Bool) → ((a || b) || c) ≡ (a || (b || c))
      or_assoc true b c = refl
      or_assoc false b c = refl

  fields_flags :
      {r i : ℕ} {places : Places} {flag : ℕ → ℕ → Bool} {fs : List Field} {vs : Values} {b : Bytes}
      (f g : ℕ → Bool)
      → FieldsWire p r places flag i fs vs b
      → field_flags (layout_of places) (words f g) fs vs
        ≡ ok
            (word_of (λ i. f i || flag_of fs vs 1 i) 32, word_of (λ i. g i || flag_of fs vs 2 i) 32)
  unfolding field_flags flag_of
  fields_flags f g no_fields = ap ok (both (no_bits f g f) (no_bits f g g))
  fields_flags f g (a_field {places = places} {f = x} {fs} {v} {vs} one more) =
      field-Adds f g fs vs one
      ∙ fields_flags (λ i. f i || sets_flag 1 i x.tag v) (λ i. g i || sets_flag 2 i x.tag v) more
      ∙ ap ok (both (after_field f 1 x fs v vs) (after_field g 2 x fs v vs))

  pub field_flags-FieldsWire :
      {r : ℕ} {places : Places} {flag : ℕ → ℕ → Bool} {fs : List Field} {vs : Values} {b : Bytes}
      → FieldsWire p r places flag 0 fs vs b
      → field_flags (layout_of places) (0, 0) fs vs ≡ ok (words_of (flag_of fs vs))
  unfolding word_of digit
  field_flags-FieldsWire parts = fields_flags (λ i. false) (λ i. false) parts
