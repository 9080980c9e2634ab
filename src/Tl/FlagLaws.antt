-- ===== src/Tl/FlagLaws.antt =====
-- The values of the flags words.
use gogram.Common.{
  ℕ, zero, suc, ◌==◌, bit_and, bit_or, not, ◌%◌, ◌^◌, ◌<◌, ◌≡◌, true, false, Bool-cases, inl, inr,
  Option, none, some, List, [], ◌∷◌, arith, if◌then◌else◌,
}
use native.Mathlib.Nat.{pow-suc}
use gogram.Common.Bits.{and_or, or_keeps}
use gogram.Common.Results.{Result, ok, err, ok_injective}
use gogram.Tl.Defs.{TlError}
use gogram.Tl.Schema.{FieldTag, Field, Value, Values, no_values, value, is_zero}
use gogram.Tl.Flags.{
  Layout, Flags, set_flag, has_flag, flags_word, check_tag, add_flag, field_flags,
}

-- Both words are 32-bit words.
abbrev pub AreWords : Flags → Type 0
AreWords flags = (flags.0 < 2 ^ 32) × (flags.1 < 2 ^ 32)

-- What the first field adds, and then the others.
abbrev after_tag : Flags → Option FieldTag → Value → Flags
after_tag flags none v = flags
after_tag flags (some info) v = if info.ignore then flags else add_flag flags info v

module _ (layout : Layout) where
  abbrev pub after_check : Option TlError → Result TlError Flags → Result TlError Flags
  after_check o r = elim o [ some x ↦ err x | none ↦ r ]

  after_check-ok :
      (o : Option TlError) (r : Result TlError Flags) {out : Flags}
      → after_check o r ≡ ok out
      → r ≡ ok out
  after_check-ok none r h = h
  after_check-ok (some x) r h = ground arith

  abbrev pub tag_step : Flags → Option FieldTag → List Field → Value → Values → Result TlError Flags
  tag_step flags tag fs v vs = elim tag [
    | none ↦ field_flags layout flags fs vs
    | some info ↦
        if info.ignore
        then field_flags layout flags fs vs
        else after_check (check_tag layout info v)
            (field_flags layout (add_flag flags info v) fs vs)
  ]

  tag_step-ok :
      (flags : Flags) (tag : Option FieldTag) (fs : List Field) (v : Value) (vs : Values)
      {out : Flags}
      → tag_step flags tag fs v vs ≡ ok out
      → field_flags layout (after_tag flags tag v) fs vs ≡ ok out
  tag_step-ok flags none fs v vs h = h
  tag_step-ok flags (some info) fs v vs {out} h = elim (Bool-cases info.ignore) [
    | inl skip ↦ ground (arith, skip)
    | inr keep ↦ ground (arith, keep)
  ]

  pub field_flags-next :
      (flags : Flags) (f : Field) (fs : List Field) (v : Value) (vs : Values) {out : Flags}
      → field_flags layout flags (f ∷ fs) (value v vs) ≡ ok out
      → field_flags layout (after_tag flags f.tag v) fs vs ≡ ok out
  unfolding field_flags
  field_flags-next flags f fs v vs h = tag_step-ok flags f.tag fs v vs h

-- Among the fields of a struct, with its value.
pub data HasField (f : Field) (v : Value) : List Field → Values → Type 0 where
  here : {fs : List Field} {vs : Values} → HasField f v (f ∷ fs) (value v vs)
  there :
      {g : Field} {w : Value} {fs : List Field} {vs : Values}
      → HasField f v fs vs
      → HasField f v (g ∷ fs) (value w vs)

pub two_pow-lt : (k i : ℕ) → i < k → (0 < 2 ^ i) × (2 ^ i < 2 ^ k)
two_pow-lt zero i h = absurd (omega arith)
two_pow-lt (suc zero) zero h = (omega arith, omega arith)
two_pow-lt (suc (suc k)) zero h =
    (omega arith, omega (arith, two_pow-lt (suc k) zero (omega arith), pow-suc 2 (suc k)))
two_pow-lt (suc k) (suc i) h =
    let p = two_pow-lt k i (omega arith) in
    (omega (arith, p, pow-suc 2 i), omega (arith, p, pow-suc 2 i, pow-suc 2 k))

-- A word has the bit `m` after it was or-ed in, and keeps it through others.
has_bit_own : (a m : ℕ) → 0 < m → not (bit_and (bit_or a m) m == 0) ≡ true
has_bit_own a m h = rw (and_or a m) (ground arith)

has_bit_keeps :
    (a x m : ℕ) → not (bit_and a m == 0) ≡ true → not (bit_and (bit_or a x) m == 0) ≡ true
has_bit_keeps a x m h = ground (arith, or_keeps a x m)

set_flag-has_flag :
    (flags : Flags) (info : FieldTag) → info.index < 32 → has_flag (set_flag flags info) info ≡ true
unfolding set_flag has_flag flags_word
set_flag-has_flag (a, b) info h =
    let bound = two_pow-lt 32 info.index h in
    let some_bit : 0 < 2 ^ info.index % 2 ^ 32 = omega (arith, bound) in
    elim (Bool-cases (info.version == 1)) [
      | inl one ↦ rw one (has_bit_own a (2 ^ info.index % 2 ^ 32) some_bit)
      | inr two ↦ rw two (has_bit_own b (2 ^ info.index % 2 ^ 32) some_bit)
    ]

set_flag_keeps :
    (flags : Flags) (other info : FieldTag)
    → has_flag flags info ≡ true
    → has_flag (set_flag flags other) info ≡ true
unfolding set_flag has_flag flags_word
set_flag_keeps (a, b) other info h =
    let bit = 2 ^ info.index % 2 ^ 32 in
    let new = 2 ^ other.index % 2 ^ 32 in
    ground (arith, has_bit_keeps a new bit, has_bit_keeps b new bit)

after_tag_keeps :
    (flags : Flags) (tag : Option FieldTag) (v : Value) (info : FieldTag)
    → has_flag flags info ≡ true
    → has_flag (after_tag flags tag v) info ≡ true
unfolding add_flag
after_tag_keeps flags none v info h = h
after_tag_keeps flags (some other) v info h = ground (arith, set_flag_keeps flags other info h)

module _ (layout : Layout) (info : FieldTag) where
  field_flags_keep :
      (flags : Flags) (fs : List Field) (vs : Values) {out : Flags}
      → has_flag flags info ≡ true
      → field_flags layout flags fs vs ≡ ok out
      → has_flag out info ≡ true
  unfolding field_flags
  field_flags_keep flags [] vs h q = rw⁻¹ (ok_injective q) h
  field_flags_keep flags (f ∷ fs) no_values h q = rw⁻¹ (ok_injective q) h
  field_flags_keep flags (f ∷ fs) (value v vs) h q =
      field_flags_keep (after_tag flags f.tag v) fs vs (after_tag_keeps flags f.tag v info h)
        (field_flags-next layout flags f fs v vs q)

  -- Where the flags of a struct are computed without an error, the flag of each field that is
  -- not ignored, has an index below 32 and is not zero is set, whatever other fields share it.
  pub field_flags-has_flag :
      {f : Field} {v : Value} (flags : Flags) (fs : List Field) (vs : Values) {out : Flags}
      → HasField f v fs vs
      → f.tag ≡ some info
      → info.ignore ≡ false
      → info.index < 32
      → is_zero v ≡ false
      → field_flags layout flags fs vs ≡ ok out
      → has_flag out info ≡ true
  unfolding add_flag set_flag has_flag
  field_flags-has_flag {f} {v} flags _ _ (here {fs = fs} {vs}) tag keep small set q =
      field_flags_keep (after_tag flags f.tag v) fs vs
        (rw (tag, keep, set) (set_flag-has_flag flags info small))
        (field_flags-next layout flags f fs v vs q)
  field_flags-has_flag flags _ _ (there {g} {w} {fs} {vs} rest) tag keep small set q =
      field_flags-has_flag (after_tag flags g.tag w) fs vs rest tag keep small set
        (field_flags-next layout flags g fs w vs q)
