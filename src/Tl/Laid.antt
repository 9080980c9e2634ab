-- ===== src/Tl/Laid.antt =====
-- The flags words of the wire form as the encoder computes them: their places, their values, the
-- bytes in front of a field, and the test of a flag.
use gogram.Common.{
  ℕ, ◌≤◌, ◌≡◌, refl, Bool, false, ◌&&◌, Option, inl, inr, ◌⊎◌, ◌==◌, ltb, append-nil, ◌++◌, arith,
  if◌then◌else◌,
}
use gogram.Common.Bytes.{Bytes}
use gogram.Common.Int.{ℤ}
use gogram.Common.Results.{ok}
use gogram.Tl.Schema.{FieldTag, StructType}
use gogram.Tl.Flags.{Layout, flag_layout, outside, Flags, flags_word, has_flag, no_word}
use gogram.Tl.FlagWords.{word_of-and, word_of-lt}
use gogram.Tl.FlagLaws.{AreWords}
use gogram.Tl.WireForm.{
  Places, no_words, one_word, two_words, HasPlaces, none_declared, one_declared, two_declared,
  second_declared, word_place, word_of, is_set, word_wire, flags_wire, InPlace,
}

-- The flags words in front of field `i`, by a layout.
abbrev pub laid_wire : Layout → Flags → ℕ → Bytes
laid_wire layout flags i =
    word_wire (ltb 0 layout.words && (layout.first == i)) flags.0
    ++ word_wire (ltb 1 layout.words && (layout.second == i)) flags.1

-- A tag whose flags word exists and stands at field `i` or before it, by a layout.
pub record Placed (layout : Layout) (info : FieldTag) (i : ℕ) : Type 0 where
  pub has_word : no_word layout info ≡ false
  pub read_before : (if info.version == 1 then layout.first else layout.second) ≤ i

abbrev pub layout_of : Places → Layout
layout_of no_words = record { first = 0; second = 0; words = 0 }
layout_of (one_word a) = record { first = a; second = 0; words = 1 }
layout_of (two_words a b) = record { first = a; second = b; words = 2 }

abbrev pub words_of : (ℕ → ℕ → Bool) → Flags
words_of flag = (word_of (flag 1) 32, word_of (flag 2) 32)

pub words_of-AreWords : (flag : ℕ → ℕ → Bool) → AreWords (words_of flag)
words_of-AreWords flag = (word_of-lt 32 (flag 1), word_of-lt 32 (flag 2))

pub flags_wire-laid :
    (places : Places) (flag : ℕ → ℕ → Bool) (i : ℕ)
    → laid_wire (layout_of places) (words_of flag) i ≡ flags_wire places flag i
unfolding flags_wire
flags_wire-laid no_words flag i = refl
flags_wire-laid (one_word a) flag i = append-nil (word_wire (a == i) (word_of (flag 1) 32))
flags_wire-laid (two_words a b) flag i = refl

laid_out :
    (st : StructType) {a b : Option ℤ} {n : ℕ} {places : Places}
    → HasPlaces a b n places
    → st.flag_index ≡ a
    → st.flag_index2 ≡ b
    → flag_layout st n ≡ ok (layout_of places)
unfolding flag_layout outside
laid_out st none_declared p q = ground (arith, p, q)
laid_out st (one_declared h) p q = ground (arith, p, q)
laid_out st (two_declared h k) p q = ground (arith, p, q)
laid_out st (second_declared h) p q = ground (arith, p, q)

pub flag_layout-HasPlaces :
    (st : StructType) {n : ℕ} {places : Places}
    → HasPlaces st.flag_index st.flag_index2 n places
    → flag_layout st n ≡ ok (layout_of places)
flag_layout-HasPlaces st placed = laid_out st placed refl refl

pub InPlace-Placed :
    (places : Places) (info : FieldTag) (i : ℕ)
    → InPlace places info i
    → Placed (layout_of places) info i
unfolding word_place
InPlace-Placed no_words info i place = absurd (ground (arith, place.has_word))
InPlace-Placed (one_word a) info i place = record {
  has_word = ground (arith, place.has_word);
  read_before = ground (arith, place.has_word, place.read_before);
}
InPlace-Placed (two_words a b) info i place = record {
  has_word = ground (arith, place.has_word);
  read_before = ground (arith, place.has_word, place.read_before);
}

-- A word is that of version 1 or of version 2.
pub word_versions :
    (places : Places) (info : FieldTag) (i : ℕ)
    → InPlace places info i
    → (info.version ≡ 1) ⊎ (info.version ≡ 2)
unfolding word_place
word_versions no_words info i place = absurd (ground (arith, place.has_word))
word_versions (one_word a) info i place = ground (arith, place.has_word)
word_versions (two_words a b) info i place = ground (arith, place.has_word)

pub has_flag-words :
    (places : Places) (flag : ℕ → ℕ → Bool) (info : FieldTag) (i : ℕ)
    → InPlace places info i
    → has_flag (words_of flag) info ≡ is_set flag info
unfolding has_flag flags_word
has_flag-words places flag info i place = elim (word_versions places info i place) [
  | inl one ↦ rw one (word_of-and (flag 1) info.index)
  | inr two ↦ rw two (word_of-and (flag 2) info.index)
]
