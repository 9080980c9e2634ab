-- ===== src/Tl/Unmarshal/Takes.antt =====
-- What the parts of the reflective decoder take from input that starts with a wire form.
use gogram.Common.{
  ℕ, suc, ◌+◌, ◌-◌, ◌%◌, ◌^◌, ◌<◌, ◌≡◌, refl, sym, ap, ◌∙◌, Bool, true, false, not, ◌&&◌,
  Bool-cases, inl, inr, none, ◌++◌, append_assoc, ltb, leb, ◌==◌, arith, if◌then◌else◌, bit_and,
}
use mathlib.Core.Path.{subst}
use gogram.Common.Bytes.{Bytes}
use gogram.Common.Results.{or_false}
use gogram.Tl.Defs.{nesting}
use gogram.Tl.Schema.{FieldTag}
use gogram.Tl.Laid.{laid_wire, Placed}
use gogram.Tl.Flags.{Layout, Flags, flags_word, has_flag}
use gogram.Tl.WireForm.{word_wire}
use gogram.Tl.Decoder.{D, ◌>>=◌, give, fail, Decoder, rest}
use gogram.Tl.Decoder.Reads.{Pops, give-Pops, Pops-bind, or_return_ok, pop_uint-Pops}
use gogram.Tl.Unmarshal.{nested, pop_word_at, pop_flags}

module _ {A : Type 0} where
  -- Where the depth allows a level and the body takes `a` from there, the level takes it.
  pub nested-Pops :
      (z : A) (body : D A) (d : Decoder) {a : A} {more : Bytes}
      → d.err ≡ none
      → d.depth < 128
      → (let d1 : Decoder = record d { depth = d.depth + 1 } in Pops d1 (body d1) a more)
      → Pops d (nested z body d) a more
  unfolding nested
  nested-Pops z body d {a} {more} clean room q =
      let shallow : leb 128 d.depth ≡ false = ground arith in
      subst (λ r. Pops d r a more)
        (sym (
          or_return_ok z
            (λ d.
              if leb 128 d.depth
              then fail nesting z d
              else (let (d', a) = body (record d { depth = d.depth + 1 }) in
                  (record d' { depth = d'.depth - 1 }, a)))
            d clean))
        (rw shallow (record {
          value = q.value;
          no_error = q.no_error;
          left = q.left;
          same_depth = omega (arith, q.same_depth);
        }))

-- The flags words read so far: those that stand before field `i`.
pub record Seen (layout : Layout) (flags : Flags) (i : ℕ) (g : Flags) : Type 0 where
  pub first_word : 0 < layout.words → layout.first < i → g.0 ≡ flags.0
  pub second_word : 1 < layout.words → layout.second < i → g.1 ≡ flags.1

pub none-Seen : (layout : Layout) (flags g : Flags) → Seen layout flags 0 g
none-Seen layout flags g = record {
  first_word = λ h k. absurd (omega arith);
  second_word = λ h k. absurd (omega arith);
}

abbrev next_word : Bool → ℕ → ℕ → ℕ
next_word here w old = if here then w else old

pop_word_at-Pops :
    (here : Bool) (w old : ℕ) (d : Decoder) (more : Bytes)
    → d.err ≡ none
    → w < 2 ^ 32
    → rest d ≡ word_wire here w ++ more
    → Pops d (pop_word_at here old d) (next_word here w old) more
unfolding pop_word_at
pop_word_at-Pops true w old d more clean h arrives = pop_uint-Pops d w more clean h arrives
pop_word_at-Pops false w old d more clean h arrives = give-Pops d old old clean arrives refl

-- The words read after those that stand before field `i`.
abbrev pub next_flags : Layout → Flags → ℕ → Flags → Flags
next_flags layout flags i g = (
  next_word (ltb 0 layout.words && (layout.first == i)) flags.0 g.0,
  next_word (ltb 1 layout.words && (layout.second == i)) flags.1 g.1,
)

pub pop_flags-Pops :
    (layout : Layout) (flags g : Flags) (i : ℕ) (d : Decoder) (more : Bytes)
    → d.err ≡ none
    → flags.0 < 2 ^ 32
    → flags.1 < 2 ^ 32
    → rest d ≡ laid_wire layout flags i ++ more
    → Pops d (pop_flags layout g i d) (next_flags layout flags i g) more
unfolding pop_flags
pop_flags-Pops layout (a, b) (c, e) i d more clean small small' arrives =
    let first = ltb 0 layout.words && (layout.first == i) in
    let second = ltb 1 layout.words && (layout.second == i) in
    Pops-bind d (pop_word_at first c) (λ a'. pop_word_at second e >>= λ b'. give (a', b'))
      (pop_word_at-Pops first a c d (word_wire second b ++ more) clean small
        (arrives ∙ append_assoc (word_wire first a) (word_wire second b) more))
      λ d1 clean1 arrives1.
        Pops-bind d1 (pop_word_at second e) (λ b'. give (next_word first a c, b'))
          (pop_word_at-Pops second b e d1 more clean1 small' arrives1)
          λ d2 clean2 left. give-Pops d2 _ _ clean2 left refl

pub next_flags-Seen :
    (layout : Layout) (flags g : Flags) (i : ℕ)
    → Seen layout flags i g
    → Seen layout flags (suc i) (next_flags layout flags i g)
next_flags-Seen layout (a, b) (c, e) i seen = record {
  first_word = λ h k. ground (arith, seen.first_word);
  second_word = λ h k. ground (arith, seen.second_word);
}

-- A flag that was read is that which was written.
pub has_flag-Seen :
    (layout : Layout) (flags g : Flags) (i : ℕ) (info : FieldTag)
    → Seen layout flags (suc i) g
    → Placed layout info i
    → has_flag g info ≡ has_flag flags info
unfolding has_flag flags_word
has_flag-Seen layout (a, b) (c, e) i info seen place =
    let valid = or_false (ltb info.version 1) (ltb layout.words info.version) place.has_word in
    let same : (if info.version == 1 then c else e) ≡ (if info.version == 1 then a else b) =
      elim (Bool-cases (info.version == 1)) [
        | inl one ↦ rw (one, seen.first_word (ground arith) (ground arith)) refl
        | inr two ↦ rw (two, seen.second_word (ground arith) (ground arith)) refl
      ] in
    ap {B = Bool} (λ (w : ℕ). not (bit_and w (2 ^ info.index % 2 ^ 32) == 0)) same
