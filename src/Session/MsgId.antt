-- ===== src/Session/MsgId.antt =====
-- internal/utils/utils.go: NewMsgIDGenerator. An `int64` is its word of 64 bits, in two's
-- complement; the clock is a parameter, `now` its nanoseconds, offset included, after 1970.
use gogram.Common.{
  ℕ, ◌+◌, ◌-◌, ◌*◌, ◌/◌, ◌%◌, ◌^◌, ◌≤◌, ◌<◌, ◌≡◌, refl, sym, ap, ◌∙◌, Bool, true, false, not,
  bit_or, Bool-cases, inl, inr, length, List, [], ◌∷◌, All, ltb, ◌==◌, ==_iff, if◌then◌else◌, arith,
}
use mathlib.Core.Path.{subst}
use gogram.Common.Bits.{or_fields}

abbrev pub second : ℕ
second = 10 ^ 9

-- `a <= b` of `int64`
unfoldable pub le_int64 : ℕ → ℕ → Bool
le_int64 a b = not (ltb ((b + 2 ^ 63) % 2 ^ 64) ((a + 2 ^ 63) % 2 ^ 64))

pub record Generator : Type 0 where
  pub last_msg_id : ℕ
  pub last_time_offset : ℕ

abbrev pub new_msg_id_generator : Generator
new_msg_id_generator = record { last_msg_id = 0; last_time_offset = 0 }

-- `(nowSec << 32) | nowNano`, where `& -4` clears the two low bits.
unfoldable pub clock_id : ℕ → ℕ
clock_id now =
    let now_sec = now / second in
    let now_nano = now % second / 4 * 4 in bit_or (now_sec * 2 ^ 32 % 2 ^ 64) now_nano

unfoldable pub at_offset : ℕ → Generator → Generator
at_offset time_offset g =
    if not (time_offset == g.last_time_offset)
    then record { last_msg_id = 0; last_time_offset = time_offset }
    else g

unfoldable pub advance : ℕ → Generator → Generator × ℕ
advance now g =
    let msg_id =
      if le_int64 (clock_id now) g.last_msg_id
      then (g.last_msg_id + 4) % 2 ^ 64
      else clock_id now in
    (record g { last_msg_id = msg_id }, msg_id)

unfoldable pub next_msg_id : ℕ → ℕ → Generator → Generator × ℕ
next_msg_id time_offset now g = advance now (at_offset time_offset g)

-- The ids for the readings of the clock, one call after the other.
unfoldable pub msg_ids : ℕ → List ℕ → Generator → List ℕ
msg_ids time_offset [] g = []
msg_ids time_offset (now ∷ nows) g =
    let (g', id) = next_msg_id time_offset now g in id ∷ msg_ids time_offset nows g'

clock_id-value :
    (now : ℕ) → now < 2 ^ 31 * second → clock_id now ≡ now / second * 2 ^ 32 + now % second / 4 * 4
unfolding clock_id
clock_id-value now h =
    let fits : now / second * 2 ^ 32 % 2 ^ 64 ≡ now / second * 2 ^ 32 = omega arith in
    rw fits (or_fields 32 (now / second) (now % second / 4 * 4) (omega arith))

le_int64-le : (a b : ℕ) → a < 2 ^ 63 → b < 2 ^ 63 → le_int64 a b ≡ true → a ≤ b
unfolding le_int64
le_int64-le a b h k e = ground arith

le_int64-gt : (a b : ℕ) → a < 2 ^ 63 → b < 2 ^ 63 → le_int64 a b ≡ false → b < a
unfolding le_int64
le_int64-gt a b h k e = ground arith

-- The largest id of the clock before 2038.
abbrev top : ℕ
top = 2 ^ 63 - 2 ^ 32 + 2 ^ 30

-- What a call returns, where the last id was at most `bound`.
record Next (now bound : ℕ) (g : Generator) (r : Generator × ℕ) : Type 0 where
  pub kept : r.0.last_msg_id ≡ r.1
  pub same_offset : r.0.last_time_offset ≡ g.last_time_offset
  pub greater : g.last_msg_id < r.1
  pub multiple : r.1 % 4 ≡ 0
  pub of_clock : clock_id now ≤ r.1
  pub bounded : r.1 ≤ bound + 4

advance-Next :
    (now bound : ℕ) (g : Generator)
    → now < 2 ^ 31 * second
    → g.last_msg_id ≤ bound
    → top ≤ bound
    → bound < 2 ^ 63 - 4
    → g.last_msg_id % 4 ≡ 0
    → Next now bound g (advance now g)
unfolding advance
advance-Next now bound g h k t l m =
    let v = clock_id-value now h in
    let small : clock_id now < 2 ^ 63 = omega arith in
    let low : clock_id now ≤ top = omega arith in
    let whole : clock_id now % 4 ≡ 0 = omega arith in
    let step : (g.last_msg_id + 4) % 2 ^ 64 ≡ g.last_msg_id + 4 = omega arith in
    elim (Bool-cases (le_int64 (clock_id now) g.last_msg_id)) [
      | inl behind ↦
          (let order = le_int64-le (clock_id now) g.last_msg_id small (omega arith) behind in
            rw (behind, step)
              record {
                kept = refl;
                same_offset = refl;
                greater = omega arith;
                multiple = omega arith;
                of_clock = omega arith;
                bounded = omega arith;
              })
      | inr ahead ↦
          (let order = le_int64-gt (clock_id now) g.last_msg_id small (omega arith) ahead in
            rw ahead record {
              kept = refl;
              same_offset = refl;
              greater = order;
              multiple = whole;
              of_clock = omega arith;
              bounded = omega arith;
            })
    ]

-- Above `last`, growing, and multiples of four.
unfoldable pub Increasing : ℕ → List ℕ → Type 0
Increasing last [] = Unit {0}
Increasing last (id ∷ ids) = (last < id) × (id % 4 ≡ 0) × Increasing id ids

at_same_offset :
    (time_offset : ℕ) (g : Generator)
    → g.last_time_offset ≡ time_offset
    → at_offset time_offset g ≡ g
unfolding at_offset
at_same_offset time_offset g h = rw h (ground arith)

Increasing-msg_ids :
    (time_offset : ℕ) (nows : List ℕ) (bound : ℕ) (g : Generator)
    → All (λ now. now < 2 ^ 31 * second) nows
    → g.last_time_offset ≡ time_offset
    → g.last_msg_id ≤ bound
    → top ≤ bound
    → bound + 4 * length nows < 2 ^ 63
    → g.last_msg_id % 4 ≡ 0
    → Increasing g.last_msg_id (msg_ids time_offset nows g)
unfolding msg_ids next_msg_id Increasing
Increasing-msg_ids time_offset [] bound g fit o k t l m = tt
Increasing-msg_ids time_offset (now ∷ nows) bound g (fit, fits) o k t l m =
    let q = advance-Next now bound g fit k t (omega arith) m in
    let g' = (advance now g).0 in
    let rest =
      Increasing-msg_ids time_offset nows (bound + 4) g' fits (q.same_offset ∙ o)
        (omega (arith, q.kept, q.bounded)) (omega arith) (omega arith)
        (omega (arith, q.kept, q.multiple)) in
    rw (at_same_offset time_offset g o) (
      q.greater,
      q.multiple,
      subst (λ last. Increasing last (msg_ids time_offset nows g')) q.kept rest,
    )

abbrev reset : ℕ → Generator
reset time_offset = record { last_msg_id = 0; last_time_offset = time_offset }

-- The first call takes its offset over.
starts :
    (time_offset : ℕ) → at_offset time_offset (reset 0) ≡ at_offset time_offset (reset time_offset)
unfolding at_offset
starts time_offset = elim (Bool-cases (time_offset == 0)) [
  | inl same ↦
      (let zero_offset = (==_iff time_offset 0).0 same in
        ap (λ o. at_offset time_offset (reset o)) (sym zero_offset))
  | inr other ↦ rw other (sym (at_same_offset time_offset (reset time_offset) refl))
]

first_call :
    (time_offset : ℕ) (nows : List ℕ)
    → msg_ids time_offset nows (reset 0) ≡ msg_ids time_offset nows (reset time_offset)
unfolding msg_ids next_msg_id
first_call time_offset [] = refl
first_call time_offset (now ∷ nows) =
    ap (λ g. (advance now g).1 ∷ msg_ids time_offset nows (advance now g).0) (starts time_offset)

-- For every offset, and fewer than 2^29 readings of the clock before the year 2038, in any order
-- (the clock may stand still or go back): a new generator gives ids that grow strictly and are
-- multiples of four.
pub msg_ids-Increasing :
    (time_offset : ℕ) (nows : List ℕ)
    → All (λ now. now < 2 ^ 31 * second) nows
    → length nows < 2 ^ 29
    → Increasing 0 (msg_ids time_offset nows new_msg_id_generator)
msg_ids-Increasing time_offset nows fits few =
    subst (λ ids. Increasing 0 ids) (sym (first_call time_offset nows))
      (Increasing-msg_ids time_offset nows top (reset time_offset) fits refl (omega arith)
        (omega arith) (omega arith) (omega arith))
