-- ===== src/Session/Backoff.antt =====
-- mtproto.go: reconnectDelay. Durations are nanoseconds.
use gogram.Common.{
  ℕ, zero, suc, ◌*◌, ◌/◌, ◌^◌, ◌≤◌, ◌<◌, ◌≡◌, sym, ap, ◌∙◌, not, min, ltb, ltb→lt, ltb→ge,
  Bool-cases, inl, inr, if◌then◌else◌, arith,
}
use gogram.Common.Int.{ℤ, pos, negsuc}
use native.Mathlib.Nat.{pow-succ', mul_assoc}

-- `if d <= 0 { d = other }`
unfoldable pub or_default : ℤ → ℕ → ℕ
or_default (pos (suc n)) other = suc n
or_default (pos zero) other = other
or_default (negsuc n) other = other

abbrev pub second : ℕ
second = 10 ^ 9

abbrev pub default_base_reconnect_delay : ℕ
default_base_reconnect_delay = 2 * second

abbrev pub default_maximum : ℕ
default_maximum = 15 * 60 * second

-- The loop, with the rounds that are left.
unfoldable pub double_loop : ℕ → ℕ → ℕ → ℕ
double_loop zero maximum delay = delay
double_loop (suc rounds) maximum delay =
    let rest = double_loop rounds maximum (delay * 2) in
    if not (ltb delay maximum) then delay else if ltb (maximum / 2) delay then maximum else rest

unfoldable pub reconnect_delay : ℤ → ℤ → ℕ → ℕ
reconnect_delay base maximum attempt =
    let b = or_default base default_base_reconnect_delay in
    let m = or_default maximum default_maximum in double_loop attempt m (min b m)

-- Doubling without a bound.
abbrev doubled : ℕ → ℕ → ℕ
doubled rounds delay = delay * 2 ^ rounds

doubled-suc : (rounds delay : ℕ) → doubled (suc rounds) delay ≡ doubled rounds (delay * 2)
doubled-suc rounds delay =
    ap (λ p. delay * p) (pow-succ' 2 rounds) ∙ sym (mul_assoc delay 2 (2 ^ rounds))

le_doubled : (rounds delay : ℕ) → delay ≤ doubled rounds delay
le_doubled zero delay = omega arith
le_doubled (suc rounds) delay =
    omega (arith, le_doubled rounds (delay * 2), doubled-suc rounds delay)

double_loop_lem :
    (rounds maximum delay : ℕ)
    → delay ≤ maximum
    → double_loop rounds maximum delay ≡ min (doubled rounds delay) maximum
unfolding double_loop
double_loop_lem zero maximum delay h = omega arith
double_loop_lem (suc rounds) maximum delay h =
    let same = doubled-suc rounds delay in
    let more = le_doubled rounds (delay * 2) in
    elim (Bool-cases (ltb delay maximum)) [
      | inr full ↦ (let at_end = ltb→ge delay maximum full in rw full (omega arith))
      | inl below ↦ elim (Bool-cases (ltb (maximum / 2) delay)) [
        | inl over ↦ (let over' = ltb→lt (maximum / 2) delay over in rw (below, over) (omega arith))
        | inr under ↦
            (let under' = ltb→ge (maximum / 2) delay under in
              rw (below, under)
                (double_loop_lem rounds maximum (delay * 2) (omega arith)
                  ∙ ap (λ d. min d maximum) (sym same)))
      ]
    ]

min-doubled : (rounds b m : ℕ) → min (doubled rounds (min b m)) m ≡ min (doubled rounds b) m
min-doubled rounds b m = elim (Bool-cases (ltb b m)) [
  | inl less ↦
      (let same : min b m ≡ b = omega (arith, ltb→lt b m less) in
        ap (λ d. min (doubled rounds d) m) same)
  | inr more ↦
      (let same : min b m ≡ m = omega (arith, ltb→ge b m more) in
        let big = ltb→ge b m more in
        ap (λ d. min (doubled rounds d) m) same
        ∙ omega (arith, le_doubled rounds m, le_doubled rounds b))
]

or_default-pos : (d : ℤ) (other : ℕ) → 0 < other → 0 < or_default d other
unfolding or_default
or_default-pos (pos (suc n)) other h = omega arith
or_default-pos (pos zero) other h = h
or_default-pos (negsuc n) other h = h

-- For every base, maximum and number of the attempt, `reconnectDelay` gives the base (or the
-- default, if it is not positive) doubled for each attempt, or the maximum where that is less;
-- so no delay is zero.
pub reconnect_delay_lem :
    (base maximum : ℤ) (attempt : ℕ)
    → (reconnect_delay base maximum attempt
        ≡ min
            (or_default base default_base_reconnect_delay * 2 ^ attempt)
            (or_default maximum default_maximum))
      × (0 < reconnect_delay base maximum attempt)
unfolding reconnect_delay
reconnect_delay_lem base maximum attempt =
    let b = or_default base default_base_reconnect_delay in
    let m = or_default maximum default_maximum in
    let loop = double_loop_lem attempt m (min b m) (omega arith) in
    let positive_b = or_default-pos base default_base_reconnect_delay (omega arith) in
    let positive_m = or_default-pos maximum default_maximum (omega arith) in
    let value = loop ∙ min-doubled attempt b m in
    (value, omega (arith, value, le_doubled attempt b))
