-- ===== src/Common/Results.antt =====
-- A returned value or a returned error, and stateful calls that end in one of them.
use mathlib.Core.Path.{◌≡◌, refl, ap}
use mathlib.Core.Logic.{◌⊎◌, inl, inr}
use mathlib.Core.Bool.{Bool, true, false, not, ◌||◌}
use native.Mathlib.Omega.{arith}
use gogram.Common.Tests.{if◌then◌else◌}

pub data Result (E A : Type 0) : Type 0 where
  ok : A → Result E A
  err : E → Result E A

-- A call on the state `S` that ends in a value or an error. The state is kept on an error: what
-- was read or written before it stays read or written.
abbrev pub Run : Type 0 → Type 0 → Type 0 → Type 0
Run S E A = S → S × Result E A

module _ {S E A B : Type 0} where
  abbrev pub after : S × Result E A → (A → Run S E B) → S × Result E B
  after (s, ok a) f = f a s
  after (s, err e) f = (s, err e)

  infixl 5 ◌>>=◌
  abbrev pub ◌>>=◌ : Run S E A → (A → Run S E B) → Run S E B
  ◌>>=◌ m f s = after (m s) f

module _ {S E B : Type 0} where
  infixl 5 ◌>>◌
  abbrev pub ◌>>◌ : Run S E (Unit {0}) → Run S E B → Run S E B
  ◌>>◌ m k s = after (m s) (λ _. k)

module _ {S E : Type 0} where
  abbrev pub pass : {A : Type 0} → A → Run S E A
  pass a s = (s, ok a)

  -- `if !test { return e }`
  abbrev pub guard : Bool → E → Run S E (Unit {0})
  guard true e s = (s, ok tt)
  guard false e s = (s, err e)

module _ {S E A : Type 0} where
  pub outcome_cases :
      (r : S × Result E A)
      → ((s : S) × (a : A) × (r ≡ (s, ok a))) ⊎ ((s : S) × (e : E) × (r ≡ (s, err e)))
  outcome_cases (s, ok a) = inl (s, a, refl)
  outcome_cases (s, err e) = inr (s, e, refl)

module _ {E A : Type 0} where
  -- What an `if` with an error in its first branch returned well came from the other.
  pub else_branch :
      (b : Bool) (e : E) (r : Result E A) {a : A}
      → (if b then err e else r) ≡ ok a
      → (b ≡ false) × (r ≡ ok a)
  else_branch true e r h = ground arith
  else_branch false e r h = (refl, h)

  value_or : A → Result E A → A
  value_or z (ok a) = a
  value_or z (err e) = z

  pub ok_injective : {a b : A} → (let r : Result E A = ok a in r) ≡ ok b → a ≡ b
  unfolding value_or
  ok_injective {a} h = ap (value_or a) h

pub not-false : (b : Bool) → not b ≡ false → b ≡ true
not-false true h = refl
not-false false h = ground arith

-- An `if` whose test is a disjunction was passed.
pub or_false : (a b : Bool) → (a || b) ≡ false → (a ≡ false) × (b ≡ false)
or_false false b h = (refl, h)
or_false true b h = ground arith
