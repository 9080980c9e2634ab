-- ===== src/Tl/Decoder/Clean.antt =====
-- What a call of the decoder without an error took from the input.
use gogram.Common.{
  ℕ, ◌+◌, ◌≡◌, refl, sym, ◌∙◌, Bool, true, false, none, ◌++◌, length, take-append-drop, drop-drop,
  Option-cases, inl, inr, arith, if◌then◌else◌,
}
use mathlib.Core.Path.{subst}
use gogram.Common.Bytes.{Bytes}
use gogram.Tl.Defs.{TlError}
use gogram.Tl.Decoder.{D, or_return, or_wrap, Decoder, rest, read_some, read}
use gogram.Tl.Decoder.Reads.{or_return_ok, or_wrap_ok}

-- A call without an error, also before it, took the bytes `b` from the front of the input.
pub record Took {A : Type 0} (d : Decoder) (r : Decoder × A) (b : Bytes) : Type 0 where
  pub taken : rest d ≡ b ++ rest r.0
  pub same_input : r.0.input ≡ d.input

abbrev pub Clean : {A : Type 0} → Decoder × A → Type 0
Clean r = r.0.err ≡ none

pub read-Took :
    (n : ℕ) (d : Decoder)
    → Clean (read n d)
    → (d.err ≡ none) × (length (read n d).1 ≡ n) × Took d (read n d) (read n d).1
unfolding read read_some
read-Took n d h = (
  ground (arith, h),
  ground (arith, h),
  record {
    taken =
        sym (take-append-drop n (rest d))
        ∙ ground (arith, h, drop-drop n d.at (d.at + n) d.input refl);
    same_input = ground (arith, h);
  },
)

-- What a call without an error says of the call that it ends with.
module _ {A : Type 0} (P : Decoder × A → Type 0) (d : Decoder) where
  pub or_return-Clean :
      (z : A) (k : D A)
      → (d.err ≡ none → Clean (k d) → P (k d))
      → Clean (or_return z k d)
      → P (or_return z k d)
  or_return-Clean z k f = elim (Option-cases d.err) [
    | inl e ↦ subst (λ r. Clean r → P r) (sym (or_return_ok z k d e)) (f e)
    | inr (x, e) ↦ λ h. absurd (ground (arith, h, e))
  ]

  pub or_wrap-Clean :
      (w : TlError → TlError) (z : A) (k : D A)
      → (d.err ≡ none → Clean (k d) → P (k d))
      → Clean (or_wrap w z k d)
      → P (or_wrap w z k d)
  or_wrap-Clean w z k f = elim (Option-cases d.err) [
    | inl e ↦ subst (λ r. Clean r → P r) (sym (or_wrap_ok w z k d e)) (f e)
    | inr (x, e) ↦ λ h. absurd (ground (arith, h, e))
  ]

  pub if-Clean :
      (c : Bool) (m k : D A)
      → (c ≡ true → Clean (m d) → P (m d))
      → (c ≡ false → Clean (k d) → P (k d))
      → Clean ((if c then m else k) d)
      → P ((if c then m else k) d)
  if-Clean true m k f g = f refl
  if-Clean false m k f g = g refl

  pub if_at-Clean :
      (c : Bool) (r s : Decoder × A)
      → (c ≡ true → Clean r → P r)
      → (c ≡ false → Clean s → P s)
      → Clean (if c then r else s)
      → P (if c then r else s)
  if_at-Clean true r s f g = f refl
  if_at-Clean false r s f g = g refl
