-- ===== src/Tl/BigInts/Laws.antt =====
-- `BigIntBytes` is the fixed-width notation of a number, and `SetBytes` its inverse.
use gogram.Common.{
  ℕ, zero, suc, ◌+◌, ◌-◌, ◌*◌, ◌/◌, ◌%◌, ◌^◌, ◌≤◌, ◌<◌, ◌≡◌, refl, sym, ap, ◌∙◌, Bool, true, false,
  [], ◌∷◌, ◌++◌, append_assoc, append-nil, length, length-append, replicate, ◌==◌, ge→ltb, arith,
  some,
}
use native.Mathlib.Nat.{pow-suc, zero-div, div-div-eq-div-mul}
use gogram.Common.Bytes.{Bytes, be_bytes}
use gogram.Common.Int.{pos}
use gogram.Common.Results.{ok}
use gogram.Tl.BigInts.{
  magnitude_within, magnitude, set_bytes, bit_lengths, is_bit_length, big_int_bytes,
}

be_bytes_last : (k v : ℕ) → be_bytes (suc k) v ≡ be_bytes k (v / 256) ++ (v % 256 ∷ [])
unfolding be_bytes
be_bytes_last zero v = let whole : v / 1 ≡ v = omega arith in rw whole refl
be_bytes_last (suc k) v =
    let shift : v / 256 ^ suc k ≡ v / 256 / 256 ^ k =
      ap (λ (n : ℕ). v / n) (pow-suc 256 k ∙ omega arith)
      ∙ sym (div-div-eq-div-mul v 256 (256 ^ k)) in
    rw shift (ap (◌∷◌ (v / 256 / 256 ^ k % 256)) (be_bytes_last k v))

be_bytes_zero : (k : ℕ) → be_bytes k 0 ≡ replicate k 0
unfolding be_bytes
be_bytes_zero zero = refl
be_bytes_zero (suc k) =
    let none_left : 0 / 256 ^ k ≡ 0 = zero-div (256 ^ k) in
    rw none_left (ap (◌∷◌ 0) (be_bytes_zero k))

zero_padded : (k : ℕ) → replicate (k - 0) 0 ++ [] ≡ be_bytes k 0
zero_padded k =
    let whole : k - 0 ≡ k = omega arith in
    rw whole (append-nil (replicate k 0) ∙ sym (be_bytes_zero k))

magnitude_step :
    (fuel v : ℕ)
    → magnitude_within (suc fuel) (suc v)
      ≡ magnitude_within fuel (suc v / 256) ++ (suc v % 256 ∷ [])
unfolding magnitude_within
magnitude_step fuel v =
    let not_zero : (suc v == 0) ≡ false = ground arith in
    ap {B = Bytes}
      (λ (t : Bool). elim t [
        | true ↦ []
        | false ↦ magnitude_within fuel (suc v / 256) ++ (suc v % 256 ∷ [])
      ])
      not_zero

-- The padded magnitude, at every width that the number fits.
pub padded :
    (fuel k v : ℕ)
    → v ≤ fuel
    → v < 256 ^ k
    → (length (magnitude_within fuel v) ≤ k)
      × (replicate (k - length (magnitude_within fuel v)) 0 ++ magnitude_within fuel v
          ≡ be_bytes k v)
unfolding magnitude_within
padded zero k zero h small = (omega arith, zero_padded k)
padded zero k (suc v) h small = absurd (omega arith)
padded (suc fuel) k zero h small = (omega arith, zero_padded k)
padded (suc fuel) zero (suc v) h small = absurd (omega arith)
padded (suc fuel) (suc k) (suc v) h small =
    let high = magnitude_within fuel (suc v / 256) in
    let low : Bytes = suc v % 256 ∷ [] in
    let ih = padded fuel k (suc v / 256) (omega arith) (omega (arith, pow-suc 256 k)) in
    let size = length-append high low in
    let gap : suc k - length (high ++ low) ≡ k - length high = omega (arith, size, ih.0) in
    rw (magnitude_step fuel v, gap)
      (
        omega (arith, size, ih.0),
        sym (append_assoc (replicate (k - length high) 0) high low)
            ∙ ap (λ (x : Bytes). x ++ low) ih.1
            ∙ sym (be_bytes_last k (suc v)),
      )

-- At a width in bits that is a power of two from 8 to 2048, every number that fits it has a
-- notation without an error: its bytes, the highest first.
pub big_int_bytes_lem :
    (v bit_size : ℕ)
    → is_bit_length bit_lengths bit_size ≡ true
    → v < 256 ^ (bit_size / 8)
    → big_int_bytes (some (pos v)) bit_size ≡ ok (be_bytes (bit_size / 8) v)
unfolding big_int_bytes
big_int_bytes_lem v bit_size known small =
    let p = padded v (bit_size / 8) v (omega arith) small in
    let fits = ge→ltb (bit_size / 8) (length (magnitude v)) p.0 in rw (known, fits) (ap ok p.1)

set_bytes_last :
    (a : ℕ) (bs : Bytes) (b : ℕ) → set_bytes a (bs ++ (b ∷ [])) ≡ set_bytes a bs * 256 + b
unfolding set_bytes
set_bytes_last a [] b = refl
set_bytes_last a (x ∷ xs) b = set_bytes_last (a * 256 + x) xs b

pub set_bytes-be_bytes : (k v : ℕ) → v < 256 ^ k → set_bytes 0 (be_bytes k v) ≡ v
set_bytes-be_bytes zero v h = unfold set_bytes be_bytes in omega arith
set_bytes-be_bytes (suc k) v h =
    ap (set_bytes 0) (be_bytes_last k v)
    ∙ set_bytes_last 0 (be_bytes k (v / 256)) (v % 256)
    ∙ omega (arith, set_bytes-be_bytes k (v / 256) (omega (arith, pow-suc 256 k)))
