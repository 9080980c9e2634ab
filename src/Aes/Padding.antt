-- ===== src/Aes/Padding.antt =====
-- internal/aes_ige/aes_common.go: the PKCS#5 padding of `EncryptAES` and `DecryptAES`, for blocks
-- of at most 255 bytes.
use gogram.Common.{
  ℕ, ◌+◌, ◌-◌, ◌%◌, ◌^◌, ◌≡◌, ◌≤◌, ◌<◌, refl, sym, ap, ◌∙◌, Bool, true, false, not, ◌||◌, Option,
  none, some, [], ◌∷◌, ◌++◌, length, length-append, get_or-append_right, get_or-replicate,
  length-replicate, take, drop, take_prefix, drop_prefix, replicate, get_or, zero, suc, ltb, ge→ltb,
  ◌==◌, if◌then◌else◌, arith,
}
use native.Mathlib.Nat.{mod-add-mod, mod-lt, mod_self}
use gogram.Common.Bytes.{Bytes}

unfoldable pub pkcs5_padding : Bytes → ℕ → Bytes
pkcs5_padding ciphertext block_size =
    let padding = block_size - length ciphertext % block_size in
    ciphertext ++ replicate padding (padding % 2 ^ 8)

-- The loop over the bytes of the padding.
unfoldable pub all_are : ℕ → Bytes → Bool
all_are pad [] = true
all_are pad (b ∷ bs) = if not (b == pad) then false else all_are pad bs

unfoldable pub strip : Bytes → ℕ → ℕ → Option Bytes
strip input block_size pad =
    let size = length input in
    if (ltb pad 1 || ltb block_size pad) || ltb size pad
    then none
    else if all_are pad (drop (size - pad) input)
    then some (take (size - pad) input)
    else none

unfoldable pub pkcs5_un_padding : Bytes → ℕ → Option Bytes
pkcs5_un_padding input block_size =
    let size = length input in
    if (size == 0) || not (size % block_size == 0)
    then none
    else strip input block_size (get_or input (size - 1) 0)

all_are-replicate : (n pad : ℕ) → all_are pad (replicate n pad) ≡ true
unfolding all_are
all_are-replicate zero pad = refl
all_are-replicate (suc n) pad = rw (all_are-replicate n pad) ground arith

module _ (input : Bytes) (pad : ℕ) where
  abbrev padded : Bytes
  padded = input ++ replicate pad pad

  size_less : length padded - pad ≡ length input
  size_less =
      let size : length (replicate pad pad) ≡ pad = length-replicate pad pad in
      omega (arith, length-append input (replicate pad pad))

  pad_fits : pad ≤ length padded
  pad_fits =
      let size : length (replicate pad pad) ≡ pad = length-replicate pad pad in
      omega (arith, length-append input (replicate pad pad))

  strip-padded :
      (block_size : ℕ) → 0 < pad → pad ≤ block_size → strip padded block_size pad ≡ some input
  unfolding strip
  strip-padded block_size p q =
      rw
        (
          size_less,
          drop_prefix (length input) input (replicate pad pad) refl,
          take_prefix (length input) input (replicate pad pad) refl,
          all_are-replicate pad pad,
          ge→ltb pad 1 p,
          ge→ltb block_size pad q,
          ge→ltb (length padded) pad pad_fits,
        )
        refl

last_of :
    (xs : Bytes) (n b : ℕ)
    → 0 < n
    → get_or (xs ++ replicate n b) (length (xs ++ replicate n b) - 1) 0 ≡ b
last_of xs n b h =
    let size : length (replicate n b) ≡ n = length-replicate n b in
    let at : length (xs ++ replicate n b) - 1 ≡ length xs + (n - 1) =
      omega (arith, length-append xs (replicate n b)) in
    ap (λ i. get_or (xs ++ replicate n b) i 0) at
    ∙ get_or-append_right xs (replicate n b) (n - 1) 0
    ∙ get_or-replicate n (n - 1) b 0 (omega arith)

-- The padding fills the last block up.
fills :
    (size block_size : ℕ)
    → 0 < block_size
    → (size + (block_size - size % block_size)) % block_size ≡ 0
fills size block_size p =
    sym (mod-add-mod size block_size (block_size - size % block_size))
    ∙ ap (λ n. n % block_size) (omega (arith, mod-lt size p))
    ∙ mod_self block_size

un_padding_lem :
    (input : Bytes) (block_size pad : ℕ)
    → 0 < pad
    → pad ≤ block_size
    → length (input ++ replicate pad pad) % block_size ≡ 0
    → pkcs5_un_padding (input ++ replicate pad pad) block_size ≡ some input
unfolding pkcs5_un_padding
un_padding_lem input block_size pad p q whole =
    let some_bytes : (length (input ++ replicate pad pad) == 0) ≡ false =
      ground (arith, pad_fits input pad) in
    rw (some_bytes, whole, last_of input pad pad p) (strip-padded input pad block_size p q)

-- For blocks of 1 to 255 bytes, `pkcs5Padding` gives a whole number of blocks, and
-- `pkcs5UnPadding` takes the padding off again, whatever the input.
pub pkcs5_un_padding-pkcs5_padding :
    (input : Bytes) (block_size : ℕ)
    → 0 < block_size
    → block_size < 256
    → (length (pkcs5_padding input block_size) % block_size ≡ 0)
      × (pkcs5_un_padding (pkcs5_padding input block_size) block_size ≡ some input)
unfolding pkcs5_padding
pkcs5_un_padding-pkcs5_padding input block_size p q =
    let pad = block_size - length input % block_size in
    let below = mod-lt (length input) p in
    let byte : pad % 256 ≡ pad = omega arith in
    let size : length (input ++ replicate pad pad) ≡ length input + pad =
      omega (arith, length-append input (replicate pad pad), length-replicate pad pad) in
    let whole : length (input ++ replicate pad pad) % block_size ≡ 0 =
      ap (λ n. n % block_size) size ∙ fills (length input) block_size p in
    rw byte (whole, un_padding_lem input block_size pad (omega arith) (omega arith) whole)
