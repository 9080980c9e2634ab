-- ===== src/Tl/BigInts.antt =====
-- internal/encoding/tl/utils.go (`BigIntBytes`) and common_types.go: `Int128` and `Int256`. A
-- `*big.Int` is nil or an integer; its `Bytes` and `SetBytes` are those of math/big.
pub mod Laws
use gogram.Common.{
  ℕ, zero, suc, ◌+◌, ◌-◌, ◌*◌, ◌/◌, ◌%◌, Bool, true, false, ◌||◌, Option, none, some, List, [], ◌∷◌,
  ◌++◌, length, replicate, ltb, ◌==◌, if◌then◌else◌,
}
use gogram.Common.Bytes.{Bytes}
use gogram.Common.Int.{ℤ, pos, negsuc}
use gogram.Common.Results.{Result, ok, err}
use gogram.Io.{Writer}
use gogram.Tl.Defs.{TlError, not_natural, unknown_bit_size, big_too_large, int128_len, int256_len}
use gogram.Tl.Encoder.{Encoder, put_raw_bytes}

-- The bytes of a number, the highest first and none for 0.
unfoldable pub magnitude_within : ℕ → ℕ → Bytes
magnitude_within zero v = []
magnitude_within (suc fuel) v = elim (v == 0) [
  | true ↦ []
  | false ↦ magnitude_within fuel (v / 256) ++ (v % 256 ∷ [])
]

abbrev pub magnitude : ℕ → Bytes
magnitude v = magnitude_within v v

-- `SetBytes`.
unfoldable pub set_bytes : ℕ → Bytes → ℕ
set_bytes v [] = v
set_bytes v (b ∷ bs) = set_bytes (v * 256 + b) bs

abbrev pub bit_lengths : List ℕ
bit_lengths = 8 ∷ 16 ∷ 32 ∷ 64 ∷ 128 ∷ 256 ∷ 512 ∷ 1024 ∷ 2048 ∷ []

unfoldable pub is_bit_length : List ℕ → ℕ → Bool
is_bit_length [] n = false
is_bit_length (x ∷ xs) n = (n == x) || is_bit_length xs n

-- `append(make([]byte, offset), vbytes...)`
unfoldable pub big_int_bytes : Option ℤ → ℕ → Result TlError Bytes
big_int_bytes none bit_size = err not_natural
big_int_bytes (some (negsuc n)) bit_size = err not_natural
big_int_bytes (some (pos v)) bit_size =
    let vbytes = magnitude v in
    if is_bit_length bit_lengths bit_size
    then (if ltb (bit_size / 8) (length vbytes)
        then err big_too_large
        else ok (replicate (bit_size / 8 - length vbytes) 0 ++ vbytes))
    else err unknown_bit_size

module _ {W : Type 0} (o : Writer W) where
  -- `c.err = m.MarshalTL(c)`: a call that returns nil clears the error of the write.
  unfoldable pub marshal_bytes : Result TlError Bytes → Encoder W → Encoder W
  marshal_bytes (ok b) e = record (put_raw_bytes o e b) { err = none }
  marshal_bytes (err x) e = record e { err = some x }

  unfoldable pub marshal128 : Option ℤ → Encoder W → Encoder W
  marshal128 i = marshal_bytes (big_int_bytes i (int128_len * 8))

  unfoldable pub marshal256 : Option ℤ → Encoder W → Encoder W
  marshal256 i = marshal_bytes (big_int_bytes i (int256_len * 8))
