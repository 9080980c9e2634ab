-- ===== src/Tl/LostError.antt =====
-- `c.err = m.MarshalTL(c)` of encoder.go: what the method returns replaces the error of its writes.
use gogram.Common.{ℕ, ◌+◌, ◌^◌, ◌<◌, ◌≡◌, refl, ap, ◌∙◌, none, some}
use gogram.Common.Int.{pos}
use gogram.Io.{Writer}
use gogram.Tl.Schema.{StructType, big128, big256}
use gogram.Tl.Encoder.{Encoder}
use gogram.Tl.BigInts.{is_bit_length, marshal_bytes, marshal128, marshal256}
use gogram.Tl.BigInts.Laws.{big_int_bytes_lem}
use gogram.Tl.Marshal.{Encode, nested, encode_value}
use gogram.Tl.Marshal.Sends.{nested_ok}

module _ (types : ℕ → StructType) {W : Type 0} (o : Writer W) where
  nested-no_error :
      (m : Encode W) (e : Encoder W)
      → e.err ≡ none
      → e.depth < 128
      → (m (record e { depth = e.depth + 1 })).err ≡ none
      → (nested m e).err ≡ none
  nested-no_error m e clean room h = ap (λ (x : Encoder W). x.err) (nested_ok m e clean room) ∙ h

  -- With any writer, also one that fails or takes only a part of the bytes, the encoder reports
  -- no error for an `Int128` of less than 2^128 and an `Int256` of less than 2^256, where it had
  -- no error before and a level is left.
  pub encode_value_loses_error :
      (v w : ℕ) (e : Encoder W)
      → v < 2 ^ 128
      → w < 2 ^ 256
      → e.err ≡ none
      → e.depth < 128
      → ((encode_value types o (big128 (some (pos v))) e).err ≡ none)
        × ((encode_value types o (big256 (some (pos w))) e).err ≡ none)
  unfolding encode_value marshal128 marshal256 marshal_bytes is_bit_length
  encode_value_loses_error v w e h k clean room = (
    nested-no_error (marshal128 o (some (pos v))) e clean room
        (rw (big_int_bytes_lem v 128 refl h) refl),
    nested-no_error (marshal256 o (some (pos w))) e clean room
        (rw (big_int_bytes_lem w 256 refl k) refl),
  )
