-- ===== src/Tl/Wire.antt =====
-- The wire format of byte strings, as the TL documentation states it.
use gogram.Common.{
  ℕ, ◌+◌, ◌%◌, ◌≡◌, [], ◌∷◌, ◌++◌, length, length-append, replicate, length-replicate, ltb, arith,
  if◌then◌else◌,
}
use gogram.Common.Bytes.{Bytes, le_bytes, length-le_bytes}
use gogram.Tl.Defs.{padding4, padding4_lem}

-- A length byte below 254, or the byte 254 and three bytes of length; the content; zeros up to a
-- multiple of four bytes.
unfoldable pub message_prefix : ℕ → Bytes
message_prefix size = if ltb size 254 then size ∷ [] else 254 ∷ le_bytes 3 size

unfoldable pub message_pad : ℕ → ℕ
message_pad size = if ltb size 254 then padding4 (size + 1) else padding4 size

unfoldable pub message_wire : Bytes → Bytes
message_wire b = message_prefix (length b) ++ (b ++ replicate (message_pad (length b)) 0)

pub length-message_wire : (b : Bytes) → length (message_wire b) % 4 ≡ 0
unfolding message_wire message_prefix message_pad
length-message_wire b = ground (
  arith,
  length-append (length b ∷ []) (b ++ replicate (padding4 (length b + 1)) 0),
  length-append b (replicate (padding4 (length b + 1)) 0),
  length-replicate {A = ℕ} (padding4 (length b + 1)) 0,
  padding4_lem (length b + 1),
  length-append (254 ∷ le_bytes 3 (length b)) (b ++ replicate (padding4 (length b)) 0),
  length-append b (replicate (padding4 (length b)) 0),
  length-replicate {A = ℕ} (padding4 (length b)) 0,
  length-le_bytes 3 (length b),
  padding4_lem (length b),
)
