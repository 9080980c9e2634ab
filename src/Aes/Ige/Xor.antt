-- ===== src/Aes/Ige/Xor.antt =====
-- The exclusive or of two blocks.
use gogram.Common.{suc, ◌≡◌, refl, ap, [], ◌∷◌, length, arith}
use gogram.Common.Bytes.{Bytes, IsBytes}
use gogram.Common.Bits.{xor_cancel, xor-lt}
use gogram.Aes.Ige.{xor_bytes}

pub xor_bytes_cancel : (a b : Bytes) → length a ≡ length b → xor_bytes (xor_bytes a b) b ≡ a
unfolding xor_bytes
xor_bytes_cancel [] b h = refl
xor_bytes_cancel (x ∷ a) (y ∷ b) h = rw (xor_cancel x y, xor_bytes_cancel a b (omega arith))
xor_bytes_cancel (x ∷ a) [] h = absurd (omega arith)

pub length-xor_bytes : (a b : Bytes) → length a ≡ length b → length (xor_bytes a b) ≡ length a
unfolding xor_bytes
length-xor_bytes [] b h = refl
length-xor_bytes (x ∷ a) (y ∷ b) h = ap suc (length-xor_bytes a b (omega arith))
length-xor_bytes (x ∷ a) [] h = absurd (omega arith)

pub xor_bytes-IsBytes : (a b : Bytes) → IsBytes a → IsBytes b → IsBytes (xor_bytes a b)
unfolding xor_bytes
xor_bytes-IsBytes [] b h k = tt
xor_bytes-IsBytes (x ∷ a) [] h k = tt
xor_bytes-IsBytes (x ∷ a) (y ∷ b) (h, hs) (k, ks) = (xor-lt 8 x y h k, xor_bytes-IsBytes a b hs ks)
