-- ===== src/Tl/Decoder/Message.antt =====
-- `PopMessage` on the wire form of a byte string.
use gogram.Common.{
  ℕ, zero, suc, ◌+◌, ◌-◌, ◌*◌, ◌/◌, ◌%◌, ◌^◌, ◌≤◌, ◌<◌, ◌≡◌, refl, sym, ap, ◌∙◌, true, false,
  Bool-cases, inl, inr, none, [], ◌∷◌, ◌++◌, append_assoc, length, length-append, replicate,
  length-replicate, ltb, ltb→lt, ltb→ge, ◌==◌, ge→ltb, arith, if◌then◌else◌, get_or,
}
use gogram.Common.Bits.{or_low_field}
use gogram.Common.Bytes.{Bytes, le_bytes, length-le_bytes}
use gogram.Tl.Defs.{reading_size, reading_data, reading_void, void_bytes, padding4, padding4_lem}
use gogram.Tl.Decoder.{
  give, fail, Decoder, rest, read, all_zero, pop_void, pop_content, size_of_three, pop_after,
  pop_message,
}
use gogram.Tl.Decoder.Reads.{Pops, read-Pops, give-Pops, Pops-then, Pops-wrapped}
use gogram.Tl.Wire.{message_prefix, message_pad, message_wire}

all_zero-replicate : (n : ℕ) → all_zero (replicate n 0) ≡ true
unfolding all_zero
all_zero-replicate zero = refl
all_zero-replicate (suc n) = all_zero-replicate n

pop_void-Pops :
    (d : Decoder) (read_len pad : ℕ) (b ys : Bytes)
    → d.err ≡ none
    → pad < 4
    → (read_len + pad) % 4 ≡ 0
    → rest d ≡ replicate pad 0 ++ ys
    → Pops d (pop_void read_len b d) b ys
unfolding pop_void all_zero
pop_void-Pops d read_len zero b ys e h m here =
    let aligned : (read_len % 4 == 0) ≡ true = ground arith in
    rw aligned (give-Pops d b b e here refl)
pop_void-Pops d read_len (suc pad) b ys e h m here =
    let gap : (read_len % 4 == 0) ≡ false = ground arith in
    let size : 4 - read_len % 4 ≡ suc pad = omega arith in
    let zeros : Bytes = replicate (suc pad) 0 in
    rw (gap, size)
      (Pops-wrapped d (read (suc pad)) reading_void []
        (λ void. if all_zero void then give b else fail (void_bytes void) [])
        (read-Pops d (suc pad) zeros ys e here (sym (length-replicate {A = ℕ} (suc pad) 0))
          (omega arith))
        λ d' e' left. rw (all_zero-replicate pad) (give-Pops d' b b e' left refl))

pop_content-Pops :
    (d : Decoder) (len_size pad : ℕ) (b ys : Bytes)
    → d.err ≡ none
    → pad < 4
    → (len_size + length b + pad) % 4 ≡ 0
    → 0 < length b + pad
    → rest d ≡ b ++ (replicate pad 0 ++ ys)
    → Pops d (pop_content len_size (length b) d) b ys
unfolding pop_content
pop_content-Pops d len_size pad b ys e h m some_left here =
    let tail = replicate pad 0 ++ ys in
    let size = length-append b tail in
    let tail_size = length-append (replicate pad 0) ys in
    let pad_size = length-replicate {A = ℕ} pad 0 in
    let enough = ge→ltb (length (rest d)) (length b) (rw here (omega (arith, size))) in
    rw enough (
      Pops-wrapped d (read (length b)) reading_data [] (pop_void (len_size + length b))
        (read-Pops d (length b) b tail e here refl (omega (arith, size, tail_size, pad_size)))
        λ d' e' left. pop_void-Pops d' (len_size + length b) pad b ys e' h m left)

size_of_three_lem : (v : ℕ) → v < 2 ^ 24 → size_of_three (le_bytes 3 v) ≡ v
unfolding size_of_three le_bytes
size_of_three_lem v h = ground (
  arith,
  or_low_field 8 (v / 256 % 256) (v % 256),
  or_low_field 16 (v / 256 / 256 % 256) (v / 256 % 256 * 2 ^ 8 + v % 256),
)

pop_short-Pops :
    (d : Decoder) (b ys : Bytes)
    → d.err ≡ none
    → length b < 254
    → rest d ≡ b ++ (replicate (padding4 (length b + 1)) 0 ++ ys)
    → Pops d (pop_after (length b) d) b ys
unfolding pop_after
pop_short-Pops d b ys e h here =
    let pad = padding4_lem (length b + 1) in
    let not_255 : (length b == 255) ≡ false = ground arith in
    let not_254 : (length b == 254) ≡ false = ground arith in
    rw (not_255, not_254)
      (pop_content-Pops d 1 (padding4 (length b + 1)) b ys e pad.0 (omega (arith, pad.1))
        (omega (arith, pad.1)) here)

pop_long_form-Pops :
    (d : Decoder) (b ys : Bytes)
    → d.err ≡ none
    → 254 ≤ length b
    → length b < 2 ^ 24
    → rest d ≡ le_bytes 3 (length b) ++ (b ++ (replicate (padding4 (length b)) 0 ++ ys))
    → Pops d (pop_after 254 d) b ys
unfolding pop_after
pop_long_form-Pops d b ys e h k here =
    let size = le_bytes 3 (length b) in
    let after : Bytes = b ++ (replicate (padding4 (length b)) 0 ++ ys) in
    let pad = padding4_lem (length b) in
    Pops-wrapped d (read 3) reading_size [] (λ size_buf. pop_content 4 (size_of_three size_buf))
      (read-Pops d 3 size after e here (sym (length-le_bytes 3 (length b)))
        (omega (arith, length-append size after, length-le_bytes 3 (length b))))
      λ d' e' left. rw (size_of_three_lem (length b) k) (
        pop_content-Pops d' 4 (padding4 (length b)) b ys e' pad.0 (omega (arith, pad.1))
          (omega arith) left)

-- `PopMessage` returns the byte string that stands in front in its wire form, and leaves what
-- follows it.
pub pop_message-Pops :
    (d : Decoder) (b ys : Bytes)
    → d.err ≡ none
    → length b < 2 ^ 24
    → rest d ≡ message_wire b ++ ys
    → Pops d (pop_message d) b ys
unfolding pop_message message_wire message_prefix message_pad
pop_message-Pops d b ys e h here = elim (Bool-cases (ltb (length b) 254)) [
  | inl short ↦
      let tail : Bytes = b ++ (replicate (padding4 (length b + 1)) 0 ++ ys) in
      let start : rest d ≡ (length b ∷ []) ++ tail =
        here ∙ rw short (ap (◌∷◌ (length b)) (append_assoc b _ ys)) in
      Pops-then d (read 1) [] (λ first. pop_after (get_or first 0 0))
        (read-Pops d 1 (length b ∷ []) tail e start refl (omega arith))
        λ d' e' left. pop_short-Pops d' b ys e' (ltb→lt _ _ short) left
  | inr long ↦
      let size = le_bytes 3 (length b) in
      let tail : Bytes = size ++ (b ++ (replicate (padding4 (length b)) 0 ++ ys)) in
      let start : rest d ≡ (254 ∷ []) ++ tail =
        here
        ∙ rw long (ap (◌∷◌ 254) (append_assoc size _ ys ∙ ap (◌++◌ size) (append_assoc b _ ys))) in
      Pops-then d (read 1) [] (λ first. pop_after (get_or first 0 0))
        (read-Pops d 1 (254 ∷ []) tail e start refl (omega arith))
        λ d' e' left. pop_long_form-Pops d' b ys e' (ltb→ge _ _ long) h left
]
