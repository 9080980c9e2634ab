-- ===== src/Tl/Decoder/Accepted.antt =====
-- What `PopMessage` accepts, on any input.
use gogram.Common.{
  ℕ, ◌+◌, ◌*◌, ◌%◌, ◌^◌, ◌<◌, ◌≡◌, refl, sym, ap, ◌∙◌, none, [], ◌∷◌, ◌++◌, append_assoc, length,
  ◌==◌, not, get_or, replicate, All-drop, arith, if◌then◌else◌,
}
use mathlib.Core.Path.{subst}
use gogram.Common.Bytes.{Bytes, IsByte, IsBytes, from_le}
use gogram.Common.Bits.{or_low_field}
use gogram.Tl.Defs.{prefix_255, reading_size}
use gogram.Tl.Decoder.{
  D, ◌>>=◌, or_wrap, fail, Decoder, rest, read, pop_content, size_of_three, pop_after, pop_message,
}
use gogram.Tl.Decoder.Clean.{Took, Clean, read-Took, or_return-Clean, or_wrap-Clean, if-Clean}
use gogram.Tl.Decoder.Content.{pop_content-Content}

-- The bytes that stand for a string: its length in a byte below 254, or the byte 254 and three
-- bytes of length; the string; zeros up to a multiple of four bytes.
pub data IsForm (b : Bytes) : Bytes → Type 0 where
  short_form :
      {pad : ℕ}
      → length b < 254
      → pad < 4
      → (1 + length b + pad) % 4 ≡ 0
      → IsForm b (length b ∷ (b ++ replicate pad 0))
  long_form :
      {pad : ℕ} (s : Bytes)
      → length s ≡ 3
      → from_le s ≡ length b
      → pad < 4
      → (4 + length b + pad) % 4 ≡ 0
      → IsForm b (254 ∷ (s ++ (b ++ replicate pad 0)))

-- What `PopMessage` took and returned.
pub record Accepted (d : Decoder) (r : Decoder × Bytes) : Type 0 where
  pub form : Bytes
  pub form-IsForm : IsForm r.1 form
  pub took_form : Took d r form

size_of_three-from_le : (s : Bytes) → IsBytes s → length s ≡ 3 → size_of_three s ≡ from_le s
unfolding size_of_three from_le
size_of_three-from_le (a ∷ b ∷ c ∷ []) h size =
    rw (or_low_field 8 b a h.0)
      (rw (or_low_field 16 c (b * 2 ^ 8 + a) (omega (arith, h.0, h.1.0))) (omega arith))
size_of_three-from_le [] h size = absurd (omega arith)
size_of_three-from_le (a ∷ []) h size = absurd (omega arith)
size_of_three-from_le (a ∷ b ∷ []) h size = absurd (omega arith)
size_of_three-from_le (a ∷ b ∷ c ∷ x ∷ s) h size = absurd (omega arith)

front-IsBytes : (xs ys : Bytes) → IsBytes (xs ++ ys) → IsBytes xs
front-IsBytes [] ys h = tt
front-IsBytes (x ∷ xs) ys h = (h.0, front-IsBytes xs ys h.1)

-- After the first byte `x`, which stood in front of what `d'` has left.
module _ (d d' : Decoder) (x : ℕ) (start : rest d ≡ x ∷ rest d') (same : d'.input ≡ d.input) where
  abbrev read_long : D Bytes
  read_long = read 3 >>= λ s. or_wrap reading_size [] (pop_content 4 (size_of_three s))

  short-Accepted : x < 254 → Clean (pop_content 1 x d') → Accepted d (pop_content 1 x d')
  short-Accepted small h =
      let r = pop_content 1 x d' in
      let c = pop_content-Content 1 x d' h in
      let zeros : Bytes = replicate c.pad 0 in
      record {
        form = length r.1 ∷ (r.1 ++ zeros);
        form-IsForm = short_form (omega (arith, c.size)) c.small (omega (arith, c.size, c.aligned));
        took_form = record {
          taken =
              start
              ∙ ap (◌∷◌ x) c.took.taken
              ∙ ap (λ y. y ∷ ((r.1 ++ zeros) ++ rest r.0)) (sym c.size);
          same_input = c.took.same_input ∙ same;
        };
      }

  long-Accepted : x ≡ 254 → IsBytes (rest d') → Clean (read_long d') → Accepted d (read_long d')
  long-Accepted magic bytes =
      let (d2, s) = read 3 d' in
      or_wrap-Clean (λ r. Accepted d r) d2 reading_size [] (pop_content 4 (size_of_three s))
        λ clean h.
          let got = read-Took 3 d' clean in
          let r = pop_content 4 (size_of_three s) d2 in
          let c = pop_content-Content 4 (size_of_three s) d2 h in
          let zeros : Bytes = replicate c.pad 0 in
          let size =
            size_of_three-from_le s (front-IsBytes s (rest d2) (subst IsBytes got.2.taken bytes))
              got.1 in
          record {
            form = 254 ∷ (s ++ (r.1 ++ zeros));
            form-IsForm =
                long_form s got.1 (sym size ∙ sym c.size) c.small
                  (omega (arith, c.size, c.aligned));
            took_form = record {
              taken =
                  start
                  ∙ ap (λ y. y ∷ rest d') magic
                  ∙ ap (◌∷◌ 254) (
                      got.2.taken
                      ∙ ap (◌++◌ s) c.took.taken
                      ∙ sym (append_assoc s (r.1 ++ zeros) (rest r.0)));
              same_input = c.took.same_input ∙ got.2.same_input ∙ same;
            };
          }

  pop_after-Accepted :
      x < 256 → IsBytes (rest d') → Clean (pop_after x d') → Accepted d (pop_after x d')
  unfolding pop_after
  pop_after-Accepted byte bytes =
      if-Clean (λ r. Accepted d r) d' (x == 255) (fail prefix_255 [])
        (if not (x == 254) then pop_content 1 x else read_long) (λ _ h. absurd (ground (arith, h)))
        (λ not_255.
          if-Clean (λ r. Accepted d r) d' (not (x == 254)) (pop_content 1 x) read_long
            (λ not_254. short-Accepted (ground (arith, not_255, not_254)))
            (λ magic. long-Accepted (ground (arith, magic)) bytes))

single : (b : Bytes) → length b ≡ 1 → b ≡ get_or b 0 0 ∷ []
single (x ∷ []) h = refl
single [] h = absurd (omega arith)
single (x ∷ y ∷ b) h = absurd (omega arith)

IsBytes-rest : (d : Decoder) → IsBytes d.input → IsBytes (rest d)
IsBytes-rest d h = All-drop IsByte d.at d.input h

-- Where the input holds bytes and `PopMessage` ends without an error, the bytes from the position
-- on start with a form of the string that it returns: the length in a byte below 254, or the byte
-- 254 and the length in three bytes, the lowest first; then the string; then less than four zeros up
-- to a multiple of four bytes. What follows the form is left, in the same input.
pub pop_message-Accepted :
    (d : Decoder) → IsBytes d.input → (pop_message d).0.err ≡ none → Accepted d (pop_message d)
unfolding pop_message
pop_message-Accepted d bytes =
    let (d', first) = read 1 d in
    or_return-Clean (λ r. Accepted d r) d' [] (pop_after (get_or first 0 0))
      λ clean.
        let got = read-Took 1 d clean in
        let alone = single first got.1 in
        let here = IsBytes-rest d bytes in
        let x =
          subst IsBytes alone (front-IsBytes first (rest d') (subst IsBytes got.2.taken here)) in
        pop_after-Accepted d d' (get_or first 0 0) (got.2.taken ∙ ap (λ z. z ++ rest d') alone)
          got.2.same_input x.0 (IsBytes-rest d' (subst IsBytes (sym got.2.same_input) bytes))
