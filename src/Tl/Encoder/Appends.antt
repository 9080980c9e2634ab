-- ===== src/Tl/Encoder/Appends.antt =====
-- What each `Put` appends to a buffer that takes every write.
use gogram.Common.{
  ℕ, zero, suc, ◌+◌, ◌*◌, ◌%◌, ◌^◌, ◌≤◌, ◌<◌, ◌≡◌, refl, sym, ap, ◌∙◌, Bool, true, false,
  Bool-cases, inl, inr, none, [], ◌∷◌, ◌++◌, append-nil, append_assoc, length, replicate, ltb,
  lt→ltb, ltb→lt, ltb→ge, bit_or, arith, if◌then◌else◌,
}
use gogram.Common.Bits.{or_fields}
use gogram.Common.Bytes.{Bytes, le_bytes}
use gogram.Io.{Writer, IsBuffer}
use gogram.Tl.Defs.{crc_true, crc_false, padding4}
use gogram.Tl.Encoder.{
  Encoder, write, write_string, put_uint8, put_uint, put_long, put_bool, put_padding, put_short,
  put_long_form, put_content,
}
use gogram.Tl.Wire.{message_prefix, message_pad, message_wire}

-- From `e`, without an error so far, the call wrote `b` and met no error.
pub record Appends {W : Type 0} (written : W → Bytes) (e e' : Encoder W) (b : Bytes) : Type 0 where
  pub wrote_bytes : written e'.writer ≡ written e.writer ++ b
  pub no_error : e'.err ≡ none

module _ {W : Type 0} {o : Writer W} {written : W → Bytes} (lawful : IsBuffer o written) where
  pub write-Appends : (e : Encoder W) (b : Bytes) → e.err ≡ none → Appends written e (write o e b) b
  unfolding write
  write-Appends e b h = record {
    wrote_bytes = ground (
      arith,
      lawful.write_count e.writer b,
      lawful.write_err e.writer b,
      lawful.write_written e.writer b,
    );
    no_error = ground (arith, lawful.write_count e.writer b, lawful.write_err e.writer b);
  }

  pub write_string-Appends :
      (e : Encoder W) (b : Bytes) → e.err ≡ none → Appends written e (write_string o e b) b
  unfolding write_string
  write_string-Appends e b h = record {
    wrote_bytes = ground (
      arith,
      lawful.string_count e.writer b,
      lawful.string_err e.writer b,
      lawful.string_written e.writer b,
    );
    no_error = ground (arith, lawful.string_count e.writer b, lawful.string_err e.writer b);
  }

  pub Appends-trans :
      {e f g : Encoder W} {b c : Bytes}
      → Appends written e f b
      → Appends written f g c
      → Appends written e g (b ++ c)
  Appends-trans {e} {b = b} {c = c} p q = record {
    wrote_bytes =
        q.wrote_bytes ∙ ap (λ w. w ++ c) p.wrote_bytes ∙ append_assoc (written e.writer) b c;
    no_error = q.no_error;
  }

  put_padding-Appends :
      (e : Encoder W) (pad : ℕ)
      → e.err ≡ none
      → Appends written e (put_padding o e pad) (replicate pad 0)
  unfolding put_padding
  put_padding-Appends e zero h = record {
    wrote_bytes = sym (append-nil (written e.writer));
    no_error = h;
  }
  put_padding-Appends e (suc pad) h =
      rw (lt→ltb 0 (suc pad) (omega arith)) (write-Appends e (replicate (suc pad) 0) h)

-- The length word of a message of at least 254 bytes.
long_prefix :
    (size : ℕ)
    → size < 2 ^ 24
    → le_bytes 4 (bit_or (size % 2 ^ 32 * 2 ^ 8 % 2 ^ 32) 254) ≡ 254 ∷ le_bytes 3 size
unfolding le_bytes
long_prefix size h = ground (arith, or_fields 8 size 254)

empty_wire : message_wire [] ≡ 0 ∷ 0 ∷ 0 ∷ 0 ∷ []
unfolding message_wire message_prefix message_pad padding4
empty_wire = refl

short_wire :
    (b : Bytes)
    → length b < 254
    → message_wire b ≡ (length b % 2 ^ 8 ∷ []) ++ (b ++ replicate (padding4 (length b + 1)) 0)
unfolding message_wire message_prefix message_pad
short_wire b h = ground arith

long_wire :
    (b : Bytes)
    → 254 ≤ length b
    → message_wire b ≡ (254 ∷ le_bytes 3 (length b)) ++ (b ++ replicate (padding4 (length b)) 0)
unfolding message_wire message_prefix message_pad
long_wire b h = ground arith

module _ {W : Type 0} {o : Writer W} {written : W → Bytes} (lawful : IsBuffer o written)
    (body : Encoder W → Bytes → Encoder W)
    (body-Appends : (e : Encoder W) (b : Bytes)
      → e.err ≡ none
      → Appends written e (body e b) b) where
  -- A prefix, the content and its padding.
  pub framed-Appends :
      (e : Encoder W) (front b : Bytes) (pad : ℕ)
      → e.err ≡ none
      → Appends written e
          (put_padding o (body (write o e front) b) pad)
          (front ++ (b ++ replicate pad 0))
  framed-Appends e front b pad h =
      let first = write-Appends lawful e front h in
      let second = body-Appends (write o e front) b first.no_error in
      let third = put_padding-Appends lawful (body (write o e front) b) pad second.no_error in
      Appends-trans lawful first (Appends-trans lawful second third)

  put_short-Appends :
      (e : Encoder W) (b : Bytes)
      → e.err ≡ none
      → length b < 254
      → Appends written e (put_short o body e b) (message_wire b)
  unfolding put_short put_uint8
  put_short-Appends e b h k =
      rw (short_wire b k) (framed-Appends e (length b % 2 ^ 8 ∷ []) b (padding4 (length b + 1)) h)

  put_long_form-Appends :
      (e : Encoder W) (b : Bytes)
      → e.err ≡ none
      → 254 ≤ length b
      → length b < 2 ^ 24
      → Appends written e (put_long_form o body e b) (message_wire b)
  unfolding put_long_form put_uint
  put_long_form-Appends e b h k m =
      rw (long_wire b k, long_prefix (length b) m)
        (framed-Appends e (254 ∷ le_bytes 3 (length b)) b (padding4 (length b)) h)

  put_empty-Appends :
      (e : Encoder W) → e.err ≡ none → Appends written e (put_uint o e 0) (message_wire [])
  unfolding put_uint le_bytes
  put_empty-Appends e h = rw empty_wire (write-Appends lawful e _ h)

  -- Short, long or empty: one of the forms.
  pub put_content-Appends :
      (e : Encoder W) (b : Bytes)
      → e.err ≡ none
      → length b < 2 ^ 24
      → Appends written e (put_content o body e b) (message_wire b)
  put_content-Appends e [] h k = unfold put_content in put_empty-Appends e h
  put_content-Appends e (x ∷ xs) h k = elim (Bool-cases (ltb (length (x ∷ xs)) 254)) [
    | inl short ↦
        rw (content_short e x xs short) (put_short-Appends e (x ∷ xs) h (ltb→lt _ _ short))
    | inr long ↦
        rw (content_long e x xs long k) (put_long_form-Appends e (x ∷ xs) h (ltb→ge _ _ long) k)
  ]
    where
      content_short :
          (e : Encoder W) (x : ℕ) (xs : Bytes)
          → ltb (length (x ∷ xs)) 254 ≡ true
          → put_content o body e (x ∷ xs) ≡ put_short o body e (x ∷ xs)
      content_short e x xs short = unfold put_content in ground arith

      content_long :
          (e : Encoder W) (x : ℕ) (xs : Bytes)
          → ltb (length (x ∷ xs)) 254 ≡ false
          → length (x ∷ xs) < 2 ^ 24
          → put_content o body e (x ∷ xs) ≡ put_long_form o body e (x ∷ xs)
      content_long e x xs long k = unfold put_content in ground arith

module _ {W : Type 0} {o : Writer W} {written : W → Bytes} (lawful : IsBuffer o written) where
  pub put_uint-Appends :
      (e : Encoder W) (v : ℕ) → e.err ≡ none → Appends written e (put_uint o e v) (le_bytes 4 v)
  unfolding put_uint
  put_uint-Appends e v h = write-Appends lawful e (le_bytes 4 v) h

  pub put_long-Appends :
      (e : Encoder W) (v : ℕ) → e.err ≡ none → Appends written e (put_long o e v) (le_bytes 8 v)
  unfolding put_long
  put_long-Appends e v h = write-Appends lawful e (le_bytes 8 v) h

  pub put_bool-Appends :
      (e : Encoder W) (v : Bool)
      → e.err ≡ none
      → Appends written e (put_bool o e v) (le_bytes 4 (if v then crc_true else crc_false))
  unfolding put_bool
  put_bool-Appends e v h = put_uint-Appends e (if v then crc_true else crc_false) h
