-- ===== src/Tl/Marshal/Sends.antt =====
-- What the parts of the reflective encoder append to a buffer, and that they keep the depth.
use gogram.Common.{
  ℕ, ◌+◌, ◌*◌, ◌%◌, ◌^◌, ◌<◌, ◌≡◌, refl, sym, ap, ◌∙◌, Bool, true, false, ◌&&◌, Option, none, some,
  [], ◌∷◌, ◌++◌, append-nil, length, replicate, bit_or, ltb, leb, ◌==◌, arith, if◌then◌else◌,
}
use mathlib.Core.Path.{subst}
use gogram.Common.Bytes.{Bytes, le_bytes}
use gogram.Io.{Writer, IsBuffer}
use gogram.Tl.Defs.{TlError, nesting, crc_true, crc_false, padding4}
use gogram.Tl.Encoder.{
  Encoder, write, write_string, put_uint8, put_uint, put_long, put_bool, put_padding, put_short,
  put_long_form, put_content, put_message, put_string,
}
use gogram.Tl.Encoder.Appends.{
  Appends, Appends-trans, write-Appends, write_string-Appends, put_content-Appends,
}
use gogram.Tl.Wire.{message_wire}
use gogram.Tl.WireForm.{bool_wire, word_wire}
use gogram.Tl.Laid.{laid_wire}
use gogram.Tl.Flags.{Layout, Flags}
use gogram.Tl.Marshal.{
  Encode, unless_err, nested, max_depth, stop, one_deeper, put_word_at, put_flags,
}

-- From `e`, without an error so far, the call wrote `b`, met no error, and came back to the depth.
pub record Sent {W : Type 0} (written : W → Bytes) (e e' : Encoder W) (b : Bytes) : Type 0 where
  pub appends : Appends written e e' b
  pub same_depth : e'.depth ≡ e.depth

module _ {W : Type 0} (o : Writer W) where
  write-depth : (e : Encoder W) (b : Bytes) → (write o e b).depth ≡ e.depth
  unfolding write
  write-depth e b = ground arith

  write_string-depth : (e : Encoder W) (b : Bytes) → (write_string o e b).depth ≡ e.depth
  unfolding write_string
  write_string-depth e b = ground arith

  if-depth :
      {k : ℕ} (b : Bool) (x y : Encoder W)
      → x.depth ≡ k
      → y.depth ≡ k
      → (if b then x else y).depth ≡ k
  if-depth true x y p q = p
  if-depth false x y p q = q

  put_padding-depth : (e : Encoder W) (pad : ℕ) → (put_padding o e pad).depth ≡ e.depth
  unfolding put_padding
  put_padding-depth e pad =
      if-depth (ltb 0 pad) (write o e (replicate pad 0)) e (write-depth e (replicate pad 0)) refl

  module _ (body : Encoder W → Bytes → Encoder W)
      (body-depth : (e : Encoder W) (b : Bytes) → (body e b).depth ≡ e.depth) where
    framed-depth :
        (e : Encoder W) (front b : Bytes) (pad : ℕ)
        → (put_padding o (body (write o e front) b) pad).depth ≡ e.depth
    framed-depth e front b pad =
        put_padding-depth (body (write o e front) b) pad
        ∙ body-depth (write o e front) b
        ∙ write-depth e front

    put_content-depth : (e : Encoder W) (b : Bytes) → (put_content o body e b).depth ≡ e.depth
    unfolding put_content put_short put_long_form put_uint put_uint8
    put_content-depth e b = if-depth (ltb (2 ^ 24) (length b)) _ _ refl (
        if-depth (length b == 0) _ _ (write-depth e (le_bytes 4 0)) (
          if-depth (ltb (length b) 254) _ _
            (framed-depth e (length b % 2 ^ 8 ∷ []) b (padding4 (length b + 1)))
            (framed-depth e (le_bytes 4 (bit_or (length b % 2 ^ 32 * 2 ^ 8 % 2 ^ 32) 254)) b
              (padding4 (length b)))))

module _ {W : Type 0} where
  pub unless_err_ok : (k : Encode W) (e : Encoder W) → e.err ≡ none → unless_err k e ≡ k e
  unless_err_ok k e h =
      ap {B = Encoder W} (λ (x : Option TlError). elim x [ none ↦ k e | some _ ↦ e ]) h

  pub nested_ok :
      (body : Encode W) (e : Encoder W)
      → e.err ≡ none
      → e.depth < max_depth
      → nested body e ≡ one_deeper body e
  unfolding nested
  nested_ok body e h k =
      let shallow : leb 128 e.depth ≡ false = ground arith in
      unless_err_ok (λ e1. if leb max_depth e1.depth then stop nesting e1 else one_deeper body e1) e
        h
      ∙ rw shallow refl

module _ {W : Type 0} {o : Writer W} {written : W → Bytes} (lawful : IsBuffer o written) where
  pub Sent-trans :
      {e f g : Encoder W} {b c : Bytes}
      → Sent written e f b
      → Sent written f g c
      → Sent written e g (b ++ c)
  Sent-trans p q = record {
    appends = Appends-trans lawful p.appends q.appends;
    same_depth = q.same_depth ∙ p.same_depth;
  }

  pub write-Sent : (e : Encoder W) (b : Bytes) → e.err ≡ none → Sent written e (write o e b) b
  write-Sent e b h = record { appends = write-Appends lawful e b h; same_depth = write-depth o e b }

  pub put_uint-Sent :
      (e : Encoder W) (v : ℕ) → e.err ≡ none → Sent written e (put_uint o e v) (le_bytes 4 v)
  unfolding put_uint
  put_uint-Sent e v h = write-Sent e (le_bytes 4 v) h

  pub put_long-Sent :
      (e : Encoder W) (v : ℕ) → e.err ≡ none → Sent written e (put_long o e v) (le_bytes 8 v)
  unfolding put_long
  put_long-Sent e v h = write-Sent e (le_bytes 8 v) h

  pub put_bool-Sent :
      (e : Encoder W) (v : Bool) → e.err ≡ none → Sent written e (put_bool o e v) (bool_wire v)
  unfolding put_bool
  put_bool-Sent e v h = put_uint-Sent e (if v then crc_true else crc_false) h

  pub put_message-Sent :
      (e : Encoder W) (b : Bytes)
      → e.err ≡ none
      → length b < 2 ^ 24
      → Sent written e (put_message o e b) (message_wire b)
  put_message-Sent e b h k = record {
    appends = put_content-Appends lawful (write o) (write-Appends lawful) e b h k;
    same_depth = put_content-depth o (write o) (write-depth o) e b;
  }

  pub put_string-Sent :
      (e : Encoder W) (b : Bytes)
      → e.err ≡ none
      → length b < 2 ^ 24
      → Sent written e (put_string o e b) (message_wire b)
  put_string-Sent e b h k = record {
    appends = put_content-Appends lawful (write_string o) (write_string-Appends lawful) e b h k;
    same_depth = put_content-depth o (write_string o) (write_string-depth o) e b;
  }

  -- Where the depth allows a level and the body sends `b` from there, the level sends it.
  pub nested-Sent :
      (body : Encode W) (e : Encoder W) {b : Bytes}
      → e.err ≡ none
      → e.depth < max_depth
      → ((e1 : Encoder W)
          → e1.err ≡ none
          → e1.depth ≡ e.depth + 1
          → e1.writer ≡ e.writer
          → Sent written e1 (body e1) b)
      → Sent written e (nested body e) b
  nested-Sent body e {b} h k inner =
      let p = inner (record e { depth = e.depth + 1 }) h refl refl in
      subst (λ f. Sent written e f b) (sym (nested_ok body e h k))
        (record {
          appends = record { wrote_bytes = p.appends.wrote_bytes; no_error = p.appends.no_error };
          same_depth = omega (arith, p.same_depth);
        })

  -- A step after a step that met no error.
  pub unless_err-Sent :
      (k : Encode W) {e f : Encoder W} {b c : Bytes}
      → Sent written e f b
      → (f.err ≡ none → Sent written f (k f) c)
      → Sent written e (unless_err k f) (b ++ c)
  unless_err-Sent k {e} {f} {b} {c} p q =
      subst (λ g. Sent written e g (b ++ c)) (sym (unless_err_ok k f p.appends.no_error))
        (Sent-trans p (q p.appends.no_error))

  pub nothing-Sent : (e : Encoder W) → e.err ≡ none → Sent written e e []
  nothing-Sent e h = record {
    appends = record { wrote_bytes = sym (append-nil (written e.writer)); no_error = h };
    same_depth = refl;
  }

  pub put_word_at-Sent :
      (here : Bool) (w : ℕ) (e : Encoder W)
      → e.err ≡ none
      → Sent written e (put_word_at o here w e) (word_wire here w)
  unfolding put_word_at
  put_word_at-Sent true w e h = put_uint-Sent e w h
  put_word_at-Sent false w e h = nothing-Sent e h

  pub put_flags-Sent :
      (layout : Layout) (flags : Flags) (i : ℕ) (e : Encoder W)
      → e.err ≡ none
      → Sent written e (put_flags o layout flags i e) (laid_wire layout flags i)
  unfolding put_flags
  put_flags-Sent layout (a, b) i e h =
      let one = put_word_at-Sent (ltb 0 layout.words && (layout.first == i)) a e h in
      Sent-trans one
        (put_word_at-Sent (ltb 1 layout.words && (layout.second == i)) b _ one.appends.no_error)
