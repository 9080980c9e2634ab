-- ===== src/Tl/Limits.antt =====
-- The largest length that `PutMessage` lets through, and what the reader does at its limits.
use gogram.Common.{
  ◌^◌, ◌<◌, ◌≡◌, refl, none, [], ◌∷◌, ◌++◌, append-nil, length, length-append, arith, ge→ltb,
  get_or,
}
use gogram.Common.Bytes.{Bytes, le_bytes}
use gogram.Io.{Writer, IsBuffer}
use gogram.Tl.Defs.{padding4, reading_size, reading_data}
use gogram.Tl.Encoder.{Encoder, write, put_uint, put_content, put_long_form, put_message}
use gogram.Tl.Encoder.Appends.{Appends, write-Appends, framed-Appends}
use gogram.Tl.Decoder.{
  Decoder, rest, read, pop_after, pop_content, pop_void, size_of_three, pop_message,
}
use gogram.Tl.Decoder.Reads.{Pops, read-Pops, give-Pops, Pops-then, Pops-wrapped}

-- `PopMessage` on a length word that says 0.
pop_message_zero :
    (d : Decoder) (more : Bytes)
    → d.err ≡ none
    → 0 < length more
    → rest d ≡ 254 ∷ 0 ∷ 0 ∷ 0 ∷ more
    → Pops d (pop_message d) [] more
unfolding pop_message pop_after pop_content pop_void size_of_three
pop_message_zero d more e h here =
    Pops-then d (read 1) [] (λ first. pop_after (get_or first 0 0))
      (read-Pops d 1 (254 ∷ []) (0 ∷ 0 ∷ 0 ∷ more) e here refl (omega arith))
      λ d1 e1 left1.
        Pops-wrapped d1 (read 3) reading_size []
          (λ size_buf. pop_content 4 (size_of_three size_buf))
          (read-Pops d1 3 (0 ∷ 0 ∷ 0 ∷ []) more e1 left1 refl (omega arith))
          λ d2 e2 left2. rw (ge→ltb (length (rest d2)) 0 (omega arith)) (
            Pops-wrapped d2 (read 0) reading_data [] (pop_void 4)
              (read-Pops d2 0 [] more e2 left2 refl h)
              λ d3 e3 left3. give-Pops d3 [] [] e3 left3 refl)

module _ {W : Type 0} {o : Writer W} {written : W → Bytes} (lawful : IsBuffer o written) where
  put_message_limit :
      (e : Encoder W) (b : Bytes)
      → e.err ≡ none
      → length b ≡ 2 ^ 24
      → Appends written e (put_message o e b) (254 ∷ 0 ∷ 0 ∷ 0 ∷ b)
  unfolding put_content put_long_form put_uint le_bytes padding4
  put_message_limit e b h k =
      let whole =
        framed-Appends lawful (write o) (write-Appends lawful) e (254 ∷ 0 ∷ 0 ∷ 0 ∷ []) b 0 h in
      rw k (rw (append-nil b) at whole)

  -- A byte string of exactly 2^24 bytes passes the length test of `PutMessage`, and is written
  -- without an error under the length 0: `PopMessage` takes the empty string for it, without an
  -- error either, and leaves the content as if other values followed.
  pub put_message_wraps :
      (e : Encoder W) (d : Decoder) (b more : Bytes)
      → e.err ≡ none
      → d.err ≡ none
      → length b ≡ 2 ^ 24
      → rest d ≡ (254 ∷ 0 ∷ 0 ∷ 0 ∷ b) ++ more
      → Appends written e (put_message o e b) (254 ∷ 0 ∷ 0 ∷ 0 ∷ b)
        × Pops d (pop_message d) [] (b ++ more)
  put_message_wraps e d b more clean clean' size here = (
    put_message_limit e b clean size,
    pop_message_zero d (b ++ more) clean' (omega (arith, length-append b more)) here,
  )
