-- ===== src/Tl/RoundTrip.antt =====
-- What the writer puts into a buffer, the reader takes out again.
use gogram.Common.{ℕ, ◌^◌, ◌<◌, ◌≡◌, sym, ap, ◌∙◌, Bool, none, ◌++◌, append_cancel, length}
use gogram.Common.Bytes.{Bytes}
use gogram.Io.{Writer, IsBuffer}
use gogram.Tl.Encoder.{Encoder, write, put_uint, put_long, put_bool, put_message, put_string}
use gogram.Tl.Encoder.Appends.{
  Appends, write-Appends, write_string-Appends, put_content-Appends, put_uint-Appends,
  put_long-Appends, put_bool-Appends,
}
use gogram.Tl.Decoder.{D, Decoder, rest, pop_uint, pop_long, pop_bool, pop_message}
use gogram.Tl.Decoder.Reads.{Pops, pop_uint-Pops, pop_long-Pops, pop_bool-Pops}
use gogram.Tl.Decoder.Message.{pop_message-Pops}

-- A call of the writer ended well, and one of the reader gave `a` back and left `more`.
pub record Returned {W A : Type 0} (e : Encoder W) (d : Decoder) (r : Decoder × A) (a : A)
    (more : Bytes) : Type 0 where
  pub written_well : e.err ≡ none
  pub value : r.1 ≡ a
  pub read_well : r.0.err ≡ none
  pub left : rest r.0 ≡ more

module _ {W : Type 0} {o : Writer W} {written : W → Bytes} (lawful : IsBuffer o written) where
  returned :
      {A : Type 0} (e e' : Encoder W) (d : Decoder) (m : D A) (out : Bytes) {a : A} {b more : Bytes}
      → Appends written e e' b
      → written e'.writer ≡ written e.writer ++ out
      → rest d ≡ out ++ more
      → (rest d ≡ b ++ more → Pops d (m d) a more)
      → Returned e' d (m d) a more
  returned e e' d m out {more = more} p wrote arrives read_back =
      let same = append_cancel (written e.writer) (sym wrote ∙ p.wrote_bytes) in
      let q = read_back (arrives ∙ ap (λ x. x ++ more) same) in
      record { written_well = p.no_error; value = q.value; read_well = q.no_error; left = q.left }

  -- Into a buffer, without an error so far, `PutMessage` writes every byte string of less than
  -- 2^24 bytes without an error. A reader that has, without an error so far, the bytes written
  -- and any others before it gets the string back from `PopMessage`, and the others are left.
  pub pop_message-put_message :
      (e : Encoder W) (d : Decoder) (b out more : Bytes)
      → e.err ≡ none
      → d.err ≡ none
      → length b < 2 ^ 24
      → written (put_message o e b).writer ≡ written e.writer ++ out
      → rest d ≡ out ++ more
      → Returned (put_message o e b) d (pop_message d) b more
  pop_message-put_message e d b out more clean clean' h wrote arrives =
      returned e (put_message o e b) d pop_message out
        (put_content-Appends lawful (write o) (write-Appends lawful) e b clean h) wrote arrives
        (pop_message-Pops d b more clean' h)

  -- The same for `PutString`, whose wire form is that of `PutMessage`.
  pub pop_message-put_string :
      (e : Encoder W) (d : Decoder) (b out more : Bytes)
      → e.err ≡ none
      → d.err ≡ none
      → length b < 2 ^ 24
      → written (put_string o e b).writer ≡ written e.writer ++ out
      → rest d ≡ out ++ more
      → Returned (put_string o e b) d (pop_message d) b more
  pop_message-put_string e d b out more clean clean' h wrote arrives =
      returned e (put_string o e b) d pop_message out
        (put_content-Appends lawful _ (write_string-Appends lawful) e b clean h) wrote arrives
        (pop_message-Pops d b more clean' h)

  -- The 32-bit and 64-bit words and the two Boolean constructors come back too.
  pub pop_uint-put_uint :
      (e : Encoder W) (d : Decoder) (v : ℕ) (out more : Bytes)
      → e.err ≡ none
      → d.err ≡ none
      → v < 2 ^ 32
      → written (put_uint o e v).writer ≡ written e.writer ++ out
      → rest d ≡ out ++ more
      → Returned (put_uint o e v) d (pop_uint d) v more
  pop_uint-put_uint e d v out more clean clean' h wrote arrives =
      returned e (put_uint o e v) d pop_uint out (put_uint-Appends lawful e v clean) wrote arrives
        (pop_uint-Pops d v more clean' h)

  pub pop_long-put_long :
      (e : Encoder W) (d : Decoder) (v : ℕ) (out more : Bytes)
      → e.err ≡ none
      → d.err ≡ none
      → v < 2 ^ 64
      → written (put_long o e v).writer ≡ written e.writer ++ out
      → rest d ≡ out ++ more
      → Returned (put_long o e v) d (pop_long d) v more
  pop_long-put_long e d v out more clean clean' h wrote arrives =
      returned e (put_long o e v) d pop_long out (put_long-Appends lawful e v clean) wrote arrives
        (pop_long-Pops d v more clean' h)

  pub pop_bool-put_bool :
      (e : Encoder W) (d : Decoder) (v : Bool) (out more : Bytes)
      → e.err ≡ none
      → d.err ≡ none
      → written (put_bool o e v).writer ≡ written e.writer ++ out
      → rest d ≡ out ++ more
      → Returned (put_bool o e v) d (pop_bool d) v more
  pop_bool-put_bool e d v out more clean clean' wrote arrives =
      returned e (put_bool o e v) d pop_bool out (put_bool-Appends lawful e v clean) wrote arrives
        (pop_bool-Pops d v more clean')
