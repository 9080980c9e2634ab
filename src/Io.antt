-- ===== src/Io.antt =====
-- The streams that the program reads and writes: the interfaces `io.Writer` and `io.ReadWriter`
-- are implemented outside the repository, and `io.ReadFull` ends as its documentation says.
pub mod Pipe
use gogram.Common.{ℕ, ◌≤◌, ◌<◌, ◌≡◌, ◌++◌, Option, none, some, length, take, drop}
use gogram.Common.Bytes.{Bytes}

-- `io.EOF`, `io.ErrUnexpectedEOF`, `io.ErrShortWrite`, or an error that the stream reports, known
-- by a number.
pub data IoError : Type 0 where
  eof unexpected_eof short_write : IoError
  stream : ℕ → IoError

-- `Write` returns the bytes taken and an error. `read_full s n` is `io.ReadFull` on a slice of
-- `n` bytes: what it has stored there, and an error.
pub record Conn (S : Type 0) : Type 0 where
  pub write : S → Bytes → S × ℕ × Option IoError
  pub read_full : S → ℕ → S × Bytes × Option IoError

-- A stream in order: it takes every write whole, and hands out `pending` in order.
pub record IsStream {S : Type 0} (c : Conn S) (sent pending : S → Bytes) : Type 0 where
  pub write_sent : (s : S) (b : Bytes) → sent (c.write s b).0 ≡ sent s ++ b
  pub write_pending : (s : S) (b : Bytes) → pending (c.write s b).0 ≡ pending s
  pub write_count : (s : S) (b : Bytes) → (c.write s b).1 ≡ length b
  pub write_err : (s : S) (b : Bytes) → (c.write s b).2 ≡ none
  pub read_data :
      (s : S) (n : ℕ) → n ≤ length (pending s) → (c.read_full s n).1 ≡ take n (pending s)
  pub read_err : (s : S) (n : ℕ) → n ≤ length (pending s) → (c.read_full s n).2 ≡ none
  pub read_pending : (s : S) (n : ℕ) → pending (c.read_full s n).0 ≡ drop n (pending s)
  pub read_sent : (s : S) (n : ℕ) → sent (c.read_full s n).0 ≡ sent s
  pub read_short :
      (s : S) (n : ℕ) → length (pending s) < n → (e : IoError) × ((c.read_full s n).2 ≡ some e)

-- An `io.Writer`, which may also be an `io.StringWriter`.
pub record Writer (W : Type 0) : Type 0 where
  pub write : W → Bytes → W × ℕ × Option IoError
  pub write_string : W → Bytes → W × ℕ × Option IoError

-- A writer that takes every write whole, as `bytes.Buffer` does.
pub record IsBuffer {W : Type 0} (o : Writer W) (written : W → Bytes) : Type 0 where
  pub write_written : (w : W) (b : Bytes) → written (o.write w b).0 ≡ written w ++ b
  pub write_count : (w : W) (b : Bytes) → (o.write w b).1 ≡ length b
  pub write_err : (w : W) (b : Bytes) → (o.write w b).2 ≡ none
  pub string_written : (w : W) (b : Bytes) → written (o.write_string w b).0 ≡ written w ++ b
  pub string_count : (w : W) (b : Bytes) → (o.write_string w b).1 ≡ length b
  pub string_err : (w : W) (b : Bytes) → (o.write_string w b).2 ≡ none
