-- ===== src/Tl/Encoder.antt =====
-- internal/encoding/tl/cursor_w.go: the writer of the primitive values. Integers stand for their
-- two's complement words and a `float64` for its bits, so `int32`, `int64` and `float64` are
-- written as they are.
pub mod Appends
use gogram.Common.{
  ℕ, ◌+◌, ◌*◌, ◌%◌, ◌^◌, Bool, Option, none, some, [], ◌∷◌, length, replicate, ltb, ◌==◌, bit_or,
  if◌then◌else◌,
}
use gogram.Common.Bytes.{Bytes, le_bytes}
use gogram.Io.{IoError, Writer}
use gogram.Tl.Defs.{
  TlError, io, partial_write, too_large, magic_number, crc_false, crc_true, padding4,
}

-- `depth` counts the nesting of the values being written.
pub record Encoder (W : Type 0) : Type 0 where
  pub depth : ℕ
  pub writer : W
  pub err : Option TlError

module _ {W : Type 0} where
  abbrev pub wrote : Encoder W → ℕ → W × ℕ × Option IoError → Encoder W
  wrote e size (w, n, none) = record e {
    writer = w;
    err = if n == size then none else some (partial_write n size);
  }
  wrote e size (w, n, some x) = record e { writer = w; err = some (io x) }

module _ {W : Type 0} (o : Writer W) where
  -- Nothing is written after an error.
  unfoldable pub write : Encoder W → Bytes → Encoder W
  write e b = elim e.err [ none ↦ wrote e (length b) (o.write e.writer b) | some _ ↦ e ]

  unfoldable pub write_string : Encoder W → Bytes → Encoder W
  write_string e b = elim e.err [
    | none ↦ wrote e (length b) (o.write_string e.writer b)
    | some _ ↦ e
  ]

  unfoldable pub put_uint8 : Encoder W → ℕ → Encoder W
  put_uint8 e v = write e (v ∷ [])

  unfoldable pub put_uint : Encoder W → ℕ → Encoder W
  put_uint e v = write e (le_bytes 4 v)

  abbrev pub put_crc : Encoder W → ℕ → Encoder W
  put_crc = put_uint

  abbrev pub put_int : Encoder W → ℕ → Encoder W
  put_int = put_uint

  unfoldable pub put_long : Encoder W → ℕ → Encoder W
  put_long e v = write e (le_bytes 8 v)

  abbrev pub put_double : Encoder W → ℕ → Encoder W
  put_double = put_long

  unfoldable pub put_bool : Encoder W → Bool → Encoder W
  put_bool e v = put_uint e (if v then crc_true else crc_false)

  abbrev pub put_raw_bytes : Encoder W → Bytes → Encoder W
  put_raw_bytes = write

  unfoldable pub put_padding : Encoder W → ℕ → Encoder W
  put_padding e pad = if ltb 0 pad then write e (replicate pad 0) else e

  -- The content and its padding, for a length byte and for a length word in front.
  unfoldable pub put_short : (Encoder W → Bytes → Encoder W) → Encoder W → Bytes → Encoder W
  put_short body e b =
      put_padding (body (put_uint8 e (length b % 2 ^ 8)) b) (padding4 (length b + 1))

  unfoldable pub put_long_form : (Encoder W → Bytes → Encoder W) → Encoder W → Bytes → Encoder W
  put_long_form body e b =
      put_padding (body (put_uint e (bit_or (length b % 2 ^ 32 * 2 ^ 8 % 2 ^ 32) magic_number)) b)
        (padding4 (length b))

  -- `PutMessage` and `PutString` differ only in the call that writes the content.
  unfoldable pub put_content : (Encoder W → Bytes → Encoder W) → Encoder W → Bytes → Encoder W
  put_content body e b =
      if ltb (2 ^ 24) (length b)
      then record e { err = some (too_large (length b)) }
      else if length b == 0
      then put_uint e 0
      else if ltb (length b) magic_number
      then put_short body e b
      else put_long_form body e b

  abbrev pub put_message : Encoder W → Bytes → Encoder W
  put_message = put_content write

  abbrev pub put_string : Encoder W → Bytes → Encoder W
  put_string = put_content write_string
