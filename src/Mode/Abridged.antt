-- ===== src/Mode/Abridged.antt =====
-- internal/mode/arbiged.go: the abridged framing. Lengths count 4-byte words, in one byte below
-- 127 and in three bytes behind the byte 127 from there on.
pub mod RoundTrip
use gogram.Common.{
  ℕ, ◌*◌, ◌/◌, ◌%◌, ◌^◌, Bool, not, ◌||◌, [], ◌∷◌, ◌++◌, length, get_or, ltb, ◌==◌, bit_or,
  if◌then◌else◌,
}
use gogram.Common.Bytes.{Bytes, le_bytes, from_le}
use gogram.Common.Results.{Run, ◌>>=◌, ◌>>◌, guard, pass}
use gogram.Io.{Conn}
use gogram.Mode.Frame.{
  ModeError, invalid_size, invalid_prefix, bad_count, not_multiple, max_message_size, write_frame,
  read_bytes,
}

-- `magicValueSizeMoreThanSingleByte`
abbrev pub magic : ℕ
magic = 0x7f

abbrev pub announcement : Bytes
announcement = 0xef ∷ []

-- The length bytes for a message of `words` words.
unfoldable pub header : ℕ → Bytes
header words =
    if ltb words magic
    then words % 256 ∷ []
    else le_bytes 4 (bit_or (words % 2 ^ 32 * 2 ^ 8 % 2 ^ 32) magic)

abbrev out_of_range : ℕ → Bool
out_of_range size = ltb size 4 || ltb max_message_size size

module _ {S : Type 0} (c : Conn S) where
  unfoldable pub write_msg : Bytes → Run S ModeError (Unit {0})
  write_msg msg = do
    guard (not (out_of_range (length msg))) (invalid_size (length msg))
    guard (length msg % 4 == 0) (not_multiple (length msg))
    write_frame c (header (length msg / 4))
    write_frame c msg

  -- `binary.LittleEndian.Uint32(sizeBuf)`, where three of the four bytes are read anew and the
  -- last one is still 0.
  unfoldable pub read_long_size : Run S ModeError ℕ
  read_long_size = do
    three ← read_bytes c 3
    guard (length three == 3) (bad_count (length three))
    pass (from_le (three ++ (0 ∷ [])))

  unfoldable pub read_size : ℕ → Run S ModeError ℕ
  read_size first = if first == magic then read_long_size else pass first

  unfoldable pub read_body : ℕ → Run S ModeError Bytes
  read_body size = do
    guard (not (out_of_range size)) (invalid_size size)
    msg ← read_bytes c size
    guard (length msg == size) (bad_count (length msg))
    pass msg

  unfoldable pub read_msg : Run S ModeError Bytes
  read_msg = do
    first ← read_bytes c 1
    guard (length first == 1) (bad_count (length first))
    let size = get_or first 0 0
    guard (not (ltb 127 size)) (invalid_prefix size)
    words ← read_size size
    read_body (words * 4)
