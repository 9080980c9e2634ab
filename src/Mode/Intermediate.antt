-- ===== src/Mode/Intermediate.antt =====
-- internal/mode/intermediate.go: a 4-byte length in front of each message.
pub mod RoundTrip
use gogram.Common.{ℕ, ◌%◌, ◌^◌, Bool, not, ◌||◌, [], ◌∷◌, ◌++◌, length, ltb, ◌==◌}
use gogram.Common.Bytes.{Bytes, le_bytes, from_le}
use gogram.Common.Results.{Run, ◌>>=◌, ◌>>◌, guard, pass}
use gogram.Io.{Conn}
use gogram.Mode.Frame.{
  ModeError, invalid_size, bad_count, max_message_size, write_frame, read_bytes,
}

abbrev pub announcement : Bytes
announcement = 0xee ∷ 0xee ∷ 0xee ∷ 0xee ∷ []

abbrev refused : ℕ → Bool
refused size = ltb size 4 || (ltb max_message_size size || not (size % 4 == 0))

module _ {S : Type 0} (c : Conn S) where
  unfoldable pub write_msg : Bytes → Run S ModeError (Unit {0})
  write_msg msg = do
    guard (not (refused (length msg))) (invalid_size (length msg))
    write_frame c (le_bytes 4 (length msg % 2 ^ 32) ++ msg)

  unfoldable pub read_msg : Run S ModeError Bytes
  read_msg = do
    size_buf ← read_bytes c 4
    guard (length size_buf == 4) (bad_count (length size_buf))
    let size = from_le size_buf
    guard (not (refused size)) (invalid_size size)
    msg ← read_bytes c size
    guard (length msg == size) (bad_count (length msg))
    pass msg
