-- ===== src/Mode/Full.antt =====
-- internal/mode/full.go: length, sequence number, message and checksum. `checksum` is
-- `crc32.ChecksumIEEE`, a parameter: nothing here depends on which function it is.
pub mod RoundTrip
use gogram.Common.{ℕ, ◌+◌, ◌-◌, ◌%◌, ◌^◌, not, ◌||◌, ◌++◌, length, take, drop, ltb, ◌==◌}
use gogram.Common.Bytes.{Bytes, le_bytes, from_le}
use gogram.Common.Results.{Result, ok, Run, after, ◌>>=◌, ◌>>◌, guard}
use gogram.Io.{Conn}
use gogram.Mode.Frame.{
  ModeError, invalid_size, message_too_large, checksum_mismatch, unexpected_sequence,
  max_message_size, write_frame, read_bytes,
}

-- The connection with the two counters of `full`, `uint32` both.
pub record Full (S : Type 0) : Type 0 where
  pub conn : S
  pub seq_no : ℕ
  pub read_seq : ℕ

module _ {S : Type 0} where
  -- A call on the connection, inside a call on the whole state.
  abbrev pub within : {A : Type 0} → Full S → S × Result ModeError A → Full S × Result ModeError A
  within f (s, r) = (record f { conn = s }, r)

  abbrev pub lift : {A : Type 0} → Run S ModeError A → Run (Full S) ModeError A
  lift m f = within f (m f.conn)

  unfoldable pub bump_seq_no : Run (Full S) ModeError (Unit {0})
  bump_seq_no f = (record f { seq_no = (f.seq_no + 1) % 2 ^ 32 }, ok tt)

  unfoldable pub bump_read_seq : Run (Full S) ModeError (Unit {0})
  bump_read_seq f = (record f { read_seq = (f.read_seq + 1) % 2 ^ 32 }, ok tt)

-- The bytes under the checksum: a header of 8 bytes and the message.
unfoldable pub checked_part : ℕ → Bytes → Bytes
checked_part seq msg = le_bytes 4 ((length msg + 12) % 2 ^ 32) ++ (le_bytes 4 seq ++ msg)

unfoldable pub packet : (Bytes → ℕ) → ℕ → Bytes → Bytes
packet checksum seq msg = checked_part seq msg ++ le_bytes 4 (checksum (checked_part seq msg))

module _ {S : Type 0} (c : Conn S) (checksum : Bytes → ℕ) where
  unfoldable pub write_msg : Bytes → Run (Full S) ModeError (Unit {0})
  write_msg msg f =
      after (guard (not (ltb (max_message_size - 12) (length msg))) message_too_large f)
        λ _ f. after (lift (write_frame c (packet checksum f.seq_no msg)) f) λ _ f. bump_seq_no f

  -- The tests on a whole packet `buf` of `size` bytes.
  unfoldable pub accept : ℕ → Bytes → Run (Full S) ModeError Bytes
  accept size buf f =
      let seq = from_le (take 4 (drop 4 buf)) in
      let sum = from_le (take 4 (drop (size - 4) buf)) in
      after (guard (checksum (take (size - 4) buf) == sum) checksum_mismatch f) λ _ f.
        after (guard (seq == f.read_seq) (unexpected_sequence seq f.read_seq) f)
          λ _ f. after (bump_read_seq f) λ _ f. (f, ok (drop 8 (take (size - 4) buf)))

  unfoldable pub read_msg : Run (Full S) ModeError Bytes
  read_msg = do
    bsize ← lift (read_bytes c 4)
    let size = from_le bsize
    guard (not (ltb size 12 || ltb max_message_size size)) (invalid_size size)
    rest ← lift (read_bytes c (size - 4))
    accept size (bsize ++ rest)
