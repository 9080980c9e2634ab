-- ===== src/Mode/Padded.antt =====
-- internal/mode/padded.go: a 4-byte length, the message, and up to 15 random bytes. The reader
-- finds the end of the message from its content.
pub mod RoundTrip
use gogram.Common.{
  ℕ, ◌+◌, ◌-◌, ◌*◌, ◌/◌, ◌%◌, ◌^◌, Bool, not, ◌&&◌, ◌||◌, [], ◌∷◌, length, take, drop, ltb, leb,
  ◌==◌, bit_and, if◌then◌else◌,
}
use gogram.Common.Bytes.{Bytes, le_bytes, from_le}
use gogram.Common.Results.{Result, ok, err, Run, ◌>>=◌, ◌>>◌, guard, pass}
use gogram.Io.{IoError, Conn}
use gogram.Mode.Frame.{
  ModeError, io, invalid_size, bad_count, not_multiple, invalid_payload, max_message_size,
  write_frame, read_bytes,
}

abbrev pub announcement : Bytes
announcement = 0xdd ∷ 0xdd ∷ 0xdd ∷ 0xdd ∷ []

-- An error of `rand.Read` is returned as it is.
abbrev pub drawn : {S A : Type 0} → Result IoError A → Run S ModeError A
drawn (ok a) s = (s, ok a)
drawn (err e) s = (s, err (io e))

module _ {S : Type 0} (c : Conn S) where
  unfoldable pub write_padding : (ℕ → Result IoError Bytes) → ℕ → Run S ModeError (Unit {0})
  write_padding fill pad_len =
      if ltb 0 pad_len then (do padding ← drawn (fill pad_len); write_frame c padding) else pass tt

  -- `draw` is the byte that the first `rand.Read` gives, and `fill n` what the second one gives
  -- for `n` bytes.
  unfoldable pub write_msg :
      Result IoError ℕ → (ℕ → Result IoError Bytes) → Bytes → Run S ModeError (Unit {0})
  write_msg draw fill msg = do
    guard (not (ltb (length msg) 4 || ltb (max_message_size - 15) (length msg)))
        (invalid_size (length msg))
    guard (length msg % 4 == 0) (not_multiple (length msg))
    pad ← drawn draw
    let pad_len = bit_and pad 0x0f
    write_frame c (le_bytes 4 ((length msg + pad_len) % 2 ^ 32))
    write_frame c msg
    write_padding fill pad_len

  unfoldable pub read_frame : Run S ModeError Bytes
  read_frame = do
    len_buf ← read_bytes c 4
    guard (length len_buf == 4) (bad_count (length len_buf))
    let total = from_le len_buf
    guard (not (ltb total 4 || ltb max_message_size total)) (invalid_size total)
    read_bytes c total

-- `int32(...) < -1` for a 32-bit word: the sign bit is set, and it is not -1.
abbrev pub is_below_minus_one : ℕ → Bool
is_below_minus_one w = leb (2 ^ 31) w && not (w == 2 ^ 32 - 1)

abbrev pub inner_length : Bytes → ℕ
inner_length buf = from_le (take 4 (drop 16 buf))

-- `int(...)` of 64 bits is the word itself.
abbrev pub is_inner_length : ℕ → ℕ → Bool
is_inner_length inner total = leb 4 inner && (inner % 4 == 0 && leb inner (total - 20))

unfoldable pub strip_unencrypted : Bytes → Result ModeError Bytes
strip_unencrypted buf =
    if is_inner_length (inner_length buf) (length buf)
    then ok (take (20 + inner_length buf) buf)
    else err (invalid_payload (inner_length buf) (length buf))

unfoldable pub strip_encrypted : Bytes → Bytes
strip_encrypted buf =
    if not (length buf % 16 == 8) then take ((length buf - 8) / 16 * 16 + 8) buf else buf

unfoldable pub strip_padding : Bytes → Result ModeError Bytes
strip_padding buf =
    if leb (length buf) 19 && is_below_minus_one (from_le (take 4 buf))
    then ok (take 4 buf)
    else if leb 24 (length buf)
    then if from_le (take 8 buf) == 0 then strip_unencrypted buf else ok (strip_encrypted buf)
    else ok (if not (length buf % 4 == 0) then take (length buf / 4 * 4) buf else buf)

abbrev pub returned : {S A : Type 0} → Result ModeError A → Run S ModeError A
returned r s = (s, r)

module _ {S : Type 0} (c : Conn S) where
  unfoldable pub read_msg : Run S ModeError Bytes
  read_msg = do buf ← read_frame c; returned (strip_padding buf)
