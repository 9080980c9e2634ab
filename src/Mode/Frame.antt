-- ===== src/Mode/Frame.antt =====
-- internal/mode/mode.go and errors.go: the errors of the framings, `writeFrame`, and reading a
-- slice of a fixed size.
use gogram.Common.{
  ℕ, ◌*◌, ◌≤◌, ◌≡◌, ap, ◌∙◌, Option, none, some, ◌++◌, length, take, drop, take_prefix, drop_prefix,
  length-append, arith, ◌==◌, if◌then◌else◌,
}
use gogram.Common.Bytes.{Bytes}
use gogram.Common.Results.{Result, ok, err, Run}
use gogram.Io.{IoError, short_write, Conn, IsStream}

pub data ModeError : Type 0 where
  io : IoError → ModeError
  interface_is_nil mode_not_supported checksum_mismatch message_too_large : ModeError
  invalid_size invalid_prefix bad_count : ℕ → ModeError
  not_multiple : ℕ → ModeError
  unexpected_sequence invalid_payload : ℕ → ℕ → ModeError
  setup_failed : ModeError → ModeError

abbrev pub max_message_size : ℕ
max_message_size = 16 * 1024 * 1024

module _ {S : Type 0} where
  abbrev pub taken : ℕ → S × ℕ × Option IoError → S × Result ModeError (Unit {0})
  taken size (s, n, none) = (s, if n == size then ok tt else err (io short_write))
  taken size (s, n, some e) = (s, err (io e))

  -- What `io.ReadFull` stored, or its error.
  abbrev pub stored : S × Bytes × Option IoError → S × Result ModeError Bytes
  stored (s, b, none) = (s, ok b)
  stored (s, b, some e) = (s, err (io e))

module _ {S : Type 0} (c : Conn S) where
  unfoldable pub write_frame : Bytes → Run S ModeError (Unit {0})
  write_frame b s = taken (length b) (c.write s b)

  unfoldable pub read_bytes : ℕ → Run S ModeError Bytes
  read_bytes n s = stored (c.read_full s n)

module _ {S : Type 0} {c : Conn S} {sent pending : S → Bytes}
    (lawful : IsStream c sent pending) where
  pub write_frame_sends :
      (b : Bytes) (s : S)
      → (s' : S) × (write_frame c b s ≡ (s', ok tt))
        × (sent s' ≡ sent s ++ b)
        × (pending s' ≡ pending s)
  unfolding write_frame
  write_frame_sends b s = (
    (c.write s b).0,
    ground (arith, lawful.write_count s b, lawful.write_err s b),
    lawful.write_sent s b,
    lawful.write_pending s b,
  )

  pub read_bytes_exact :
      (n : ℕ) (xs ys : Bytes) (s : S)
      → pending s ≡ xs ++ ys
      → n ≡ length xs
      → (s' : S) × (read_bytes c n s ≡ (s', ok xs)) × (pending s' ≡ ys) × (sent s' ≡ sent s)
  unfolding read_bytes
  read_bytes_exact n xs ys s here size = (
    (c.read_full s n).0,
    ground (
      arith,
      lawful.read_data s n enough,
      lawful.read_err s n enough,
      ap (take n) here,
      take_prefix n xs ys size,
    ),
    lawful.read_pending s n ∙ ap (drop n) here ∙ drop_prefix n xs ys size,
    lawful.read_sent s n,
  )
    where
      enough : n ≤ length (pending s)
      enough = rw here (omega (arith, length-append xs ys))
