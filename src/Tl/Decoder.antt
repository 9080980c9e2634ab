-- ===== src/Tl/Decoder.antt =====
-- internal/encoding/tl/cursor_r.go: the reader of the primitive values. A `bytes.Reader` is its
-- bytes and a position. A nil slice is the empty one. The pool of large buffers is left out: a
-- buffer from it is filled whole before it is returned.
pub mod Reads
pub mod Message
pub mod Clean
pub mod Content
pub mod Accepted
use gogram.Common.{
  ℕ, ◌+◌, ◌-◌, ◌*◌, ◌%◌, ◌^◌, Bool, true, false, not, ◌||◌, Option, none, some, List, [], ◌∷◌,
  length, take, drop, get_or, ltb, leb, ◌==◌, bit_or, if◌then◌else◌,
}
use gogram.Common.Bytes.{Bytes, from_le}
use gogram.Common.Int.{ℤ, pos, negsuc}
use gogram.Io.{IoError, eof}
use gogram.Tl.Schema.{GoType}
use gogram.Tl.Defs.{
  TlError, io, not_fully_read, invalid_length, not_bool, not_null, prefix_255, exceeds_input,
  void_bytes, reading_size, reading_data, reading_void, magic_number, crc_false, crc_true, crc_null,
}

pub record Decoder : Type 0 where
  pub input : Bytes
  pub at : ℕ
  pub err : Option TlError
  pub depth : ℕ
  pub expected_types : List GoType

abbrev pub D : Type 0 → Type 0
D A = Decoder → Decoder × A

infixl 5 ◌>>=◌
abbrev pub ◌>>=◌ : {A B : Type 0} → D A → (A → D B) → D B
◌>>=◌ m f d = let (d', a) = m d in f a d'

-- `if d.err != nil { return z }` in front of `k`
abbrev pub or_return : {A : Type 0} → A → D A → D A
or_return z k d = elim d.err [ none ↦ k d | some _ ↦ (d, z) ]

-- The same, with the error wrapped.
abbrev pub or_wrap : {A : Type 0} → (TlError → TlError) → A → D A → D A
or_wrap f z k d = elim d.err [ none ↦ k d | some e ↦ (record d { err = some (f e) }, z) ]

abbrev pub give : {A : Type 0} → A → D A
give a d = (d, a)

abbrev pub fail : {A : Type 0} → TlError → A → D A
fail e z d = (record d { err = some e }, z)

abbrev pub new_decoder_bytes : Bytes → Decoder
new_decoder_bytes b = record { input = b; at = 0; err = none; depth = 0; expected_types = [] }

-- The bytes not read yet; `d.buf.Len()` is their number.
abbrev pub rest : Decoder → Bytes
rest d = drop d.at d.input

-- What `bytes.Reader.Read` copies for a slice of `n` bytes: at the end of the input it reports
-- EOF, also for an empty slice.
unfoldable pub read_some : ℕ → D Bytes
read_some n d =
    let got = take n (rest d) in
    if leb (length d.input) d.at
    then (record d { err = some (io eof) }, [])
    else if length got == n
    then (record d { at = d.at + n }, got)
    else (record d { err = some (not_fully_read n (length got)) }, got)

-- On a short read the bytes are put back.
unfoldable pub read : ℕ → D Bytes
read n d = elim d.err [ none ↦ read_some n d | some _ ↦ (d, []) ]

unfoldable pub pop_uint : D ℕ
pop_uint = do val ← read 4; or_return 0 (give (from_le val))

abbrev pub pop_int : D ℕ
pop_int = pop_uint

abbrev pub pop_crc : D ℕ
pop_crc = pop_uint

unfoldable pub pop_long : D ℕ
pop_long = do val ← read 8; or_return 0 (give (from_le val))

abbrev pub pop_double : D ℕ
pop_double = pop_long

unfoldable pub pop_sized : ℕ → D Bytes
pop_sized size d =
    if ltb (length (rest d)) size
    then fail (invalid_length (pos size) (length (rest d))) [] d
    else (read size >>= λ val. or_return [] (give val)) d

unfoldable pub pop_raw_bytes : ℤ → D Bytes
pop_raw_bytes (pos size) = or_return [] (pop_sized size)
pop_raw_bytes (negsuc n) =
    or_return [] (λ d. fail (invalid_length (negsuc n) (length (rest d))) [] d)

unfoldable pub pop_bool : D Bool
pop_bool = do
  crc ← pop_uint
  or_return false (
      if crc == crc_true
      then give true
      else if crc == crc_false
      then give false
      else fail (not_bool crc) false)

unfoldable pub pop_null : D (Unit {0})
pop_null = do
  crc ← pop_uint
  or_return tt (if not (crc == crc_null) then fail (not_null crc) tt else give tt)

unfoldable pub all_zero : Bytes → Bool
all_zero [] = true
all_zero (b ∷ bs) = if b == 0 then all_zero bs else false

-- The bytes that fill the last word up, where the length and the content take `read_len`.
unfoldable pub pop_void : ℕ → Bytes → D Bytes
pop_void read_len buf =
    if not (read_len % 4 == 0)
    then (do
      void ← read (4 - read_len % 4)
      or_wrap reading_void [] (if all_zero void then give buf else fail (void_bytes void) []))
    else give buf

unfoldable pub pop_content : ℕ → ℕ → D Bytes
pop_content len_size real_size d =
    if ltb (length (rest d)) real_size
    then fail (exceeds_input real_size (length (rest d))) [] d
    else (read real_size >>= λ buf. or_wrap reading_data [] (pop_void (len_size + real_size) buf)) d

-- `uint32(b[0]) | uint32(b[1])<<8 | uint32(b[2])<<16`
unfoldable pub size_of_three : Bytes → ℕ
size_of_three b = bit_or (bit_or (get_or b 0 0) (get_or b 1 0 * 2 ^ 8)) (get_or b 2 0 * 2 ^ 16)

unfoldable pub pop_after : ℕ → D Bytes
pop_after first =
    if first == 255
    then fail prefix_255 []
    else if not (first == magic_number)
    then pop_content 1 first
    else (do size_buf ← read 3; or_wrap reading_size [] (pop_content 4 (size_of_three size_buf)))

unfoldable pub pop_message : D Bytes
pop_message = do first ← read 1; or_return [] (pop_after (get_or first 0 0))

-- `GetRestOfMessage`, whose error is that of the decoder.
unfoldable pub get_rest_of_message : D (Option Bytes)
get_rest_of_message d = elim d.err [
  | none ↦ (record d { at = length d.input }, some (rest d))
  | some _ ↦ (d, none)
]

-- `DumpWithoutRead` reads the rest and steps back.
abbrev pub dump_without_read : Decoder → Bytes
dump_without_read = rest

-- A seek to before the start of the input fails, and moves nothing.
unfoldable pub unread : ℕ → Decoder → Decoder
unread n d = if ltb d.at n then d else record d { at = d.at - n }

unfoldable pub expect_types_in_interface : List GoType → Decoder → Decoder
expect_types_in_interface ts d = record d { expected_types = ts }
