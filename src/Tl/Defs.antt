-- ===== src/Tl/Defs.antt =====
-- internal/encoding/tl/const.go, errors.go and `padding4` of utils.go.
use gogram.Common.{ℕ, ◌+◌, ◌-◌, ◌%◌, ◌^◌, ◌<◌, ◌≡◌, bit_and, arith}
use gogram.Common.Bits.{and_three}
use gogram.Common.Bytes.{Bytes}
use gogram.Common.Int.{ℤ}
use gogram.Io.{IoError}

abbrev pub word_len : ℕ
word_len = 4

abbrev pub long_len : ℕ
long_len = 8

abbrev pub int128_len : ℕ
int128_len = 16

abbrev pub int256_len : ℕ
int256_len = 32

abbrev pub magic_number : ℕ
magic_number = 0xfe

abbrev pub crc_vector : ℕ
crc_vector = 0x1cb5c415

abbrev pub crc_false : ℕ
crc_false = 0xbc799737

abbrev pub crc_true : ℕ
crc_true = 0x997275b5

abbrev pub crc_null : ℕ
crc_null = 0x56730bcc

pub data TlError : Type 0 where
  io : IoError → TlError
  partial_write : ℕ → ℕ → TlError
  too_large : ℕ → TlError
  not_fully_read : ℕ → ℕ → TlError
  invalid_length : ℤ → ℕ → TlError
  not_bool not_null : ℕ → TlError
  prefix_255 : TlError
  exceeds_input : ℕ → ℕ → TlError
  void_bytes : Bytes → TlError
  reading_size reading_data reading_void : TlError → TlError
  -- of the reflective encoder
  nil_value nesting unexported no_flags_word bitflag_not_bool empty_partner unsupported : TlError
  flags_position : ℤ → TlError
  in_element : ℕ → TlError → TlError
  not_natural unknown_bit_size big_too_large : TlError
  -- of the reflective decoder
  reading_crc reading_vector_size in_field in_interface in_object : TlError → TlError
  wrong_crc : ℕ → ℕ → TlError
  not_decodable unknown_kind not_assignable not_a_slice : TlError
  not_vector vector_too_long vector_exceeds_input vector_too_large : ℕ → TlError
  not_registered : ℕ → Bytes → TlError
  out_of_fuel : TlError

-- `(-uint64(size)) & 3`
unfoldable pub padding4 : ℕ → ℕ
padding4 size = bit_and ((2 ^ 64 - size % 2 ^ 64) % 2 ^ 64) 3

pub padding4_lem : (size : ℕ) → (padding4 size < 4) × ((size + padding4 size) % 4 ≡ 0)
unfolding padding4
padding4_lem size = omega (arith, and_three ((2 ^ 64 - size % 2 ^ 64) % 2 ^ 64))
