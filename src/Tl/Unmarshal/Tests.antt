-- ===== src/Tl/Unmarshal/Tests.antt =====
-- The theorems on the reflective encoder and decoder at concrete inputs.
use gogram.Common.{◌≡◌, refl, true, false, none, some, arith}
use gogram.Common.Bytes.{Bytes, be_bytes}
use gogram.Common.Int.{pos}
use gogram.Common.Results.{ok}
use gogram.Io.{stream, Writer}
use gogram.Tl.Schema.{pointer, big128, big256, is_zero}
use gogram.Tl.Flags.{has_flag}
use gogram.Tl.FlagLaws.{here, there, field_flags-has_flag}
use gogram.Tl.BigInts.{big_int_bytes, is_bit_length}
use gogram.Tl.BigInts.Laws.{big_int_bytes_lem}
use gogram.Tl.Decoder.{Decoder, new_decoder_bytes}
use gogram.Tl.Marshal.{encode_value}
use gogram.Tl.Unmarshal.Kinds.{decode_value}
use gogram.Tl.Unmarshal.Fuel.{decode_value_fuel}
use gogram.Tl.Unmarshal.Sample.{
  types, program, note_bytes, note_fields, fresh, message, message_layout, tag_at, message_flags,
}
use gogram.Tl.LostError.{encode_value_loses_error}

abbrev note_reader : Decoder
note_reader = new_decoder_bytes note_bytes

fuel_example :
    (decode_value program 129 (pointer 1) note_reader
      ≡ decode_value program 1000 (pointer 1) note_reader)
    × ((decode_value program 129 (pointer 1) note_reader).0.depth ≡ 0)
fuel_example = decode_value_fuel program 128 999 (pointer 1) note_reader (omega arith) (omega arith)

has_flag_example : has_flag (18, 0) (tag_at 4 false) ≡ true
unfolding is_zero
has_flag_example =
    field_flags-has_flag message_layout (tag_at 4 false) (0, 0) message.fields note_fields
      (there (there (there here))) refl refl (omega arith) refl message_flags

big_int_bytes_example : big_int_bytes (some (pos 258)) 128 ≡ ok (be_bytes 16 258)
unfolding is_bit_length
big_int_bytes_example = big_int_bytes_lem 258 128 refl (omega arith)

-- A writer that always fails.
abbrev broken : Writer Bytes
broken = record {
  write = λ w b. (w, 0, some (stream 1));
  write_string = λ w b. (w, 0, some (stream 1));
}

lost_error_example :
    ((encode_value types broken (big128 (some (pos 5))) fresh).err ≡ none)
    × ((encode_value types broken (big256 (some (pos 6))) fresh).err ≡ none)
lost_error_example =
    encode_value_loses_error types broken 5 6 fresh (omega arith) (omega arith) refl (omega arith)
