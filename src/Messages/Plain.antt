-- ===== src/Messages/Plain.antt =====
-- internal/mtproto/messages/messages.go: Unencrypted. `bytes.Buffer` is a writer, with the bytes
-- that it holds and a new one as parameters.
use gogram.Common.{
  ℕ, ◌+◌, ◌-◌, ◌%◌, ◌^◌, not, ◌&&◌, ◌||◌, Option, none, some, length, take, bit_and, ltb, ◌==◌,
  if◌then◌else◌,
}
use gogram.Common.Int.{pos}
use gogram.Common.Bytes.{Bytes, from_le}
use gogram.Common.Results.{Result, ok, err}
use gogram.Io.{Writer}
use gogram.Tl.Encoder.{Encoder, put_long, put_int, put_raw_bytes}
use gogram.Tl.Decoder.{
  Decoder, new_decoder_bytes, pop_raw_bytes, pop_long, pop_uint, get_rest_of_message,
}

pub record Unencrypted : Type 0 where
  pub msg : Bytes
  pub msg_id : ℕ

pub data MessageError : Type 0 where
  invalid_header no_rest : MessageError
  wrong_id_bits : ℕ → MessageError
  wrong_size : ℕ → ℕ → MessageError

abbrev pub new_encoder : {W : Type 0} → W → Encoder W
new_encoder w = record { writer = w; err = none; depth = 0 }

-- `Serialize`; it returns no error of the encoder.
unfoldable pub serialize_unencrypted :
    {W : Type 0} → Writer W → (W → Bytes) → W → Unencrypted → Bytes
serialize_unencrypted o bytes_of new_buffer m =
    let e1 = put_long o (new_encoder new_buffer) 0 in
    let e2 = put_long o e1 m.msg_id in
    let e3 = put_int o e2 (length m.msg % 2 ^ 32) in bytes_of (put_raw_bytes o e3 m.msg).writer

unfoldable pub finish : ℕ → Decoder × Option Bytes → Result MessageError Unencrypted
finish id (d, none) = err no_rest
finish id (d, some msg) = ok record { msg = msg; msg_id = id }

unfoldable pub check_size : ℕ → ℕ → Decoder × ℕ → Result MessageError Unencrypted
check_size size id r =
    if (ltb r.1 4 || not (r.1 % 4 == 0)) || not (size - (8 + 8 + 4) == r.1)
    then err (wrong_size size r.1)
    else finish id (get_rest_of_message r.0)

unfoldable pub check_id : ℕ → Decoder × ℕ → Result MessageError Unencrypted
check_id size r =
    let low = bit_and r.1 3 in
    if not (low == 1) && not (low == 3)
    then err (wrong_id_bits low)
    else check_size size r.1 (pop_uint r.0)

unfoldable pub after_header : ℕ → Decoder × Bytes → Result MessageError Unencrypted
after_header size r = check_id size (pop_long r.0)

unfoldable pub deserialize_unencrypted : Bytes → Result MessageError Unencrypted
deserialize_unencrypted input =
    if ltb (length input) 24 || not (from_le (take 8 input) == 0)
    then err invalid_header
    else after_header (length input) (pop_raw_bytes (pos 8) (new_decoder_bytes input))
