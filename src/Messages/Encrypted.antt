-- ===== src/Messages/Encrypted.antt =====
-- internal/mtproto/messages/messages.go: Encrypted. Numbers stand for their two's complement
-- words. SHA-1, AES and the random source are parameters, and so is `bytes.Buffer`.
pub mod Parsing
pub mod Trusted
pub mod Packet
pub mod Wire
pub mod Delivery
use gogram.Common.{
  ℕ, ◌+◌, ◌-◌, ◌%◌, ◌^◌, Bool, true, not, ◌&&◌, ◌||◌, Option, none, some, [], length, take, drop,
  bit_and, ltb, ◌==◌, if◌then◌else◌,
}
use gogram.Common.Int.{ℤ, pos, negsuc, signed32}
use gogram.Common.Bytes.{Bytes, le_bytes, same_bytes}
use gogram.Common.Results.{Result, ok, err}
use gogram.Io.{Writer}
use gogram.Aes.Ige.{IgeError}
use gogram.Aes.Message.{Crypto, message_key, encrypt, decrypt}
use gogram.Tl.Defs.{TlError}
use gogram.Tl.Encoder.{put_long, put_int, put_raw_bytes}
use gogram.Tl.Decoder.{Decoder, new_decoder_bytes, pop_raw_bytes, pop_long, pop_int}
use gogram.Messages.Plain.{new_encoder}

-- `auth_key` is nil in a message that was read.
pub record Encrypted : Type 0 where
  pub msg : Bytes
  pub msg_id : ℕ
  pub auth_key_hash : Bytes
  pub auth_key : Option Bytes
  pub salt : ℕ
  pub session_id : ℕ
  pub seq_no : ℕ
  pub msg_key : Bytes

pub record MessageInformator : Type 0 where
  pub get_session_id : ℕ
  pub get_seq_no : ℕ
  pub get_server_salt : ℕ
  pub get_auth_key : Bytes

abbrev pub packet_info : Bytes → ℕ → ℕ → ℕ → MessageInformator
packet_info key salt session seq = record {
  get_session_id = session;
  get_seq_no = seq;
  get_server_salt = salt;
  get_auth_key = key;
}

pub data EnvelopeError : Type 0 where
  invalid_input wrong_key wrong_message_key negative_seq_no : EnvelopeError
  encrypting decrypting : IgeError → EnvelopeError
  bad_length : ℕ → ℕ → EnvelopeError
  bad_padding bad_id_bits : ℕ → EnvelopeError
  reading : TlError → EnvelopeError

unfoldable pub client_for : Option Bytes → Encrypted → MessageInformator → ℕ → MessageInformator
client_for none m client seq_no = client
client_for (some key) m client seq_no = packet_info key m.salt m.session_id seq_no

module _ {W : Type 0} (w : Writer W) (bytes_of : W → Bytes) (new_buffer : W) where
  unfoldable pub serialize_packet : MessageInformator → Bytes → ℕ → ℕ → Bytes
  serialize_packet client msg message_id seq_no =
      let salt_bytes = le_bytes 8 client.get_server_salt in
      let e1 = put_raw_bytes w (new_encoder new_buffer) salt_bytes in
      let e2 = put_long w e1 client.get_session_id in
      let e3 = put_long w e2 message_id in
      let e4 = put_int w e3 seq_no in
      let e5 = put_int w e4 (length msg % 2 ^ 32) in bytes_of (put_raw_bytes w e5 msg).writer

  unfoldable pub put_envelope : Bytes → Result IgeError (Bytes × Bytes) → Result EnvelopeError Bytes
  put_envelope key_hash (err e) = err (encrypting e)
  put_envelope key_hash (ok (encrypted_data, msg_key)) =
      let e1 = put_raw_bytes w (new_encoder new_buffer) key_hash in
      let e2 = put_raw_bytes w e1 msg_key in
      ok (bytes_of (put_raw_bytes w e2 encrypted_data).writer)

-- `Sha1Byte(key)[12:20]`
unfoldable pub auth_key_hash_of : (Bytes → Bytes) → Bytes → Bytes
auth_key_hash_of sha1 key = take 8 (drop 12 (sha1 key))

-- An `int32` below a bound.
abbrev pub int_below : ℤ → ℕ → Bool
int_below (pos v) n = ltb v n
int_below (negsuc v) n = true

-- Where the first test fails the length is not negative, and its word is its value.
unfoldable pub is_bad_length : ℕ → ℕ → Bool
is_bad_length message_len size =
    (int_below (signed32 message_len) 4 || not (message_len % 4 == 0))
    || ltb (size - 32) message_len

-- `return msg, d.CheckErr()`
unfoldable pub with_check_err : Encrypted → Option TlError → Result EnvelopeError Encrypted
with_check_err m none = ok m
with_check_err m (some e) = err (reading e)

unfoldable pub with_body : Encrypted → Decoder × Bytes → Result EnvelopeError Encrypted
with_body m r = with_check_err (record m { msg = r.1 }) r.0.err

unfoldable pub check_fields : Encrypted → ℕ → ℕ → Decoder → Result EnvelopeError Encrypted
check_fields m message_len size d =
    let padding_len = size - 32 - message_len in
    let low = bit_and m.msg_id 3 in
    if is_bad_length message_len size
    then err (bad_length message_len size)
    else if ltb padding_len 12 || ltb 1024 padding_len
    then err (bad_padding padding_len)
    else if not (ltb m.seq_no (2 ^ 31))
    then err negative_seq_no
    else if not (low == 1) && not (low == 3)
    then err (bad_id_bits low)
    else with_body m (pop_raw_bytes (pos message_len) d)

unfoldable pub read_fields : Encrypted → ℕ → Decoder → Result EnvelopeError Encrypted
read_fields m size d =
    let (d1, salt) = pop_long d in
    let (d2, session) = pop_long d1 in
    let (d3, id) = pop_long d2 in
    let (d4, seq) = pop_int d3 in
    let (d5, message_len) = pop_int d4 in
    check_fields (record m { salt = salt; session_id = session; msg_id = id; seq_no = seq })
      message_len size d5

-- The message before its fields are read.
abbrev pub fresh_message : Bytes → Bytes → Encrypted
fresh_message key_hash msg_key = record {
  msg = [];
  msg_id = 0;
  auth_key_hash = key_hash;
  auth_key = none;
  salt = 0;
  session_id = 0;
  seq_no = 0;
  msg_key = msg_key;
}

module _ (o : Crypto) (sha1 : Bytes → Bytes) where
  unfoldable pub serialize_encrypted :
      {W : Type 0}
      → Writer W
      → (W → Bytes)
      → W
      → Encrypted
      → MessageInformator
      → ℕ
      → Result EnvelopeError Bytes
  serialize_encrypted w bytes_of new_buffer m client seq_no =
      let used = client_for m.auth_key m client seq_no in
      let obj = serialize_packet w bytes_of new_buffer used m.msg m.msg_id seq_no in
      put_envelope w bytes_of new_buffer (auth_key_hash_of sha1 used.get_auth_key)
        (encrypt o obj used.get_auth_key)

  unfoldable pub authenticated :
      Encrypted → Bytes → Result IgeError Bytes → Result EnvelopeError Encrypted
  authenticated m auth_key (err e) = err (decrypting e)
  authenticated m auth_key (ok decrypted) =
      if not (same_bytes (message_key o auth_key decrypted true) m.msg_key)
      then err wrong_message_key
      else read_fields m (length decrypted) (new_decoder_bytes decrypted)

  unfoldable pub check_key_hash : Bytes → ℕ → Decoder × Bytes → Result EnvelopeError Encrypted
  check_key_hash auth_key size r =
      let (d1, msg_key) = pop_raw_bytes (pos 16) r.0 in
      let (d2, encrypted_data) = pop_raw_bytes (pos (size - (8 + 16))) d1 in
      if not (same_bytes r.1 (auth_key_hash_of sha1 auth_key))
      then err wrong_key
      else authenticated (fresh_message r.1 msg_key) auth_key
          (decrypt o encrypted_data auth_key msg_key)

  unfoldable pub deserialize_encrypted : Bytes → Bytes → Result EnvelopeError Encrypted
  deserialize_encrypted input auth_key =
      if (not (length auth_key == 256) || ltb (length input) (24 + 48))
        || not ((length input - 24) % 16 == 0)
      then err invalid_input
      else check_key_hash auth_key (length input) (pop_raw_bytes (pos 8) (new_decoder_bytes input))
