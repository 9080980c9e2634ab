-- ===== src/Objects/Container.antt =====
-- internal/mtproto/objects/types.go: MessageContainer, several messages in one.
pub mod Written
pub mod Items
pub mod RoundTrip
use gogram.Common.{
  ℕ, zero, suc, ◌+◌, ◌%◌, ◌^◌, not, ◌||◌, Option, none, some, List, [], ◌∷◌, length, ltb, ◌==◌,
  if◌then◌else◌,
}
use gogram.Common.Int.{pos, signed32}
use gogram.Common.Bytes.{Bytes}
use gogram.Common.Results.{Result, ok, err}
use gogram.Io.{Writer}
use gogram.Tl.Defs.{TlError}
use gogram.Tl.Encoder.{Encoder, put_uint, put_int, put_long, put_raw_bytes}
use gogram.Tl.Decoder.{Decoder, pop_int, pop_long, pop_raw_bytes}
use gogram.Messages.Encrypted.{Encrypted, int_below, fresh_message}

abbrev pub container_crc : ℕ
container_crc = 1945237724

abbrev pub max_container_messages : ℕ
max_container_messages = 1024

-- The number of the item stands with its error.
pub data ContainerError : Type 0 where
  bad_count bad_size : ℕ → ContainerError
  item : ℕ → TlError → ContainerError
  reading : TlError → ContainerError

module _ {W : Type 0} (o : Writer W) where
  unfoldable pub put_item : Encoder W → Encrypted → Encoder W
  put_item e msg =
      let e1 = put_long o e msg.msg_id in
      let e2 = put_int o e1 msg.seq_no in
      put_raw_bytes o (put_int o e2 (length msg.msg % 2 ^ 32)) msg.msg

  unfoldable pub put_items : Encoder W → List Encrypted → Encoder W
  put_items e [] = e
  put_items e (msg ∷ rest) = put_items (put_item e msg) rest

  unfoldable pub put_after_count :
      Option TlError → Encoder W → List Encrypted → Encoder W × Option TlError
  put_after_count (some x) e messages = (e, some x)
  put_after_count none e messages = let e' = put_items e messages in (e', e'.err)

  unfoldable pub marshal_container : List Encrypted → Encoder W → Encoder W × Option TlError
  marshal_container messages e =
      let counted = put_int o (put_uint o e container_crc) (length messages % 2 ^ 32) in
      put_after_count counted.err counted messages

-- The `CheckErr` behind an item.
unfoldable pub checked_item :
    ℕ → Encrypted → Decoder → Option TlError → Decoder × Result ContainerError Encrypted
checked_item i msg d none = (d, ok msg)
checked_item i msg d (some x) = (d, err (item i x))

unfoldable pub read_content :
    ℕ → Encrypted → Decoder × Bytes → Decoder × Result ContainerError Encrypted
read_content i msg r = checked_item i (record msg { msg = r.1 }) r.0 r.0.err

unfoldable pub read_item : ℕ → Decoder → Decoder × Result ContainerError Encrypted
read_item i d =
    let (d1, id) = pop_long d in
    let (d2, seq) = pop_int d1 in
    let (d3, size) = pop_int d2 in
    if int_below (signed32 size) 4 || not (size % 4 == 0)
    then (d3, err (bad_size size))
    else read_content i (record (fresh_message [] []) { msg_id = id; seq_no = seq })
        (pop_raw_bytes (pos size) d3)

-- An item in front of the others, and the first error of either.
unfoldable pub in_front :
    Encrypted
    → Decoder × Result ContainerError (List Encrypted)
    → Decoder × Result ContainerError (List Encrypted)
in_front msg (d, ok rest) = (d, ok (msg ∷ rest))
in_front msg (d, err e) = (d, err e)

unfoldable pub unless_failed :
    Decoder × Result ContainerError Encrypted
    → (Decoder → Decoder × Result ContainerError (List Encrypted))
    → Decoder × Result ContainerError (List Encrypted)
unless_failed (d, ok msg) more = in_front msg (more d)
unless_failed (d, err e) more = (d, err e)

-- `left` items from the one with the number `i`.
unfoldable pub read_items : ℕ → ℕ → Decoder → Decoder × Result ContainerError (List Encrypted)
read_items zero i d = (d, ok [])
read_items (suc left) i d = unless_failed (read_item i d) (read_items left (i + 1))

-- The `CheckErr` at the end.
unfoldable pub checked_all :
    Result ContainerError (List Encrypted) → Option TlError → Result ContainerError (List Encrypted)
checked_all (err e) x = err e
checked_all (ok messages) none = ok messages
checked_all (ok messages) (some x) = err (reading x)

unfoldable pub read_counted : ℕ → Decoder → Decoder × Result ContainerError (List Encrypted)
read_counted count d =
    let (d', r) = read_items count 0 d in
    if int_below (signed32 count) 0 || ltb max_container_messages count
    then (d, err (bad_count count))
    else (d', checked_all r d'.err)

-- Behind the constructor's number, which the caller has read.
unfoldable pub unmarshal_container : Decoder → Decoder × Result ContainerError (List Encrypted)
unmarshal_container d = let (d1, count) = pop_int d in read_counted count d1
