-- ===== src/Objects/Container/Written.antt =====
-- What a container writes for each message.
use gogram.Common.{
  ◌%◌, ◌^◌, ◌≡◌, ◌≤◌, ◌<◌, sym, none, List, [], ◌∷◌, ◌++◌, append-nil, length, All, arith,
}
use gogram.Common.Bytes.{Bytes, le_bytes}
use gogram.Io.{Writer, IsBuffer}
use gogram.Tl.Encoder.{Encoder, put_uint, put_int, put_long}
use gogram.Tl.Encoder.Appends.{
  Appends, Appends-trans, write-Appends, put_uint-Appends, put_long-Appends,
}
use gogram.Messages.Encrypted.{Encrypted, fresh_message}
use gogram.Objects.Container.{put_item, put_items}

-- A message that a container carries.
pub record Carryable (m : Encrypted) : Type 0 where
  pub id_fits : m.msg_id < 2 ^ 64
  pub seq_fits : m.seq_no < 2 ^ 32
  pub least : 4 ≤ length m.msg
  pub few : length m.msg < 2 ^ 31
  pub whole : length m.msg % 4 ≡ 0

-- What is kept of it.
abbrev pub as_read : Encrypted → Encrypted
as_read m = record (fresh_message [] []) { msg_id = m.msg_id; seq_no = m.seq_no; msg = m.msg }

abbrev pub item_wire : Encrypted → Bytes
item_wire m = le_bytes 8 m.msg_id ++ (le_bytes 4 m.seq_no ++ (le_bytes 4 (length m.msg) ++ m.msg))

unfoldable pub items_wire : List Encrypted → Bytes
items_wire [] = []
items_wire (m ∷ messages) = item_wire m ++ items_wire messages

module _ {W : Type 0} {o : Writer W} {written : W → Bytes} (lawful : IsBuffer o written) where
  put_item-Appends :
      (e : Encoder W) (m : Encrypted)
      → e.err ≡ none
      → Carryable m
      → Appends written e (put_item o e m) (item_wire m)
  unfolding put_item
  put_item-Appends e m clean good =
      let few = good.few in
      let size : length m.msg % 2 ^ 32 ≡ length m.msg = omega arith in
      let p1 = put_long-Appends lawful e m.msg_id clean in
      let e1 = put_long o e m.msg_id in
      let p2 = put_uint-Appends lawful e1 m.seq_no p1.no_error in
      let e2 = put_int o e1 m.seq_no in
      let p3 = put_uint-Appends lawful e2 (length m.msg) p2.no_error in
      let p4 = write-Appends lawful (put_uint o e2 (length m.msg)) m.msg p3.no_error in
      rw size (Appends-trans lawful p1 (Appends-trans lawful p2 (Appends-trans lawful p3 p4)))

  pub put_items-Appends :
      (e : Encoder W) (messages : List Encrypted)
      → e.err ≡ none
      → All Carryable messages
      → Appends written e (put_items o e messages) (items_wire messages)
  unfolding put_items items_wire
  put_items-Appends e [] clean good = record {
    wrote_bytes = sym (append-nil (written e.writer));
    no_error = clean;
  }
  put_items-Appends e (m ∷ messages) clean good =
      let p = put_item-Appends e m clean good.0 in
      Appends-trans lawful p (put_items-Appends (put_item o e m) messages p.no_error good.1)
