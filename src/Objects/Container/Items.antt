-- ===== src/Objects/Container/Items.antt =====
-- Each message that was written is read.
use gogram.Common.{
  ℕ, ◌+◌, ◌%◌, ◌^◌, ◌≡◌, ◌≤◌, ◌<◌, refl, sym, ap, ◌∙◌, false, not, ◌||◌, Option, none, List, [],
  ◌∷◌, ◌++◌, append_assoc, length, length-append, All, lt→ltb, ge→ltb, ◌==◌, arith,
}
use mathlib.Core.Path.{subst}
use mathlib.Core.List.{map}
use gogram.Common.Int.{pos, signed32}
use gogram.Common.Bytes.{Bytes, le_bytes}
use gogram.Common.Results.{Result, ok, err, ok_injective}
use gogram.Tl.Defs.{TlError}
use gogram.Tl.Decoder.{Decoder, rest, pop_int, pop_long, pop_raw_bytes}
use gogram.Tl.Decoder.Reads.{pop_uint-Pops, pop_long-Pops, pop_raw_bytes-Pops}
use gogram.Messages.Encrypted.{Encrypted, int_below, fresh_message}
use gogram.Objects.Container.{
  ContainerError, checked_item, read_content, read_item, in_front, unless_failed, read_items,
}
use gogram.Objects.Container.Written.{Carryable, as_read, item_wire, items_wire}

size_passes :
    (n : ℕ)
    → 4 ≤ n
    → n < 2 ^ 31
    → n % 4 ≡ 0
    → (int_below (signed32 n) 4 || not (n % 4 == 0)) ≡ false
size_passes n least few whole = rw (lt→ltb n (2 ^ 31) few, ge→ltb n 4 least, whole) refl

-- The result of a call that met no error, and what it left.
pub record Read {A : Type 0} (r : Decoder × Result ContainerError A) (a : A) (more : Bytes)
    : Type 0 where
  pub value : r.1 ≡ ok a
  pub no_error : r.0.err ≡ none
  pub left : rest r.0 ≡ more

checked_lem :
    (i : ℕ) (m : Encrypted) (d : Decoder) (x : Option TlError)
    → x ≡ none
    → checked_item i m d x ≡ (d, ok m)
unfolding checked_item
checked_lem i m d x h = rw h refl

read_content-Read :
    (i : ℕ) (m : Encrypted) (r : Decoder × Bytes) (content more : Bytes)
    → r.1 ≡ content
    → r.0.err ≡ none
    → rest r.0 ≡ more
    → Read (read_content i m r) (record m { msg = content }) more
unfolding read_content
read_content-Read i m r content more value clean left =
    subst (λ q. Read q (record m { msg = content }) more)
      (sym (
        checked_lem i (record m { msg = r.1 }) r.0 r.0.err clean
        ∙ ap
            (λ (b : Bytes).
              (let q : Decoder × Result ContainerError Encrypted =
                  (r.0, ok (record m { msg = b })) in
                q))
            value))
      (record { value = refl; no_error = clean; left = left })

module _ (m : Encrypted) (good : Carryable m) (i : ℕ) (d : Decoder) (more : Bytes)
    (clean : d.err ≡ none) (here : rest d ≡ item_wire m ++ more) where
  abbrev after_id : Bytes
  after_id = le_bytes 4 m.seq_no ++ (le_bytes 4 (length m.msg) ++ (m.msg ++ more))

  apart : item_wire m ++ more ≡ le_bytes 8 m.msg_id ++ after_id
  apart =
      let a = le_bytes 8 m.msg_id in
      let b = le_bytes 4 m.seq_no in
      let c = le_bytes 4 (length m.msg) in
      rw
        (
          append_assoc a (b ++ (c ++ m.msg)) more,
          append_assoc b (c ++ m.msg) more,
          append_assoc c m.msg more,
        )
        refl

  read_item-Read : Read (read_item i d) (as_read m) more
  unfolding read_item
  read_item-Read =
      let few = good.few in
      let least = good.least in
      let p1 = pop_long-Pops d m.msg_id after_id clean good.id_fits (here ∙ apart) in
      let d1 : Decoder = (pop_long d).0 in
      let p2 =
        pop_uint-Pops d1 m.seq_no (le_bytes 4 (length m.msg) ++ (m.msg ++ more)) p1.no_error
          good.seq_fits p1.left in
      let d2 : Decoder = (pop_int d1).0 in
      let p3 = pop_uint-Pops d2 (length m.msg) (m.msg ++ more) p2.no_error (omega arith) p2.left in
      let d3 : Decoder = (pop_int d2).0 in
      let p4 =
        pop_raw_bytes-Pops d3 m.msg more p3.no_error p3.left
          (omega (arith, length-append m.msg more)) in
      rw (p1.value, p2.value, p3.value, size_passes (length m.msg) least few good.whole)
        (read_content-Read i (record (fresh_message [] []) { msg_id = m.msg_id; seq_no = m.seq_no })
          (pop_raw_bytes (pos (length m.msg)) d3) m.msg more p4.value p4.no_error p4.left)

in_front-Read :
    (m : Encrypted) (messages : List Encrypted)
    (r : Decoder × Result ContainerError (List Encrypted)) (more : Bytes)
    → Read r messages more
    → Read (in_front m r) (m ∷ messages) more
unfolding in_front
in_front-Read m messages (d, ok found) more h = record {
  value = ap (λ l. ok (m ∷ l)) (ok_injective h.value);
  no_error = h.no_error;
  left = h.left;
}
in_front-Read m messages (d, err e) more h = absurd (let wrong = h.value in ground arith)

unless_failed-Read :
    (m : Encrypted) (messages : List Encrypted) (r : Decoder × Result ContainerError Encrypted)
    (f : Decoder → Decoder × Result ContainerError (List Encrypted)) (middle more : Bytes)
    → Read r m middle
    → ((d : Decoder) → d.err ≡ none → rest d ≡ middle → Read (f d) messages more)
    → Read (unless_failed r f) (m ∷ messages) more
unfolding unless_failed
unless_failed-Read m messages (d, ok found) f middle more h k =
    subst (λ t. Read (in_front t (f d)) (m ∷ messages) more) (sym (ok_injective h.value))
      (in_front-Read m messages (f d) more (k d h.no_error h.left))
unless_failed-Read m messages (d, err e) f middle more h k =
    absurd (let wrong = h.value in ground arith)

pub read_items-Read :
    (messages : List Encrypted) (i : ℕ) (d : Decoder)
    → All Carryable messages
    → d.err ≡ none
    → rest d ≡ items_wire messages
    → Read (read_items (length messages) i d) (map as_read messages) []
unfolding read_items items_wire
read_items-Read [] i d good clean here = record { value = refl; no_error = clean; left = here }
read_items-Read (m ∷ messages) i d good clean here =
    unless_failed-Read (as_read m) (map as_read messages) (read_item i d)
      (read_items (length messages) (i + 1)) (items_wire messages) []
      (read_item-Read m good.0 i d (items_wire messages) clean here)
      λ d' e left. read_items-Read messages (i + 1) d' good.1 e left
