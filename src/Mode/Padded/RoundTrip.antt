-- ===== src/Mode/Padded/RoundTrip.antt =====
-- The padded framing: the reader finds the end of the packets that the program sends.
use gogram.Common.{
  ℕ, zero, suc, ◌+◌, ◌-◌, ◌*◌, ◌/◌, ◌%◌, ◌^◌, ◌≤◌, ◌<◌, ◌≡◌, ◌≢◌, ◌⊎◌, refl, sym, ap, ◌∙◌, inl, inr,
  [], ◌∷◌, ◌++◌, append-nil, append_assoc, length, length-append, length-drop, take, drop,
  take_prefix, take_inside, drop_inside, arith, append_cancel,
}
use gogram.Common.Bits.{and_fifteen}
use gogram.Common.Bytes.{Bytes, le_bytes, from_le, length-le_bytes, from_le-le_bytes}
use gogram.Common.Results.{Result, ok}
use gogram.Io.{IoError, Conn, IsStream}
use gogram.Mode.Frame.{write_frame_sends, read_bytes_exact}
use gogram.Mode.Padded.{
  inner_length, strip_unencrypted, strip_encrypted, strip_padding, write_padding, write_msg,
  read_frame, read_msg,
}

-- A packet under a key: a key identifier that is not 0, and 16-byte blocks behind 24 bytes.
pub record IsEncrypted (msg : Bytes) : Type 0 where
  pub has_header : 24 ≤ length msg
  pub key_ne_zero : from_le (take 8 msg) ≢ 0
  pub blocks : length msg % 16 ≡ 8

-- A packet with no key: key identifier 0, and its own length at offset 16.
pub record IsUnencrypted (msg : Bytes) : Type 0 where
  pub key_is_zero : from_le (take 8 msg) ≡ 0
  pub at_least : 4 ≤ inner_length msg
  pub words : inner_length msg % 4 ≡ 0
  pub below : inner_length msg < 2 ^ 31
  pub whole : 20 + inner_length msg ≡ length msg

append_nothing : (msg padding : Bytes) → length padding ≡ 0 → msg ++ padding ≡ msg
append_nothing msg [] h = append-nil msg
append_nothing msg (b ∷ bs) h = absurd (omega arith)

module _ (msg padding : Bytes) (short : length padding < 16) where
  inner_length-append : 20 ≤ length msg → inner_length (msg ++ padding) ≡ inner_length msg
  inner_length-append h =
      ap (λ b. from_le (take 4 b)) (drop_inside 16 msg padding (omega arith))
      ∙ ap from_le (take_inside 4 (drop 16 msg) padding (omega (arith, length-drop 16 msg)))

  strip_padding_encrypted : IsEncrypted msg → strip_padding (msg ++ padding) ≡ ok msg
  unfolding strip_padding strip_encrypted
  strip_padding_encrypted e =
      let size = length-append msg padding in
      let key = ap from_le (take_inside 8 msg padding (omega arith)) in
      let end = (length msg + length padding - 8) / 16 * 16 + 8 in
      ground (arith, size, key, append_nothing msg padding, take_prefix end msg padding)

  strip_padding_unencrypted : IsUnencrypted msg → strip_padding (msg ++ padding) ≡ ok msg
  unfolding strip_padding strip_unencrypted
  strip_padding_unencrypted u =
      let size = length-append msg padding in
      let key = ap from_le (take_inside 8 msg padding (omega arith)) in
      ground (
        arith,
        size,
        key,
        inner_length-append,
        take_prefix (20 + inner_length msg) msg padding u.whole,
      )

  strip_padding_packet :
      IsEncrypted msg ⊎ IsUnencrypted msg → strip_padding (msg ++ padding) ≡ ok msg
  strip_padding_packet (inl e) = strip_padding_encrypted e
  strip_padding_packet (inr u) = strip_padding_unencrypted u

packet_size :
    (msg : Bytes) → IsEncrypted msg ⊎ IsUnencrypted msg → (24 ≤ length msg) × (length msg % 4 ≡ 0)
packet_size msg (inl e) = omega arith
packet_size msg (inr u) = omega arith

module _ {S : Type 0} {c : Conn S} {sent pending : S → Bytes}
    (lawful : IsStream c sent pending) where
  write_padding_sends :
      (fill : ℕ → Result IoError Bytes) (n : ℕ) (padding : Bytes) (s : S)
      → fill n ≡ ok padding
      → length padding ≡ n
      → (s' : S) × (write_padding c fill n s ≡ (s', ok tt)) × (sent s' ≡ sent s ++ padding)
  unfolding write_padding
  write_padding_sends fill zero [] s e h = (s, refl, sym (append-nil (sent s)))
  write_padding_sends fill zero (b ∷ bs) s e h = absurd (omega arith)
  write_padding_sends fill (suc n) padding s e h =
      let (s1, e1, p1, _) = write_frame_sends lawful padding s in (s1, ground (arith, e1), p1)

  module _ (msg padding : Bytes) (size : length padding < 16) where
    abbrev frame_of : Bytes
    frame_of = le_bytes 4 ((length msg + length padding) % 2 ^ 32) ++ (msg ++ padding)

    write_msg_sends :
        (pad : ℕ) (fill : ℕ → Result IoError Bytes) (s : S)
        → 4 ≤ length msg
        → length msg ≤ 16777201
        → length msg % 4 ≡ 0
        → pad % 16 ≡ length padding
        → fill (length padding) ≡ ok padding
        → (s' : S) × (write_msg c (ok pad) fill msg s ≡ (s', ok tt))
          × (sent s' ≡ sent s ++ frame_of)
    unfolding write_msg
    write_msg_sends pad fill s h k m drawn filled =
        let low = and_fifteen pad in
        let total = le_bytes 4 ((length msg + length padding) % 2 ^ 32) in
        let (s1, e1, p1, _) = write_frame_sends lawful total s in
        let (s2, e2, p2, _) = write_frame_sends lawful msg s1 in
        let (s3, e3, p3) = write_padding_sends fill (length padding) padding s2 filled refl in
        (
          s3,
          ground (arith, low, e1, e2, e3),
          p3 ∙ rw (p2, p1) (append_assoc _ msg padding ∙ append_assoc (sent s) total _),
        )

    read_frame_receives :
        (rest : Bytes) (t : S)
        → 4 ≤ length msg
        → length msg ≤ 16777201
        → pending t ≡ frame_of ++ rest
        → (t' : S) × (read_frame c t ≡ (t', ok (msg ++ padding))) × (pending t' ≡ rest)
    unfolding read_frame
    read_frame_receives rest t h k e =
        let total = (length msg + length padding) % 2 ^ 32 in
        let both = length-append msg padding in
        let whole = e ∙ append_assoc (le_bytes 4 total) (msg ++ padding) rest in
        let (t1, e1, p1, _) =
          read_bytes_exact lawful 4 (le_bytes 4 total) _ t whole (sym (length-le_bytes 4 total)) in
        let (t2, e2, p2, _) =
          read_bytes_exact lawful (length msg + length padding) (msg ++ padding) rest t1 p1
            (sym both) in
        (t2, ground (arith, e1, e2, length-le_bytes 4 total, from_le-le_bytes 4 total), p2)

    -- On streams that deliver in order: let `msg` be an encrypted or an unencrypted packet of at
    -- most 16 MiB less 15 bytes, and let the random source give the byte `pad` and then the
    -- `padding` that its low four bits ask for. `WriteMsg` takes the packet, and where the bytes
    -- that it sends, followed by any others, arrive, `ReadMsg` strips the padding, returns the
    -- packet and leaves just the others.
    pub read_msg-write_msg_padded :
        (rest frame : Bytes) (pad : ℕ) (fill : ℕ → Result IoError Bytes) (s t : S)
        → IsEncrypted msg ⊎ IsUnencrypted msg
        → length msg ≤ 16777201
        → pad % 16 ≡ length padding
        → fill (length padding) ≡ ok padding
        → sent (write_msg c (ok pad) fill msg s).0 ≡ sent s ++ frame
        → pending t ≡ frame ++ rest
        → ((write_msg c (ok pad) fill msg s).1 ≡ ok tt)
          × ((read_msg c t).1 ≡ ok msg)
          × (pending (read_msg c t).0 ≡ rest)
    unfolding read_msg
    read_msg-write_msg_padded rest frame pad fill s t packet h drawn filled out arrives =
        let (big, four) = packet_size msg packet in
        let (s', e, p) = write_msg_sends pad fill s (omega arith) h four drawn filled in
        let frame_is = append_cancel (sent s) (sym out ∙ ap (λ r. sent r.0) e ∙ p) in
        let whole = arrives ∙ ap (λ b. b ++ rest) frame_is in
        let (t', e', p') = read_frame_receives rest t (omega arith) h whole in
        let stripped = strip_padding_packet msg padding size packet in
        (ap (λ r. r.1) e, ground (arith, e', stripped), ground (arith, e', stripped, p'))
