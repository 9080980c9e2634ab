-- ===== src/Mode/Full/RoundTrip.antt =====
-- The full framing: sequence numbers on both sides, and the checksum.
use gogram.Common.{
  ℕ, ◌+◌, ◌-◌, ◌%◌, ◌^◌, ◌≤◌, ◌<◌, ◌≡◌, ◌≢◌, sym, ap, ◌∙◌, ◌++◌, append_assoc, length,
  length-append, take, drop, take_prefix, drop_prefix, take_all, arith, append_cancel,
}
use gogram.Common.Bytes.{Bytes, le_bytes, from_le, length-le_bytes, from_le-le_bytes}
use gogram.Common.Results.{Result, ok, err}
use gogram.Io.{Conn, IsStream}
use gogram.Mode.Frame.{ModeError, unexpected_sequence, write_frame_sends, read_bytes_exact}
use gogram.Mode.Full.{
  Full, checked_part, packet, bump_seq_no, bump_read_seq, write_msg, accept, read_msg,
}

length-checked_part : (seq : ℕ) (msg : Bytes) → length (checked_part seq msg) ≡ length msg + 8
unfolding checked_part
length-checked_part seq msg =
    let size = (length msg + 12) % 2 ^ 32 in
    omega (
      arith,
      length-append (le_bytes 4 size) (le_bytes 4 seq ++ msg),
      length-append (le_bytes 4 seq) msg,
      length-le_bytes 4 size,
      length-le_bytes 4 seq,
    )

-- What `ReadMsg` looks at in a packet of `WriteMsg`.
module _ (checksum : Bytes → ℕ) (word : (b : Bytes) → checksum b < 2 ^ 32) (seq : ℕ)
    (msg : Bytes) where
  part_size : length msg + 12 - 4 ≡ length (checked_part seq msg)
  part_size = omega (arith, length-checked_part seq msg)

  packet_checked : take (length msg + 12 - 4) (packet checksum seq msg) ≡ checked_part seq msg
  unfolding packet
  packet_checked = take_prefix _ (checked_part seq msg) _ part_size

  packet_sum :
      from_le (take 4 (drop (length msg + 12 - 4) (packet checksum seq msg)))
      ≡ checksum (checked_part seq msg)
  unfolding packet
  packet_sum =
      let sum = checksum (checked_part seq msg) in
      ap (λ b. from_le (take 4 b)) (drop_prefix _ (checked_part seq msg) _ part_size)
      ∙ ap from_le (take_all 4 (le_bytes 4 sum) (omega (arith, length-le_bytes 4 sum)))
      ∙ from_le-le_bytes 4 sum (word _)

  packet_seq : seq < 2 ^ 32 → from_le (take 4 (drop 4 (packet checksum seq msg))) ≡ seq
  unfolding packet checked_part
  packet_seq h =
      let size = (length msg + 12) % 2 ^ 32 in
      ap (λ b. from_le (take 4 (drop 4 b))) (append_assoc (le_bytes 4 size) _ _)
      ∙ ap (λ b. from_le (take 4 b))
          (drop_prefix 4 (le_bytes 4 size) _ (sym (length-le_bytes 4 size)))
      ∙ ap (λ b. from_le (take 4 b)) (append_assoc (le_bytes 4 seq) msg _)
      ∙ ap from_le (take_prefix 4 (le_bytes 4 seq) _ (sym (length-le_bytes 4 seq)))
      ∙ from_le-le_bytes 4 seq h

  checked_part_msg : drop 8 (checked_part seq msg) ≡ msg
  unfolding checked_part
  checked_part_msg =
      let size = (length msg + 12) % 2 ^ 32 in
      ap (drop 8) (sym (append_assoc (le_bytes 4 size) (le_bytes 4 seq) msg))
      ∙ drop_prefix 8 (le_bytes 4 size ++ le_bytes 4 seq) msg (
          omega (
            arith,
            length-append (le_bytes 4 size) (le_bytes 4 seq),
            length-le_bytes 4 size,
            length-le_bytes 4 seq,
          ))

  -- The packet as the four bytes read first and the rest.
  packet_split :
      (tail : Bytes) × (packet checksum seq msg ≡ le_bytes 4 ((length msg + 12) % 2 ^ 32) ++ tail)
      × (length tail ≡ length msg + 8)
  unfolding packet checked_part
  packet_split =
      let sum = le_bytes 4 (checksum (checked_part seq msg)) in
      (
        (le_bytes 4 seq ++ msg) ++ sum,
        append_assoc _ (le_bytes 4 seq ++ msg) sum,
        omega (
          arith,
          length-append (le_bytes 4 seq ++ msg) sum,
          length-append (le_bytes 4 seq) msg,
          length-le_bytes 4 seq,
          length-le_bytes 4 (checksum (checked_part seq msg)),
        ),
      )

module _ {S : Type 0} {c : Conn S} {sent pending : S → Bytes} (lawful : IsStream c sent pending)
    (checksum : Bytes → ℕ) (word : (b : Bytes) → checksum b < 2 ^ 32) where
  write_msg_sends :
      (msg : Bytes) (f : Full S)
      → length msg + 12 ≤ 16777216
      → (s' : S) × (write_msg c checksum msg f
          ≡ (record f { conn = s'; seq_no = (f.seq_no + 1) % 2 ^ 32 }, ok tt))
        × (sent s' ≡ sent f.conn ++ packet checksum f.seq_no msg)
  unfolding write_msg bump_seq_no
  write_msg_sends msg f h =
      let (s1, e1, p1, _) = write_frame_sends lawful (packet checksum f.seq_no msg) f.conn in
      (s1, ground (arith, e1), p1)

  accept-packet :
      (msg : Bytes) (g : Full S)
      → g.read_seq < 2 ^ 32
      → accept c checksum (length msg + 12) (packet checksum g.read_seq msg) g
        ≡ (record g { read_seq = (g.read_seq + 1) % 2 ^ 32 }, ok msg)
  unfolding accept bump_read_seq
  accept-packet msg g h =
      rw
        (
          packet_checked checksum word g.read_seq msg,
          packet_sum checksum word g.read_seq msg,
          packet_seq checksum word g.read_seq msg h,
          checked_part_msg checksum word g.read_seq msg,
        )
        (ground arith)

  accept_out_of_order :
      (msg : Bytes) (seq : ℕ) (g : Full S)
      → seq < 2 ^ 32
      → seq ≢ g.read_seq
      → accept c checksum (length msg + 12) (packet checksum seq msg) g
        ≡ (g, err (unexpected_sequence seq g.read_seq))
  unfolding accept
  accept_out_of_order msg seq g h other =
      rw
        (
          packet_checked checksum word seq msg,
          packet_sum checksum word seq msg,
          packet_seq checksum word seq msg h,
        )
        (ground arith)

  -- `ReadMsg` takes a whole packet off the stream, and its result is that of the tests on it.
  read_msg_takes :
      (msg rest : Bytes) (seq : ℕ) (g : Full S)
      → length msg + 12 ≤ 16777216
      → pending g.conn ≡ packet checksum seq msg ++ rest
      → (t' : S) × (read_msg c checksum g
          ≡ accept c checksum (length msg + 12) (packet checksum seq msg) (record g { conn = t' }))
        × (pending t' ≡ rest)
  unfolding read_msg
  read_msg_takes msg rest seq g h e =
      let size = (length msg + 12) % 2 ^ 32 in
      let (tail, split, tail_size) = packet_split checksum word seq msg in
      let whole = e ∙ ap (λ b. b ++ rest) split ∙ append_assoc _ tail rest in
      let (t1, e1, p1, _) =
        read_bytes_exact lawful 4 (le_bytes 4 size) _ g.conn whole (sym (length-le_bytes 4 size)) in
      let (t2, e2, p2, _) =
        read_bytes_exact lawful (length msg + 12 - 4) tail rest t1 p1 (omega arith) in
      (t2, ground (arith, e1, e2, from_le-le_bytes 4 size, split), p2)

  read_msg_receives :
      (msg rest : Bytes) (g : Full S)
      → length msg + 12 ≤ 16777216
      → g.read_seq < 2 ^ 32
      → pending g.conn ≡ packet checksum g.read_seq msg ++ rest
      → (t' : S) × (read_msg c checksum g
          ≡ (record g { conn = t'; read_seq = (g.read_seq + 1) % 2 ^ 32 }, ok msg))
        × (pending t' ≡ rest)
  read_msg_receives msg rest g h k e =
      let (t', e', p) = read_msg_takes msg rest g.read_seq g h e in
      (t', e' ∙ accept-packet msg (record g { conn = t' }) k, p)

  -- On streams that deliver in order, where the receiver waits for the number that the sender
  -- uses next, `WriteMsg` takes every message of at most 16 MiB less 12 bytes. Where the bytes
  -- that it sends, followed by any others, arrive, `ReadMsg` returns the message, leaves just the
  -- others, and the two counters agree again.
  pub read_msg-write_msg_full :
      (msg rest frame : Bytes) (f g : Full S)
      → length msg + 12 ≤ 16777216
      → f.seq_no < 2 ^ 32
      → g.read_seq ≡ f.seq_no
      → sent (write_msg c checksum msg f).0.conn ≡ sent f.conn ++ frame
      → pending g.conn ≡ frame ++ rest
      → ((write_msg c checksum msg f).1 ≡ ok tt)
        × ((read_msg c checksum g).1 ≡ ok msg)
        × (pending (read_msg c checksum g).0.conn ≡ rest)
        × ((read_msg c checksum g).0.read_seq ≡ (write_msg c checksum msg f).0.seq_no)
  read_msg-write_msg_full msg rest frame f g h k same out arrives =
      let (s', e, p) = write_msg_sends msg f h in
      let frame_is = append_cancel (sent f.conn) (sym out ∙ ap (λ r. sent r.0.conn) e ∙ p) in
      let whole =
        arrives ∙ ap (λ b. b ++ rest) (frame_is ∙ ap (λ n. packet checksum n msg) (sym same)) in
      let (t', e', p') = read_msg_receives msg rest g h (omega arith) whole in
      (
        ap (λ r. r.1) e,
        ap (λ r. r.1) e',
        ap (λ r. pending r.0.conn) e' ∙ p',
        ap (λ r. r.0.read_seq) e'
            ∙ ap (λ (n : ℕ). (n + 1) % 2 ^ 32) same
            ∙ sym (ap (λ r. r.0.seq_no) e),
      )

  -- A packet that `WriteMsg` made under another number than the one the receiver waits for, such
  -- as a repeated one, is taken off the stream and refused, and the receiver's counter stays.
  pub read_msg_out_of_order :
      (msg rest : Bytes) (seq : ℕ) (g : Full S)
      → length msg + 12 ≤ 16777216
      → seq < 2 ^ 32
      → seq ≢ g.read_seq
      → pending g.conn ≡ packet checksum seq msg ++ rest
      → ((read_msg c checksum g).1 ≡ err (unexpected_sequence seq g.read_seq))
        × ((read_msg c checksum g).0.read_seq ≡ g.read_seq)
        × (pending (read_msg c checksum g).0.conn ≡ rest)
  read_msg_out_of_order msg rest seq g h k other e =
      let (t', e', p) = read_msg_takes msg rest seq g h e in
      let refused = e' ∙ accept_out_of_order msg seq (record g { conn = t' }) k other in
      (
        ap (λ r. r.1) refused,
        ap (λ r. r.0.read_seq) refused,
        ap (λ r. pending r.0.conn) refused ∙ p,
      )

-- What a call of `ReadMsg` does to the two counters.
abbrev pub Counts : {S : Type 0} → Full S → Full S × Result ModeError Bytes → Type 0
Counts f (g, ok msg) = (g.read_seq ≡ (f.read_seq + 1) % 2 ^ 32) × (g.seq_no ≡ f.seq_no)
Counts f (g, err e) = (g.read_seq ≡ f.read_seq) × (g.seq_no ≡ f.seq_no)

module _ {S : Type 0} (c : Conn S) (checksum : Bytes → ℕ) where
  -- On every connection and input, `ReadMsg` counts a packet exactly where it returns one, and
  -- never touches the counter of the writer.
  pub read_msg-Counts : (f : Full S) → Counts f (read_msg c checksum f)
  unfolding read_msg accept bump_read_seq
  read_msg-Counts f = ground arith
