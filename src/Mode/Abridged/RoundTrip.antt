-- ===== src/Mode/Abridged/RoundTrip.antt =====
-- What `WriteMsg` of the abridged framing sends, and that `ReadMsg` reads it back.
use gogram.Common.{
  ℕ, ◌*◌, ◌/◌, ◌%◌, ◌^◌, ◌≤◌, ◌<◌, ◌≡◌, refl, sym, ap, ◌∙◌, Bool-cases, inl, inr, ◌||◌, [], ◌∷◌,
  ◌++◌, append_assoc, length, get_or, ltb, ltb→lt, ltb→ge, arith, append_cancel,
}
use gogram.Common.Bits.{or_fields}
use gogram.Common.Bytes.{
  Bytes, le_bytes, from_le, length-le_bytes, from_le-le_bytes, from_le-append,
}
use gogram.Common.Results.{ok, err, outcome_cases}
use gogram.Io.{Conn, IsStream}
use gogram.Mode.Frame.{
  ModeError, invalid_size, not_multiple, max_message_size, read_bytes, write_frame_sends,
  read_bytes_exact,
}
use gogram.Mode.Abridged.{header, write_msg, read_long_size, read_size, read_body, read_msg}

-- The lengths that the framing carries.
abbrev pub Fits : ℕ → Type 0
Fits n = (4 ≤ n) × (n ≤ 16777216) × (n % 4 ≡ 0)

header_short : (words : ℕ) → words < 127 → header words ≡ words ∷ []
unfolding header
header_short words h = ground arith

header_long : (words : ℕ) → 127 ≤ words → words < 2 ^ 24 → header words ≡ 127 ∷ le_bytes 3 words
unfolding header le_bytes
header_long words h k = ground (arith, or_fields 8 words 127)

long_size : (words : ℕ) → words < 2 ^ 24 → from_le (le_bytes 3 words ++ 0 ∷ []) ≡ words
unfolding from_le
long_size words h =
    from_le-append (le_bytes 3 words) (0 ∷ []) ∙ omega (arith, from_le-le_bytes 3 words)

module _ {S : Type 0} {c : Conn S} {sent pending : S → Bytes}
    (lawful : IsStream c sent pending) where
  write_msg_sends :
      (msg : Bytes) (s : S)
      → Fits (length msg)
      → (s' : S) × (write_msg c msg s ≡ (s', ok tt))
        × (sent s' ≡ sent s ++ (header (length msg / 4) ++ msg))
  unfolding write_msg
  write_msg_sends msg s h =
      let (s1, e1, p1, _) = write_frame_sends lawful (header (length msg / 4)) s in
      let (s2, e2, p2, _) = write_frame_sends lawful msg s1 in
      (s2, ground (arith, e1, e2), p2 ∙ rw p1 (append_assoc (sent s) _ msg))

  read_body_receives :
      (msg rest : Bytes) (words : ℕ) (t : S)
      → Fits (length msg)
      → words * 4 ≡ length msg
      → pending t ≡ msg ++ rest
      → (t' : S) × (read_body c (words * 4) t ≡ (t', ok msg)) × (pending t' ≡ rest)
  unfolding read_body
  read_body_receives msg rest words t h size e =
      let (t', e', p', _) = read_bytes_exact lawful (words * 4) msg rest t e size in
      (t', ground (arith, e'), p')

  read_size_receives :
      (words : ℕ) (rest : Bytes) (t : S)
      → words < 2 ^ 24
      → pending t ≡ header words ++ rest
      → (b : ℕ) × (t1 t2 : S) × (read_bytes c 1 t ≡ (t1, ok (b ∷ [])))
        × (b ≤ 127)
        × (read_size c b t1 ≡ (t2, ok words))
        × (pending t2 ≡ rest)
  unfolding read_size read_long_size
  read_size_receives words rest t h e = elim (Bool-cases (ltb words 127)) [
    | inl short ↦
        let one = e ∙ ap (λ b. b ++ rest) (header_short words (ltb→lt _ _ short)) in
        let (t1, e1, p1, _) = read_bytes_exact lawful 1 (words ∷ []) rest t one refl in
        (words, t1, t1, e1, omega (arith, ltb→lt _ _ short), ground arith, p1)
    | inr long ↦
        let four = e ∙ ap (λ b. b ++ rest) (header_long words (ltb→ge _ _ long) h) in
        let (t1, e1, p1, _) =
          read_bytes_exact lawful 1 (127 ∷ []) (le_bytes 3 words ++ rest) t four refl in
        let (t2, e2, p2, _) =
          read_bytes_exact lawful 3 (le_bytes 3 words) rest t1 p1 (sym (length-le_bytes 3 words)) in
        (
          127,
          t1,
          t2,
          e1,
          omega arith,
          ground (arith, e2, length-le_bytes 3 words, long_size words h),
          p2,
        )
  ]

  read_msg_receives :
      (msg rest : Bytes) (t : S)
      → Fits (length msg)
      → pending t ≡ header (length msg / 4) ++ (msg ++ rest)
      → (t' : S) × (read_msg c t ≡ (t', ok msg)) × (pending t' ≡ rest)
  unfolding read_msg
  read_msg_receives msg rest t h e =
      let words = length msg / 4 in
      let (b, t1, t2, e1, small, e2, p2) =
        read_size_receives words (msg ++ rest) t (omega arith) e in
      let (t3, e3, p3) = read_body_receives msg rest words t2 h (omega arith) p2 in
      (t3, ground (arith, e1, e2, e3), p3)

  -- On streams that deliver in order, `WriteMsg` takes every message of 4 bytes to 16 MiB whose
  -- length is a multiple of 4. Where the bytes that it sends, followed by any others, arrive,
  -- `ReadMsg` returns the message and leaves just the others.
  pub read_msg-write_msg_abridged :
      (msg rest frame : Bytes) (s t : S)
      → Fits (length msg)
      → sent (write_msg c msg s).0 ≡ sent s ++ frame
      → pending t ≡ frame ++ rest
      → ((write_msg c msg s).1 ≡ ok tt)
        × ((read_msg c t).1 ≡ ok msg)
        × (pending (read_msg c t).0 ≡ rest)
  read_msg-write_msg_abridged msg rest frame s t h out arrives =
      let (s', e, p) = write_msg_sends msg s h in
      let frame_is = append_cancel (sent s) (sym out ∙ ap (λ r. sent r.0) e ∙ p) in
      let whole = arrives ∙ ap (λ b. b ++ rest) frame_is ∙ append_assoc _ msg rest in
      let (t', e', p') = read_msg_receives msg rest t h whole in
      (ap (λ r. r.1) e, ap (λ r. r.1) e', ap (λ r. pending r.0) e' ∙ p')

module _ {S : Type 0} (c : Conn S) where
  -- On every connection, also one that fails: a message that `WriteMsg` must not send is refused
  -- with an error before a byte is written.
  pub write_msg_refuses :
      (msg : Bytes) (s : S)
      → ¬ Fits (length msg)
      → (e : ModeError) × (write_msg c msg s ≡ (s, err e))
  unfolding write_msg
  write_msg_refuses msg s h =
      elim (Bool-cases (ltb (length msg) 4 || ltb max_message_size (length msg))) [
        | inl range ↦ (invalid_size (length msg), ground arith)
        | inr fits ↦ (not_multiple (length msg), ground (arith, λ (f : Fits (length msg)). h f))
      ]

  read_body-Fits :
      (words : ℕ) (t : S) {t' : S} {msg : Bytes}
      → read_body c (words * 4) t ≡ (t', ok msg)
      → Fits (length msg)
  unfolding read_body
  read_body-Fits words t e = ground arith

  -- Whatever arrives, and however the connection fails, a message that `ReadMsg` returns has 4
  -- bytes to 16 MiB, and a multiple of 4.
  pub read_msg-Fits :
      (t : S) {t' : S} {msg : Bytes} → read_msg c t ≡ (t', ok msg) → Fits (length msg)
  unfolding read_msg
  read_msg-Fits t {t'} {msg} e = elim (outcome_cases (read_bytes c 1 t)) [
    | inl (t1, first, q) ↦ elim (outcome_cases (read_size c (get_or first 0 0) t1)) [
      | inl (t2, words, r) ↦ ground (arith, q, r, read_body-Fits words t2 {t' = t'} {msg = msg})
      | inr (t2, x, r) ↦ ground (arith, q, r)
    ]
    | inr (t1, x, q) ↦ ground (arith, q)
  ]
