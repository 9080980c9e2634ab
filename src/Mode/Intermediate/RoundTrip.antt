-- ===== src/Mode/Intermediate/RoundTrip.antt =====
-- What `WriteMsg` of the intermediate framing sends, and that `ReadMsg` reads it back.
use gogram.Common.{
  ℕ, ◌%◌, ◌^◌, ◌≤◌, ◌≡◌, refl, sym, ap, ◌∙◌, inl, inr, ◌++◌, append_assoc, length, arith,
  append_cancel,
}
use gogram.Common.Bytes.{Bytes, le_bytes, length-le_bytes, from_le-le_bytes}
use gogram.Common.Results.{ok, err, outcome_cases}
use gogram.Io.{Conn, IsStream}
use gogram.Mode.Frame.{invalid_size, read_bytes, write_frame_sends, read_bytes_exact}
use gogram.Mode.Intermediate.{write_msg, read_msg}

-- The lengths that the framing carries.
abbrev pub Fits : ℕ → Type 0
Fits n = (4 ≤ n) × (n ≤ 16777216) × (n % 4 ≡ 0)

abbrev frame_of : Bytes → Bytes
frame_of msg = le_bytes 4 (length msg % 2 ^ 32) ++ msg

module _ {S : Type 0} {c : Conn S} {sent pending : S → Bytes}
    (lawful : IsStream c sent pending) where
  write_msg_sends :
      (msg : Bytes) (s : S)
      → Fits (length msg)
      → (s' : S) × (write_msg c msg s ≡ (s', ok tt)) × (sent s' ≡ sent s ++ frame_of msg)
  unfolding write_msg
  write_msg_sends msg s h =
      let (s1, e1, p1, _) = write_frame_sends lawful (frame_of msg) s in
      (s1, ground (arith, e1), p1)

  read_msg_receives :
      (msg rest : Bytes) (t : S)
      → Fits (length msg)
      → pending t ≡ le_bytes 4 (length msg % 2 ^ 32) ++ (msg ++ rest)
      → (t' : S) × (read_msg c t ≡ (t', ok msg)) × (pending t' ≡ rest)
  unfolding read_msg
  read_msg_receives msg rest t h e =
      let size = length msg % 2 ^ 32 in
      let (t1, e1, p1, _) =
        read_bytes_exact lawful 4 (le_bytes 4 size) _ t e (sym (length-le_bytes 4 size)) in
      let (t2, e2, p2, _) = read_bytes_exact lawful (length msg) msg rest t1 p1 refl in
      (t2, ground (arith, e1, e2, length-le_bytes 4 size, from_le-le_bytes 4 size), p2)

  -- On streams that deliver in order, `WriteMsg` takes every message of 4 bytes to 16 MiB whose
  -- length is a multiple of 4. Where the bytes that it sends, followed by any others, arrive,
  -- `ReadMsg` returns the message and leaves just the others.
  pub read_msg-write_msg_intermediate :
      (msg rest frame : Bytes) (s t : S)
      → Fits (length msg)
      → sent (write_msg c msg s).0 ≡ sent s ++ frame
      → pending t ≡ frame ++ rest
      → ((write_msg c msg s).1 ≡ ok tt)
        × ((read_msg c t).1 ≡ ok msg)
        × (pending (read_msg c t).0 ≡ rest)
  read_msg-write_msg_intermediate msg rest frame s t h out arrives =
      let (s', e, p) = write_msg_sends msg s h in
      let frame_is = append_cancel (sent s) (sym out ∙ ap (λ r. sent r.0) e ∙ p) in
      let whole = arrives ∙ ap (λ b. b ++ rest) frame_is ∙ append_assoc _ msg rest in
      let (t', e', p') = read_msg_receives msg rest t h whole in
      (ap (λ r. r.1) e, ap (λ r. r.1) e', ap (λ r. pending r.0) e' ∙ p')

module _ {S : Type 0} (c : Conn S) where
  pub write_msg_refuses :
      (msg : Bytes) (s : S)
      → ¬ Fits (length msg)
      → write_msg c msg s ≡ (s, err (invalid_size (length msg)))
  unfolding write_msg
  write_msg_refuses msg s h = ground (arith, λ (f : Fits (length msg)). h f)

  pub read_msg-Fits :
      (t : S) {t' : S} {msg : Bytes} → read_msg c t ≡ (t', ok msg) → Fits (length msg)
  unfolding read_msg
  read_msg-Fits t e = elim (outcome_cases (read_bytes c 4 t)) [
    | inl (t1, size_buf, q) ↦ ground (arith, q)
    | inr (t1, x, q) ↦ ground (arith, q)
  ]
