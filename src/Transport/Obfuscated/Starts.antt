-- ===== src/Transport/Obfuscated/Starts.antt =====
-- A connection comes back, and has announced itself.
use gogram.Common.{
  All, ◌⊎◌, ◌≡◌, ◌≤◌, refl, sym, ap, ◌∙◌, true, false, Bool-cases, inl, inr, Option, some, List, [],
  ◌∷◌, ◌++◌, length, length-append, length-take, length-drop, take, drop, take_prefix, drop_prefix,
  ge→ltb, ◌==◌, arith,
}
use mathlib.Core.List.{reverse, reverse-cons}
use gogram.Common.Bytes.{Bytes}
use gogram.Common.Results.{ok}
use gogram.Io.{Conn, IsStream}
use gogram.Transport.Obfuscated.{
  Ctr, IsCtr, ObfuscatedConn, padded_protocol, is_usable, with_protocol, generate_init_payload,
  write_error, sent_init, final_init, with_ciphers, init_key, init_iv, with_init, or_endless,
  new_obfuscated_conn,
}
use gogram.Transport.Obfuscated.Announces.{Announced, announced}

length-reverse : (b : Bytes) → length (reverse b) ≡ length b
length-reverse [] = refl
length-reverse (x ∷ b) =
    omega
      (arith, ap length (reverse-cons x b), length-append (reverse b) (x ∷ []), length-reverse b)

-- Some draw may start a connection.
unfoldable pub SomeUsable : List Bytes → Type 0
SomeUsable [] = ⊥
SomeUsable (b ∷ bs) = (is_usable b ≡ true) ⊎ SomeUsable bs

abbrev pub some_draws : List Bytes → List (Option Bytes)
some_draws [] = []
some_draws (b ∷ bs) = some b ∷ some_draws bs

-- The draw that is taken.
record Drawn (protocol : Bytes) (draws : List Bytes) : Type 0 where
  init : Bytes
  full : length init ≡ 64
  taken :
      generate_init_payload protocol (some_draws draws) ≡ some (ok (with_protocol protocol init))

drawn :
    (protocol : Bytes) (draws : List Bytes)
    → All (λ (b : Bytes). length b ≡ 64) draws
    → SomeUsable draws
    → Drawn protocol draws
unfolding generate_init_payload SomeUsable
drawn protocol [] full h = absurd h
drawn protocol (b ∷ bs) full (inl usable) = record {
  init = b;
  full = full.0;
  taken = rw usable refl;
}
drawn protocol (b ∷ bs) full (inr rest) =
    let q = drawn protocol bs full.1 rest in
    elim (Bool-cases (is_usable b)) [
      | inl usable ↦ record { init = b; full = full.0; taken = rw usable refl }
      | inr other ↦ record { init = q.init; full = q.full; taken = rw other q.taken }
    ]

length-padded_protocol : (id : Bytes) → length (padded_protocol id) ≡ 4
unfolding padded_protocol
length-padded_protocol id = refl

with_protocol_lem :
    (protocol init : Bytes)
    → length protocol ≡ 4
    → length init ≡ 64
    → (length (with_protocol protocol init) ≡ 64)
      × (take 4 (drop 56 (with_protocol protocol init)) ≡ protocol)
unfolding with_protocol
with_protocol_lem protocol init four full =
    let front = length-take 56 init in
    let back = length-drop 60 init in
    (
      omega (
        arith,
        length-append (take 56 init) (protocol ++ drop 60 init),
        length-append protocol (drop 60 init),
      ),
      ap (take 4) (drop_prefix 56 (take 56 init) (protocol ++ drop 60 init) (omega arith))
          ∙ take_prefix 4 protocol (drop 60 init) (sym four),
    )

module _ {C S : Type 0} (c : Conn C) (o : Ctr S) (lawful : IsCtr o) (sent pending : C → Bytes)
    (stream : IsStream c sent pending) where
  -- The connection that comes back, and its announcement.
  pub record Started (conn : C) (protocol_id : Bytes) (draws : List (Option Bytes)) : Type 0 where
    pub final : Bytes
    pub made : ObfuscatedConn C S
    pub returned_conn : new_obfuscated_conn c o conn protocol_id draws ≡ some (made.conn, ok made)
    pub on_the_wire : sent made.conn ≡ sent conn ++ final
    pub announced : Announced c o lawful made (padded_protocol protocol_id) final

  sent_init_lem :
      (conn : C) (encryptor decryptor : S) (b : Bytes)
      → length b ≡ 64
      → (let conn' = (c.write conn b).0 in
          sent_init c o encryptor decryptor (c.write conn b)
          ≡ (conn', ok (record { conn = conn'; encryptor = encryptor; decryptor = decryptor })))
  unfolding sent_init write_error
  sent_init_lem conn encryptor decryptor b size =
      rw (stream.write_err conn b, stream.write_count conn b, size) refl

  with_init_lem :
      (conn : C) (init : Bytes) (encryptor decryptor : S)
      → o.new_ctr (init_key c o init) (init_iv c o init) ≡ some encryptor
      → o.new_ctr (init_key c o (reverse init)) (init_iv c o (reverse init)) ≡ some decryptor
      → with_init c o conn (ok init)
        ≡ sent_init c o
            (o.xor_key_stream encryptor init).0
            decryptor
            (c.write conn (final_init c o init (o.xor_key_stream encryptor init).1))
  unfolding with_init with_ciphers
  with_init_lem conn init encryptor decryptor h k = rw (h, k) refl

  new_conn_lem :
      (conn : C) (protocol_id init : Bytes) (draws : List (Option Bytes))
      → 1 ≤ length protocol_id
      → length protocol_id ≤ 4
      → generate_init_payload (padded_protocol protocol_id) draws ≡ some (ok init)
      → new_obfuscated_conn c o conn protocol_id draws ≡ some (with_init c o conn (ok init))
  unfolding new_obfuscated_conn or_endless
  new_conn_lem conn protocol_id init draws least most h =
      let some_byte : (length protocol_id == 0) ≡ false = ground arith in
      rw (some_byte, ge→ltb 4 (length protocol_id) most, h) refl

  length-init_key :
      (init : Bytes)
      → length init ≡ 64
      → (length (init_key c o init) ≡ 32) × (length (init_iv c o init) ≡ 16)
  length-init_key init full = (
    omega (arith, length-take 32 (drop 8 init), length-drop 8 init),
    omega (arith, length-take 16 (drop 40 init), length-drop 40 init),
  )

  -- Over a connection that takes every write, with a stream cipher for every key of 32 bytes, for a
  -- protocol of 1 to 4 bytes and random draws of 64 bytes of which one is usable: the connection
  -- comes back, with 64 bytes sent. The key in them gives the other side a stream, under which they
  -- name the protocol, and which stands then where that of the connection does.
  pub new_obfuscated_conn-Started :
      (conn : C) (protocol_id : Bytes) (draws : List Bytes)
      → 1 ≤ length protocol_id
      → length protocol_id ≤ 4
      → All (λ (b : Bytes). length b ≡ 64) draws
      → SomeUsable draws
      → Started conn protocol_id (some_draws draws)
  new_obfuscated_conn-Started conn protocol_id draws least most full usable =
      let protocol = padded_protocol protocol_id in
      let q = drawn protocol draws full usable in
      let init = with_protocol protocol q.init in
      let (size, named) =
        with_protocol_lem protocol q.init (length-padded_protocol protocol_id) q.full in
      let (key_size, iv_size) = length-init_key init size in
      let (key_size', iv_size') = length-init_key (reverse init) (length-reverse init ∙ size) in
      let (encryptor, made) =
        lawful.stream_of (init_key c o init) (init_iv c o init) key_size iv_size in
      let (decryptor, made') =
        lawful.stream_of (init_key c o (reverse init)) (init_iv c o (reverse init)) key_size'
          iv_size' in
      let sent_bytes = final_init c o init (o.xor_key_stream encryptor init).1 in
      let conn' = (c.write conn sent_bytes).0 in
      let said = announced c o lawful init encryptor size conn' decryptor protocol made named in
      record {
        final = sent_bytes;
        made = record {
          conn = conn';
          encryptor = (o.xor_key_stream encryptor init).0;
          decryptor = decryptor;
        };
        returned_conn =
            new_conn_lem conn protocol_id init (some_draws draws) least most q.taken
            ∙ ap some (
                with_init_lem conn init encryptor decryptor made made'
                ∙ sent_init_lem conn (o.xor_key_stream encryptor init).0 decryptor sent_bytes
                    said.size);
        on_the_wire = stream.write_sent conn sent_bytes;
        announced = said;
      }
