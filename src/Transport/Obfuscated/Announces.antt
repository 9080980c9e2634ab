-- ===== src/Transport/Obfuscated/Announces.antt =====
-- What the connection sends first lets the other side set up the same stream.
use gogram.Common.{
  ℕ, ◌+◌, ◌≡◌, ◌≤◌, sym, ap, ◌∙◌, Option, some, ◌++◌, length, length-append, length-take,
  length-drop, take, drop, drop_prefix, take_inside, drop_inside, take-append-drop, arith,
}
use gogram.Common.Bytes.{Bytes}
use gogram.Io.{Conn}
use gogram.Transport.Obfuscated.{Ctr, IsCtr, ObfuscatedConn, final_init, init_key, init_iv}

front_part :
    (xs ys zs : Bytes) (i k : ℕ)
    → i + k ≤ length xs
    → take k (drop i (xs ++ ys)) ≡ take k (drop i (xs ++ zs))
front_part xs ys zs i k h =
    let left = length-drop i xs in
    ap (take k) (drop_inside i xs ys (omega arith))
    ∙ take_inside k (drop i xs) ys (omega arith)
    ∙ sym (
        ap (take k) (drop_inside i xs zs (omega arith))
        ∙ take_inside k (drop i xs) zs (omega arith))

module _ {C S : Type 0} (c : Conn C) (o : Ctr S) (lawful : IsCtr o) where
  -- The other side, with a stream from the key in the announcement.
  abbrev pub peer_stream : Bytes → Option S
  peer_stream final = o.new_ctr (init_key c o final) (init_iv c o final)

  -- The announcement `final`, from which the other side has the stream `s`: it decrypts to bytes that
  -- name the protocol, and leaves the stream at that of the connection.
  pub record Announced (conn : ObfuscatedConn C S) (protocol final : Bytes) : Type 0 where
    pub peer : S
    pub peer_made : peer_stream final ≡ some peer
    pub names_protocol : take 4 (drop 56 (o.xor_key_stream peer final).1) ≡ protocol
    pub in_step : (o.xor_key_stream peer final).0 ≡ conn.encryptor
    pub size : length final ≡ 64

  module _ (init : Bytes) (s : S) (full : length init ≡ 64) where
    abbrev first : Bytes
    first = take 56 init

    abbrev last : Bytes
    last = drop 56 init

    abbrev middle : S
    middle = (o.xor_key_stream s first).0

    whole : o.xor_key_stream s init ≡ (
      (o.xor_key_stream middle last).0,
      (o.xor_key_stream s first).1 ++ (o.xor_key_stream middle last).1,
    )
    whole =
        ap (λ b. o.xor_key_stream s b) (sym (take-append-drop 56 init))
        ∙ lawful.in_parts s first last

    length-first : length (o.xor_key_stream s first).1 ≡ 56
    length-first = omega (arith, lawful.length-xor s first, length-take 56 init)

    abbrev final : Bytes
    final = final_init c o init (o.xor_key_stream s init).1

    final_lem : final ≡ first ++ (o.xor_key_stream middle last).1
    unfolding final_init
    final_lem =
        ap (λ (r : S × Bytes). first ++ drop 56 r.1) whole
        ∙ ap (λ b. first ++ b)
            (drop_prefix 56 (o.xor_key_stream s first).1 (o.xor_key_stream middle last).1
              (sym length-first))

    -- The other side decrypts the last 8 bytes to those that were encrypted.
    opened :
        o.xor_key_stream s final
        ≡ ((o.xor_key_stream middle last).0, (o.xor_key_stream s first).1 ++ last)
    opened =
        ap (λ b. o.xor_key_stream s b) final_lem
        ∙ lawful.in_parts s first (o.xor_key_stream middle last).1
        ∙ ap
            (λ (r : S × Bytes).
              (let t : S × Bytes = (r.0, (o.xor_key_stream s first).1 ++ r.1) in t))
            (lawful.takes_back middle last)

    -- The key and the vector stand in the first 56 bytes.
    same_key : (init_key c o final ≡ init_key c o init) × (init_iv c o final ≡ init_iv c o init)
    same_key = (
      ap (λ b. take 32 (drop 8 b)) final_lem
          ∙ front_part first (o.xor_key_stream middle last).1 last 8 32
              (omega (arith, length-take 56 init))
          ∙ ap (λ b. take 32 (drop 8 b)) (take-append-drop 56 init),
      ap (λ b. take 16 (drop 40 b)) final_lem
          ∙ front_part first (o.xor_key_stream middle last).1 last 40 16
              (omega (arith, length-take 56 init))
          ∙ ap (λ b. take 16 (drop 40 b)) (take-append-drop 56 init),
    )

    pub announced :
        (conn : C) (decryptor : S) (protocol : Bytes)
        → o.new_ctr (init_key c o init) (init_iv c o init) ≡ some s
        → take 4 last ≡ protocol
        → Announced
            (record { conn = conn; encryptor = (o.xor_key_stream s init).0; decryptor = decryptor })
            protocol
            final
    announced conn decryptor protocol made named = record {
      peer = s;
      peer_made =
          ap (λ k. o.new_ctr k (init_iv c o final)) same_key.0
          ∙ ap (λ v. o.new_ctr (init_key c o init) v) same_key.1
          ∙ made;
      names_protocol =
          ap (λ (r : S × Bytes). take 4 (drop 56 r.1)) opened
          ∙ ap (take 4) (drop_prefix 56 (o.xor_key_stream s first).1 last (sym length-first))
          ∙ named;
      in_step = ap (λ (r : S × Bytes). r.0) opened ∙ sym (ap (λ (r : S × Bytes). r.0) whole);
      size = omega (
        arith,
        ap length final_lem,
        length-append first (o.xor_key_stream middle last).1,
        lawful.length-xor middle last,
        length-take 56 init,
        length-drop 56 init,
      );
    }
