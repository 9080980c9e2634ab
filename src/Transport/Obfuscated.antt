-- ===== src/Transport/Obfuscated.antt =====
-- internal/transport/obfuscation.go: a connection behind AES-256-CTR. The stream cipher and the
-- connection are parameters, and what `rand.Read` fills in each call is the list `draws`.
pub mod Announces
pub mod Starts
use gogram.Common.{
  ℕ, zero, suc, ◌+◌, ◌-◌, ◌%◌, ◌^◌, ◌≡◌, Bool, true, false, not, ◌&&◌, ◌||◌, Option, none, some,
  List, [], ◌∷◌, ◌++◌, length, take, drop, get_or, ltb, ◌==◌, if◌then◌else◌,
}
use mathlib.Core.List.{reverse}
use gogram.Common.Bytes.{Bytes, from_le}
use gogram.Common.Results.{Result, ok, err}
use gogram.Io.{IoError, short_write, Conn}

-- `aes.NewCipher` with `cipher.NewCTR`, and `XORKeyStream` with the stream behind it.
pub record Ctr (S : Type 0) : Type 0 where
  pub new_ctr : Bytes → Bytes → Option S
  pub xor_key_stream : S → Bytes → S × Bytes

-- A stream for keys of 32 bytes and vectors of 16. It keeps the length, takes its input in parts,
-- and the same stream takes it back.
pub record IsCtr {S : Type 0} (o : Ctr S) : Type 0 where
  pub stream_of :
      (key iv : Bytes) → length key ≡ 32 → length iv ≡ 16 → (s : S) × (o.new_ctr key iv ≡ some s)
  pub length-xor : (s : S) (b : Bytes) → length (o.xor_key_stream s b).1 ≡ length b
  pub in_parts :
      (s : S) (a b : Bytes)
      → o.xor_key_stream s (a ++ b) ≡ (
        (o.xor_key_stream (o.xor_key_stream s a).0 b).0,
        (o.xor_key_stream s a).1 ++ (o.xor_key_stream (o.xor_key_stream s a).0 b).1,
      )
  pub takes_back :
      (s : S) (b : Bytes)
      → o.xor_key_stream s (o.xor_key_stream s b).1 ≡ ((o.xor_key_stream s b).0, b)

pub data ObfuscationError : Type 0 where
  protocol_size random_source cipher_key : ObfuscationError
  sending : IoError → ObfuscationError

pub record ObfuscatedConn (C S : Type 0) : Type 0 where
  pub conn : C
  pub encryptor : S
  pub decryptor : S

unfoldable pub padded_protocol : Bytes → Bytes
padded_protocol id =
    get_or id (0 % length id) 0
    ∷ get_or id (1 % length id) 0
    ∷ get_or id (2 % length id) 0
    ∷ get_or id (3 % length id) 0
    ∷ []

-- The words "HEAD", "POST", "GET ", "OPTI", that of TLS, and those of two framings.
abbrev pub forbidden_first : List ℕ
forbidden_first =
    0x44414548 ∷ 0x54534f50 ∷ 0x20544547 ∷ 0x4954504f ∷ 0x02010316 ∷ 0xdddddddd ∷ 0xeeeeeeee ∷ []

unfoldable pub contains_word : List ℕ → ℕ → Bool
contains_word [] v = false
contains_word (x ∷ xs) v = if x == v then true else contains_word xs v

unfoldable pub is_usable : Bytes → Bool
is_usable init =
    (not (get_or init 0 0 == 0xef) && not (contains_word forbidden_first (from_le (take 4 init))))
    && not (from_le (take 4 (drop 4 init)) == 0)

unfoldable pub with_protocol : Bytes → Bytes → Bytes
with_protocol protocol init = take 56 init ++ (protocol ++ drop 60 init)

-- The loop over the draws; nothing where they do not suffice.
unfoldable pub generate_init_payload :
    Bytes → List (Option Bytes) → Option (Result ObfuscationError Bytes)
generate_init_payload protocol [] = none
generate_init_payload protocol (none ∷ draws) = some (err random_source)
generate_init_payload protocol (some init ∷ draws) =
    let rest = generate_init_payload protocol draws in
    if is_usable init then some (ok (with_protocol protocol init)) else rest

module _ {C S : Type 0} (c : Conn C) (o : Ctr S) where
  -- The end of a write: an error of the connection, or a short write.
  unfoldable pub write_error : ℕ → ℕ → Option IoError → Option IoError
  write_error size n (some e) = some e
  write_error size n none = if not (n == size) then some short_write else none

  unfoldable pub sent_init :
      S → S → C × ℕ × Option IoError → C × Result ObfuscationError (ObfuscatedConn C S)
  sent_init encryptor decryptor (conn, n, e) = elim (write_error 64 n e) [
    | none ↦ (conn, ok (record { conn = conn; encryptor = encryptor; decryptor = decryptor }))
    | some x ↦ (conn, err (sending x))
  ]

  -- The first 56 bytes as they are, and the others encrypted.
  unfoldable pub final_init : Bytes → Bytes → Bytes
  final_init init encrypted = take 56 init ++ drop 56 encrypted

  unfoldable pub with_ciphers :
      C → Bytes → Option S → Option S → C × Result ObfuscationError (ObfuscatedConn C S)
  with_ciphers conn init none decryptor = (conn, err cipher_key)
  with_ciphers conn init (some encryptor) none = (conn, err cipher_key)
  with_ciphers conn init (some encryptor) (some decryptor) =
      let (encryptor', encrypted_init) = o.xor_key_stream encryptor init in
      sent_init encryptor' decryptor (c.write conn (final_init init encrypted_init))

  abbrev pub init_key : Bytes → Bytes
  init_key init = take 32 (drop 8 init)

  abbrev pub init_iv : Bytes → Bytes
  init_iv init = take 16 (drop 40 init)

  unfoldable pub with_init :
      C → Result ObfuscationError Bytes → C × Result ObfuscationError (ObfuscatedConn C S)
  with_init conn (err e) = (conn, err e)
  with_init conn (ok init) =
      with_ciphers conn init (o.new_ctr (init_key init) (init_iv init))
        (o.new_ctr (init_key (reverse init)) (init_iv (reverse init)))

  unfoldable pub or_endless :
      C
      → Option (Result ObfuscationError Bytes)
      → Option (C × Result ObfuscationError (ObfuscatedConn C S))
  or_endless conn none = none
  or_endless conn (some r) = some (with_init conn r)

  unfoldable pub new_obfuscated_conn :
      C → Bytes → List (Option Bytes) → Option (C × Result ObfuscationError (ObfuscatedConn C S))
  new_obfuscated_conn conn protocol_id draws =
      if (length protocol_id == 0) || ltb 4 (length protocol_id)
      then some (conn, err protocol_size)
      else or_endless conn (generate_init_payload (padded_protocol protocol_id) draws)

  unfoldable pub write_obfuscated :
      ObfuscatedConn C S → Bytes → ObfuscatedConn C S × ℕ × Option IoError
  write_obfuscated o' b =
      let (encryptor, encrypted) = o.xor_key_stream o'.encryptor b in
      let (conn, n, e) = c.write o'.conn encrypted in
      (record o' { conn = conn; encryptor = encryptor }, n, write_error (length encrypted) n e)

  -- `Read` on a slice of `size` bytes, with the `Read` of the connection.
  unfoldable pub read_obfuscated :
      (C → ℕ → C × Bytes × Option IoError)
      → ObfuscatedConn C S
      → ℕ
      → ObfuscatedConn C S × Bytes × Option IoError
  read_obfuscated read_conn o' size =
      let (conn, got, e) = read_conn o'.conn size in
      let (decryptor, plain) = o.xor_key_stream o'.decryptor got in
      (record o' { conn = conn; decryptor = decryptor }, plain, e)
