-- ===== src/Messages/Encrypted/Trusted.antt =====
-- A message that DeserializeEncrypted returns was made with the shared key.
use gogram.Common.{
  ℕ, ◌+◌, ◌-◌, ◌%◌, ◌^◌, ◌≡◌, ◌≤◌, ◌<◌, ◌⊎◌, inl, inr, refl, sym, ap, ◌∙◌, true, false, Bool-cases,
  not, ◌&&◌, ◌||◌, length, length-take, length-drop, drop, bit_and, ltb, ltb→lt, ltb→ge, ◌==◌,
  ==_iff, if◌then◌else◌, arith,
}
use mathlib.Core.Path.{subst}
use gogram.Common.Bits.{and_three}
use gogram.Common.Int.{pos, negsuc, signed32}
use gogram.Common.Bytes.{Bytes, from_le, same_bytes, same_bytes-eq}
use gogram.Common.Results.{Result, ok, err, else_branch, ok_injective, not-false, or_false}
use gogram.Aes.Ige.{IgeError}
use gogram.Aes.Message.{Crypto, message_key, decrypt}
use gogram.Tl.Decoder.{Decoder, pop_long, pop_int, pop_raw_bytes, new_decoder_bytes}
use gogram.Messages.Encrypted.{
  Encrypted, EnvelopeError, bad_length, bad_padding, negative_seq_no, bad_id_bits, wrong_key,
  wrong_message_key, invalid_input, auth_key_hash_of, int_below, is_bad_length, check_fields,
  read_fields, with_body, fresh_message, authenticated, check_key_hash, deserialize_encrypted,
}
use gogram.Messages.Encrypted.Parsing.{part, with_fields, parsed, body_lem, check_key_hash_lem}

-- What the tests on the fields let through.
record Passed (m : Encrypted) (n size : ℕ) (d : Decoder) (r : Encrypted) : Type 0 where
  least : 4 ≤ n
  whole : n % 4 ≡ 0
  enough_padding : 12 ≤ size - 32 - n
  little_padding : size - 32 - n ≤ 1024
  sequence : m.seq_no < 2 ^ 31
  bits : (m.msg_id % 4 ≡ 1) ⊎ (m.msg_id % 4 ≡ 3)
  body : with_body m (pop_raw_bytes (pos n) d) ≡ ok r

int_below_lem : (z : ℕ) (n : ℕ) → int_below (signed32 z) n ≡ false → n ≤ z
int_below_lem z n h = elim (Bool-cases (ltb z (2 ^ 31))) [
  | inl small ↦
      ltb→ge z n
        (subst (λ b. int_below (if b then pos z else negsuc (2 ^ 32 - z - 1)) n ≡ false) small h)
  | inr large ↦
      (let wrong =
          subst (λ b. int_below (if b then pos z else negsuc (2 ^ 32 - z - 1)) n ≡ false) large h in
        ground arith)
]

good_length : (n size : ℕ) → is_bad_length n size ≡ false → (4 ≤ n) × (n % 4 ≡ 0)
unfolding is_bad_length
good_length n size h =
    let (front, _) =
      or_false (int_below (signed32 n) 4 || not (n % 4 == 0)) (ltb (size - 32) n) h in
    let (least, whole) = or_false (int_below (signed32 n) 4) (not (n % 4 == 0)) front in
    (int_below_lem n 4 least, ground arith)

id_bits :
    (id : ℕ)
    → (not (bit_and id 3 == 1) && not (bit_and id 3 == 3)) ≡ false
    → (id % 4 ≡ 1) ⊎ (id % 4 ≡ 3)
id_bits id h = elim (Bool-cases (bit_and id 3 == 1)) [
  | inl one ↦ inl (sym (and_three id) ∙ (==_iff (bit_and id 3) 1).0 one)
  | inr other ↦ inr (sym (and_three id) ∙ ground arith)
]

check_fields-Passed :
    (m : Encrypted) (n size : ℕ) (d : Decoder) (r : Encrypted)
    → check_fields m n size d ≡ ok r
    → Passed m n size d r
unfolding check_fields
check_fields-Passed m n size d r h =
    let pad = size - 32 - n in
    let low = bit_and m.msg_id 3 in
    let r4 : Result EnvelopeError Encrypted = with_body m (pop_raw_bytes (pos n) d) in
    let r3 : Result EnvelopeError Encrypted =
      if not (low == 1) && not (low == 3) then err (bad_id_bits low) else r4 in
    let r2 : Result EnvelopeError Encrypted =
      if not (ltb m.seq_no (2 ^ 31)) then err negative_seq_no else r3 in
    let r1 : Result EnvelopeError Encrypted =
      if ltb pad 12 || ltb 1024 pad then err (bad_padding pad) else r2 in
    let (fine, h1) = else_branch (is_bad_length n size) (bad_length n size) r1 h in
    let (padded, h2) = else_branch (ltb pad 12 || ltb 1024 pad) (bad_padding pad) r2 h1 in
    let (positive, h3) = else_branch (not (ltb m.seq_no (2 ^ 31))) negative_seq_no r3 h2 in
    let (named, h4) = else_branch (not (low == 1) && not (low == 3)) (bad_id_bits low) r4 h3 in
    let (least, whole) = good_length n size fine in
    let (enough, few) = or_false (ltb pad 12) (ltb 1024 pad) padded in
    record {
      least = least;
      whole = whole;
      enough_padding = ltb→ge pad 12 enough;
      little_padding = ltb→ge 1024 pad few;
      sequence = ltb→lt m.seq_no (2 ^ 31) (not-false (ltb m.seq_no (2 ^ 31)) positive);
      bits = id_bits m.msg_id named;
      body = h4;
    }

long_enough :
    (m : Encrypted) (size : ℕ) (d : Decoder) (r : Encrypted)
    → read_fields m size d ≡ ok r
    → 44 ≤ size
unfolding read_fields
long_enough m size d r h =
    let (d1, salt) = pop_long d in
    let (d2, session) = pop_long d1 in
    let (d3, id) = pop_long d2 in
    let (d4, seq) = pop_int d3 in
    let (d5, n) = pop_int d4 in
    let p =
      check_fields-Passed
        (record m { salt = salt; session_id = session; msg_id = id; seq_no = seq }) n size d5 r h in
    omega (arith, p.enough_padding)

-- A message that stands behind its fields in the plaintext `b`, with 12 to 1024 bytes after it.
pub record Enclosed (m : Encrypted) (b : Bytes) (r : Encrypted) : Type 0 where
  pub content : r ≡ record (with_fields m b) { msg = part b 32 (length r.msg) }
  pub size : from_le (part b 28 4) ≡ length r.msg
  pub least : 4 ≤ length r.msg
  pub whole : length r.msg % 4 ≡ 0
  pub enough_padding : 32 + length r.msg + 12 ≤ length b
  pub little_padding : length b ≤ 32 + length r.msg + 1024
  pub sequence : r.seq_no < 2 ^ 31
  pub bits : (r.msg_id % 4 ≡ 1) ⊎ (r.msg_id % 4 ≡ 3)

encloses :
    (m : Encrypted) (b : Bytes) (d : Decoder)
    → Passed
        (with_fields m b)
        (from_le (part b 28 4))
        (length b)
        d
        (record (with_fields m b) { msg = part b 32 (from_le (part b 28 4)) })
    → Enclosed m b (record (with_fields m b) { msg = part b 32 (from_le (part b 28 4)) })
encloses m b d p =
    let n = from_le (part b 28 4) in
    let q1 = p.enough_padding in
    let q2 = p.little_padding in
    let q3 = p.least in
    let size : length (part b 32 n) ≡ n =
      omega (arith, length-take n (drop 32 b), length-drop 32 b) in
    record {
      content = ap (λ k. record (with_fields m b) { msg = part b 32 k }) (sym size);
      size = sym size;
      least = omega arith;
      whole = ap (λ (k : ℕ). k % 4) size ∙ p.whole;
      enough_padding = omega arith;
      little_padding = omega arith;
      sequence = p.sequence;
      bits = p.bits;
    }

read_fields-Enclosed :
    (m : Encrypted) (b : Bytes) (r : Encrypted)
    → read_fields m (length b) (new_decoder_bytes b) ≡ ok r
    → Enclosed m b r
read_fields-Enclosed m b r h =
    let enough = long_enough m (length b) (new_decoder_bytes b) r h in
    let q = parsed m (length b) b (omega arith) in
    let n = from_le (part b 28 4) in
    let p =
      check_fields-Passed (with_fields m b) n (length b) q.at_body r (sym q.fields_read ∙ h) in
    let p1 = p.enough_padding in
    let p2 = p.least in
    let made =
      body_lem (with_fields m b) b q.at_body n q.no_error q.left (omega arith) (omega arith) in
    let same = ok_injective (sym made ∙ p.body) in
    subst (Enclosed m b) same (
      encloses m b q.at_body (subst (Passed (with_fields m b) n (length b) q.at_body) (sym same) p))

module _ (o : Crypto) (sha1 : Bytes → Bytes) (input auth_key : Bytes) where
  pub record Trusted (m : Encrypted) : Type 0 where
    pub key_size : length auth_key ≡ 256
    pub named_key : part input 0 8 ≡ auth_key_hash_of sha1 auth_key
    pub decrypted : Bytes
    pub opened :
        decrypt o (part input 24 (length input - 24)) auth_key (part input 8 16) ≡ ok decrypted
    pub authentic : message_key o auth_key decrypted true ≡ part input 8 16
    pub enclosed : Enclosed (fresh_message (part input 0 8) (part input 8 16)) decrypted m

  authenticated-Trusted :
      (m : Encrypted) (r : Result IgeError Bytes)
      → length auth_key ≡ 256
      → part input 0 8 ≡ auth_key_hash_of sha1 auth_key
      → decrypt o (part input 24 (length input - 24)) auth_key (part input 8 16) ≡ r
      → authenticated o sha1 (fresh_message (part input 0 8) (part input 8 16)) auth_key r ≡ ok m
      → Trusted m
  unfolding authenticated
  authenticated-Trusted m (err e) fits named opened h = ground arith
  authenticated-Trusted m (ok decrypted) fits named opened h =
      let hash = message_key o auth_key decrypted true in
      let message = fresh_message (part input 0 8) (part input 8 16) in
      let (same, inner) =
        else_branch (not (same_bytes hash (part input 8 16))) wrong_message_key
          (read_fields message (length decrypted) (new_decoder_bytes decrypted)) h in
      record {
        key_size = fits;
        named_key = named;
        decrypted = decrypted;
        opened = opened;
        authentic =
            same_bytes-eq hash (part input 8 16)
              (not-false (same_bytes hash (part input 8 16)) same);
        enclosed = read_fields-Enclosed message decrypted m inner;
      }

  -- Whatever arrives: a message that `DeserializeEncrypted` returns was under the shared key of
  -- 256 bytes, named by its hash. The message key is that of the whole plaintext, and the fields
  -- and the content stand there, the content a multiple of 4 bytes and not empty, with 12 to 1024
  -- bytes after it; the sequence number is not negative, and the id has the bits of a server.
  pub deserialize_encrypted-Trusted :
      (m : Encrypted) → deserialize_encrypted o sha1 input auth_key ≡ ok m → Trusted m
  unfolding deserialize_encrypted
  deserialize_encrypted-Trusted m h =
      let bad_key = not (length auth_key == 256) in
      let short = ltb (length input) (24 + 48) in
      let uneven = not ((length input - 24) % 16 == 0) in
      let inner : Result EnvelopeError Encrypted =
        check_key_hash o sha1 auth_key (length input)
          (pop_raw_bytes (pos 8) (new_decoder_bytes input)) in
      let (fine, h1) = else_branch ((bad_key || short) || uneven) invalid_input inner h in
      let (both, _) = or_false (bad_key || short) uneven fine in
      let (fits, long) = or_false bad_key short both in
      let hash = part input 0 8 in
      let opened = decrypt o (part input 24 (length input - 24)) auth_key (part input 8 16) in
      let next : Result EnvelopeError Encrypted =
        authenticated o sha1 (fresh_message hash (part input 8 16)) auth_key opened in
      let least = ltb→ge (length input) 72 long in
      let h2 = sym (check_key_hash_lem o sha1 auth_key input (omega arith)) ∙ h1 in
      let (same, h3) =
        else_branch (not (same_bytes hash (auth_key_hash_of sha1 auth_key))) wrong_key next h2 in
      authenticated-Trusted m opened
        ((==_iff (length auth_key) 256).0 (not-false (length auth_key == 256) fits))
        (same_bytes-eq hash (auth_key_hash_of sha1 auth_key)
          (not-false (same_bytes hash (auth_key_hash_of sha1 auth_key)) same))
        refl h3
