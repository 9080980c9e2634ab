-- ===== src/Messages/Encrypted/Parsing.antt =====
-- The fields in front of a decrypted message, and the parts of the envelope.
use gogram.Common.{
  ℕ, ◌+◌, ◌-◌, ◌≡◌, ◌≤◌, ◌<◌, refl, sym, ap, ◌∙◌, none, ◌++◌, length, length-take, length-drop,
  take, drop, drop-drop, take-append-drop, arith,
}
use mathlib.Core.Path.{subst}
use gogram.Common.Int.{pos}
use gogram.Common.Bytes.{Bytes, from_le}
use gogram.Common.Results.{ok, err}
use gogram.Tl.Decoder.{
  Decoder, rest, read, give, pop_uint, pop_int, pop_long, pop_raw_bytes, new_decoder_bytes,
}
use gogram.Tl.Decoder.Reads.{Pops, Pops-then, give-Pops, read-Pops, pop_raw_bytes-Pops}
use gogram.Common.{not, if◌then◌else◌}
use gogram.Common.Bytes.{same_bytes}
use gogram.Aes.Message.{Crypto, decrypt}
use gogram.Messages.Encrypted.{
  Encrypted, wrong_key, auth_key_hash_of, check_fields, read_fields, with_body, with_check_err,
  fresh_message, authenticated, check_key_hash,
}

-- The `n` bytes from `i` on.
abbrev pub part : Bytes → ℕ → ℕ → Bytes
part b i n = take n (drop i b)

module _ (d : Decoder) (b : Bytes) (i n j : ℕ) (clean : d.err ≡ none) (here : rest d ≡ drop i b)
    (ends : i + n ≡ j) (inside : j ≤ length b) (some_bytes : 0 < n) where
  split : rest d ≡ part b i n ++ drop j b
  split =
      here
      ∙ sym
          (ap (λ t. part b i n ++ t) (sym (drop-drop n i j b ends)) ∙ take-append-drop n (drop i b))

  length-part : length (part b i n) ≡ n
  length-part = omega (arith, length-take n (drop i b), length-drop i b)

  some_left : 0 < length (part b i n ++ drop j b)
  some_left = subst (λ t. 0 < length t) (here ∙ here') left
    where
      here' : drop i b ≡ part b i n ++ drop j b
      here' = sym here ∙ split

      left : 0 < length (rest d)
      left = rw here (omega (arith, length-drop i b))

  read-part : Pops d (read n d) (part b i n) (drop j b)
  read-part = read-Pops d n (part b i n) (drop j b) clean split (sym length-part) some_left

  pub pop_part : Pops d (pop_raw_bytes (pos n) d) (part b i n) (drop j b)
  pop_part =
      subst (λ k. Pops d (pop_raw_bytes (pos k) d) (part b i n) (drop j b)) length-part
        (pop_raw_bytes-Pops d (part b i n) (drop j b) clean split some_left)

module _ (d : Decoder) (b : Bytes) (i j : ℕ) (clean : d.err ≡ none) (here : rest d ≡ drop i b) where
  pub long_part : i + 8 ≡ j → j ≤ length b → Pops d (pop_long d) (from_le (part b i 8)) (drop j b)
  unfolding pop_long
  long_part ends inside =
      Pops-then d (read 8) 0 (λ val. give (from_le val))
        (read-part d b i 8 j clean here ends inside (omega arith))
        λ d' e' left. give-Pops d' _ (from_le (part b i 8)) e' left refl

  pub word_part : i + 4 ≡ j → j ≤ length b → Pops d (pop_uint d) (from_le (part b i 4)) (drop j b)
  unfolding pop_uint
  word_part ends inside =
      Pops-then d (read 4) 0 (λ val. give (from_le val))
        (read-part d b i 4 j clean here ends inside (omega arith))
        λ d' e' left. give-Pops d' _ (from_le (part b i 4)) e' left refl

-- The fields from the start of `b`.
abbrev pub with_fields : Encrypted → Bytes → Encrypted
with_fields m b = record m {
  salt = from_le (part b 0 8);
  session_id = from_le (part b 8 8);
  msg_id = from_le (part b 16 8);
  seq_no = from_le (part b 24 4);
}

pub record Parsed (m : Encrypted) (size : ℕ) (b : Bytes) : Type 0 where
  pub at_body : Decoder
  pub fields_read :
      read_fields m size (new_decoder_bytes b)
      ≡ check_fields (with_fields m b) (from_le (part b 28 4)) size at_body
  pub no_error : at_body.err ≡ none
  pub left : rest at_body ≡ drop 32 b

pub parsed : (m : Encrypted) (size : ℕ) (b : Bytes) → 32 ≤ length b → Parsed m size b
unfolding read_fields
parsed m size b enough =
    let d0 = new_decoder_bytes b in
    let p1 = long_part d0 b 0 8 refl refl refl (omega arith) in
    let d1 : Decoder = (pop_long d0).0 in
    let p2 = long_part d1 b 8 16 p1.no_error p1.left refl (omega arith) in
    let d2 : Decoder = (pop_long d1).0 in
    let p3 = long_part d2 b 16 24 p2.no_error p2.left refl (omega arith) in
    let d3 : Decoder = (pop_long d2).0 in
    let p4 = word_part d3 b 24 28 p3.no_error p3.left refl (omega arith) in
    let d4 : Decoder = (pop_int d3).0 in
    let p5 = word_part d4 b 28 32 p4.no_error p4.left refl (omega arith) in
    record {
      at_body = (pop_int d4).0;
      fields_read = rw (p1.value, p2.value, p3.value, p4.value, p5.value) refl;
      no_error = p5.no_error;
      left = p5.left;
    }

-- The content behind the fields.
pub body_lem :
    (m : Encrypted) (b : Bytes) (d : Decoder) (n : ℕ)
    → d.err ≡ none
    → rest d ≡ drop 32 b
    → 0 < n
    → 32 + n ≤ length b
    → with_body m (pop_raw_bytes (pos n) d) ≡ ok (record m { msg = part b 32 n })
unfolding with_body with_check_err
body_lem m b d n clean here some_bytes inside =
    let p = pop_part d b 32 n (32 + n) clean here refl inside some_bytes in
    rw (p.value, p.no_error) refl

-- The parts of the envelope, of which the last one is decrypted.
pub check_key_hash_lem :
    (o : Crypto) (sha1 : Bytes → Bytes) (auth_key input : Bytes)
    → 25 ≤ length input
    → check_key_hash o sha1 auth_key
        (length input)
        (pop_raw_bytes (pos 8) (new_decoder_bytes input))
      ≡ (if not (same_bytes (part input 0 8) (auth_key_hash_of sha1 auth_key))
          then err wrong_key
          else authenticated o sha1
              (fresh_message (part input 0 8) (part input 8 16))
              auth_key
              (decrypt o (part input 24 (length input - 24)) auth_key (part input 8 16)))
unfolding check_key_hash
check_key_hash_lem o sha1 auth_key input enough =
    let d0 = new_decoder_bytes input in
    let p1 = pop_part d0 input 0 8 8 refl refl refl (omega arith) (omega arith) in
    let d1 : Decoder = (pop_raw_bytes (pos 8) d0).0 in
    let p2 = pop_part d1 input 8 16 24 p1.no_error p1.left refl (omega arith) (omega arith) in
    let d2 : Decoder = (pop_raw_bytes (pos 16) d1).0 in
    let p3 =
      pop_part d2 input 24 (length input - 24) (length input) p2.no_error p2.left (omega arith)
        (omega arith) (omega arith) in
    rw (p1.value, p2.value, p3.value) refl
