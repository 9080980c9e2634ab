-- ===== src/Aes/V1/Opens.antt =====
-- What EncryptV1 makes is opened under the keys of the message key that it returns.
use gogram.Common.{
  ℕ, ◌+◌, ◌%◌, ◌≡◌, ◌<◌, ◌≤◌, inl, inr, refl, Bool, false, Bool-cases, some, [], ◌++◌, append-nil,
  length, length-append, length-take, length-drop, take, drop, All-append, All-take, All-drop, ltb,
  ltb→ge, arith,
}
use gogram.Common.Bytes.{Bytes, IsByte, IsBytes}
use gogram.Common.Results.{ok}
use gogram.Aes.Ige.{new_cipher}
use gogram.Aes.Message.{Crypto, IsCrypto, key_offset, unseal}
use gogram.Aes.Message.Sealing.{Sealed, seals}
use gogram.Aes.V1.{padding_v1, substr, aes_keys_v1, seal_v1, padded_v1, encrypt_v1_with, encrypt_v1}

padding_v1_lem : (size : ℕ) → (padding_v1 size < 16) × ((size + padding_v1 size) % 16 ≡ 0)
unfolding padding_v1
padding_v1_lem size = (ground arith, ground arith)

module _ (sha1 : Bytes → Bytes) (twenty : (b : Bytes) → length (sha1 b) ≡ 20)
    (sha1-IsBytes : (b : Bytes) → IsBytes (sha1 b)) where
  substr-IsBytes : (b : Bytes) (i n : ℕ) → IsBytes (substr (sha1 b) i n)
  substr-IsBytes b i n =
      All-take IsByte n (drop i (sha1 b)) (All-drop IsByte i (sha1 b) (sha1-IsBytes b))

  length-substr : (b : Bytes) (i n : ℕ) → i + n ≤ 20 → length (substr (sha1 b) i n) ≡ n
  length-substr b i n h =
      omega (arith, twenty b, length-take n (drop i (sha1 b)), length-drop i (sha1 b))

  head-IsBytes : (b : Bytes) (n : ℕ) → IsBytes (take n (sha1 b))
  head-IsBytes b n = All-take IsByte n (sha1 b) (sha1-IsBytes b)

  length-head : (b : Bytes) (n : ℕ) → n ≤ 20 → length (take n (sha1 b)) ≡ n
  length-head b n h = omega (arith, twenty b, length-take n (sha1 b))

  module _ (a b c d : Bytes) where
    length-key : length (take 8 (sha1 a) ++ (substr (sha1 b) 8 12 ++ substr (sha1 c) 4 12)) ≡ 32
    length-key = omega (
      arith,
      length-append (take 8 (sha1 a)) (substr (sha1 b) 8 12 ++ substr (sha1 c) 4 12),
      length-append (substr (sha1 b) 8 12) (substr (sha1 c) 4 12),
      length-head a 8 (omega arith),
      length-substr b 8 12 (omega arith),
      length-substr c 4 12 (omega arith),
    )

    abbrev iv : Bytes
    iv = substr (sha1 a) 8 12 ++ (take 8 (sha1 b) ++ (substr (sha1 c) 16 4 ++ take 8 (sha1 d)))

    length-iv : length iv ≡ 32
    length-iv = omega (
      arith,
      length-append (substr (sha1 a) 8 12)
          (take 8 (sha1 b) ++ (substr (sha1 c) 16 4 ++ take 8 (sha1 d))),
      length-append (take 8 (sha1 b)) (substr (sha1 c) 16 4 ++ take 8 (sha1 d)),
      length-append (substr (sha1 c) 16 4) (take 8 (sha1 d)),
      length-substr a 8 12 (omega arith),
      length-head b 8 (omega arith),
      length-substr c 16 4 (omega arith),
      length-head d 8 (omega arith),
    )

    iv-IsBytes : IsBytes iv
    iv-IsBytes =
        All-append IsByte (substr (sha1 a) 8 12)
          (take 8 (sha1 b) ++ (substr (sha1 c) 16 4 ++ take 8 (sha1 d))) (substr-IsBytes a 8 12)
          (All-append IsByte (take 8 (sha1 b)) (substr (sha1 c) 16 4 ++ take 8 (sha1 d))
            (head-IsBytes b 8)
            (All-append IsByte (substr (sha1 c) 16 4) (take 8 (sha1 d)) (substr-IsBytes c 16 4)
              (head-IsBytes d 8)))

  module _ (o : Crypto) (lawful : IsCrypto o) where
    v1_keys_seal :
        (msg_key auth_key plain : Bytes) (decode : Bool)
        → IsBytes plain
        → 16 ≤ length plain
        → length plain % 16 ≡ 0
        → (let (key, iv) = aes_keys_v1 o sha1 msg_key auth_key decode in
            Sealed o lawful key iv msg_key plain)
    unfolding aes_keys_v1
    v1_keys_seal msg_key auth_key plain decode h least whole =
        let x = key_offset decode in
        let a = msg_key ++ substr auth_key x 32 in
        let b = substr auth_key (32 + x) 16 ++ (msg_key ++ substr auth_key (48 + x) 16) in
        let c = substr auth_key (64 + x) 32 ++ msg_key in
        let d = msg_key ++ substr auth_key (96 + x) 32 in
        seals o lawful (take 8 (sha1 a) ++ (substr (sha1 b) 8 12 ++ substr (sha1 c) 4 12))
          (iv a b c d) msg_key plain (length-key a b c d) (length-iv a b c d) (iv-IsBytes a b c d) h
          least whole

    -- The text and a padding, under the keys of the start of the text's hash.
    pub record OpensV1 (plaintext auth_key : Bytes) : Type 0 where
      pub out : Bytes
      pub padding : Bytes
      pub sent : encrypt_v1 o sha1 plaintext auth_key ≡ ok (out, substr (sha1 plaintext) 4 16)
      pub opens :
          (let (key, iv) = aes_keys_v1 o sha1 (substr (sha1 plaintext) 4 16) auth_key false in
            unseal o (new_cipher o.new_aes key iv) out ≡ ok (plaintext ++ padding))
      pub few : length padding < 16

    opens_with :
        (plaintext auth_key padding : Bytes)
        → encrypt_v1 o sha1 plaintext auth_key
          ≡ seal_v1 o sha1 (plaintext ++ padding) auth_key (substr (sha1 plaintext) 4 16) false
        → IsBytes plaintext
        → IsBytes padding
        → 0 < length plaintext
        → length padding < 16
        → (length plaintext + length padding) % 16 ≡ 0
        → OpensV1 plaintext auth_key
    unfolding seal_v1
    opens_with plaintext auth_key padding called h k some_text few whole =
        let size = length-append plaintext padding in
        let q =
          v1_keys_seal (substr (sha1 plaintext) 4 16) auth_key (plaintext ++ padding) false
            (All-append IsByte plaintext padding h k) (omega arith) (omega arith) in
        record {
          out = q.out;
          padding = padding;
          sent = rw called q.sealing;
          opens = q.opening;
          few = few;
        }

    module _ (plaintext auth_key : Bytes) (fits : length auth_key ≡ 256) where
      padded_call :
          (padding : Bytes)
          → ltb 0 (padding_v1 (length plaintext)) ≡ Bool.true
          → o.rand (padding_v1 (length plaintext)) ≡ some padding
          → encrypt_v1 o sha1 plaintext auth_key
            ≡ seal_v1 o sha1 (plaintext ++ padding) auth_key (substr (sha1 plaintext) 4 16) false
      unfolding encrypt_v1_with padded_v1
      padded_call padding more drew = rw (fits, more, drew) refl

      whole_call :
          ltb 0 (padding_v1 (length plaintext)) ≡ false
          → encrypt_v1 o sha1 plaintext auth_key
            ≡ seal_v1 o sha1 (plaintext ++ []) auth_key (substr (sha1 plaintext) 4 16) false
      unfolding encrypt_v1_with
      whole_call none_more = rw (fits, none_more, append-nil plaintext) refl

    -- Over a hash of 20 bytes, a lawful block cipher and a random source that works, under a key of
    -- 256 bytes: a text that is not empty is encrypted, and the result is opened
    -- by the IGE cipher of the same message key: to the text with fewer than 16 bytes behind it.
    pub encrypt_v1-OpensV1 :
        (plaintext auth_key : Bytes)
        → IsBytes plaintext
        → 0 < length plaintext
        → length auth_key ≡ 256
        → OpensV1 plaintext auth_key
    encrypt_v1-OpensV1 plaintext auth_key h some_text fits =
        let (few, whole) = padding_v1_lem (length plaintext) in
        let (padding, drew, lp, kp) = lawful.drawn (padding_v1 (length plaintext)) in
        elim (Bool-cases (ltb 0 (padding_v1 (length plaintext)))) [
          | inl more ↦
              opens_with plaintext auth_key padding
                (padded_call plaintext auth_key fits padding more drew) h kp some_text (omega arith)
                (omega arith)
          | inr none_more ↦
              (let zero_pad = ltb→ge 0 (padding_v1 (length plaintext)) none_more in
                opens_with plaintext auth_key [] (whole_call plaintext auth_key fits none_more) h tt
                  some_text (omega arith) (omega arith))
        ]
