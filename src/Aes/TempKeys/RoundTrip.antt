-- ===== src/Aes/TempKeys/RoundTrip.antt =====
-- Which messages come back.
use gogram.Common.{
  ℕ, ◌+◌, ◌-◌, ◌%◌, ◌≡◌, ◌≢◌, ◌≤◌, ◌<◌, inl, inr, refl, sym, ap, ◌∙◌, Bool, Bool-cases, none, some,
  [], ◌++◌, length, length-append, length-take, length-drop, take, drop, take_prefix, drop_prefix,
  take_past, All-append, All-take, All-drop, ge→ltb, ◌==◌, ==_iff, if◌then◌else◌, arith,
}
use gogram.Common.Int.{pos}
use gogram.Common.Bytes.{
  Bytes, IsByte, IsBytes, be_bytes, length-be_bytes, be_bytes-IsBytes, same_bytes, same_bytes_refl,
  same_bytes-eq,
}
use gogram.Common.Results.{Result, ok, err}
use gogram.Aes.Message.{Crypto, IsCrypto}
use gogram.Aes.Message.Sealing.{Sealed, seals}
use gogram.Aes.TempKeys.{
  TempError, incompatible_hashes, cipher_error, ciphertext_of, temp_key, temp_iv, encrypt_under,
  need_to_add, encrypt_message_with_temp_keys, trim_loop, trimmed, trim, decrypt_under,
  decrypt_message_with_temp_keys,
}
use gogram.Aes.TempKeys.Rounds.{
  Misses, trim_loop-Misses, trim_loop_hits, both_nonces-fit, same_when, NonceFits,
}

module _ (o : Crypto) (sha1 : Bytes → Bytes) (twenty : (b : Bytes) → length (sha1 b) ≡ 20)
    (sha1-IsBytes : (b : Bytes) → IsBytes (sha1 b)) where
  length-temp_key : (second server : Bytes) → length (temp_key o sha1 second server) ≡ 32
  unfolding temp_key
  length-temp_key second server =
      let b = sha1 (server ++ second) in
      omega (
        arith,
        length-append (sha1 (second ++ server)) (take 12 b),
        length-take 12 b,
        twenty b,
        twenty (second ++ server),
      )

  length-temp_iv :
      (second server : Bytes) → length second ≡ 32 → length (temp_iv o sha1 second server) ≡ 32
  unfolding temp_iv
  length-temp_iv second server h =
      let b = sha1 (server ++ second) in
      let c = sha1 (second ++ second) in
      omega (
        arith,
        length-append (take 8 (drop 12 b)) (c ++ take 4 second),
        length-append c (take 4 second),
        length-take 8 (drop 12 b),
        length-drop 12 b,
        length-take 4 second,
        twenty b,
        twenty (second ++ second),
      )

  temp_iv-IsBytes :
      (second server : Bytes) → IsBytes second → IsBytes (temp_iv o sha1 second server)
  unfolding temp_iv
  temp_iv-IsBytes second server h =
      let b = sha1 (server ++ second) in
      let c = sha1 (second ++ second) in
      All-append IsByte (take 8 (drop 12 b)) (c ++ take 4 second)
        (All-take IsByte 8 (drop 12 b) (All-drop IsByte 12 b (sha1-IsBytes (server ++ second))))
        (All-append IsByte c (take 4 second) (sha1-IsBytes (second ++ second))
          (All-take IsByte 4 second h))

  -- No other message of up to 16 bytes more has the hash of this one.
  abbrev pub IsAlone : Bytes → Type 0
  IsAlone msg = (pad : Bytes) → 0 < length pad → length pad ≤ 16 → sha1 msg ≢ sha1 (msg ++ pad)

  same_test :
      (msg pad : Bytes)
      → length pad ≡ 16 - (20 + length msg) % 16
      → (let r : Result TempError Bytes =
            if length pad == 16 then err incompatible_hashes else ok msg in
          r)
        ≡ (if (20 + length msg) % 16 == 0 then err incompatible_hashes else ok msg)
  same_test msg pad e =
      ap
        (λ (b : Bool).
          let r : Result TempError Bytes = if b then err incompatible_hashes else ok msg in r)
        (rw e (same_when (20 + length msg)))

  module _ (msg pad : Bytes) (alone : IsAlone msg) (few : length pad ≤ 16) where
    longer-Misses :
        (j : ℕ) → j ≤ length (msg ++ pad) → length msg < j → Misses o sha1 (sha1 msg) (msg ++ pad) j
    longer-Misses j p q =
        let k = j - length msg in
        let same : length msg + k ≡ j = omega arith in
        let prefix : take j (msg ++ pad) ≡ msg ++ take k pad =
          ap (λ n. take n (msg ++ pad)) (sym same) ∙ take_past msg pad k in
        elim (Bool-cases (same_bytes (sha1 msg) (sha1 (take j (msg ++ pad))))) [
          | inr no_match ↦ no_match
          | inl match ↦ absurd (
              alone (take k pad) (omega (arith, length-take k pad, length-append msg pad))
                (omega (arith, length-take k pad))
                (same_bytes-eq (sha1 msg) (sha1 (take j (msg ++ pad))) match ∙ ap sha1 prefix))
        ]

    abbrev found : Result TempError Bytes
    found = if length pad == 16 then err incompatible_hashes else ok msg

    all_miss :
        length pad ≡ 16
        → trim_loop o sha1
            (length (msg ++ pad) - (length (msg ++ pad) - 15) + 1)
            (sha1 msg)
            (msg ++ pad)
            (length (msg ++ pad))
          ≡ none
    all_miss sixteen =
        let size = length (msg ++ pad) in
        trim_loop-Misses o sha1 (sha1 msg) (msg ++ pad) (size - (size - 15) + 1) size
          (λ j p q. longer-Misses j p (omega (arith, length-append msg pad))) (omega arith)

    one_hits :
        length pad ≤ 15
        → trim_loop o sha1
            (length (msg ++ pad) - (length (msg ++ pad) - 15) + 1)
            (sha1 msg)
            (msg ++ pad)
            (length (msg ++ pad))
          ≡ some msg
    one_hits fewer =
        let size = length (msg ++ pad) in
        let text : take (length msg) (msg ++ pad) ≡ msg = take_prefix (length msg) msg pad refl in
        trim_loop_hits o sha1 (sha1 msg) (msg ++ pad) (size - (size - 15) + 1) size (length msg)
          (omega (arith, length-append msg pad)) (omega (arith, length-append msg pad))
          longer-Misses (rw text (same_bytes_refl (sha1 msg)))
        ∙ ap some text

    trim_lem : trim o sha1 (ok (sha1 msg ++ (msg ++ pad))) ≡ found
    unfolding trim trimmed
    trim_lem =
        let hash = sha1 msg in
        let size : length (hash ++ (msg ++ pad)) ≡ 20 + length (msg ++ pad) =
          omega (arith, length-append hash (msg ++ pad), twenty msg) in
        let front : take 20 (hash ++ (msg ++ pad)) ≡ hash =
          take_prefix 20 hash (msg ++ pad) (sym (twenty msg)) in
        let back : drop 20 (hash ++ (msg ++ pad)) ≡ msg ++ pad =
          drop_prefix 20 hash (msg ++ pad) (sym (twenty msg)) in
        elim (Bool-cases (length pad == 16)) [
          | inl sixteen ↦
              rw
                (
                  front,
                  back,
                  size,
                  ge→ltb (20 + length (msg ++ pad)) 20 (omega arith),
                  sixteen,
                  all_miss ((==_iff (length pad) 16).0 sixteen),
                )
                refl
          | inr other ↦
              rw
                (
                  front,
                  back,
                  size,
                  ge→ltb (20 + length (msg ++ pad)) 20 (omega arith),
                  other,
                  one_hits (ground arith),
                )
                refl
        ]

  -- The whole exchange, at a padding `pad` that makes whole blocks.
  module _ (lawful : IsCrypto o) (msg pad : Bytes) (second server : ℕ) where
    abbrev whole_text : Bytes
    whole_text = sha1 msg ++ (msg ++ pad)

    abbrev second_bytes : Bytes
    second_bytes = be_bytes 32 second

    abbrev server_bytes : Bytes
    server_bytes = be_bytes 16 server

    abbrev KeysSeal : Type 0
    KeysSeal =
        Sealed o lawful (temp_key o sha1 second_bytes server_bytes)
          (temp_iv o sha1 second_bytes server_bytes) [] whole_text

    keys_seal : IsBytes msg → IsBytes pad → length (msg ++ pad) % 16 ≡ 12 → KeysSeal
    keys_seal h k whole =
        let size : length whole_text ≡ 20 + length (msg ++ pad) =
          omega (arith, length-append (sha1 msg) (msg ++ pad), twenty msg) in
        seals o lawful (temp_key o sha1 second_bytes server_bytes)
          (temp_iv o sha1 second_bytes server_bytes) [] whole_text
          (length-temp_key second_bytes server_bytes)
          (length-temp_iv second_bytes server_bytes (length-be_bytes 32 second))
          (temp_iv-IsBytes second_bytes server_bytes (be_bytes-IsBytes 32 second))
          (All-append IsByte (sha1 msg) (msg ++ pad) (sha1-IsBytes msg)
            (All-append IsByte msg pad h k))
          (omega arith) (omega arith)

    encrypt_under_lem :
        (q : KeysSeal)
        → encrypt_under o sha1 whole_text (ok (second_bytes, server_bytes)) ≡ ok q.out
    unfolding encrypt_under ciphertext_of
    encrypt_under_lem q = rw q.sealing refl

    decrypt_under_lem :
        (q : KeysSeal)
        → decrypt_under o sha1 q.out (ok (second_bytes, server_bytes)) ≡ trim o sha1 (ok whole_text)
    unfolding decrypt_under cipher_error
    decrypt_under_lem q = rw q.opening refl

  -- What is encrypted for fitting nonces, and what comes of decrypting it.
  pub record Exchanged (msg : Bytes) (random_bytes : ℕ → Bytes) (second server : ℕ) : Type 0 where
    pub encrypted : Bytes
    pub sent :
        encrypt_message_with_temp_keys o sha1 random_bytes msg
          (some (pos second))
          (some (pos server))
        ≡ ok encrypted
    pub received :
        decrypt_message_with_temp_keys o sha1 encrypted (some (pos second)) (some (pos server))
        ≡ (if (20 + length msg) % 16 == 0 then err incompatible_hashes else ok msg)

  -- Over a hash of 20 bytes, a lawful block cipher and random bytes as many as asked for, for
  -- nonces of at most 32 and 16 bytes, and a message whose hash no copy of it has with 1 to 16 bytes
  -- more: every message is encrypted, and decrypts to itself, but when it makes whole blocks with
  -- its hash. Then sixteen bytes are added, one more than `DecryptMessageWithTempKeys` takes off, and
  -- it refuses the ciphertext.
  pub decrypt-encrypt_temp :
      (lawful : IsCrypto o) (msg : Bytes) (random_bytes : ℕ → Bytes) (second server : ℕ)
      → ((n : ℕ) → (length (random_bytes n) ≡ n) × IsBytes (random_bytes n))
      → IsBytes msg
      → IsAlone msg
      → NonceFits 32 second
      → NonceFits 16 server
      → Exchanged msg random_bytes second server
  unfolding encrypt_message_with_temp_keys decrypt_message_with_temp_keys need_to_add
  decrypt-encrypt_temp lawful msg random_bytes second server drawn h alone fits fits_too =
      let total = length (sha1 msg) + length msg in
      let pad = random_bytes (16 - total % 16) in
      let (lp, kp) = drawn (16 - total % 16) in
      let twenties = twenty msg in
      let q = keys_seal lawful msg pad second server h kp (omega (arith, length-append msg pad)) in
      let nonces = both_nonces-fit second server fits fits_too in
      record {
        encrypted = q.out;
        sent = rw nonces (encrypt_under_lem lawful msg pad second server q);
        received =
            ap (decrypt_under o sha1 q.out) nonces
            ∙ decrypt_under_lem lawful msg pad second server q
            ∙ trim_lem msg pad alone (omega arith)
            ∙ same_test msg pad (omega arith);
      }
