-- ===== src/E2e/Chat/Content.antt =====
-- telegram/e2e/secret_chat.go: the encryption of the messages of a chat, and when a new key is due.
-- The clock is read twice by a send: both readings are arguments.
use gogram.Common.{
  ℕ, ◌+◌, ◌-◌, ◌*◌, ◌%◌, ◌^◌, ◌≡◌, ◌<◌, refl, ap, ◌∙◌, Bool, true, not, ◌&&◌, ◌||◌, inl, inr,
  Bool-cases, length, ltb, if◌then◌else◌,
}
use gogram.Common.Bytes.{Bytes, IsBytes}
use gogram.Common.Results.{Result, ok, err}
use gogram.Aes.Message.{Crypto, IsCrypto}
use gogram.Aes.Secret.{SecretError, encrypt_message_mt_proto, decrypt_message_mt_proto}
use gogram.Aes.Secret.RoundTrip.{decrypt-encrypt_secret}
use gogram.E2e.Chat.{SecretChat, State, ready, is_ready, is_neg, word}

pub data ContentError : Type 0 where
  not_in_use : ContentError
  encryption : SecretError → ContentError

-- `7*24*time.Hour`
abbrev pub key_lifetime : ℕ
key_lifetime = 7 * 24 * 3600 * 1000000000

-- `ShouldRekey`, at the time `now`.
unfoldable pub should_rekey : SecretChat → ℕ → Bool
should_rekey chat now =
    let positive = not (is_neg chat.message_count) in
    not chat.pending_rekey
    && ((positive && not (ltb chat.message_count 100))
        || ((positive && ltb 0 chat.message_count) && ltb key_lifetime (now - chat.key_created_at)))

abbrev pub marked : SecretChat → ℕ → SecretChat
marked chat now = if should_rekey chat now then record chat { pending_rekey = true } else chat

unfoldable pub after_encryption :
    SecretChat
    → ℕ
    → Result SecretError (Bytes × Bytes)
    → SecretChat × Result ContentError (Bytes × Bytes)
after_encryption chat now (err e) = (chat, err (encryption e))
after_encryption chat now (ok (msg_key, encrypted)) = (
  record chat { message_count = (chat.message_count + 1) % word; last_message_time = now },
  ok (msg_key, encrypted),
)

unfoldable pub wrap_decrypted : Result SecretError Bytes → Result ContentError Bytes
wrap_decrypted (ok plaintext) = ok plaintext
wrap_decrypted (err e) = err (encryption e)

module _ (o : Crypto) where
  unfoldable pub encrypt_message :
      SecretChat → ℕ → ℕ → Bytes → SecretChat × Result ContentError (Bytes × Bytes)
  encrypt_message chat now later plaintext =
      let chat' = marked chat now in
      if not (is_ready chat.state)
      then (chat, err not_in_use)
      else after_encryption chat' later
          (encrypt_message_mt_proto o chat'.shared_key plaintext chat'.is_originator)

  unfoldable pub decrypt_message : SecretChat → Bytes → Bytes → Result ContentError Bytes
  decrypt_message chat msg_key encrypted =
      if not (is_ready chat.state)
      then err not_in_use
      else wrap_decrypted
          (decrypt_message_mt_proto o chat.shared_key msg_key encrypted (not chat.is_originator))

-- Both sides hold the same key.
pub record Paired (sender receiver : SecretChat) : Type 0 where
  pub sender_ready : sender.state ≡ ready
  pub receiver_ready : receiver.state ≡ ready
  pub same_key : receiver.shared_key ≡ sender.shared_key
  pub key_size : length sender.shared_key ≡ 256
  pub other_side : not receiver.is_originator ≡ sender.is_originator

pub record Conveyed (o : Crypto) (sender receiver : SecretChat) (now later : ℕ) (plaintext : Bytes)
    : Type 0 where
  pub msg_key : Bytes
  pub encrypted : Bytes
  pub sent : encrypt_message o sender now later plaintext ≡ (
    record (marked sender now) {
      message_count = (sender.message_count + 1) % word;
      last_message_time = later;
    },
    ok (msg_key, encrypted),
  )
  pub received : decrypt_message o receiver msg_key encrypted ≡ ok plaintext

marked_side : (chat : SecretChat) (now : ℕ) → (marked chat now).is_originator ≡ chat.is_originator
marked_side chat now = elim (Bool-cases (should_rekey chat now)) [
  | inl due ↦ rw due refl
  | inr early ↦ rw early refl
]

marked_key : (chat : SecretChat) (now : ℕ) → (marked chat now).shared_key ≡ chat.shared_key
marked_key chat now = elim (Bool-cases (should_rekey chat now)) [
  | inl due ↦ rw due refl
  | inr early ↦ rw early refl
]

marked_count : (chat : SecretChat) (now : ℕ) → (marked chat now).message_count ≡ chat.message_count
marked_count chat now = elim (Bool-cases (should_rekey chat now)) [
  | inl due ↦ rw due refl
  | inr early ↦ rw early refl
]

ready_lem : (s : State) → s ≡ ready → is_ready s ≡ true
unfolding is_ready
ready_lem s h = rw h refl

encrypted_lem :
    (chat : SecretChat) (later : ℕ) (r : Result SecretError (Bytes × Bytes))
    (msg_key encrypted : Bytes)
    → r ≡ ok (msg_key, encrypted)
    → after_encryption chat later r ≡ (
      record chat { message_count = (chat.message_count + 1) % word; last_message_time = later },
      ok (msg_key, encrypted),
    )
unfolding after_encryption
encrypted_lem chat later r msg_key encrypted h = rw h refl

sent_lem :
    (o : Crypto) (sender : SecretChat) (now later : ℕ) (plaintext msg_key encrypted : Bytes)
    → sender.state ≡ ready
    → encrypt_message_mt_proto o sender.shared_key plaintext sender.is_originator
      ≡ ok (msg_key, encrypted)
    → encrypt_message o sender now later plaintext ≡ (
      record (marked sender now) {
        message_count = (sender.message_count + 1) % word;
        last_message_time = later;
      },
      ok (msg_key, encrypted),
    )
unfolding encrypt_message
sent_lem o sender now later plaintext msg_key encrypted in_use h =
    let same : encrypt_message_mt_proto o (marked sender now).shared_key plaintext
          (marked sender now).is_originator
        ≡ ok (msg_key, encrypted) =
      rw (marked_key sender now, marked_side sender now) h in
    rw (ready_lem sender.state in_use) (
      encrypted_lem (marked sender now) later
        (encrypt_message_mt_proto o (marked sender now).shared_key plaintext
          (marked sender now).is_originator)
        msg_key encrypted same
      ∙ ap
          (λ (n : ℕ).
            (let c : SecretChat × Result ContentError (Bytes × Bytes) = (
              record (marked sender now) {
                message_count = (n + 1) % word;
                last_message_time = later;
              },
              ok (msg_key, encrypted),
            ) in
              c))
          (marked_count sender now))

received_lem :
    (o : Crypto) (receiver : SecretChat) (msg_key encrypted plaintext : Bytes)
    → receiver.state ≡ ready
    → decrypt_message_mt_proto o receiver.shared_key msg_key encrypted (not receiver.is_originator)
      ≡ ok plaintext
    → decrypt_message o receiver msg_key encrypted ≡ ok plaintext
unfolding decrypt_message wrap_decrypted
received_lem o receiver msg_key encrypted plaintext in_use h =
    rw (ready_lem receiver.state in_use, h) refl

-- Over lawful cryptography, between two chats in use, of opposite sides and with the same key of 256 bytes: every text below
-- 2^32 bytes is encrypted, whenever it is sent, and the other chat decrypts it. The sender counts
-- the message, keeps the time, and marks that a new key is due where `ShouldRekey` says so.
pub decrypt-encrypt_content :
    (o : Crypto) (lawful : IsCrypto o) (sender receiver : SecretChat) (now later : ℕ)
    (plaintext : Bytes)
    → Paired sender receiver
    → IsBytes plaintext
    → length plaintext < 2 ^ 32
    → Conveyed o sender receiver now later plaintext
decrypt-encrypt_content o lawful sender receiver now later plaintext pair h small =
    let q =
      decrypt-encrypt_secret o lawful sender.shared_key plaintext sender.is_originator h
        pair.key_size small in
    record {
      msg_key = q.msg_key;
      encrypted = q.encrypted;
      sent = sent_lem o sender now later plaintext q.msg_key q.encrypted pair.sender_ready q.sent;
      received =
          received_lem o receiver q.msg_key q.encrypted plaintext pair.receiver_ready
            (rw (pair.same_key, pair.other_side) q.received);
    }
