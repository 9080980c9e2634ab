-- ===== src/E2e/Chat.antt =====
-- telegram/e2e/secret_chat.go: the counters of one side of a secret chat. An `int32` is its word of
-- 32 bits, in two's complement, and a time its nanoseconds. The locks are left out, and a layer is
-- never nil.
pub mod Advance
pub mod Once
pub mod Content
use gogram.Common.{
  ℕ, ◌+◌, ◌-◌, ◌*◌, ◌/◌, ◌%◌, ◌^◌, ◌≤◌, ◌<◌, ◌≡◌, Bool, true, false, not, ◌&&◌, ◌||◌, length, ltb,
  leb, ◌==◌, if◌then◌else◌,
}
use gogram.Common.Bytes.{Bytes}
use gogram.Common.Results.{Result, ok, err}

abbrev pub word : ℕ
word = 2 ^ 32

-- `a < 0` and `a < b` of `int32`.
unfoldable pub is_neg : ℕ → Bool
is_neg a = not (ltb a (2 ^ 31))

unfoldable pub lt_int32 : ℕ → ℕ → Bool
lt_int32 a b = ltb ((a + 2 ^ 31) % word) ((b + 2 ^ 31) % word)

-- `int64(a) == 2*int64(b) + int64(c)` where `a` is not negative and `c` is 0 or 1
unfoldable pub is_twice : ℕ → ℕ → ℕ → Bool
is_twice a b c = if is_neg b then false else (a == 2 * b + c)

abbrev pub current_layer : ℕ
current_layer = 73

abbrev pub min_layer : ℕ
min_layer = 46

pub data State : Type 0 where
  requested ready discarded : State

unfoldable pub is_ready : State → Bool
is_ready ready = true
is_ready requested = false
is_ready discarded = false

pub data ChatError : Type 0 where
  invalid_layer invalid_parity invalid_acknowledgment out_of_order not_ready : ChatError

pub record SecretChat : Type 0 where
  pub layer : ℕ
  pub in_seq_no_counter : ℕ
  pub out_seq_no_counter : ℕ
  pub is_originator : Bool
  pub state : State
  pub message_count : ℕ
  pub shared_key : Bytes
  pub key_created_at : ℕ
  pub last_message_time : ℕ
  pub pending_rekey : Bool
  pub remote_ack : ℕ

-- `DecryptedMessageLayer`, without its message.
pub record Layer : Type 0 where
  pub random_bytes : Bytes
  pub number : ℕ
  pub in_seq_no : ℕ
  pub out_seq_no : ℕ

-- The `x` of both formulas.
abbrev pub side : SecretChat → ℕ
side chat = if chat.is_originator then 0 else 1

unfoldable pub next_out_seq_no : SecretChat → SecretChat × ℕ
next_out_seq_no chat =
    let counter = (chat.out_seq_no_counter + 1) % word in
    (
      record chat { out_seq_no_counter = counter },
      (counter * 2 + (word - 1) + (word - side chat)) % word,
    )

unfoldable pub current_in_seq_no : SecretChat → ℕ
current_in_seq_no chat = (2 * chat.in_seq_no_counter + side chat) % word

abbrev pub record_incoming_seq_no : SecretChat → SecretChat
record_incoming_seq_no chat = record chat {
  in_seq_no_counter = (chat.in_seq_no_counter + 1) % word;
}

abbrev pub update_layer : SecretChat → ℕ → SecretChat
update_layer chat layer = if lt_int32 chat.layer layer then record chat { layer = layer } else chat

-- What a send puts in front of its message: both numbers, in the order of the calls.
unfoldable pub send : SecretChat → Bytes → SecretChat × Layer
send chat random =
    let in_seq_no = current_in_seq_no chat in
    let (chat', out_seq_no) = next_out_seq_no chat in
    (
      chat',
      record {
        random_bytes = random;
        number = current_layer;
        in_seq_no = in_seq_no;
        out_seq_no = out_seq_no;
      },
    )

-- What is kept of an accepted message. The time of the last message, which nothing here reads, is
-- not set.
unfoldable pub advance : SecretChat → Layer → ℕ → SecretChat
advance chat m ack =
    update_layer
      (record chat {
        in_seq_no_counter = (chat.in_seq_no_counter + 1) % word;
        remote_ack = ack;
        message_count = (chat.message_count + 1) % word;
      })
      m.number

unfoldable pub accept_ack : SecretChat → Layer → ℕ → ℕ → SecretChat × Result ChatError (Unit {0})
accept_ack chat m out_parity ack =
    if lt_int32 ack chat.remote_ack || lt_int32 chat.out_seq_no_counter ack
    then (chat, err invalid_acknowledgment)
    else if not (is_twice m.out_seq_no chat.in_seq_no_counter out_parity)
    then (chat, err out_of_order)
    else (advance chat m ack, ok tt)

unfoldable pub accept_numbers :
    SecretChat → Layer → ℕ → ℕ → SecretChat × Result ChatError (Unit {0})
accept_numbers chat m out_parity ack_parity =
    if ((is_neg m.out_seq_no || is_neg m.in_seq_no) || not (m.out_seq_no % 2 == out_parity))
      || not (m.in_seq_no % 2 == ack_parity)
    then (chat, err invalid_parity)
    else accept_ack chat m out_parity ((m.in_seq_no - ack_parity) / 2)

unfoldable pub accept_incoming_layer : SecretChat → Layer → SecretChat × Result ChatError (Unit {0})
accept_incoming_layer chat m =
    if (not (is_ready chat.state) || lt_int32 m.number min_layer) || ltb (length m.random_bytes) 15
    then (chat, err invalid_layer)
    else accept_numbers chat m (if chat.is_originator then 0 else 1)
        (if chat.is_originator then 1 else 0)
