-- ===== src/E2e/Chat/Advance.antt =====
-- What the receipt of a message changes.
use gogram.Common.{ℕ, ◌+◌, ◌%◌, ◌≡◌, refl, Bool, true, false, if◌then◌else◌}
use gogram.E2e.Chat.{SecretChat, Layer, word, side, lt_int32, advance}

-- What a receipt changes of the counters.
pub record Advanced (b b' : SecretChat) (k : ℕ) : Type 0 where
  pub same_state : b'.state ≡ b.state
  pub same_side : side b' ≡ side b
  pub same_out : b'.out_seq_no_counter ≡ b.out_seq_no_counter
  pub new_ack : b'.remote_ack ≡ k
  pub new_in : b'.in_seq_no_counter ≡ (b.in_seq_no_counter + 1) % word

with_layer :
    (newer : Bool) (b b' : SecretChat) (l k : ℕ)
    → Advanced b b' k
    → Advanced b (if newer then record b' { layer = l } else b') k
with_layer true b b' l k p = record {
  same_state = p.same_state;
  same_side = p.same_side;
  same_out = p.same_out;
  new_ack = p.new_ack;
  new_in = p.new_in;
}
with_layer false b b' l k p = p

pub advance-Advanced : (b : SecretChat) (m : Layer) (k : ℕ) → Advanced b (advance b m k) k
unfolding advance
advance-Advanced b m k =
    with_layer (lt_int32 b.layer m.number) b
      (record b {
        in_seq_no_counter = (b.in_seq_no_counter + 1) % word;
        remote_ack = k;
        message_count = (b.message_count + 1) % word;
      })
      m.number k
      record { same_state = refl; same_side = refl; same_out = refl; new_ack = refl; new_in = refl }
