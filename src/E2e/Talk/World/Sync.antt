-- ===== src/E2e/Talk/World/Sync.antt =====
-- Both sides of a chat stay in step.
use gogram.Common.{
  ℕ, suc, ◌+◌, ◌-◌, ◌*◌, ◌^◌, ◌≤◌, ◌<◌, ◌≡◌, refl, sym, ap, ◌∙◌, List, [], ◌∷◌, ◌++◌, length, All,
  if◌then◌else◌, arith,
}
use mathlib.Core.Path.{subst}
use gogram.Common.Bytes.{Bytes}
use gogram.Common.Results.{ok}
use gogram.E2e.Chat.{
  SecretChat, Layer, ready, side, send, advance, accept_incoming_layer, next_out_seq_no,
}
use gogram.E2e.Talk.{
  InFlight, sent_numbers, accept_expected, side_bit, InFlight-le, InFlight-send, InFlight-seen,
}
use gogram.E2e.Chat.Advance.{Advanced, advance-Advanced}
use gogram.E2e.Talk.World.{
  World, Event, creator_sends, responder_sends, creator_receives, responder_receives, receive, step,
  run, Drawn, Fresh, Accepted,
}

-- One direction: what `a` sent and `b` did not receive yet.
record Half (n : ℕ) (a b : SecretChat) (ab : List Layer) : Type 0 where
  pub a_ready : a.state ≡ ready
  pub other : side b ≡ 1 - side a
  pub few : a.out_seq_no_counter ≤ n
  pub flight :
      InFlight (side a) b.in_seq_no_counter b.remote_ack a.out_seq_no_counter a.in_seq_no_counter ab

record Sync (n : ℕ) (a b : SecretChat) (ab ba : List Layer) : Type 0 where
  pub there : Half n a b ab
  pub back : Half n b a ba

swap : {n : ℕ} {a b : SecretChat} {ab ba : List Layer} → Sync n a b ab ba → Sync n b a ba ab
swap s = record { there = s.back; back = s.there }

module _ {n : ℕ} {a b : SecretChat} {ab ba : List Layer} where
  later : Sync n a b ab ba → Sync (suc n) a b ab ba
  later s = record {
    there = record {
      a_ready = s.there.a_ready;
      other = s.there.other;
      few = omega (arith, s.there.few);
      flight = s.there.flight;
    };
    back = record {
      a_ready = s.back.a_ready;
      other = s.back.other;
      few = omega (arith, s.back.few);
      flight = s.back.flight;
    };
  }

  send-Sync :
      (random : Bytes)
      → Sync n a b ab ba
      → n < 2 ^ 30 - 1
      → length random ≡ 15
      → Sync (suc n) (send a random).0 b (ab ++ ((send a random).1 ∷ [])) ba
  unfolding send next_out_seq_no
  send-Sync random s h r =
      let got =
        InFlight-le (side b) a.in_seq_no_counter a.remote_ack b.out_seq_no_counter
          b.in_seq_no_counter ba s.back.flight in
      let (out, inn, count) = sent_numbers a random (omega arith) (omega arith) in
      let m = (send a random).1 in
      let longer =
        InFlight-send (side a) b.in_seq_no_counter b.remote_ack a.out_seq_no_counter
          a.in_seq_no_counter ab m s.there.flight out inn refl (omega arith) in
      record {
        there = record {
          a_ready = s.there.a_ready;
          other = s.there.other;
          few = omega arith;
          flight =
              subst
                (λ t.
                  InFlight (side a) b.in_seq_no_counter b.remote_ack t a.in_seq_no_counter
                    (ab ++ (m ∷ [])))
                (sym count) longer;
        };
        back = record {
          a_ready = s.back.a_ready;
          other = s.back.other;
          few = omega arith;
          flight = s.back.flight;
        };
      }

module _ {n : ℕ} {a b : SecretChat} {m : Layer} {ms ba : List Layer} (s : Sync n a b (m ∷ ms) ba)
    (h : n < 2 ^ 30) where
  moved :
      (b' : SecretChat) (k : ℕ)
      → Advanced b b' k
      → b.in_seq_no_counter < 2 ^ 30
      → InFlight (side a) (suc b.in_seq_no_counter) k a.out_seq_no_counter a.in_seq_no_counter ms
      → Sync (suc n) a b' ms ba
  moved b' k p small rest =
      let counted : b'.in_seq_no_counter ≡ suc b.in_seq_no_counter = p.new_in ∙ omega arith in
      record {
        there = record {
          a_ready = s.there.a_ready;
          other = p.same_side ∙ s.there.other;
          few = omega (arith, s.there.few);
          flight = rw (counted, p.new_ack) rest;
        };
        back = record {
          a_ready = p.same_state ∙ s.back.a_ready;
          other = s.back.other ∙ ap (λ t. 1 - t) (sym p.same_side);
          few = omega (arith, s.back.few, p.same_out);
          flight =
              rw (p.same_side, p.same_out, counted)
                (InFlight-seen (side b) a.in_seq_no_counter a.remote_ack b.out_seq_no_counter
                  b.in_seq_no_counter (suc b.in_seq_no_counter) ba (omega arith) s.back.flight);
        };
      }

  -- The message in front is accepted, and both sides stay in step.
  expected :
      (k : ℕ) × (accept_incoming_layer b m ≡ (advance b m k, ok tt))
      × Sync (suc n) a (advance b m k) ms ba
  unfolding InFlight
  expected =
      let (k, out, inn, low, high, sent, num, rnd, rest) = s.there.flight in
      let got =
        InFlight-le (side b) a.in_seq_no_counter a.remote_ack b.out_seq_no_counter
          b.in_seq_no_counter ba s.back.flight in
      let turned = s.there.other in
      let bit = side_bit a in
      let out' : m.out_seq_no ≡ 2 * b.in_seq_no_counter + side b = omega arith in
      let inn' : m.in_seq_no ≡ 2 * k + (1 - side b) = omega arith in
      (
        k,
        accept_expected b m k s.back.a_ready (omega arith) (omega arith) out' inn' low (omega arith)
            num rnd,
        moved (advance b m k) k (advance-Advanced b m k) (omega arith) rest,
      )

received-Sync :
    (n : ℕ) (a b : SecretChat) (ab ba : List Layer)
    → Sync n a b ab ba
    → n < 2 ^ 30
    → Sync (suc n) a (receive b ab).0 (receive b ab).1 ba
unfolding receive
received-Sync n a b [] ba s h = later s
received-Sync n a b (m ∷ ms) ba s h =
    let (k, got, next) = expected s h in subst (λ r. Sync (suc n) a r.0 ms ba) (sym got) next

WorldSync : ℕ → World → Type 0
WorldSync n w = Sync n w.creator w.responder w.to_responder w.to_creator

step-Sync :
    (n : ℕ) (e : Event) (w : World)
    → WorldSync n w
    → n < 2 ^ 30 - 1
    → Drawn e
    → WorldSync (suc n) (step e w)
unfolding step WorldSync Drawn
step-Sync n (creator_sends random) w s h r = send-Sync random s h r
step-Sync n (responder_sends random) w s h r = swap (send-Sync random (swap s) h r)
step-Sync n creator_receives w s h r =
    swap (received-Sync n w.responder w.creator w.to_creator w.to_responder (swap s) (omega arith))
step-Sync n responder_receives w s h r =
    received-Sync n w.creator w.responder w.to_responder w.to_creator s (omega arith)

run-Sync :
    (n : ℕ) (es : List Event) (w : World)
    → WorldSync n w
    → n + length es < 2 ^ 30
    → All Drawn es
    → WorldSync (n + length es) (run es w)
unfolding run
run-Sync n [] w s h r = subst (λ k. WorldSync k w) (omega arith) s
run-Sync n (e ∷ es) w s h (r, rs) =
    subst (λ k. WorldSync k (run es (step e w))) (omega arith)
      (run-Sync (suc n) es (step e w) (step-Sync n e w s (omega arith) r) (omega arith) rs)

accepted :
    (n : ℕ) (a b : SecretChat) (ab ba : List Layer) → Sync n a b ab ba → n < 2 ^ 30 → Accepted b ab
unfolding Accepted
accepted n a b [] ba s h = tt
accepted n a b (m ∷ ms) ba s h = let (k, got, next) = expected s h in (advance b m k, got)

fresh-Half :
    (a b : SecretChat) (ab : List Layer)
    → a.state ≡ ready
    → side b ≡ 1 - side a
    → a.out_seq_no_counter ≡ 0
    → b.in_seq_no_counter ≡ 0
    → b.remote_ack ≡ 0
    → a.in_seq_no_counter ≡ 0
    → ab ≡ []
    → Half 0 a b ab
unfolding InFlight
fresh-Half a b ab r o sent got ack seen none_left = record {
  a_ready = r;
  other = o;
  few = omega arith;
  flight = rw none_left (omega arith, omega arith);
}

Fresh-Sync : (w : World) → Fresh w → WorldSync 0 w
unfolding WorldSync InFlight
Fresh-Sync w f =
    let (a, b, c, d, e, g) = f.nothing_sent in
    let creator_is : side w.creator ≡ 0 = ap (λ t. if t then 0 else 1) f.creator_side in
    let responder_is : side w.responder ≡ 1 = ap (λ t. if t then 0 else 1) f.responder_side in
    record {
      there =
          fresh-Half w.creator w.responder w.to_responder f.creator_ready (omega arith) a d g c
            f.nothing_underway.0;
      back =
          fresh-Half w.responder w.creator w.to_creator f.responder_ready (omega arith) b c e d
            f.nothing_underway.1;
    }

-- In a fresh chat, after any order of fewer than 2^30 sends (with 15 random bytes each) and
-- receipts in which each direction
-- delivers its messages in the order of the sends, however late, both sides accept the message
-- that they receive next.
pub run-Accepted :
    (w : World) (es : List Event)
    → Fresh w
    → All Drawn es
    → length es < 2 ^ 30
    → Accepted (run es w).responder (run es w).to_responder
      × Accepted (run es w).creator (run es w).to_creator
unfolding WorldSync
run-Accepted w es f d h =
    let s = run-Sync 0 es w (Fresh-Sync w f) (omega arith) d in
    (
      accepted (0 + length es) (run es w).creator (run es w).responder (run es w).to_responder
          (run es w).to_creator s (omega arith),
      accepted (0 + length es) (run es w).responder (run es w).creator (run es w).to_creator
          (run es w).to_responder (swap s) (omega arith),
    )
