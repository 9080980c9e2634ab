-- ===== src/Session/TcpState.antt =====
-- mtproto.go: TcpState, which lets callers wait until the connection is active. A channel is
-- whether it is closed; the channels that were replaced are kept, since waiters may hold them.
use gogram.Common.{
  ◌≡◌, refl, Bool, true, false, not, ◌&&◌, ◌||◌, Option, none, some, List, [], ◌∷◌, All,
  if◌then◌else◌, arith,
}

pub record TcpState : Type 0 where
  pub active : Bool
  pub closed : Bool
  pub ch : Bool
  pub replaced : List Bool

abbrev pub new_tcp_state : TcpState
new_tcp_state = record { active = false; closed = false; ch = false; replaced = [] }

-- `m.ch = make(chan struct{})`
abbrev make_chan : TcpState → TcpState
make_chan s = record s { ch = false; replaced = s.ch ∷ s.replaced }

-- `close(m.ch)`, which panics on a closed channel.
unfoldable pub close_chan : TcpState → Option TcpState
close_chan s = if s.ch then none else some (record s { ch = true })

unfoldable pub set_active : Bool → TcpState → Option TcpState
set_active true s =
    if s.active
    then some s
    else if s.closed
    then close_chan (record (make_chan s) { active = true; closed = false })
    else close_chan (record s { active = true })
set_active false s = if not s.active then some s else some (record (make_chan s) { active = false })

abbrev stopped : TcpState → TcpState
stopped s = record s { active = false; closed = true }

unfoldable pub close : TcpState → Option TcpState
close s =
    if not s.active && not s.closed
    then elim (close_chan s) [ none ↦ none | some s' ↦ some (stopped s') ]
    else some (stopped s)

pub data Answer : Type 0 where
  is_active disconnected waits : Answer

-- What one round of `WaitForActive` does: it returns, or it waits for the channel.
unfoldable pub wait_for_active : TcpState → Answer
wait_for_active s = if s.closed then disconnected else if s.active then is_active else waits

pub data Call : Type 0 where
  sets_active : Bool → Call
  closes : Call

unfoldable pub call : Call → TcpState → Option TcpState
call (sets_active active) s = set_active active s
call closes s = close s

unfoldable pub unless_panic : Option TcpState → (TcpState → Option TcpState) → Option TcpState
unless_panic none k = none
unless_panic (some s) k = k s

-- Calls one after the other; a panic ends them.
unfoldable pub calls : List Call → TcpState → Option TcpState
calls [] s = some s
calls (c ∷ cs) s = unless_panic (call c s) (calls cs)

-- The channel is closed exactly where nobody may wait for it, the state is not active and closed at
-- once, and each channel that was replaced is closed, so that no waiter is left behind.
pub record IsSound (s : TcpState) : Type 0 where
  pub released : s.ch ≡ (s.active || s.closed)
  pub exclusive : (s.active && s.closed) ≡ false
  pub none_left : All (λ c. c ≡ true) s.replaced

-- The call returned, and the state is sound.
pub Returns : Option TcpState → Type 0
Returns none = ⊥
Returns (some s) = IsSound s

-- The eight states, of which the invariant leaves three.
opens_again :
    (active closed ch : Bool) (old : List Bool)
    → ch ≡ (active || closed)
    → (active && closed) ≡ false
    → All (λ c. c ≡ true) old
    → Returns
        (set_active true (record { active = active; closed = closed; ch = ch; replaced = old }))
unfolding set_active close_chan Returns
opens_again true false true old e x r = record { released = refl; exclusive = refl; none_left = r }
opens_again false true true old e x r = record {
  released = refl;
  exclusive = refl;
  none_left = (refl, r);
}
opens_again false false false old e x r = record {
  released = refl;
  exclusive = refl;
  none_left = r;
}
opens_again true true ch old e x r = absurd (ground arith)
opens_again true false false old e x r = absurd (ground arith)
opens_again false true false old e x r = absurd (ground arith)
opens_again false false true old e x r = absurd (ground arith)

turns_off :
    (active closed ch : Bool) (old : List Bool)
    → ch ≡ (active || closed)
    → (active && closed) ≡ false
    → All (λ c. c ≡ true) old
    → Returns
        (set_active false (record { active = active; closed = closed; ch = ch; replaced = old }))
unfolding set_active Returns
turns_off false closed ch old e x r = record { released = e; exclusive = x; none_left = r }
turns_off true false ch old e x r = record { released = refl; exclusive = refl; none_left = (e, r) }
turns_off true true ch old e x r = absurd (ground arith)

shuts_down :
    (active closed ch : Bool) (old : List Bool)
    → ch ≡ (active || closed)
    → (active && closed) ≡ false
    → All (λ c. c ≡ true) old
    → Returns (close (record { active = active; closed = closed; ch = ch; replaced = old }))
unfolding close close_chan Returns
shuts_down true closed ch old e x r = record { released = e; exclusive = refl; none_left = r }
shuts_down false true ch old e x r = record { released = e; exclusive = refl; none_left = r }
shuts_down false false false old e x r = record { released = refl; exclusive = refl; none_left = r }
shuts_down false false true old e x r = absurd (ground arith)

call-Returns : (c : Call) (s : TcpState) → IsSound s → Returns (call c s)
unfolding call set_active close close_chan Returns
call-Returns (sets_active true) s p =
    opens_again s.active s.closed s.ch s.replaced p.released p.exclusive p.none_left
call-Returns (sets_active false) s p =
    turns_off s.active s.closed s.ch s.replaced p.released p.exclusive p.none_left
call-Returns closes s p =
    shuts_down s.active s.closed s.ch s.replaced p.released p.exclusive p.none_left

unfoldable pub is_waiting : Answer → Bool
is_waiting is_active = false
is_waiting disconnected = false
is_waiting waits = true

-- What callers see after some calls: nothing panicked, and the channel of a caller that has to wait
-- is open, where that of a caller that returns is closed.
pub record Reached (cs : List Call) (s : TcpState) : Type 0 where
  pub end : TcpState
  pub no_panic : calls cs s ≡ some end
  pub end-IsSound : IsSound end
  pub channel : end.ch ≡ not (is_waiting (wait_for_active end))

channel_lem :
    (active closed ch : Bool) (old : List Bool)
    → ch ≡ (active || closed)
    → ch
      ≡ not (
          is_waiting (
            wait_for_active (record { active = active; closed = closed; ch = ch; replaced = old })))
unfolding wait_for_active is_waiting
channel_lem true true ch old e = e
channel_lem true false ch old e = e
channel_lem false true ch old e = e
channel_lem false false ch old e = e

next_state : (o : Option TcpState) → Returns o → (s : TcpState) × (o ≡ some s) × IsSound s
unfolding Returns
next_state (some s) p = (s, refl, p)
next_state none p = absurd p

-- From a sound state, after any calls of `SetActive` and `close`: no channel was closed twice, each
-- channel that was replaced is closed, so that no waiter stays behind, and the present channel is
-- open exactly where `WaitForActive` waits for it.
pub calls_released : (cs : List Call) (s : TcpState) → IsSound s → Reached cs s
unfolding calls unless_panic
calls_released [] s p = record {
  end = s;
  no_panic = refl;
  end-IsSound = p;
  channel = channel_lem s.active s.closed s.ch s.replaced p.released;
}
calls_released (c ∷ cs) s p =
    let (s', made, q) = next_state (call c s) (call-Returns c s p) in
    let rest = calls_released cs s' q in
    record {
      end = rest.end;
      no_panic = rw made rest.no_panic;
      end-IsSound = rest.end-IsSound;
      channel = rest.channel;
    }
