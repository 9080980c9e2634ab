-- ===== src/Mode/Start.antt =====
-- How a connection starts: `New` of internal/mode/mode.go.
use gogram.Common.{ℕ, zero, suc, ◌≤◌, ◌<◌, ◌≡◌, refl, sym, ◌++◌, append-nil, some, arith}
use gogram.Common.Bytes.{Bytes}
use gogram.Common.Results.{ok, err}
use gogram.Io.{Conn, IsStream}
use gogram.Mode.Frame.{mode_not_supported, write_frame_sends}
use gogram.Mode.{
  Mode, abridged, intermediate, padded_intermediate, full, init_mode, get_mode_announcement,
  announce, new,
}

init_mode_known : (v : ℕ) → v < 4 → (m : Mode) × (init_mode v ≡ ok m)
unfolding init_mode
init_mode_known zero h = (abridged, refl)
init_mode_known (suc zero) h = (intermediate, refl)
init_mode_known (suc (suc zero)) h = (padded_intermediate, refl)
init_mode_known (suc (suc (suc zero))) h = (full 0 0, refl)
init_mode_known (suc (suc (suc (suc v)))) h = absurd (omega arith)

module _ {S : Type 0} {c : Conn S} {sent pending : S → Bytes}
    (lawful : IsStream c sent pending) where
  announce_sends :
      (m : Mode) (s : S)
      → (s' : S) × (announce c m s ≡ (s', ok m)) × (sent s' ≡ sent s ++ get_mode_announcement m)
  unfolding announce get_mode_announcement
  announce_sends (full _ _) s = (s, refl, sym (append-nil (sent s)))
  announce_sends m s =
      let (s1, e1, p1, _) = write_frame_sends lawful (get_mode_announcement m) s in
      (s1, ground (arith, e1), p1)

  -- On a stream that takes every write, each of the variants 0 to 3 starts with its framing, the
  -- counters of `full` at 0, and the announcement of that framing is all that is sent.
  pub new_known :
      (v : ℕ) (s : S)
      → v < 4
      → (m : Mode) × (s' : S) × (init_mode v ≡ ok m)
        × (new c v (some s) ≡ (some s', ok m))
        × (sent s' ≡ sent s ++ get_mode_announcement m)
  unfolding new
  new_known v s h =
      let (m, known) = init_mode_known v h in
      let (s', e, p) = announce_sends m s in (m, s', known, ground (arith, known, e), p)

  -- Any other variant is refused, and nothing is sent.
  pub new_unknown : (v : ℕ) (s : S) → 4 ≤ v → new c v (some s) ≡ (some s, err mode_not_supported)
  unfolding new init_mode
  new_unknown v s h = ground arith
