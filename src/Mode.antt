-- ===== src/Mode.antt =====
-- internal/mode: the framings of the transport. This file is mode.go: the variants and `New`.
pub mod Frame
pub mod Abridged
pub mod Intermediate
pub mod Padded
pub mod Full
pub mod Start
mod Tests
use gogram.Common.{ℕ, ◌<◌, Bool, not, Option, none, some, length, [], ◌==◌, if◌then◌else◌}
use gogram.Common.Bytes.{Bytes}
use gogram.Common.Results.{Result, ok, err, Run}
use gogram.Io.{Conn}
use Frame.{ModeError, interface_is_nil, mode_not_supported, setup_failed, write_frame}

-- The connection itself is the state of the calls; `full` also keeps its two counters.
pub data Mode : Type 0 where
  abridged intermediate padded_intermediate : Mode
  full : ℕ → ℕ → Mode

-- `Abridged`, `Intermediate`, `PaddedIntermediate` and `Full` are 0 to 3.
unfoldable pub init_mode : ℕ → Result ModeError Mode
init_mode v =
    if v == 2
    then ok padded_intermediate
    else if v == 0
    then ok abridged
    else if v == 1
    then ok intermediate
    else if v == 3
    then ok (full 0 0)
    else err mode_not_supported

unfoldable pub get_mode_announcement : Mode → Bytes
get_mode_announcement abridged = Abridged.announcement
get_mode_announcement intermediate = Intermediate.announcement
get_mode_announcement padded_intermediate = Padded.announcement
get_mode_announcement (full _ _) = []

-- An error of the announcement, wrapped.
abbrev pub set_up :
    {S : Type 0} → Mode → S × Result ModeError (Unit {0}) → S × Result ModeError Mode
set_up m (s, ok _) = (s, ok m)
set_up m (s, err e) = (s, err (setup_failed e))

module _ {S : Type 0} (c : Conn S) where
  unfoldable pub announce : Mode → Run S ModeError Mode
  announce m s =
      if not (length (get_mode_announcement m) == 0)
      then set_up m (write_frame c (get_mode_announcement m) s)
      else (s, ok m)

  abbrev pub kept : S × Result ModeError Mode → Option S × Result ModeError Mode
  kept (s, r) = (some s, r)

  -- `none` is a nil connection.
  unfoldable pub new : ℕ → Option S → Option S × Result ModeError Mode
  new v none = (none, err interface_is_nil)
  new v (some s) = elim (init_mode v) [ ok m ↦ kept (announce m s) | err e ↦ (some s, err e) ]

  unfoldable pub new_without_announcement : ℕ → Option S → Option S × Result ModeError Mode
  new_without_announcement v none = (none, err interface_is_nil)
  new_without_announcement v (some s) = (some s, init_mode v)
