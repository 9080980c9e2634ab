-- ===== src/Common/Int.antt =====
-- Signed integers, and the one that a two's complement word stands for.
use Prim.Native.Nat.{ℕ, ◌-◌, ◌^◌}
use gogram.Common.Tests.{ltb, if◌then◌else◌}

-- `negsuc n` is -(n + 1).
pub data ℤ : Type 0 where
  pos : ℕ → ℤ
  negsuc : ℕ → ℤ

-- `int32(w)` of a `uint32`.
abbrev pub signed32 : ℕ → ℤ
signed32 w = if ltb w (2 ^ 31) then pos w else negsuc (2 ^ 32 - w - 1)
