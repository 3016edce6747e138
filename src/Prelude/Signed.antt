-- ===== src/Prelude/Signed.antt =====
-- Signed integers over the native numbers, and the C conversions to `int`.
use Prim.Native.Nat.{ℕ, suc, ◌+◌, ◌-◌, ◌%◌, ◌^◌}
use mathlib.Core.Bool.{Bool, true, false}
use xibridge.Prelude.Tests.{ltb, if◌then◌else◌}

-- `negsuc n` is -(n + 1).
pub data ℤ : Type 0 where
  pos : ℕ → ℤ
  negsuc : ℕ → ℤ

-- n + z
abbrev pub move : ℕ → ℤ → ℤ
move n (pos k) = pos (n + k)
move n (negsuc k) = if ltb k n then pos (n - suc k) else negsuc (k - n)

-- The `int` whose bit pattern is `w`, for w below 2 ^ 32.
abbrev pub of_pattern : ℕ → ℤ
of_pattern w = if ltb w (2 ^ 31) then pos w else negsuc (2 ^ 32 - 1 - w)

-- (int)n of an unsigned n, of whatever width.
abbrev pub to_int : ℕ → ℤ
to_int n = of_pattern (n % 2 ^ 32)

abbrev pub ltb_ℤ : ℤ → ℤ → Bool
ltb_ℤ (pos a) (pos b) = ltb a b
ltb_ℤ (pos a) (negsuc b) = false
ltb_ℤ (negsuc a) (pos b) = true
ltb_ℤ (negsuc a) (negsuc b) = ltb b a
