-- ===== src/Prelude/Int.antt =====
-- Signed integers over the native numbers: `negsuc n` is -(n + 1).
use Prim.Native.Nat.{ℕ, ◌-◌}
use mathlib.Core.Bool.{true, false}
use loadify.Prelude.Tests.{leb}

pub data ℤ : Type 0 where
  pos : ℕ → ℤ
  negsuc : ℕ → ℤ

-- The difference of two natural numbers.
abbrev pub difference : ℕ → ℕ → ℤ
difference a b = elim (leb b a) [ true ↦ pos (a - b) | false ↦ negsuc (b - a - 1) ]
