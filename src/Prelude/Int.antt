-- ===== src/Prelude/Int.antt =====
-- Integers, for an amount that a subtraction may bring below zero.
use Prim.Native.Nat.{ℕ, ◌-◌}
use mathlib.Core.Bool.{Bool, true}
use shld.Prelude.Tests.{ltb, leb, if◌then◌else◌}

-- `negsuc n` is -(n + 1).
pub data ℤ : Type 0 where
  pos : ℕ → ℤ
  negsuc : ℕ → ℤ

-- a - b
abbrev pub sub_ℕ : ℕ → ℕ → ℤ
sub_ℕ a b = if leb b a then pos (a - b) else negsuc (b - a - 1)

-- `a < b`, against a natural number
abbrev pub lt_ℕ : ℤ → ℕ → Bool
lt_ℕ (pos a) b = ltb a b
lt_ℕ (negsuc a) b = true
