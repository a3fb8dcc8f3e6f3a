-- ===== src/Base/Int.antt =====
-- Python's `int` over the native numbers.
use Prim.Native.Nat.{ℕ, ◌≤◌}
use mathlib.Core.Path.{◌≡◌, refl}
use mathlib.Core.Bool.{Bool, true, false}
use native.Mathlib.Omega.{arith}
use storm_pulse.Base.Tests.{ltb}

-- `negsuc n` is -(n + 1).
pub data ℤ : Type 0 where
  pos : ℕ → ℤ
  negsuc : ℕ → ℤ

-- a < b, on Python's integers.
abbrev pub lt_int : ℤ → ℤ → Bool
lt_int (pos a) (pos b) = ltb a b
lt_int (pos a) (negsuc b) = false
lt_int (negsuc a) (pos b) = true
lt_int (negsuc a) (negsuc b) = ltb b a

infix 50 ◌≤ℤ◌
abbrev pub ◌≤ℤ◌ : ℤ → ℤ → Type 0
pos a ≤ℤ pos b = a ≤ b
pos a ≤ℤ negsuc b = ⊥
negsuc a ≤ℤ pos b = Unit {0}
negsuc a ≤ℤ negsuc b = b ≤ a

pub not-lt_int : (a b : ℤ) → lt_int a b ≡ false → b ≤ℤ a
not-lt_int (pos a) (pos b) h = ground arith
not-lt_int (pos a) (negsuc b) h = tt
not-lt_int (negsuc a) (pos b) h = ground arith
not-lt_int (negsuc a) (negsuc b) h = ground arith

pub le-not-lt_int : (a b : ℤ) → b ≤ℤ a → lt_int a b ≡ false
le-not-lt_int (pos a) (pos b) h = ground arith
le-not-lt_int (pos a) (negsuc b) h = refl
le-not-lt_int (negsuc a) (pos b) h = ground arith
le-not-lt_int (negsuc a) (negsuc b) h = ground arith
