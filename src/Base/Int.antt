-- ===== src/Base/Int.antt =====
-- Signed integers: Go's `int` where the program uses a negative value.
use Prim.Native.Nat.{ℕ}
use mathlib.Core.Path.{◌≡◌}
use mathlib.Core.Bool.{Bool, true, false}
use native.Mathlib.Omega.{arith}
use tailscale_derp.Base.Tests.{◌==◌}

-- `negsuc n` is -(n + 1).
pub data ℤ : Type 0 where
  pos : ℕ → ℤ
  negsuc : ℕ → ℤ

infix 50 ◌==ℤ◌
unfoldable pub ◌==ℤ◌ : ℤ → ℤ → Bool
pos a ==ℤ pos b = a == b
negsuc a ==ℤ negsuc b = a == b
pos a ==ℤ negsuc b = false
negsuc a ==ℤ pos b = false

pub ==ℤ-eq : (a b : ℤ) → (a ==ℤ b) ≡ true → a ≡ b
unfolding ◌==ℤ◌
==ℤ-eq (pos a) (pos b) h = ground arith
==ℤ-eq (negsuc a) (negsuc b) h = ground arith
==ℤ-eq (pos a) (negsuc b) h = ground arith
==ℤ-eq (negsuc a) (pos b) h = ground arith

pub ==ℤ_refl : (a : ℤ) → (a ==ℤ a) ≡ true
unfolding ◌==ℤ◌
==ℤ_refl (pos a) = ground arith
==ℤ_refl (negsuc a) = ground arith
