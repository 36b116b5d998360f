-- ===== src/Prelude/Integers.antt =====
-- Go's `int` where a program tests for negative numbers: `negsuc n` is -(n + 1).
use Prim.Native.Nat.{ℕ, ◌≤◌}
use mathlib.Core.Path.{◌≡◌, refl}
use mathlib.Core.Bool.{Bool, true, false, ◌||◌}
use native.Mathlib.Omega.{arith}
use supabase_installer.Prelude.Tests.{ltb, ◌==◌}

pub data ℤ : Type 0 where
  pos : ℕ → ℤ
  negsuc : ℕ → ℤ

-- v < k
abbrev pub below : ℕ → ℤ → Bool
below k (pos n) = ltb n k
below k (negsuc n) = true

-- v > k
abbrev pub above : ℕ → ℤ → Bool
above k (pos n) = ltb k n
above k (negsuc n) = false

-- v == 0
abbrev pub is_zero : ℤ → Bool
is_zero (pos n) = n == 0
is_zero (negsuc n) = false

-- v < lo || v > hi
abbrev pub outside : ℕ → ℕ → ℤ → Bool
outside lo hi v = below lo v || above hi v

abbrev pub Between : ℕ → ℕ → ℤ → Type 0
Between lo hi v = (n : ℕ) × (v ≡ pos n) × (lo ≤ n) × (n ≤ hi)

pub Between-outside : (lo hi : ℕ) (v : ℤ) → outside lo hi v ≡ false → Between lo hi v
Between-outside lo hi (pos n) h = (n, refl, ground arith, ground arith)
Between-outside lo hi (negsuc n) h = cc
