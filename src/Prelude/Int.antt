-- ===== src/Prelude/Int.antt =====
-- The `int` values that the program counts up and down.
use Prim.Native.Nat.{ℕ, zero, suc}
use mathlib.Core.Bool.{Bool, true, false}

pub data ℤ : Type 0 where
  pos : ℕ → ℤ
  negsuc : ℕ → ℤ

-- `v + 1`
abbrev pub succ : ℤ → ℤ
succ (pos n) = pos (suc n)
succ (negsuc zero) = pos zero
succ (negsuc (suc n)) = negsuc n

-- `v - 1`
abbrev pub pred : ℤ → ℤ
pred (pos zero) = negsuc zero
pred (pos (suc n)) = pos n
pred (negsuc n) = negsuc (suc n)

-- `v < 0`
abbrev pub is_neg : ℤ → Bool
is_neg (pos n) = false
is_neg (negsuc n) = true
