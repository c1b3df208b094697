-- ===== src/Prelude/Table.antt =====
-- Checks of every value below a bound, by evaluation.
use Prim.Native.Nat.{ℕ, zero, suc, ◌<◌}
use mathlib.Core.Path.{◌≡◌}
use mathlib.Core.Bool.{Bool, true, ◌&&◌}
use native.Mathlib.Omega.{arith}

unfoldable pub all_below : (bound : ℕ) → (ℕ → Bool) → Bool
all_below zero test = true
all_below (suc bound) test = all_below bound test && test bound

module _ (test : ℕ → Bool) where
  passes : (bound x : ℕ) → x < bound → all_below bound test ≡ true → test x ≡ true
  unfolding all_below
  passes zero x small passed = absurd (omega arith)
  passes (suc bound) x small passed = ground (arith, passes bound x)

pub all_below_sound :
    (bound : ℕ) (test : ℕ → Bool) (x : ℕ) → all_below bound test ≡ true → x < bound → test x ≡ true
all_below_sound bound test x passed small = passes test bound x small passed

-- The same for pairs.
pub all_pairs_sound :
    (n m : ℕ) (p : ℕ → ℕ → Bool) (x y : ℕ)
    → all_below n (λ a. all_below m (p a)) ≡ true
    → x < n
    → y < m
    → p x y ≡ true
all_pairs_sound n m p x y h hx hy =
    all_below_sound m (p x) y (all_below_sound n (λ a. all_below m (p a)) x h hx) hy
