-- ===== src/Prelude/Bits/Step.antt =====
-- The lowest digit of `bit_and` and `bit_or`, from the recursion that they stand for.
use Prim.Native.Nat.{
  ℕ, zero, suc, ◌+◌, ◌-◌, ◌*◌, ◌/◌, ◌%◌, ◌≤◌, min, max, bit_and, bit_or, digits, bitwise,
  bit_and-bitwise, bit_or-bitwise,
}
use mathlib.Core.Path.{◌≡◌, refl}
use native.Mathlib.Omega.{arith}

module _ (right : ℕ → ℕ) (join : ℕ → ℕ → ℕ) where
  -- Once the left number is used up, the fuel does not matter.
  digits-zero : (fuel y : ℕ) → digits right join fuel zero y ≡ right y
  digits-zero zero y = refl
  digits-zero (suc fuel) y = refl

  -- Fuel that is left over changes nothing.
  spare_fuel :
      (fuel more x y : ℕ)
      → x ≤ fuel
      → digits right join (fuel + more) x y ≡ digits right join fuel x y
  spare_fuel fuel more zero y enough = rw (digits-zero (fuel + more) y, digits-zero fuel y)
  spare_fuel zero more (suc x) y enough = absurd (omega arith)
  spare_fuel (suc fuel) more (suc x) y enough =
      let one_more : suc fuel + more ≡ suc (fuel + more) = omega arith in
      let rest = spare_fuel fuel more (suc x / 2) (y / 2) (omega arith) in
      rw one_more (omega (arith, rest))

  pub lowest_digit :
      ((y : ℕ) → right y ≡ right (y / 2) * 2 + join 0 (y % 2))
      → (x y : ℕ)
      → bitwise right join x y ≡ bitwise right join (x / 2) (y / 2) * 2 + join (x % 2) (y % 2)
  lowest_digit used_up zero y = used_up y
  lowest_digit used_up (suc x) y =
      let half = suc x / 2 in
      let split : half + (x - half) ≡ x = omega arith in
      let rest = spare_fuel half (x - half) half (y / 2) (omega arith) in
      omega (arith, rw split at rest)

pub bit_or_step : (x y : ℕ) → bit_or x y ≡ bit_or (x / 2) (y / 2) * 2 + max (x % 2) (y % 2)
bit_or_step x y = simp bit_or-bitwise (lowest_digit (λ r. r) max (λ r. omega arith) x y)

pub bit_and_step : (x y : ℕ) → bit_and x y ≡ bit_and (x / 2) (y / 2) * 2 + min (x % 2) (y % 2)
bit_and_step x y = simp bit_and-bitwise (lowest_digit (λ r. 0) min (λ r. omega arith) x y)
