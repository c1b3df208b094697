-- ===== src/Prelude/Bits.antt =====
-- Shifts, masks and `|` on machine words, as arithmetic.
mod Step
use Step.{bit_or_step, bit_and_step}
use Prim.Native.Nat.{
  ℕ, zero, suc, ◌+◌, ◌-◌, ◌*◌, ◌/◌, ◌%◌, ◌^◌, ◌≤◌, ◌<◌, bit_and, bit_or, bit_or-bitwise, min,
}
use mathlib.Core.Path.{◌≡◌, refl, ap}
use native.Mathlib.Nat.{pow-suc, one-le-pow}
use native.Mathlib.Omega.{arith}

abbrev pub u8 : ℕ → ℕ
u8 n = n % 2 ^ 8

abbrev pub u16 : ℕ → ℕ
u16 n = n % 2 ^ 16

abbrev pub u32 : ℕ → ℕ
u32 n = n % 2 ^ 32

-- `x << k` before the cast to its width, and `x >> k`.
infixl 75 ◌<<<◌ ◌>>>◌
abbrev pub ◌<<<◌ : ℕ → ℕ → ℕ
x <<< k = x * 2 ^ k

abbrev pub ◌>>>◌ : ℕ → ℕ → ℕ
x >>> k = x / 2 ^ k

-- `a - b` on `unsigned int`.
abbrev pub sub32 : ℕ → ℕ → ℕ
sub32 a b = (a + 2 ^ 32 - b) % 2 ^ 32

-- `|` and `&` with no bits at all, by the digits of the other number.
no_bits : (left x : ℕ) → x ≤ left → (bit_or x 0 ≡ x) × (bit_and x 0 ≡ 0)
no_bits left zero bound = (refl, refl)
no_bits zero (suc x) bound = absurd (omega arith)
no_bits (suc left) (suc x) bound =
    let (joined, met) = no_bits left (suc x / 2) (omega arith) in
    (omega (arith, bit_or_step (suc x) 0, joined), omega (arith, bit_and_step (suc x) 0, met))

pub bit_or-zero : (x : ℕ) → bit_or x 0 ≡ x
bit_or-zero x = (no_bits x x (omega arith)).0

zero-bit_or : (y : ℕ) → bit_or 0 y ≡ y
zero-bit_or y = bit_or-bitwise 0 y

pub bit_and-zero : (x : ℕ) → bit_and x 0 ≡ 0
bit_and-zero x = (no_bits x x (omega arith)).1

double_pow : (q k : ℕ) → q * 2 ^ suc k ≡ 2 * (q * 2 ^ k)
double_pow q k = omega (arith, ap (λ (t : ℕ). q * t) (pow-suc 2 k))

-- Fields that do not overlap are joined by a sum.
pub bit_or_sum : (k q r : ℕ) → r < 2 ^ k → bit_or (q * 2 ^ k) r ≡ q * 2 ^ k + r
bit_or_sum zero q r fits = ground (arith, bit_or-zero q)
bit_or_sum (suc k) q r fits = ground (
  arith,
  bit_or_step (q * 2 ^ suc k) r,
  double_pow q k,
  bit_or_sum k q (r / 2) (omega (arith, pow-suc 2 k)),
)

-- `&` works on the fields above and below bit `k` apart.
pub bit_and_split :
    (k a b c d : ℕ)
    → b < 2 ^ k
    → d < 2 ^ k
    → bit_and (a * 2 ^ k + b) (c * 2 ^ k + d) ≡ bit_and a c * 2 ^ k + bit_and b d
bit_and_split zero a b c d hb hd =
    let eb : b ≡ 0 = omega arith in let ed : d ≡ 0 = omega arith in ground (arith, bit_and-zero 0)
bit_and_split (suc k) a b c d hb hd = ground (
  arith,
  bit_and_step (a * 2 ^ suc k + b) (c * 2 ^ suc k + d),
  bit_and_step b d,
  double_pow a k,
  double_pow c k,
  double_pow (bit_and a c) k,
  bit_and_split k a (b / 2) c (d / 2) (omega (arith, pow-suc 2 k)) (omega (arith, pow-suc 2 k)),
)

bit_and_mask_fields : (k q r : ℕ) → r < 2 ^ k → bit_and (q * 2 ^ k + r) (2 ^ k - 1) ≡ r
bit_and_mask_fields zero q r fits = rw bit_and-zero (omega arith)
bit_and_mask_fields (suc k) q r fits = ground (
  arith,
  bit_and_step (q * 2 ^ suc k + r) (2 ^ suc k - 1),
  double_pow q k,
  pow-suc 2 k,
  bit_and_mask_fields k q (r / 2) (omega (arith, pow-suc 2 k)),
)

-- A mask of `k` low bits is the remainder by `2 ^ k`.
pub bit_and_low : (k a : ℕ) → bit_and a (2 ^ k - 1) ≡ a % 2 ^ k
bit_and_low k a = ground (arith, one-le-pow k 2, bit_and_mask_fields k (a / 2 ^ k) (a % 2 ^ k))

-- Bits that were clear are clear again after they have been set and masked off.
pub bit_clear :
    (k a m : ℕ) → a < 2 ^ k → m < 2 ^ k → bit_and a m ≡ 0 → bit_and (bit_or a m) (2 ^ k - 1 - m) ≡ a
bit_clear zero a m ha hm free =
    let ea : a ≡ 0 = omega arith in let em : m ≡ 0 = omega arith in rw (ea, em)
bit_clear (suc k) a m ha hm free =
    let pw = pow-suc 2 k in
    let low : min (a % 2) (m % 2) ≡ 0 = omega (arith, bit_and_step a m) in
    let high : bit_and (a / 2) (m / 2) ≡ 0 = omega (arith, bit_and_step a m) in
    let either : bit_or a m / 2 ≡ bit_or (a / 2) (m / 2) = omega (arith, bit_or_step a m) in
    let rest : (2 ^ suc k - 1 - m) / 2 ≡ 2 ^ k - 1 - m / 2 = omega arith in
    let ih : bit_and (bit_or a m / 2) ((2 ^ suc k - 1 - m) / 2) ≡ a / 2 =
      rw (either, rest) (bit_clear k (a / 2) (m / 2) (omega arith) (omega arith) high) in
    omega (arith, ih, low, bit_or_step a m, bit_and_step (bit_or a m) (2 ^ suc k - 1 - m))

bit_or_comm_fuel : (n a b : ℕ) → a ≤ n → b ≤ n → bit_or a b ≡ bit_or b a
bit_or_comm_fuel n zero b ha hb = omega (arith, zero-bit_or b, bit_or-zero b)
bit_or_comm_fuel zero (suc a) b ha hb = absurd (omega arith)
bit_or_comm_fuel (suc n) (suc a) b ha hb = omega (
  arith,
  bit_or_step (suc a) b,
  bit_or_step b (suc a),
  bit_or_comm_fuel n (suc a / 2) (b / 2) (omega arith) (omega arith),
)

pub bit_or_comm : (a b : ℕ) → bit_or a b ≡ bit_or b a
bit_or_comm a b = bit_or_comm_fuel (a + b) a b (omega arith) (omega arith)

-- `|` works on the fields above and below bit `k` apart.
pub bit_or_split :
    (k a b c d : ℕ)
    → b < 2 ^ k
    → d < 2 ^ k
    → bit_or (a * 2 ^ k + b) (c * 2 ^ k + d) ≡ bit_or a c * 2 ^ k + bit_or b d
bit_or_split zero a b c d hb hd =
    let eb : b ≡ 0 = omega arith in let ed : d ≡ 0 = omega arith in ground (arith, bit_or-zero 0)
bit_or_split (suc k) a b c d hb hd = ground (
  arith,
  bit_or_step (a * 2 ^ suc k + b) (c * 2 ^ suc k + d),
  bit_or_step b d,
  double_pow a k,
  double_pow c k,
  double_pow (bit_or a c) k,
  bit_or_split k a (b / 2) c (d / 2) (omega (arith, pow-suc 2 k)) (omega (arith, pow-suc 2 k)),
)

-- The high bits alone.
pub bit_and_high : (k n a : ℕ) → bit_and a ((2 ^ n - 1) * 2 ^ k) ≡ a / 2 ^ k % 2 ^ n * 2 ^ k
bit_and_high k n a = ground (
  arith,
  one-le-pow k 2,
  bit_and_split k (a / 2 ^ k) (a % 2 ^ k) (2 ^ n - 1) 0,
  bit_and_low n (a / 2 ^ k),
  bit_and-zero (a % 2 ^ k),
)
