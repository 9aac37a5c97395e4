-- ===== src/Prelude/Bits.antt =====
-- `x & y` at variables: its digit recursion, and the test for a power of two.
use Prim.Native.Nat.{
  ℕ, zero, suc, ◌+◌, ◌-◌, ◌*◌, ◌/◌, ◌%◌, ◌^◌, ◌≤◌, ◌<◌, min, bit_and, digits, bit_and-bitwise,
}
use mathlib.Core.Path.{◌≡◌, refl}
use mathlib.Core.Logic.{◌⊎◌, inl, inr}
use native.Mathlib.Nat.{pow-suc}
use native.Mathlib.Decide.{ℕ_discrete}
use native.Mathlib.Omega.{arith}

-- The recursion that `bit_and` stands for does not depend on its fuel, if there is enough.
and_fuel_irrelevant :
    (n m a b : ℕ) → a ≤ n → a ≤ m → digits (λ y. zero) min n a b ≡ digits (λ y. zero) min m a b
and_fuel_irrelevant zero zero a b p q = refl
and_fuel_irrelevant zero (suc m) zero b p q = refl
and_fuel_irrelevant zero (suc m) (suc a) b p q = absurd (omega arith)
and_fuel_irrelevant (suc n) zero zero b p q = refl
and_fuel_irrelevant (suc n) zero (suc a) b p q = absurd (omega arith)
and_fuel_irrelevant (suc n) (suc m) zero b p q = refl
and_fuel_irrelevant (suc n) (suc m) (suc a) b p q =
    omega (arith, and_fuel_irrelevant n m (suc a / 2) (b / 2) (omega arith) (omega arith))

pub pow-pos : (k : ℕ) → 0 < 2 ^ k
pow-pos zero = omega arith
pow-pos (suc k) = omega (arith, pow-suc 2 k, pow-pos k)

zero-bit_and : (b : ℕ) → bit_and 0 b ≡ 0
zero-bit_and b = bit_and-bitwise 0 b

pub bit_and_digit : (a b : ℕ) → bit_and a b ≡ bit_and (a / 2) (b / 2) * 2 + min (a % 2) (b % 2)
bit_and_digit zero b = omega (arith, zero-bit_and b, zero-bit_and (b / 2))
bit_and_digit (suc a) b = omega (
  arith,
  bit_and-bitwise (suc a) b,
  bit_and-bitwise (suc a / 2) (b / 2),
  and_fuel_irrelevant a (suc a / 2) (suc a / 2) (b / 2) (omega arith) (omega arith),
)

bit_and_self_fuel : (f a : ℕ) → a ≤ f → bit_and a a ≡ a
bit_and_self_fuel f zero h = zero-bit_and 0
bit_and_self_fuel zero (suc a) h = absurd (omega arith)
bit_and_self_fuel (suc f) (suc a) h =
    omega (arith, bit_and_digit (suc a) (suc a), bit_and_self_fuel f (suc a / 2) (omega arith))

pub bit_and_self : (a : ℕ) → bit_and a a ≡ a
bit_and_self a = bit_and_self_fuel a a (omega arith)

-- `n & (n - 1)` is zero at powers of two only: the step at the lowest digit.
lowest_digit :
    (n : ℕ)
    → 0 < n
    → bit_and n (n - 1) ≡ 0
    → (n ≡ 1) ⊎ ((n ≡ n / 2 * 2) × (0 < n / 2) × (bit_and (n / 2) (n / 2 - 1) ≡ 0))
lowest_digit n p e = elim (ℕ_discrete (n % 2) 0) [
  | yes even ↦
      let halves : (n - 1) / 2 ≡ n / 2 - 1 = omega arith in
      let digit = rw halves at (bit_and_digit n (n - 1)) in
      inr (omega arith, omega arith, omega arith)
  | no odd ↦
      let halves : (n - 1) / 2 ≡ n / 2 = omega arith in
      let digit = rw halves at (bit_and_digit n (n - 1)) in
      inl (omega (arith, bit_and_self (n / 2)))
]

power_of_two_fuel : (f n : ℕ) → n ≤ f → 0 < n → bit_and n (n - 1) ≡ 0 → (k : ℕ) × (n ≡ 2 ^ k)
power_of_two_fuel zero n h p e = absurd (omega arith)
power_of_two_fuel (suc f) n h p e = elim (lowest_digit n p e) [
  | inl one ↦ (0, one)
  | inr (even, pos, rest) ↦
      let (k, is_power) = power_of_two_fuel f (n / 2) (omega arith) pos rest in
      (suc k, omega (arith, pow-suc 2 k))
]

pub power_of_two : (n : ℕ) → 0 < n → bit_and n (n - 1) ≡ 0 → (k : ℕ) × (n ≡ 2 ^ k)
power_of_two n = power_of_two_fuel n n (omega arith)

-- And at all of them.
pub bit_and_power : (k : ℕ) → bit_and (2 ^ k) (2 ^ k - 1) ≡ 0
bit_and_power zero = refl
bit_and_power (suc k) =
    let halves : (2 ^ suc k - 1) / 2 ≡ 2 ^ k - 1 = omega (arith, pow-suc 2 k, pow-pos k) in
    let half : 2 ^ suc k / 2 ≡ 2 ^ k = omega (arith, pow-suc 2 k) in
    let digit = rw (halves, half) at (bit_and_digit (2 ^ suc k) (2 ^ suc k - 1)) in
    omega (arith, bit_and_power k, pow-suc 2 k)
