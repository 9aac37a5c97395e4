-- ===== src/Websocket/Cipher/Xor.antt =====
-- `x ^ y` of numbers: its digit recursion, and that it undoes itself.
use Prim.Native.Nat.{
  ℕ, zero, suc, ◌+◌, ◌*◌, ◌/◌, ◌%◌, ◌≤◌, ◌<◌, differ, digits, bit_xor, bit_xor-bitwise,
}
use connaxis.Prelude.{◌≡◌, refl, arith}

-- The recursion that `bit_xor` stands for does not depend on its fuel, if there is enough.
xor_fuel_irrelevant :
    (n m a b : ℕ) → a ≤ n → a ≤ m → digits (λ y. y) differ n a b ≡ digits (λ y. y) differ m a b
xor_fuel_irrelevant zero zero a b p q = refl
xor_fuel_irrelevant zero (suc m) zero b p q = refl
xor_fuel_irrelevant zero (suc m) (suc a) b p q = absurd (omega arith)
xor_fuel_irrelevant (suc n) zero zero b p q = refl
xor_fuel_irrelevant (suc n) zero (suc a) b p q = absurd (omega arith)
xor_fuel_irrelevant (suc n) (suc m) zero b p q = refl
xor_fuel_irrelevant (suc n) (suc m) (suc a) b p q =
    omega (arith, xor_fuel_irrelevant n m (suc a / 2) (b / 2) (omega arith) (omega arith))

zero-bit_xor : (b : ℕ) → bit_xor 0 b ≡ b
zero-bit_xor b = bit_xor-bitwise 0 b

bit_xor_digit : (a b : ℕ) → bit_xor a b ≡ bit_xor (a / 2) (b / 2) * 2 + differ (a % 2) (b % 2)
bit_xor_digit zero b = omega (arith, zero-bit_xor b, zero-bit_xor (b / 2))
bit_xor_digit (suc a) b = omega (
  arith,
  bit_xor-bitwise (suc a) b,
  bit_xor-bitwise (suc a / 2) (b / 2),
  xor_fuel_irrelevant a (suc a / 2) (suc a / 2) (b / 2) (omega arith) (omega arith),
)

differ_digit : (x y : ℕ) → x < 2 → y < 2 → (differ x y < 2) × (differ (differ x y) y ≡ x)
differ_digit zero zero h k = (omega arith, refl)
differ_digit zero (suc zero) h k = (omega arith, refl)
differ_digit (suc zero) zero h k = (omega arith, refl)
differ_digit (suc zero) (suc zero) h k = (omega arith, refl)
differ_digit (suc (suc x)) y h k = absurd (omega arith)
differ_digit x (suc (suc y)) h k = absurd (omega arith)

-- A number of digits, from its lowest.
lowest : (d q r : ℕ) → d ≡ q * 2 + r → r < 2 → (d / 2 ≡ q) × (d % 2 ≡ r)
lowest d q r e h = (omega arith, omega arith)

bit_xor_twice_fuel : (f a b : ℕ) → a ≤ f → b ≤ f → bit_xor (bit_xor a b) b ≡ a
bit_xor_twice_fuel zero zero zero h k = refl
bit_xor_twice_fuel zero (suc a) b h k = absurd (omega arith)
bit_xor_twice_fuel zero a (suc b) h k = absurd (omega arith)
bit_xor_twice_fuel (suc f) a b h k =
    let (small, back) = differ_digit (a % 2) (b % 2) (omega arith) (omega arith) in
    let (high, low) =
      lowest (bit_xor a b) (bit_xor (a / 2) (b / 2)) (differ (a % 2) (b % 2)) (bit_xor_digit a b)
        small in
    let digit = rw (high, low) at (bit_xor_digit (bit_xor a b) b) in
    omega (arith, back, bit_xor_twice_fuel f (a / 2) (b / 2) (omega arith) (omega arith))

pub bit_xor_twice : (a b : ℕ) → bit_xor (bit_xor a b) b ≡ a
bit_xor_twice a b = bit_xor_twice_fuel (a + b) a b (omega arith) (omega arith)
