-- ===== src/Common/Bits.antt =====
-- Bits of machine words: exclusive or and shifts.
use Prim.Native.Nat.{
  ℕ, zero, suc, ◌+◌, ◌*◌, ◌/◌, ◌%◌, ◌^◌, ◌≤◌, ◌<◌, bit_xor, digits, differ, bit_xor-bitwise,
}
use mathlib.Core.Path.{◌≡◌, refl, ap}
use native.Mathlib.Numerals.{unary_clauses}
use native.Mathlib.Omega.{arith}

abbrev xor_digits : ℕ → ℕ → ℕ → ℕ
xor_digits n a b = digits (λ b. b) differ n a b

xor_digits_fuel : (n m a b : ℕ) → a ≤ n → a ≤ m → xor_digits n a b ≡ xor_digits m a b
xor_digits_fuel zero zero a b p q = refl
xor_digits_fuel zero (suc m) zero b p q = refl
xor_digits_fuel zero (suc m) (suc a) b p q = absurd (omega arith)
xor_digits_fuel (suc n) zero zero b p q = refl
xor_digits_fuel (suc n) zero (suc a) b p q = absurd (omega arith)
xor_digits_fuel (suc n) (suc m) zero b p q = refl
xor_digits_fuel (suc n) (suc m) (suc a) b p q =
    omega (arith, xor_digits_fuel n m (suc a / 2) (b / 2) (omega arith) (omega arith))

zero-bit_xor : (b : ℕ) → bit_xor 0 b ≡ b
zero-bit_xor b = bit_xor-bitwise 0 b

differ_bit : (a b : ℕ) → a < 2 → b < 2 → differ a b < 2
differ_bit zero b p q = q
differ_bit (suc a) zero p q = p
differ_bit (suc a) (suc b) p q = differ_bit a b (omega arith) (omega arith)

pub bit_xor_step : (a b : ℕ) → bit_xor a b ≡ bit_xor (a / 2) (b / 2) * 2 + differ (a % 2) (b % 2)
bit_xor_step zero b = omega (arith, zero-bit_xor b, zero-bit_xor (b / 2))
bit_xor_step (suc a) b = omega (
  arith,
  bit_xor-bitwise (suc a) b,
  bit_xor-bitwise (suc a / 2) (b / 2),
  xor_digits_fuel a (suc a / 2) (suc a / 2) (b / 2) (omega arith) (omega arith),
)

the_zero : (a : ℕ) → a < 1 → a ≡ 0
the_zero a h = omega arith

-- The exclusive or of two words is a word.
pub bit_xor_bound : (k a b : ℕ) → a < 2 ^ k → b < 2 ^ k → bit_xor a b < 2 ^ k
bit_xor_bound zero a b p q = omega (
  arith,
  bit_xor_step a b,
  zero-bit_xor 0,
  ap (λ n. bit_xor n b) (the_zero a (omega arith)),
  zero-bit_xor b,
)
bit_xor_bound (suc k) a b p q =
    let e : 2 ^ suc k ≡ 2 ^ k * 2 = simp unary_clauses in
    omega (
      arith,
      e,
      bit_xor_step a b,
      differ_bit (a % 2) (b % 2) (omega arith) (omega arith),
      bit_xor_bound k (a / 2) (b / 2) (omega (arith, e)) (omega (arith, e)),
    )
