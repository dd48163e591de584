-- ===== src/Base/Digits.antt =====
-- The lowest binary digit of `bit_and`, `bit_or` and `bit_xor`, and what is above it.
use Prim.Native.Nat.{
  ℕ, zero, suc, ◌+◌, ◌*◌, ◌/◌, ◌%◌, ◌≤◌, ◌<◌, min, max, differ, digits, bit_and, bit_or, bit_xor,
  bit_and-bitwise, bit_or-bitwise, bit_xor-bitwise,
}
use mathlib.Core.Path.{◌≡◌, refl}
use native.Mathlib.Omega.{arith}

module _ (z : ℕ → ℕ) (f : ℕ → ℕ → ℕ) where
  -- More fuel than the first number needs changes nothing.
  digits_enough : (n m a b : ℕ) → a ≤ n → a ≤ m → digits z f n a b ≡ digits z f m a b
  digits_enough zero zero zero b p q = refl
  digits_enough zero (suc m) zero b p q = refl
  digits_enough (suc n) zero zero b p q = refl
  digits_enough (suc n) (suc m) zero b p q = refl
  digits_enough zero m (suc a) b p q = absurd (omega arith)
  digits_enough (suc n) zero (suc a) b p q = absurd (omega arith)
  digits_enough (suc n) (suc m) (suc a) b p q =
      rw (digits_enough n m (suc a / 2) (b / 2) (omega arith) (omega arith))

  digits_peel :
      (a b : ℕ)
      → digits z f (suc a) (suc a) b
        ≡ digits z f (suc a / 2) (suc a / 2) (b / 2) * 2 + f (suc a % 2) (b % 2)
  digits_peel a b = rw (digits_enough a (suc a / 2) (suc a / 2) (b / 2) (omega arith) (omega arith))

pub bit_and_peel : (a b : ℕ) → bit_and a b ≡ bit_and (a / 2) (b / 2) * 2 + min (a % 2) (b % 2)
bit_and_peel zero b = simp bit_and-bitwise (omega arith)
bit_and_peel (suc a) b = simp bit_and-bitwise (digits_peel (λ y. 0) min a b)

pub bit_or_peel : (a b : ℕ) → bit_or a b ≡ bit_or (a / 2) (b / 2) * 2 + max (a % 2) (b % 2)
bit_or_peel zero b = simp bit_or-bitwise (omega arith)
bit_or_peel (suc a) b = simp bit_or-bitwise (digits_peel (λ y. y) max a b)

pub bit_xor_peel : (a b : ℕ) → bit_xor a b ≡ bit_xor (a / 2) (b / 2) * 2 + differ (a % 2) (b % 2)
bit_xor_peel zero b = simp bit_xor-bitwise (zero_peel b)
  where
    zero_peel : (b : ℕ) → b ≡ b / 2 * 2 + differ (0 % 2) (b % 2)
    zero_peel b = omega arith
bit_xor_peel (suc a) b = simp bit_xor-bitwise (digits_peel (λ y. y) differ a b)

-- The digit of an exclusive or.
pub differ-lt : (a b : ℕ) → a < 2 → b < 2 → differ a b ≡ (a + b) % 2
differ-lt zero b p q = omega arith
differ-lt (suc a) zero p q = omega arith
differ-lt (suc a) (suc b) p q =
    let e : a ≡ 0 = omega arith in let f : b ≡ 0 = omega arith in rw (e, f)

pub zero-bit_or : (b : ℕ) → bit_or 0 b ≡ b
zero-bit_or b = bit_or-bitwise 0 b
