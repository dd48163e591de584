-- ===== src/Bits/Fields.antt =====
-- `|` of disjoint fields is a sum, and `&` with a mask of low ones is a remainder, at every width.
use native.Mathlib.Nat.{pow-suc, one-le-pow}
use t_espresso.Base.{
  ℕ, zero, suc, ◌+◌, ◌-◌, ◌*◌, ◌/◌, ◌%◌, ◌^◌, ◌≤◌, ◌<◌, ◌≡◌, refl, ap, arith, bit_and, bit_or,
  bit_and_peel, bit_or_peel,
}

bit_or-zero_below : (n a : ℕ) → a ≤ n → bit_or a 0 ≡ a
bit_or-zero_below zero zero h = refl
bit_or-zero_below (suc n) zero h = refl
bit_or-zero_below zero (suc a) h = absurd (omega arith)
bit_or-zero_below (suc n) (suc a) h =
    omega (arith, bit_or_peel (suc a) 0, bit_or-zero_below n (suc a / 2) (omega arith))

pub bit_or-zero : (a : ℕ) → bit_or a 0 ≡ a
bit_or-zero a = bit_or-zero_below a a (omega arith)

bit_and-zero_below : (n a : ℕ) → a ≤ n → bit_and a 0 ≡ 0
bit_and-zero_below zero zero h = refl
bit_and-zero_below (suc n) zero h = refl
bit_and-zero_below zero (suc a) h = absurd (omega arith)
bit_and-zero_below (suc n) (suc a) h =
    omega (arith, bit_and_peel (suc a) 0, bit_and-zero_below n (suc a / 2) (omega arith))

pub bit_and-zero : (a : ℕ) → bit_and a 0 ≡ 0
bit_and-zero a = bit_and-zero_below a a (omega arith)

bit_or_comm_below : (n a b : ℕ) → a + b ≤ n → bit_or a b ≡ bit_or b a
bit_or_comm_below zero zero zero h = refl
bit_or_comm_below zero zero (suc b) h = absurd (omega arith)
bit_or_comm_below zero (suc a) b h = absurd (omega arith)
bit_or_comm_below (suc n) zero zero h = refl
bit_or_comm_below (suc n) zero (suc b) h = omega (
  arith,
  bit_or_peel 0 (suc b),
  bit_or_peel (suc b) 0,
  bit_or_comm_below n 0 (suc b / 2) (omega arith),
)
bit_or_comm_below (suc n) (suc a) b h = omega (
  arith,
  bit_or_peel (suc a) b,
  bit_or_peel b (suc a),
  bit_or_comm_below n (suc a / 2) (b / 2) (omega arith),
)

pub bit_or_comm : (a b : ℕ) → bit_or a b ≡ bit_or b a
bit_or_comm a b = bit_or_comm_below (a + b) a b (omega arith)

-- A factor `2 ^ suc k` is two factors `2 ^ k`.
pub mul-pow-suc : (q k : ℕ) → q * 2 ^ suc k ≡ 2 * (q * 2 ^ k)
mul-pow-suc q k = omega (arith, ap (λ (t : ℕ). q * t) (pow-suc 2 k))

-- A field `r` of `k` bits below the field `q`.
pub bit_or_field : (k q r : ℕ) → r < 2 ^ k → bit_or (q * 2 ^ k) r ≡ q * 2 ^ k + r
bit_or_field zero q zero fits = omega (arith, bit_or-zero (q * 1))
bit_or_field zero q (suc r) fits = absurd (omega arith)
bit_or_field (suc k) q r fits = ground (
  arith,
  bit_or_peel (q * 2 ^ suc k) r,
  pow-suc 2 k,
  mul-pow-suc q k,
  bit_or_field k q (r / 2) (omega (arith, pow-suc 2 k)),
)

low_field : (k q r : ℕ) → r < 2 ^ k → bit_and (q * 2 ^ k + r) (2 ^ k - 1) ≡ r
low_field zero q zero fits = bit_and-zero (q * 1 + 0)
low_field zero q (suc r) fits = absurd (omega arith)
low_field (suc k) q r fits = ground (
  arith,
  bit_and_peel (q * 2 ^ suc k + r) (2 ^ suc k - 1),
  pow-suc 2 k,
  one-le-pow k 2,
  mul-pow-suc q k,
  low_field k q (r / 2) (omega (arith, pow-suc 2 k)),
)

pub bit_and_mask : (k a : ℕ) → bit_and a (2 ^ k - 1) ≡ a % 2 ^ k
bit_and_mask k a = ground (arith, one-le-pow k 2, low_field k (a / 2 ^ k) (a % 2 ^ k))
