-- ===== src/Bits/Single.antt =====
-- Bit `i` of a word, and how the operations act on it.
use native.Mathlib.Nat.{
  pow-suc, one-le-pow, div-add-mod, mod-lt, mod-eq_of_lt, div-div-eq-div-mul, add-mul-mod_self_left,
}
use mathlib.Core.Bool.{xor}
use t_espresso.Bits.Fields.{mul-pow-suc, bit_and-zero}
use t_espresso.Base.{
  ℕ, zero, suc, ◌+◌, ◌-◌, ◌*◌, ◌/◌, ◌%◌, ◌^◌, ◌≤◌, ◌<◌, ◌≡◌, refl, ap, sym, subst, ◌∙◌, arith,
  bit_and, bit_or, bit_and_peel, bit_or_peel, bit_xor, bit_xor_peel, differ-lt, ◌≢◌, Bool, true,
  false, ◌&&◌, ◌||◌, not, ◌==◌, if◌then◌else◌,
}

unfoldable pub test_bit : ℕ → ℕ → Bool
test_bit x zero = x % 2 == 1
test_bit x (suc i) = test_bit (x / 2) i

-- The word whose bits below `n` are those of `p`.
unfoldable pub from_bits : ℕ → (ℕ → Bool) → ℕ
from_bits zero p = 0
from_bits (suc n) p = (if p 0 then 1 else 0) + 2 * from_bits n (λ i. p (suc i))

pub from_bits-lt : (n : ℕ) (p : ℕ → Bool) → from_bits n p < 2 ^ n
unfolding from_bits
from_bits-lt zero p = omega arith
from_bits-lt (suc n) p = ground (arith, pow-suc 2 n, from_bits-lt n (λ i. p (suc i)))

pub test_bit-from_bits : (n : ℕ) (p : ℕ → Bool) (i : ℕ) → i < n → test_bit (from_bits n p) i ≡ p i
unfolding from_bits test_bit
test_bit-from_bits zero p i h = absurd (omega arith)
test_bit-from_bits (suc n) p zero h = ground arith
test_bit-from_bits (suc n) p (suc i) h =
    let e : ((if p 0 then 1 else 0) + 2 * from_bits n (λ i. p (suc i))) / 2
        ≡ from_bits n (λ i. p (suc i)) =
      ground arith in
    rw e (test_bit-from_bits n (λ i. p (suc i)) i (omega arith))

pub test_bit-and : (a b i : ℕ) → test_bit (bit_and a b) i ≡ (test_bit a i && test_bit b i)
unfolding test_bit
test_bit-and a b zero = ground (arith, bit_and_peel a b)
test_bit-and a b (suc i) =
    let e : bit_and a b / 2 ≡ bit_and (a / 2) (b / 2) = omega (arith, bit_and_peel a b) in
    rw e (test_bit-and (a / 2) (b / 2) i)

pub test_bit-or : (a b i : ℕ) → test_bit (bit_or a b) i ≡ (test_bit a i || test_bit b i)
unfolding test_bit
test_bit-or a b zero = ground (arith, bit_or_peel a b)
test_bit-or a b (suc i) =
    let e : bit_or a b / 2 ≡ bit_or (a / 2) (b / 2) = omega (arith, bit_or_peel a b) in
    rw e (test_bit-or (a / 2) (b / 2) i)

-- Bits at and above the width of a word are clear.
pub test_bit_above : (n x i : ℕ) → x < 2 ^ n → n ≤ i → test_bit x i ≡ false
unfolding test_bit
test_bit_above zero zero zero h k = refl
test_bit_above zero zero (suc i) h k = test_bit_above zero zero i h (omega arith)
test_bit_above zero (suc x) i h k = absurd (omega arith)
test_bit_above (suc n) x zero h k = absurd (omega arith)
test_bit_above (suc n) x (suc i) h k =
    test_bit_above n (x / 2) i (omega (arith, pow-suc 2 n)) (omega arith)

-- The lowest digit of a remainder, and the digits above it.
mod_peel : (n x : ℕ) → x % 2 ^ suc n ≡ 2 * (x / 2 % 2 ^ n) + x % 2
mod_peel n x =
    let low : ℕ = 2 * (x / 2 % 2 ^ n) + x % 2 in
    let high : ℕ = x / 2 / 2 ^ n in
    let fits : low < 2 ^ suc n =
      omega (arith, pow-suc 2 n, mod-lt (x / 2) {m = 2 ^ n} (one-le-pow n 2 (omega arith))) in
    let split : x ≡ low + 2 ^ suc n * high =
      omega (arith, div-add-mod (x / 2) (2 ^ n), mul-pow-suc high n) in
    ap (λ t. t % 2 ^ suc n) split ∙ add-mul-mod_self_left low (2 ^ suc n) high ∙ mod-eq_of_lt fits

-- A cast keeps the bits below its width.
pub test_bit-mod : (n x i : ℕ) → i < n → test_bit (x % 2 ^ n) i ≡ test_bit x i
unfolding test_bit
test_bit-mod zero x i h = absurd (omega arith)
test_bit-mod (suc n) x zero h = ground (arith, mod_peel n x)
test_bit-mod (suc n) x (suc i) h =
    let e : x % 2 ^ suc n / 2 ≡ x / 2 % 2 ^ n = omega (arith, mod_peel n x) in
    rw e (test_bit-mod n (x / 2) i (omega arith))

pub test_bit-shl : (k x i : ℕ) → test_bit (x * 2 ^ k) (i + k) ≡ test_bit x i
unfolding test_bit
test_bit-shl zero x i =
    let e : x * 2 ^ 0 ≡ x = omega arith in let f : i + 0 ≡ i = omega arith in rw (e, f)
test_bit-shl (suc k) x i =
    let e : i + suc k ≡ suc (i + k) = omega arith in
    let half : x * 2 ^ suc k / 2 ≡ x * 2 ^ k = omega (arith, mul-pow-suc x k) in
    rw e (subst (λ t. test_bit t (i + k) ≡ test_bit x i) (sym half) (test_bit-shl k x i))

pub test_bit-shl_below : (k x i : ℕ) → i < k → test_bit (x * 2 ^ k) i ≡ false
unfolding test_bit
test_bit-shl_below zero x i h = absurd (omega arith)
test_bit-shl_below (suc k) x zero h = ground (arith, mul-pow-suc x k)
test_bit-shl_below (suc k) x (suc i) h =
    let e : x * 2 ^ suc k / 2 ≡ x * 2 ^ k = omega (arith, mul-pow-suc x k) in
    rw e (test_bit-shl_below k x i (omega arith))

-- The complement of a word of `n` bits.
pub test_bit-not : (n x i : ℕ) → x < 2 ^ n → i < n → test_bit (2 ^ n - 1 - x) i ≡ not (test_bit x i)
unfolding test_bit
test_bit-not zero x i b h = absurd (omega arith)
test_bit-not (suc n) x zero b h = ground (arith, pow-suc 2 n, one-le-pow n 2)
test_bit-not (suc n) x (suc i) b h =
    let e : (2 ^ suc n - 1 - x) / 2 ≡ 2 ^ n - 1 - x / 2 = omega (arith, pow-suc 2 n) in
    rw e (test_bit-not n (x / 2) i (omega (arith, pow-suc 2 n)) (omega arith))

pub test_bit-xor : (a b i : ℕ) → test_bit (bit_xor a b) i ≡ xor (test_bit a i) (test_bit b i)
unfolding test_bit xor
test_bit-xor a b zero =
    ground (arith, bit_xor_peel a b, differ-lt (a % 2) (b % 2) (omega arith) (omega arith))
test_bit-xor a b (suc i) =
    let e : bit_xor a b / 2 ≡ bit_xor (a / 2) (b / 2) =
      omega (arith, bit_xor_peel a b, differ-lt (a % 2) (b % 2) (omega arith) (omega arith)) in
    rw e (test_bit-xor (a / 2) (b / 2) i)

pub test_bit-pow_self : (i : ℕ) → test_bit (2 ^ i) i ≡ true
unfolding test_bit
test_bit-pow_self zero = refl
test_bit-pow_self (suc i) =
    let e : 2 ^ suc i / 2 ≡ 2 ^ i = omega (arith, pow-suc 2 i) in rw e (test_bit-pow_self i)

pub test_bit-pow_ne : (i j : ℕ) → i ≢ j → test_bit (2 ^ i) j ≡ false
unfolding test_bit
test_bit-pow_ne zero zero h = absurd (h refl)
test_bit-pow_ne zero (suc j) h = test_bit_above 0 0 j (omega arith) (omega arith)
test_bit-pow_ne (suc i) zero h = ground (arith, pow-suc 2 i)
test_bit-pow_ne (suc i) (suc j) h =
    let e : 2 ^ suc i / 2 ≡ 2 ^ i = omega (arith, pow-suc 2 i) in
    rw e (test_bit-pow_ne i j (λ q. h (ap suc q)))

-- Masking with one bit tests it.
pub bit_and-pow : (x i : ℕ) → bit_and x (2 ^ i) ≡ (if test_bit x i then 2 ^ i else 0)
unfolding test_bit
bit_and-pow x zero = ground (arith, bit_and_peel x 1, bit_and-zero (x / 2))
bit_and-pow x (suc i) =
    let e : 2 ^ suc i / 2 ≡ 2 ^ i = omega (arith, pow-suc 2 i) in
    ground (
      arith,
      bit_and_peel x (2 ^ suc i),
      pow-suc 2 i,
      bit_and-pow (x / 2) i,
      ap (bit_and (x / 2)) e,
    )

pub bit_and-pow_is_zero : (x i : ℕ) → (bit_and x (2 ^ i) == 0) ≡ not (test_bit x i)
bit_and-pow_is_zero x i = ground (arith, bit_and-pow x i, one-le-pow i 2)

-- A word with no bit set is zero.
pub from_bits-zero : (n : ℕ) (p : ℕ → Bool) → ((i : ℕ) → i < n → p i ≡ false) → from_bits n p ≡ 0
unfolding from_bits
from_bits-zero zero p h = refl
from_bits-zero (suc n) p h =
    ground
      (arith, h 0 (omega arith), from_bits-zero n (λ i. p (suc i)) (λ i q. h (suc i) (omega arith)))

pub test_bit-shr : (k x i : ℕ) → test_bit (x / 2 ^ k) i ≡ test_bit x (i + k)
unfolding test_bit
test_bit-shr zero x i =
    let e : x / 2 ^ 0 ≡ x = omega arith in let f : i + 0 ≡ i = omega arith in rw (e, f)
test_bit-shr (suc k) x i =
    let e : x / 2 ^ suc k ≡ x / 2 ^ k / 2 =
      ap (λ d. x / d) (pow-suc 2 k) ∙ sym (div-div-eq-div-mul x (2 ^ k) 2) in
    let f : i + suc k ≡ suc i + k = omega arith in
    ap (λ y. test_bit y i) e ∙ test_bit-shr k x (suc i) ∙ ap (test_bit x) (sym f)
