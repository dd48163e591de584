-- ===== src/Base/Numerals.antt =====
-- Numbers and the digits that they are written with.
use Prim.Native.Nat.{ℕ, zero, suc, ◌+◌, ◌-◌, ◌*◌, ◌/◌, ◌%◌, ◌≤◌, ◌<◌}
use mathlib.Core.Path.{◌≡◌, refl, sym, ap, ◌∙◌}
use mathlib.Core.Logic.{inl, inr}
use mathlib.Core.List.{List, [], ◌∷◌, ◌++◌}
use native.Mathlib.Omega.{arith}
use t_espresso.Base.Tests.{ltb, if◌then◌else◌, Bool-cases}
use t_espresso.Base.Text.{digit, digits, to_string}

-- What a digit stands for.
abbrev pub digit_value : ℕ → ℕ
digit_value c = if ltb c b'a' then c - b'0' else c - b'a' + 10

digit_value-digit : (d : ℕ) → d < 16 → digit_value (digit d) ≡ d
digit_value-digit d h = ground arith

-- The number that digits stand for, behind those of `acc`.
abbrev pub value : ℕ → ℕ → List ℕ → ℕ
value base acc [] = acc
value base acc (c ∷ cs) = value base (acc * base + digit_value c) cs

value-append :
    (base acc : ℕ) (cs : List ℕ) (c : ℕ)
    → value base acc (cs ++ (c ∷ [])) ≡ value base acc cs * base + digit_value c
value-append base acc [] c = refl
value-append base acc (d ∷ cs) c = value-append base (acc * base + digit_value d) cs c

module _ (base : ℕ) (small : base ≤ 16) (below : (n : ℕ) → n % base < base)
    (euclid : (n : ℕ) → n / base * base + n % base ≡ n)
    (smaller : (n : ℕ) → base ≤ n → n / base < n) where
  pub value-digits : (fuel n : ℕ) → n < fuel → value base 0 (digits base fuel n) ≡ n
  unfolding digits
  value-digits zero n h = absurd (omega arith)
  value-digits (suc fuel) n h = elim (Bool-cases (ltb n base)) [
    | inl e ↦
        let low : n < base = ground arith in
        rw (digits, e) (omega (arith, digit_value-digit n (omega arith)))
    | inr e ↦
        let high : base ≤ n = ground arith in
        let rest = value-digits fuel (n / base) (omega (arith, smaller n high)) in
        let low = digit_value-digit (n % base) (omega (arith, below n)) in
        rw (digits, e)
          (value-append base 0 (digits base fuel (n / base)) (digit (n % base))
            ∙ rw (rest, low) (euclid n))
  ]

pub value-to_string : (n : ℕ) → value 10 0 (to_string n) ≡ n
unfolding to_string
value-to_string n =
    value-digits 10 (omega arith) (λ n. omega arith) (λ n. omega arith) (λ n h. omega arith) (suc n)
      n (omega arith)

pub value-hex : (n : ℕ) → value 16 0 (digits 16 (suc n) n) ≡ n
value-hex n =
    value-digits 16 (omega arith) (λ n. omega arith) (λ n. omega arith) (λ n h. omega arith) (suc n)
      n (omega arith)

pub to_string_inj : (m n : ℕ) → to_string m ≡ to_string n → m ≡ n
to_string_inj m n h = sym (value-to_string m) ∙ ap (value 10 0) h ∙ value-to_string n
