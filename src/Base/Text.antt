-- ===== src/Base/Text.antt =====
-- Text as the list of its bytes.
use Prim.Native.Char.{code}
use Prim.Native.Nat.{ℕ, zero, suc, ◌+◌, ◌-◌, ◌/◌, ◌%◌}
use Prim.Native.String.{String}
use mathlib.Core.Path.{◌≡◌, refl, ap₂}
use mathlib.Core.Bool.{Bool, true, false, ◌&&◌}
use mathlib.Core.List.{List, [], ◌∷◌, ◌++◌}
use native.Mathlib.Omega.{arith}
use t_espresso.Base.Tests.{ltb, ◌==◌, if◌then◌else◌}

-- An ASCII literal.
abbrev pub ascii : String → List ℕ
ascii String.[] = []
ascii (String.◌∷◌ c s) = code c ∷ ascii s

unfoldable pub same_text : List ℕ → List ℕ → Bool
same_text [] [] = true
same_text [] (y ∷ ys) = false
same_text (x ∷ xs) [] = false
same_text (x ∷ xs) (y ∷ ys) = x == y && same_text xs ys

pub same_text_refl : (xs : List ℕ) → same_text xs xs ≡ true
unfolding same_text
same_text_refl [] = refl
same_text_refl (x ∷ xs) = ground (arith, same_text_refl xs)

pub same_text→≡ : (xs ys : List ℕ) → same_text xs ys ≡ true → xs ≡ ys
unfolding same_text
same_text→≡ [] [] h = refl
same_text→≡ [] (y ∷ ys) h = absurd (cc)
same_text→≡ (x ∷ xs) [] h = absurd (cc)
same_text→≡ (x ∷ xs) (y ∷ ys) h =
    ap₂ (λ a l. a ∷ l) (ground arith) (same_text→≡ xs ys (ground arith))

-- Behind the same prefix texts compare by what follows.
pub same_text-append : (p xs ys : List ℕ) → same_text (p ++ xs) (p ++ ys) ≡ same_text xs ys
unfolding same_text
same_text-append [] xs ys = refl
same_text-append (x ∷ p) xs ys = ground (arith, same_text-append p xs ys)

unfoldable pub starts_with : List ℕ → List ℕ → Bool
starts_with text [] = true
starts_with [] (p ∷ prefix) = false
starts_with (c ∷ text) (p ∷ prefix) = c == p && starts_with text prefix

-- `find(part) != npos`
unfoldable pub contains_text : List ℕ → List ℕ → Bool
contains_text [] part = starts_with [] part
contains_text (c ∷ text) part =
    if starts_with (c ∷ text) part then true else contains_text text part

-- The digit for a number below 16.
abbrev pub digit : ℕ → ℕ
digit d = if ltb d 10 then b'0' + d else b'a' + (d - 10)

-- A number in the given base, for `fuel` digits at most.
unfoldable pub digits : ℕ → ℕ → ℕ → List ℕ
digits base zero n = []
digits base (suc fuel) n = elim (ltb n base) [
  | true ↦ digit n ∷ []
  | false ↦ digits base fuel (n / base) ++ (digit (n % base) ∷ [])
]

-- A number has no more digits than one more than itself.
unfoldable pub to_string : ℕ → List ℕ
unfolding digits
to_string n = digits 10 (suc n) n
