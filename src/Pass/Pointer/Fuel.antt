-- ===== src/Pass/Pointer/Fuel.antt =====
-- The loop of `getPointerKind` ends: every value is processed once.
use t_espresso.Base.{
  ℕ, zero, suc, ◌+◌, ◌≤◌, ◌<◌, ◌≡◌, ◌≢◌, refl, ap, false, ◌==◌, ◌⊎◌, if◌then◌else◌, Option, none,
  some, List, [], ◌∷◌, length, arith, Bool-cases, inl, inr, subst,
}
use t_espresso.Pass.Pointer.{
  PointerKind, unfinished, is_seen, Visit, merges, pushes, stops, push_all, pointer_loop,
  merge_pointer_kinds,
}

-- All of the list are below `n`.
abbrev pub AllBelow : ℕ → List ℕ → Type 0
AllBelow n [] = Unit {0}
AllBelow n (v ∷ vs) = (v < n) × AllBelow n vs

-- How many values a visit pushes.
abbrev pub pushed : Option Visit → ℕ
pushed none = 0
pushed (some (merges pk)) = 0
pushed (some (pushes values)) = length values
pushed (some stops) = 0

-- What the values below `n` that are not seen will push.
abbrev pub pending : (ℕ → Option Visit) → List ℕ → ℕ → ℕ
pending visits seen zero = 0
pending visits seen (suc n) =
    (if is_seen seen n then 0 else pushed (visits n)) + pending visits seen n

abbrev pub IsFine : ℕ → Option Visit → Type 0
IsFine n none = ⊥
IsFine n (some (merges pk)) = Unit {0}
IsFine n (some (pushes values)) = AllBelow n values
IsFine n (some stops) = Unit {0}

-- Every value below `n` is processed, and pushes values below `n` only.
abbrev pub IsClosed : (ℕ → Option Visit) → ℕ → Type 0
IsClosed visits n = (v : ℕ) → v < n → IsFine n (visits v)

length-push_all : (vs stack : List ℕ) → length (push_all vs stack) ≡ length vs + length stack
unfolding push_all
length-push_all [] stack = omega arith
length-push_all (v ∷ vs) stack = omega (arith, length-push_all vs (v ∷ stack))

push_all-AllBelow :
    (n : ℕ) (vs stack : List ℕ) → AllBelow n vs → AllBelow n stack → AllBelow n (push_all vs stack)
unfolding push_all
push_all-AllBelow n [] stack h k = k
push_all-AllBelow n (v ∷ vs) stack (h, h') k = push_all-AllBelow n vs (v ∷ stack) h' (h, k)

-- Seeing a value above changes nothing below.
pending-above :
    (visits : ℕ → Option Visit) (seen : List ℕ) (v n : ℕ)
    → n ≤ v
    → pending visits (v ∷ seen) n ≡ pending visits seen n
unfolding is_seen
pending-above visits seen v zero h = refl
pending-above visits seen v (suc n) h =
    let rest = pending-above visits seen v n (omega arith) in
    let ne : (v == n) ≡ false = ground arith in rw (ne, rest) refl

pending-cons :
    (visits : ℕ → Option Visit) (seen : List ℕ) (v n : ℕ)
    → v < n
    → is_seen seen v ≡ false
    → pending visits (v ∷ seen) n + pushed (visits v) ≡ pending visits seen n
unfolding is_seen
pending-cons visits seen v zero h k = absurd (omega arith)
pending-cons visits seen v (suc n) h k = elim (Bool-cases (v == n)) [
  | inl e ↦
      let same : v ≡ n = ground arith in
      let rest = pending-above visits seen v n (omega arith) in
      let old : is_seen seen n ≡ false = subst (λ m. is_seen seen m ≡ false) same k in
      rw (e, rest, old, same) (omega arith)
  | inr ne ↦ let rest = pending-cons visits seen v n (ground arith) k in rw ne (omega (arith, rest))
]

pub visit_cases :
    (o : Option Visit)
    → (o ≡ none)
      ⊎ ((o ≡ some stops)
          ⊎ (((pk : PointerKind) × (o ≡ some (merges pk)))
              ⊎ ((vs : List ℕ) × (o ≡ some (pushes vs)))))
visit_cases none = inl refl
visit_cases (some stops) = inr (inl refl)
visit_cases (some (merges pk)) = inr (inr (inl (pk, refl)))
visit_cases (some (pushes vs)) = inr (inr (inr (vs, refl)))

-- With as much fuel as there are values on the stack and to be pushed, and one more, the loop
-- ends.
pub pointer_loop-finishes :
    (visits : ℕ → Option Visit) (n fuel : ℕ) (seen stack : List ℕ) (kind : PointerKind)
    → IsClosed visits n
    → AllBelow n stack
    → length stack + pending visits seen n < fuel
    → pointer_loop visits fuel seen stack kind ≢ unfinished
unfolding pointer_loop
pointer_loop-finishes visits n zero seen stack kind closed below enough = absurd (omega arith)
pointer_loop-finishes visits n (suc fuel) seen [] kind closed below enough = λ e. cc
pointer_loop-finishes visits n (suc fuel) seen (node ∷ stack) kind closed (at, below) enough =
    elim (Bool-cases (is_seen seen node)) [
      | inl old ↦
          rw (pointer_loop, old)
            (pointer_loop-finishes visits n fuel seen stack kind closed below (omega arith))
      | inr fresh ↦
          let fewer = pending-cons visits seen node n at fresh in
          let fine = closed node at in
          elim (visit_cases (visits node)) [
            | inl e ↦ absurd (subst (IsFine n) e fine)
            | inr (inl e) ↦ rw (pointer_loop, fresh, e) (λ stuck. cc)
            | inr (inr (inl (pk, e))) ↦
                rw (pointer_loop, fresh, e)
                  (pointer_loop-finishes visits n fuel (node ∷ seen) stack
                    (merge_pointer_kinds kind pk) closed below (omega (arith, fewer)))
            | inr (inr (inr (vs, e))) ↦
                rw (pointer_loop, fresh, e)
                  (pointer_loop-finishes visits n fuel (node ∷ seen) (push_all vs stack) kind closed
                    (push_all-AllBelow n vs stack (subst (IsFine n) e fine) below)
                    (omega (arith, fewer, length-push_all vs stack, ap pushed e)))
          ]
    ]
