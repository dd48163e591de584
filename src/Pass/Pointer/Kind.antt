-- ===== src/Pass/Pointer/Kind.antt =====
-- The values that the loop of `getPointerKind` reaches, and how it merges their kinds.
use t_espresso.Base.{
  ℕ, zero, suc, ◌≤◌, ◌≡◌, refl, true, ◌||◌, ◌⊎◌, Option, some, List, [], ◌∷◌, arith, Bool-cases,
  inl, inr,
}
use t_espresso.Pass.Pointer.{
  PointerKind, pk_other, pk_global, pk_uninitialized, pk_value, PointerResult, fatal, unfinished,
  kind_of, is_seen, Visit, merges, pushes, stops, push_all, pointer_loop, merge_pointer_kinds,
}
use t_espresso.Pass.Pointer.Fuel.{visit_cases}

-- The value `u` is reached from `v` by what is pushed.
pub data Feeds (visits : ℕ → Option Visit) (v : ℕ) : ℕ → Type 0 where
  itself : (u : ℕ) → u ≡ v → Feeds visits v u
  onward :
      (u w : ℕ) (values : List ℕ)
      → Feeds visits v w
      → visits w ≡ some (pushes values)
      → is_seen values u ≡ true
      → Feeds visits v u

pub merge-le_left : (a b : PointerKind) → pk_value (merge_pointer_kinds a b) ≤ pk_value a
unfolding merge_pointer_kinds
merge-le_left pk_other b = omega arith
merge-le_left pk_global pk_other = omega arith
merge-le_left pk_global pk_global = omega arith
merge-le_left pk_global pk_uninitialized = omega arith
merge-le_left pk_uninitialized pk_other = omega arith
merge-le_left pk_uninitialized pk_global = omega arith
merge-le_left pk_uninitialized pk_uninitialized = omega arith

pub merge-le_right : (a b : PointerKind) → pk_value (merge_pointer_kinds a b) ≤ pk_value b
unfolding merge_pointer_kinds
merge-le_right pk_other b = omega arith
merge-le_right pk_global pk_other = omega arith
merge-le_right pk_global pk_global = omega arith
merge-le_right pk_global pk_uninitialized = omega arith
merge-le_right pk_uninitialized b = omega arith

merge-either : (a b : PointerKind) → (merge_pointer_kinds a b ≡ a) ⊎ (merge_pointer_kinds a b ≡ b)
unfolding merge_pointer_kinds
merge-either pk_other b = inl refl
merge-either pk_global pk_other = inr refl
merge-either pk_global pk_global = inl refl
merge-either pk_global pk_uninitialized = inl refl
merge-either pk_uninitialized b = inr refl

pub is_seen-push_all :
    (vs stack : List ℕ) (u : ℕ) → is_seen (push_all vs stack) u ≡ (is_seen vs u || is_seen stack u)
unfolding is_seen push_all
is_seen-push_all [] stack u = refl
is_seen-push_all (v ∷ vs) stack u = ground (arith, is_seen-push_all vs (v ∷ stack) u)

module _ (visits : ℕ → Option Visit) (v : ℕ) where
  -- Every value of the list is reached.
  abbrev pub AreFed : List ℕ → Type 0
  AreFed l = (u : ℕ) → is_seen l u ≡ true → Feeds visits v u

  abbrev pub IsAttained : PointerKind → Type 0
  IsAttained kind =
      (kind ≡ pk_uninitialized) ⊎ ((u : ℕ) × Feeds visits v u × (visits u ≡ some (merges kind)))

  pub AreFed-pushed :
      (node : ℕ) (values stack : List ℕ)
      → AreFed (node ∷ stack)
      → visits node ≡ some (pushes values)
      → AreFed (push_all values stack)
  unfolding is_seen
  AreFed-pushed node values stack fed e u h = elim (Bool-cases (is_seen values u)) [
    | inl new ↦ onward u node values (fed node (ground arith)) e new
    | inr old ↦ fed u (ground (arith, is_seen-push_all values stack u))
  ]

  AreFed-tail : (node : ℕ) (stack : List ℕ) → AreFed (node ∷ stack) → AreFed stack
  unfolding is_seen
  AreFed-tail node stack fed u h = fed u (ground arith)

  AreFed-head : (node : ℕ) (stack : List ℕ) → AreFed (node ∷ stack) → Feeds visits v node
  unfolding is_seen
  AreFed-head node stack fed = fed node (ground arith)

  merge-IsAttained :
      (node : ℕ) (kind pk : PointerKind)
      → Feeds visits v node
      → visits node ≡ some (merges pk)
      → IsAttained kind
      → IsAttained (merge_pointer_kinds kind pk)
  merge-IsAttained node kind pk fed e attained = elim (merge-either kind pk) [
    | inl old ↦ rw old attained
    | inr new ↦ rw new (inr (node, fed, e))
  ]

  -- What a result says where it is a kind, or a fatal error.
  abbrev pub Justified : PointerResult → Type 0
  Justified fatal = (u : ℕ) × Feeds visits v u × (visits u ≡ some stops)
  Justified unfinished = Unit {0}
  Justified (kind_of kind) = IsAttained kind

  pub pointer_loop-Justified :
      (fuel : ℕ) (seen stack : List ℕ) (kind : PointerKind)
      → AreFed stack
      → IsAttained kind
      → Justified (pointer_loop visits fuel seen stack kind)
  unfolding pointer_loop
  pointer_loop-Justified zero seen stack kind fed attained = tt
  pointer_loop-Justified (suc fuel) seen [] kind fed attained = attained
  pointer_loop-Justified (suc fuel) seen (node ∷ stack) kind fed attained =
      let fed' = AreFed-tail node stack fed in
      elim (Bool-cases (is_seen seen node)) [
        | inl old ↦
            rw (Justified, pointer_loop, old)
              (pointer_loop-Justified fuel seen stack kind fed' attained)
        | inr fresh ↦ elim (visit_cases (visits node)) [
          | inl e ↦ rw (Justified, pointer_loop, fresh, e) tt
          | inr (inl e) ↦
              rw (Justified, pointer_loop, fresh, e) (node, AreFed-head node stack fed, e)
          | inr (inr (inl (pk, e))) ↦
              rw (Justified, pointer_loop, fresh, e)
                (pointer_loop-Justified fuel (node ∷ seen) stack (merge_pointer_kinds kind pk) fed'
                  (merge-IsAttained node kind pk (AreFed-head node stack fed) e attained))
          | inr (inr (inr (vs, e))) ↦
              rw (Justified, pointer_loop, fresh, e)
                (pointer_loop-Justified fuel (node ∷ seen) (push_all vs stack) kind
                  (AreFed-pushed node vs stack fed e) attained)
        ]
      ]
