-- ===== src/Pass/Pointer/Least.antt =====
-- What the loop of `getPointerKind` has processed once its stack is empty.
use t_espresso.Base.{
  ℕ, zero, suc, ◌+◌, ◌≤◌, ◌<◌, ◌≡◌, ◌≢◌, refl, Bool, true, ◌==◌, ◌||◌, ◌⊎◌, Option, none, some,
  List, [], ◌∷◌, arith, Bool-cases, Option-cases, inl, inr, subst,
}
use t_espresso.Pass.Pointer.{
  Node, PointerKind, pk_uninitialized, pk_value, PointerResult, fatal, unfinished, kind_of, is_seen,
  Visit, merges, pushes, stops, push_all, pointer_loop, merge_pointer_kinds, get_pointer_kind,
  visit_value, skip_casts,
}
use t_espresso.Pass.Pointer.Fuel.{visit_cases, pointer_loop-finishes, IsClosed, pending}
use t_espresso.Pass.Pointer.Kind.{
  Feeds, itself, onward, merge-le_left, merge-le_right, is_seen-push_all, Justified,
  pointer_loop-Justified,
}

-- A value that was seen before may leave the stack.
pop_seen :
    (seen stack : List ℕ) (node : ℕ)
    → is_seen seen node ≡ true
    → (u : ℕ) → (is_seen seen u || is_seen (node ∷ stack) u) ≡ true
    → (is_seen seen u || is_seen stack u) ≡ true
unfolding is_seen
pop_seen seen stack node old u h = elim (Bool-cases (node == u)) [
  | inl e ↦
      let same : node ≡ u = ground arith in
      let found : is_seen seen u ≡ true = subst (λ w. is_seen seen w ≡ true) same old in
      rw found refl
  | inr ne ↦ ground arith
]

drop_empty :
    (seen : List ℕ) (u : ℕ) → (is_seen seen u || is_seen [] u) ≡ true → is_seen seen u ≡ true
unfolding is_seen
drop_empty seen u h = ground arith

module _ (visits : ℕ → Option Visit) where
  -- What a value that was processed has left behind: what it pushes is on the stack or processed,
  -- and its kind is merged.
  abbrev pub IsSettled : List ℕ → List ℕ → PointerKind → Option Visit → Type 0
  IsSettled seen stack kind none = ⊥
  IsSettled seen stack kind (some stops) = ⊥
  IsSettled seen stack kind (some (merges pk)) = pk_value kind ≤ pk_value pk
  IsSettled seen stack kind (some (pushes values)) =
      (u : ℕ) → is_seen values u ≡ true → (is_seen seen u || is_seen stack u) ≡ true

  abbrev pub AreSettled : List ℕ → List ℕ → PointerKind → Type 0
  AreSettled seen stack kind =
      (s : ℕ) → is_seen seen s ≡ true → IsSettled seen stack kind (visits s)

  -- A value that stays settled when another is taken from the stack and processed.
  IsSettled-mono :
      (seen stack seen' stack' : List ℕ) (kind kind' : PointerKind) (o : Option Visit)
      → pk_value kind' ≤ pk_value kind
      → ((u : ℕ)
          → (is_seen seen u || is_seen stack u) ≡ true
          → (is_seen seen' u || is_seen stack' u) ≡ true)
      → IsSettled seen stack kind o
      → IsSettled seen' stack' kind' o
  IsSettled-mono seen stack seen' stack' kind kind' none h keep s = s
  IsSettled-mono seen stack seen' stack' kind kind' (some stops) h keep s = s
  IsSettled-mono seen stack seen' stack' kind kind' (some (merges pk)) h keep s = omega arith
  IsSettled-mono seen stack seen' stack' kind kind' (some (pushes values)) h keep s =
      λ u m. keep u (s u m)

  AreSettled-step :
      (node : ℕ) (seen stack stack' : List ℕ) (kind kind' : PointerKind)
      → pk_value kind' ≤ pk_value kind
      → ((u : ℕ) → is_seen stack u ≡ true → is_seen stack' u ≡ true)
      → AreSettled seen (node ∷ stack) kind
      → IsSettled (node ∷ seen) stack' kind' (visits node)
      → AreSettled (node ∷ seen) stack' kind'
  unfolding is_seen
  AreSettled-step node seen stack stack' kind kind' h keep settled now s m =
      elim (Bool-cases (node == s)) [
        | inl e ↦
            let same : node ≡ s = ground arith in
            subst (λ w. IsSettled (node ∷ seen) stack' kind' (visits w)) same now
        | inr ne ↦
            IsSettled-mono seen (node ∷ stack) (node ∷ seen) stack' kind kind' (visits s) h
              (λ u k. ground (arith, keep u)) (settled s (ground arith))
      ]

  -- What was settled at the end.
  abbrev pub Covers : ℕ → PointerResult → Type 0
  Covers v fatal = Unit {0}
  Covers v unfinished = Unit {0}
  Covers v (kind_of kind) = (seen : List ℕ) × (is_seen seen v ≡ true) × AreSettled seen [] kind

  pointer_loop-Covers :
      (v fuel : ℕ) (seen stack : List ℕ) (kind : PointerKind)
      → (is_seen seen v || is_seen stack v) ≡ true
      → AreSettled seen stack kind
      → Covers v (pointer_loop visits fuel seen stack kind)
  unfolding pointer_loop
  pointer_loop-Covers v zero seen stack kind at settled = tt
  pointer_loop-Covers v (suc fuel) seen [] kind at settled = (seen, ground arith, settled)
  pointer_loop-Covers v (suc fuel) seen (node ∷ stack) kind at settled =
      elim (Bool-cases (is_seen seen node)) [
        | inl old ↦
            rw (Covers, pointer_loop, old)
              (pointer_loop-Covers v fuel seen stack kind (pop_seen seen stack node old v at)
                (λ s m.
                  IsSettled-mono seen (node ∷ stack) seen stack kind kind (visits s) (omega arith)
                    (pop_seen seen stack node old) (settled s m)))
        | inr fresh ↦ elim (visit_cases (visits node)) [
          | inl e ↦ rw (Covers, pointer_loop, fresh, e) tt
          | inr (inl e) ↦ rw (Covers, pointer_loop, fresh, e) tt
          | inr (inr (inl (pk, e))) ↦
              rw (Covers, pointer_loop, fresh, e)
                (pointer_loop-Covers v fuel (node ∷ seen) stack (merge_pointer_kinds kind pk)
                  (ground arith)
                  (AreSettled-step node seen stack stack kind (merge_pointer_kinds kind pk)
                    (merge-le_left kind pk) (λ u m. m) settled (rw e (merge-le_right kind pk))))
          | inr (inr (inr (vs, e))) ↦
              rw (Covers, pointer_loop, fresh, e)
                (pointer_loop-Covers v fuel (node ∷ seen) (push_all vs stack) kind
                  (ground (arith, is_seen-push_all vs stack v))
                  (AreSettled-step node seen stack (push_all vs stack) kind kind (omega arith)
                    (λ u m. ground (arith, is_seen-push_all vs stack u)) settled
                    (rw e (λ u m. ground (arith, is_seen-push_all vs stack u)))))
        ]
      ]

  -- Once nothing is left on the stack, everything that is reached was processed.
  Feeds-seen :
      (v : ℕ) (seen : List ℕ) (kind : PointerKind)
      → is_seen seen v ≡ true
      → AreSettled seen [] kind
      → {u : ℕ} → Feeds visits v u
      → is_seen seen u ≡ true
  Feeds-seen v seen kind at settled (itself u e) = rw e at
  Feeds-seen v seen kind at settled (onward u w values fed e m) =
      let w_seen = Feeds-seen v seen kind at settled fed in
      let settled_w : IsSettled seen [] kind (some (pushes values)) =
        subst (IsSettled seen [] kind) e (settled w w_seen) in
      drop_empty seen u (settled_w u m)

  -- What is reached stays below the kind that is returned, and is no call.
  IsSettled-fed :
      (v : ℕ) (kind : PointerKind)
      → Covers v (kind_of kind)
      → {u : ℕ} → Feeds visits v u
      → (seen : List ℕ) × IsSettled seen [] kind (visits u)
  IsSettled-fed v kind (seen, at, settled) fed =
      (seen, settled _ (Feeds-seen v seen kind at settled fed))

none_settled :
    (visits : ℕ → Option Visit) (kind : PointerKind) (stack : List ℕ)
    → AreSettled visits [] stack kind
unfolding is_seen
none_settled visits kind stack s h = absurd (ground arith)

module _ (shape : ℕ → Node) (cast_fuel fuel value : ℕ) (is_kernel : Bool) where
  abbrev visits_of : ℕ → Option Visit
  visits_of = visit_value shape cast_fuel is_kernel

  result-Covers : Covers visits_of value (get_pointer_kind shape cast_fuel fuel value is_kernel)
  unfolding get_pointer_kind
  result-Covers =
      pointer_loop-Covers visits_of value fuel [] (value ∷ []) pk_uninitialized (ground arith)
        (none_settled visits_of pk_uninitialized (value ∷ []))

  -- When `getPointerKind` returns a kind, then the casts of what is reached end.
  pub fed_ends :
      (kind : PointerKind) (u : ℕ)
      → get_pointer_kind shape cast_fuel fuel value is_kernel ≡ kind_of kind
      → Feeds (visit_value shape cast_fuel is_kernel) value u
      → (node : Node) × (skip_casts shape cast_fuel u ≡ some node)
  unfolding visit_value
  fed_ends kind u e fed =
      let (seen, settled) =
        IsSettled-fed visits_of value kind (subst (Covers visits_of value) e result-Covers) fed in
      elim (Option-cases (skip_casts shape cast_fuel u)) [
        | inl endless ↦
            let nothing : visits_of u ≡ none = rw (visit_value, endless) refl in
            absurd (subst (IsSettled visits_of seen [] kind) nothing settled)
        | inr found ↦ found
      ]

  -- No kind that is merged is smaller.
  pub fed_kind-le :
      (kind pk : PointerKind) (u : ℕ)
      → get_pointer_kind shape cast_fuel fuel value is_kernel ≡ kind_of kind
      → Feeds (visit_value shape cast_fuel is_kernel) value u
      → visit_value shape cast_fuel is_kernel u ≡ some (merges pk)
      → pk_value kind ≤ pk_value pk
  fed_kind-le kind pk u e fed leaf =
      let covers = subst (Covers visits_of value) e result-Covers in
      let (seen, settled) = IsSettled-fed visits_of value kind covers fed in
      subst (IsSettled visits_of seen [] kind) leaf settled

  -- The kind that is returned was merged, if it is not the first one.
  pub fed_kind-attained :
      (kind : PointerKind)
      → get_pointer_kind shape cast_fuel fuel value is_kernel ≡ kind_of kind
      → (kind ≡ pk_uninitialized)
        ⊎ ((u : ℕ) × Feeds (visit_value shape cast_fuel is_kernel) value u
            × (visit_value shape cast_fuel is_kernel u ≡ some (merges kind)))
  unfolding get_pointer_kind
  fed_kind-attained kind e = subst (Justified visits_of value) e (
      pointer_loop-Justified visits_of value fuel [] (value ∷ []) pk_uninitialized
        (λ u m. itself u (ground arith)) (inl refl))

  -- `getPointerKind` ends, when every value is below a bound, what is pushed for it too, its casts
  -- end, and the fuel is more than the values that are pushed for all of them and one.
  pub get_pointer_kind-finishes :
      (n : ℕ)
      → IsClosed (visit_value shape cast_fuel is_kernel) n
      → value < n
      → pending (visit_value shape cast_fuel is_kernel) [] n + 1 < fuel
      → get_pointer_kind shape cast_fuel fuel value is_kernel ≢ unfinished
  unfolding get_pointer_kind
  get_pointer_kind-finishes n closed at enough =
      pointer_loop-finishes visits_of n fuel [] (value ∷ []) pk_uninitialized closed (at, tt)
        (omega arith)
