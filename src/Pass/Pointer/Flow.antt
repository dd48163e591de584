-- ===== src/Pass/Pointer/Flow.antt =====
-- The kind that `getPointerKind` returns, of the values that the address is computed from.
use mathlib.Core.Option.{some-injective}
use t_espresso.Base.{
  ℕ, zero, suc, ◌≤◌, ◌≡◌, refl, sym, ap, ◌∙◌, subst, Bool, true, false, if◌then◌else◌, none, some,
  List, [], ◌∷◌, ◌++◌, ◌==◌, Bool-cases, arith, Option-cases, inl, inr,
}
use t_espresso.Pass.Pointer.{
  Node, bit_cast, alloca, global_value, argument, gep, atomic_rmw, call, phi, other_node,
  PointerKind, pk_other, pk_global, pk_uninitialized, pk_value, is_seen, cast_operand, skip_casts,
  merges, pushes, visit,
}

-- The address that a value is computed from: the operand of a cast, of a getelementptr or of an
-- atomic operation, and each incoming value of a phi.
abbrev pub IsOperand : Node → ℕ → Type 0
IsOperand (bit_cast operand) u = operand ≡ u
IsOperand alloca u = ⊥
IsOperand global_value u = ⊥
IsOperand argument u = ⊥
IsOperand (gep operand) u = operand ≡ u
IsOperand (atomic_rmw operand) u = operand ≡ u
IsOperand call u = ⊥
IsOperand (phi incoming) u =
    (before : List ℕ) × (after : List ℕ) × (incoming ≡ before ++ (u ∷ after))
IsOperand other_node u = ⊥

-- The values that `v` is computed from, `v` among them.
pub data ComputedFrom (shape : ℕ → Node) (v : ℕ) : ℕ → Type 0 where
  start : (u : ℕ) → u ≡ v → ComputedFrom shape v u
  through : (u w : ℕ) → ComputedFrom shape v w → IsOperand (shape w) u → ComputedFrom shape v u

-- Where the memory at the address of such a value lies: a local variable is not in global memory, a
-- global variable is, and so is what a kernel gets as a parameter.
abbrev pub KindOf : Bool → Node → PointerKind → Type 0
KindOf is_kernel (bit_cast operand) pk = ⊥
KindOf is_kernel alloca pk = pk ≡ pk_other
KindOf is_kernel global_value pk = pk ≡ pk_global
KindOf is_kernel argument pk = pk ≡ (if is_kernel then pk_global else pk_other)
KindOf is_kernel (gep operand) pk = ⊥
KindOf is_kernel (atomic_rmw operand) pk = ⊥
KindOf is_kernel call pk = ⊥
KindOf is_kernel (phi incoming) pk = ⊥
KindOf is_kernel other_node pk = ⊥

merges_inj : (a b : PointerKind) → merges a ≡ merges b → a ≡ b
merges_inj a b e = cc

pushes_inj : (a b : List ℕ) → pushes a ≡ pushes b → a ≡ b
pushes_inj a b e = cc

-- None of them is uninitialized.
pub KindOf-small :
    (is_kernel : Bool) (node : Node) (pk : PointerKind)
    → KindOf is_kernel node pk
    → ¬ (pk_value pk_uninitialized ≤ pk_value pk)
KindOf-small is_kernel (bit_cast operand) pk h = absurd h
KindOf-small is_kernel alloca pk h = rw h (λ big. omega arith)
KindOf-small is_kernel global_value pk h = rw h (λ big. omega arith)
KindOf-small true argument pk h = rw h (λ big. omega arith)
KindOf-small false argument pk h = rw h (λ big. omega arith)
KindOf-small is_kernel (gep operand) pk h = absurd h
KindOf-small is_kernel (atomic_rmw operand) pk h = absurd h
KindOf-small is_kernel call pk h = absurd h
KindOf-small is_kernel (phi incoming) pk h = absurd h
KindOf-small is_kernel other_node pk h = absurd h

pub KindOf-visit :
    (is_kernel : Bool) (node : Node) (pk : PointerKind)
    → KindOf is_kernel node pk
    → (cast_operand node ≡ none) × (visit is_kernel node ≡ merges pk)
unfolding visit cast_operand
KindOf-visit is_kernel (bit_cast operand) pk h = absurd h
KindOf-visit is_kernel alloca pk h = (refl, rw h refl)
KindOf-visit is_kernel global_value pk h = (refl, rw h refl)
KindOf-visit is_kernel argument pk h = (refl, ap merges (sym h))
KindOf-visit is_kernel (gep operand) pk h = absurd h
KindOf-visit is_kernel (atomic_rmw operand) pk h = absurd h
KindOf-visit is_kernel call pk h = absurd h
KindOf-visit is_kernel (phi incoming) pk h = absurd h
KindOf-visit is_kernel other_node pk h = absurd h

pub visit-KindOf :
    (is_kernel : Bool) (node : Node) (pk : PointerKind)
    → visit is_kernel node ≡ merges pk
    → KindOf is_kernel node pk
unfolding visit
visit-KindOf is_kernel (bit_cast operand) pk e = absurd (cc)
visit-KindOf is_kernel alloca pk e = sym (merges_inj _ _ e)
visit-KindOf is_kernel global_value pk e = sym (merges_inj _ _ e)
visit-KindOf is_kernel argument pk e = sym (merges_inj _ _ e)
visit-KindOf is_kernel (gep operand) pk e = absurd (cc)
visit-KindOf is_kernel (atomic_rmw operand) pk e = absurd (cc)
visit-KindOf is_kernel call pk e = absurd (cc)
visit-KindOf is_kernel (phi incoming) pk e = absurd (cc)
visit-KindOf is_kernel other_node pk e = absurd (cc)

is_seen-there :
    (values : List ℕ) (u : ℕ)
    → is_seen values u ≡ true
    → (before : List ℕ) × (after : List ℕ) × (values ≡ before ++ (u ∷ after))
unfolding is_seen
is_seen-there [] u h = absurd (cc)
is_seen-there (v ∷ values) u h = elim (Bool-cases (v == u)) [
  | inl e ↦ let same : v ≡ u = ground arith in ([], values, rw same refl)
  | inr ne ↦
      let (before, after, at) = is_seen-there values u (ground arith) in
      (v ∷ before, after, ap (λ l. v ∷ l) at)
]

there-is_seen :
    (before : List ℕ) (u : ℕ) (after : List ℕ) → is_seen (before ++ (u ∷ after)) u ≡ true
unfolding is_seen
there-is_seen [] u after = ground arith
there-is_seen (v ∷ before) u after = ground (arith, there-is_seen before u after)

-- What is pushed is what the value is computed from.
pub pushed-IsOperand :
    (is_kernel : Bool) (node : Node) (values : List ℕ) (u : ℕ)
    → visit is_kernel node ≡ pushes values
    → is_seen values u ≡ true
    → IsOperand node u
unfolding visit is_seen
pushed-IsOperand is_kernel (bit_cast operand) values u e m = absurd (
    let m' : is_seen [] u ≡ true =
      subst (λ l. is_seen l u ≡ true) (sym (pushes_inj [] values e)) m in
    ground arith)
pushed-IsOperand is_kernel alloca values u e m = absurd (cc)
pushed-IsOperand is_kernel global_value values u e m = absurd (cc)
pushed-IsOperand is_kernel argument values u e m = absurd (cc)
pushed-IsOperand is_kernel (gep operand) values u e m =
    let m' : is_seen (operand ∷ []) u ≡ true =
      subst (λ l. is_seen l u ≡ true) (sym (pushes_inj (operand ∷ []) values e)) m in
    ground arith
pushed-IsOperand is_kernel (atomic_rmw operand) values u e m =
    let m' : is_seen (operand ∷ []) u ≡ true =
      subst (λ l. is_seen l u ≡ true) (sym (pushes_inj (operand ∷ []) values e)) m in
    ground arith
pushed-IsOperand is_kernel call values u e m = absurd (cc)
pushed-IsOperand is_kernel (phi incoming) values u e m =
    is_seen-there incoming u
      (subst (λ l. is_seen l u ≡ true) (sym (pushes_inj incoming values e)) m)
pushed-IsOperand is_kernel other_node values u e m = absurd (
    let m' : is_seen [] u ≡ true =
      subst (λ l. is_seen l u ≡ true) (sym (pushes_inj [] values e)) m in
    ground arith)

-- A value that is no cast pushes what it is computed from.
pub operand-pushed :
    (is_kernel : Bool) (node : Node) (u : ℕ)
    → cast_operand node ≡ none
    → IsOperand node u
    → (values : List ℕ) × (visit is_kernel node ≡ pushes values) × (is_seen values u ≡ true)
unfolding visit is_seen cast_operand
operand-pushed is_kernel (bit_cast operand) u c h = absurd (cc)
operand-pushed is_kernel alloca u c h = absurd h
operand-pushed is_kernel global_value u c h = absurd h
operand-pushed is_kernel argument u c h = absurd h
operand-pushed is_kernel (gep operand) u c h = (operand ∷ [], refl, ground arith)
operand-pushed is_kernel (atomic_rmw operand) u c h = (operand ∷ [], refl, ground arith)
operand-pushed is_kernel call u c h = absurd h
operand-pushed is_kernel (phi incoming) u c (before, after, at) =
    (incoming, refl, rw at (there-is_seen before u after))
operand-pushed is_kernel other_node u c h = absurd h

cast-IsOperand : (node : Node) (u : ℕ) → cast_operand node ≡ some u → IsOperand node u
unfolding cast_operand
cast-IsOperand (bit_cast operand) u e = some-injective operand u e
cast-IsOperand alloca u e = absurd (cc)
cast-IsOperand global_value u e = absurd (cc)
cast-IsOperand argument u e = absurd (cc)
cast-IsOperand (gep operand) u e = absurd (cc)
cast-IsOperand (atomic_rmw operand) u e = absurd (cc)
cast-IsOperand call u e = absurd (cc)
cast-IsOperand (phi incoming) u e = absurd (cc)
cast-IsOperand other_node u e = absurd (cc)

pub IsOperand-cast : (node : Node) (o u : ℕ) → cast_operand node ≡ some o → IsOperand node u → o ≡ u
unfolding cast_operand
IsOperand-cast (bit_cast operand) o u e h = sym (some-injective operand o e) ∙ h
IsOperand-cast alloca o u e h = absurd h
IsOperand-cast global_value o u e h = absurd h
IsOperand-cast argument o u e h = absurd h
IsOperand-cast (gep operand) o u e h = absurd (cc)
IsOperand-cast (atomic_rmw operand) o u e h = absurd (cc)
IsOperand-cast call o u e h = absurd h
IsOperand-cast (phi incoming) o u e h = absurd (cc)
IsOperand-cast other_node o u e h = absurd h

module _ (shape : ℕ → Node) where
  pub skip_casts-leaf :
      (fuel u : ℕ) (node : Node)
      → cast_operand (shape u) ≡ none
      → skip_casts shape fuel u ≡ some node
      → shape u ≡ node
  unfolding skip_casts
  skip_casts-leaf zero u node leaf e = absurd (cc)
  skip_casts-leaf (suc fuel) u node leaf e =
      let here : skip_casts shape (suc fuel) u ≡ some (shape u) = rw (skip_casts, leaf) refl in
      some-injective (shape u) node (sym here ∙ e)

  pub skip_casts-cast :
      (fuel u o : ℕ) (node : Node)
      → cast_operand (shape u) ≡ some o
      → skip_casts shape fuel u ≡ some node
      → (fuel' : ℕ) × (skip_casts shape fuel' o ≡ some node)
  unfolding skip_casts
  skip_casts-cast zero u o node cast e = absurd (cc)
  skip_casts-cast (suc fuel) u o node cast e =
      let here : skip_casts shape (suc fuel) u ≡ skip_casts shape fuel o =
        rw (skip_casts, cast) refl in
      (fuel, sym here ∙ e)

  -- The value that a chain of casts ends at.
  pub skip_casts-ComputedFrom :
      (v fuel w : ℕ) (node : Node)
      → ComputedFrom shape v w
      → skip_casts shape fuel w ≡ some node
      → (u : ℕ) × ComputedFrom shape v u × (shape u ≡ node)
  unfolding skip_casts
  skip_casts-ComputedFrom v zero w node computed e = absurd (cc)
  skip_casts-ComputedFrom v (suc fuel) w node computed e =
      elim (Option-cases (cast_operand (shape w))) [
        | inl leaf ↦ (w, computed, skip_casts-leaf (suc fuel) w node leaf e)
        | inr (o, cast) ↦
            let here : skip_casts shape (suc fuel) w ≡ skip_casts shape fuel o =
              rw (skip_casts, cast) refl in
            skip_casts-ComputedFrom v fuel o node
              (through o w computed (cast-IsOperand (shape w) o cast)) (sym here ∙ e)
      ]
