-- ===== src/Pass/Pointer/Computed.antt =====
-- What the kind that `getPointerKind` returns says of the values that the address is computed from.
use t_espresso.Base.{ℕ, ◌≡◌, Bool, Option, some}
use t_espresso.Pass.Pointer.{Node, skip_casts, Visit, visit_value}
use t_espresso.Pass.Pointer.Kind.{Feeds}

module _ (shape : ℕ → Node) (cast_fuel fuel value : ℕ) (is_kernel : Bool) where
  abbrev visits_of : ℕ → Option Visit
  visits_of = visit_value shape cast_fuel is_kernel

  -- A value on the chain of casts of one that is processed.
  abbrev IsPassed : ℕ → Type 0
  IsPassed u =
      (w : ℕ) × (node : Node) × (rounds : ℕ) × Feeds visits_of value w
      × (skip_casts shape cast_fuel w ≡ some node)
      × (skip_casts shape rounds u ≡ some node)
