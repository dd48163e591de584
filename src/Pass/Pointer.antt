-- ===== src/Pass/Pointer.antt =====
-- `getPointerKind` of lib/InstrumentDevice.cpp: where the memory that an address is computed from
-- lies. A value is a number, and the module's function from values to what they are is a
-- parameter, since a value may be reached from itself.
pub mod Fuel
pub mod Kind
pub mod Least
pub mod Flow
pub mod Computed
use t_espresso.Base.{
  ℕ, zero, suc, Bool, true, false, ◌||◌, ◌==◌, if◌then◌else◌, Option, none, some, List, [], ◌∷◌,
  ◌++◌,
}

-- What the chain of `dyn_cast`s asks of a value.
pub data Node : Type 0 where
  bit_cast : ℕ → Node
  alloca : Node
  global_value : Node
  argument : Node
  gep : ℕ → Node
  atomic_rmw : ℕ → Node
  call : Node
  phi : List ℕ → Node
  other_node : Node

pub data PointerKind : Type 0 where
  pk_other : PointerKind
  pk_global : PointerKind
  pk_uninitialized : PointerKind

-- The value of the enumerator.
abbrev pub pk_value : PointerKind → ℕ
pk_value pk_other = 0
pk_value pk_global = 1
pk_value pk_uninitialized = 2

unfoldable pub merge_pointer_kinds : PointerKind → PointerKind → PointerKind
merge_pointer_kinds pk_other pk2 = pk_other
merge_pointer_kinds pk_global pk_other = pk_other
merge_pointer_kinds pk_global pk_global = pk_global
merge_pointer_kinds pk_global pk_uninitialized = pk_global
merge_pointer_kinds pk_uninitialized pk2 = pk2

-- A fatal error, a loop that is still running when the fuel is spent, or a kind.
pub data PointerResult : Type 0 where
  fatal : PointerResult
  unfinished : PointerResult
  kind_of : PointerKind → PointerResult

-- `seen.count(node) > 0`
unfoldable pub is_seen : List ℕ → ℕ → Bool
is_seen [] node = false
is_seen (s ∷ seen) node = s == node || is_seen seen node

unfoldable pub cast_operand : Node → Option ℕ
cast_operand (bit_cast operand) = some operand
cast_operand alloca = none
cast_operand global_value = none
cast_operand argument = none
cast_operand (gep operand) = none
cast_operand (atomic_rmw operand) = none
cast_operand call = none
cast_operand (phi incoming) = none
cast_operand other_node = none

-- The loop that skips casts; `none` when the fuel is spent.
unfoldable pub skip_casts : (ℕ → Node) → ℕ → ℕ → Option Node
unfolding cast_operand
skip_casts shape zero node = none
skip_casts shape (suc fuel) node = elim (cast_operand (shape node)) [
  | none ↦ some (shape node)
  | some operand ↦ skip_casts shape fuel operand
]

-- What a node is processed to: a kind that is merged, values that are pushed, or a fatal error.
pub data Visit : Type 0 where
  merges : PointerKind → Visit
  pushes : List ℕ → Visit
  stops : Visit

unfoldable pub visit : Bool → Node → Visit
visit is_kernel (bit_cast operand) = pushes []
visit is_kernel alloca = merges pk_other
visit is_kernel global_value = merges pk_global
visit is_kernel argument = merges (if is_kernel then pk_global else pk_other)
visit is_kernel (gep operand) = pushes (operand ∷ [])
visit is_kernel (atomic_rmw operand) = pushes (operand ∷ [])
visit is_kernel call = stops
visit is_kernel (phi incoming) = pushes incoming
visit is_kernel other_node = pushes []

-- Values pushed one after the other; the top of the stack is the head.
unfoldable pub push_all : List ℕ → List ℕ → List ℕ
push_all [] stack = stack
push_all (v ∷ vs) stack = push_all vs (v ∷ stack)

-- The node at a value, its casts skipped, processed.
unfoldable pub visit_value : (ℕ → Node) → ℕ → Bool → ℕ → Option Visit
unfolding skip_casts visit
visit_value shape cast_fuel is_kernel value = elim (skip_casts shape cast_fuel value) [
  | none ↦ none
  | some node ↦ some (visit is_kernel node)
]

-- The loop over the stack.
unfoldable pub pointer_loop : (ℕ → Option Visit) → ℕ → List ℕ → List ℕ → PointerKind → PointerResult
unfolding is_seen merge_pointer_kinds push_all
pointer_loop visits zero seen stack kind = unfinished
pointer_loop visits (suc fuel) seen [] kind = kind_of kind
pointer_loop visits (suc fuel) seen (node ∷ stack) kind = elim (is_seen seen node) [
  | true ↦ pointer_loop visits fuel seen stack kind
  | false ↦ elim (visits node) [
    | none ↦ unfinished
    | some (merges pk) ↦ pointer_loop visits fuel (node ∷ seen) stack (merge_pointer_kinds kind pk)
    | some (pushes values) ↦ pointer_loop visits fuel (node ∷ seen) (push_all values stack) kind
    | some stops ↦ fatal
  ]
]

unfoldable pub get_pointer_kind : (ℕ → Node) → ℕ → ℕ → ℕ → Bool → PointerResult
unfolding visit_value pointer_loop
get_pointer_kind shape cast_fuel fuel value is_kernel =
    pointer_loop (visit_value shape cast_fuel is_kernel) fuel [] (value ∷ []) pk_uninitialized
