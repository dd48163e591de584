-- ===== src/Pass/Launches.antt =====
-- `findConfigureCalls`, `findLaunchFor`, `getCalledKernel` and `runOnModule` of
-- lib/LocateKCalls.cpp. A basic block is a number, and `blocks` gives what is in it.
pub mod Blocks
pub mod Laws
use t_espresso.Base.{
  ℕ, zero, suc, Bool, true, false, not, ◌&&◌, if◌then◌else◌, Option, none, some, List, [], ◌∷◌,
  ◌++◌,
}
use t_espresso.Pass.Access.{starts_with, same_name}

-- A function, with its name; `none` has no name.
pub record Function : Type 0 where
  pub address : ℕ
  pub name : Option (List ℕ)

-- The function that is called (`none` is a call through a pointer), and of each argument, without
-- its casts, the function that it is.
pub record CallSite : Type 0 where
  pub callee : Option Function
  pub args : List (Option Function)

pub data Inst : Type 0 where
  call : CallSite → Inst
  invoke : CallSite → Inst
  other : Inst

-- `successors` are those of a branch at the end of the block, `none` for another terminator.
pub record Block : Type 0 where
  pub name : List ℕ
  pub insts : List Inst
  pub successors : Option (List ℕ)

abbrev pub configok_prefix : List ℕ
configok_prefix =
    b'k' ∷ b'c' ∷ b'a' ∷ b'l' ∷ b'l' ∷ b'.' ∷ b'c' ∷ b'o' ∷ b'n' ∷ b'f' ∷ b'i' ∷ b'g' ∷ b'o' ∷ b'k'
    ∷ []

abbrev pub setup_next_prefix : List ℕ
setup_next_prefix = b's' ∷ b'e' ∷ b't' ∷ b'u' ∷ b'p' ∷ b'.' ∷ b'n' ∷ b'e' ∷ b'x' ∷ b't' ∷ []

abbrev pub cuda_launch_func_name : List ℕ
cuda_launch_func_name =
    b'c' ∷ b'u' ∷ b'd' ∷ b'a' ∷ b'L' ∷ b'a' ∷ b'u' ∷ b'n' ∷ b'c' ∷ b'h' ∷ b'K' ∷ b'e' ∷ b'r' ∷ b'n'
    ∷ b'e' ∷ b'l' ∷ []

-- A user of the configuring function: the block of a call, `none` for another user.
unfoldable pub find_configure_calls : Option (List (Option ℕ)) → List ℕ
find_configure_calls none = []
find_configure_calls (some []) = []
find_configure_calls (some (none ∷ users)) = find_configure_calls (some users)
find_configure_calls (some (some b ∷ users)) = b ∷ find_configure_calls (some users)

-- The first successor whose name starts with `prefix`.
unfoldable pub find_successor : (ℕ → Block) → List ℕ → List ℕ → Option ℕ
find_successor blocks prefix [] = none
find_successor blocks prefix (b ∷ bs) =
    if starts_with (blocks b).name prefix then some b else find_successor blocks prefix bs

-- The successor of block `b` by name, `none` also where the block ends in no branch.
unfoldable pub next_block : (ℕ → Block) → List ℕ → ℕ → Option ℕ
next_block blocks prefix b = elim (blocks b).successors [
  | none ↦ none
  | some bs ↦ find_successor blocks prefix bs
]

-- The loop that follows blocks named setup.next; `none` is more rounds than `fuel`.
unfoldable pub follow : ℕ → (ℕ → Block) → ℕ → Option ℕ
follow zero blocks candidate = none
follow (suc fuel) blocks candidate = elim (next_block blocks setup_next_prefix candidate) [
  | none ↦ some candidate
  | some next ↦ follow fuel blocks next
]

-- The last call or invoke, which the loop from `rbegin` finds first.
unfoldable pub last_call : List Inst → Option Inst
last_call [] = none
last_call (inst ∷ insts) = elim (last_call insts) [
  | some found ↦ some found
  | none ↦ elim inst [ call c ↦ some (call c) | invoke c ↦ some (invoke c) | other ↦ none ]
]

-- `configure` is the block of the configuring call. The outer `none` is a loop that does not end
-- within `fuel` rounds, the inner one `nullptr`.
unfoldable pub find_launch_for : ℕ → (ℕ → Block) → ℕ → Option (Option Inst)
find_launch_for fuel blocks configure = elim (next_block blocks configok_prefix configure) [
  | none ↦ some none
  | some candidate ↦ elim (follow fuel blocks candidate) [
    | none ↦ none
    | some c ↦ some (last_call (blocks c).insts)
  ]
]

-- What `getCalledKernel` ends in: a use of a null pointer, `nullptr`, or a function.
pub data Called : Type 0 where
  fault : Called
  null : Called
  kernel : Function → Called

-- The first argument, which must be there.
unfoldable pub called_by_argument : List (Option Function) → Called
called_by_argument [] = fault
called_by_argument (none ∷ args) = null
called_by_argument (some f ∷ args) = elim f.name [ none ↦ null | some name ↦ kernel f ]

unfoldable pub called_at : CallSite → Called
called_at site = elim site.callee [
  | none ↦ fault
  | some f ↦ elim f.name [
    | none ↦ called_by_argument site.args
    | some name ↦
        if not (same_name name cuda_launch_func_name)
        then kernel f
        else called_by_argument site.args
  ]
]

unfoldable pub get_called_kernel : Option Inst → Called
get_called_kernel none = null
get_called_kernel (some (call site)) = called_at site
get_called_kernel (some (invoke site)) = called_at site
get_called_kernel (some other) = null

-- `KCall`
pub record KernelCall : Type 0 where
  pub configure_call : ℕ
  pub kernel_launch : Option Inst
  pub kernel_obj : Option Function

-- What `runOnModule` ends in: it does not end, uses a null pointer, or leaves `launch_list`.
pub data Located : Type 0 where
  endless : Located
  faulty : Located
  located : List KernelCall → Located

unfoldable pub locate_one : ℕ → (ℕ → Block) → ℕ → Located
locate_one fuel blocks configure = elim (find_launch_for fuel blocks configure) [
  | none ↦ endless
  | some launch ↦ elim (get_called_kernel launch) [
    | fault ↦ faulty
    | null ↦
        located
          (record { configure_call = configure; kernel_launch = launch; kernel_obj = none } ∷ [])
    | kernel f ↦
        located
          (record { configure_call = configure; kernel_launch = launch; kernel_obj = some f } ∷ [])
  ]
]

unfoldable pub locate_calls : ℕ → (ℕ → Block) → List ℕ → List KernelCall → Located
locate_calls fuel blocks [] launch_list = located launch_list
locate_calls fuel blocks (configure ∷ calls) launch_list = elim (locate_one fuel blocks configure) [
  | endless ↦ endless
  | faulty ↦ faulty
  | located found ↦ locate_calls fuel blocks calls (launch_list ++ found)
]
