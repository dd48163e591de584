-- ===== src/Pass/Access.antt =====
-- What lib/InstrumentDevice.cpp collects of a kernel: `getKernelFunctions`,
-- `collectGlobalMemAccesses` and `collectReturnInst`. `kind_at` is `getPointerKind` with its
-- arguments but the address.
pub mod Global
pub mod Laws
unfoldable pub use t_espresso.Base.{starts_with}
use t_espresso.Base.{
  ℕ, zero, suc, Bool, true, false, ◌==◌, ◌&&◌, ◌||◌, not, if◌then◌else◌, Option, none, some, List,
  [], ◌∷◌, ◌++◌,
}
use t_espresso.Pass.Pointer.{
  Node, PointerKind, pk_other, pk_global, pk_uninitialized, PointerResult, fatal, unfinished,
  kind_of, get_pointer_kind,
}
use t_espresso.Pass.Kernels.{has, insert}

-- The debug location of an instruction or of a function: line, column and path.
pub record DebugInfo : Type 0 where
  pub line : ℕ
  pub column : ℕ
  pub path : List ℕ

-- What the chain of `dyn_cast`s asks of an instruction. The called function of a call is `none`
-- where the call is indirect; its name is a text.
pub data Op : Type 0 where
  load : ℕ → Op
  store : ℕ → Op
  atomic_rmw : ℕ → Op
  atomic_cmp_xchg : ℕ → Op
  call : Option (List ℕ) → ℕ → Op
  ret : Op
  other_op : Op

-- `access_size` is the store size of the type that the address points to.
pub record Instruction : Type 0 where
  pub op : Op
  pub access_size : ℕ
  pub debug : Option DebugInfo

-- `llvm.nvvm.atomic`, `llvm.` and `___cuprof_trace`
abbrev pub atomic_prefix : List ℕ
atomic_prefix =
    b'l' ∷ b'l' ∷ b'v' ∷ b'm' ∷ b'.' ∷ b'n' ∷ b'v' ∷ b'v' ∷ b'm' ∷ b'.' ∷ b'a' ∷ b't' ∷ b'o' ∷ b'm'
    ∷ b'i' ∷ b'c' ∷ []

abbrev pub llvm_prefix : List ℕ
llvm_prefix = b'l' ∷ b'l' ∷ b'v' ∷ b'm' ∷ b'.' ∷ []

abbrev pub trace_name : List ℕ
trace_name =
    b'_' ∷ b'_' ∷ b'_' ∷ b'c' ∷ b'u' ∷ b'p' ∷ b'r' ∷ b'o' ∷ b'f' ∷ b'_' ∷ b't' ∷ b'r' ∷ b'a' ∷ b'c'
    ∷ b'e' ∷ []

-- `StringRef::startswith`
unfoldable pub same_name : List ℕ → List ℕ → Bool
same_name [] [] = true
same_name [] (d ∷ ds) = false
same_name (c ∷ cs) [] = false
same_name (c ∷ cs) (d ∷ ds) = c == d && same_name cs ds

-- What the loop makes of one instruction: it goes on, takes a kind, or ends the compiler.
pub data Classified : Type 0 where
  skips : Classified
  has_kind : PointerResult → Classified
  dies : Classified

unfoldable pub classify_call : (ℕ → PointerResult) → List ℕ → ℕ → Classified
unfolding starts_with same_name
classify_call kind_at name operand =
    if starts_with name atomic_prefix
    then has_kind (kind_at operand)
    else (if same_name name trace_name
        then dies
        else (if not (starts_with name llvm_prefix) then dies else has_kind (kind_of pk_other)))

unfoldable pub classify : (ℕ → PointerResult) → Op → Classified
unfolding classify_call
classify kind_at (load pointer) = has_kind (kind_at pointer)
classify kind_at (store pointer) = has_kind (kind_at pointer)
classify kind_at (atomic_rmw pointer) = has_kind (kind_at pointer)
classify kind_at (atomic_cmp_xchg pointer) = has_kind (kind_at pointer)
classify kind_at (call none operand) = skips
classify kind_at (call (some name) operand) = classify_call kind_at name operand
classify kind_at ret = skips
classify kind_at other_op = skips

-- How an analysis ends: the compiler is ended by a fatal error, a loop is still running when its
-- fuel is spent, or a value is returned.
pub data Ending (A : Type 0) : Type 0 where
  refused : Ending A
  endless : Ending A
  ends : A → Ending A

-- `collectGlobalMemAccesses`, on the instructions of all blocks in their order, after those in
-- `result`.
unfoldable pub collect_block :
    (ℕ → PointerResult) → List Instruction → List Instruction → Ending (List Instruction)
unfolding classify
collect_block kind_at [] result = ends result
collect_block kind_at (inst ∷ insts) result = elim (classify kind_at inst.op) [
  | skips ↦ collect_block kind_at insts result
  | dies ↦ refused
  | has_kind fatal ↦ refused
  | has_kind unfinished ↦ endless
  | has_kind (kind_of pk_global) ↦ collect_block kind_at insts (result ++ (inst ∷ []))
  | has_kind (kind_of pk_other) ↦ collect_block kind_at insts result
  | has_kind (kind_of pk_uninitialized) ↦ collect_block kind_at insts result
]

unfoldable pub collect_blocks :
    (ℕ → PointerResult) → List (List Instruction) → List Instruction → Ending (List Instruction)
unfolding collect_block
collect_blocks kind_at [] result = ends result
collect_blocks kind_at (block ∷ blocks) result = elim (collect_block kind_at block result) [
  | refused ↦ refused
  | endless ↦ endless
  | ends result' ↦ collect_blocks kind_at blocks result'
]

-- `shape` gives the values of the kernel.
unfoldable pub collect_global_mem_accesses :
    (ℕ → Node) → ℕ → ℕ → List (List Instruction) → Ending (List Instruction)
unfolding collect_blocks get_pointer_kind
collect_global_mem_accesses shape cast_fuel fuel kernel =
    collect_blocks (λ pointer. get_pointer_kind shape cast_fuel fuel pointer true) kernel []

-- `isa<ReturnInst>`
unfoldable pub is_return : Op → Bool
is_return (load pointer) = false
is_return (store pointer) = false
is_return (atomic_rmw pointer) = false
is_return (atomic_cmp_xchg pointer) = false
is_return (call callee operand) = false
is_return ret = true
is_return other_op = false

unfoldable pub collect_returns_block : List Instruction → List Instruction → List Instruction
unfolding is_return
collect_returns_block [] result = result
collect_returns_block (inst ∷ insts) result =
    collect_returns_block insts (if is_return inst.op then result ++ (inst ∷ []) else result)

unfoldable pub collect_returns_blocks :
    List (List Instruction) → List Instruction → List Instruction
unfolding collect_returns_block
collect_returns_blocks [] result = result
collect_returns_blocks (block ∷ blocks) result =
    collect_returns_blocks blocks (collect_returns_block block result)

unfoldable pub collect_return_inst : List (List Instruction) → List Instruction
unfolding collect_returns_blocks
collect_return_inst kernel = collect_returns_blocks kernel []

-- `getKernelFunctions`: the functions among the operands of the annotations, `none` for any other
-- operand, in the set's order and each once.
unfoldable pub insert_kernel : List (Option ℕ) → List ℕ → List ℕ
unfolding has insert
insert_kernel [] kernels = kernels
insert_kernel (none ∷ operands) kernels = insert_kernel operands kernels
insert_kernel (some func ∷ operands) kernels =
    insert_kernel operands (if has kernels func then kernels else insert func kernels)

unfoldable pub get_kernel_nodes : List (List (Option ℕ)) → List ℕ → List ℕ
unfolding insert_kernel
get_kernel_nodes [] kernels = kernels
get_kernel_nodes (node ∷ nodes) kernels = get_kernel_nodes nodes (insert_kernel node kernels)

-- `none` is a module without the metadata.
unfoldable pub get_kernel_functions : Option (List (List (Option ℕ))) → List ℕ
unfolding get_kernel_nodes
get_kernel_functions none = []
get_kernel_functions (some nodes) = get_kernel_nodes nodes []
