-- ===== src/Pass/Access/Laws.antt =====
-- The returns that are collected of a kernel, and the functions of the annotations of a module.
use mathlib.Core.List.{append_assoc, append-nil}
use t_espresso.Base.{
  ℕ, ◌≡◌, refl, sym, Bool, true, false, ◌==◌, ◌||◌, if◌then◌else◌, Option, none, some, List, [],
  ◌∷◌, ◌++◌, arith, Bool-cases, inl, inr,
}
use t_espresso.Pass.Kernels.{has, insert}
use t_espresso.Pass.Kernels.Laws.{has-insert, insert-IsSorted, IsSorted, known_lem, assoc_or}
use t_espresso.Pass.Access.Global.{flatten}
use t_espresso.Pass.Access.{
  Instruction, is_return, collect_returns_block, collect_returns_blocks, collect_return_inst,
  insert_kernel, get_kernel_nodes, get_kernel_functions,
}

abbrev pub returns : List Instruction → List Instruction
returns [] = []
returns (inst ∷ insts) = if is_return inst.op then inst ∷ returns insts else returns insts

collect_returns_block_lem :
    (insts result : List Instruction) → collect_returns_block insts result ≡ result ++ returns insts
unfolding collect_returns_block
collect_returns_block_lem [] result = sym (append-nil result)
collect_returns_block_lem (inst ∷ insts) result = elim (Bool-cases (is_return inst.op)) [
  | inl e ↦
      rw
        (
          e,
          collect_returns_block_lem insts (result ++ (inst ∷ [])),
          append_assoc result (inst ∷ []) (returns insts),
        )
        refl
  | inr e ↦ rw (e, collect_returns_block_lem insts result) refl
]

returns-append : (xs ys : List Instruction) → returns (xs ++ ys) ≡ returns xs ++ returns ys
returns-append [] ys = refl
returns-append (x ∷ xs) ys = elim (Bool-cases (is_return x.op)) [
  | inl e ↦ rw (e, returns-append xs ys) refl
  | inr e ↦ rw (e, returns-append xs ys) refl
]

collect_returns_blocks_lem :
    (blocks : List (List Instruction)) (result : List Instruction)
    → collect_returns_blocks blocks result ≡ result ++ returns (flatten blocks)
unfolding collect_returns_blocks
collect_returns_blocks_lem [] result = sym (append-nil result)
collect_returns_blocks_lem (block ∷ blocks) result =
    rw
      (
        collect_returns_blocks_lem blocks (collect_returns_block block result),
        collect_returns_block_lem block result,
        returns-append block (flatten blocks),
        append_assoc result (returns block) (returns (flatten blocks)),
      )
      refl

-- `collectReturnInst` returns the return instructions of the kernel in their order.
pub collect_return_inst_lem :
    (kernel : List (List Instruction)) → collect_return_inst kernel ≡ returns (flatten kernel)
unfolding collect_return_inst
collect_return_inst_lem kernel = collect_returns_blocks_lem kernel []

-- Whether a function is among the operands.
abbrev pub names : List (Option ℕ) → ℕ → Bool
names [] f = false
names (none ∷ operands) f = names operands f
names (some func ∷ operands) f = (func == f) || names operands f

abbrev pub annotates : List (List (Option ℕ)) → ℕ → Bool
annotates [] f = false
annotates (node ∷ nodes) f = names node f || annotates nodes f

join_or : (a b c : Bool) → ((a || b) || c) ≡ (b || (a || c))
join_or true true c = refl
join_or true false c = refl
join_or false b c = refl

has-insert_kernel :
    (operands : List (Option ℕ)) (kernels : List ℕ) (f : ℕ)
    → has (insert_kernel operands kernels) f ≡ (has kernels f || names operands f)
unfolding insert_kernel
has-insert_kernel [] kernels f = ground arith
has-insert_kernel (none ∷ operands) kernels f = has-insert_kernel operands kernels f
has-insert_kernel (some func ∷ operands) kernels f = elim (Bool-cases (has kernels func)) [
  | inl known ↦
      rw (known, has-insert_kernel operands kernels f)
        (known_lem kernels func f (names operands f) known)
  | inr fresh ↦
      rw (fresh, has-insert_kernel operands (insert func kernels) f, has-insert func kernels f)
        (join_or (func == f) (has kernels f) (names operands f))
]

has-get_kernel_nodes :
    (nodes : List (List (Option ℕ))) (kernels : List ℕ) (f : ℕ)
    → has (get_kernel_nodes nodes kernels) f ≡ (has kernels f || annotates nodes f)
unfolding get_kernel_nodes
has-get_kernel_nodes [] kernels f = ground arith
has-get_kernel_nodes (node ∷ nodes) kernels f =
    rw (has-get_kernel_nodes nodes (insert_kernel node kernels) f, has-insert_kernel node kernels f)
      (assoc_or (has kernels f) (names node f) (annotates nodes f))

insert_kernel-IsSorted :
    (operands : List (Option ℕ)) (kernels : List ℕ)
    → IsSorted kernels
    → IsSorted (insert_kernel operands kernels)
unfolding insert_kernel
insert_kernel-IsSorted [] kernels h = h
insert_kernel-IsSorted (none ∷ operands) kernels h = insert_kernel-IsSorted operands kernels h
insert_kernel-IsSorted (some func ∷ operands) kernels h = elim (Bool-cases (has kernels func)) [
  | inl known ↦ rw known (insert_kernel-IsSorted operands kernels h)
  | inr fresh ↦
      rw fresh
        (insert_kernel-IsSorted operands (insert func kernels) (insert-IsSorted func kernels h))
]

get_kernel_nodes-IsSorted :
    (nodes : List (List (Option ℕ))) (kernels : List ℕ)
    → IsSorted kernels
    → IsSorted (get_kernel_nodes nodes kernels)
unfolding get_kernel_nodes
get_kernel_nodes-IsSorted [] kernels h = h
get_kernel_nodes-IsSorted (node ∷ nodes) kernels h =
    get_kernel_nodes-IsSorted nodes (insert_kernel node kernels)
      (insert_kernel-IsSorted node kernels h)

-- `getKernelFunctions` returns the functions that the annotations name, in the order of their
-- addresses.
pub get_kernel_functions_lem :
    (nodes : List (List (Option ℕ))) (f : ℕ)
    → (has (get_kernel_functions (some nodes)) f ≡ annotates nodes f)
      × IsSorted (get_kernel_functions (some nodes))
unfolding get_kernel_functions has
get_kernel_functions_lem nodes f =
    (has-get_kernel_nodes nodes [] f, get_kernel_nodes-IsSorted nodes [] tt)
