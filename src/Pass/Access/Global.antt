-- ===== src/Pass/Access/Global.antt =====
-- Which accesses `collectGlobalMemAccesses` returns.
use mathlib.Core.List.{append_assoc, append-nil}
use t_espresso.Base.{
  ℕ, ◌≡◌, refl, sym, ap, ◌∙◌, subst, Bool, true, false, not, if◌then◌else◌, Option, none, some,
  List, [], ◌∷◌, ◌++◌, arith, Bool-cases, inl, inr,
}
use t_espresso.Pass.Pointer.{
  Node, PointerKind, pk_other, pk_global, pk_uninitialized, PointerResult, fatal, unfinished,
  kind_of, get_pointer_kind,
}
use t_espresso.Pass.Access.{
  Op, load, store, atomic_rmw, atomic_cmp_xchg, call, ret, other_op, Instruction, starts_with,
  same_name, atomic_prefix, llvm_prefix, trace_name, Classified, skips, has_kind, dies, classify,
  classify_call, ends, collect_block, collect_blocks, collect_global_mem_accesses,
}

-- The instructions of all blocks.
abbrev pub flatten : List (List Instruction) → List Instruction
flatten [] = []
flatten (block ∷ blocks) = block ++ flatten blocks

-- The address that an instruction accesses. Of the intrinsics, the atomic ones do.
abbrev pub accessed : Op → Option ℕ
accessed (load pointer) = some pointer
accessed (store pointer) = some pointer
accessed (atomic_rmw pointer) = some pointer
accessed (atomic_cmp_xchg pointer) = some pointer
accessed (call none operand) = none
accessed (call (some name) operand) = if starts_with name atomic_prefix then some operand else none
accessed ret = none
accessed other_op = none

-- A call of a function that is no intrinsic.
abbrev pub is_foreign : Op → Bool
is_foreign (load pointer) = false
is_foreign (store pointer) = false
is_foreign (atomic_rmw pointer) = false
is_foreign (atomic_cmp_xchg pointer) = false
is_foreign (call none operand) = false
is_foreign (call (some name) operand) = not (starts_with name llvm_prefix)
is_foreign ret = false
is_foreign other_op = false

abbrev pub is_global : PointerKind → Bool
is_global pk_other = false
is_global pk_global = true
is_global pk_uninitialized = false

atomic_intrinsic :
    (name : List ℕ) → starts_with name atomic_prefix ≡ true → starts_with name llvm_prefix ≡ true
unfolding starts_with
atomic_intrinsic [] h = absurd (cc)
atomic_intrinsic (a ∷ []) h = absurd (ground arith)
atomic_intrinsic (a ∷ b ∷ []) h = absurd (ground arith)
atomic_intrinsic (a ∷ b ∷ c ∷ []) h = absurd (ground arith)
atomic_intrinsic (a ∷ b ∷ c ∷ d ∷ []) h = absurd (ground arith)
atomic_intrinsic (a ∷ b ∷ c ∷ d ∷ e ∷ name) h = ground arith

trace_foreign :
    (name : List ℕ) → same_name name trace_name ≡ true → starts_with name llvm_prefix ≡ false
unfolding starts_with same_name
trace_foreign [] h = refl
trace_foreign (a ∷ name) h = ground arith

module _ (kind_at : ℕ → PointerResult) where
  -- What an address says of its access.
  abbrev pub is_global_at : Option ℕ → Bool
  is_global_at none = false
  is_global_at (some pointer) = elim (kind_at pointer) [
    | fatal ↦ false
    | unfinished ↦ false
    | kind_of pk ↦ is_global pk
  ]

  -- The instructions that access the global memory.
  abbrev pub global_accesses : List Instruction → List Instruction
  global_accesses [] = []
  global_accesses (inst ∷ insts) =
      if is_global_at (accessed inst.op)
      then inst ∷ global_accesses insts
      else global_accesses insts

  abbrev pub HasKind : Option ℕ → Type 0
  HasKind none = Unit {0}
  HasKind (some pointer) = (pk : PointerKind) × (kind_at pointer ≡ kind_of pk)

  -- The instructions call no function but intrinsics, and `getPointerKind` returns a kind for what
  -- they access.
  abbrev pub AreKnown : List Instruction → Type 0
  AreKnown [] = Unit {0}
  AreKnown (inst ∷ insts) =
      (is_foreign inst.op ≡ false) × HasKind (accessed inst.op) × AreKnown insts

  abbrev Follows : Op → Classified → Type 0
  Follows op skips = is_global_at (accessed op) ≡ false
  Follows op dies = ⊥
  Follows op (has_kind fatal) = ⊥
  Follows op (has_kind unfinished) = ⊥
  Follows op (has_kind (kind_of pk)) = is_global_at (accessed op) ≡ is_global pk

  pointer_Follows :
      (op : Op) (pointer : ℕ)
      → accessed op ≡ some pointer
      → HasKind (some pointer)
      → Follows op (has_kind (kind_at pointer))
  pointer_Follows op pointer e (pk, found) =
      let at : is_global_at (some pointer) ≡ is_global pk = rw (is_global_at, found) refl in
      subst (λ r. Follows op (has_kind r)) (sym found) (ap is_global_at e ∙ at)

  classify-Follows :
      (op : Op) → is_foreign op ≡ false → HasKind (accessed op) → Follows op (classify kind_at op)
  unfolding classify classify_call
  classify-Follows (load pointer) known kind = pointer_Follows (load pointer) pointer refl kind
  classify-Follows (store pointer) known kind = pointer_Follows (store pointer) pointer refl kind
  classify-Follows (atomic_rmw pointer) known kind =
      pointer_Follows (atomic_rmw pointer) pointer refl kind
  classify-Follows (atomic_cmp_xchg pointer) known kind =
      pointer_Follows (atomic_cmp_xchg pointer) pointer refl kind
  classify-Follows (call none operand) known kind = refl
  classify-Follows (call (some name) operand) known kind =
      elim (Bool-cases (starts_with name atomic_prefix)) [
        | inl atomic ↦
            let at : accessed (call (some name) operand) ≡ some operand = rw atomic refl in
            rw (classify, classify_call, atomic)
              (pointer_Follows (call (some name) operand) operand at (subst HasKind at kind))
        | inr plain ↦ elim (Bool-cases (same_name name trace_name)) [
          | inl traced ↦ absurd (ground (arith, trace_foreign name traced))
          | inr fresh ↦
              let intrinsic : starts_with name llvm_prefix ≡ true = ground arith in
              let op = call (some name) operand in
              let nowhere : accessed op ≡ none = rw plain refl in
              let class : classify kind_at op ≡ has_kind (kind_of pk_other) =
                rw (classify, classify_call, plain, fresh, intrinsic) refl in
              subst (Follows op) (sym class) (ap is_global_at nowhere)
        ]
      ]
  classify-Follows ret known kind = refl
  classify-Follows other_op known kind = refl

  collect_block-known :
      (insts result : List Instruction)
      → AreKnown insts
      → collect_block kind_at insts result ≡ ends (result ++ global_accesses insts)
  unfolding collect_block
  collect_block-known [] result known = ap ends (sym (append-nil result))
  collect_block-known (inst ∷ insts) result (native, kind, known) =
      by_class (classify kind_at inst.op) refl (classify-Follows inst.op native kind)
        (λ r. collect_block-known insts r known)
    where
      by_class :
          (c : Classified)
          → classify kind_at inst.op ≡ c
          → Follows inst.op c
          → ((r : List Instruction)
              → collect_block kind_at insts r ≡ ends (r ++ global_accesses insts))
          → collect_block kind_at (inst ∷ insts) result
            ≡ ends (result ++ global_accesses (inst ∷ insts))
      by_class skips e follows rest = rw (collect_block, e, follows, rest result) refl
      by_class dies e follows rest = absurd follows
      by_class (has_kind fatal) e follows rest = absurd follows
      by_class (has_kind unfinished) e follows rest = absurd follows
      by_class (has_kind (kind_of pk_global)) e follows rest =
          rw
            (
              collect_block,
              e,
              follows,
              rest (result ++ (inst ∷ [])),
              append_assoc result (inst ∷ []) (global_accesses insts),
            )
            refl
      by_class (has_kind (kind_of pk_other)) e follows rest =
          rw (collect_block, e, follows, rest result) refl
      by_class (has_kind (kind_of pk_uninitialized)) e follows rest =
          rw (collect_block, e, follows, rest result) refl

  AreKnown-append_left : (xs ys : List Instruction) → AreKnown (xs ++ ys) → AreKnown xs
  AreKnown-append_left [] ys known = tt
  AreKnown-append_left (x ∷ xs) ys (native, kind, known) =
      (native, kind, AreKnown-append_left xs ys known)

  AreKnown-append_right : (xs ys : List Instruction) → AreKnown (xs ++ ys) → AreKnown ys
  AreKnown-append_right [] ys known = known
  AreKnown-append_right (x ∷ xs) ys (native, kind, known) = AreKnown-append_right xs ys known

  global_accesses-append :
      (xs ys : List Instruction)
      → global_accesses (xs ++ ys) ≡ global_accesses xs ++ global_accesses ys
  global_accesses-append [] ys = refl
  global_accesses-append (x ∷ xs) ys = elim (Bool-cases (is_global_at (accessed x.op))) [
    | inl e ↦ rw (e, global_accesses-append xs ys) refl
    | inr e ↦ rw (e, global_accesses-append xs ys) refl
  ]

  collect_blocks-known :
      (blocks : List (List Instruction)) (result : List Instruction)
      → AreKnown (flatten blocks)
      → collect_blocks kind_at blocks result ≡ ends (result ++ global_accesses (flatten blocks))
  unfolding collect_blocks
  collect_blocks-known [] result known = ap ends (sym (append-nil result))
  collect_blocks-known (block ∷ blocks) result known =
      rw
        (
          collect_blocks,
          collect_block-known block result (AreKnown-append_left block (flatten blocks) known),
          collect_blocks-known blocks (result ++ global_accesses block)
              (AreKnown-append_right block (flatten blocks) known),
          global_accesses-append block (flatten blocks),
          append_assoc result (global_accesses block) (global_accesses (flatten blocks)),
        )
        refl

-- If the instructions of a kernel call no function but intrinsics, and `getPointerKind` returns a
-- kind for what each of them accesses, then `collectGlobalMemAccesses` returns the loads, stores,
-- atomic instructions and calls of atomic intrinsics whose address has the kind `PK_GLOBAL`, all of
-- them and in their order.
pub collect_global_mem_accesses_lem :
    (shape : ℕ → Node) (cast_fuel fuel : ℕ) (kernel : List (List Instruction))
    → AreKnown (λ pointer. get_pointer_kind shape cast_fuel fuel pointer true) (flatten kernel)
    → collect_global_mem_accesses shape cast_fuel fuel kernel
      ≡ ends (
          global_accesses
            (λ pointer. get_pointer_kind shape cast_fuel fuel pointer true)
            (flatten kernel))
unfolding collect_global_mem_accesses
collect_global_mem_accesses_lem shape cast_fuel fuel kernel known =
    collect_blocks-known (λ pointer. get_pointer_kind shape cast_fuel fuel pointer true) kernel []
      known
