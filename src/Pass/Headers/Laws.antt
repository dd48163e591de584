-- ===== src/Pass/Headers/Laws.antt =====
-- Which headers and which calls a kernel is given, with and without debug info.
use mathlib.Core.List.{append_assoc, append-nil}
use t_espresso.Base.{
  ℕ, suc, ◌+◌, ◌<◌, ◌^◌, ◌≡◌, refl, ap₂, ◌∙◌, subst, Bool, true, false, some, List, [], ◌∷◌, ◌++◌,
  length, u32, arith, inl, inr, Option-cases,
}
use t_espresso.TraceIo.Types.{InstHeader}
use t_espresso.Pass.Access.{Instruction}
use t_espresso.Pass.Headers.{
  Inserted, trace_call, access_of, append_unless_missing, insert_call, instrument_accesses,
  instrument_mem_access,
}
use t_espresso.Pass.Headers.Step.{
  is_missing, pointer_of, access_header, access_headers, access_calls, stuck_calls, IsAccess,
  AreAccesses, AllLocated, progress, accesses_step,
}

-- With debug info everywhere each access has a header and a call with the same id.
accesses_located :
    (filtered : Bool) (insts : List Instruction) (headers : List InstHeader) (calls : List Inserted)
    (n : ℕ)
    → AreAccesses insts
    → AllLocated insts
    → n + length insts < 2 ^ 32
    → instrument_accesses filtered insts (progress false n headers calls)
      ≡ some (
          progress false
            (n + length insts)
            (headers ++ access_headers n insts)
            (calls ++ access_calls filtered n insts))
unfolding instrument_accesses
accesses_located filtered [] headers calls n accesses located fits =
    let e : n + 0 ≡ n = omega arith in rw (e, append-nil headers, append-nil calls) refl
accesses_located filtered (inst ∷ insts) headers calls n (access, accesses) (there, located) fits =
    let header = access_header n inst in
    let one = trace_call (some (pointer_of (access_of inst.op))) n filtered in
    let next : u32 (suc n) ≡ suc n = omega arith in
    let last : n + suc (length insts) ≡ suc n + length insts = omega arith in
    accesses_step filtered inst insts headers calls n access
    ∙ ap₂
        (λ b k.
          instrument_accesses filtered insts
            (progress b k (headers ++ (header ∷ [])) (calls ++ (one ∷ []))))
        there next
    ∙ accesses_located filtered insts (headers ++ (header ∷ [])) (calls ++ (one ∷ [])) (suc n)
        accesses located (omega arith)
    ∙ rw
        (
          last,
          append_assoc headers (header ∷ []) (access_headers (suc n) insts),
          append_assoc calls (one ∷ []) (access_calls filtered (suc n) insts),
        )
        refl

-- Once debug info was missing there are calls with one id, and no headers.
accesses_stuck :
    (filtered : Bool) (insts : List Instruction) (headers : List InstHeader) (calls : List Inserted)
    (n : ℕ)
    → AreAccesses insts
    → instrument_accesses filtered insts (progress true n headers calls)
      ≡ some (progress true n headers (calls ++ stuck_calls filtered n insts))
unfolding instrument_accesses insert_call append_unless_missing
accesses_stuck filtered [] headers calls n accesses = rw (append-nil calls) refl
accesses_stuck filtered (inst ∷ insts) headers calls n (access, accesses) =
    elim (Option-cases (access_of inst.op)) [
      | inl e ↦ absurd (subst IsAccess e access)
      | inr (pair, e) ↦
          let one = trace_call (some pair.0) n filtered in
          rw (instrument_accesses, e)
            (accesses_stuck filtered insts headers (calls ++ (one ∷ [])) n accesses
              ∙ rw (append_assoc calls (one ∷ []) (stuck_calls filtered n insts)) refl)
    ]

accesses_missing :
    (filtered : Bool) (good : List Instruction) (bad : Instruction) (rest : List Instruction)
    (headers : List InstHeader) (calls : List Inserted) (n : ℕ)
    → AreAccesses good
    → AllLocated good
    → IsAccess (access_of bad.op)
    → is_missing bad.debug ≡ true
    → AreAccesses rest
    → n + length good + 1 < 2 ^ 32
    → instrument_accesses filtered (good ++ (bad ∷ rest)) (progress false n headers calls)
      ≡ some (
          progress true (n + length good + 1) (headers ++ access_headers n (good ++ (bad ∷ []))) (
            calls
            ++ (access_calls filtered n (good ++ (bad ∷ []))
                ++ stuck_calls filtered (n + length good + 1) rest)))
accesses_missing filtered [] bad rest headers calls n accesses located access missing rests fits =
    let header = access_header n bad in
    let one = trace_call (some (pointer_of (access_of bad.op))) n filtered in
    let next : u32 (suc n) ≡ n + 0 + 1 = omega arith in
    accesses_step filtered bad rest headers calls n access
    ∙ ap₂
        (λ b k.
          instrument_accesses filtered rest
            (progress b k (headers ++ (header ∷ [])) (calls ++ (one ∷ []))))
        missing next
    ∙ accesses_stuck filtered rest (headers ++ (header ∷ [])) (calls ++ (one ∷ [])) (n + 0 + 1)
        rests
    ∙ rw (append_assoc calls (one ∷ []) (stuck_calls filtered (n + 0 + 1) rest)) refl
accesses_missing filtered (inst ∷ good) bad rest headers calls n (access₀, accesses)
      (there, located) access missing rests fits =
    let header = access_header n inst in
    let one = trace_call (some (pointer_of (access_of inst.op))) n filtered in
    let next : u32 (suc n) ≡ suc n = omega arith in
    let last : n + suc (length good) + 1 ≡ suc n + length good + 1 = omega arith in
    accesses_step filtered inst (good ++ (bad ∷ rest)) headers calls n access₀
    ∙ ap₂
        (λ b k.
          instrument_accesses filtered (good ++ (bad ∷ rest))
            (progress b k (headers ++ (header ∷ [])) (calls ++ (one ∷ []))))
        there next
    ∙ accesses_missing filtered good bad rest (headers ++ (header ∷ [])) (calls ++ (one ∷ []))
        (suc n) accesses located access missing rests (omega arith)
    ∙ rw
        (
          last,
          append_assoc headers (header ∷ []) (access_headers (suc n) (good ++ (bad ∷ []))),
          append_assoc calls (one ∷ []) (
              access_calls filtered (suc n) (good ++ (bad ∷ []))
              ++ stuck_calls filtered (suc n + length good + 1) rest),
        )
        refl

-- When all accesses have debug info, `instrumentMemAccess` adds for each a header and a call, in
-- their order and with the ids from 1 on, so that the id of a call is that of its header, and
-- finds nothing missing.
pub instrument_mem_access-located :
    (filtered : Bool) (insts : List Instruction)
    → AreAccesses insts
    → AllLocated insts
    → length insts + 1 < 2 ^ 32
    → instrument_mem_access filtered insts [] []
      ≡ some (
          progress false
            (1 + length insts)
            (access_headers 1 insts)
            (access_calls filtered 1 insts))
unfolding instrument_mem_access
instrument_mem_access-located filtered insts accesses located fits =
    accesses_located filtered insts [] [] 1 accesses located (omega arith)

-- When an access has no debug info, `instrumentMemAccess` adds headers up to this access only.
-- The calls of all accesses after it carry one id, which no header of an access has.
pub instrument_mem_access-missing :
    (filtered : Bool) (good : List Instruction) (bad : Instruction) (rest : List Instruction)
    → AreAccesses good
    → AllLocated good
    → IsAccess (access_of bad.op)
    → is_missing bad.debug ≡ true
    → AreAccesses rest
    → length good + 2 < 2 ^ 32
    → instrument_mem_access filtered (good ++ (bad ∷ rest)) [] []
      ≡ some (
          progress true (1 + length good + 1) (access_headers 1 (good ++ (bad ∷ []))) (
            access_calls filtered 1 (good ++ (bad ∷ []))
            ++ stuck_calls filtered (1 + length good + 1) rest))
unfolding instrument_mem_access
instrument_mem_access-missing filtered good bad rest accesses located access missing rests fits =
    accesses_missing filtered good bad rest [] [] 1 accesses located access missing rests
      (omega arith)
