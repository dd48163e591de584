-- ===== src/Pass/Headers/Scheduling.antt =====
-- The headers and calls of the start and the ends of a kernel.
use mathlib.Core.List.{append_assoc, append-nil}
use t_espresso.Base.{
  ℕ, suc, ◌+◌, ◌<◌, ◌^◌, ◌≡◌, refl, ap, ap₂, ◌∙◌, Bool, true, false, Option, none, some, List, [],
  ◌∷◌, ◌++◌, length, u32, arith,
}
use t_espresso.Record.{record_execute, record_return}
use t_espresso.TraceIo.Types.{InstHeader}
use t_espresso.Pass.Access.{DebugInfo, Instruction, is_return}
use t_espresso.Pass.Headers.{
  zero_inst, function, locate, append_inst_header, Inserted, trace_call, trace_ret_call,
  append_unless_missing, insert_call, no_meta, instrument_returns, instrument_scheduling,
}
use t_espresso.Pass.Headers.Step.{header_of, AllLocated, append_lem, progress}

-- The header of the start of a kernel.
abbrev pub execute_header : ℕ → Option DebugInfo → InstHeader
execute_header n none = record zero_inst { id = n; inst_type = record_execute; meta = no_meta }
execute_header n (some debug) =
    locate (record zero_inst { id = n; inst_type = record_execute; meta = no_meta }) debug 0

-- A header for each return instruction, with the ids from `n` on, and two calls.
abbrev pub return_headers : ℕ → List Instruction → List InstHeader
return_headers n [] = []
return_headers n (inst ∷ insts) =
    header_of n record_return no_meta inst.debug ∷ return_headers (suc n) insts

abbrev pub return_calls : Bool → ℕ → List Instruction → List Inserted
return_calls filtered n [] = []
return_calls filtered n (inst ∷ insts) =
    trace_call none n filtered ∷ (trace_ret_call ∷ return_calls filtered (suc n) insts)

abbrev pub AreReturns : List Instruction → Type 0
AreReturns [] = Unit {0}
AreReturns (inst ∷ insts) = (is_return inst.op ≡ true) × AreReturns insts

returns_located :
    (filtered : Bool) (insts : List Instruction) (headers : List InstHeader) (calls : List Inserted)
    (n : ℕ)
    → AreReturns insts
    → AllLocated insts
    → n + length insts < 2 ^ 32
    → instrument_returns filtered insts (progress false n headers calls)
      ≡ some (
          progress false
            (n + length insts)
            (headers ++ return_headers n insts)
            (calls ++ return_calls filtered n insts))
unfolding instrument_returns insert_call
returns_located filtered [] headers calls n returns located fits =
    let e : n + 0 ≡ n = omega arith in rw (e, append-nil headers, append-nil calls) refl
returns_located filtered (inst ∷ insts) headers calls n (is_ret, returns) (there, located) fits =
    let header = header_of n record_return no_meta inst.debug in
    let one = trace_call none n filtered in
    let calls' = (calls ++ (one ∷ [])) ++ (trace_ret_call ∷ []) in
    let next : u32 (suc n) ≡ suc n = omega arith in
    let last : n + suc (length insts) ≡ suc n + length insts = omega arith in
    rw (instrument_returns, is_ret)
      (ap (instrument_returns filtered insts)
          (append_lem (progress false n headers calls') inst.debug record_return no_meta refl)
        ∙ ap₂
            (λ b k.
              instrument_returns filtered insts (progress b k (headers ++ (header ∷ [])) calls'))
            there next
        ∙ returns_located filtered insts (headers ++ (header ∷ [])) calls' (suc n) returns located
            (omega arith)
        ∙ rw
            (
              last,
              append_assoc headers (header ∷ []) (return_headers (suc n) insts),
              append_assoc (calls ++ (one ∷ [])) (trace_ret_call ∷ [])
                  (return_calls filtered (suc n) insts),
              append_assoc calls (one ∷ []) (trace_ret_call ∷ return_calls filtered (suc n) insts),
            )
            refl)

append_function :
    (headers : List InstHeader) (calls : List Inserted) (n : ℕ) (debug : DebugInfo)
    → append_unless_missing
        (progress false n headers calls)
        (function (some debug))
        record_execute
        no_meta
      ≡ progress false (u32 (suc n)) (headers ++ (execute_header n (some debug) ∷ [])) calls
unfolding append_unless_missing append_inst_header
append_function headers calls n debug = refl

-- With debug info of the kernel and of its return instructions, `instrumentScheduling` adds one
-- header for the start of the kernel and one for each return, with the ids that follow the number
-- of the headers before them, and the calls with these ids.
pub instrument_scheduling-located :
    (filtered : Bool) (debug : DebugInfo) (retinsts : List Instruction) (headers : List InstHeader)
    (calls : List Inserted)
    → AreReturns retinsts
    → AllLocated retinsts
    → length headers + length retinsts + 2 < 2 ^ 32
    → let n = length headers + 1 in
      instrument_scheduling filtered (some debug) retinsts headers calls
      ≡ some (
          progress false
            (n + 1 + length retinsts)
            (headers ++ (execute_header n (some debug) ∷ return_headers (n + 1) retinsts))
            (calls ++ (trace_call none n filtered ∷ return_calls filtered (n + 1) retinsts)))
unfolding instrument_scheduling insert_call
instrument_scheduling-located filtered debug retinsts headers calls returns located fits =
    let n = length headers + 1 in
    let one = trace_call none n filtered in
    let header = execute_header n (some debug) in
    let cut : u32 n ≡ n = omega arith in
    let next : u32 (suc n) ≡ n + 1 = omega arith in
    ap
      (λ k. instrument_returns filtered retinsts (
        append_unless_missing
          (progress false k headers (calls ++ (trace_call none k filtered ∷ [])))
          (function (some debug)) record_execute no_meta))
      cut
    ∙ ap (instrument_returns filtered retinsts)
        (append_function headers (calls ++ (one ∷ [])) n debug)
    ∙ ap
        (λ k.
          instrument_returns filtered retinsts
            (progress false k (headers ++ (header ∷ [])) (calls ++ (one ∷ []))))
        next
    ∙ returns_located filtered retinsts (headers ++ (header ∷ [])) (calls ++ (one ∷ [])) (n + 1)
        returns located (omega arith)
    ∙ rw
        (
          append_assoc headers (header ∷ []) (return_headers (n + 1) retinsts),
          append_assoc calls (one ∷ []) (return_calls filtered (n + 1) retinsts),
        )
        refl
