-- ===== src/Pass/KernelTests.antt =====
-- A kernel at concrete values, its analysis and its instrumentation.
use t_espresso.Base.{
  ℕ, zero, suc, ◌+◌, ◌≡◌, ◌≢◌, refl, true, false, Option, none, some, List, [], ◌∷◌, arith,
}
use t_espresso.TraceIo.Types.{InstHeader}
use t_espresso.Pass.Options.{PassArgs}
use t_espresso.Pass.Pointer.{
  Node, bit_cast, alloca, argument, gep, phi, pk_other, other_node, pk_global, PointerResult,
  unfinished, visit_value, get_pointer_kind, is_seen,
}
use t_espresso.Pass.Pointer.Fuel.{IsClosed}
use t_espresso.Pass.Pointer.Least.{get_pointer_kind-finishes}
use t_espresso.Pass.Access.{
  DebugInfo, load, store, ret, Instruction, ends, collect_global_mem_accesses, is_return,
}
use t_espresso.Pass.Access.Global.{flatten, global_accesses, collect_global_mem_accesses_lem}
use t_espresso.Pass.Headers.{access_of, instrument_mem_access, instrument_scheduling, trace_call}
use t_espresso.Pass.Headers.Step.{progress, access_headers, access_calls}
use t_espresso.Pass.Headers.Laws.{instrument_mem_access-located}
use t_espresso.Pass.Headers.Scheduling.{
  execute_header, return_headers, return_calls, instrument_scheduling-located,
}
use t_espresso.Pass.Device.{Kernel}

-- A pointer that a loop moves on from a parameter: 0 is the phi of the parameter 1 and of 2, which
-- is 0 moved on.
abbrev moving : ℕ → Node
moving zero = phi (1 ∷ 2 ∷ [])
moving (suc zero) = argument
moving (suc (suc zero)) = gep 0
moving (suc (suc (suc n))) = other_node

-- A place behind a variable, or behind a parameter that is cast: 0 is the phi of 1 and 2.
abbrev chosen : ℕ → Node
chosen zero = phi (1 ∷ 2 ∷ [])
chosen (suc zero) = gep 3
chosen (suc (suc zero)) = bit_cast 4
chosen (suc (suc (suc zero))) = alloca
chosen (suc (suc (suc (suc zero)))) = argument
chosen (suc (suc (suc (suc (suc n))))) = other_node

moving-IsClosed : IsClosed (visit_value moving 1 true) 3
unfolding visit_value
moving-IsClosed zero h = (omega arith, (omega arith, tt))
moving-IsClosed (suc zero) h = tt
moving-IsClosed (suc (suc zero)) h = (omega arith, tt)
moving-IsClosed (suc (suc (suc n))) h = absurd (omega arith)

get_pointer_kind-finishes_example : get_pointer_kind moving 1 10 0 true ≢ unfinished
unfolding visit_value is_seen
get_pointer_kind-finishes_example =
    get_pointer_kind-finishes moving 1 10 0 true 3 moving-IsClosed (omega arith) (omega arith)

abbrev here : DebugInfo
here = record { line = 12; column = 3; path = b'a' ∷ b'.' ∷ b'c' ∷ b'u' ∷ [] }

abbrev read_it : Instruction
read_it = record { op = load 0; access_size = 4; debug = some here }

abbrev read_unlocated : Instruction
read_unlocated = record { op = load 0; access_size = 4; debug = none }

abbrev write_it : Instruction
write_it = record { op = store 0; access_size = 8; debug = some here }

abbrev leave : Instruction
leave = record { op = ret; access_size = 0; debug = some here }

abbrev two_blocks : List (List Instruction)
two_blocks = (read_it ∷ []) ∷ (write_it ∷ leave ∷ []) ∷ []

-- The addresses: 0 is a parameter, 1 a local variable.
abbrev two_values : ℕ → Node
two_values zero = argument
two_values (suc n) = alloca

abbrev keep_it : Instruction
keep_it = record { op = store 1; access_size = 8; debug = some here }

abbrev kinds_of : ℕ → PointerResult
kinds_of pointer = get_pointer_kind two_values 1 3 pointer true

abbrev read_and_write : List (List Instruction)
read_and_write = (read_it ∷ keep_it ∷ []) ∷ (write_it ∷ leave ∷ []) ∷ []

collect_global_mem_accesses_example :
    collect_global_mem_accesses two_values 1 3 read_and_write
    ≡ ends (global_accesses kinds_of (flatten read_and_write))
unfolding get_pointer_kind
collect_global_mem_accesses_example =
    collect_global_mem_accesses_lem two_values 1 3 read_and_write (
      (
        refl,
        (pk_global, refl),
        (refl, (pk_other, refl), (refl, (pk_global, refl), (refl, tt, tt))),
      ))

abbrev annotations : List (List (Option ℕ))
annotations = (some 7 ∷ none ∷ []) ∷ (some 3 ∷ []) ∷ (some 7 ∷ []) ∷ []

instrument_mem_access-located_example :
    instrument_mem_access false (read_it ∷ write_it ∷ []) [] []
    ≡ some (
        progress false
          (1 + 2)
          (access_headers 1 (read_it ∷ write_it ∷ []))
          (access_calls false 1 (read_it ∷ write_it ∷ [])))
unfolding access_of
instrument_mem_access-located_example =
    instrument_mem_access-located false (read_it ∷ write_it ∷ []) (tt, (tt, tt)) (refl, (refl, tt))
      (omega arith)

instrument_scheduling-located_example :
    instrument_scheduling true (some here) (leave ∷ []) [] []
    ≡ some (
        progress false
          (0 + 1 + 1 + 1)
          (execute_header (0 + 1) (some here) ∷ return_headers (0 + 1 + 1) (leave ∷ []))
          (trace_call none (0 + 1) true ∷ return_calls true (0 + 1 + 1) (leave ∷ [])))
unfolding is_return
instrument_scheduling-located_example =
    instrument_scheduling-located true here (leave ∷ []) [] [] (refl, tt) (refl, tt) (omega arith)

abbrev plain_args : PassArgs
plain_args = record {
  trace_thread = true;
  trace_mem = true;
  verbose = false;
  kernel = [];
  grid = [];
  cta = [];
  warpv = [];
  sm = 4 ∷ [];
  warpp = [];
}

abbrev add_kernel : Kernel
add_kernel = record { symbol = b'k' ∷ []; subprogram = none; blocks = two_blocks }

abbrev read_header : InstHeader
read_header = record {
  id = 1;
  inst_type = 0;
  meta = 4 ∷ 0 ∷ 0 ∷ 0 ∷ 0 ∷ [];
  row = 12;
  col = 3;
  filename_len = 4;
  filename = b'a' ∷ b'.' ∷ b'c' ∷ b'u' ∷ [];
}
