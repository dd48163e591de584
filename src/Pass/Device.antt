-- ===== src/Pass/Device.antt =====
-- `runOnModule` of lib/InstrumentDevice.cpp with `setKernelHeader`, the slot that `setupTraceInfo`
-- gives a CTA, and `isKernelToBeTraced` of lib/PassCommon.h.
pub mod Data
use t_espresso.Base.{
  ℕ, zero, suc, ◌+◌, ◌-◌, ◌*◌, Bool, true, false, ◌&&◌, ◌||◌, not, ltb, if◌then◌else◌, Option, none,
  some, List, [], ◌∷◌, ◌++◌, length, take, replicate, min, u8, u32, bit_and,
}
use t_espresso.Record.{slots_per_dev, cacheline, slot_size}
use t_espresso.TraceIo.Types.{InstHeader, KernelHeader, trace_kernelname_maxlen}
use t_espresso.TraceIo.Header.{Serialized, fault, null, done, header_serialize}
use t_espresso.Pass.Options.{PassArgs}
use t_espresso.Pass.Pointer.{Node}
use t_espresso.Pass.Access.{
  DebugInfo, Instruction, Ending, refused, endless, ends, same_name, collect_global_mem_accesses,
  collect_return_inst,
}
use t_espresso.Pass.Headers.{
  zero_inst, Inserted, Progress, is_filtered, instrument_mem_access, instrument_scheduling,
}

-- A kernel: its symbol, the name and the place in its debug info, and its blocks.
pub record Kernel : Type 0 where
  pub symbol : List ℕ
  pub subprogram : Option (List ℕ × DebugInfo)
  pub blocks : List (List Instruction)

unfoldable pub has_name : List (List ℕ) → List ℕ → Bool
unfolding same_name
has_name [] name = false
has_name (f ∷ filter_list) name = same_name f name || has_name filter_list name

-- `kernel_name_orig`
unfoldable pub original_name : Kernel → List ℕ
original_name k = elim k.subprogram [ none ↦ [] | some (name, place) ↦ name ]

unfoldable pub is_kernel_to_be_traced : Kernel → List (List ℕ) → Bool
unfolding has_name original_name
is_kernel_to_be_traced k filter_list =
    if not (has_name filter_list k.symbol) && not (has_name filter_list (original_name k))
    then false
    else true

-- The offsets of the counters and of the records of the slot that a CTA uses.
unfoldable pub slot_offsets : ℕ → ℕ × ℕ
slot_offsets cta_i =
    let slot = bit_and cta_i (slots_per_dev - 1) in (u32 (slot * cacheline), u32 (slot * slot_size))

-- The header that `setKernelHeader` builds. The name's length is cut to a byte.
unfoldable pub kernel_header : List ℕ → List InstHeader → KernelHeader
kernel_header kernel_name inst_debugdata =
    let kernel_name_len = u8 (min (length kernel_name) trace_kernelname_maxlen) in
    record {
      insts_count = u32 (length inst_debugdata);
      kernel_name_len = kernel_name_len;
      kernel_name =
          take kernel_name_len kernel_name
          ++ replicate (trace_kernelname_maxlen - kernel_name_len) 0;
      insts = zero_inst ∷ inst_debugdata;
    }

-- The bytes that become the value of the kernel's global variable.
unfoldable pub set_kernel_header : (ℕ → Bool) → List ℕ → List InstHeader → Serialized
unfolding kernel_header
set_kernel_header grants kernel_name inst_debugdata =
    header_serialize grants (some (kernel_header kernel_name inst_debugdata))

-- What a kernel becomes: the calls added to it, and the value of its global variable.
pub record Instrumented : Type 0 where
  pub symbol : List ℕ
  pub inst_headers : List InstHeader
  pub inserted : List Inserted
  pub header_bytes : List ℕ

-- `if (args.trace_mem)` and `if (args.trace_thread)` on a kernel that is not filtered out, whose
-- values `shape` gives.
unfoldable pub instrument_mem_if :
    PassArgs → (ℕ → Node) → ℕ → ℕ → Kernel → Ending (List InstHeader × List Inserted)
unfolding is_filtered
instrument_mem_if args shape cast_fuel fuel k =
    elim (collect_global_mem_accesses shape cast_fuel fuel k.blocks) [
      | refused ↦ refused
      | endless ↦ endless
      | ends accesses ↦ elim args.trace_mem [
        | false ↦ ends ([], [])
        | true ↦ elim (instrument_mem_access (is_filtered args) accesses [] []) [
          | none ↦ refused
          | some p ↦ ends (p.inst_headers, p.inserted)
        ]
      ]
    ]

unfoldable pub instrument_thread_if :
    PassArgs → Kernel → List InstHeader → List Inserted → Option (List InstHeader × List Inserted)
unfolding is_filtered
instrument_thread_if args k inst_headers inserted = elim args.trace_thread [
  | false ↦ some (inst_headers, inserted)
  | true ↦
      elim (instrument_scheduling (is_filtered args)
        (elim k.subprogram [ none ↦ none | some (name, place) ↦ some place ])
        (collect_return_inst k.blocks) inst_headers inserted) [
          | none ↦ none
          | some p ↦ some (p.inst_headers, p.inserted)
        ]
]

-- Where `header_serialize` faults the compiler ends, and where it has no memory the source goes on
-- with a null pointer and a size that is not set, which is taken to end the compiler too.
unfoldable pub instrument_kernel :
    (ℕ → Bool) → PassArgs → (ℕ → Node) → ℕ → ℕ → Kernel → Ending Instrumented
unfolding instrument_mem_if instrument_thread_if set_kernel_header
instrument_kernel grants args shape cast_fuel fuel k =
    elim (instrument_mem_if args shape cast_fuel fuel k) [
      | refused ↦ refused
      | endless ↦ endless
      | ends (headers, calls) ↦ elim (instrument_thread_if args k headers calls) [
        | none ↦ refused
        | some (headers', calls') ↦ elim (set_kernel_header grants k.symbol headers') [
          | fault ↦ refused
          | null ↦ refused
          | done bytes ↦ ends (record {
            symbol = k.symbol;
            inst_headers = headers';
            inserted = calls';
            header_bytes = bytes;
          })
        ]
      ]
    ]

-- The loop over the kernels of the module.
unfoldable pub instrument_kernels :
    (ℕ → Bool) → PassArgs → (ℕ → Node) → ℕ → ℕ → List Kernel → Ending (List Instrumented)
unfolding is_kernel_to_be_traced instrument_kernel
instrument_kernels grants args shape cast_fuel fuel [] = ends []
instrument_kernels grants args shape cast_fuel fuel (k ∷ kernels) =
    elim (ltb 0 (length args.kernel) && not (is_kernel_to_be_traced k args.kernel)) [
      | true ↦ instrument_kernels grants args shape cast_fuel fuel kernels
      | false ↦ elim (instrument_kernel grants args shape cast_fuel fuel k) [
        | refused ↦ refused
        | endless ↦ endless
        | ends kernel ↦ elim (instrument_kernels grants args shape cast_fuel fuel kernels) [
          | refused ↦ refused
          | endless ↦ endless
          | ends rest ↦ ends (kernel ∷ rest)
        ]
      ]
    ]
