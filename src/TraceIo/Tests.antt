-- ===== src/TraceIo/Tests.antt =====
-- The trace file at concrete values.
use t_espresso.TraceIo.Samples.{willing, load_inst, small_kernel, blank_kernel, at_least_8, giving}
use t_espresso.TraceIo.Types.{InstHeader, empty_inst, empty_kernel}
use t_espresso.TraceIo.Reader.{Parsed, header_deserialize}
use t_espresso.TraceIo.Reader.RoundTrip.{restored_kernel, header_deserialize-header_serialize}
use t_espresso.TraceIo.Open.{trace_open}
use t_espresso.TraceIo.Open.Kernels.{all_bytes, restored_all}
use t_espresso.TraceIo.Open.Laws.{trace_open-trace_write_header}
use t_espresso.TraceIo.Reader.Overrun.{header_deserialize-overrun}
use t_espresso.TraceIo.Header.{header_serialize, done, fault}
use t_espresso.TraceIo.Header.Laws.{header_serialize-fault, kernel_bytes}
use t_espresso.Base.{
  ℕ, ◌≤◌, ◌≡◌, refl, Bool, true, false, none, some, List, [], ◌∷◌, ◌++◌, length, le_bytes, arith,
}
use t_espresso.TraceIo.Types.{tracefile_buf_size}
use t_espresso.TraceIo.File.{Os, TraceFile, tracefile_write, tracefile_close, trace_write_header}
use t_espresso.TraceIo.File.Laws.{tracefile_write_bounds}

-- A system that takes nothing.
abbrev refusing : Os
refusing = record { accepts = λ k n. none; closes = false }

abbrev open_file : TraceFile
open_file = record { file = 1 ∷ []; buf = 2 ∷ 3 ∷ []; calls = 0 }

tracefile_write_bounds_example :
    (r : Bool) × (t' : TraceFile) × (tracefile_write refusing open_file (4 ∷ 5 ∷ []) ≡ some (r, t'))
    × (length t'.buf ≤ tracefile_buf_size)
tracefile_write_bounds_example =
    tracefile_write_bounds refusing open_file (4 ∷ 5 ∷ []) (omega arith) (omega arith)

abbrev five_insts : List InstHeader
five_insts = load_inst ∷ load_inst ∷ load_inst ∷ load_inst ∷ load_inst ∷ []

header_serialize-fault_example :
    header_serialize
      (λ n. true)
      (some (record small_kernel { insts_count = 5; insts = empty_inst ∷ five_insts }))
    ≡ fault
header_serialize-fault_example =
    header_serialize-fault (λ n. true)
      (record small_kernel { insts_count = 5; insts = empty_inst ∷ five_insts }) empty_inst
      five_insts (λ n. refl) refl refl (omega arith) (omega arith) (omega arith)
      (
        (refl, omega arith, omega arith),
        (
          (refl, omega arith, omega arith),
          (
            (refl, omega arith, omega arith),
            ((refl, omega arith, omega arith), ((refl, omega arith, omega arith), tt)),
          ),
        ),
      )

header_deserialize-header_serialize_example :
    (bytes : List ℕ) × (header_serialize (λ n. true) (some small_kernel) ≡ done bytes)
    × ((rest : List ℕ)
        → header_deserialize at_least_8 blank_kernel (bytes ++ rest)
          ≡ Parsed.done
              (restored_kernel small_kernel (load_inst ∷ []) empty_inst (empty_inst ∷ []))
              rest)
header_deserialize-header_serialize_example =
    header_deserialize-header_serialize (λ n. true) at_least_8 small_kernel blank_kernel empty_inst
      empty_inst (empty_inst ∷ []) (load_inst ∷ []) (λ n. refl) refl refl refl (omega arith)
      (omega arith) (omega arith) (omega arith) ((refl, omega arith, omega arith), tt) (refl, tt)
      (refl, omega arith, tt)

abbrev long_inst : InstHeader
long_inst = record load_inst {
  filename_len = 9;
  filename = b'l' ∷ b'o' ∷ b'n' ∷ b'g' ∷ b'n' ∷ b'a' ∷ b'm' ∷ b'e' ∷ b's' ∷ [];
}

header_deserialize-overrun_example :
    header_deserialize at_least_8 blank_kernel (kernel_bytes small_kernel (long_inst ∷ []) ++ [])
    ≡ Parsed.fault
header_deserialize-overrun_example =
    header_deserialize-overrun at_least_8 small_kernel blank_kernel empty_inst (empty_inst ∷ []) []
      long_inst [] [] refl refl (omega arith) (omega arith) (omega arith) (omega arith)
      (omega arith) ((refl, omega arith, omega arith), tt) (refl, tt) tt (omega arith)

trace_open-trace_write_header_example :
    let new : TraceFile = record { file = []; buf = []; calls = 0 } in
    (t : TraceFile) × (trace_write_header willing new (all_bytes (small_kernel ∷ []))
      ≡ some (true, t))
    × (trace_open giving
          (some (record { bytes = (tracefile_close willing t).1 ++ (9 ∷ []); calls = 0 }))
        ≡ Parsed.done
            (record {
              tracefile = record { bytes = 9 ∷ []; calls = 4 };
              kernel_count = 1;
              kernel_accdat =
                  empty_kernel ∷ restored_all empty_inst (empty_inst ∷ []) (small_kernel ∷ []);
            })
            [])
unfolding le_bytes
trace_open-trace_write_header_example =
    trace_open-trace_write_header willing giving small_kernel [] blank_kernel empty_inst
      (empty_inst ∷ []) (9 ∷ []) (λ k n. refl) (λ k n. refl) (λ n. refl) refl refl (refl, tt)
      (
        refl,
        omega arith,
        omega arith,
        omega arith,
        omega arith,
        ((refl, omega arith, omega arith), tt),
        (refl, omega arith, tt),
        tt,
      )
      (omega arith) (omega arith)
