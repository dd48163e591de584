-- ===== src/TraceIo/Samples.antt =====
-- A kernel with one instruction, and systems that take and give what they are asked for.
use t_espresso.Base.{ℕ, true, some, [], ◌∷◌, max}
use t_espresso.TraceIo.Types.{InstHeader, KernelHeader, empty_inst, empty_kernel}
use t_espresso.TraceIo.File.{Os}
use t_espresso.TraceIo.Open.{Env}

abbrev pub willing : Os
willing = record { accepts = λ k n. some n; closes = true }

abbrev pub load_inst : InstHeader
load_inst = record {
  id = 1;
  inst_type = 1;
  meta = 10 ∷ 11 ∷ 12 ∷ 13 ∷ 14 ∷ [];
  row = 30;
  col = 7;
  filename_len = 2;
  filename = b'a' ∷ b'c' ∷ [];
}

abbrev pub small_kernel : KernelHeader
small_kernel = record {
  insts_count = 1;
  kernel_name_len = 1;
  kernel_name = b'k' ∷ [];
  insts = empty_inst ∷ load_inst ∷ [];
}

abbrev pub blank_kernel : KernelHeader
blank_kernel = record empty_kernel { insts = empty_inst ∷ empty_inst ∷ [] }

-- `malloc` that gives room for eight bytes at least.
abbrev pub at_least_8 : ℕ → ℕ
at_least_8 n = max 8 n

-- A system that gives what is asked for.
abbrev pub giving : Env
giving = record {
  reads = λ k n. some n;
  grants = λ n. true;
  kernel_memory = λ n. some blank_kernel;
  usable = at_least_8;
}
