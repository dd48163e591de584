-- ===== src/TraceIo/Open.antt =====
-- `tracefile_read`, `trace_open` and the reading of `trace_next` of lib/trace-io.h. The access data
-- is shorter than 2 ^ 32 bytes, so that the 32-bit `offset` of `trace_open` does not wrap; the
-- memory of a `trace_t` and of its table is taken to be granted.
pub mod Kernels
pub mod Laws
use t_espresso.Base.{
  ℕ, zero, suc, ◌+◌, ◌-◌, ◌*◌, ◌==◌, Bool, true, false, not, ltb, leb, min, if◌then◌else◌, Option,
  none, some, List, [], ◌∷◌, ◌++◌, length, take, drop, of_le_bytes,
}
use t_espresso.TraceIo.Types.{KernelHeader, empty_kernel, trace_header_prefix, trace_header_postfix}
use t_espresso.TraceIo.Reader.{Parsed, fault, failed, done, uint64_deserialize, header_deserialize}

-- An open trace file: the bytes that are not read yet, and how often `read` has been called.
pub record Input : Type 0 where
  pub bytes : List ℕ
  pub calls : ℕ

-- What the system gives: how many of the `n` bytes that are there and asked for the `k`-th `read`
-- gives (`none` is -1), of which sizes memory is granted, the memory for a kernel header with
-- space for this many instructions, and how many bytes `malloc` gives room for.
pub record Env : Type 0 where
  pub reads : ℕ → ℕ → Option ℕ
  pub grants : ℕ → Bool
  pub kernel_memory : ℕ → Option KernelHeader
  pub usable : ℕ → ℕ

-- Whether all of `size` bytes were read, the bytes, and the file after it.
unfoldable pub tracefile_read : Env → Input → ℕ → Bool × List ℕ × Input
tracefile_read env t size = elim (env.reads t.calls (min size (length t.bytes))) [
  | none ↦ (false, [], record t { calls = suc t.calls })
  | some n ↦ (n == size, take n t.bytes, record { bytes = drop n t.bytes; calls = suc t.calls })
]

-- `memcmp(a, b, n) == 0` of equally long texts.
abbrev pub same_bytes : List ℕ → List ℕ → Bool
same_bytes [] [] = true
same_bytes [] (y ∷ ys) = false
same_bytes (x ∷ xs) [] = false
same_bytes (x ∷ xs) (y ∷ ys) = if x == y then same_bytes xs ys else false

-- A read of a fixed text: whether it is there.
unfoldable pub read_delim : Env → Input → List ℕ → Bool × Input
read_delim env t delim =
    let (all, bytes, t') = tracefile_read env t (length delim) in
    (if all then same_bytes bytes delim else false, t')

-- `trace_t`, without what the records fill in.
pub record Trace : Type 0 where
  pub tracefile : Input
  pub kernel_count : ℕ
  pub kernel_accdat : List KernelHeader

-- The number of entries of the table of kernels.
abbrev pub kernel_table_size : ℕ
kernel_table_size = 1024

-- The loop over the access data, with `rest` the bytes from `offset` on and `table` the entries
-- that are set. The memory of each kernel is sized by the first word of the access data.
unfoldable pub open_kernels :
    ℕ → Env → List ℕ → List ℕ → List KernelHeader → Parsed (List KernelHeader)
open_kernels zero env accdat rest table = fault
open_kernels (suc fuel) env accdat [] table = done table []
open_kernels (suc fuel) env accdat (b ∷ rest) table = elim (uint64_deserialize accdat) [
  | fault ↦ fault
  | failed ↦ failed
  | done count after ↦ elim (env.kernel_memory count) [
    | none ↦ failed
    | some memory ↦ elim (leb kernel_table_size (length table)) [
      | true ↦ fault
      | false ↦ elim (header_deserialize env.usable memory (b ∷ rest)) [
        | fault ↦ fault
        | failed ↦ failed
        | done k rest' ↦ open_kernels fuel env accdat rest' (table ++ (k ∷ []))
      ]
    ]
  ]
]

-- From the access data on.
unfoldable pub open_accdat : Env → Input → List ℕ → Parsed Trace
open_accdat env t accdat =
    elim (open_kernels (suc (length accdat)) env accdat accdat (empty_kernel ∷ [])) [
      | fault ↦ fault
      | failed ↦ failed
      | done table rest ↦
          let (there, t') = read_delim env t trace_header_postfix in
          if there
          then done
              (record { tracefile = t'; kernel_count = length table - 1; kernel_accdat = table }) []
          else failed
    ]

-- `none` is a file that could not be opened; the source reads from it all the same.
unfoldable pub trace_open : Env → Option Input → Parsed Trace
trace_open env none = fault
trace_open env (some t) =
    let (there, t_1) = read_delim env t trace_header_prefix in
    if there
    then (let (sized, size, t_2) = tracefile_read env t_1 8 in
        if sized
        then (if env.grants (of_le_bytes size)
            then (let (all, accdat, t_3) = tracefile_read env t_2 (of_le_bytes size) in
                if all then open_accdat env t_3 accdat else failed)
            else failed)
        else failed)
    else failed
