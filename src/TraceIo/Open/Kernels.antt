-- ===== src/TraceIo/Open/Kernels.antt =====
-- The loop of `trace_open` over the access data.
use mathlib.Core.List.{append_assoc, append-nil}
use t_espresso.Base.{
  ℕ, zero, suc, ◌+◌, ◌≤◌, ◌<◌, ◌≡◌, refl, sym, ap, ◌∙◌, false, leb, some, List, [], ◌∷◌, ◌++◌,
  length, length-append, take, drop, arith,
}
use t_espresso.TraceIo.Types.{InstHeader, KernelHeader, trace_kernelname_maxlen}
use t_espresso.TraceIo.Header.Inst.{word, length-word, insts_bytes, AreReadable}
use t_espresso.TraceIo.Header.Laws.{kernel_bytes}
use t_espresso.TraceIo.Reader.{done, uint64_deserialize, header_deserialize}
use t_espresso.TraceIo.Reader.RoundTrip.{
  AreBlank, AreRestorable, restored_kernel, header_deserialize-kernel_bytes,
}
use t_espresso.TraceIo.Open.{Env, kernel_table_size, open_kernels}

-- The bytes of a kernel, whose instructions stand behind the unused first one.
abbrev pub bytes_of : KernelHeader → List ℕ
bytes_of k = kernel_bytes k (drop 1 k.insts)

abbrev pub all_bytes : List KernelHeader → List ℕ
all_bytes [] = []
all_bytes (k ∷ ks) = bytes_of k ++ all_bytes ks

-- What is read of kernels, each into memory whose instructions are `old ∷ olds`.
abbrev pub restored_all : InstHeader → List InstHeader → List KernelHeader → List KernelHeader
restored_all old olds [] = []
restored_all old olds (k ∷ ks) =
    restored_kernel k (drop 1 k.insts) old olds ∷ restored_all old olds ks

-- Kernels with at most four instructions, names within their bounds, and memory for them.
abbrev pub AreKept : (ℕ → ℕ) → List InstHeader → List KernelHeader → Type 0
AreKept usable olds [] = Unit {0}
AreKept usable olds (k ∷ ks) =
    (k.insts_count ≡ length (drop 1 k.insts))
    × (length (drop 1 k.insts) ≤ 4)
    × (length (drop 1 k.insts) ≤ length olds)
    × (k.kernel_name_len ≤ length k.kernel_name)
    × (k.kernel_name_len ≤ trace_kernelname_maxlen)
    × AreReadable (drop 1 k.insts)
    × AreRestorable usable (drop 1 k.insts) 1
    × AreKept usable olds ks

open_step :
    (fuel : ℕ) (env : Env) (accdat xs rest : List ℕ) (table : List KernelHeader)
    (k memory : KernelHeader) (count : ℕ) (after : List ℕ)
    → 0 < length xs
    → uint64_deserialize accdat ≡ done count after
    → env.kernel_memory count ≡ some memory
    → length table < kernel_table_size
    → header_deserialize env.usable memory xs ≡ done k rest
    → open_kernels (suc fuel) env accdat xs table
      ≡ open_kernels fuel env accdat rest (table ++ (k ∷ []))
unfolding open_kernels
open_step fuel env accdat [] rest table k memory count after some_left first mem room e =
    absurd (omega arith)
open_step fuel env accdat (x ∷ xs) rest table k memory count after some_left first mem room e =
    let fits : leb kernel_table_size (length table) ≡ false = ground arith in
    rw (open_kernels, first, mem, fits, e) refl

length-bytes_of : (k : KernelHeader) (rest : List ℕ) → 8 + length rest ≤ length (bytes_of k ++ rest)
length-bytes_of k rest =
    let insts = insts_bytes (drop 1 k.insts) 1 in
    let name = word k.kernel_name_len ++ take k.kernel_name_len k.kernel_name in
    omega (
      arith,
      length-append (bytes_of k) rest,
      length-append (word k.insts_count ++ name) insts,
      length-append (word k.insts_count) name,
      length-word k.insts_count,
    )

pub open_kernels_lem :
    (fuel : ℕ) (env : Env) (accdat : List ℕ) (ks table : List KernelHeader) (memory : KernelHeader)
    (old : InstHeader) (olds : List InstHeader) (count : ℕ) (after : List ℕ)
    → uint64_deserialize accdat ≡ done count after
    → env.kernel_memory count ≡ some memory
    → memory.insts ≡ old ∷ olds
    → AreBlank olds
    → AreKept env.usable olds ks
    → length table + length ks ≤ kernel_table_size
    → length (all_bytes ks) < fuel
    → open_kernels fuel env accdat (all_bytes ks) table
      ≡ done (table ++ restored_all old olds ks) []
unfolding open_kernels
open_kernels_lem zero env accdat ks table memory old olds count after first mem all blank kept room
      enough =
    absurd (omega arith)
open_kernels_lem (suc fuel) env accdat [] table memory old olds count after first mem all blank kept
      room enough =
    ap (λ l. done l []) (sym (append-nil table))
open_kernels_lem (suc fuel) env accdat (k ∷ ks) table memory old olds count after first mem all
      blank (counts, few, space, named, short, readable, fit, kept) room enough =
    let long = length-bytes_of k (all_bytes ks) in
    let read =
      header_deserialize-kernel_bytes env.usable k memory old olds (drop 1 k.insts) (all_bytes ks)
        all counts few space named short readable blank fit in
    let k' = restored_kernel k (drop 1 k.insts) old olds in
    open_step fuel env accdat (bytes_of k ++ all_bytes ks) (all_bytes ks) table k' memory count
      after (omega arith) first mem (omega arith) read
    ∙ open_kernels_lem fuel env accdat ks (table ++ (k' ∷ [])) memory old olds count after first mem
        all blank kept (omega (arith, length-append table (k' ∷ []))) (omega arith)
    ∙ ap (λ l. done l []) (append_assoc table (k' ∷ []) (restored_all old olds ks))

pub length-restored_all :
    (old : InstHeader) (olds : List InstHeader) (ks : List KernelHeader)
    → length (restored_all old olds ks) ≡ length ks
length-restored_all old olds [] = refl
length-restored_all old olds (k ∷ ks) = ap suc (length-restored_all old olds ks)
