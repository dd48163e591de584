-- ===== src/TraceIo/Open/Laws.antt =====
-- What `trace_open` reads of a file that `trace_write_header` wrote.
use mathlib.Core.List.{append_assoc, append-nil}
use t_espresso.Base.{
  ℕ, suc, ◌-◌, ◌^◌, ◌≤◌, ◌<◌, ◌≡◌, refl, ap, ◌∙◌, ◌==◌, true, min, some, List, [], ◌∷◌, ◌++◌,
  length, length-append, take, take-append_left, drop-append_left, drop, le_bytes, length-le_bytes,
  of_le_bytes-le_bytes, u64, arith,
}
use t_espresso.TraceIo.Types.{
  InstHeader, KernelHeader, empty_kernel, trace_header_prefix, trace_header_postfix,
  tracefile_buf_size,
}
use t_espresso.TraceIo.File.{Os, TraceFile, tracefile_close, trace_write_header}
use t_espresso.TraceIo.File.Laws.{trace_write_header-close}
use t_espresso.TraceIo.Header.Inst.{word, insts_bytes}
use t_espresso.TraceIo.Reader.{done, uint64_deserialize}
use t_espresso.TraceIo.Reader.Inst.{uint64_deserialize-word}
use t_espresso.TraceIo.Reader.RoundTrip.{AreBlank}
use t_espresso.TraceIo.Open.{
  Env, Trace, tracefile_read, same_bytes, read_delim, kernel_table_size, open_kernels, open_accdat,
  trace_open,
}
use t_espresso.TraceIo.Open.Kernels.{
  all_bytes, restored_all, AreKept, length-restored_all, open_kernels_lem,
}

same_bytes_refl : (xs : List ℕ) → same_bytes xs xs ≡ true
same_bytes_refl [] = refl
same_bytes_refl (x ∷ xs) = ground (arith, same_bytes_refl xs)

module _ (env : Env) (reads_all : (k n : ℕ) → env.reads k n ≡ some n) where
  pub read_lem :
      (xs ys : List ℕ) (calls n : ℕ)
      → length xs ≡ n
      → tracefile_read env (record { bytes = xs ++ ys; calls = calls }) n
        ≡ (true, xs, record { bytes = ys; calls = suc calls })
  unfolding tracefile_read
  read_lem xs ys calls n h =
      let there : min n (length (xs ++ ys)) ≡ n = omega (arith, length-append xs ys) in
      let same : (n == n) ≡ true = ground arith in
      rw
        (
          tracefile_read,
          there,
          reads_all calls n,
          same,
          take-append_left n xs ys h,
          drop-append_left n xs ys h,
        )
        refl

  delim_lem :
      (xs ys : List ℕ) (calls : ℕ)
      → read_delim env (record { bytes = xs ++ ys; calls = calls }) xs
        ≡ (true, record { bytes = ys; calls = suc calls })
  unfolding read_delim
  delim_lem xs ys calls = rw (read_lem xs ys calls (length xs) refl, same_bytes_refl xs) refl

  trace_open_lem :
      (accdat records : List ℕ)
      → length accdat < 2 ^ 64
      → env.grants (length accdat) ≡ true
      → trace_open env (
          some (record {
            bytes =
                trace_header_prefix
                ++ (le_bytes 8 (length accdat) ++ (accdat ++ (trace_header_postfix ++ records)));
            calls = 0;
          }))
        ≡ open_accdat env (record { bytes = trace_header_postfix ++ records; calls = 3 }) accdat
  unfolding trace_open
  trace_open_lem accdat records h granted =
      rw
        (
          delim_lem trace_header_prefix
              (le_bytes 8 (length accdat) ++ (accdat ++ (trace_header_postfix ++ records))) 0,
          read_lem (le_bytes 8 (length accdat)) (accdat ++ (trace_header_postfix ++ records)) 1 8
              (length-le_bytes 8 (length accdat)),
          of_le_bytes-le_bytes 8 (length accdat) (omega arith),
          granted,
          read_lem accdat (trace_header_postfix ++ records) 2 (length accdat) refl,
        )
        refl

  open_accdat_lem :
      (accdat records : List ℕ) (table : List KernelHeader) (calls : ℕ)
      → open_kernels (suc (length accdat)) env accdat accdat (empty_kernel ∷ [])
        ≡ done (empty_kernel ∷ table) []
      → open_accdat env (record { bytes = trace_header_postfix ++ records; calls = calls }) accdat
        ≡ done
            (record {
              tracefile = record { bytes = records; calls = suc calls };
              kernel_count = length table;
              kernel_accdat = empty_kernel ∷ table;
            })
            []
  unfolding open_accdat
  open_accdat_lem accdat records table calls e =
      let count : suc (length table) - 1 ≡ length table = omega arith in
      rw (open_accdat, e, delim_lem trace_header_postfix records calls, count) refl

pub join : (a b c d r : List ℕ) → (a ++ (b ++ (c ++ (d ++ [])))) ++ r ≡ a ++ (b ++ (c ++ (d ++ r)))
join a b c d r = simp (append_assoc, append-nil) refl

first_count :
    (k : KernelHeader) (ks : List KernelHeader)
    → k.insts_count < 2 ^ 32
    → (after : List ℕ) × (uint64_deserialize (all_bytes (k ∷ ks)) ≡ done k.insts_count after)
first_count k ks h =
    let name = word k.kernel_name_len ++ take k.kernel_name_len k.kernel_name in
    let insts = insts_bytes (drop 1 k.insts) 1 in
    let after = name ++ (insts ++ all_bytes ks) in
    let flat : all_bytes (k ∷ ks) ≡ word k.insts_count ++ after = simp append_assoc refl in
    let small : u64 k.insts_count ≡ k.insts_count = omega arith in
    (
      after,
      ap uint64_deserialize flat
          ∙ uint64_deserialize-word k.insts_count after
          ∙ ap (λ n. done n after) small,
    )

-- The kernels as `trace_open` reads them, at the bytes behind the header.
abbrev pub opened : InstHeader → List InstHeader → List KernelHeader → List ℕ → Trace
opened old olds kernels records = record {
  tracefile = record { bytes = records; calls = 4 };
  kernel_count = length kernels;
  kernel_accdat = empty_kernel ∷ restored_all old olds kernels;
}

pub trace_open-header :
    (env : Env) (k : KernelHeader) (ks : List KernelHeader) (memory : KernelHeader)
    (old : InstHeader) (olds : List InstHeader) (records : List ℕ)
    → ((c n : ℕ) → env.reads c n ≡ some n)
    → ((n : ℕ) → env.grants n ≡ true)
    → env.kernel_memory k.insts_count ≡ some memory
    → memory.insts ≡ old ∷ olds
    → AreBlank olds
    → AreKept env.usable olds (k ∷ ks)
    → length (k ∷ ks) < kernel_table_size
    → length (all_bytes (k ∷ ks)) ≤ tracefile_buf_size
    → let accdat = all_bytes (k ∷ ks) in
      trace_open env (
        some (record {
          bytes =
              trace_header_prefix
              ++ (le_bytes 8 (length accdat) ++ (accdat ++ (trace_header_postfix ++ records)));
          calls = 0;
        }))
      ≡ done (opened old olds (k ∷ ks) records) []
trace_open-header env k ks memory old olds records reads g mem all blank kept room small =
    let accdat = all_bytes (k ∷ ks) in
    let (after, first) = first_count k ks (omega (arith, kept.0, kept.1)) in
    let table = restored_all old olds (k ∷ ks) in
    let loop =
      open_kernels_lem (suc (length accdat)) env accdat (k ∷ ks) (empty_kernel ∷ []) memory old olds
        k.insts_count after first mem all blank kept (omega arith) (omega arith) in
    trace_open_lem env reads accdat records (omega arith) (g (length accdat))
    ∙ open_accdat_lem env reads accdat records table 3 loop
    ∙ ap
        (λ n.
          done
            (record {
              tracefile = record { bytes = records; calls = 4 };
              kernel_count = n;
              kernel_accdat = empty_kernel ∷ table;
            })
            [])
        (length-restored_all old olds (k ∷ ks))

-- When the system takes what it is given and gives what is asked for, `trace_open` of a file that
-- `trace_write_header` wrote with the bytes of fewer than 1024 kernels, each of at most four
-- instructions, with names within their bounds, file names within what `malloc` gives room for and
-- no more instructions than the memory holds that is sized by the first kernel, gives back these
-- kernels behind the empty one, of the metadata of instruction `i` entry `i` alone, and stands at
-- the bytes behind the header.
pub trace_open-trace_write_header :
    (os : Os) (env : Env) (k : KernelHeader) (ks : List KernelHeader) (memory : KernelHeader)
    (old : InstHeader) (olds : List InstHeader) (records : List ℕ)
    → ((c n : ℕ) → os.accepts c n ≡ some n)
    → ((c n : ℕ) → env.reads c n ≡ some n)
    → ((n : ℕ) → env.grants n ≡ true)
    → env.kernel_memory k.insts_count ≡ some memory
    → memory.insts ≡ old ∷ olds
    → AreBlank olds
    → AreKept env.usable olds (k ∷ ks)
    → length (k ∷ ks) < kernel_table_size
    → length (all_bytes (k ∷ ks)) ≤ tracefile_buf_size
    → let new : TraceFile = record { file = []; buf = []; calls = 0 } in
      (t : TraceFile) × (trace_write_header os new (all_bytes (k ∷ ks)) ≡ some (true, t))
      × (trace_open env (some (record { bytes = (tracefile_close os t).1 ++ records; calls = 0 }))
          ≡ done (opened old olds (k ∷ ks) records) [])
trace_open-trace_write_header os env k ks memory old olds records takes reads g mem all blank kept
      room small =
    let accdat = all_bytes (k ∷ ks) in
    let (t, wrote, file) = trace_write_header-close os takes accdat small in
    let joined : (tracefile_close os t).1 ++ records
        ≡ trace_header_prefix
          ++ (le_bytes 8 (length accdat) ++ (accdat ++ (trace_header_postfix ++ records))) =
      ap (λ l. l ++ records) file
      ∙ join trace_header_prefix (le_bytes 8 (length accdat)) accdat trace_header_postfix records in
    (
      t,
      wrote,
      ap (λ l. trace_open env (some (record { bytes = l; calls = 0 }))) joined
          ∙ trace_open-header env k ks memory old olds records reads g mem all blank kept room
              small,
    )
