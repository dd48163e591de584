-- ===== src/TraceIo/Reader/Overrun.antt =====
-- File names that are longer than the memory that `header_deserialize` allocates for them.
use mathlib.Core.List.{append_assoc}
use t_espresso.Base.{
  ℕ, suc, ◌+◌, ◌^◌, ◌≤◌, ◌<◌, ◌≡◌, refl, ap, ◌∙◌, List, [], ◌∷◌, ◌++◌, length, length-append, arith,
}
use t_espresso.TraceIo.Types.{InstHeader, KernelHeader, trace_kernelname_maxlen}
use t_espresso.TraceIo.Header.Inst.{inst_bytes, insts_bytes, AreReadable, get_elem?-append}
use t_espresso.TraceIo.Header.Laws.{kernel_bytes}
use t_espresso.TraceIo.Reader.{
  fault, ◌>>=◌, deserialize_inst, deserialize_insts, header_deserialize,
}
use t_espresso.TraceIo.Reader.Inst.{restored_inst, inst_overrun, bind_fault}
use t_espresso.TraceIo.Reader.RoundTrip.{AreBlank, AreRestorable, insts_step, kernel_steps}

-- An instruction whose file name is longer than its memory, behind others.
insts_overrun :
    (usable : ℕ → ℕ) (i : ℕ) (front olds good : List InstHeader) (inst : InstHeader)
    (more : List InstHeader) (rest : List ℕ)
    → length front ≡ i
    → AreReadable (good ++ (inst ∷ more))
    → AreBlank olds
    → AreRestorable usable good i
    → usable 4 < inst.filename_len
    → length (good ++ (inst ∷ more)) ≤ length olds
    → i + length good < 5
    → deserialize_insts usable
        (length (good ++ (inst ∷ more)))
        i
        (front ++ olds)
        (insts_bytes (good ++ (inst ∷ more)) i ++ rest)
      ≡ fault
unfolding deserialize_insts
insts_overrun usable i front [] [] inst more rest at_i readable blank fit long enough few =
    absurd (omega arith)
insts_overrun usable i front [] (x ∷ good) inst more rest at_i readable blank fit long enough few =
    absurd (omega arith)
insts_overrun usable i front (old ∷ olds) [] inst more rest at_i readable blank fit long enough
      few =
    ap (deserialize_insts usable (suc (length more)) i (front ++ (old ∷ olds)))
      (append_assoc (inst_bytes inst i) (insts_bytes more (suc i)) rest)
    ∙ rw (deserialize_insts, get_elem?-append front old olds i at_i)
        (bind_fault _ (deserialize_inst usable old i)
          (inst_bytes inst i ++ (insts_bytes more (suc i) ++ rest))
          (inst_overrun usable old inst i (insts_bytes more (suc i) ++ rest) readable.0
            (omega (arith, blank.0)) long))
insts_overrun usable i front (old ∷ olds) (x ∷ good) inst more rest at_i readable blank fit long
      enough few =
    let (same, fits, fit') = fit in
    let insts = good ++ (inst ∷ more) in
    ap (deserialize_insts usable (suc (length insts)) i (front ++ (old ∷ olds)))
      (append_assoc (inst_bytes x i) (insts_bytes insts (suc i)) rest)
    ∙ insts_step usable (length insts) i front olds old x (insts_bytes insts (suc i) ++ rest) at_i
        readable.0 blank.0 (omega arith) same fits
    ∙ insts_overrun usable (suc i) (front ++ (restored_inst old x i ∷ [])) olds good inst more rest
        (omega (arith, length-append front (restored_inst old x i ∷ []))) readable.1 blank.1 fit'
        long (omega arith) (omega arith)

-- When one of the first four instructions of a header has a file name that is longer than what
-- `malloc(4)` gives room for, and those before it are read, `header_deserialize` writes past the
-- end of that memory.
pub header_deserialize-overrun :
    (usable : ℕ → ℕ) (k memory : KernelHeader) (old : InstHeader) (olds good : List InstHeader)
    (inst : InstHeader) (more : List InstHeader) (rest : List ℕ)
    → memory.insts ≡ old ∷ olds
    → k.insts_count ≡ length (good ++ (inst ∷ more))
    → k.insts_count < 2 ^ 32
    → length good < 4
    → k.insts_count ≤ length olds
    → k.kernel_name_len ≤ length k.kernel_name
    → k.kernel_name_len ≤ trace_kernelname_maxlen
    → AreReadable (good ++ (inst ∷ more))
    → AreBlank olds
    → AreRestorable usable good 1
    → usable 4 < inst.filename_len
    → header_deserialize usable memory (kernel_bytes k (good ++ (inst ∷ more)) ++ rest) ≡ fault
header_deserialize-overrun usable k memory old olds good inst more rest mem count word_count few
      enough named short readable blank fit long =
    kernel_steps usable k memory (good ++ (inst ∷ more)) rest word_count named short
    ∙ rw
        (
          ◌>>=◌,
          count,
          mem,
          insts_overrun usable 1 (old ∷ []) olds good inst more rest refl readable blank fit long
              (omega arith) (omega arith),
        )
        refl
