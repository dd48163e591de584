-- ===== src/TraceIo/Reader/RoundTrip.antt =====
-- What `header_deserialize` reads of a header that `header_serialize` wrote.
use mathlib.Core.List.{append_assoc}
use t_espresso.Base.{
  ℕ, zero, suc, ◌+◌, ◌^◌, ◌≤◌, ◌<◌, ◌≡◌, refl, sym, ap, ◌∙◌, Bool, true, min, some, List, [], ◌∷◌,
  ◌++◌, length, length-append, length-take, take, set, u32, u64, arith,
}
use t_espresso.TraceIo.Types.{
  InstHeader, KernelHeader, trace_kernelname_maxlen, trace_header_inst_meta_size,
}
use t_espresso.TraceIo.Header.Inst.{
  word, inst_bytes, insts_bytes, IsReadable, AreReadable, get_elem?-append,
}
use t_espresso.TraceIo.Header.Laws.{kernel_bytes, header_serialize-done}
use t_espresso.TraceIo.Header.{Serialized, header_serialize}
use t_espresso.TraceIo.Reader.{
  done, ◌>>=◌, give, read_text, deserialize_inst, deserialize_insts, header_deserialize,
}
use t_espresso.TraceIo.Reader.Inst.{
  bind_step, word_step, read_text_lem, restored_inst, deserialize_inst_lem,
}

-- The memory of instructions: all of its metadata is there.
abbrev pub AreBlank : List InstHeader → Type 0
AreBlank [] = Unit {0}
AreBlank (old ∷ olds) = (length old.meta ≡ trace_header_inst_meta_size) × AreBlank olds

-- Instructions are numbered from `i` on, and their file names fit the memory that they are given.
abbrev pub AreRestorable : (ℕ → ℕ) → List InstHeader → ℕ → Type 0
AreRestorable usable [] i = Unit {0}
AreRestorable usable (inst ∷ insts) i =
    (i ≡ u32 inst.id) × (inst.filename_len ≤ usable 4) × AreRestorable usable insts (suc i)

-- The memory `olds` after the instructions are read into it.
abbrev pub restored : List InstHeader → List InstHeader → ℕ → List InstHeader
restored olds [] i = olds
restored [] (inst ∷ insts) i = []
restored (old ∷ olds) (inst ∷ insts) i = restored_inst old inst i ∷ restored olds insts (suc i)

set-append :
    (front : List InstHeader) (x v : InstHeader) (rest : List InstHeader) (i : ℕ)
    → length front ≡ i
    → set (front ++ (x ∷ rest)) i v ≡ front ++ (v ∷ rest)
set-append [] x v rest zero h = refl
set-append [] x v rest (suc i) h = absurd (omega arith)
set-append (y ∷ front) x v rest zero h = absurd (omega arith)
set-append (y ∷ front) x v rest (suc i) h =
    ap (λ l. y ∷ l) (set-append front x v rest i (omega arith))

pub insts_step :
    (usable : ℕ → ℕ) (n i : ℕ) (front olds : List InstHeader) (old inst : InstHeader)
    (rest : List ℕ)
    → length front ≡ i
    → IsReadable inst
    → length old.meta ≡ trace_header_inst_meta_size
    → i < 5
    → i ≡ u32 inst.id
    → inst.filename_len ≤ usable 4
    → deserialize_insts usable (suc n) i (front ++ (old ∷ olds)) (inst_bytes inst i ++ rest)
      ≡ deserialize_insts usable n (suc i) ((front ++ (restored_inst old inst i ∷ [])) ++ olds) rest
unfolding deserialize_insts
insts_step usable n i front olds old inst rest at_i readable blank few same fits =
    rw (deserialize_insts, get_elem?-append front old olds i at_i)
      (bind_step _ (deserialize_inst usable old i) (inst_bytes inst i ++ rest)
        (restored_inst old inst i) rest
        (deserialize_inst_lem usable old inst i rest readable (omega arith) fits same))
    ∙ ap (λ l. deserialize_insts usable n (suc i) l rest)
        (set-append front old (restored_inst old inst i) olds i at_i
          ∙ sym (append_assoc front (restored_inst old inst i ∷ []) olds))

deserialize_insts_lem :
    (usable : ℕ → ℕ) (i : ℕ) (front olds insts : List InstHeader) (rest : List ℕ)
    → length front ≡ i
    → AreReadable insts
    → AreBlank olds
    → AreRestorable usable insts i
    → length insts ≤ length olds
    → i + length insts ≤ 5
    → deserialize_insts usable (length insts) i (front ++ olds) (insts_bytes insts i ++ rest)
      ≡ done (front ++ restored olds insts i) rest
unfolding deserialize_insts
deserialize_insts_lem usable i front olds [] rest at_i readable blank fit enough few = refl
deserialize_insts_lem usable i front [] (inst ∷ insts) rest at_i readable blank fit enough few =
    absurd (omega arith)
deserialize_insts_lem usable i front (old ∷ olds) (inst ∷ insts) rest at_i readable blank fit enough
      few =
    let (same, fits, fit') = fit in
    ap (deserialize_insts usable (suc (length insts)) i (front ++ (old ∷ olds)))
      (append_assoc (inst_bytes inst i) (insts_bytes insts (suc i)) rest)
    ∙ insts_step usable (length insts) i front olds old inst (insts_bytes insts (suc i) ++ rest)
        at_i readable.0 blank.0 (omega arith) same fits
    ∙ deserialize_insts_lem usable (suc i) (front ++ (restored_inst old inst i ∷ [])) olds insts
        rest (omega (arith, length-append front (restored_inst old inst i ∷ []))) readable.1 blank.1
        fit' (omega arith) (omega arith)
    ∙ ap (λ l. done l rest)
        (append_assoc front (restored_inst old inst i ∷ []) (restored olds insts (suc i)))

-- What is read of the header `k` into the memory `olds` of its instructions.
abbrev pub restored_kernel :
    KernelHeader → List InstHeader → InstHeader → List InstHeader → KernelHeader
restored_kernel k insts old olds = record {
  insts_count = k.insts_count;
  kernel_name_len = k.kernel_name_len;
  kernel_name = take k.kernel_name_len k.kernel_name;
  insts = old ∷ restored olds insts 1;
}

-- The reads up to the loop over the instructions.
pub kernel_steps :
    (usable : ℕ → ℕ) (k memory : KernelHeader) (insts : List InstHeader) (rest : List ℕ)
    → k.insts_count < 2 ^ 32
    → k.kernel_name_len ≤ length k.kernel_name
    → k.kernel_name_len ≤ trace_kernelname_maxlen
    → header_deserialize usable memory (kernel_bytes k insts ++ rest)
      ≡ (deserialize_insts usable k.insts_count 1 memory.insts >>= λ l. give (record {
        insts_count = k.insts_count;
        kernel_name_len = k.kernel_name_len;
        kernel_name = take k.kernel_name_len k.kernel_name;
        insts = l;
      }))
          (insts_bytes insts 1 ++ rest)
unfolding header_deserialize
kernel_steps usable k memory insts rest few named short =
    let name = take k.kernel_name_len k.kernel_name in
    let tail = insts_bytes insts 1 ++ rest in
    let flat : kernel_bytes k insts ++ rest
        ≡ word k.insts_count ++ (word k.kernel_name_len ++ (name ++ tail)) =
      simp append_assoc refl in
    let len_lem : min trace_kernelname_maxlen (u32 (u64 k.kernel_name_len)) ≡ k.kernel_name_len =
      omega arith in
    let count_lem : u32 (u64 k.insts_count) ≡ k.insts_count = omega arith in
    let text =
      read_text_lem k.kernel_name_len name tail
        (omega (arith, length-take k.kernel_name_len k.kernel_name)) in
    ap (header_deserialize usable memory) flat
    ∙ word_step _ k.insts_count (word k.kernel_name_len ++ (name ++ tail))
    ∙ word_step _ k.kernel_name_len (name ++ tail)
    ∙ rw (len_lem, count_lem)
        (bind_step _ (read_text k.kernel_name_len) (name ++ tail) name tail text)

pub header_deserialize-kernel_bytes :
    (usable : ℕ → ℕ) (k memory : KernelHeader) (old : InstHeader) (olds insts : List InstHeader)
    (rest : List ℕ)
    → memory.insts ≡ old ∷ olds
    → k.insts_count ≡ length insts
    → length insts ≤ 4
    → length insts ≤ length olds
    → k.kernel_name_len ≤ length k.kernel_name
    → k.kernel_name_len ≤ trace_kernelname_maxlen
    → AreReadable insts
    → AreBlank olds
    → AreRestorable usable insts 1
    → header_deserialize usable memory (kernel_bytes k insts ++ rest)
      ≡ done (restored_kernel k insts old olds) rest
header_deserialize-kernel_bytes usable k memory old olds insts rest mem count few enough named short
      readable blank fit =
    kernel_steps usable k memory insts rest (omega arith) named short
    ∙ bind_step _ (deserialize_insts usable k.insts_count 1 memory.insts)
        (insts_bytes insts 1 ++ rest) (old ∷ restored olds insts 1) rest
        (rw (count, mem)
          (deserialize_insts_lem usable 1 (old ∷ []) olds insts rest refl readable blank fit enough
            (omega arith)))

-- With memory granted, of a kernel of at most four instructions, with its names within their
-- bounds, every file name within what `malloc` gives room for, and memory for its instructions,
-- `header_deserialize` reads back from the bytes that `header_serialize` yields the numbers and
-- names of the kernel and of each instruction, of the metadata of instruction `i` entry `i` alone,
-- and goes on behind these bytes.
pub header_deserialize-header_serialize :
    (grants : ℕ → Bool) (usable : ℕ → ℕ) (k memory : KernelHeader) (unused_inst old : InstHeader)
    (olds insts : List InstHeader)
    → ((n : ℕ) → grants n ≡ true)
    → k.insts ≡ unused_inst ∷ insts
    → memory.insts ≡ old ∷ olds
    → k.insts_count ≡ length insts
    → length insts ≤ 4
    → length insts ≤ length olds
    → k.kernel_name_len ≤ length k.kernel_name
    → k.kernel_name_len ≤ trace_kernelname_maxlen
    → AreReadable insts
    → AreBlank olds
    → AreRestorable usable insts 1
    → (bytes : List ℕ) × (header_serialize grants (some k) ≡ Serialized.done bytes)
      × ((rest : List ℕ)
          → header_deserialize usable memory (bytes ++ rest)
            ≡ done (restored_kernel k insts old olds) rest)
header_deserialize-header_serialize grants usable k memory unused_inst old olds insts g all mem
      count few enough named short readable blank fit =
    (
      kernel_bytes k insts,
      header_serialize-done grants k unused_inst insts g all count few named short readable,
      λ rest.
          header_deserialize-kernel_bytes usable k memory old olds insts rest mem count few enough
            named short readable blank fit,
    )
