-- ===== src/TraceIo/Header/Laws.antt =====
-- The bytes that a serialized kernel header has.
use mathlib.Core.List.{append_assoc, append-nil}
use t_espresso.Base.{
  ℕ, suc, ◌+◌, ◌-◌, ◌≤◌, ◌≡◌, refl, sym, ap, ap₂, ◌∙◌, Bool, true, false, ◌&&◌, not, ltb, none,
  some, List, [], ◌∷◌, ◌++◌, length, length-append, length-take, take, arith, Bool-cases, inl, inr,
}
use t_espresso.TraceIo.Types.{
  InstHeader, KernelHeader, trace_filename_maxlen, trace_header_buf_size_unit,
  trace_kernelname_maxlen,
}
use t_espresso.TraceIo.Header.{
  fault, done, uint64_serialize, serialize_meta, serialize_inst, serialize_insts, header_serialize,
  sizeof_inst,
}
use t_espresso.TraceIo.Header.Inst.{
  word, inst_bytes, insts_bytes, IsReadable, AreReadable, copy_text_lem, length-word,
  get_elem?-append, grown, serialize_insts_step,
}

insts_lem :
    (grants : ℕ → Bool)
    → ((n : ℕ) → grants n ≡ true)
    → (i : ℕ) (front insts : List InstHeader) (buf_size : ℕ) (buf : List ℕ) → length front ≡ i
    → AreReadable insts
    → i + length insts ≤ 5
    → length buf ≤ buf_size
    → trace_header_buf_size_unit ≤ buf_size
    → serialize_insts grants (length insts) i (front ++ insts) buf_size buf
      ≡ done (buf ++ insts_bytes insts i)
unfolding serialize_insts
insts_lem grants g i front [] buf_size buf at_i readable few inside enough =
    rw (g (length buf)) (ap done (sym (append-nil buf)))
insts_lem grants g i front (inst ∷ insts) buf_size buf at_i (readable, rest) few inside enough =
    let (step, inside', enough') =
      serialize_insts_step grants g (length insts) i front inst insts buf_size buf (omega arith)
        at_i readable inside enough in
    step
    ∙ ap
        (λ l.
          serialize_insts grants (length insts) (suc i) l (grown buf_size buf)
            (buf ++ inst_bytes inst i))
        (sym (append_assoc front (inst ∷ []) insts))
    ∙ insts_lem grants g (suc i) (front ++ (inst ∷ [])) insts (grown buf_size buf)
        (buf ++ inst_bytes inst i) (omega (arith, length-append front (inst ∷ []))) rest
        (omega arith) inside' enough'
    ∙ ap done (append_assoc buf (inst_bytes inst i) (insts_bytes insts (suc i)))

-- Reading the metadata of the fifth instruction.
meta_fault :
    (n : ℕ) (buf meta : List ℕ) → length meta ≡ 5 → serialize_meta (suc n) buf meta 5 ≡ none
unfolding serialize_meta
meta_fault n buf [] h = refl
meta_fault n buf (a ∷ []) h = refl
meta_fault n buf (a ∷ b ∷ []) h = refl
meta_fault n buf (a ∷ b ∷ c ∷ []) h = refl
meta_fault n buf (a ∷ b ∷ c ∷ d ∷ []) h = refl
meta_fault n buf (a ∷ b ∷ c ∷ d ∷ e ∷ []) h = refl
meta_fault n buf (a ∷ b ∷ c ∷ d ∷ e ∷ f ∷ meta) h = absurd (omega arith)

-- The bytes of a kernel header: the number of instructions, the name with its length, and the
-- instructions.
abbrev pub kernel_bytes : KernelHeader → List InstHeader → List ℕ
kernel_bytes k insts =
    (word k.insts_count ++ (word k.kernel_name_len ++ take k.kernel_name_len k.kernel_name))
    ++ insts_bytes insts 1

length-front : (c n : ℕ) (name : List ℕ) → length ((word c ++ word n) ++ take n name) ≤ 16 + n
length-front c n name = omega (
  arith,
  length-append (word c ++ word n) (take n name),
  length-append (word c) (word n),
  length-word c,
  length-word n,
  length-take n name,
)

-- Up to the loop.
header_serialize-insts :
    (grants : ℕ → Bool) (k : KernelHeader)
    → ((n : ℕ) → grants n ≡ true)
    → k.kernel_name_len ≤ length k.kernel_name
    → k.kernel_name_len ≤ trace_kernelname_maxlen
    → header_serialize grants (some k)
      ≡ serialize_insts grants k.insts_count 1 k.insts trace_header_buf_size_unit
          ((word k.insts_count ++ word k.kernel_name_len) ++ take k.kernel_name_len k.kernel_name)
unfolding header_serialize uint64_serialize
header_serialize-insts grants k g named short =
    let front =
      (word k.insts_count ++ word k.kernel_name_len) ++ take k.kernel_name_len k.kernel_name in
    let small : ltb trace_header_buf_size_unit (length front) ≡ false =
      ground (arith, length-front k.insts_count k.kernel_name_len k.kernel_name) in
    rw
      (
        header_serialize,
        g trace_header_buf_size_unit,
        copy_text_lem (word k.insts_count ++ word k.kernel_name_len) k.kernel_name k.kernel_name_len
            named,
        small,
      )
      refl

-- With memory granted, of a kernel of at most four instructions, with its name and the file names
-- within their bounds, `header_serialize` keeps within its buffer and yields the bytes of the
-- header.
pub header_serialize-done :
    (grants : ℕ → Bool) (k : KernelHeader) (unused_inst : InstHeader) (insts : List InstHeader)
    → ((n : ℕ) → grants n ≡ true)
    → k.insts ≡ unused_inst ∷ insts
    → k.insts_count ≡ length insts
    → length insts ≤ 4
    → k.kernel_name_len ≤ length k.kernel_name
    → k.kernel_name_len ≤ trace_kernelname_maxlen
    → AreReadable insts
    → header_serialize grants (some k) ≡ done (kernel_bytes k insts)
unfolding header_serialize uint64_serialize
header_serialize-done grants k unused_inst insts g all count few named short readable =
    let front =
      (word k.insts_count ++ word k.kernel_name_len) ++ take k.kernel_name_len k.kernel_name in
    header_serialize-insts grants k g named short
    ∙ ap₂ (λ n l. serialize_insts grants n 1 l trace_header_buf_size_unit front) count all
    ∙ insts_lem grants g 1 (unused_inst ∷ []) insts trace_header_buf_size_unit front refl readable
        (omega arith) (omega (arith, length-front k.insts_count k.kernel_name_len k.kernel_name))
        (omega arith)
    ∙ ap (λ l. done (l ++ insts_bytes insts 1))
        (append_assoc (word k.insts_count) (word k.kernel_name_len)
          (take k.kernel_name_len k.kernel_name))

inst_fault : (buf : List ℕ) (inst : InstHeader) → IsReadable inst → serialize_inst buf inst 5 ≡ none
unfolding serialize_inst uint64_serialize
inst_fault buf inst readable =
    rw
      (
        serialize_inst,
        meta_fault 4 ((buf ++ word inst.id) ++ word inst.inst_type) inst.meta readable.0,
      )
      refl

insts_fault :
    (grants : ℕ → Bool)
    → ((n : ℕ) → grants n ≡ true)
    → (i : ℕ) (front insts : List InstHeader) (buf_size : ℕ) (buf : List ℕ) → length front ≡ i
    → AreReadable insts
    → i ≤ 5
    → 6 ≤ i + length insts
    → length buf ≤ buf_size
    → trace_header_buf_size_unit ≤ buf_size
    → serialize_insts grants (length insts) i (front ++ insts) buf_size buf ≡ fault
unfolding serialize_insts
insts_fault grants g i front [] buf_size buf at_i readable few many inside enough =
    absurd (omega arith)
insts_fault grants g i front (inst ∷ insts) buf_size buf at_i (readable, rest) few many inside
      enough =
    elim (Bool-cases (ltb i 5)) [
      | inl before ↦
          let (step, inside', enough') =
            serialize_insts_step grants g (length insts) i front inst insts buf_size buf
              (ground arith) at_i readable inside enough in
          step
          ∙ ap
              (λ l.
                serialize_insts grants (length insts) (suc i) l (grown buf_size buf)
                  (buf ++ inst_bytes inst i))
              (sym (append_assoc front (inst ∷ []) insts))
          ∙ insts_fault grants g (suc i) (front ++ (inst ∷ [])) insts (grown buf_size buf)
              (buf ++ inst_bytes inst i) (omega (arith, length-append front (inst ∷ []))) rest
              (ground arith) (omega arith) inside' enough'
      | inr fifth ↦
          let is_5 : i ≡ 5 = ground arith in
          let granted : ((ltb (buf_size - (sizeof_inst + trace_filename_maxlen)) (length buf))
                && not (grants (grown buf_size buf)))
              ≡ false =
            ground (arith, g (grown buf_size buf)) in
          let none_5 : serialize_inst buf inst i ≡ none = rw is_5 (inst_fault buf inst readable) in
          rw (serialize_insts, granted, get_elem?-append front inst insts i at_i, none_5) refl
    ]

-- With memory granted, of a kernel of five instructions or more, however short its names are,
-- `header_serialize` reads outside of the metadata of an instruction.
pub header_serialize-fault :
    (grants : ℕ → Bool) (k : KernelHeader) (unused_inst : InstHeader) (insts : List InstHeader)
    → ((n : ℕ) → grants n ≡ true)
    → k.insts ≡ unused_inst ∷ insts
    → k.insts_count ≡ length insts
    → 5 ≤ length insts
    → k.kernel_name_len ≤ length k.kernel_name
    → k.kernel_name_len ≤ trace_kernelname_maxlen
    → AreReadable insts
    → header_serialize grants (some k) ≡ fault
header_serialize-fault grants k unused_inst insts g all count many named short readable =
    let front =
      (word k.insts_count ++ word k.kernel_name_len) ++ take k.kernel_name_len k.kernel_name in
    header_serialize-insts grants k g named short
    ∙ ap₂ (λ n l. serialize_insts grants n 1 l trace_header_buf_size_unit front) count all
    ∙ insts_fault grants g 1 (unused_inst ∷ []) insts trace_header_buf_size_unit front refl readable
        (omega arith) (omega arith)
        (omega (arith, length-front k.insts_count k.kernel_name_len k.kernel_name)) (omega arith)
