-- ===== src/TraceIo/Header/Inst.antt =====
-- One instruction of a serialized kernel header.
use mathlib.Core.List.{append_assoc}
use t_espresso.Base.{
  ℕ, zero, suc, ◌+◌, ◌-◌, ◌≤◌, ◌<◌, ◌≡◌, refl, ap, ◌∙◌, Bool, true, false, ◌&&◌, not, ltb,
  if◌then◌else◌, some, List, [], ◌∷◌, ◌++◌, get_elem?, get_or, length, length-append, length-take,
  take, le_bytes, length-le_bytes, u64, arith, get_elem?-eq-get_or,
}
use t_espresso.TraceIo.Types.{
  InstHeader, trace_filename_maxlen, trace_header_buf_size_unit, trace_header_inst_meta_size,
}
use t_espresso.TraceIo.Header.{
  uint64_serialize, copy_text, serialize_meta, serialize_inst, serialize_insts, sizeof_inst,
}

-- A number in eight bytes.
abbrev pub word : ℕ → List ℕ
word v = le_bytes 8 (u64 v)

-- Instruction `i`: its numbers, with its `i`-th metadata five times, and its file name.
abbrev pub inst_bytes : InstHeader → ℕ → List ℕ
inst_bytes inst i =
    let m = word (get_or inst.meta i 0) in
    word inst.id
    ++ (word inst.inst_type
        ++ (m
            ++ (m
                ++ (m
                    ++ (m
                        ++ (m
                            ++ (word inst.row
                                ++ (word inst.col
                                    ++ (word inst.filename_len
                                        ++ take inst.filename_len inst.filename)))))))))

abbrev pub insts_bytes : List InstHeader → ℕ → List ℕ
insts_bytes [] i = []
insts_bytes (inst ∷ insts) i = inst_bytes inst i ++ insts_bytes insts (suc i)

-- The file name is there, and eight bytes shorter than the longest that the buffer is kept free
-- for.
abbrev pub IsReadable : InstHeader → Type 0
IsReadable inst =
    (length inst.meta ≡ trace_header_inst_meta_size)
    × (inst.filename_len ≤ length inst.filename)
    × (inst.filename_len + 8 ≤ trace_filename_maxlen)

abbrev pub AreReadable : List InstHeader → Type 0
AreReadable [] = Unit {0}
AreReadable (inst ∷ insts) = IsReadable inst × AreReadable insts

pub copy_text_lem :
    (buf text : List ℕ) (n : ℕ) → n ≤ length text → copy_text buf text n ≡ some (buf ++ take n text)
unfolding copy_text
copy_text_lem buf text n h = ground arith

serialize_meta_step :
    (n : ℕ) (buf meta : List ℕ) (i : ℕ)
    → i < length meta
    → serialize_meta (suc n) buf meta i ≡ serialize_meta n (buf ++ word (get_or meta i 0)) meta i
unfolding serialize_meta uint64_serialize
serialize_meta_step n buf meta i h = rw (serialize_meta, get_elem?-eq-get_or meta i 0 h) refl

serialize_meta_lem :
    (buf meta : List ℕ) (i : ℕ)
    → i < length meta
    → let m = word (get_or meta i 0) in
      serialize_meta 5 buf meta i ≡ some (((((buf ++ m) ++ m) ++ m) ++ m) ++ m)
unfolding serialize_meta
serialize_meta_lem buf meta i h =
    let m = word (get_or meta i 0) in
    serialize_meta_step 4 buf meta i h
    ∙ serialize_meta_step 3 (buf ++ m) meta i h
    ∙ serialize_meta_step 2 ((buf ++ m) ++ m) meta i h
    ∙ serialize_meta_step 1 (((buf ++ m) ++ m) ++ m) meta i h
    ∙ serialize_meta_step 0 ((((buf ++ m) ++ m) ++ m) ++ m) meta i h

pub serialize_inst_lem :
    (buf : List ℕ) (inst : InstHeader) (i : ℕ)
    → i < 5
    → IsReadable inst
    → serialize_inst buf inst i ≡ some (buf ++ inst_bytes inst i)
unfolding serialize_inst uint64_serialize
serialize_inst_lem buf inst i h (size, there, short) =
    let m = word (get_or inst.meta i 0) in
    rw
      (
        serialize_inst,
        serialize_meta_lem ((buf ++ word inst.id) ++ word inst.inst_type) inst.meta i (omega arith),
      )
      (copy_text_lem
          (uint64_serialize
            (uint64_serialize
              (uint64_serialize
                (((((((buf ++ word inst.id) ++ word inst.inst_type) ++ m) ++ m) ++ m) ++ m) ++ m)
                inst.row)
              inst.col)
            inst.filename_len)
          inst.filename inst.filename_len there
        ∙ ap some (simp append_assoc refl))

pub length-word : (v : ℕ) → length (word v) ≡ 8
length-word v = length-le_bytes 8 (u64 v)

length-word_append : (v : ℕ) (xs : List ℕ) → length (word v ++ xs) ≡ 8 + length xs
length-word_append v xs = omega (arith, length-append (word v) xs, length-word v)

length-inst_bytes :
    (inst : InstHeader) (i : ℕ)
    → IsReadable inst
    → length (inst_bytes inst i) ≡ 80 + inst.filename_len
length-inst_bytes inst i (size, there, short) =
    simp length-word_append (omega (arith, length-take inst.filename_len inst.filename))

pub get_elem?-append :
    (front : List InstHeader) (inst : InstHeader) (rest : List InstHeader) (i : ℕ)
    → length front ≡ i
    → get_elem? (front ++ (inst ∷ rest)) i ≡ some inst
get_elem?-append [] inst rest zero h = refl
get_elem?-append [] inst rest (suc i) h = absurd (omega arith)
get_elem?-append (x ∷ front) inst rest zero h = absurd (omega arith)
get_elem?-append (x ∷ front) inst rest (suc i) h = get_elem?-append front inst rest i (omega arith)

-- The memory after the check for a full buffer.
abbrev pub grown : ℕ → List ℕ → ℕ
grown buf_size buf =
    if ltb (buf_size - (sizeof_inst + trace_filename_maxlen)) (length buf)
    then buf_size + trace_header_buf_size_unit
    else buf_size

pub serialize_insts_step :
    (grants : ℕ → Bool)
    → ((n : ℕ) → grants n ≡ true)
    → (n i : ℕ) (front : List InstHeader) (inst : InstHeader) (rest : List InstHeader)
      (buf_size : ℕ) (buf : List ℕ)
    → i < 5
    → length front ≡ i
    → IsReadable inst
    → length buf ≤ buf_size
    → trace_header_buf_size_unit ≤ buf_size
    → (serialize_insts grants (suc n) i (front ++ (inst ∷ rest)) buf_size buf
        ≡ serialize_insts grants n
            (suc i)
            (front ++ (inst ∷ rest))
            (grown buf_size buf)
            (buf ++ inst_bytes inst i))
      × (length (buf ++ inst_bytes inst i) ≤ grown buf_size buf)
      × (trace_header_buf_size_unit ≤ grown buf_size buf)
unfolding serialize_insts
serialize_insts_step grants g n i front inst rest buf_size buf h at_i readable inside enough =
    let fits : length (buf ++ inst_bytes inst i) ≤ grown buf_size buf = ground (
      arith,
      length-append buf (inst_bytes inst i),
      length-inst_bytes inst i readable,
      readable.2,
    ) in
    let granted : ((ltb (buf_size - (sizeof_inst + trace_filename_maxlen)) (length buf))
          && not (grants (grown buf_size buf)))
        ≡ false =
      ground (arith, g (grown buf_size buf)) in
    let no_fault : ltb (grown buf_size buf) (length (buf ++ inst_bytes inst i)) ≡ false =
      ground (arith, fits) in
    (
      rw
          (
            serialize_insts,
            granted,
            get_elem?-append front inst rest i at_i,
            serialize_inst_lem buf inst i h readable,
            no_fault,
          )
          refl,
      fits,
      ground arith,
    )
