-- ===== src/TraceIo/Reader/Inst.antt =====
-- What `header_deserialize` reads of one instruction.
use mathlib.Core.List.{append_assoc}
use t_espresso.Base.{
  ℕ, zero, suc, ◌≤◌, ◌<◌, ◌≡◌, refl, ap, ◌∙◌, true, false, ◌==◌, ltb, leb, if◌then◌else◌, List, [],
  ◌∷◌, ◌++◌, get_or, length, length-append, length-take, length-set, take, take-append_left,
  drop-append_left, set, of_le_bytes-le_bytes, u32, u64, arith,
}
use t_espresso.TraceIo.Types.{InstHeader, trace_header_inst_meta_size}
use t_espresso.TraceIo.Header.Inst.{word, inst_bytes, IsReadable, length-word}
use t_espresso.TraceIo.Reader.{
  fault, failed, done, Reader, ◌>>=◌, give, fault_unless, uint64_deserialize, read_text,
  deserialize_meta, deserialize_inst,
}

pub uint64_deserialize-word :
    (v : ℕ) (rest : List ℕ) → uint64_deserialize (word v ++ rest) ≡ done (u64 v) rest
unfolding uint64_deserialize
uint64_deserialize-word v rest =
    let long : ltb (length (word v ++ rest)) 8 ≡ false =
      ground (arith, length-append (word v) rest, length-word v) in
    rw
      (
        uint64_deserialize,
        long,
        take-append_left 8 (word v) rest (length-word v),
        drop-append_left 8 (word v) rest (length-word v),
        of_le_bytes-le_bytes 8 (u64 v) (omega arith),
      )
      refl

pub bind_step :
    {A B : Type 0}
    → (f : A → Reader B) (p : Reader A) (buf : List ℕ) (a : A) (rest : List ℕ) → p buf ≡ done a rest
    → (p >>= f) buf ≡ f a rest
bind_step f p buf a rest e = rw (◌>>=◌, e) refl

pub bind_fault :
    {A B : Type 0}
    → (f : A → Reader B) (p : Reader A) (buf : List ℕ) → p buf ≡ fault
    → (p >>= f) buf ≡ fault
bind_fault f p buf e = rw (◌>>=◌, e) refl

pub word_step :
    {B : Type 0}
    → (f : ℕ → Reader B) (v : ℕ) (rest : List ℕ)
    → (uint64_deserialize >>= f) (word v ++ rest) ≡ f (u64 v) rest
word_step f v rest =
    bind_step f uint64_deserialize (word v ++ rest) (u64 v) rest (uint64_deserialize-word v rest)

pub read_text_lem :
    (n : ℕ) (text rest : List ℕ) → length text ≡ n → read_text n (text ++ rest) ≡ done text rest
unfolding read_text
read_text_lem n text rest h =
    let long : ltb (length (text ++ rest)) n ≡ false = ground (arith, length-append text rest) in
    rw (long, take-append_left n text rest h, drop-append_left n text rest h) refl

set-set : (xs : List ℕ) (i v : ℕ) → set (set xs i v) i v ≡ set xs i v
set-set [] i v = refl
set-set (x ∷ xs) zero v = refl
set-set (x ∷ xs) (suc i) v = ap (λ l. x ∷ l) (set-set xs i v)

meta_step :
    (n : ℕ) (meta : List ℕ) (i v : ℕ) (rest : List ℕ)
    → i < length meta
    → deserialize_meta (suc n) meta i (word v ++ rest)
      ≡ deserialize_meta n (set meta i (u64 v)) i rest
unfolding deserialize_meta
meta_step n meta i v rest h =
    let inside : ltb i (length meta) ≡ true = ground arith in
    word_step _ v rest ∙ rw (fault_unless, inside) refl

-- `n` times the same word.
abbrev pub words_of : ℕ → List ℕ → List ℕ → List ℕ
words_of zero m rest = rest
words_of (suc n) m rest = m ++ words_of n m rest

metas :
    (n : ℕ) (meta : List ℕ) (i v : ℕ) (rest : List ℕ)
    → i < length meta
    → set meta i (u64 v) ≡ meta
    → deserialize_meta n meta i (words_of n (word v) rest) ≡ done meta rest
unfolding deserialize_meta
metas zero meta i v rest h e = refl
metas (suc n) meta i v rest h e =
    meta_step n meta i v (words_of n (word v) rest) h
    ∙ ap (λ l. deserialize_meta n l i (words_of n (word v) rest)) e
    ∙ metas n meta i v rest h e

metas_five :
    (meta : List ℕ) (i v : ℕ) (rest : List ℕ)
    → i < length meta
    → deserialize_meta 5 meta i (words_of 5 (word v) rest) ≡ done (set meta i (u64 v)) rest
metas_five meta i v rest h =
    meta_step 4 meta i v (words_of 4 (word v) rest) h
    ∙ metas 4 (set meta i (u64 v)) i v rest (omega (arith, length-set meta i (u64 v)))
        (set-set meta i (u64 v))

-- What is read into the memory `old` of instruction `i`: of the metadata, entry `i` only.
abbrev pub restored_inst : InstHeader → InstHeader → ℕ → InstHeader
restored_inst old inst i = record {
  id = u32 inst.id;
  inst_type = u32 inst.inst_type;
  meta = set old.meta i (u64 (get_or inst.meta i 0));
  row = u32 inst.row;
  col = u32 inst.col;
  filename_len = inst.filename_len;
  filename = take inst.filename_len inst.filename;
}

-- The reads of one instruction, up to the check of the memory for its file name.
inst_steps :
    (usable : ℕ → ℕ) (old inst : InstHeader) (i : ℕ) (rest : List ℕ)
    → IsReadable inst
    → i < length old.meta
    → deserialize_inst usable old i (inst_bytes inst i ++ rest)
      ≡ fault_unless
          (leb inst.filename_len (usable 4))
          (if i == u32 inst.id then give (restored_inst old inst i) else λ buf. failed)
          rest
unfolding deserialize_inst
inst_steps usable old inst i rest (size, there, short) inside =
    let m = word (get_or inst.meta i 0) in
    let name = take inst.filename_len inst.filename ++ rest in
    let tail = word inst.row ++ (word inst.col ++ (word inst.filename_len ++ name)) in
    let flat : inst_bytes inst i ++ rest
        ≡ word inst.id ++ (word inst.inst_type ++ words_of 5 m tail) =
      simp append_assoc refl in
    let small : u32 (u64 inst.filename_len) ≡ inst.filename_len = omega arith in
    let id_lem : u32 (u64 inst.id) ≡ u32 inst.id = omega arith in
    let type_lem : u32 (u64 inst.inst_type) ≡ u32 inst.inst_type = omega arith in
    let row_lem : u32 (u64 inst.row) ≡ u32 inst.row = omega arith in
    let col_lem : u32 (u64 inst.col) ≡ u32 inst.col = omega arith in
    let named =
      read_text_lem (u32 (u64 inst.filename_len)) (take inst.filename_len inst.filename) rest
        (omega (arith, length-take inst.filename_len inst.filename)) in
    ap (deserialize_inst usable old i) flat
    ∙ word_step _ inst.id (word inst.inst_type ++ words_of 5 m tail)
    ∙ word_step _ inst.inst_type (words_of 5 m tail)
    ∙ bind_step _ (deserialize_meta trace_header_inst_meta_size old.meta i) (words_of 5 m tail)
        (set old.meta i (u64 (get_or inst.meta i 0))) tail
        (metas_five old.meta i (get_or inst.meta i 0) tail inside)
    ∙ word_step _ inst.row (word inst.col ++ (word inst.filename_len ++ name))
    ∙ word_step _ inst.col (word inst.filename_len ++ name)
    ∙ word_step _ inst.filename_len name
    ∙ bind_step _ (read_text (u32 (u64 inst.filename_len))) name
        (take inst.filename_len inst.filename) rest named
    ∙ rw (small, id_lem, type_lem, row_lem, col_lem) refl

pub deserialize_inst_lem :
    (usable : ℕ → ℕ) (old inst : InstHeader) (i : ℕ) (rest : List ℕ)
    → IsReadable inst
    → i < length old.meta
    → inst.filename_len ≤ usable 4
    → i ≡ u32 inst.id
    → deserialize_inst usable old i (inst_bytes inst i ++ rest)
      ≡ done (restored_inst old inst i) rest
deserialize_inst_lem usable old inst i rest readable inside fits same =
    let room : leb inst.filename_len (usable 4) ≡ true = ground arith in
    let counts : (i == u32 inst.id) ≡ true = ground arith in
    inst_steps usable old inst i rest readable inside ∙ rw (room, counts) refl

-- A file name that is longer than the memory that it is copied to.
pub inst_overrun :
    (usable : ℕ → ℕ) (old inst : InstHeader) (i : ℕ) (rest : List ℕ)
    → IsReadable inst
    → i < length old.meta
    → usable 4 < inst.filename_len
    → deserialize_inst usable old i (inst_bytes inst i ++ rest) ≡ fault
unfolding deserialize_inst
inst_overrun usable old inst i rest readable inside long =
    let room : leb inst.filename_len (usable 4) ≡ false = ground arith in
    inst_steps usable old inst i rest readable inside ∙ rw room refl
