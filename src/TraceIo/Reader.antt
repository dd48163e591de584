-- ===== src/TraceIo/Reader.antt =====
-- `uint64_deserialize` and `header_deserialize` of lib/trace-io.h. What is read of a buffer is the
-- list of the bytes from `offset` on, so that reading moves to the rest of the list. What is printed
-- on the way is `open_text` of Dump.
pub mod Inst
pub mod RoundTrip
pub mod Overrun
use t_espresso.Base.{
  ℕ, zero, suc, ◌+◌, ◌-◌, ◌==◌, Bool, true, false, ltb, leb, min, if◌then◌else◌, Option, none, some,
  List, [], ◌∷◌, ◌++◌, get_elem?, length, take, drop, set, of_le_bytes, u32,
}
use t_espresso.TraceIo.Types.{
  InstHeader, KernelHeader, trace_kernelname_maxlen, trace_header_inst_meta_size,
}

-- What reading ends in: an access outside of an array, of the buffer or of allocated memory; a
-- reported error; or a value and the rest of the buffer.
pub data Parsed (A : Type 0) : Type 0 where
  fault : Parsed A
  failed : Parsed A
  done : A → List ℕ → Parsed A

abbrev pub Reader : Type 0 → Type 0
Reader A = List ℕ → Parsed A

infixl 5 ◌>>=◌
abbrev pub ◌>>=◌ : {A B : Type 0} → Reader A → (A → Reader B) → Reader B
◌>>=◌ p f buf = elim (p buf) [ fault ↦ fault | failed ↦ failed | done a rest ↦ f a rest ]

abbrev pub give : {A : Type 0} → A → Reader A
give a buf = done a buf

abbrev pub fault_unless : {A : Type 0} → Bool → Reader A → Reader A
fault_unless b p buf = elim b [ true ↦ p buf | false ↦ fault ]

unfoldable pub uint64_deserialize : Reader ℕ
uint64_deserialize buf =
    if ltb (length buf) 8 then fault else done (of_le_bytes (take 8 buf)) (drop 8 buf)

-- `memcpy` of `n` bytes of the buffer.
unfoldable pub read_text : ℕ → Reader (List ℕ)
read_text n buf = if ltb (length buf) n then fault else done (take n buf) (drop n buf)

-- The loop over the metadata, which writes `meta[i]` at each of its `n` rounds.
unfoldable pub deserialize_meta : ℕ → List ℕ → ℕ → Reader (List ℕ)
deserialize_meta zero meta i = give meta
deserialize_meta (suc n) meta i = do
  v ← uint64_deserialize
  fault_unless (ltb i (length meta)) (deserialize_meta n (set meta i v) i)

-- Instruction `i` into the memory `inst`. `usable` tells how many bytes `malloc` gives room for;
-- its argument here is `sizeof(inst_header->filename_len)`.
unfoldable pub deserialize_inst : (ℕ → ℕ) → InstHeader → ℕ → Reader InstHeader
deserialize_inst usable inst i = do
  id ← uint64_deserialize
  inst_type ← uint64_deserialize
  meta ← deserialize_meta trace_header_inst_meta_size inst.meta i
  row ← uint64_deserialize
  col ← uint64_deserialize
  filename_len ← uint64_deserialize
  filename ← read_text (u32 filename_len)
  fault_unless (leb (u32 filename_len) (usable 4)) (
      if i == u32 id
      then give (record {
        id = u32 id;
        inst_type = u32 inst_type;
        meta = meta;
        row = u32 row;
        col = u32 col;
        filename_len = u32 filename_len;
        filename = filename;
      })
      else λ buf. failed)

-- The loop from instruction `i` on for `n` of them, into the memory `insts`.
unfoldable pub deserialize_insts : (ℕ → ℕ) → ℕ → ℕ → List InstHeader → Reader (List InstHeader)
deserialize_insts usable zero i insts = give insts
deserialize_insts usable (suc n) i insts = elim (get_elem? insts i) [
  | none ↦ λ buf. fault
  | some inst ↦ do
    inst' ← deserialize_inst usable inst i
    deserialize_insts usable n (suc i) (set insts i inst')
]

-- `k` is the memory that the header is read into.
unfoldable pub header_deserialize : (ℕ → ℕ) → KernelHeader → Reader KernelHeader
header_deserialize usable k = do
  insts_count ← uint64_deserialize
  name_len ← uint64_deserialize
  kernel_name ← read_text (min trace_kernelname_maxlen (u32 name_len))
  insts ← deserialize_insts usable (u32 insts_count) 1 k.insts
  give (record {
    insts_count = u32 insts_count;
    kernel_name_len = min trace_kernelname_maxlen (u32 name_len);
    kernel_name = kernel_name;
    insts = insts;
  })
