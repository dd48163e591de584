-- ===== src/TraceIo/Header.antt =====
-- `uint64_serialize` and `header_serialize` of lib/trace-io.h. The buffer is the list of the bytes
-- up to `offset`, `buf_size` the size of its memory.
pub mod Inst
pub mod Laws
use t_espresso.Base.{
  ℕ, zero, suc, ◌+◌, ◌-◌, Bool, true, false, ◌&&◌, not, ltb, if◌then◌else◌, Option, none, some,
  List, [], ◌∷◌, ◌++◌, get_elem?, length, take, le_bytes, u64,
}
use t_espresso.TraceIo.Types.{
  InstHeader, KernelHeader, trace_filename_maxlen, trace_header_buf_size_unit,
  trace_header_inst_meta_size,
}

-- What `header_serialize` ends in: an access outside of an array or of the buffer, a null pointer,
-- or the bytes.
pub data Serialized : Type 0 where
  fault : Serialized
  null : Serialized
  done : List ℕ → Serialized

unfoldable pub uint64_serialize : List ℕ → ℕ → List ℕ
uint64_serialize buf input = buf ++ le_bytes 8 (u64 input)

-- `memcpy` of the first `n` bytes of a text to the end of the buffer.
unfoldable pub copy_text : List ℕ → List ℕ → ℕ → Option (List ℕ)
copy_text buf text n = if ltb (length text) n then none else some (buf ++ take n text)

-- The loop over the metadata, which reads `meta[i]` at each of its rounds.
unfoldable pub serialize_meta : ℕ → List ℕ → List ℕ → ℕ → Option (List ℕ)
unfolding uint64_serialize
serialize_meta zero buf meta i = some buf
serialize_meta (suc n) buf meta i = elim (get_elem? meta i) [
  | none ↦ none
  | some v ↦ serialize_meta n (uint64_serialize buf v) meta i
]

-- The instruction `insts[i]`.
unfoldable pub serialize_inst : List ℕ → InstHeader → ℕ → Option (List ℕ)
unfolding uint64_serialize serialize_meta copy_text
serialize_inst buf inst i =
    let front = uint64_serialize (uint64_serialize buf inst.id) inst.inst_type in
    elim (serialize_meta trace_header_inst_meta_size front inst.meta i) [
      | none ↦ none
      | some buf' ↦
          copy_text
            (uint64_serialize (uint64_serialize (uint64_serialize buf' inst.row) inst.col)
              inst.filename_len)
            inst.filename inst.filename_len
    ]

-- `sizeof(trace_header_inst_t)`
abbrev pub sizeof_inst : ℕ
sizeof_inst = 72

-- The loop from instruction `i` on for `n` of them. `grants` tells of each size whether memory of
-- this size is granted.
unfoldable pub serialize_insts : (ℕ → Bool) → ℕ → ℕ → List InstHeader → ℕ → List ℕ → Serialized
unfolding serialize_inst
serialize_insts grants zero i insts buf_size buf = if grants (length buf) then done buf else null
serialize_insts grants (suc n) i insts buf_size buf =
    let full = ltb (buf_size - (sizeof_inst + trace_filename_maxlen)) (length buf) in
    let buf_size' = if full then buf_size + trace_header_buf_size_unit else buf_size in
    elim (full && not (grants buf_size')) [
      | true ↦ null
      | false ↦ elim (get_elem? insts i) [
        | none ↦ fault
        | some inst ↦ elim (serialize_inst buf inst i) [
          | none ↦ fault
          | some buf' ↦ elim (ltb buf_size' (length buf')) [
            | true ↦ fault
            | false ↦ serialize_insts grants n (suc i) insts buf_size' buf'
          ]
        ]
      ]
    ]

unfoldable pub header_serialize : (ℕ → Bool) → Option KernelHeader → Serialized
unfolding uint64_serialize copy_text serialize_insts
header_serialize grants none = null
header_serialize grants (some k) = elim (grants trace_header_buf_size_unit) [
  | false ↦ null
  | true ↦
      elim (copy_text (uint64_serialize (uint64_serialize [] k.insts_count) k.kernel_name_len)
        k.kernel_name k.kernel_name_len) [
          | none ↦ fault
          | some buf ↦ elim (ltb trace_header_buf_size_unit (length buf)) [
            | true ↦ fault
            | false ↦ serialize_insts grants k.insts_count 1 k.insts trace_header_buf_size_unit buf
          ]
        ]
]
