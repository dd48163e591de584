-- ===== src/TraceIo/Deserialize.antt =====
-- `trace_deserialize`. The serialized record is the list of its 64-bit words; the table of kernels
-- is `kernel_count` with `kernel_accdat`.
use t_espresso.Base.{
  ℕ, zero, suc, ◌+◌, ◌*◌, ◌^◌, Bool, not, ◌==◌, ltb, if◌then◌else◌, List, [], ◌∷◌, bit_and, bit_or,
  shl64, not64, u64, set, get_or,
}
use t_espresso.Record.{
  record_header_unit, record_data_unit_max, llgt_get_bitfield, llgt_set_bitfield,
  record_get_nonzeromask, record_get_kernid, record_get_instid, record_get_warp_v,
  record_get_activemask, record_get_writemask, record_get_ctax, record_get_ctay, record_get_ctaz,
  record_get_grid, record_get_warp_p, record_get_sm, record_get_msb, record_get_clock,
  record_get_delta, record_get_data,
}
use t_espresso.TraceIo.Types.{InstHeader, KernelHeader, TraceRecord, empty_inst, empty_kernel}

-- `mask & LLGT_SET_BITFIELD(1, i, 1)` as a condition.
unfoldable pub lane_in : ℕ → ℕ → Bool
lane_in mask i = not (bit_and mask (llgt_set_bitfield 1 i 1) == 0)

-- Recover the header: word `i` and the `n - 1` words after it.
unfoldable pub recover_header : ℕ → ℕ → ℕ → List ℕ → List ℕ
recover_header zero i mask buf = buf
recover_header (suc n) i mask buf =
    recover_header n (suc i) mask (if bit_and mask (shl64 1 i) == 0 then set buf i 0 else buf)

-- Recover the data: lane `record_i` and the `n - 1` lanes after it. As in the source, the
-- position moves on at a recovered word only.
unfoldable pub recover_data : ℕ → ℕ → ℕ → ℕ → ℕ → List ℕ → List ℕ
recover_data zero record_i writemask nonzero_mask_data record_serialized_i buf = buf
recover_data (suc n) record_i writemask nonzero_mask_data record_serialized_i buf =
    let empty = lane_in (bit_and writemask (not64 nonzero_mask_data)) record_i in
    recover_data n (suc record_i) writemask nonzero_mask_data
      (if empty then suc record_serialized_i else record_serialized_i)
      (if empty then set buf (record_header_unit + record_serialized_i) 0 else buf)

-- The data of lane `record_i` and of the `n - 1` lanes after it.
unfoldable pub expand_data : ℕ → ℕ → ℕ → ℕ → ℕ → List ℕ → ℕ → ℕ → ℕ → List ℕ
expand_data zero record_i writemask activemask msb buf record_serialized_i delta value = []
expand_data (suc n) record_i writemask activemask msb buf record_serialized_i delta value =
    let written = lane_in writemask record_i in
    let delta' = if written then record_get_delta buf record_serialized_i else delta in
    let value' = if written then record_get_data buf record_serialized_i else value in
    (if lane_in activemask record_i
      then bit_or (llgt_set_bitfield msb 32 32) (llgt_set_bitfield value' 0 32)
      else 0)
    ∷ expand_data n (suc record_i) writemask activemask msb buf
        (if written then suc record_serialized_i else record_serialized_i) delta'
        (u64 (value' + delta'))

-- `((uint64_t*) record)[k]` for `k` from 6 on, where `record` is the `trace_record_t` itself.
unfoldable pub struct_words : TraceRecord → List ℕ
struct_words r =
    0 ∷ 0 ∷ 0 ∷ 0 ∷ 0 ∷ 0 ∷ (r.warpp + r.sm * 2 ^ 32) ∷ (r.msb + r.clock * 2 ^ 32) ∷ r.thread_data

-- The loop for a record whose upper halves differ: it reads from the structure, not from the
-- serialized record.
unfoldable pub copy_struct : ℕ → ℕ → TraceRecord → TraceRecord
copy_struct zero i r = r
copy_struct (suc n) i r = copy_struct n (suc i) (record r {
  thread_data = set r.thread_data i (
      bit_or (shl64 (record_get_delta (struct_words r) i) 32) (record_get_data (struct_words r) i));
})

unfoldable pub find_kernel : ℕ → List KernelHeader → ℕ → KernelHeader
find_kernel kernel_count kernel_accdat kernid =
    if ltb kernid kernel_count then get_or kernel_accdat kernid empty_kernel else empty_kernel

unfoldable pub find_inst : KernelHeader → ℕ → InstHeader
find_inst k instid =
    if ltb instid k.insts_count then get_or k.insts instid empty_inst else empty_inst

-- The header of the recovered record. A write mask of 0 says that the upper halves differ.
unfoldable pub deserialize_header : List ℕ → ℕ → List KernelHeader → List ℕ → TraceRecord
deserialize_header buf kernel_count kernel_accdat thread_data =
    let kernel = find_kernel kernel_count kernel_accdat (record_get_kernid buf) in
    record {
      kernel_info = kernel;
      inst_info = find_inst kernel (record_get_instid buf);
      warpv = record_get_warp_v buf;
      activemask = record_get_activemask buf;
      writemask =
          if record_get_writemask buf == 0
          then record_get_activemask buf
          else record_get_writemask buf;
      ctaid = record { x = record_get_ctax buf; y = record_get_ctay buf; z = record_get_ctaz buf };
      grid = record_get_grid buf;
      warpp = record_get_warp_p buf;
      sm = record_get_sm buf;
      msb = record_get_msb buf;
      clock = record_get_clock buf;
      thread_data = thread_data;
    }

unfoldable pub trace_deserialize : List ℕ → ℕ → List KernelHeader → TraceRecord → TraceRecord
trace_deserialize record_serialized kernel_count kernel_accdat r =
    let nonzero_mask = record_get_nonzeromask record_serialized in
    let buf =
      recover_header record_header_unit 0 (llgt_get_bitfield nonzero_mask 0 record_header_unit)
        record_serialized in
    let r' = deserialize_header buf kernel_count kernel_accdat r.thread_data in
    let buf' =
      recover_data record_data_unit_max 0 r'.writemask
        (llgt_get_bitfield nonzero_mask record_header_unit record_data_unit_max) 0 buf in
    if record_get_writemask buf == 0 then copy_struct record_data_unit_max 0 r' else record r' {
      thread_data = expand_data record_data_unit_max 0 r'.writemask r'.activemask r'.msb buf' 0 0 0;
    }
