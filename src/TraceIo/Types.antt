-- ===== src/TraceIo/Types.antt =====
-- The structures of lib/trace-io.h. Text is the list of its bytes, without the closing zero.
use t_espresso.Base.{ℕ, ◌*◌, ◌^◌, List, [], ◌∷◌, replicate}
use t_espresso.Record.{record_unknown, slot_size}

-- TRACE_FILENAME_MAXLEN, TRACE_KERNELNAME_MAXLEN, TRACEFILE_BUF_SIZE,
-- TRACE_HEADER_BUF_SIZE_UNIT and TRACE_HEADER_INST_META_SIZE.
abbrev pub trace_filename_maxlen : ℕ
trace_filename_maxlen = 2 ^ 12

abbrev pub trace_kernelname_maxlen : ℕ
trace_kernelname_maxlen = 2 ^ 12

abbrev pub tracefile_buf_size : ℕ
tracefile_buf_size = slot_size * 4

abbrev pub trace_header_buf_size_unit : ℕ
trace_header_buf_size_unit = 1024 * 1024

abbrev pub trace_header_inst_meta_size : ℕ
trace_header_inst_meta_size = 5

-- `NAME_UNKNOWN`, TRACE_HEADER_PREFIX and TRACE_HEADER_POSTFIX, the last two as `sizeof`
-- counts them, with the closing zero.
abbrev pub name_unknown : List ℕ
name_unknown = b'(' ∷ b'u' ∷ b'n' ∷ b'k' ∷ b'n' ∷ b'o' ∷ b'w' ∷ b'n' ∷ b')' ∷ []

abbrev pub trace_header_prefix : List ℕ
trace_header_prefix =
    b'_' ∷ b'_' ∷ b'C' ∷ b'U' ∷ b'P' ∷ b'R' ∷ b'O' ∷ b'F' ∷ b'_' ∷ b'T' ∷ b'R' ∷ b'A' ∷ b'C' ∷ b'E'
    ∷ b'_' ∷ b'_' ∷ 0 ∷ []

abbrev pub trace_header_postfix : List ℕ
trace_header_postfix =
    b'_' ∷ b'_' ∷ b'C' ∷ b'U' ∷ b'P' ∷ b'R' ∷ b'O' ∷ b'F' ∷ b'_' ∷ b'T' ∷ b'R' ∷ b'A' ∷ b'C' ∷ b'E'
    ∷ b'_' ∷ b'_' ∷ b'E' ∷ b'N' ∷ b'D' ∷ b'_' ∷ b'_' ∷ 0 ∷ []

-- `cta_t`
pub record Cta : Type 0 where
  pub x : ℕ
  pub y : ℕ
  pub z : ℕ

-- `trace_header_inst_t`. `type` is named `inst_type`.
pub record InstHeader : Type 0 where
  pub id : ℕ
  pub inst_type : ℕ
  pub meta : List ℕ
  pub row : ℕ
  pub col : ℕ
  pub filename_len : ℕ
  pub filename : List ℕ

-- `empty_inst`; its file name is a null pointer.
abbrev pub empty_inst : InstHeader
empty_inst = record {
  id = 0;
  inst_type = record_unknown;
  meta = replicate trace_header_inst_meta_size 0;
  row = 0;
  col = 0;
  filename_len = 11;
  filename = [];
}

-- `trace_header_kernel_t`. The instructions stand at `insts[1]` up to `insts[insts_count]`.
pub record KernelHeader : Type 0 where
  pub insts_count : ℕ
  pub kernel_name_len : ℕ
  pub kernel_name : List ℕ
  pub insts : List InstHeader

-- `empty_kernel`
abbrev pub empty_kernel : KernelHeader
empty_kernel = record {
  insts_count = 0;
  kernel_name_len = 11;
  kernel_name = name_unknown;
  insts = record empty_inst { inst_type = 0; filename_len = 0 } ∷ [];
}

-- `trace_record_t`
pub record TraceRecord : Type 0 where
  pub kernel_info : KernelHeader
  pub inst_info : InstHeader
  pub warpv : ℕ
  pub activemask : ℕ
  pub writemask : ℕ
  pub ctaid : Cta
  pub grid : ℕ
  pub warpp : ℕ
  pub sm : ℕ
  pub msb : ℕ
  pub clock : ℕ
  pub thread_data : List ℕ
