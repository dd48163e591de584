-- ===== src/Record.antt =====
-- lib/common.h: the layout of a trace record, its field macros and the record types. A record is
-- the list of its 64-bit words.
pub mod RoundTrip
mod Tests
use t_espresso.Base.{ℕ, ◌+◌, ◌*◌, List, [], ◌∷◌, bit_and, bit_or, u64, shl64, shr, sub64, get_or}

-- RECORD_HEADER_UNIT, RECORD_HEADER_SIZE, RECORD_DATA_UNIT_MAX and RECORD_SIZE.
abbrev pub record_header_unit : ℕ
record_header_unit = 6

abbrev pub record_header_unit_size : ℕ
record_header_unit_size = 8

abbrev pub record_header_size : ℕ
record_header_size = record_header_unit_size * record_header_unit

abbrev pub record_data_unit_size : ℕ
record_data_unit_size = 8

abbrev pub record_data_size : ℕ → ℕ
record_data_size data_len = record_data_unit_size * data_len

abbrev pub record_size : ℕ → ℕ
record_size data_len = record_header_size + record_data_size data_len

abbrev pub record_data_unit_max : ℕ
record_data_unit_max = 32

abbrev pub record_size_max : ℕ
record_size_max = record_size record_data_unit_max

-- UNIT_SLOT_SIZE, MULTI_BUF_COUNT, SLOT_SIZE, SLOTS_PER_DEV and CACHELINE.
abbrev pub unit_slot_size : ℕ
unit_slot_size = 0x80000

abbrev pub multi_buf_count : ℕ
multi_buf_count = 4

abbrev pub slot_size : ℕ
slot_size = unit_slot_size * multi_buf_count

abbrev pub slots_per_dev : ℕ
slots_per_dev = 16

abbrev pub cacheline : ℕ
cacheline = 128

-- LLGT_BIT_MASK, LLGT_GET_BITFIELD and LLGT_SET_BITFIELD.
abbrev pub llgt_bit_mask : ℕ → ℕ
llgt_bit_mask width = sub64 (shl64 1 width) 1

unfoldable pub llgt_get_bitfield : ℕ → ℕ → ℕ → ℕ
llgt_get_bitfield w start width = bit_and (shr (u64 w) start) (llgt_bit_mask width)

unfoldable pub llgt_set_bitfield : ℕ → ℕ → ℕ → ℕ
llgt_set_bitfield w start width = shl64 (bit_and (u64 w) (llgt_bit_mask width)) start

-- `((uint64_t*)record)[i]`.
abbrev pub word : List ℕ → ℕ → ℕ
word record_words i = get_or record_words i 0

-- Decoding.
unfoldable pub record_get_nonzeromask : List ℕ → ℕ
record_get_nonzeromask r = llgt_get_bitfield (word r 0) 26 38

unfoldable pub record_get_kernid : List ℕ → ℕ
record_get_kernid r = llgt_get_bitfield (word r 0) 16 10

unfoldable pub record_get_instid : List ℕ → ℕ
record_get_instid r = llgt_get_bitfield (word r 0) 5 11

unfoldable pub record_get_warp_v : List ℕ → ℕ
record_get_warp_v r = llgt_get_bitfield (word r 0) 0 5

unfoldable pub record_get_activemask : List ℕ → ℕ
record_get_activemask r = llgt_get_bitfield (word r 1) 32 32

unfoldable pub record_get_writemask : List ℕ → ℕ
record_get_writemask r = llgt_get_bitfield (word r 1) 0 32

unfoldable pub record_get_ctax : List ℕ → ℕ
record_get_ctax r = llgt_get_bitfield (word r 2) 32 32

unfoldable pub record_get_ctay : List ℕ → ℕ
record_get_ctay r = llgt_get_bitfield (word r 2) 16 16

unfoldable pub record_get_ctaz : List ℕ → ℕ
record_get_ctaz r = llgt_get_bitfield (word r 2) 0 16

unfoldable pub record_get_grid : List ℕ → ℕ
record_get_grid r = word r 3

unfoldable pub record_get_warp_p : List ℕ → ℕ
record_get_warp_p r = llgt_get_bitfield (word r 4) 32 32

unfoldable pub record_get_sm : List ℕ → ℕ
record_get_sm r = llgt_get_bitfield (word r 4) 0 32

unfoldable pub record_get_msb : List ℕ → ℕ
record_get_msb r = llgt_get_bitfield (word r 5) 32 32

unfoldable pub record_get_clock : List ℕ → ℕ
record_get_clock r = llgt_get_bitfield (word r 5) 0 32

unfoldable pub record_get_delta : List ℕ → ℕ → ℕ
record_get_delta r i = llgt_get_bitfield (word r (record_header_unit + i)) 32 32

unfoldable pub record_get_data : List ℕ → ℕ → ℕ
record_get_data r i = llgt_get_bitfield (word r (record_header_unit + i)) 0 32

-- Encoding. The last field of header 0 is written from `instid`, as in the source.
unfoldable pub record_set_header_0 : ℕ → ℕ → ℕ → ℕ → ℕ
record_set_header_0 nonzero_mask kernid instid warpv =
    bit_or
      (bit_or (bit_or (llgt_set_bitfield nonzero_mask 26 38) (llgt_set_bitfield kernid 16 10))
        (llgt_set_bitfield instid 5 11))
      (llgt_set_bitfield instid 0 5)

unfoldable pub record_set_header_1 : ℕ → ℕ → ℕ
record_set_header_1 activemask writemask =
    bit_or (llgt_set_bitfield activemask 32 32) (llgt_set_bitfield writemask 0 32)

unfoldable pub record_set_header_2 : ℕ → ℕ
record_set_header_2 cta = u64 cta

unfoldable pub record_set_header_3 : ℕ → ℕ
record_set_header_3 grid = u64 grid

unfoldable pub record_set_header_4 : ℕ → ℕ → ℕ
record_set_header_4 warpp sm = bit_or (llgt_set_bitfield warpp 32 32) (llgt_set_bitfield sm 0 32)

unfoldable pub record_set_header_5 : ℕ → ℕ → ℕ
record_set_header_5 msb clock = bit_or (llgt_set_bitfield msb 32 32) (llgt_set_bitfield clock 0 32)

unfoldable pub record_set_data : ℕ → ℕ → ℕ
record_set_data delta value = bit_or (llgt_set_bitfield delta 32 32) (llgt_set_bitfield value 0 32)

-- `enum RECORD_TYPE`, by its numbers.
abbrev pub record_load : ℕ
record_load = 0

abbrev pub record_store : ℕ
record_store = 1

abbrev pub record_atomic : ℕ
record_atomic = 2

abbrev pub record_execute : ℕ
record_execute = 3

abbrev pub record_return : ℕ
record_return = 4

abbrev pub record_unknown : ℕ
record_unknown = 5
