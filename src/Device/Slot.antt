-- ===== src/Device/Slot.antt =====
-- The part of `___cuprof_trace` that reserves and commits space in the slot of a multiprocessor.
-- `alloc`, `commit`, `signal` and `flushed` are 32-bit counters that wrap.
pub mod Laws
use t_espresso.Base.{
  ℕ, ◌+◌, ◌-◌, ◌*◌, ◌%◌, Bool, ◌&&◌, not, ltb, leb, if◌then◌else◌, sub32, sub64, u32,
}
use t_espresso.Record.{record_size_max, unit_slot_size, slot_size}

pub record Counters : Type 0 where
  pub alloc : ℕ
  pub commit : ℕ
  pub signal : ℕ
  pub flushed : ℕ

-- `atomicAdd(alloc, record_size)`: the offset that was allocated, and the counters after it.
unfoldable pub reserve : Counters → ℕ → ℕ × Counters
reserve c record_size = (c.alloc, record c { alloc = u32 (c.alloc + record_size) })

unfoldable pub rec_offset : ℕ → ℕ
rec_offset alloc_raw = alloc_raw % slot_size

-- The condition that the waiting loop repeats on.
unfoldable pub must_wait : ℕ → ℕ → Bool
must_wait alloc_raw flushed_cur = leb (slot_size - record_size_max) (sub32 alloc_raw flushed_cur)

-- The byte of the slot at which byte `i` of the record is stored.
unfoldable pub rec_byte : ℕ → ℕ → ℕ
unfolding rec_offset
rec_byte alloc_raw i = (rec_offset alloc_raw + i) % slot_size

abbrev pub flush_unit : ℕ
flush_unit = unit_slot_size - record_size_max

abbrev pub flush_threshold : ℕ
flush_threshold = unit_slot_size - 2 * record_size_max

-- The condition of the flush request. The size is 64 bits wide, so that the first difference is.
unfoldable pub requests_flush : ℕ → ℕ → ℕ → Bool
requests_flush commit_raw flushed_cur record_size =
    leb flush_threshold (sub64 (sub32 commit_raw flushed_cur) record_size % flush_unit)
    && ltb (sub32 commit_raw flushed_cur % flush_unit) flush_threshold

-- `commit_raw = atomicAdd(commit, record_size) + record_size`: what a warp commits to, and the
-- counters after it.
unfoldable pub add_commit : Counters → ℕ → ℕ × Counters
add_commit c record_size =
    let commit_raw = u32 (c.commit + record_size) in (commit_raw, record c { commit = commit_raw })

-- The request of the warp that has committed to `commit_raw`, at whatever the counters are by then:
-- a store that is not atomic with the addition.
unfoldable pub request_flush : Counters → ℕ → ℕ → ℕ → Counters
unfolding requests_flush
request_flush c commit_raw flushed_cur record_size =
    if requests_flush commit_raw flushed_cur record_size
    then record c { signal = commit_raw }
    else c
