-- ===== src/Protocol.antt =====
-- One slot that the records of many warps and the host use at the same time: the counters of
-- `___cuprof_trace` in support/device-support.cu and `consumeSlot` of support/host-support.cu,
-- interleaved in any order. A record is one execution of `___cuprof_trace`. The ring is the slot as
-- 64-bit words, which is how the device stores it and how the host waits for it.
pub mod Invariant
pub mod Reserve
pub mod Moves
pub mod Store
pub mod Flush
pub mod Safety
mod Tests
use t_espresso.Base.{
  ℕ, zero, suc, ◌+◌, ◌-◌, ◌*◌, ◌/◌, ◌%◌, ◌^◌, ◌≤◌, ◌<◌, ◌≡◌, ◌≢◌, Bool, true, false, ◌==◌, ltb, leb,
  ◌&&◌, if◌then◌else◌, List, [], ◌∷◌, ◌++◌, length, sub32, u32,
}
use t_espresso.Record.{slot_size, record_size_max}
use t_espresso.Device.Slot.{Counters, reserve, must_wait, rec_byte, requests_flush}

-- What the leading lane has done of the commit: nothing, the addition with its result, and all.
pub data Stage : Type 0 where
  filling : Stage
  counted : ℕ → Stage
  done : Stage

-- Where a record stands: not started; waiting with the offset that it was given, its number of
-- words and its words; or storing them, with the flush that it has seen, the offsets of the words
-- that are not stored yet, and how far its leading lane is. The lanes store in any order, and the
-- leading lane does not wait for the others.
pub data Pc : Type 0 where
  idle : Pc
  waiting : ℕ → ℕ → (ℕ → ℕ) → Pc
  writing : ℕ → ℕ → (ℕ → ℕ) → ℕ → (ℕ → Bool) → Stage → Pc

-- `log` and `reserved` are the history: the words of all records in the order in which their
-- space was allocated, and their number.
pub record System : Type 0 where
  pub counters : Counters
  pub ring : ℕ → ℕ
  pub file : List ℕ
  pub pc : ℕ → Pc
  pub log : ℕ → ℕ
  pub reserved : ℕ

abbrev pub slot_words : ℕ
slot_words = slot_size / 8

abbrev pub update {ℓ} : {A : Type ℓ} → (ℕ → A) → ℕ → A → ℕ → A
update f i a j = if j == i then a else f j

-- The log with `n` words after the first `at`.
abbrev pub extend : (ℕ → ℕ) → ℕ → ℕ → (ℕ → ℕ) → ℕ → ℕ
extend log at n words q = if leb at q && ltb q (at + n) then words (q - at) else log q

-- The word of the ring at which word `o` of the record is stored.
abbrev pub rec_word : ℕ → ℕ → ℕ
rec_word alloc_raw o = rec_byte alloc_raw (8 * o) / 8

-- The `n` words of the ring from word `at` on, and the ring with these words zero.
abbrev pub ring_words : (ℕ → ℕ) → ℕ → ℕ → List ℕ
ring_words ring at zero = []
ring_words ring at (suc n) = ring (at % slot_words) ∷ ring_words ring (suc at) n

-- Whether word `k` of the ring is one of the `n` words from `at` on.
abbrev pub in_words : ℕ → ℕ → ℕ → Bool
in_words at n k = ltb ((k + slot_words - at % slot_words) % slot_words) n

abbrev pub clear_words : (ℕ → ℕ) → ℕ → ℕ → ℕ → ℕ
clear_words ring at n k = if in_words at n k then 0 else ring k

-- The commit counter itself counts once no kernel runs.
abbrev pub signal_read : Counters → Bool → ℕ
signal_read c is_kernel_active = if is_kernel_active then c.signal else c.commit

-- The state after a flush up to `signal`.
abbrev pub flushed_by : System → ℕ → System
flushed_by s signal = record s {
  counters = record s.counters { flushed = signal };
  ring = clear_words s.ring (s.counters.flushed / 8) (sub32 signal s.counters.flushed / 8);
  file = s.file ++ ring_words s.ring (s.counters.flushed / 8) (sub32 signal s.counters.flushed / 8);
}

-- One step of one record or of the host. A flush is one step, at the moment when the device learns
-- of it: what the host waited for stays as it is until then, and nothing else is stored there. No
-- word of a record is zero, since the device stores all ones in its place. Fewer than 2 ^ 32 bytes
-- are allocated and not flushed at a time, since a device runs far fewer warps than that.
pub data Step (s : System) : System → Type 0 where
  allocate :
      (i n : ℕ) (words : ℕ → ℕ)
      → s.pc i ≡ idle
      → 0 < n
      → 8 * n ≤ record_size_max
      → ((o : ℕ) → o < n → words o ≢ 0)
      → 8 * s.reserved < 8 * length s.file + 2 ^ 32
      → Step s (record s {
        counters = (reserve s.counters (8 * n)).1;
        pc = update s.pc i (waiting (reserve s.counters (8 * n)).0 n words);
        log = extend s.log s.reserved n words;
        reserved = s.reserved + n;
      })
  pass :
      (i alloc_raw n : ℕ) (words : ℕ → ℕ)
      → s.pc i ≡ waiting alloc_raw n words
      → must_wait alloc_raw s.counters.flushed ≡ false
      → Step s (record s {
        pc = update s.pc i (writing alloc_raw n words s.counters.flushed (λ o. ltb o n) filling);
      })
  store :
      (i alloc_raw n : ℕ) (words : ℕ → ℕ) (flushed_cur : ℕ) (todo : ℕ → Bool) (stage : Stage)
      (o : ℕ)
      → s.pc i ≡ writing alloc_raw n words flushed_cur todo stage
      → todo o ≡ true
      → Step s (record s {
        ring = update s.ring (rec_word alloc_raw o) (words o);
        pc = update s.pc i (writing alloc_raw n words flushed_cur (update todo o false) stage);
      })
  commit :
      (i alloc_raw n : ℕ) (words : ℕ → ℕ) (flushed_cur : ℕ) (todo : ℕ → Bool)
      → s.pc i ≡ writing alloc_raw n words flushed_cur todo filling
      → Step s (record s {
        counters = record s.counters { commit = u32 (s.counters.commit + 8 * n) };
        pc = update s.pc i (
            writing alloc_raw n words flushed_cur todo (counted (u32 (s.counters.commit + 8 * n))));
      })
  request :
      (i alloc_raw n : ℕ) (words : ℕ → ℕ) (flushed_cur : ℕ) (todo : ℕ → Bool) (commit_raw : ℕ)
      → s.pc i ≡ writing alloc_raw n words flushed_cur todo (counted commit_raw)
      → Step s (record s {
        counters = record s.counters {
          signal =
              if requests_flush commit_raw flushed_cur (8 * n)
              then commit_raw
              else s.counters.signal;
        };
        pc = update s.pc i (writing alloc_raw n words flushed_cur todo done);
      })
  flush :
      (is_kernel_active : Bool)
      → leb slot_size (sub32 (sub32 (signal_read s.counters is_kernel_active) s.counters.flushed) 1)
        ≡ false
      → ((k : ℕ)
          → k < sub32 (signal_read s.counters is_kernel_active) s.counters.flushed / 8
          → s.ring ((s.counters.flushed / 8 + k) % slot_words) ≢ 0)
      → Step s (flushed_by s (signal_read s.counters is_kernel_active))

-- All counters and the slot are zero at the start.
abbrev pub initial : System
initial = record {
  counters = record { alloc = 0; commit = 0; signal = 0; flushed = 0 };
  ring = λ k. 0;
  file = [];
  pc = λ i. idle;
  log = λ q. 0;
  reserved = 0;
}

pub data Reach : System → Type 0 where
  at_start : Reach initial
  later : {s t : System} → Reach s → Step s t → Reach t
