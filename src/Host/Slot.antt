-- ===== src/Host/Slot.antt =====
-- `TraceConsumer::consumeSlot` and the loop of `TraceConsumer::consume`.
pub mod Flush
pub mod Consume
use t_espresso.Base.{
  ℕ, zero, suc, ◌+◌, ◌-◌, ◌*◌, ◌/◌, ◌%◌, Bool, true, false, ◌&&◌, not, ◌==◌, ltb, leb,
  if◌then◌else◌, Option, none, some, List, [], ◌∷◌, sub32, u32,
}
use t_espresso.Record.{slot_size}
use t_espresso.TraceIo.File.{Os, TraceFile, tracefile_write}

-- What `consumeSlot` reaches of one slot: the counters, and the bytes of its records as they are
-- at the time of the call.
pub record Slot : Type 0 where
  -- `*commit_d` and `*signal_h`, written by the device
  pub commit : ℕ
  pub signal : ℕ
  -- `*flushed_h`, read by the device, and `*flushed_old`
  pub flushed : ℕ
  pub flushed_old : ℕ
  pub records : ℕ → ℕ

-- `area[0]` and `area[1]`, each a start and a length.
pub record Areas : Type 0 where
  pub start_1 : ℕ
  pub len_1 : ℕ
  pub start_2 : ℕ
  pub len_2 : ℕ

unfoldable pub set_areas : ℕ → ℕ → Areas
set_areas signal_old signal =
    let start_i = signal_old % slot_size in
    let end_i = signal % slot_size in
    if ltb start_i end_i
    then record { start_1 = start_i; len_1 = end_i - start_i; start_2 = 0; len_2 = 0 }
    else record { start_1 = start_i; len_1 = slot_size - start_i; start_2 = 0; len_2 = end_i }

-- The `n` bytes from `start` on.
unfoldable pub bytes_from : (ℕ → ℕ) → ℕ → ℕ → List ℕ
bytes_from mem start zero = []
bytes_from mem start (suc n) = mem start ∷ bytes_from mem (suc start) n

-- The `n` bytes from `k` on are zero.
unfoldable pub all_zero : (ℕ → ℕ) → ℕ → ℕ → Bool
all_zero mem k zero = true
all_zero mem k (suc n) = mem k == 0 && all_zero mem (suc k) n

-- `records_h_lu[i] == 0`
unfoldable pub word_is_zero : (ℕ → ℕ) → ℕ → Bool
word_is_zero mem i = all_zero mem (8 * i) 8

-- The waiting loop over the words from `i` on for `n` words: whether none of them is zero.
unfoldable pub all_arrived : (ℕ → ℕ) → ℕ → ℕ → Bool
all_arrived mem i zero = true
all_arrived mem i (suc n) = not (word_is_zero mem i) && all_arrived mem (suc i) n

-- `memset(records_h + start, 0, n)`
unfoldable pub clear_bytes : ℕ → ℕ → (ℕ → ℕ) → ℕ → ℕ
clear_bytes start n mem k = if leb start k && ltb k (start + n) then 0 else mem k

-- One area: wait for its words, write its bytes, clear them. `none` is a wait that what is in
-- memory does not end, or a copy past the end of the file buffer. A failed write is only reported.
unfoldable pub flush_area : Os → ℕ → ℕ → (ℕ → ℕ) → TraceFile → Option ((ℕ → ℕ) × TraceFile)
flush_area os start len mem out =
    if all_arrived mem (start / 8) ((start + len) / 8 - start / 8)
    then (elim (tracefile_write os out (bytes_from mem start len)) [
      | none ↦ none
      | some (result, out') ↦ some (clear_bytes start len mem, out')
    ])
    else none

unfoldable pub flush_areas : Os → Areas → (ℕ → ℕ) → TraceFile → Option ((ℕ → ℕ) × TraceFile)
unfolding flush_area
flush_areas os a mem out = elim (flush_area os a.start_1 a.len_1 mem out) [
  | none ↦ none
  | some (mem', out') ↦
      if a.len_2 == 0 then some (mem', out') else flush_area os a.start_2 a.len_2 mem' out'
]

-- The signal that counts: the commit counter itself once no kernel runs.
unfoldable pub signal_seen : Slot → Bool → ℕ
signal_seen s is_kernel_active = if is_kernel_active then s.signal else s.commit

unfoldable pub consume_slot : Os → Slot → Bool → TraceFile → Option (Slot × TraceFile)
unfolding signal_seen
consume_slot os s is_kernel_active out =
    let signal = signal_seen s is_kernel_active in
    if leb slot_size (sub32 (sub32 signal s.flushed_old) 1)
    then some (s, out)
    else (elim (flush_areas os (set_areas s.flushed_old signal) s.records out) [
      | none ↦ none
      | some (mem, out') ↦
          some (record s { flushed = signal; flushed_old = signal; records = mem }, out')
    ])

-- One round of `consume` over its slots, with the same file.
unfoldable pub consume_round : Os → List Slot → Bool → TraceFile → Option (List Slot × TraceFile)
unfolding consume_slot
consume_round os [] is_kernel_active out = some ([], out)
consume_round os (s ∷ slots) is_kernel_active out = elim (consume_slot os s is_kernel_active out) [
  | none ↦ none
  | some (s', out') ↦ elim (consume_round os slots is_kernel_active out') [
    | none ↦ none
    | some (slots', out'') ↦ some (s' ∷ slots', out'')
  ]
]
