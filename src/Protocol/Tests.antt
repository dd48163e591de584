-- ===== src/Protocol/Tests.antt =====
-- Two records of one slot, whose space is allocated and then stored in another order.
use t_espresso.Base.{
  ℕ, zero, suc, ◌+◌, ◌/◌, ◌%◌, ◌≤◌, ◌<◌, ◌≡◌, ◌≢◌, refl, false, ltb, [], ◌∷◌, length, sub32, arith,
}
use t_espresso.Device.Slot.{reserve, must_wait, rec_byte, rec_offset}
use t_espresso.Protocol.{
  idle, waiting, writing, filling, counted, System, slot_words, rec_word, update, extend, initial,
  flushed_by, signal_read, allocate, pass, store, commit, flush, Reach, at_start, later,
}
use t_espresso.Protocol.Invariant.{log_words}
use t_espresso.Protocol.Safety.{Reach-log, Reach-store, last_flush-log}

abbrev word_5 : ℕ → ℕ
word_5 o = 5

abbrev word_7 : ℕ → ℕ
word_7 o = 7

abbrev two_allocated : System
two_allocated = record initial {
  counters = record { alloc = 16; commit = 0; signal = 0; flushed = 0 };
  pc = update (update (λ i. idle) 0 (waiting 0 1 word_5)) 1 (waiting 8 1 word_7);
  log = extend (extend (λ q. 0) 0 1 word_5) 1 1 word_7;
  reserved = 2;
}

Reach-allocated : Reach two_allocated
unfolding reserve
Reach-allocated =
    later
      (later at_start
        (allocate 0 1 word_5 refl (omega arith) (omega arith) (λ o h. omega arith) (omega arith)))
      (allocate 1 1 word_7 refl (omega arith) (omega arith) (λ o h. omega arith) (omega arith))

abbrev second_writing : System
second_writing = record two_allocated {
  pc = update two_allocated.pc 1 (writing 8 1 word_7 0 (λ o. ltb o 1) filling);
}

abbrev second_stored : System
second_stored = record two_allocated {
  ring = update (λ k. 0) 1 7;
  pc = update second_writing.pc 1 (writing 8 1 word_7 0 (update (λ o. ltb o 1) 0 false) filling);
}

abbrev second_committed : System
second_committed = record second_stored {
  counters = record { alloc = 16; commit = 8; signal = 0; flushed = 0 };
  pc = update second_stored.pc 1 (writing 8 1 word_7 0 (update (λ o. ltb o 1) 0 false) (counted 8));
}

abbrev both_writing : System
both_writing = record second_committed {
  pc = update second_committed.pc 0 (writing 0 1 word_5 0 (λ o. ltb o 1) filling);
}

abbrev both_stored : System
both_stored = record both_writing {
  ring = update both_writing.ring 0 5;
  pc = update both_writing.pc 0 (writing 0 1 word_5 0 (update (λ o. ltb o 1) 0 false) filling);
}

abbrev both_committed : System
both_committed = record both_stored {
  counters = record { alloc = 16; commit = 16; signal = 0; flushed = 0 };
  pc = update both_stored.pc 0 (writing 0 1 word_5 0 (update (λ o. ltb o 1) 0 false) (counted 16));
}

Reach-writing : Reach second_writing
unfolding must_wait
Reach-writing = later Reach-allocated (pass 1 8 1 word_7 refl refl)

Reach-both_writing : Reach both_writing
unfolding must_wait rec_byte rec_offset
Reach-both_writing =
    later
      (later (later Reach-writing (store 1 8 1 word_7 0 (λ o. ltb o 1) filling 0 refl refl))
        (commit 1 8 1 word_7 0 (update (λ o. ltb o 1) 0 false) refl))
      (pass 0 0 1 word_5 refl refl)

Reach-committed : Reach both_committed
unfolding rec_byte rec_offset
Reach-committed =
    later (later Reach-both_writing (store 0 0 1 word_5 0 (λ o. ltb o 1) filling 0 refl refl))
      (commit 0 0 1 word_5 0 (update (λ o. ltb o 1) 0 false) refl)

abbrev both_flushed : System
both_flushed = flushed_by both_committed (signal_read both_committed.counters false)

all_seen :
    (k : ℕ)
    → k < sub32 (signal_read both_committed.counters false) both_committed.counters.flushed / 8
    → both_committed.ring ((both_committed.counters.flushed / 8 + k) % slot_words) ≢ 0
all_seen zero h = ground arith
all_seen (suc zero) h = ground arith
all_seen (suc (suc k)) h = absurd (omega arith)

Reach-flushed : Reach both_flushed
Reach-flushed = later Reach-committed (flush false refl all_seen)

file_test : both_flushed.file ≡ 5 ∷ 7 ∷ []
file_test = refl

Reach-log_example :
    (both_flushed.file ≡ log_words both_flushed.log 0 (length both_flushed.file))
    × (length both_flushed.file ≤ both_flushed.reserved)
Reach-log_example = Reach-log both_flushed Reach-flushed

Reach-store_example : both_writing.ring (rec_word 0 0) ≡ 0
Reach-store_example =
    Reach-store both_writing Reach-both_writing 0 0 1 word_5 0 (λ o. ltb o 1) filling 0 refl refl

last_flush-log_example : both_flushed.file ≡ log_words both_committed.log 0 both_committed.reserved
last_flush-log_example =
    last_flush-log both_committed Reach-committed refl (omega arith) refl all_seen
