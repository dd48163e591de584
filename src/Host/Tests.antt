-- ===== src/Host/Tests.antt =====
-- A flush of two words round the end of a slot.
use t_espresso.Base.{◌+◌, ◌-◌, ◌≡◌, refl, true, some, [], ◌++◌, sub32, arith}
use t_espresso.Record.{slot_size}
use t_espresso.TraceIo.File.{Os, TraceFile}
use t_espresso.TraceIo.File.Laws.{contents}
use t_espresso.Host.Slot.{
  Slot, set_areas, all_arrived, word_is_zero, all_zero, signal_seen, consume_slot,
}
use t_espresso.Host.Slot.Flush.{ring_bytes}
use t_espresso.Host.Slot.Consume.{consume_slot-flush, IsCleared}

abbrev willing : Os
willing = record { accepts = λ k n. some n; closes = true }

abbrev written_slot : Slot
written_slot = record {
  commit = slot_size + 8;
  signal = slot_size + 8;
  flushed = slot_size - 8;
  flushed_old = slot_size - 8;
  records = λ k. 1;
}

abbrev empty_file : TraceFile
empty_file = record { file = []; buf = []; calls = 0 }

consume_slot-flush_example :
    (s' : Slot) × (t' : TraceFile) × (consume_slot willing written_slot true empty_file
      ≡ some (s', t'))
    × (contents willing (λ k n. refl) t'
        ≡ contents willing (λ k n. refl) empty_file
          ++ ring_bytes
              (λ k. 1)
              (slot_size - 8)
              (sub32 (signal_seen written_slot true) (slot_size - 8)))
    × IsCleared s'.records (slot_size - 8) (sub32 (signal_seen written_slot true) (slot_size - 8))
    × (s'.flushed ≡ signal_seen written_slot true)
    × (s'.flushed_old ≡ signal_seen written_slot true)
    × (s'.commit ≡ slot_size + 8)
    × (s'.signal ≡ slot_size + 8)
unfolding signal_seen set_areas all_arrived word_is_zero all_zero
consume_slot-flush_example =
    consume_slot-flush willing (λ k n. refl) written_slot true empty_file (omega arith)
      (omega arith) (omega arith) (omega arith) (refl, refl)
