-- ===== src/Device/Tests.antt =====
-- The slot at concrete values.
use t_espresso.Base.{ℕ, ◌+◌, ◌-◌, ◌/◌, ◌≤◌, ◌<◌, ◌≡◌, refl, List, [], ◌∷◌, u32, arith}
use t_espresso.Device.Slot.{Counters, flush_unit}
use t_espresso.Device.Slot.Laws.{commit_all-signal, commit_all, sum}

abbrev fresh : Counters
fresh = record { alloc = 912; commit = 0; signal = 0; flushed = 0 }

abbrev three_records : List ℕ
three_records = 304 ∷ 304 ∷ 304 ∷ []

commit_all-signal_example :
    (m : ℕ) × ((commit_all fresh (u32 0) three_records).commit ≡ u32 (0 + sum three_records))
    × ((commit_all fresh (u32 0) three_records).signal ≡ u32 (0 + m))
    × (m ≤ sum three_records)
    × (m / flush_unit ≡ sum three_records / flush_unit)
    × (sum three_records - m < flush_unit)
commit_all-signal_example =
    commit_all-signal fresh 0 three_records (omega arith)
      (omega arith, (omega arith, (omega arith, tt))) refl refl
