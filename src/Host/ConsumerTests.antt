-- ===== src/Host/ConsumerTests.antt =====
-- A consumer of which every slot is given eight bytes before the one round, and sixteen before the
-- last.
use t_espresso.Base.{
  ℕ, suc, ◌≤◌, ◌<◌, ◌≡◌, refl, true, false, ◌↔◌, ◌⊎◌, none, some, Option, List, [], ◌∷◌, ◌++◌,
  arith, length, le_bytes, contains_text,
}
use t_espresso.Record.{slots_per_dev}
use t_espresso.TraceIo.Types.{empty_inst}
use t_espresso.TraceIo.Reader.{done}
use t_espresso.TraceIo.Open.{trace_open}
use t_espresso.TraceIo.Open.Kernels.{all_bytes}
use t_espresso.TraceIo.Open.Laws.{opened}
use t_espresso.TraceIo.Samples.{willing, small_kernel, blank_kernel, giving}
use t_espresso.Host.Slot.{Slot, set_areas, all_arrived, word_is_zero, all_zero, signal_seen}
use t_espresso.Host.Interface.{Globals}
use t_espresso.Host.Filename.{trace_file_name, name_pattern, device_part}
use t_espresso.Host.Filename.Laws.{trace_file_name_iff}
use t_espresso.Host.Consumer.{
  HostSystem, Consumer, TraceManager, Change, zero_manager, construct, destroy, accdat_bytes,
  init_consumers, get_consumer, pos, negsuc,
}
use t_espresso.Host.Consumer.Stream.{segment}
use t_espresso.Host.Consumer.Round.{ComeFrom, AreFilled, KeepOld, joined, of_slot}
use t_espresso.Host.Consumer.Moved.{Plan, Delivers}
use t_espresso.Host.Consumer.Laws.{header_bytes, destroy-construct}
use t_espresso.Host.Consumer.Reopen.{trace_open-destroy}
use t_espresso.Host.Consumer.Manager.{init_consumers-get_consumer}

abbrev machine : HostSystem
machine = record {
  os = willing;
  opens = λ p. true;
  pattern_env = none;
  exename = some (b'r' ∷ b'u' ∷ b'n' ∷ []);
}

abbrev started : Globals
started = record {
  accdat_var = some (all_bytes (small_kernel ∷ []) ++ (0 ∷ []));
  accdat_varlen = length (all_bytes (small_kernel ∷ []));
  kernel_count = 1;
  trace_base_info = none;
}

-- Every slot with `n` bytes in all.
abbrev fill : ℕ → Change
fill n [] = []
fill n (s ∷ slots) = record s { commit = n; signal = n; records = λ k. 1 } ∷ fill n slots

abbrev ones : ℕ → ℕ → ℕ
ones i j = 1

fill-KeepOld : (n : ℕ) (slots : List Slot) → KeepOld slots (fill n slots)
fill-KeepOld n [] = tt
fill-KeepOld n (s ∷ slots) = (refl, fill-KeepOld n slots)

fill-first : (k : ℕ) (slots : List Slot) → AreFilled true ones k (λ i. 0) (λ i. 8) (fill 8 slots)
unfolding signal_seen set_areas all_arrived word_is_zero all_zero
fill-first k [] = tt
fill-first k (s ∷ slots) = (
  record {
    seen = refl;
    grows = omega arith;
    fits = omega arith;
    holds = λ j from below. refl;
    arrived = λ new. (refl, refl);
  },
  fill-first (suc k) slots,
)

fill-last : (k : ℕ) (slots : List Slot) → AreFilled false ones k (λ i. 8) (λ i. 24) (fill 24 slots)
unfolding signal_seen set_areas all_arrived word_is_zero all_zero
fill-last k [] = tt
fill-last k (s ∷ slots) = (
  record {
    seen = refl;
    grows = omega arith;
    fits = omega arith;
    holds = λ j from below. refl;
    arrived = λ new. (refl, refl);
  },
  fill-last (suc k) slots,
)

abbrev one_round : Plan
one_round = (fill 8, λ i. 8) ∷ []

one_round-Delivers : (c : Consumer) → Delivers willing ones one_round (fill 24) (λ i. 0) (λ i. 24) c
one_round-Delivers c = (
  (fill-KeepOld 8 c.traceinfo, fill-first 0 c.traceinfo),
  λ c' e. (fill-KeepOld 24 c'.traceinfo, fill-last 0 c'.traceinfo),
)

abbrev device_1 : ℕ
device_1 = 1

abbrev device_12 : ℕ
device_12 = 12

abbrev exename : Option (List ℕ)
exename = some (b'r' ∷ b'u' ∷ b'n' ∷ [])

trace_file_name_iff_example :
    (trace_file_name none exename device_1 ≡ trace_file_name none exename device_12)
    ↔ ((device_1 ≡ device_12) ⊎ (contains_text (name_pattern none exename) device_part ≡ false))
trace_file_name_iff_example = trace_file_name_iff none exename device_1 device_12

destroy-construct_example :
    (c : Consumer) × (parts : List (ℕ × List ℕ)) × (construct machine started 0 ≡ some c)
    × (destroy willing (fill 8 ∷ []) (fill 24) c
        ≡ some (true, header_bytes (all_bytes (small_kernel ∷ [])) ++ joined parts))
    × ComeFrom slots_per_dev parts
    × ((i : ℕ) → i < slots_per_dev → of_slot i parts ≡ segment (ones i) 0 24)
unfolding le_bytes accdat_bytes
destroy-construct_example =
    destroy-construct machine (λ k n. refl) ones started 0 (all_bytes (small_kernel ∷ [])) one_round
      (fill 24) (λ i. 24) refl refl (omega arith)
      (λ c made. one_round-Delivers (record c { does_run = true }))

trace_open-destroy_example :
    (c : Consumer) × (file : List ℕ) × (parts : List (ℕ × List ℕ)) × (construct machine started 0
      ≡ some c)
    × (destroy willing (fill 8 ∷ []) (fill 24) c ≡ some (true, file))
    × (trace_open giving (some (record { bytes = file; calls = 0 }))
        ≡ done (opened empty_inst (empty_inst ∷ []) (small_kernel ∷ []) (joined parts)) [])
    × ComeFrom slots_per_dev parts
    × ((i : ℕ) → i < slots_per_dev → of_slot i parts ≡ segment (ones i) 0 24)
unfolding le_bytes
trace_open-destroy_example =
    trace_open-destroy machine giving ones started 0 small_kernel [] 0 1 blank_kernel empty_inst
      (empty_inst ∷ []) one_round (fill 24) (λ i. 24) (λ k n. refl) (λ k n. refl) (λ n. refl) refl
      refl (refl, tt)
      (
        refl,
        omega arith,
        omega arith,
        omega arith,
        omega arith,
        ((refl, omega arith, omega arith), tt),
        (refl, omega arith, tt),
        tt,
      )
      (omega arith) (omega arith) (refl, refl, refl) refl
      (λ c made. one_round-Delivers (record c { does_run = true }))

made : (i : ℕ) → i < 2 → (c : Consumer) × (construct machine started i ≡ some c)
unfolding le_bytes accdat_bytes
made i below =
    let (c, parts, e, left, labelled, rest) =
      destroy-construct machine (λ k n. refl) ones started i (all_bytes (small_kernel ∷ []))
        one_round (fill 24) (λ j. 24) refl refl (omega arith)
        (λ c e. one_round-Delivers (record c { does_run = true })) in
    (c, e)

init_consumers-get_consumer_example :
    (m : TraceManager) × (init_consumers machine started 2 zero_manager ≡ some m)
    × ((g' : Globals) (n : ℕ) → init_consumers machine g' n m ≡ some m)
    × ((i : ℕ)
        → i < 2
        → (c : Consumer) × (construct machine started i ≡ some c)
          × (get_consumer m (pos i) ≡ some (some c)))
    × ((i : ℕ) → 2 ≤ i → get_consumer m (pos i) ≡ some none)
    × ((i : ℕ) → get_consumer m (negsuc i) ≡ none)
init_consumers-get_consumer_example = init_consumers-get_consumer machine started 2 made
