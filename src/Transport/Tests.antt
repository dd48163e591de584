-- ===== src/Transport/Tests.antt =====
-- A warp of 32 lanes that reads consecutive words, and its record.
use t_espresso.Base.{
  ℕ, zero, suc, ◌+◌, ◌*◌, ◌<◌, ◌≡◌, refl, ap, ◌∙◌, true, false, not, ltb, ◌&&◌, if◌then◌else◌,
  length, get_or, u64, List, [], ◌∷◌, replicate, arith,
}
use t_espresso.Bits.Single.{test_bit, from_bits, test_bit-not, test_bit_above}
use t_espresso.Record.{word}
use t_espresso.Device.Warp.{Warp, shfl, shfl_up, ballot, popc, lowest_set, clz}
use t_espresso.Device.Trace.{
  header_word, data_word, write_pos, writemask, writemask_raw, consec_write, is_write, is_msb_same,
  msb, laneid_leader, data_prev, data_prev_prev, is_delta_changed, is_prev_inactive,
}
use t_espresso.TraceIo.Reader.RoundTrip.{restored_kernel}
use t_espresso.TraceIo.Open.Laws.{opened}
use t_espresso.TraceIo.Samples.{small_kernel, load_inst}
use t_espresso.Transport.Attribution.{read_after_open, deserialize-opened}
use t_espresso.TraceIo.Types.{TraceRecord, KernelHeader, empty_kernel, empty_inst}
use t_espresso.TraceIo.Deserialize.{trace_deserialize}
use t_espresso.Transport.Lanes.{lane_values}
use t_espresso.Transport.Recovered.{IsPlain, IsRecordOf}
use t_espresso.Transport.RoundTrip.{deserialize-trace}

abbrev strided : Warp
strided = record {
  active = 0xffff_ffff;
  value = λ l. u64 (0x7f00_0000_1000 + 4 * l);
  grid = 3;
  ctaid_serial = 0x2_0001_0000;
  warpv = 7;
  instid = 2;
  sm = 5;
  warpp = 9;
  clock = λ l. 0x1234;
  undefined = λ src l. 0;
}

strided-writemask : writemask strided ≡ 1
unfolding writemask is_write consec_write writemask_raw is_delta_changed is_prev_inactive
    is_msb_same data_prev data_prev_prev shfl_up shfl ballot from_bits test_bit clz lowest_set msb
    laneid_leader
strided-writemask = refl

strided-write_pos : write_pos strided 0 ≡ 0
unfolding write_pos strided-writemask popc test_bit writemask is_write consec_write writemask_raw
    is_delta_changed is_prev_inactive is_msb_same data_prev data_prev_prev shfl_up shfl ballot
    from_bits clz lowest_set msb laneid_leader
strided-write_pos = refl

abbrev strided_record : List ℕ
strided_record =
    header_word strided 0 0
    ∷ header_word strided 0 1
    ∷ header_word strided 0 2
    ∷ header_word strided 0 3
    ∷ header_word strided 0 4
    ∷ header_word strided 0 5
    ∷ data_word strided 0
    ∷ replicate 31 0

active_below : (l : ℕ) → l < 32 → test_bit 0xffff_ffff l ≡ true
unfolding test_bit
active_below l h =
    test_bit-not 32 0 l (omega arith) h ∙ ap not (test_bit_above 0 0 l (omega arith) (omega arith))

header_at : (i : ℕ) → i < 6 → word strided_record i ≡ header_word strided 0 i
header_at zero h = refl
header_at (suc zero) h = refl
header_at (suc (suc zero)) h = refl
header_at (suc (suc (suc zero))) h = refl
header_at (suc (suc (suc (suc zero)))) h = refl
header_at (suc (suc (suc (suc (suc zero))))) h = refl
header_at (suc (suc (suc (suc (suc (suc i)))))) h = absurd (omega arith)

first_lane_only : (l : ℕ) → test_bit (writemask strided) l ≡ true → l ≡ 0
unfolding test_bit
first_lane_only zero e = refl
first_lane_only (suc l) e =
    let clear : test_bit 1 (suc l) ≡ false = test_bit_above 0 0 l (omega arith) (omega arith) in
    absurd (ground (arith, ap (λ x. test_bit x (suc l)) strided-writemask))

abbrev old : TraceRecord
old = record {
  kernel_info = empty_kernel;
  inst_info = empty_inst;
  warpv = 0;
  activemask = 0;
  writemask = 0;
  ctaid = record { x = 0; y = 0; z = 0 };
  grid = 0;
  warpp = 0;
  sm = 0;
  msb = 0;
  clock = 0;
  thread_data = replicate 32 0;
}

strided-IsPlain : IsPlain strided
strided-IsPlain = record {
  fits = omega arith;
  words = λ l. omega arith;
  lane = 0;
  lane_in_warp = omega arith;
  lane_active = active_below 0 (omega arith);
  upper = λ l h a. omega arith;
  clocks = λ l. refl;
  nonzero = λ l h wrote. rw (first_lane_only l wrote) (omega arith);
}

strided-IsRecordOf : IsRecordOf strided strided_record
strided-IsRecordOf = record {
  size = refl;
  writer = λ i. 0;
  writer_in_warp = λ i h. omega arith;
  writer_active = λ i h. active_below 0 (omega arith);
  header = header_at;
  payload = λ l h wrote. rw (first_lane_only l wrote, strided-write_pos);
}

deserialize-trace_example :
    (trace_deserialize strided_record 1 (empty_kernel ∷ []) old).thread_data
    ≡ lane_values strided 32 0
deserialize-trace_example =
    (deserialize-trace strided-IsPlain strided-IsRecordOf 1 (empty_kernel ∷ []) old).0

deserialize-opened_example :
    let d =
      read_after_open
        (opened empty_inst (empty_inst ∷ []) (small_kernel ∷ []) [])
        strided_record
        old in
    let first = restored_kernel small_kernel (load_inst ∷ []) empty_inst (empty_inst ∷ []) in
    (d.kernel_info ≡ (if ltb 0 (length {A = KernelHeader} []) then first else empty_kernel))
    × (d.inst_info ≡ (
        if ltb 0 (length {A = KernelHeader} []) && ltb 2 1
        then get_or first.insts 2 empty_inst
        else empty_inst))
deserialize-opened_example =
    deserialize-opened strided-IsPlain strided-IsRecordOf small_kernel [] empty_inst
      (empty_inst ∷ []) [] old (omega arith)
