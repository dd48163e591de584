-- ===== src/Device/Trace.antt =====
-- `___cuprof_trace`, in the configuration that the build selects (no CUPROF_*_DISABLE): the
-- words that a warp computes for its record, and the stores that put them into the slot.
use t_espresso.Base.{
  ℕ, zero, suc, ◌+◌, ◌-◌, ◌*◌, ◌%◌, ◌^◌, Bool, not, ◌==◌, ltb, if◌then◌else◌, List, [], ◌∷◌, ◌++◌,
  bit_and, bit_or, bit_xor, shl32, shl64, shr, sub32, sub64, not32, u8,
}
use t_espresso.Bits.Single.{test_bit}
use t_espresso.Record.{
  record_header_unit, record_size, record_unknown, slot_size, llgt_bit_mask, record_set_header_0,
  record_set_header_1, record_set_header_2, record_set_header_3, record_set_header_4,
  record_set_header_5, record_set_data,
}
use t_espresso.Device.Warp.{
  Warp, shfl, shfl_up, shfl_down, ballot, popc, lowest_set, clz, warp_size,
}

-- An `int` or `uint32_t` used as a condition, and a comparison as a number.
abbrev pub of_bool : Bool → ℕ
of_bool b = if b then 1 else 0

module _ (w : Warp) where
  unfoldable pub laneid_leader : ℕ
  laneid_leader = lowest_set warp_size 0 w.active

  pub lanemask : ℕ → ℕ
  lanemask lane = shl32 1 lane

  pub laneid_among_active : ℕ → ℕ
  unfolding lanemask
  laneid_among_active lane = popc (bit_and w.active (sub32 (lanemask lane) 1))

  -- `kernid = 1; if (instid >= RECORD_UNKNOWN) instid = 14;`
  unfoldable pub kernid_used : ℕ
  kernid_used = 1

  unfoldable pub instid_used : ℕ
  instid_used = if ltb w.instid record_unknown then w.instid else 14

  unfoldable pub msb : ℕ → ℕ
  msb lane = shr (w.value lane) 32

  unfoldable pub is_msb_same : Bool
  unfolding laneid_leader msb
  is_msb_same = ballot w (λ lane. sub64 (msb lane) (shfl w msb laneid_leader lane)) == 0

  unfoldable pub data_prev_prev : ℕ → ℕ
  data_prev_prev lane = shfl_up w w.value 2 lane

  unfoldable pub data_prev : ℕ → ℕ
  data_prev lane = shfl_up w w.value 1 lane

  unfoldable pub data_next : ℕ → ℕ
  data_next lane = shfl_down w w.value 1 lane

  unfoldable pub is_delta_changed : ℕ → Bool
  is_delta_changed lane =
      not (sub64 (w.value lane) (data_prev lane) == sub64 (data_prev lane) (data_prev_prev lane))

  -- `~(active << 1) & lanemask`
  unfoldable pub is_prev_inactive : ℕ → ℕ
  unfolding lanemask
  is_prev_inactive lane = bit_and (not32 (shl32 w.active 1)) (lanemask lane)

  unfoldable pub writemask_raw : ℕ
  writemask_raw =
      ballot w (λ lane. bit_or (of_bool (is_delta_changed lane)) (is_prev_inactive lane))

  unfoldable pub consec_write : ℕ → ℕ
  consec_write lane = clz (not32 (shl32 writemask_raw (32 - 1 - lane)))

  unfoldable pub is_write : ℕ → ℕ
  is_write lane = bit_or (bit_and (consec_write lane) 1) (of_bool (not is_msb_same))

  unfoldable pub writemask : ℕ
  writemask = ballot w is_write

  -- `write_count` and `write_pos` are `uint8_t`.
  unfoldable pub trace_record_size : ℕ
  trace_record_size = record_size (u8 (popc writemask))

  unfoldable pub write_pos : ℕ → ℕ
  unfolding lanemask
  write_pos lane = u8 (popc (bit_and writemask (sub32 (lanemask lane) 1)))

  -- The header words before empty ones are replaced.
  unfoldable pub header_info : ℕ → ℕ → ℕ
  header_info lane zero = 1
  header_info lane (suc zero) = record_set_header_1 w.active (if is_msb_same then writemask else 0)
  header_info lane (suc (suc zero)) = record_set_header_2 w.ctaid_serial
  header_info lane (suc (suc (suc zero))) = record_set_header_3 w.grid
  header_info lane (suc (suc (suc (suc zero)))) = record_set_header_4 w.warpp w.sm
  header_info lane (suc (suc (suc (suc (suc i))))) = record_set_header_5 (msb lane) (w.clock lane)

  unfoldable pub data_encoded : ℕ → ℕ
  data_encoded lane =
      if is_msb_same
      then record_set_data (sub64 (data_next lane) (w.value lane)) (w.value lane)
      else w.value lane

  unfoldable pub nonzero_mask_data : ℕ
  nonzero_mask_data = ballot w data_encoded

  -- The loop over the header words, from word `i` on for `n` words.
  unfoldable pub clear_empty : ℕ → ℕ → ℕ → ℕ → ℕ
  clear_empty lane zero i mask = mask
  clear_empty lane (suc n) i mask =
      clear_empty lane n (suc i)
        (if header_info lane i == 0 then bit_xor mask (shl64 1 i) else mask)

  unfoldable pub nonzero_mask : ℕ → ℕ
  nonzero_mask lane =
      bit_or (clear_empty lane record_header_unit 0 (llgt_bit_mask record_header_unit))
        (shl64 (bit_and writemask nonzero_mask_data) record_header_unit)

  abbrev all_ones : ℕ
  all_ones = 2 ^ 64 - 1

  -- The header words as written: word 0 is set last, an empty word is written as all ones.
  unfoldable pub header_word : ℕ → ℕ → ℕ
  header_word lane zero = record_set_header_0 (nonzero_mask lane) kernid_used instid_used w.warpv
  header_word lane (suc i) =
      if header_info lane (suc i) == 0 then all_ones else header_info lane (suc i)

  unfoldable pub data_word : ℕ → ℕ
  data_word lane = if data_encoded lane == 0 then all_ones else data_encoded lane

  -- The stores of one lane, as (byte offset in the slot, word): header words `i`,
  -- `i + active_count`, ... (at most `n` of them), then its data word.
  pub header_stores : ℕ → ℕ → ℕ → ℕ → List (ℕ × ℕ)
  header_stores rec_offset lane zero i = []
  header_stores rec_offset lane (suc n) i =
      let rest = header_stores rec_offset lane n (i + popc w.active) in
      if ltb i record_header_unit
      then ((rec_offset + 8 * i) % slot_size, header_word lane i) ∷ rest
      else []

  pub data_stores : ℕ → ℕ → List (ℕ × ℕ)
  data_stores rec_offset lane =
      if is_write lane == 0
      then []
      else ((rec_offset + record_size (write_pos lane)) % slot_size, data_word lane) ∷ []

  -- All stores of the warp, lane by lane from lane `lane` on for `n` lanes.
  pub trace_stores : ℕ → ℕ → ℕ → List (ℕ × ℕ)
  unfolding header_stores data_stores
  trace_stores rec_offset zero lane = []
  trace_stores rec_offset (suc n) lane =
      if test_bit w.active lane
      then header_stores rec_offset lane record_header_unit (laneid_among_active lane)
        ++ (data_stores rec_offset lane ++ trace_stores rec_offset n (suc lane))
      else trace_stores rec_offset n (suc lane)
