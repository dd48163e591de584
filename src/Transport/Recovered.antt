-- ===== src/Transport/Recovered.antt =====
-- A warp's record in the buffer of the reader, and what the reader recovers of it.
use t_espresso.Base.{
  ℕ, zero, suc, ◌+◌, ◌*◌, ◌/◌, ◌%◌, ◌^◌, ◌<◌, ◌≡◌, ◌≢◌, refl, sym, ap, ap₂, ◌∙◌, true, false, not,
  ◌&&◌, ◌==◌, if◌then◌else◌, List, arith, length, bit_and, not64, sub64, Bool-cases, inl, inr,
}
use t_espresso.Bits.Single.{
  test_bit, test_bit-mod, test_bit-and, test_bit-not, test_bit-shr, from_bits-lt,
}
use t_espresso.Record.{
  word, record_header_unit, llgt_get_bitfield, record_get_nonzeromask, record_get_activemask,
  record_get_writemask, record_get_msb, record_get_kernid, record_get_instid, record_set_header_0,
  record_set_header_1, record_set_header_5,
}
use t_espresso.Record.RoundTrip.{
  get_26_38, get_0_6, get_6_32, get_high, get_low, set_halves, set_header_0_as_sum, set_data_as_sum,
  get_16_10, get_5_11,
}
use t_espresso.Device.Warp.{Warp, ballot}
use t_espresso.Device.Trace.{
  header_info, header_word, data_word, data_encoded, nonzero_mask, nonzero_mask_data, write_pos,
  data_next, writemask, kernid_used, instid_used, msb, is_msb_same,
}
use t_espresso.Device.Writemask.{writes, test_bit-ballot, test_bit-writemask}
use t_espresso.TraceIo.Deserialize.{lane_in, recover_header, recover_data, expand_data}
use t_espresso.Transport.Lanes.{
  lane_in-test_bit, expand_data_lem, active_of_writes, lane_values, write_count, HoldsData,
}
use t_espresso.Transport.Header.{recover_header_lem, within}
use t_espresso.Transport.Masks.{
  nonzero_mask_header_bit, nonzero_mask_data_bit, is_msb_same_lem, write_pos_lem, writemask-ne,
}

-- The buffer of RECORD_SIZE_MAX bytes that holds a warp's record: every header word as one of the
-- active lanes wrote it, and the word of every writing lane at its position.
pub record IsRecordOf (w : Warp) (buf : List ℕ) : Type 0 where
  pub size : length buf ≡ 38
  pub writer : ℕ → ℕ
  pub writer_in_warp : (i : ℕ) → i < 6 → writer i < 32
  pub writer_active : (i : ℕ) → i < 6 → test_bit w.active (writer i) ≡ true
  pub header : (i : ℕ) → i < 6 → word buf i ≡ header_word w (writer i) i
  pub payload :
      (l : ℕ)
      → l < 32
      → test_bit (writemask w) l ≡ true
      → word buf (record_header_unit + write_pos w l) ≡ data_word w l

-- A warp whose record the reader can take apart: some lane takes part, the upper halves of the
-- values agree, all lanes read the same clock, and no writing lane's value has a zero lower half.
pub record IsPlain (w : Warp) : Type 0 where
  pub fits : w.active < 2 ^ 32
  pub words : (l : ℕ) → w.value l < 2 ^ 64
  pub lane : ℕ
  pub lane_in_warp : lane < 32
  pub lane_active : test_bit w.active lane ≡ true
  pub upper :
      (l : ℕ) → l < 32 → test_bit w.active l ≡ true → w.value l / 2 ^ 32 ≡ w.value lane / 2 ^ 32
  pub clocks : (l : ℕ) → w.clock l ≡ w.clock lane
  pub nonzero : (l : ℕ) → l < 32 → test_bit (writemask w) l ≡ true → w.value l % 2 ^ 32 ≢ 0

module _ {w : Warp} (plain : IsPlain w) {buf : List ℕ} (rec : IsRecordOf w buf) where
  open plain use {fits, words, lane, lane_in_warp, lane_active, upper, clocks, nonzero}

  abbrev pub m : ℕ
  m = w.value lane / 2 ^ 32

  m-lt : m < 2 ^ 32
  m-lt = omega (arith, words lane)

  same : is_msb_same w ≡ true
  same = is_msb_same_lem w fits m upper m-lt lane lane_in_warp lane_active

  -- All active lanes agree on the header.
  header_info_same :
      (l i : ℕ) → l < 32 → test_bit w.active l ≡ true → header_info w l i ≡ header_info w lane i
  unfolding header_info msb
  header_info_same l zero h a = refl
  header_info_same l (suc zero) h a = refl
  header_info_same l (suc (suc zero)) h a = refl
  header_info_same l (suc (suc (suc zero))) h a = refl
  header_info_same l (suc (suc (suc (suc zero)))) h a = refl
  header_info_same l (suc (suc (suc (suc (suc i))))) h a =
      ap₂ record_set_header_5 (upper l h a) (clocks l)

  -- The masks that the reader takes from word 0.
  abbrev mask₀ : ℕ
  mask₀ = nonzero_mask w (rec.writer 0)

  get_mask : record_get_nonzeromask buf ≡ mask₀ % 2 ^ 38
  unfolding record_get_nonzeromask header_word
  get_mask =
      get_26_38 (word buf 0)
      ∙ omega (
        arith,
        rec.header 0 (omega arith),
        set_header_0_as_sum mask₀ (kernid_used w) (instid_used w) w.warpv,
      )

  abbrev header_mask : ℕ
  header_mask = llgt_get_bitfield (record_get_nonzeromask buf) 0 record_header_unit

  header_mask_bit :
      (j : ℕ) → j < 6 → test_bit header_mask j ≡ not (header_info w (rec.writer 0) j == 0)
  header_mask_bit j h =
      ap (λ x. test_bit x j) (get_0_6 (record_get_nonzeromask buf) ∙ ap (λ x. x % 2 ^ 6) get_mask)
      ∙ test_bit-mod 6 (mask₀ % 2 ^ 38) j h
      ∙ test_bit-mod 38 mask₀ j (omega arith)
      ∙ nonzero_mask_header_bit w (rec.writer 0) j h

  abbrev pub recovered : List ℕ
  recovered = recover_header record_header_unit 0 header_mask buf

  -- The reader puts back the header words that were empty.
  pub recovered-word : (i : ℕ) → suc i < 6 → word recovered (suc i) ≡ header_info w lane (suc i)
  unfolding header_word
  recovered-word i h =
      let inside : within 6 0 (suc i) ≡ true = ground arith in
      recover_header_lem 6 0 header_mask buf (suc i) (omega (arith, rec.size))
        (omega (arith, rec.size))
      ∙ rw (inside, header_mask_bit (suc i) h)
          (ground (
            arith,
            rec.header (suc i) h,
            same_as (rec.writer 0) (rec.writer_in_warp 0 (omega arith))
                (rec.writer_active 0 (omega arith)),
            same_as (rec.writer (suc i)) (rec.writer_in_warp (suc i) h)
                (rec.writer_active (suc i) h),
          ))
    where
      same_as :
          (l : ℕ)
          → l < 32
          → test_bit w.active l ≡ true
          → header_info w l (suc i) ≡ header_info w lane (suc i)
      same_as l h a = header_info_same l (suc i) h a

  -- The first word is kept as it is.
  recovered-word_0 :
      word recovered 0 ≡ record_set_header_0 mask₀ (kernid_used w) (instid_used w) w.warpv
  unfolding header_word header_info
  recovered-word_0 =
      recover_header_lem 6 0 header_mask buf 0 (omega (arith, rec.size)) (omega (arith, rec.size))
      ∙ rw (header_mask_bit 0 (omega arith)) (rec.header 0 (omega arith))

  instid_used-lt : instid_used w < 15
  unfolding instid_used
  instid_used-lt = ground arith

  -- The kernel and the instruction that the reader takes from it.
  pub read_kernid : record_get_kernid recovered ≡ 1
  unfolding record_get_kernid kernid_used
  read_kernid =
      get_16_10 (word recovered 0)
      ∙ omega (
        arith,
        recovered-word_0,
        set_header_0_as_sum mask₀ 1 (instid_used w) w.warpv,
        instid_used-lt,
      )

  pub read_instid : record_get_instid recovered ≡ instid_used w
  unfolding record_get_instid kernid_used
  read_instid =
      get_5_11 (word recovered 0)
      ∙ omega (
        arith,
        recovered-word_0,
        set_header_0_as_sum mask₀ 1 (instid_used w) w.warpv,
        instid_used-lt,
      )

  recovered-word_data :
      (k : ℕ) → word recovered (record_header_unit + k) ≡ word buf (record_header_unit + k)
  recovered-word_data k =
      let outside : within 6 0 (record_header_unit + k) ≡ false = ground arith in
      recover_header_lem 6 0 header_mask buf (record_header_unit + k) (omega (arith, rec.size))
        (omega (arith, rec.size))
      ∙ rw outside

  abbrev data_mask : ℕ
  data_mask = llgt_get_bitfield (record_get_nonzeromask buf) record_header_unit 32

  writer-active : (l : ℕ) → l < 32 → test_bit (writemask w) l ≡ true → test_bit w.active l ≡ true
  writer-active l h wrote = active_of_writes w l (sym (test_bit-writemask w fits same l h) ∙ wrote)

  encoded_lem :
      (l : ℕ)
      → data_encoded w l ≡ sub64 (data_next w l) (w.value l) % 2 ^ 32 * 2 ^ 32 + w.value l % 2 ^ 32
  unfolding data_encoded
  encoded_lem l = rw same (set_data_as_sum _ _)

  -- No writing lane's word is marked as empty.
  data_mask_bit : (l : ℕ) → l < 32 → test_bit (writemask w) l ≡ true → test_bit data_mask l ≡ true
  unfolding nonzero_mask_data
  data_mask_bit l h wrote =
      let nz = record_get_nonzeromask buf in
      ap (λ x. test_bit x l) (get_6_32 nz)
      ∙ test_bit-mod 32 (nz / 2 ^ 6) l h
      ∙ test_bit-shr 6 nz l
      ∙ ap (λ x. test_bit x (l + 6)) get_mask
      ∙ test_bit-mod 38 mask₀ (l + 6) (omega arith)
      ∙ nonzero_mask_data_bit w (rec.writer 0) l h
      ∙ rw (wrote, test_bit-ballot w (data_encoded w) l h, writer-active l h wrote, encoded_lem l)
          (ground (arith, nonzero l h wrote))

  recover_data_none :
      (n i k : ℕ) (b : List ℕ) → n + i ≡ 32 → recover_data n i (writemask w) data_mask k b ≡ b
  unfolding recover_data
  recover_data_none zero i k b e = refl
  recover_data_none (suc n) i k b e =
      rw (full i (omega arith)) (recover_data_none n (suc i) k b (omega arith))
    where
      full : (i : ℕ) → i < 32 → lane_in (bit_and (writemask w) (not64 data_mask)) i ≡ false
      full i h =
          let short : data_mask < 2 ^ 64 = omega (arith, get_6_32 (record_get_nonzeromask buf)) in
          lane_in-test_bit _ i h
          ∙ test_bit-and (writemask w) (not64 data_mask) i
          ∙ ap (λ c. test_bit (writemask w) i && c)
              (test_bit-not 64 data_mask i short (omega arith))
          ∙ elim (Bool-cases (test_bit (writemask w) i)) [
            | inl wrote ↦ rw (wrote, data_mask_bit i h wrote)
            | inr silent ↦ rw silent
          ]

  writes-writemask : (l : ℕ) → l < 32 → test_bit (writemask w) l ≡ writes w l
  writes-writemask l h = test_bit-writemask w fits same l h

  -- The data words are where the reader looks for them.
  recovered-HoldsData : HoldsData w recovered
  unfolding data_word
  recovered-HoldsData l h wrote =
      let wrote' : test_bit (writemask w) l ≡ true = writes-writemask l h ∙ wrote in
      let pos : write_pos w l ≡ write_count w l =
        write_pos_lem w fits m upper m-lt lane lane_in_warp lane_active l h in
      recovered-word_data (write_count w l)
      ∙ ap (λ k. word buf (record_header_unit + k)) (sym pos)
      ∙ rec.payload l h wrote'
      ∙ ground (arith, encoded_lem l, nonzero l h wrote')

  pub read_activemask : record_get_activemask recovered ≡ w.active
  unfolding record_get_activemask header_info record_set_header_1
  read_activemask =
      get_high _
      ∙ omega (
        arith,
        fits,
        recovered-word 0 (omega arith),
        set_halves w.active (writemask w),
        set_halves w.active (if is_msb_same w then writemask w else 0),
      )

  writemask-lt : writemask w < 2 ^ 32
  unfolding writemask ballot
  writemask-lt = from_bits-lt 32 _

  pub read_writemask : record_get_writemask recovered ≡ writemask w
  unfolding record_get_writemask header_info record_set_header_1
  read_writemask =
      get_low _
      ∙ ap (λ x. x % 2 ^ 32) (recovered-word 0 (omega arith))
      ∙ rw same (omega (arith, writemask-lt, set_halves w.active (writemask w)))

  pub read_msb : record_get_msb recovered ≡ m
  unfolding record_get_msb header_info record_set_header_5 msb
  read_msb =
      get_high _ ∙ omega (arith, m-lt, recovered-word 4 (omega arith), set_halves m (w.clock lane))

  pub read_lanes :
      (msb_read : ℕ)
      → msb_read ≡ m
      → expand_data 32 0
          (writemask w)
          w.active
          msb_read
          (recover_data 32 0 (writemask w) data_mask 0 recovered)
          0
          0
          0
        ≡ lane_values w 32 0
  read_lanes msb_read e =
      rw (e, recover_data_none 32 0 0 recovered (omega arith))
        (expand_data_lem w words recovered recovered-HoldsData m upper (writemask w) w.active
          (λ l h. lane_in-test_bit (writemask w) l h ∙ writes-writemask l h)
          (λ l h. lane_in-test_bit w.active l h) 32 0 0 0 (omega arith) tt)

  pub has_writers : (record_get_writemask recovered == 0) ≡ false
  has_writers =
      ground (arith, read_writemask, writemask-ne w fits m upper m-lt lane lane_in_warp lane_active)
