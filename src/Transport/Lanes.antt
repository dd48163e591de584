-- ===== src/Transport/Lanes.antt =====
-- The delta encoding of a warp's values and the loop of `trace_deserialize` that expands it.
use native.Mathlib.Nat.{pow-le-pow_right}
use t_espresso.Base.{
  ℕ, zero, suc, ◌+◌, ◌-◌, ◌*◌, ◌/◌, ◌%◌, ◌^◌, ◌≤◌, ◌<◌, ◌≡◌, refl, ap, ap₂, ◌∙◌, true, false,
  if◌then◌else◌, List, [], ◌∷◌, arith, u64, sub64, bit_and, bit_or, Bool-cases, inl, inr,
}
use t_espresso.Bits.Single.{test_bit, bit_and-pow_is_zero}
use t_espresso.Record.{
  word, record_header_unit, llgt_set_bitfield, record_get_delta, record_get_data,
}
use t_espresso.Record.RoundTrip.{set_halves, get_high, get_low}
use t_espresso.Device.Warp.{Warp, shfl, shfl_up, shfl_down}
use t_espresso.Device.Trace.{data_prev, data_prev_prev, data_next, is_delta_changed}
use t_espresso.Device.Writemask.{asks, writes}
use t_espresso.TraceIo.Deserialize.{lane_in, expand_data}

one_lane : (i : ℕ) → i < 32 → llgt_set_bitfield 1 i 1 ≡ 2 ^ i
unfolding llgt_set_bitfield
one_lane i h =
    let bound : 2 ^ i ≤ 2 ^ 31 =
      pow-le-pow_right {n = 2} (omega arith) {i = i} {j = 31} (omega arith) in
    omega arith

pub lane_in-test_bit : (mask i : ℕ) → i < 32 → lane_in mask i ≡ test_bit mask i
unfolding lane_in
lane_in-test_bit mask i h =
    ground (arith, ap (bit_and mask) (one_lane i h), bit_and-pow_is_zero mask i)

module _ (w : Warp) where
  data_prev_lem : (j : ℕ) → test_bit w.active j ≡ true → data_prev w (suc j) ≡ w.value j
  unfolding data_prev shfl_up shfl
  data_prev_lem j a = let e : suc j - 1 ≡ j = omega arith in rw (e, a) (ground arith)

  data_next_lem :
      (j : ℕ) → suc j < 32 → test_bit w.active (suc j) ≡ true → data_next w j ≡ w.value (suc j)
  unfolding data_next shfl_down shfl
  data_next_lem j h a = let e : j + 1 ≡ suc j = omega arith in rw (e, a) (ground arith)

  pub active_of_writes : (l : ℕ) → writes w l ≡ true → test_bit w.active l ≡ true
  active_of_writes zero h = ground arith
  active_of_writes (suc l) h = ground arith

  pub silent-prev_active :
      (k : ℕ)
      → test_bit w.active (suc k) ≡ true
      → writes w (suc k) ≡ false
      → test_bit w.active k ≡ true
  silent-prev_active k a n = ground (arith, active_of_writes k)

  -- An active lane that does not write has an active lane below it, whose value it sees.
  silent_lane :
      (j : ℕ)
      → test_bit w.active j ≡ true
      → writes w j ≡ false
      → data_prev_prev w (suc j) ≡ data_prev w j
  unfolding data_prev data_prev_prev shfl_up shfl
  silent_lane zero a n = ground arith
  silent_lane (suc k) a n =
      let e : suc (suc k) - 2 ≡ k = omega arith in
      let f : suc k - 1 ≡ k = omega arith in rw (e, f, silent-prev_active k a n) (ground arith)

  -- What the reader has before lane `i`: its value and its step are those of the lane below,
  -- modulo 2 ^ 32.
  abbrev pub Before : ℕ → ℕ → ℕ → Type 0
  Before zero delta value = Unit {0}
  Before (suc j) delta value =
      test_bit w.active j ≡ true
      → (value % 2 ^ 32 ≡ (w.value j + delta) % 2 ^ 32)
        × (writes w j ≡ true → (delta + w.value j) % 2 ^ 32 ≡ data_next w j % 2 ^ 32)
        × (writes w j ≡ false → (delta + data_prev w j) % 2 ^ 32 ≡ w.value j % 2 ^ 32)

  abbrev pub IsWord64 : Type 0
  IsWord64 = (l : ℕ) → w.value l < 2 ^ 64

  data_prev_prev-lt : (l : ℕ) → IsWord64 → data_prev_prev w l < 2 ^ 64
  unfolding data_prev_prev shfl_up shfl
  data_prev_prev-lt l words = ground (arith, words l, words (l - 2))

  -- A lane that does not ask takes the same step as the lane below it.
  same_step :
      (j : ℕ)
      → IsWord64
      → test_bit w.active (suc j) ≡ true
      → asks w (suc j) ≡ false
      → (test_bit w.active j ≡ true)
        × ((w.value (suc j) + data_prev_prev w (suc j)) % 2 ^ 32 ≡ (w.value j + w.value j) % 2 ^ 32)
  unfolding is_delta_changed
  same_step j words a n =
      let below : test_bit w.active j ≡ true = ground arith in
      (
        below,
        ground
            (arith, data_prev_lem j below, words j, words (suc j), data_prev_prev-lt (suc j) words),
      )

  -- A lane that writes nothing is what the reader has.
  silent-value :
      (i delta value : ℕ)
      → i < 32
      → IsWord64
      → Before i delta value
      → test_bit w.active i ≡ true
      → writes w i ≡ false
      → (value % 2 ^ 32 ≡ w.value i % 2 ^ 32)
        × ((delta + data_prev w i) % 2 ^ 32 ≡ w.value i % 2 ^ 32)
  silent-value zero delta value h words before a n = absurd (ground arith)
  silent-value (suc j) delta value h words before a n = elim (Bool-cases (asks w (suc j))) [
    | inl yes_asks ↦
        let wrote : writes w j ≡ true = ground arith in
        let below : test_bit w.active j ≡ true = active_of_writes j wrote in
        ground (arith, before below, data_prev_lem j below, data_next_lem j h a)
    | inr no_asks ↦
        let (below, step) = same_step j words a no_asks in
        elim (Bool-cases (writes w j)) [
          | inl wrote ↦ ground (arith, before below, data_prev_lem j below, data_next_lem j h a)
          | inr silent ↦
              ground (arith, before below, data_prev_lem j below, silent_lane j below silent, step)
        ]
  ]

  -- How many lanes below `l` write.
  abbrev pub write_count : ℕ → ℕ
  write_count zero = 0
  write_count (suc l) = if writes w l then suc (write_count l) else write_count l

  -- The data words of `buf` are the low halves and steps of the writing lanes, in order.
  abbrev pub HoldsData : List ℕ → Type 0
  HoldsData buf =
      (l : ℕ)
      → l < 32
      → writes w l ≡ true
      → word buf (record_header_unit + write_count l)
        ≡ sub64 (data_next w l) (w.value l) % 2 ^ 32 * 2 ^ 32 + w.value l % 2 ^ 32

  -- What the record is to say: the values of the active lanes, and 0 for the others.
  abbrev pub lane_values : ℕ → ℕ → List ℕ
  lane_values zero i = []
  lane_values (suc n) i = (if test_bit w.active i then w.value i else 0) ∷ lane_values n (suc i)

  module _ (words : IsWord64) (buf : List ℕ) (holds : HoldsData buf) (m : ℕ)
      (upper : (l : ℕ) → l < 32 → test_bit w.active l ≡ true → w.value l / 2 ^ 32 ≡ m) where
    data_next-lt : (l : ℕ) → data_next w l < 2 ^ 64
    unfolding data_next shfl_down shfl
    data_next-lt l = ground (arith, words l, words (l + 1))

    read_value :
        (i : ℕ)
        → i < 32
        → writes w i ≡ true
        → record_get_data buf (write_count i) ≡ w.value i % 2 ^ 32
    unfolding record_get_data
    read_value i h wr = get_low _ ∙ omega (arith, holds i h wr)

    read_delta :
        (i : ℕ)
        → i < 32
        → writes w i ≡ true
        → (record_get_delta buf (write_count i) + w.value i) % 2 ^ 32 ≡ data_next w i % 2 ^ 32
    unfolding record_get_delta
    read_delta i h wr =
        let e : record_get_delta buf (write_count i) ≡ sub64 (data_next w i) (w.value i) % 2 ^ 32 =
          get_high _ ∙ omega (arith, holds i h wr) in
        omega (arith, e, words i, data_next-lt i)

    combine :
        (i v : ℕ)
        → i < 32
        → test_bit w.active i ≡ true
        → v % 2 ^ 32 ≡ w.value i % 2 ^ 32
        → bit_or (llgt_set_bitfield m 32 32) (llgt_set_bitfield v 0 32) ≡ w.value i
    combine i v h a e = set_halves m v ∙ omega (arith, upper i h a, words i)

    module _ (wm am : ℕ) (wm_lem : (l : ℕ) → l < 32 → lane_in wm l ≡ writes w l)
        (am_lem : (l : ℕ) → l < 32 → lane_in am l ≡ test_bit w.active l) where
      -- The reader's step and value at lane `i`.
      abbrev delta_at : ℕ → ℕ → ℕ
      delta_at i delta = if writes w i then record_get_delta buf (write_count i) else delta

      abbrev value_at : ℕ → ℕ → ℕ
      value_at i value = if writes w i then record_get_data buf (write_count i) else value

      value_at_lem :
          (i delta value : ℕ)
          → i < 32
          → Before i delta value
          → test_bit w.active i ≡ true
          → value_at i value % 2 ^ 32 ≡ w.value i % 2 ^ 32
      value_at_lem i delta value h before a = elim (Bool-cases (writes w i)) [
        | inl wrote ↦ rw wrote (omega (arith, read_value i h wrote))
        | inr silent ↦ rw silent (silent-value i delta value h words before a silent).0
      ]

      Before-suc :
          (i delta value : ℕ)
          → i < 32
          → Before i delta value
          → Before (suc i) (delta_at i delta) (u64 (value_at i value + delta_at i delta))
      Before-suc i delta value h before = λ a. (
        omega (arith, value_at_lem i delta value h before a),
        λ wrote. rw wrote (read_delta i h wrote),
        λ silent. rw silent (silent-value i delta value h words before a silent).1,
      )

      pub expand_data_lem :
          (n i delta value : ℕ)
          → n + i ≡ 32
          → Before i delta value
          → expand_data n i wm am m buf (write_count i) delta value ≡ lane_values n i
      unfolding expand_data
      expand_data_lem zero i delta value e before = refl
      expand_data_lem (suc n) i delta value e before =
          let h : i < 32 = omega arith in
          rw (wm_lem i h, am_lem i h)
            (ap₂ ◌∷◌ (head h)
              (expand_data_lem n (suc i) _ _ (omega arith) (Before-suc i delta value h before)))
        where
          head :
              i < 32
              → (if test_bit w.active i
                  then bit_or
                      (llgt_set_bitfield m 32 32)
                      (llgt_set_bitfield (value_at i value) 0 32)
                  else 0)
                ≡ (if test_bit w.active i then w.value i else 0)
          head h = elim (Bool-cases (test_bit w.active i)) [
            | inl a ↦
                rw a (combine i (value_at i value) h a (value_at_lem i delta value h before a))
            | inr a ↦ rw a
          ]
