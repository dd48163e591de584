-- ===== src/Transport/Masks.antt =====
-- The masks of a record: who writes, which words are empty, and that the upper halves agree.
use native.Mathlib.Nat.{pow-le-pow_right, one-le-pow, mod-lt}
use t_espresso.Base.{
  ℕ, zero, suc, ◌+◌, ◌-◌, ◌*◌, ◌/◌, ◌%◌, ◌^◌, ◌≤◌, ◌<◌, ◌≡◌, ◌≢◌, refl, ap, ◌∙◌, true, false, not,
  ◌&&◌, ◌==◌, arith, u8, sub64, sub32, shl64, shl32, bit_and, Bool-cases, inl, inr,
}
use mathlib.Core.Bool.{xor}
use t_espresso.Bits.Fields.{bit_and_mask}
use t_espresso.Bits.Single.{
  test_bit, from_bits-zero, test_bit-or, test_bit-shl, test_bit-shl_below, test_bit-mod,
  test_bit_above, test_bit-and,
}
use t_espresso.Record.{llgt_bit_mask, record_header_unit}
use t_espresso.Device.Warp.{Warp, ballot, shfl, lowest_set, popc, popc_below}
use t_espresso.Device.Trace.{
  header_info, clear_empty, nonzero_mask, nonzero_mask_data, is_msb_same, msb, laneid_leader,
  write_pos, writemask,
}
use t_espresso.Device.Writemask.{writes, test_bit-writemask, shl32_one}
use t_espresso.Transport.Lanes.{write_count, silent-prev_active}
use t_espresso.Transport.Header.{clear_empty_lem, within}

-- `__ffs` finds a set bit, if there is one.
lowest_set_lem :
    (n i x l : ℕ)
    → i ≤ l
    → l < i + n
    → test_bit x l ≡ true
    → (test_bit x (lowest_set n i x) ≡ true) × (lowest_set n i x < i + n)
unfolding lowest_set
lowest_set_lem zero i x l p q b = absurd (omega arith)
lowest_set_lem (suc n) i x l p q b = elim (Bool-cases (test_bit x i)) [
  | inl here ↦ rw here (here, omega arith)
  | inr not_here ↦
      let rest = lowest_set_lem n (suc i) x l (further not_here) (omega arith) b in
      rw not_here (rest.0, omega (arith, rest.1))
]
  where
    further : test_bit x i ≡ false → suc i ≤ l
    further f = ground arith

pub low_ones : (j : ℕ) → j < 6 → test_bit (llgt_bit_mask record_header_unit) j ≡ true
unfolding test_bit
low_ones zero h = refl
low_ones (suc zero) h = refl
low_ones (suc (suc zero)) h = refl
low_ones (suc (suc (suc zero))) h = refl
low_ones (suc (suc (suc (suc zero)))) h = refl
low_ones (suc (suc (suc (suc (suc zero))))) h = refl
low_ones (suc (suc (suc (suc (suc (suc j)))))) h = absurd (omega arith)

popc_below-eq :
    (n x y : ℕ) → ((i : ℕ) → i < n → test_bit x i ≡ test_bit y i) → popc_below n x ≡ popc_below n y
unfolding popc_below
popc_below-eq zero x y h = refl
popc_below-eq (suc n) x y h = rw (h n (omega arith), popc_below-eq n x y (λ i p. h i (omega arith)))

popc_below-short : (d l x : ℕ) → x < 2 ^ l → popc_below (d + l) x ≡ popc_below l x
unfolding popc_below
popc_below-short zero l x h = let e : 0 + l ≡ l = omega arith in rw e
popc_below-short (suc d) l x h =
    let e : suc d + l ≡ suc (d + l) = omega arith in
    rw e (rw (test_bit_above l x (d + l) h (omega arith), popc_below-short d l x h) (omega arith))

-- Masking with the ones below `l` counts the bits below `l`.
pub popc-mask : (l x : ℕ) → l < 32 → popc (bit_and x (sub32 (shl32 1 l) 1)) ≡ popc_below l x
unfolding popc
popc-mask l x h =
    let pos : 1 ≤ 2 ^ l = one-le-pow l 2 (omega arith) in
    let bound : 2 ^ l ≤ 2 ^ 31 =
      pow-le-pow_right {n = 2} (omega arith) {i = l} {j = 31} (omega arith) in
    let mask : sub32 (shl32 1 l) 1 ≡ 2 ^ l - 1 = omega (arith, shl32_one l h) in
    let e : 32 ≡ 32 - l + l = omega arith in
    ap (λ m. popc_below 32 (bit_and x m)) mask
    ∙ ap (popc_below 32) (bit_and_mask l x)
    ∙ ap (λ n. popc_below n (x % 2 ^ l)) e
    ∙ popc_below-short (32 - l) l (x % 2 ^ l) (mod-lt x pos)
    ∙ popc_below-eq l (x % 2 ^ l) x (λ i p. test_bit-mod l x i p)

module _ (w : Warp) where
  pub nonzero_mask_header_bit :
      (lane j : ℕ) → j < 6 → test_bit (nonzero_mask w lane) j ≡ not (header_info w lane j == 0)
  unfolding nonzero_mask xor
  nonzero_mask_header_bit lane j h =
      let ones = llgt_bit_mask record_header_unit in
      let upper = bit_and (writemask w) (nonzero_mask_data w) in
      let inside : within 6 0 j ≡ true = ground arith in
      let low : test_bit (shl64 upper 6) j ≡ false =
        test_bit-mod 64 (upper * 2 ^ 6) j (omega arith) ∙ test_bit-shl_below 6 upper j h in
      test_bit-or (clear_empty w lane 6 0 ones) (shl64 upper 6) j
      ∙ rw (low, clear_empty_lem w lane 6 0 ones j (omega arith), low_ones j h, inside)
          (ground arith)

  pub nonzero_mask_data_bit :
      (lane j : ℕ)
      → j < 32
      → test_bit (nonzero_mask w lane) (j + 6)
        ≡ (test_bit (writemask w) j && test_bit (nonzero_mask_data w) j)
  unfolding nonzero_mask xor
  nonzero_mask_data_bit lane j h =
      let ones = llgt_bit_mask record_header_unit in
      let upper = bit_and (writemask w) (nonzero_mask_data w) in
      let outside : within 6 0 (j + 6) ≡ false = ground arith in
      let high : test_bit (shl64 upper 6) (j + 6) ≡ test_bit upper j =
        test_bit-mod 64 (upper * 2 ^ 6) (j + 6) (omega arith) ∙ test_bit-shl 6 upper j in
      let none_above : test_bit ones (j + 6) ≡ false =
        test_bit_above 6 ones (j + 6) (omega arith) (omega arith) in
      test_bit-or (clear_empty w lane 6 0 ones) (shl64 upper 6) (j + 6)
      ∙ rw
          (
            high,
            test_bit-and (writemask w) (nonzero_mask_data w) j,
            clear_empty_lem w lane 6 0 ones (j + 6) (omega arith),
            none_above,
            outside,
          )
          (ground arith)

  module _ (fits : w.active < 2 ^ 32) (m : ℕ)
      (upper : (l : ℕ) → l < 32 → test_bit w.active l ≡ true → w.value l / 2 ^ 32 ≡ m)
      (bound : m < 2 ^ 32) (l₀ : ℕ) (in_warp : l₀ < 32)
      (taking_part : test_bit w.active l₀ ≡ true) where
    -- The device finds that the upper halves agree.
    pub is_msb_same_lem : is_msb_same w ≡ true
    unfolding is_msb_same ballot msb laneid_leader shfl
    is_msb_same_lem = rw (from_bits-zero 32 _ none_differs)
      where
        leader :
            (test_bit w.active (lowest_set 32 0 w.active) ≡ true) × (lowest_set 32 0 w.active < 32)
        leader = lowest_set_lem 32 0 w.active l₀ (omega arith) in_warp taking_part

        none_differs :
            (l : ℕ)
            → l < 32
            → (test_bit w.active l
                && not (sub64 (msb w l) (shfl w (msb w) (laneid_leader w) l) % 2 ^ 32 == 0))
              ≡ false
        none_differs l h = elim (Bool-cases (test_bit w.active l)) [
          | inl a ↦
              rw (a, leader.0)
                (ground (arith, upper l h a, upper (lowest_set 32 0 w.active) leader.1 leader.0))
          | inr a ↦ rw a
        ]

    same_bits : (l : ℕ) → l < 32 → test_bit (writemask w) l ≡ writes w l
    same_bits l h = test_bit-writemask w fits is_msb_same_lem l h

    -- A writing lane's word comes after those of the writing lanes below it.
    popc-writemask : (l : ℕ) → l ≤ 32 → popc_below l (writemask w) ≡ write_count w l
    unfolding popc_below
    popc-writemask zero h = refl
    popc-writemask (suc l) h = rw (same_bits l h, popc-writemask l (omega arith)) (ground arith)

    write_count-le : (l : ℕ) → write_count w l ≤ l
    write_count-le zero = omega arith
    write_count-le (suc l) = ground (arith, write_count-le l)

    pub write_pos_lem : (l : ℕ) → l < 32 → write_pos w l ≡ write_count w l
    unfolding write_pos
    write_pos_lem l h =
        ap u8 (popc-mask l (writemask w) h ∙ popc-writemask l (omega arith))
        ∙ omega (arith, write_count-le l)

    some_writer :
        (l : ℕ) → l < 32 → test_bit w.active l ≡ true → (k : ℕ) × (k < 32) × (writes w k ≡ true)
    some_writer zero h a = (0, h, ground arith)
    some_writer (suc l) h a = elim (Bool-cases (writes w (suc l))) [
      | inl wrote ↦ (suc l, h, wrote)
      | inr silent ↦ some_writer l (omega arith) (silent-prev_active w l a silent)
    ]

    pub writemask-ne : writemask w ≢ 0
    writemask-ne e =
        let (k, h, wrote) = some_writer l₀ in_warp taking_part in
        let clear : test_bit 0 k ≡ false = test_bit_above 0 0 k (omega arith) (omega arith) in
        ground (arith, same_bits k h, ap (λ x. test_bit x k) e)
