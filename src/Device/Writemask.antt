-- ===== src/Device/Writemask.antt =====
-- Which lanes write their value: the write mask of `___cuprof_trace`, lane by lane.
use native.Mathlib.Nat.{pow-le-pow_right, one-le-pow}
use t_espresso.Base.{
  ℕ, zero, suc, ◌+◌, ◌-◌, ◌*◌, ◌%◌, ◌^◌, ◌≤◌, ◌<◌, ◌≡◌, refl, sym, ◌∙◌, ap, Bool, true, false, not,
  ◌&&◌, ◌||◌, ◌==◌, if◌then◌else◌, arith, bit_and, bit_or, bit_or_peel, zero-bit_or, shl32, not32,
}
use t_espresso.Bits.Fields.{bit_or-zero, bit_and_mask}
use t_espresso.Bits.Single.{
  test_bit, test_bit-from_bits, test_bit-mod, test_bit-shl, test_bit-shl_below, test_bit-not,
  bit_and-pow,
}
use t_espresso.Device.Warp.{Warp, ballot, clz, clz_below}
use t_espresso.Device.Trace.{
  of_bool, is_delta_changed, is_prev_inactive, writemask_raw, consec_write, is_write, writemask,
  is_msb_same,
}

-- The bit of an active lane in a ballot tells whether its predicate is nonzero as an `int`.
pub test_bit-ballot :
    (w : Warp) (p : ℕ → ℕ) (l : ℕ)
    → l < 32
    → test_bit (ballot w p) l ≡ (test_bit w.active l && not (p l % 2 ^ 32 == 0))
unfolding ballot
test_bit-ballot w p l h = test_bit-from_bits 32 _ l h

pub shl32_one : (l : ℕ) → l < 32 → shl32 1 l ≡ 2 ^ l
shl32_one l h =
    let bound : 2 ^ l ≤ 2 ^ 31 =
      pow-le-pow_right {n = 2} (omega arith) {i = l} {j = 31} (omega arith) in
    omega arith

-- Two conditions joined by `|`, read as one `int`.
either :
    (c b : Bool) (x : ℕ)
    → 1 ≤ x
    → x ≤ 2 ^ 31
    → not (bit_or (of_bool c) (if b then 0 else x) % 2 ^ 32 == 0) ≡ (c || not b)
either true true x p q = refl
either true false x p q = ground (arith, bit_or_peel 1 x)
either false true x p q = refl
either false false x p q = ground (arith, zero-bit_or x)

module _ (w : Warp) where
  -- Whether the lane below takes part.
  abbrev pub prev_active : ℕ → Bool
  prev_active zero = false
  prev_active (suc l) = test_bit w.active l

  -- Lane `l` asks to write: its step differs from the one before, or no lane is before it.
  abbrev pub asks : ℕ → Bool
  asks l = test_bit w.active l && (is_delta_changed w l || not (prev_active l))

  -- The length of the run of asking lanes that ends at a lane.
  abbrev pub run : ℕ → ℕ
  run zero = if asks 0 then 1 else 0
  run (suc l) = if asks (suc l) then suc (run l) else 0

  -- Every other lane of such a run writes, the first one included.
  abbrev pub writes : ℕ → Bool
  writes zero = asks 0
  writes (suc l) = asks (suc l) && not (writes l)

  run-odd : (l : ℕ) → (run l % 2 == 1) ≡ writes l
  run-odd zero = ground arith
  run-odd (suc l) = ground (arith, run-odd l)

module _ (w : Warp) (fits : w.active < 2 ^ 32) where
  test_bit-shl_active : (l : ℕ) → l < 32 → test_bit (shl32 w.active 1) l ≡ prev_active w l
  test_bit-shl_active zero h =
      test_bit-mod 32 (w.active * 2 ^ 1) 0 h ∙ test_bit-shl_below 1 w.active 0 (omega arith)
  test_bit-shl_active (suc l) h =
      let e : l + 1 ≡ suc l = omega arith in
      test_bit-mod 32 (w.active * 2 ^ 1) (suc l) h
      ∙ ap (test_bit (w.active * 2 ^ 1)) (sym e)
      ∙ test_bit-shl 1 w.active l

  is_prev_inactive_lem :
      (l : ℕ) → l < 32 → is_prev_inactive w l ≡ (if prev_active w l then 0 else 2 ^ l)
  unfolding is_prev_inactive
  is_prev_inactive_lem l h = ground (
    arith,
    shl32_one l h,
    ap (bit_and (not32 (shl32 w.active 1))) (shl32_one l h),
    bit_and-pow (not32 (shl32 w.active 1)) l,
    test_bit-not 32 (shl32 w.active 1) l,
    test_bit-shl_active l h,
  )

  pub test_bit-writemask_raw : (l : ℕ) → l < 32 → test_bit (writemask_raw w) l ≡ asks w l
  unfolding writemask_raw
  test_bit-writemask_raw l h =
      test_bit-ballot w _ l h ∙ ap (λ b. test_bit w.active l && b) (predicate l h)
    where
      bound : (l : ℕ) → l < 32 → 2 ^ l ≤ 2 ^ 31
      bound l h = pow-le-pow_right {n = 2} (omega arith) {i = l} {j = 31} (omega arith)

      predicate :
          (l : ℕ)
          → l < 32
          → not (bit_or (of_bool (is_delta_changed w l)) (is_prev_inactive w l) % 2 ^ 32 == 0)
            ≡ (is_delta_changed w l || not (prev_active w l))
      predicate l h = rw (is_prev_inactive_lem l h) (
          either (is_delta_changed w l) (prev_active w l) (2 ^ l) (one-le-pow l 2 (omega arith))
            (bound l h))

  module _ (sh : ℕ) where
    abbrev window : ℕ
    window = not32 (shl32 (writemask_raw w) sh)

    test_bit-window :
        (q : ℕ) → q + sh < 32 → test_bit window (q + sh) ≡ not (test_bit (writemask_raw w) q)
    test_bit-window q h =
        test_bit-not 32 (shl32 (writemask_raw w) sh) (q + sh) (omega arith) h
        ∙ ap not (
            test_bit-mod 32 (writemask_raw w * 2 ^ sh) (q + sh) h
            ∙ test_bit-shl sh (writemask_raw w) q)

    test_bit-window_below : (q : ℕ) → q < sh → sh < 32 → test_bit window q ≡ true
    test_bit-window_below q h k =
        test_bit-not 32 (shl32 (writemask_raw w) sh) q (omega arith) (omega arith)
        ∙ ap not (
            test_bit-mod 32 (writemask_raw w * 2 ^ sh) q (omega arith)
            ∙ test_bit-shl_below sh (writemask_raw w) q h)

    clz-window_below : (n : ℕ) → n ≤ sh → sh < 32 → clz_below n window ≡ 0
    unfolding clz_below
    clz-window_below zero h k = refl
    clz-window_below (suc n) h k = rw (test_bit-window_below n h k)

    clz-window : (q : ℕ) → q + sh < 32 → clz_below (suc (q + sh)) window ≡ run w q
    unfolding clz_below
    clz-window zero h =
        rw (test_bit-window 0 h, test_bit-writemask_raw 0 (omega arith))
          (ground (arith, clz-window_below (0 + sh) (omega arith) (omega arith)))
    clz-window (suc q) h =
        let e : suc q + sh ≡ suc (q + sh) = omega arith in
        rw
          (
            test_bit-window (suc q) h,
            test_bit-writemask_raw (suc q) (omega arith),
            e,
            clz-window q (omega arith),
          )
          (ground arith)

  pub consec_write_lem : (l : ℕ) → l < 32 → consec_write w l ≡ run w l
  unfolding consec_write clz
  consec_write_lem l h =
      let e : 32 ≡ suc (l + (32 - 1 - l)) = omega arith in
      ap (λ n. clz_below n (window (32 - 1 - l))) e ∙ clz-window (32 - 1 - l) l (omega arith)

  module _ (same : is_msb_same w ≡ true) where
    is_write_lem : (l : ℕ) → l < 32 → is_write w l ≡ run w l % 2
    unfolding is_write
    is_write_lem l h = rw (same, consec_write_lem l h) (bit_or-zero _ ∙ bit_and_mask 1 (run w l))

    -- While the upper halves agree, the write mask has the bits of `writes`.
    pub test_bit-writemask : (l : ℕ) → l < 32 → test_bit (writemask w) l ≡ writes w l
    unfolding writemask
    test_bit-writemask l h = test_bit-ballot w (is_write w) l h ∙ rw (is_write_lem l h) (both l)
      where
        both : (l : ℕ) → (test_bit w.active l && not (run w l % 2 % 2 ^ 32 == 0)) ≡ writes w l
        both zero = ground (arith, run-odd w 0)
        both (suc l) = ground (arith, run-odd w (suc l))
