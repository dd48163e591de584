-- ===== src/Device/Warp.antt =====
-- A warp at a call of `___cuprof_trace`, and the CUDA warp intrinsics that the call uses. A lane
-- that reads the variable of a lane that does not take part gets an undefined value: those
-- values are fields of the warp.
use t_espresso.Base.{ℕ, zero, suc, ◌+◌, ◌-◌, ◌%◌, ◌^◌, ◌&&◌, not, ltb, ◌==◌, if◌then◌else◌, u64}
use t_espresso.Bits.Single.{test_bit, from_bits}

pub record Warp : Type 0 where
  -- `__activemask()`
  pub active : ℕ
  -- the argument `data` of each lane
  pub value : ℕ → ℕ
  -- the other arguments, one value for the warp, and `clock64()` of each lane
  pub grid : ℕ
  pub ctaid_serial : ℕ
  pub warpv : ℕ
  pub instid : ℕ
  pub sm : ℕ
  pub warpp : ℕ
  pub clock : ℕ → ℕ
  -- what a shuffle from lane `src` gives lane `lane` while `src` is inactive
  pub undefined : ℕ → ℕ → ℕ

abbrev pub warp_size : ℕ
warp_size = 32

-- `__shfl_sync`, `__shfl_up_sync` and `__shfl_down_sync`: out of the warp, a lane keeps its own.
unfoldable pub shfl : Warp → (ℕ → ℕ) → ℕ → ℕ → ℕ
shfl w var src lane = if test_bit w.active src then var src else u64 (w.undefined src lane)

unfoldable pub shfl_up : Warp → (ℕ → ℕ) → ℕ → ℕ → ℕ
shfl_up w var distance lane =
    if ltb lane distance then var lane else shfl w var (lane - distance) lane

unfoldable pub shfl_down : Warp → (ℕ → ℕ) → ℕ → ℕ → ℕ
shfl_down w var distance lane =
    if ltb (lane + distance) warp_size then shfl w var (lane + distance) lane else var lane

-- `__ballot_sync`: the predicate is an `int`, so a 64-bit value counts by its low 32 bits.
unfoldable pub ballot : Warp → (ℕ → ℕ) → ℕ
ballot w predicate =
    from_bits warp_size (λ lane. test_bit w.active lane && not (predicate lane % 2 ^ 32 == 0))

-- `__popc`: the bits set among the lowest `n`.
unfoldable pub popc_below : ℕ → ℕ → ℕ
popc_below zero x = 0
popc_below (suc n) x = popc_below n x + (if test_bit x n then 1 else 0)

unfoldable pub popc : ℕ → ℕ
unfolding popc_below
popc x = popc_below 32 x

-- `__ffs(x) - 1`: the lowest bit set, looked for from bit `i` on for `n` bits.
unfoldable pub lowest_set : ℕ → ℕ → ℕ → ℕ
lowest_set zero i x = i
lowest_set (suc n) i x = if test_bit x i then i else lowest_set n (suc i) x

-- `__clz`: the clear bits above the highest bit set, among the lowest `n`.
unfoldable pub clz_below : ℕ → ℕ → ℕ
clz_below zero x = 0
clz_below (suc n) x = if test_bit x n then 0 else suc (clz_below n x)

unfoldable pub clz : ℕ → ℕ
unfolding clz_below
clz x = clz_below 32 x
