-- ===== src/Pass/Index.antt =====
-- The numbers of lib/InstrumentDevice.cpp that its passes have an instrumented kernel compute, as
-- the values of the instructions it builds: `i64` and `i32` wrap.
pub mod Laws
use t_espresso.Base.{ℕ, ◌+◌, ◌*◌, ◌/◌, bit_and, bit_or, shl64, u32, u64}

-- `getCtaSerial`
unfoldable pub get_cta_serial : ℕ → ℕ → ℕ → ℕ
get_cta_serial x y z = bit_or (bit_or (shl64 x 32) (shl64 (bit_and y 0xFFFF) 16)) (bit_and z 0xFFFF)

-- `getCtaIndex`, with `%nctaid.x` and `%nctaid.y`.
unfoldable pub get_cta_index : ℕ → ℕ → ℕ → ℕ → ℕ → ℕ
get_cta_index x y z ncta_x ncta_y =
    let second = u64 (u64 (u64 (z * ncta_y) + y) * ncta_x) in u32 (u64 (x + second))

-- `getWarpv`, with `%tid` and `%ntid`.
unfoldable pub get_warpv : ℕ → ℕ → ℕ → ℕ → ℕ → ℕ
get_warpv tid_x tid_y tid_z ntid_x ntid_y =
    let thread_i = u64 (u64 (tid_z * ntid_y) + tid_y) in
    let thread_i = u64 (ntid_x * thread_i) in
    let thread_i = u64 (tid_x + thread_i) in u32 (thread_i / 32)
