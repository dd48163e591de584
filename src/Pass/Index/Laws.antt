-- ===== src/Pass/Index/Laws.antt =====
-- The index of a CTA is its place in row-major order.
use native.Mathlib.Nat.{
  mul-le-mul_left, mul_comm, add-mul-div_right, add-mul-mod_self_right, div-eq_of_lt, mod-eq_of_lt,
}
use t_espresso.Base.{ℕ, ◌+◌, ◌*◌, ◌/◌, ◌%◌, ◌^◌, ◌≤◌, ◌<◌, ◌≡◌, ◌∙◌, u64, arith}
use t_espresso.Pass.Index.{get_cta_index, get_warpv}

le_mul : (p n : ℕ) → 0 < n → p ≤ p * n
le_mul p n h = omega (arith, mul-le-mul_left p h)

-- Below 2 ^ 32 nothing wraps.
get_cta_index-sum :
    (x y z ncta_x ncta_y : ℕ)
    → 0 < ncta_x
    → (z * ncta_y + y) * ncta_x + x < 2 ^ 32
    → get_cta_index x y z ncta_x ncta_y ≡ (z * ncta_y + y) * ncta_x + x
unfolding get_cta_index
get_cta_index-sum x y z ncta_x ncta_y h k =
    let below = le_mul (z * ncta_y + y) ncta_x h in
    let e : u64 (u64 (z * ncta_y) + y) ≡ z * ncta_y + y = omega (arith, below) in rw e (omega arith)

-- The digits of a number in a mixed base.
row_div : (r q n : ℕ) → r < n → (q * n + r) / n ≡ q
row_div r q n h =
    let e : q * n + r ≡ r + q * n = omega arith in
    rw e (add-mul-div_right r q {z = n} (omega arith) ∙ rw (div-eq_of_lt h) (omega arith))

row_mod : (r q n : ℕ) → r < n → (q * n + r) % n ≡ r
row_mod r q n h =
    let e : q * n + r ≡ r + q * n = omega arith in
    rw e (add-mul-mod_self_right r q n ∙ mod-eq_of_lt h)

-- Of a CTA inside the grid, the index gives back the three coordinates, when the grid has at most
-- 2 ^ 32 CTAs up to it; so no two CTAs share an index.
pub get_cta_index-coordinates :
    (x y z ncta_x ncta_y : ℕ)
    → x < ncta_x
    → y < ncta_y
    → (z * ncta_y + y) * ncta_x + x < 2 ^ 32
    → (get_cta_index x y z ncta_x ncta_y % ncta_x ≡ x)
      × ((get_cta_index x y z ncta_x ncta_y / ncta_x) % ncta_y ≡ y)
      × ((get_cta_index x y z ncta_x ncta_y / ncta_x) / ncta_y ≡ z)
get_cta_index-coordinates x y z ncta_x ncta_y h k below =
    let row = z * ncta_y + y in
    let e = get_cta_index-sum x y z ncta_x ncta_y (omega arith) below in
    (
      rw e (row_mod x row ncta_x h),
      rw (e, row_div x row ncta_x h) (row_mod y z ncta_y k),
      rw (e, row_div x row ncta_x h) (row_div y z ncta_y k),
    )

-- The threads of one virtual warp are 32 threads in a row of the row-major order of the block, as
-- long as the block has at most 2 ^ 32 threads up to it.
pub get_warpv-bounds :
    (tid_x tid_y tid_z ntid_x ntid_y : ℕ)
    → 0 < ntid_x
    → (tid_z * ntid_y + tid_y) * ntid_x + tid_x < 2 ^ 32
    → let thread_i = (tid_z * ntid_y + tid_y) * ntid_x + tid_x in
      let warpv = get_warpv tid_x tid_y tid_z ntid_x ntid_y in
      (warpv * 32 ≤ thread_i) × (thread_i < warpv * 32 + 32)
unfolding get_warpv
get_warpv-bounds tid_x tid_y tid_z ntid_x ntid_y h k =
    let below = le_mul (tid_z * ntid_y + tid_y) ntid_x h in
    let e : u64 (u64 (tid_z * ntid_y) + tid_y) ≡ tid_z * ntid_y + tid_y = omega (arith, below) in
    rw (e, mul_comm ntid_x (tid_z * ntid_y + tid_y)) (omega arith, omega arith)
