-- ===== src/Pass/Host/Launch.antt =====
-- `patchKernelCall` of lib/InstrumentHost.cpp: what a call of a kernel hands to the runtime.
use native.Mathlib.Nat.{mul_comm}
use t_espresso.Bits.Fields.{bit_or_comm, bit_or_field, bit_and_mask}
use t_espresso.Base.{
  ℕ, ◌+◌, ◌-◌, ◌*◌, ◌/◌, ◌%◌, ◌^◌, ◌<◌, ◌≡◌, refl, ap, ap₂, ◌∙◌, Option, none, some, List, [], ◌∷◌,
  bit_and, bit_or, shl64, u64, arith,
}

-- The arguments of `___cuprof_trace_start` after the device, and the stream that
-- `___cuprof_trace_stop` is given.
pub record PatchedCall : Type 0 where
  pub stream : ℕ
  pub kernel_name : List ℕ
  pub grid_dim : ℕ
  pub cta_size : ℕ

-- z, y and x in 16, 16 and 32 bits.
unfoldable pub packed_grid_dim : ℕ → ℕ → ℕ
packed_grid_dim grid_dim grid_dim_z = bit_or (bit_and grid_dim (2 ^ 48 - 1)) (shl64 grid_dim_z 48)

-- `<uint16_t>(x * y) * <uint16_t>z`
unfoldable pub packed_cta_size : ℕ → ℕ → ℕ
packed_cta_size cta_size cta_size_z =
    (u64 (bit_and cta_size (2 ^ 32 - 1) * (cta_size / 2 ^ 32)) % 2 ^ 16)
    * (cta_size_z % 2 ^ 16)
    % 2 ^ 16

-- The arguments of the configuring call; `none` is the failed assertion on their number.
unfoldable pub patch_kernel_call : List ℕ → List ℕ → Option PatchedCall
patch_kernel_call (grid ∷ grid_z ∷ cta ∷ cta_z ∷ shared ∷ stream ∷ []) kernel_name = some (record {
  stream = stream;
  kernel_name = kernel_name;
  grid_dim = packed_grid_dim grid grid_z;
  cta_size = packed_cta_size cta cta_z;
})
patch_kernel_call args kernel_name = none

mod_factor : (a b : ℕ) → a % 2 ^ 16 * b % 2 ^ 16 ≡ a * b % 2 ^ 16
mod_factor a b =
    let split : a * b ≡ 2 ^ 16 * (a / 2 ^ 16 * b) + a % 2 ^ 16 * b =
      let parts : a ≡ 2 ^ 16 * (a / 2 ^ 16) + a % 2 ^ 16 = omega arith in
      omega (arith, ap (λ t. t * b) parts) in
    omega (arith, split)

mod_factors : (a b : ℕ) → a % 2 ^ 16 * (b % 2 ^ 16) % 2 ^ 16 ≡ a * b % 2 ^ 16
mod_factors a b =
    mod_factor a (b % 2 ^ 16)
    ∙ ap (λ t. t % 2 ^ 16) (mul_comm a (b % 2 ^ 16))
    ∙ mod_factor b a
    ∙ ap (λ t. t % 2 ^ 16) (mul_comm b a)

packed_grid_dim_lem :
    (x y z : ℕ)
    → x < 2 ^ 32
    → packed_grid_dim (x + y * 2 ^ 32) z ≡ x + y % 2 ^ 16 * 2 ^ 32 + z % 2 ^ 16 * 2 ^ 48
unfolding packed_grid_dim
packed_grid_dim_lem x y z small =
    let low = bit_and_mask 48 (x + y * 2 ^ 32) in
    let high : shl64 z 48 ≡ z % 2 ^ 16 * 2 ^ 48 = omega arith in
    ap₂ bit_or low high
    ∙ bit_or_comm ((x + y * 2 ^ 32) % 2 ^ 48) (z % 2 ^ 16 * 2 ^ 48)
    ∙ bit_or_field 48 (z % 2 ^ 16) ((x + y * 2 ^ 32) % 2 ^ 48) (omega arith)
    ∙ omega arith

packed_cta_size_lem :
    (x y z : ℕ) → x < 2 ^ 32 → packed_cta_size (x + y * 2 ^ 32) z ≡ x * y * z % 2 ^ 16
unfolding packed_cta_size
packed_cta_size_lem x y z small =
    let low = bit_and_mask 32 (x + y * 2 ^ 32) in
    let x_part : (x + y * 2 ^ 32) % 2 ^ 32 ≡ x = omega arith in
    let y_part : (x + y * 2 ^ 32) / 2 ^ 32 ≡ y = omega arith in
    let cut : u64 (x * y) % 2 ^ 16 ≡ x * y % 2 ^ 16 = omega arith in
    ap₂ (λ a b. (u64 (a * b) % 2 ^ 16) * (z % 2 ^ 16) % 2 ^ 16) (low ∙ x_part) y_part
    ∙ ap (λ t. t * (z % 2 ^ 16) % 2 ^ 16) cut
    ∙ mod_factors (x * y) z

-- A configuring call with the grid x, y, z and the CTA a, b, c, x and a in the lower and y and b in
-- the upper halves of their words, hands to the runtime the grid with y and z cut to 16 bits
-- behind one another, and the number of threads a * b * c cut to 16 bits.
pub patch_kernel_call-packed :
    (x y z a b c shared stream : ℕ) (name : List ℕ)
    → x < 2 ^ 32
    → a < 2 ^ 32
    → patch_kernel_call ((x + y * 2 ^ 32) ∷ z ∷ (a + b * 2 ^ 32) ∷ c ∷ shared ∷ stream ∷ []) name
      ≡ some (record {
        stream = stream;
        kernel_name = name;
        grid_dim = x + y % 2 ^ 16 * 2 ^ 32 + z % 2 ^ 16 * 2 ^ 48;
        cta_size = a * b * c % 2 ^ 16;
      })
unfolding patch_kernel_call
patch_kernel_call-packed x y z a b c shared stream name small small_2 =
    rw (packed_grid_dim_lem x y z small, packed_cta_size_lem a b c small_2) refl
