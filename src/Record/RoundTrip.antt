-- ===== src/Record/RoundTrip.antt =====
-- What the encoding macros of lib/common.h write, the decoding macros read back.
use t_espresso.Base.{ℕ, ◌+◌, ◌*◌, ◌/◌, ◌%◌, ◌^◌, ◌≡◌, refl, arith, List, ◌∷◌, bit_or, shr, u64, ◌∙◌}
use t_espresso.Bits.Fields.{bit_or_field, bit_and_mask}
use t_espresso.Record.{
  llgt_get_bitfield, llgt_set_bitfield, record_set_header_0, record_set_header_1,
  record_set_header_4, record_set_header_5, record_set_data, record_get_nonzeromask,
  record_get_kernid, record_get_instid, record_get_warp_v, record_get_activemask,
  record_get_writemask, record_get_warp_p, record_get_sm, record_get_msb, record_get_clock,
  record_get_ctax, record_get_ctay, record_get_ctaz, record_get_grid, record_set_header_2,
  record_set_header_3,
}

-- Two halves of 32 bits.
pub set_halves :
    (hi lo : ℕ)
    → bit_or (llgt_set_bitfield hi 32 32) (llgt_set_bitfield lo 0 32)
      ≡ hi % 2 ^ 32 * 2 ^ 32 + lo % 2 ^ 32
unfolding llgt_set_bitfield
set_halves hi lo = ground (
  arith,
  bit_and_mask 32 (u64 hi),
  bit_and_mask 32 (u64 lo),
  bit_or_field 32 (hi % 2 ^ 32) (lo % 2 ^ 32),
)

pub get_high : (w : ℕ) → llgt_get_bitfield w 32 32 ≡ w / 2 ^ 32 % 2 ^ 32
unfolding llgt_get_bitfield
get_high w = bit_and_mask 32 (shr (u64 w) 32) ∙ omega arith

pub get_low : (w : ℕ) → llgt_get_bitfield w 0 32 ≡ w % 2 ^ 32
unfolding llgt_get_bitfield
get_low w = bit_and_mask 32 (shr (u64 w) 0) ∙ omega arith

pub get_26_38 : (w : ℕ) → llgt_get_bitfield w 26 38 ≡ w / 2 ^ 26 % 2 ^ 38
unfolding llgt_get_bitfield
get_26_38 w = bit_and_mask 38 (shr (u64 w) 26) ∙ omega arith

pub get_16_10 : (w : ℕ) → llgt_get_bitfield w 16 10 ≡ w / 2 ^ 16 % 2 ^ 10
unfolding llgt_get_bitfield
get_16_10 w = bit_and_mask 10 (shr (u64 w) 16) ∙ omega arith

pub get_5_11 : (w : ℕ) → llgt_get_bitfield w 5 11 ≡ w / 2 ^ 5 % 2 ^ 11
unfolding llgt_get_bitfield
get_5_11 w = bit_and_mask 11 (shr (u64 w) 5) ∙ omega arith

pub get_0_5 : (w : ℕ) → llgt_get_bitfield w 0 5 ≡ w / 2 ^ 0 % 2 ^ 5
unfolding llgt_get_bitfield
get_0_5 w = bit_and_mask 5 (shr (u64 w) 0) ∙ omega arith

pub get_16_16 : (w : ℕ) → llgt_get_bitfield w 16 16 ≡ w / 2 ^ 16 % 2 ^ 16
unfolding llgt_get_bitfield
get_16_16 w = bit_and_mask 16 (shr (u64 w) 16) ∙ omega arith

pub get_0_16 : (w : ℕ) → llgt_get_bitfield w 0 16 ≡ w / 2 ^ 0 % 2 ^ 16
unfolding llgt_get_bitfield
get_0_16 w = bit_and_mask 16 (shr (u64 w) 0) ∙ omega arith

pub get_0_6 : (w : ℕ) → llgt_get_bitfield w 0 6 ≡ w % 2 ^ 6
unfolding llgt_get_bitfield
get_0_6 w = bit_and_mask 6 (shr (u64 w) 0) ∙ omega arith

pub get_6_32 : (w : ℕ) → llgt_get_bitfield w 6 32 ≡ w / 2 ^ 6 % 2 ^ 32
unfolding llgt_get_bitfield
get_6_32 w = bit_and_mask 32 (shr (u64 w) 6) ∙ omega arith

-- The four fields of word 0, at their places. The lowest holds what the source passes for it.
pub set_header_0_as_sum :
    (nz k i v : ℕ)
    → record_set_header_0 nz k i v
      ≡ nz % 2 ^ 38 * 2 ^ 26 + k % 2 ^ 10 * 2 ^ 16 + i % 2 ^ 11 * 2 ^ 5 + i % 2 ^ 5
unfolding record_set_header_0 llgt_set_bitfield
set_header_0_as_sum nz k i v = ground (
  arith,
  bit_and_mask 38 (u64 nz),
  bit_and_mask 10 (u64 k),
  bit_and_mask 11 (u64 i),
  bit_and_mask 5 (u64 i),
  bit_or_field 26 (nz % 2 ^ 38) (k % 2 ^ 10 * 2 ^ 16),
  bit_or_field 16 (nz % 2 ^ 38 * 2 ^ 10 + k % 2 ^ 10) (i % 2 ^ 11 * 2 ^ 5),
  bit_or_field 5 (nz % 2 ^ 38 * 2 ^ 21 + k % 2 ^ 10 * 2 ^ 11 + i % 2 ^ 11) (i % 2 ^ 5),
)

module _ (nz kernid instid warpv active writemask cta grid warpp sm msb clock : ℕ)
    (rest : List ℕ) where
  abbrev encoded : List ℕ
  encoded =
      record_set_header_0 nz kernid instid warpv
      ∷ record_set_header_1 active writemask
      ∷ record_set_header_2 cta
      ∷ record_set_header_3 grid
      ∷ record_set_header_4 warpp sm
      ∷ record_set_header_5 msb clock
      ∷ rest

  -- Every field of an encoded header decodes to the value encoded, cut to the field's width, with
  -- one exception: the virtual warp id decodes to the low five bits of the instruction id.
  pub header_roundtrip :
      (record_get_nonzeromask encoded ≡ nz % 2 ^ 38)
      × (record_get_kernid encoded ≡ kernid % 2 ^ 10)
      × (record_get_instid encoded ≡ instid % 2 ^ 11)
      × (record_get_warp_v encoded ≡ instid % 2 ^ 5)
      × (record_get_activemask encoded ≡ active % 2 ^ 32)
      × (record_get_writemask encoded ≡ writemask % 2 ^ 32)
      × (record_get_ctax encoded ≡ cta / 2 ^ 32 % 2 ^ 32)
      × (record_get_ctay encoded ≡ cta / 2 ^ 16 % 2 ^ 16)
      × (record_get_ctaz encoded ≡ cta % 2 ^ 16)
      × (record_get_grid encoded ≡ grid % 2 ^ 64)
      × (record_get_warp_p encoded ≡ warpp % 2 ^ 32)
      × (record_get_sm encoded ≡ sm % 2 ^ 32)
      × (record_get_msb encoded ≡ msb % 2 ^ 32)
      × (record_get_clock encoded ≡ clock % 2 ^ 32)
  unfolding record_get_nonzeromask record_get_kernid record_get_instid record_get_warp_v
      record_get_activemask record_get_writemask record_get_ctax record_get_ctay record_get_ctaz
      record_get_grid record_get_warp_p record_get_sm record_get_msb record_get_clock
      record_set_header_1 record_set_header_2 record_set_header_3 record_set_header_4
      record_set_header_5
  header_roundtrip = (
    get_26_38 h0 ∙ omega (arith, e0),
    get_16_10 h0 ∙ omega (arith, e0),
    get_5_11 h0 ∙ omega (arith, e0),
    get_0_5 h0 ∙ omega (arith, e0),
    get_high _ ∙ omega (arith, set_halves active writemask),
    get_low _ ∙ omega (arith, set_halves active writemask),
    get_high _ ∙ omega arith,
    get_16_16 _ ∙ omega arith,
    get_0_16 _ ∙ omega arith,
    refl,
    get_high _ ∙ omega (arith, set_halves warpp sm),
    get_low _ ∙ omega (arith, set_halves warpp sm),
    get_high _ ∙ omega (arith, set_halves msb clock),
    get_low _ ∙ omega (arith, set_halves msb clock),
  )
    where
      h0 : ℕ
      h0 = record_set_header_0 nz kernid instid warpv

      e0 :
          h0
          ≡ nz % 2 ^ 38 * 2 ^ 26
            + kernid % 2 ^ 10 * 2 ^ 16
            + instid % 2 ^ 11 * 2 ^ 5
            + instid % 2 ^ 5
      e0 = set_header_0_as_sum nz kernid instid warpv

-- A data word keeps the low 32 bits of the value and of the distance to the next lane's value.
pub set_data_as_sum :
    (delta value : ℕ) → record_set_data delta value ≡ delta % 2 ^ 32 * 2 ^ 32 + value % 2 ^ 32
unfolding record_set_data
set_data_as_sum delta value = set_halves delta value
