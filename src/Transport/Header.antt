-- ===== src/Transport/Header.antt =====
-- The header words of a record, and the mask that tells which of its words were empty.
use mathlib.Core.Bool.{xor}
use native.Mathlib.Nat.{pow-le-pow_right}
use native.Mathlib.Decide.{ℕ_discrete}
use t_espresso.Base.{
  ℕ, zero, suc, ◌+◌, ◌^◌, ◌≤◌, ◌<◌, ◌≡◌, ◌≢◌, ◌∙◌, Bool, true, false, not, ◌&&◌, ◌==◌, ltb, leb,
  if◌then◌else◌, List, arith, shl64, bit_and, bit_xor, length, length-set, get_or-set_self,
  get_or-set_ne,
}
use t_espresso.Bits.Single.{
  test_bit, bit_and-pow_is_zero, test_bit-xor, test_bit-pow_self, test_bit-pow_ne,
}
use t_espresso.Record.{word}
use t_espresso.Device.Warp.{Warp}
use t_espresso.Device.Trace.{header_info, clear_empty}
use t_espresso.TraceIo.Deserialize.{recover_header}

pub shl64_one : (i : ℕ) → i < 64 → shl64 1 i ≡ 2 ^ i
shl64_one i h =
    let bound : 2 ^ i ≤ 2 ^ 63 =
      pow-le-pow_right {n = 2} (omega arith) {i = i} {j = 63} (omega arith) in
    omega arith

-- Whether `j` is one of the `n` numbers from `i` on.
abbrev pub within : ℕ → ℕ → ℕ → Bool
within n i j = leb i j && ltb j (i + n)

within_none : (i j : ℕ) → within 0 i j ≡ false
within_none i j = ground arith

within_first : (n i : ℕ) → (within (suc n) i i ≡ true) × (within n (suc i) i ≡ false)
within_first n i = (ground arith, ground arith)

within_later : (n i j : ℕ) → i ≢ j → within (suc n) i j ≡ within n (suc i) j
within_later n i j ne = ground arith

-- Flipping one bit of a mask.
flip_self : (mask i : ℕ) → i < 64 → test_bit (bit_xor mask (shl64 1 i)) i ≡ not (test_bit mask i)
unfolding xor
flip_self mask i h =
    rw (shl64_one i h) (test_bit-xor mask (2 ^ i) i ∙ rw (test_bit-pow_self i) (ground arith))

flip_ne : (mask i j : ℕ) → i < 64 → i ≢ j → test_bit (bit_xor mask (shl64 1 i)) j ≡ test_bit mask j
unfolding xor
flip_ne mask i j h ne =
    rw (shl64_one i h) (test_bit-xor mask (2 ^ i) j ∙ rw (test_bit-pow_ne i j ne) (ground arith))

module _ (w : Warp) (lane : ℕ) where
  -- The loop clears the bits of the empty header words, and no other bit.
  pub clear_empty_lem :
      (n i mask j : ℕ)
      → n + i ≤ 64
      → test_bit (clear_empty w lane n i mask) j
        ≡ xor (test_bit mask j) (within n i j && (header_info w lane j == 0))
  unfolding clear_empty xor
  clear_empty_lem zero i mask j h = rw (within_none i j) (ground arith)
  clear_empty_lem (suc n) i mask j h =
      clear_empty_lem n (suc i) _ j (omega arith) ∙ elim (ℕ_discrete i j) [
        | yes e ↦
            rw (← e, (within_first n i).0, (within_first n i).1) (ground (arith, flip_self mask i))
        | no ne ↦ rw (within_later n i j ne) (ground (arith, flip_ne mask i j))
      ]

-- The reader's loop sets the words whose bits are clear to 0, and leaves the others.
pub recover_header_lem :
    (n i mask : ℕ) (buf : List ℕ) (j : ℕ)
    → n + i ≤ length buf
    → length buf ≤ 64
    → word (recover_header n i mask buf) j
      ≡ (if within n i j && not (test_bit mask j) then 0 else word buf j)
unfolding recover_header
recover_header_lem zero i mask buf j h k = rw (within_none i j)
recover_header_lem (suc n) i mask buf j h k =
    recover_header_lem n (suc i) mask _ j (ground (arith, length-set buf i 0))
      (ground (arith, length-set buf i 0))
    ∙ elim (ℕ_discrete i j) [
      | yes e ↦
          rw (← e, (within_first n i).0, (within_first n i).1)
            (ground (arith, bit_test mask i, get_or-set_self buf i 0 0))
      | no ne ↦ rw (within_later n i j ne) (ground (arith, get_or-set_ne buf 0 0 ne))
    ]
  where
    bit_test : (mask i : ℕ) → i < 64 → (bit_and mask (shl64 1 i) == 0) ≡ not (test_bit mask i)
    bit_test mask i h = rw (shl64_one i h) (bit_and-pow_is_zero mask i)
