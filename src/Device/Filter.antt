-- ===== src/Device/Filter.antt =====
-- `___cuprof_filter` and `___cuprof_filter_volatile`. A filter is a list with its count apart.
pub mod Laws
use t_espresso.Base.{
  ℕ, zero, suc, Bool, true, false, ◌==◌, ◌&&◌, not, ◌||◌, if◌then◌else◌, List, [], ◌∷◌, get_or,
}

-- One loop: the flag, from entry `i` on for `n` entries.
unfoldable pub scan_filter : List ℕ → ℕ → ℕ → ℕ → Bool → Bool
scan_filter filter value i zero found = found
scan_filter filter value i (suc n) found =
    scan_filter filter value (suc i) n (if get_or filter i 0 == value then true else found)

-- The flag of one kind of filter, from its default value on.
unfoldable pub traced_by : List ℕ → ℕ → ℕ → Bool
unfolding scan_filter
traced_by filter count value = scan_filter filter value 0 count (count == 0)

-- Combine the kinds.
unfoldable pub combine : List Bool → Bool → Bool
combine [] result = result
combine (flag ∷ flags) result = combine flags (if not flag then false else result)

unfoldable pub filter_constant : List ℕ → List ℕ → List ℕ → ℕ → ℕ → ℕ → ℕ → ℕ → ℕ → Bool
unfolding traced_by combine
filter_constant filter_grid filter_cta filter_warpv grid_count cta_count warpv_count grid
      ctaid_serial warpv =
    combine
      (traced_by filter_grid grid_count grid
        ∷ traced_by filter_cta cta_count ctaid_serial
        ∷ traced_by filter_warpv warpv_count warpv
        ∷ [])
      true

unfoldable pub filter_volatile : List ℕ → List ℕ → ℕ → ℕ → ℕ → ℕ → Bool
unfolding traced_by combine
filter_volatile filter_sm filter_warpp sm_count warpp_count sm warpp =
    combine (traced_by filter_sm sm_count sm ∷ traced_by filter_warpp warpp_count warpp ∷ []) true
