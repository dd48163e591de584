-- ===== src/Record/Tests.antt =====
-- Runs of the macros of lib/common.h.
use t_espresso.Base.{ℕ, ◌≡◌, List, [], ◌∷◌}
use t_espresso.Record.{
  record_set_header_0, record_set_header_1, record_set_header_2, record_set_header_3,
  record_set_header_4, record_set_header_5, record_get_warp_v,
}
use t_espresso.Record.RoundTrip.{header_roundtrip}

abbrev sample : List ℕ
sample =
    record_set_header_0 63 1 37 9
    ∷ record_set_header_1 255 1
    ∷ record_set_header_2 0x3_0002_0001
    ∷ record_set_header_3 4
    ∷ record_set_header_4 6 7
    ∷ record_set_header_5 8 10
    ∷ []

header_roundtrip_example : record_get_warp_v sample ≡ 5
header_roundtrip_example = (header_roundtrip 63 1 37 9 255 1 0x3_0002_0001 4 6 7 8 10 []).3
