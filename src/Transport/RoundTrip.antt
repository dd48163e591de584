-- ===== src/Transport/RoundTrip.antt =====
-- What a warp stores with `___cuprof_trace`, `trace_deserialize` reads back.
use t_espresso.Base.{ℕ, ◌+◌, ◌*◌, ◌/◌, ◌%◌, ◌^◌, ◌≡◌, ap, ap₂, ◌∙◌, List, arith}
use t_espresso.Record.{
  word, record_get_grid, record_get_ctax, record_get_ctay, record_get_ctaz, record_get_warp_p,
  record_get_sm, record_get_clock, record_set_header_2, record_set_header_3, record_set_header_4,
  record_set_header_5,
}
use t_espresso.Record.RoundTrip.{get_high, get_low, set_halves, get_16_16, get_0_16}
use t_espresso.Device.Warp.{Warp}
use t_espresso.Device.Trace.{header_info, writemask, instid_used, msb}
use t_espresso.TraceIo.Types.{KernelHeader, TraceRecord}
use t_espresso.TraceIo.Deserialize.{find_kernel, find_inst, deserialize_header, trace_deserialize}
use t_espresso.Transport.Lanes.{lane_values}
use t_espresso.Transport.Recovered.{
  IsPlain, IsRecordOf, m, recovered, recovered-word, read_activemask, read_writemask, read_msb,
  read_lanes, has_writers, read_kernid, read_instid,
}

module _ {w : Warp} (plain : IsPlain w) {buf : List ℕ} (rec : IsRecordOf w buf) (kernel_count : ℕ)
    (kernel_accdat : List KernelHeader) (old : TraceRecord) where
  open plain use {lane}

  abbrev decoded : TraceRecord
  decoded = trace_deserialize buf kernel_count kernel_accdat old

  abbrev header_read : TraceRecord
  header_read = deserialize_header (recovered plain rec) kernel_count kernel_accdat old.thread_data

  decoded_lem : decoded ≡ record header_read { thread_data = lane_values w 32 0 }
  unfolding trace_deserialize deserialize_header
  decoded_lem =
      rw ((has_writers plain rec), (read_writemask plain rec), (read_activemask plain rec))
        (ap
          (λ (t : List ℕ). record header_read {
            writemask = writemask w;
            activemask = w.active;
            thread_data = t;
          })
          ((read_lanes plain rec) _ (read_msb plain rec)))

  -- The kernel and the instruction that the record is attributed to.
  pub deserialize-info :
      (decoded.kernel_info ≡ find_kernel kernel_count kernel_accdat 1)
      × (decoded.inst_info ≡ find_inst (find_kernel kernel_count kernel_accdat 1) (instid_used w))
  unfolding deserialize_header
  deserialize-info = (
    ap (λ t. t.kernel_info) decoded_lem
        ∙ ap (find_kernel kernel_count kernel_accdat) (read_kernid plain rec),
    ap (λ t. t.inst_info) decoded_lem
        ∙ ap₂ (λ k i. find_inst (find_kernel kernel_count kernel_accdat k) i)
            (read_kernid plain rec) (read_instid plain rec),
  )

  -- For a plain warp, the decoded record holds the value of every active lane and 0 for every
  -- other lane, and the active mask, the write mask, the upper half, the CTA, the grid, the
  -- multiprocessor, the physical warp and the clock that the warp recorded.
  pub deserialize-trace :
      (decoded.thread_data ≡ lane_values w 32 0)
      × (decoded.activemask ≡ w.active)
      × (decoded.writemask ≡ writemask w)
      × (decoded.msb ≡ m plain rec)
      × (decoded.ctaid.x ≡ w.ctaid_serial / 2 ^ 32 % 2 ^ 32)
      × (decoded.ctaid.y ≡ w.ctaid_serial / 2 ^ 16 % 2 ^ 16)
      × (decoded.ctaid.z ≡ w.ctaid_serial % 2 ^ 16)
      × (decoded.grid ≡ w.grid % 2 ^ 64)
      × (decoded.sm ≡ w.sm % 2 ^ 32)
      × (decoded.warpp ≡ w.warpp % 2 ^ 32)
      × (decoded.clock ≡ w.clock lane % 2 ^ 32)
  unfolding deserialize_header record_get_ctax record_get_ctay record_get_ctaz record_get_grid
      record_get_sm record_get_warp_p record_get_clock header_info record_set_header_2
      record_set_header_3 record_set_header_4 record_set_header_5
  deserialize-trace = (
    ap (λ t. t.thread_data) decoded_lem,
    ap (λ t. t.activemask) decoded_lem ∙ (read_activemask plain rec),
    ap (λ t. t.writemask) decoded_lem ∙ rw (has_writers plain rec) (read_writemask plain rec),
    ap (λ t. t.msb) decoded_lem ∙ (read_msb plain rec),
    ap (λ t. t.ctaid.x) decoded_lem ∙ get_high _ ∙ omega (arith, word₂),
    ap (λ t. t.ctaid.y) decoded_lem ∙ get_16_16 _ ∙ omega (arith, word₂),
    ap (λ t. t.ctaid.z) decoded_lem ∙ get_0_16 _ ∙ omega (arith, word₂),
    ap (λ t. t.grid) decoded_lem ∙ (recovered-word plain rec) 2 (omega arith),
    ap (λ t. t.sm) decoded_lem ∙ get_low _ ∙ omega (arith, word₄),
    ap (λ t. t.warpp) decoded_lem ∙ get_high _ ∙ omega (arith, word₄),
    ap (λ t. t.clock) decoded_lem ∙ get_low _ ∙ omega (arith, word₅),
  )
    where
      word₂ : word (recovered plain rec) 2 ≡ w.ctaid_serial % 2 ^ 64
      word₂ = (recovered-word plain rec) 1 (omega arith)

      word₄ : word (recovered plain rec) 4 ≡ w.warpp % 2 ^ 32 * 2 ^ 32 + w.sm % 2 ^ 32
      word₄ = (recovered-word plain rec) 3 (omega arith) ∙ set_halves w.warpp w.sm

      word₅ : word (recovered plain rec) 5 ≡ msb w lane % 2 ^ 32 * 2 ^ 32 + w.clock lane % 2 ^ 32
      word₅ = (recovered-word plain rec) 4 (omega arith) ∙ set_halves (msb w lane) (w.clock lane)
