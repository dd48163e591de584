-- ===== src/TraceIo/Next.antt =====
-- `trace_next` of lib/trace-io.h, and the loop of tools/cutracedump.c that calls it.
pub mod Laws
use t_espresso.Base.{
  ℕ, zero, suc, ◌+◌, ◌-◌, ◌*◌, ◌/◌, ◌%◌, ◌==◌, Bool, true, false, if◌then◌else◌, List, [], ◌∷◌,
  ◌++◌, take, drop, of_le_bytes,
}
use t_espresso.Record.{
  record_header_unit, record_header_size, record_size, record_get_writemask, record_get_activemask,
}
use t_espresso.TraceIo.Types.{TraceRecord}
use t_espresso.TraceIo.Deserialize.{trace_deserialize}
use t_espresso.TraceIo.Open.{Input, Env, Trace, tracefile_read}

-- `__builtin_popcount` of the low `n` bits.
unfoldable pub popcount : ℕ → ℕ → ℕ
popcount zero mask = 0
popcount (suc n) mask = mask % 2 + popcount n (mask / 2)

-- The bytes in `buf` as `n` 64-bit words.
unfoldable pub buf_words : ℕ → List ℕ → List ℕ
buf_words zero buf = []
buf_words (suc n) buf = of_le_bytes (take 8 buf) ∷ buf_words n (drop 8 buf)

-- The number of data words of the record with this header.
unfoldable pub data_count : List ℕ → ℕ
data_count header =
    if record_get_writemask header == 0
    then popcount 32 (record_get_activemask header)
    else popcount 32 (record_get_writemask header)

-- The end of the file, which is no error; a record that is cut off; or the next record.
pub data Next : Type 0 where
  finished : Next
  broken : Next
  next : Trace → TraceRecord → Next

-- `r` is `trace->record` before the call.
unfoldable pub trace_next : Env → Trace → TraceRecord → Next
trace_next env t r =
    let (all, header, t_1) = tracefile_read env t.tracefile record_header_size in
    if all
    then (let count = data_count (buf_words record_header_unit header) in
        let (all_2, payload, t_2) =
          tracefile_read env t_1 (record_size count - record_header_size) in
        if all_2
        then next (record t { tracefile = t_2 })
            (trace_deserialize (buf_words (record_header_unit + count) (header ++ payload))
              t.kernel_count t.kernel_accdat r)
        else broken)
    else finished

-- `while (trace_next(trace) == 0)`, for at most `fuel` rounds: the records, and whether the loop
-- ended with no error.
unfoldable pub read_records : ℕ → Env → Trace → TraceRecord → List TraceRecord × Bool
read_records zero env t r = ([], false)
read_records (suc fuel) env t r = elim (trace_next env t r) [
  | finished ↦ ([], true)
  | broken ↦ ([], false)
  | next t' r' ↦ let rest = read_records fuel env t' r' in (r' ∷ rest.0, rest.1)
]
