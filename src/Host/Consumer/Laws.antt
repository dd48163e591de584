-- ===== src/Host/Consumer/Laws.antt =====
-- The life of a consumer: what is in the file when it is destroyed.
use mathlib.Core.List.{append-nil}
use t_espresso.Base.{
  ℕ, zero, suc, ◌≤◌, ◌<◌, ◌≡◌, refl, sym, ap, ap₂, ◌∙◌, true, false, some, List, [], ◌∷◌, ◌++◌,
  length, replicate, arith, le_bytes,
}
use t_espresso.Record.{slots_per_dev}
use t_espresso.TraceIo.Types.{tracefile_buf_size, trace_header_prefix, trace_header_postfix}
use t_espresso.TraceIo.File.{Os, TraceFile, tracefile_close}
use t_espresso.TraceIo.File.Laws.{contents, close_lem, trace_write_header-close}
use t_espresso.Host.Interface.{Globals}
use t_espresso.Host.Filename.{trace_file_name}
use t_espresso.Host.Consumer.{
  HostSystem, Consumer, Change, cleared_slot, accdat_bytes, construct, consume_loop, consume,
  destroy,
}
use t_espresso.Host.Consumer.Stream.{segment, segment-nil}
use t_espresso.Host.Consumer.Round.{ComeFrom, Positions, AreFlushed, joined, of_slot, round_parts}
use t_espresso.Host.Consumer.Moved.{
  Plan, changes_of, Fills, Delivers, HasMoved, consume_slots-HasMoved, HasMoved-trans,
}

module _ (os : Os) (takes_all : (k n : ℕ) → os.accepts k n ≡ some n) (streams : ℕ → ℕ → ℕ) where
  consume_loop-HasMoved :
      (plan : Plan) (last : Change) (start end : Positions) (c : Consumer)
      → AreFlushed 0 start c.traceinfo
      → Delivers os streams plan last start end c
      → (c' : Consumer) × (mid : Positions) × (parts : List (ℕ × List ℕ)) × (consume_loop os
            (changes_of plan)
            c
          ≡ some c')
        × HasMoved os takes_all streams start mid parts c.traceinfo c.tracefile c'.traceinfo
            c'.tracefile
        × Fills false streams mid end last c'
  unfolding consume_loop
  consume_loop-HasMoved [] last start end c flushed fills = (
    c,
    start,
    [],
    refl,
    record {
      same_length = refl;
      flushed = flushed;
      written = sym (append-nil (contents os takes_all c.tracefile));
      labelled = tt;
      grows = λ i below. omega arith;
      of_each = λ i below. sym (segment-nil (streams i) (start i));
    },
    fills,
  )
  consume_loop-HasMoved ((change, next) ∷ plan) last start end c flushed (fills, later) =
      let (c_1, e_1, m_1) =
        consume_slots-HasMoved os takes_all streams true change start next c flushed fills in
      let (c_2, mid, parts, e_2, m_2, fills_2) =
        consume_loop-HasMoved plan last next end c_1 m_1.flushed (later c_1 e_1) in
      (
        c_2,
        mid,
        round_parts streams 0 (length c.traceinfo) start next ++ parts,
        rw (consume_loop, e_1, e_2) refl,
        HasMoved-trans os takes_all streams start next mid
            (round_parts streams 0 (length c.traceinfo) start next) parts c.traceinfo c_1.traceinfo
            c_2.traceinfo c.tracefile c_1.tracefile c_2.tracefile m_1 m_2,
        fills_2,
      )

  consume-HasMoved :
      (plan : Plan) (last : Change) (start end : Positions) (c : Consumer)
      → AreFlushed 0 start c.traceinfo
      → Delivers os streams plan last start end (record c { does_run = true })
      → (c' : Consumer) × (parts : List (ℕ × List ℕ)) × (consume os (changes_of plan) last c
          ≡ some c')
        × HasMoved os takes_all streams start end parts c.traceinfo c.tracefile c'.traceinfo
            c'.tracefile
        × (c'.does_run ≡ false)
  unfolding consume
  consume-HasMoved plan last start end c flushed delivers =
      let (c_1, mid, parts, e_1, m_1, fills) =
        consume_loop-HasMoved plan last start end (record c { does_run = true }) flushed delivers in
      let (c_2, e_2, m_2) =
        consume_slots-HasMoved os takes_all streams false last mid end
          (record c_1 { should_run = false }) m_1.flushed fills in
      let last_parts = round_parts streams 0 (length c_1.traceinfo) mid end in
      (
        record c_2 { does_run = false },
        parts ++ last_parts,
        rw (consume, e_1, e_2) refl,
        HasMoved-trans os takes_all streams start mid end parts last_parts c.traceinfo c_1.traceinfo
            c_2.traceinfo c.tracefile c_1.tracefile c_2.tracefile m_1 m_2,
        refl,
      )

new_slots-AreFlushed : (k n : ℕ) → AreFlushed k (λ i. 0) (replicate n cleared_slot)
new_slots-AreFlushed k zero = tt
new_slots-AreFlushed k (suc n) = (refl, new_slots-AreFlushed (suc k) n)

-- The header of a trace file with this access data.
abbrev pub header_bytes : List ℕ → List ℕ
header_bytes data_bytes =
    trace_header_prefix
    ++ (le_bytes 8 (length data_bytes) ++ (data_bytes ++ (trace_header_postfix ++ [])))

close-result : (os : Os) (t : TraceFile) → (tracefile_close os t).0 ≡ os.closes
unfolding tracefile_close
close-result os t = refl

-- When the file can be opened, the access data fits the buffer, the system takes what it is given
-- and the device delivers streams of bytes to the slots of the consumer, a consumer that is
-- constructed and destroyed leaves a file of the header and of parts, each from one of the slots, and
-- nothing else. Put together, the parts from each slot are all of its stream, in its order.
pub destroy-construct :
    (sys : HostSystem) (takes_all : (k n : ℕ) → sys.os.accepts k n ≡ some n) (streams : ℕ → ℕ → ℕ)
    (g : Globals) (device : ℕ) (data_bytes : List ℕ) (plan : Plan) (last : Change) (end : Positions)
    → sys.opens (trace_file_name sys.pattern_env sys.exename device) ≡ true
    → accdat_bytes g ≡ some data_bytes
    → length data_bytes ≤ tracefile_buf_size
    → ((c : Consumer)
        → construct sys g device ≡ some c
        → Delivers sys.os streams plan last (λ i. 0) end (record c { does_run = true }))
    → (c : Consumer) × (parts : List (ℕ × List ℕ)) × (construct sys g device ≡ some c)
      × (destroy sys.os (changes_of plan) last c
          ≡ some (sys.os.closes, header_bytes data_bytes ++ joined parts))
      × ComeFrom slots_per_dev parts
      × ((i : ℕ) → i < slots_per_dev → of_slot i parts ≡ segment (streams i) 0 (end i))
unfolding construct destroy
destroy-construct sys takes_all streams g device data_bytes plan last end opens data_there small
      delivers =
    let (t, wrote, file) = trace_write_header-close sys.os takes_all data_bytes small in
    let c : Consumer = record {
      device = device;
      header_written = false;
      should_run = true;
      does_run = false;
      tracefile = t;
      pipe_name = trace_file_name sys.pattern_env sys.exename device;
      traceinfo = replicate slots_per_dev cleared_slot;
      info_symbol = g.trace_base_info;
    } in
    let made : construct sys g device ≡ some c = rw (construct, opens, data_there, wrote) refl in
    let (c', parts, e, m, _) =
      consume-HasMoved sys.os takes_all streams plan last (λ i. 0) end c
        (new_slots-AreFlushed 0 slots_per_dev) (delivers c made) in
    let closed : (tracefile_close sys.os c'.tracefile).1 ≡ header_bytes data_bytes ++ joined parts =
      close_lem sys.os takes_all c'.tracefile
      ∙ m.written
      ∙ ap (λ l. l ++ joined parts) (sym (close_lem sys.os takes_all t) ∙ file) in
    (
      c,
      parts,
      made,
      rw (destroy, e) (ap₂ (λ b l. some (b, l)) (close-result sys.os c'.tracefile) closed),
      m.labelled,
      λ i below. m.of_each i below,
    )
