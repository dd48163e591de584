-- ===== src/Host/Consumer/Reopen.antt =====
-- What the reader opens of the file that a consumer leaves.
use t_espresso.Base.{
  ℕ, ◌≤◌, ◌<◌, ◌≡◌, refl, ap, ◌∙◌, true, leb, some, List, [], ◌∷◌, ◌++◌, length, length-append,
  take-append_left, le_bytes, arith,
}
use t_espresso.Record.{slots_per_dev}
use t_espresso.TraceIo.Types.{
  InstHeader, KernelHeader, tracefile_buf_size, trace_header_prefix, trace_header_postfix,
}
use t_espresso.TraceIo.Reader.{done}
use t_espresso.TraceIo.Reader.RoundTrip.{AreBlank}
use t_espresso.TraceIo.Open.{Env, kernel_table_size, trace_open}
use t_espresso.TraceIo.Open.Kernels.{all_bytes, AreKept}
use t_espresso.TraceIo.Open.Laws.{opened, join, trace_open-header}
use t_espresso.Host.Interface.{Globals}
use t_espresso.Host.Interface.Laws.{Holds}
use t_espresso.Host.Filename.{trace_file_name}
use t_espresso.Host.Consumer.{HostSystem, Consumer, Change, accdat_bytes, construct, destroy}
use t_espresso.Host.Consumer.Stream.{segment}
use t_espresso.Host.Consumer.Round.{ComeFrom, Positions, joined, of_slot}
use t_espresso.Host.Consumer.Moved.{Plan, changes_of, Delivers}
use t_espresso.Host.Consumer.Laws.{destroy-construct}

-- Once the kernels are set up, a consumer writes the access data without the byte behind it.
accdat_bytes-Holds :
    (g : Globals) (data_bytes : List ℕ) (last n : ℕ)
    → Holds g data_bytes last n
    → accdat_bytes g ≡ some data_bytes
unfolding accdat_bytes
accdat_bytes-Holds g data_bytes last n (var, len, count) =
    let fits : leb (length data_bytes) (length (data_bytes ++ (last ∷ []))) ≡ true =
      ground (arith, length-append data_bytes (last ∷ [])) in
    rw (accdat_bytes, var, len, fits)
      (ap some (take-append_left (length data_bytes) data_bytes (last ∷ []) refl))

-- When a consumer is constructed after fewer than 1024 kernels have been set up, of which each has
-- at most four instructions, names within their bounds, file names within what `malloc` gives room
-- for and no more instructions than the memory holds that the reader sizes by the first of them,
-- their access data fits the buffer, the file can be opened, the system takes and gives what it is
-- asked for and the device delivers streams of bytes to the slots, then `trace_open` of the file that
-- is left when the consumer is destroyed gives these kernels behind the empty one, of the metadata of
-- instruction `i` entry `i` alone, and stands at parts, each from one of the slots, of which those
-- from each slot are all of its stream, in its order.
pub trace_open-destroy :
    (sys : HostSystem) (env : Env) (streams : ℕ → ℕ → ℕ) (g : Globals) (device : ℕ)
    (k : KernelHeader) (ks : List KernelHeader) (last_byte kernel_count : ℕ) (memory : KernelHeader)
    (old : InstHeader) (olds : List InstHeader) (plan : Plan) (last : Change) (end : Positions)
    → ((c n : ℕ) → sys.os.accepts c n ≡ some n)
    → ((c n : ℕ) → env.reads c n ≡ some n)
    → ((n : ℕ) → env.grants n ≡ true)
    → env.kernel_memory k.insts_count ≡ some memory
    → memory.insts ≡ old ∷ olds
    → AreBlank olds
    → AreKept env.usable olds (k ∷ ks)
    → length (k ∷ ks) < kernel_table_size
    → length (all_bytes (k ∷ ks)) ≤ tracefile_buf_size
    → Holds g (all_bytes (k ∷ ks)) last_byte kernel_count
    → sys.opens (trace_file_name sys.pattern_env sys.exename device) ≡ true
    → ((c : Consumer)
        → construct sys g device ≡ some c
        → Delivers sys.os streams plan last (λ i. 0) end (record c { does_run = true }))
    → (c : Consumer) × (file : List ℕ) × (parts : List (ℕ × List ℕ)) × (construct sys g device
        ≡ some c)
      × (destroy sys.os (changes_of plan) last c ≡ some (sys.os.closes, file))
      × (trace_open env (some (record { bytes = file; calls = 0 }))
          ≡ done (opened old olds (k ∷ ks) (joined parts)) [])
      × ComeFrom slots_per_dev parts
      × ((i : ℕ) → i < slots_per_dev → of_slot i parts ≡ segment (streams i) 0 (end i))
trace_open-destroy sys env streams g device k ks last_byte kernel_count memory old olds plan last
      end takes reads grants mem all blank kept room small holds opens delivers =
    let data_bytes = all_bytes (k ∷ ks) in
    let (c, parts, made, left, labelled, each) =
      destroy-construct sys takes streams g device data_bytes plan last end opens
        (accdat_bytes-Holds g data_bytes last_byte kernel_count holds) small delivers in
    let flat =
      join trace_header_prefix (le_bytes 8 (length data_bytes)) data_bytes trace_header_postfix
        (joined parts) in
    (
      c,
      _,
      parts,
      made,
      left,
      ap (λ l. trace_open env (some (record { bytes = l; calls = 0 }))) flat
          ∙ trace_open-header env k ks memory old olds (joined parts) reads grants mem all blank
              kept room small,
      labelled,
      each,
    )
