-- ===== src/Host/Consumer.antt =====
-- `TraceConsumer` and `TraceManager` of support/host-support.cu: the life of the thread that empties
-- the slots of a device into its trace file. The streams and the memory of CUDA are granted; a
-- program that aborts, or accesses memory outside of its bounds, is `none`.
pub mod Stream
pub mod Round
pub mod Moved
pub mod Laws
pub mod Reopen
pub mod Manager
use t_espresso.Base.{
  ℕ, zero, suc, Bool, true, false, ◌==◌, leb, if◌then◌else◌, Option, none, some, List, [], ◌∷◌,
  length, take, get_elem?, replicate,
}
use t_espresso.Record.{slots_per_dev}
use t_espresso.TraceIo.File.{Os, TraceFile, trace_write_header, tracefile_close}
use t_espresso.Host.Slot.{Slot, consume_round}
use t_espresso.Host.Interface.{Globals}
use t_espresso.Host.Filename.{trace_file_name}

-- The system around the program: its files, whether a file can be opened for writing, the value of
-- CUPROF_TRACE_FILE and the name of the program.
pub record HostSystem : Type 0 where
  pub os : Os
  pub opens : List ℕ → Bool
  pub pattern_env : Option (List ℕ)
  pub exename : Option (List ℕ)

pub record Consumer : Type 0 where
  pub device : ℕ
  pub header_written : Bool
  pub should_run : Bool
  pub does_run : Bool
  pub tracefile : TraceFile
  pub pipe_name : List ℕ
  -- `traceinfo`, with the memory it points to
  pub traceinfo : List Slot
  -- the symbol of the device that was given the addresses in `traceinfo`
  pub info_symbol : Option ℕ

-- The counters and the records as `memset` leaves them.
abbrev pub cleared_slot : Slot
cleared_slot = record { commit = 0; signal = 0; flushed = 0; flushed_old = 0; records = λ k. 0 }

abbrev pub created_file : TraceFile
created_file = record { file = []; buf = []; calls = 0 }

-- The first `___cuprof_accdat_varlen` bytes at `___cuprof_accdat_var`.
unfoldable pub accdat_bytes : Globals → Option (List ℕ)
accdat_bytes g = elim g.accdat_var [
  | none ↦ if g.accdat_varlen == 0 then some [] else none
  | some mem ↦ if leb g.accdat_varlen (length mem) then some (take g.accdat_varlen mem) else none
]

-- The constructor with a device. What `trace_write_header` returns is not looked at.
unfoldable pub construct : HostSystem → Globals → ℕ → Option Consumer
unfolding accdat_bytes
construct sys g device =
    let pipe_name = trace_file_name sys.pattern_env sys.exename device in
    if sys.opens pipe_name
    then (elim (accdat_bytes g) [
      | none ↦ none
      | some bytes ↦ elim (trace_write_header sys.os created_file bytes) [
        | none ↦ none
        | some (result, t) ↦ some (record {
          device = device;
          header_written = false;
          should_run = true;
          does_run = false;
          tracefile = t;
          pipe_name = pipe_name;
          traceinfo = replicate slots_per_dev cleared_slot;
          info_symbol = g.trace_base_info;
        })
      ]
    ])
    else none

-- What the device does to the slots before the host goes through them.
abbrev pub Change : Type 0
Change = List Slot → List Slot

-- One pass of `consume` over the slots.
unfoldable pub consume_slots : Os → Bool → Change → Consumer → Option Consumer
consume_slots os is_kernel_active change c =
    elim (consume_round os (change c.traceinfo) is_kernel_active c.tracefile) [
      | none ↦ none
      | some (slots, out) ↦ some (record c { traceinfo = slots; tracefile = out })
    ]

-- The loop of `consume`, while `should_run` is set: one round for each of the changes.
unfoldable pub consume_loop : Os → List Change → Consumer → Option Consumer
unfolding consume_slots
consume_loop os [] c = some c
consume_loop os (change ∷ changes) c = elim (consume_slots os true change c) [
  | none ↦ none
  | some c' ↦ consume_loop os changes c'
]

-- `consume`, from its start until the thread ends: the rounds until `should_run` is reset, then one
-- over what is left.
unfoldable pub consume : Os → List Change → Change → Consumer → Option Consumer
unfolding consume_loop
consume os changes last c = elim (consume_loop os changes (record c { does_run = true })) [
  | none ↦ none
  | some c' ↦ elim (consume_slots os false last (record c' { should_run = false })) [
    | none ↦ none
    | some c'' ↦ some (record c'' { does_run = false })
  ]
]

-- The destructor, which waits for the thread to end and closes the file: whether closing succeeds,
-- and the file.
unfoldable pub destroy : Os → List Change → Change → Consumer → Option (Bool × List ℕ)
unfolding consume
destroy os changes last c = elim (consume os changes last c) [
  | none ↦ none
  | some c' ↦ some (tracefile_close os c'.tracefile)
]

-- `TraceManager`; `none` is a null pointer.
pub record TraceManager : Type 0 where
  pub consumers : Option (List Consumer)
  pub device_count : ℕ

-- As static memory is.
abbrev pub zero_manager : TraceManager
zero_manager = record { consumers = none; device_count = 0 }

-- The consumers of `n` devices from `device` on.
unfoldable pub construct_all : HostSystem → Globals → ℕ → ℕ → Option (List Consumer)
construct_all sys g device zero = some []
construct_all sys g device (suc n) = elim (construct sys g device) [
  | none ↦ none
  | some c ↦ elim (construct_all sys g (suc device) n) [ none ↦ none | some cs ↦ some (c ∷ cs) ]
]

-- `device_count` is what `cudaGetDeviceCount` gives.
unfoldable pub init_consumers : HostSystem → Globals → ℕ → TraceManager → Option TraceManager
unfolding construct_all
init_consumers sys g device_count m = elim m.consumers [
  | some cs ↦ some m
  | none ↦ elim (construct_all sys g 0 device_count) [
    | none ↦ none
    | some cs ↦ some (record { consumers = some cs; device_count = device_count })
  ]
]

-- An `int`; `negsuc n` is `- n - 1`.
pub data ℤ : Type 0 where
  pos : ℕ → ℤ
  negsuc : ℕ → ℤ

-- `device >= device_count`
unfoldable at_least : ℤ → ℕ → Bool
at_least (pos n) device_count = leb device_count n
at_least (negsuc n) device_count = false

-- `consumers[device]`; `none` is an access outside of the array.
unfoldable consumer_at : List Consumer → ℤ → Option Consumer
consumer_at cs (pos n) = get_elem? cs n
consumer_at cs (negsuc n) = none

-- The inner `none` is the null pointer that is returned for a device above the range, the outer one
-- an access outside of the array or through a null pointer: no device is too small for the test.
unfoldable pub get_consumer : TraceManager → ℤ → Option (Option Consumer)
unfolding at_least consumer_at
get_consumer m device = elim (at_least device m.device_count) [
  | true ↦ some none
  | false ↦ elim m.consumers [
    | none ↦ none
    | some cs ↦ elim (consumer_at cs device) [ none ↦ none | some c ↦ some (some c) ]
  ]
]

-- The consumers that are deleted, each with what its device does until then: how closing their files
-- goes, and the files.
unfoldable pub destroy_all :
    Os → (ℕ → List Change) → (ℕ → Change) → List Consumer → Option (List (Bool × List ℕ))
unfolding destroy
destroy_all os changes last [] = some []
destroy_all os changes last (c ∷ cs) = elim (destroy os (changes c.device) (last c.device) c) [
  | none ↦ none
  | some file ↦ elim (destroy_all os changes last cs) [
    | none ↦ none
    | some files ↦ some (file ∷ files)
  ]
]

unfoldable pub destroy_manager :
    Os → (ℕ → List Change) → (ℕ → Change) → TraceManager → Option (List (Bool × List ℕ))
unfolding destroy_all
destroy_manager os changes last m = elim m.consumers [
  | none ↦ some []
  | some cs ↦ destroy_all os changes last cs
]
