-- ===== src/Dump.antt =====
-- tools/cutracedump.c: the text that the tool prints of a trace file, with what `trace_open` of
-- lib/trace-io.h prints, and `trace_close`. What the tool says on the error output is left out.
pub mod Words
pub mod Fields
pub mod Laws
pub mod Run
mod Tests
use t_espresso.Base.{
  ℕ, zero, suc, ◌+◌, ◌-◌, Bool, true, false, ◌&&◌, ◌||◌, ◌==◌, if◌then◌else◌, Option, none, some,
  List, [], ◌∷◌, ◌++◌, length, get_elem?, get_or, replicate, take, drop, ascii, digits, to_string,
}
use t_espresso.Record.{record_load, record_store, record_atomic, record_execute, record_return}
use t_espresso.TraceIo.Types.{KernelHeader, TraceRecord}
use t_espresso.TraceIo.Reader.{fault, failed, done}
use t_espresso.TraceIo.Open.{Input, Env, Trace, trace_open}
use t_espresso.TraceIo.Next.{read_records}

-- OP_TYPE_NAMES
abbrev pub op_type_names : List (List ℕ)
op_type_names = ascii "LD" ∷ ascii "ST" ∷ ascii "AT" ∷ ascii "EX" ∷ ascii "RT" ∷ ascii "??" ∷ []

unfoldable pub trace_type : ℕ → ℕ
trace_type inst_type =
    if inst_type == record_execute || inst_type == record_return
    then b'T'
    else if inst_type == record_load || (inst_type == record_store || inst_type == record_atomic)
    then b'M'
    else b'?'

-- `%x` and `%010u`. A decimal number is `to_string`.
unfoldable pub hexadecimal : ℕ → List ℕ
hexadecimal n = digits 16 (suc n) n

unfoldable pub padded : ℕ → List ℕ
padded n = replicate (10 - length (to_string n)) b'0' ++ to_string n

-- A coordinate with the size of the grid, which the tool never sets.
unfoldable pub coordinate : ℕ → List ℕ
coordinate n = to_string n ++ ascii "/0"

-- The fields of the first `printf`, where `op` is the name of the operation.
unfoldable pub head_fields : List ℕ → TraceRecord → List (List ℕ)
unfolding trace_type padded coordinate
head_fields op r =
    (trace_type r.inst_info.inst_type ∷ [])
    ∷ op
    ∷ to_string r.grid
    ∷ coordinate r.ctaid.x
    ∷ coordinate r.ctaid.y
    ∷ coordinate r.ctaid.z
    ∷ to_string r.warpv
    ∷ to_string 0
    ∷ to_string r.sm
    ∷ to_string r.warpp
    ∷ padded r.clock
    ∷ []

-- The values of the lanes from lane `i` on for `n` lanes.
unfoldable pub data_fields : ℕ → ℕ → List ℕ → List (List ℕ)
unfolding hexadecimal
data_fields zero i thread_data = []
data_fields (suc n) i thread_data =
    (if get_or thread_data i 0 == 0
      then ascii "(inactive)"
      else hexadecimal (get_or thread_data i 0))
    ∷ data_fields n (suc i) thread_data

unfoldable pub access_fields : TraceRecord → List (List ℕ)
unfolding data_fields
access_fields r =
    if trace_type r.inst_info.inst_type == b'M'
    then to_string (get_or r.inst_info.meta 0 0) ∷ data_fields 32 0 r.thread_data
    else []

-- What `%s` prints of the memory at the kernel's name and at the file name of a record: the bytes up
-- to the first NUL, wherever it is, since nothing puts one behind the names. The file name of
-- `empty_inst` is a null pointer.
pub record Names : Type 0 where
  pub kernel_name : List ℕ
  pub filename : List ℕ

-- The last two.
unfoldable pub inst_fields : Names → TraceRecord → List (List ℕ)
inst_fields names r =
    to_string r.inst_info.id
    ∷ names.kernel_name
    ∷ to_string r.inst_info.row
    ∷ to_string r.inst_info.col
    ∷ names.filename
    ∷ []

-- Fields with a space before each.
unfoldable pub spaced : List (List ℕ) → List ℕ
spaced [] = []
spaced (field ∷ fields) = b' ' ∷ (field ++ spaced fields)

-- What is printed of fields with a space between them.
unfoldable pub line : List (List ℕ) → List ℕ
unfolding spaced
line [] = []
line (field ∷ fields) = field ++ spaced fields

-- One round of the loop of `main`. `none` is an access outside of OP_TYPE_NAMES.
unfoldable pub print_record : Names → TraceRecord → Option (List ℕ)
unfolding head_fields access_fields inst_fields line
print_record names r = elim (get_elem? op_type_names r.inst_info.inst_type) [
  | none ↦ none
  | some op ↦
      some (line (head_fields op r ++ (access_fields r ++ inst_fields names r)) ++ ascii "\n")
]

unfoldable pub print_records : (TraceRecord → Names) → List TraceRecord → Option (List ℕ)
unfolding print_record
print_records names [] = some []
print_records names (r ∷ rs) = elim (print_record (names r) r) [
  | none ↦ none
  | some text ↦ elim (print_records names rs) [ none ↦ none | some rest ↦ some (text ++ rest) ]
]

-- The file to read from; the outer `none` is the message on how to use the tool.
unfoldable pub input_filename : List (List ℕ) → Option (Option (List ℕ))
input_filename [] = none
input_filename (program ∷ []) = some none
input_filename (program ∷ file ∷ []) = some (some file)
input_filename (program ∷ file ∷ arg ∷ args) = none

-- What `header_deserialize` prints for the instructions from `i` on, `n` of them.
unfoldable pub instid_text : ℕ → ℕ → List ℕ
instid_text zero i = []
instid_text (suc n) i = ascii "\ninstid: " ++ (to_string i ++ (ascii "\n" ++ instid_text n (suc i)))

-- What `trace_open` prints of the kernels that it reads.
unfoldable pub open_text : List KernelHeader → List ℕ
unfolding instid_text
open_text [] = []
open_text (k ∷ kernels) = ascii "\nKERNEL\n" ++ (instid_text k.insts_count 1 ++ open_text kernels)

-- Whether `trace_close` gets through these kernels. It frees the file name of `insts[0]`, which is
-- never set, if the kernel has an instruction; `unset_is_free` is whether this does no harm.
unfoldable pub trace_close : (KernelHeader → Bool) → List KernelHeader → Bool
trace_close unset_is_free [] = true
trace_close unset_is_free (k ∷ kernels) =
    (k.insts_count == 0 || unset_is_free k) && trace_close unset_is_free kernels

-- The kernels of a trace from number 1 on.
abbrev pub kernels_of : Trace → List KernelHeader
kernels_of t = take t.kernel_count (drop 1 t.kernel_accdat)

-- How the tool ends: with a use of memory that it does not have; without a trace to read, where what
-- `trace_open` has printed until then is left out; or with what it has printed and whether it
-- succeeded.
pub data Outcome : Type 0 where
  crashed : Outcome
  refused : Outcome
  exited : List ℕ → Bool → Outcome

-- `main`, with its arguments. `opens` is what can be read from a file or, for `none`, from the
-- standard input; `names` is what is printed of the names of a record; `quiet` is whether QUIET is
-- set; `r` is what is in the memory of a record.
unfoldable pub run :
    Env
    → (Option (List ℕ) → Option Input)
    → (TraceRecord → Names)
    → (KernelHeader → Bool)
    → Bool
    → ℕ
    → TraceRecord
    → List (List ℕ)
    → Outcome
unfolding input_filename print_records open_text trace_close
run env opens names unset_is_free quiet fuel r args = elim (input_filename args) [
  | none ↦ exited [] false
  | some file ↦ elim (trace_open env (opens file)) [
    | fault ↦ crashed
    | failed ↦ refused
    | done t after ↦
        let (records, ok) = read_records fuel env t r in
        elim (if quiet then some [] else print_records names records) [
          | none ↦ crashed
          | some text ↦
              let printed = open_text (kernels_of t) ++ text in
              if ok
              then (if trace_close unset_is_free (kernels_of t)
                  then exited printed true
                  else crashed)
              else exited printed false
        ]
  ]
]
