-- ===== src/Pass/Headers.antt =====
-- The headers and the calls that lib/InstrumentDevice.cpp adds to a kernel: `appendInstHeader`,
-- `instrumentMemAccess` and `instrumentScheduling`. What is added to the code of a kernel is the list of the calls in the order of their insertion.
pub mod Step
pub mod Laws
pub mod Scheduling
use t_espresso.Base.{
  ℕ, zero, suc, ◌+◌, ◌-◌, Bool, true, false, ◌&&◌, ◌||◌, not, ltb, if◌then◌else◌, Option, none,
  some, List, [], ◌∷◌, ◌++◌, length, take, replicate, min, u8, u32,
}
use t_espresso.Record.{record_load, record_store, record_atomic, record_execute, record_return}
use t_espresso.TraceIo.Types.{InstHeader, trace_filename_maxlen, trace_header_inst_meta_size}
use t_espresso.Pass.Options.{PassArgs}
use t_espresso.Pass.Access.{
  DebugInfo, Op, load, store, atomic_rmw, atomic_cmp_xchg, call, ret, other_op, Instruction,
  starts_with, same_name, atomic_prefix, is_return,
}

-- The zero value of `trace_header_inst_t`.
abbrev pub zero_inst : InstHeader
zero_inst = record {
  id = 0;
  inst_type = 0;
  meta = replicate trace_header_inst_meta_size 0;
  row = 0;
  col = 0;
  filename_len = 0;
  filename = [];
}

-- What a header is appended for, with its debug info.
pub data Target : Type 0 where
  instruction : Option DebugInfo → Target
  function : Option DebugInfo → Target

unfoldable pub locate : InstHeader → DebugInfo → ℕ → InstHeader
locate inst_header debug col = record inst_header {
  row = u32 debug.line;
  col = u32 col;
  filename_len = min (length debug.path) trace_filename_maxlen;
  filename = debug.path;
}

-- Whether no debug info was found, and the headers.
unfoldable pub append_inst_header :
    List InstHeader → Target → ℕ → ℕ → List ℕ → Bool × List InstHeader
unfolding locate
append_inst_header inst_headers target instid inst_type inst_meta =
    let inst_header = record zero_inst { id = instid; inst_type = inst_type; meta = inst_meta } in
    elim target [
      | instruction (some debug) ↦
          (false, inst_headers ++ (locate inst_header debug debug.column ∷ []))
      | function (some debug) ↦ (false, inst_headers ++ (locate inst_header debug 0 ∷ []))
      | instruction none ↦ (true, inst_headers ++ (inst_header ∷ []))
      | function none ↦ (true, inst_headers ++ (inst_header ∷ []))
    ]

-- A call that is added: of `___cuprof_trace` with its address (`none` is the constant -1), its
-- instruction id and whether the volatile filters are applied to it, or of `___cuprof_trace_ret`.
pub data Inserted : Type 0 where
  trace_call : Option ℕ → ℕ → Bool → Inserted
  trace_ret_call : Inserted

-- `ptr_operand` and `type_num`; `none` is a fatal error or a failed assertion.
unfoldable pub access_of : Op → Option (ℕ × ℕ)
unfolding starts_with
access_of (load pointer) = some (pointer, record_load)
access_of (store pointer) = some (pointer, record_store)
access_of (atomic_rmw pointer) = some (pointer, record_atomic)
access_of (atomic_cmp_xchg pointer) = some (pointer, record_atomic)
access_of (call none operand) = none
access_of (call (some name) operand) =
    if starts_with name atomic_prefix then some (operand, record_atomic) else none
access_of ret = none
access_of other_op = none

-- `args.sm.size() > 0 || args.warpp.size() > 0`
unfoldable pub is_filtered : PassArgs → Bool
is_filtered args = ltb 0 (length args.sm) || ltb 0 (length args.warpp)

-- What the instrumentation of a kernel goes on with.
pub record Progress : Type 0 where
  pub debuginfo_not_found : Bool
  pub instid : ℕ
  pub inst_headers : List InstHeader
  pub inserted : List Inserted

-- `debuginfo_not_found || appendInstHeader(..., instid++, ...)`: the right side is not evaluated
-- once no debug info was found.
unfoldable pub append_unless_missing : Progress → Target → ℕ → List ℕ → Progress
unfolding append_inst_header
append_unless_missing p target inst_type inst_meta = elim p.debuginfo_not_found [
  | true ↦ p
  | false ↦
      let (missing, headers) =
        append_inst_header p.inst_headers target p.instid inst_type inst_meta in
      record p {
        debuginfo_not_found = missing;
        instid = u32 (suc p.instid);
        inst_headers = headers;
      }
]

unfoldable pub insert_call : Progress → Inserted → Progress
insert_call p inserted_call = record p { inserted = p.inserted ++ (inserted_call ∷ []) }

-- `inst_meta` of an access.
abbrev pub access_meta : ℕ → List ℕ
access_meta size = u32 size ∷ 0 ∷ 0 ∷ 0 ∷ 0 ∷ []

abbrev pub no_meta : List ℕ
no_meta = 0 ∷ 0 ∷ 0 ∷ 0 ∷ 0 ∷ []

unfoldable pub instrument_accesses : Bool → List Instruction → Progress → Option Progress
unfolding access_of append_unless_missing insert_call
instrument_accesses filtered [] p = some p
instrument_accesses filtered (inst ∷ insts) p = elim (access_of inst.op) [
  | none ↦ none
  | some (ptr_operand, type_num) ↦ instrument_accesses filtered insts (
      append_unless_missing (insert_call p (trace_call (some ptr_operand) p.instid filtered))
        (instruction inst.debug) type_num (access_meta inst.access_size))
]

-- What both functions start from.
unfoldable pub start : List InstHeader → List Inserted → Progress
start inst_headers inserted = record {
  debuginfo_not_found = false;
  instid = u32 (length inst_headers + 1);
  inst_headers = inst_headers;
  inserted = inserted;
}

unfoldable pub instrument_mem_access :
    Bool → List Instruction → List InstHeader → List Inserted → Option Progress
unfolding start instrument_accesses
instrument_mem_access filtered memacc_insts inst_headers inserted =
    instrument_accesses filtered memacc_insts (start inst_headers inserted)

unfoldable pub instrument_returns : Bool → List Instruction → Progress → Option Progress
unfolding is_return append_unless_missing insert_call
instrument_returns filtered [] p = some p
instrument_returns filtered (inst ∷ insts) p = elim (is_return inst.op) [
  | false ↦ none
  | true ↦ instrument_returns filtered insts (
      append_unless_missing
        (insert_call (insert_call p (trace_call none p.instid filtered)) trace_ret_call)
        (instruction inst.debug) record_return no_meta)
]

unfoldable pub instrument_scheduling :
    Bool → Option DebugInfo → List Instruction → List InstHeader → List Inserted → Option Progress
unfolding start append_unless_missing insert_call instrument_returns
instrument_scheduling filtered subprogram retinsts inst_headers inserted =
    let p = start inst_headers inserted in
    let p' = insert_call p (trace_call none p.instid filtered) in
    instrument_returns filtered retinsts
      (append_unless_missing p' (function subprogram) record_execute no_meta)
