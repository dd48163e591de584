-- ===== src/Pass/Headers/Step.antt =====
-- One access of a kernel, and the headers and calls of a list of them.
use t_espresso.Base.{
  ℕ, suc, ◌≡◌, refl, ap, subst, Bool, true, false, Option, none, some, List, [], ◌∷◌, ◌++◌, u32,
  inl, inr, Option-cases,
}
use t_espresso.TraceIo.Types.{InstHeader}
use t_espresso.Pass.Access.{DebugInfo, Instruction}
use t_espresso.Pass.Headers.{
  zero_inst, instruction, locate, append_inst_header, Inserted, trace_call, access_of, Progress,
  append_unless_missing, insert_call, access_meta, instrument_accesses,
}

-- The header with these numbers, located where there is debug info.
abbrev pub header_of : ℕ → ℕ → List ℕ → Option DebugInfo → InstHeader
header_of instid inst_type inst_meta none = record zero_inst {
  id = instid;
  inst_type = inst_type;
  meta = inst_meta;
}
header_of instid inst_type inst_meta (some debug) =
    locate (record zero_inst { id = instid; inst_type = inst_type; meta = inst_meta }) debug
      debug.column

abbrev pub is_missing : Option DebugInfo → Bool
is_missing none = true
is_missing (some debug) = false

-- The address and the type of an access.
abbrev pub pointer_of : Option (ℕ × ℕ) → ℕ
pointer_of none = 0
pointer_of (some (pointer, type_num)) = pointer

abbrev pub type_of : Option (ℕ × ℕ) → ℕ
type_of none = 0
type_of (some (pointer, type_num)) = type_num

abbrev pub access_header : ℕ → Instruction → InstHeader
access_header n inst =
    header_of n (type_of (access_of inst.op)) (access_meta inst.access_size) inst.debug

-- A header for each access, with the ids from `n` on, and a call for each of them.
abbrev pub access_headers : ℕ → List Instruction → List InstHeader
access_headers n [] = []
access_headers n (inst ∷ insts) = access_header n inst ∷ access_headers (suc n) insts

abbrev pub access_calls : Bool → ℕ → List Instruction → List Inserted
access_calls filtered n [] = []
access_calls filtered n (inst ∷ insts) =
    trace_call (some (pointer_of (access_of inst.op))) n filtered
    ∷ access_calls filtered (suc n) insts

-- A call for each access, all with the id `n`.
abbrev pub stuck_calls : Bool → ℕ → List Instruction → List Inserted
stuck_calls filtered n [] = []
stuck_calls filtered n (inst ∷ insts) =
    trace_call (some (pointer_of (access_of inst.op))) n filtered ∷ stuck_calls filtered n insts

abbrev pub IsAccess : Option (ℕ × ℕ) → Type 0
IsAccess none = ⊥
IsAccess (some access) = Unit {0}

abbrev pub AreAccesses : List Instruction → Type 0
AreAccesses [] = Unit {0}
AreAccesses (inst ∷ insts) = IsAccess (access_of inst.op) × AreAccesses insts

abbrev pub AllLocated : List Instruction → Type 0
AllLocated [] = Unit {0}
AllLocated (inst ∷ insts) = (is_missing inst.debug ≡ false) × AllLocated insts

pub append_lem :
    (p : Progress) (debug : Option DebugInfo) (inst_type : ℕ) (inst_meta : List ℕ)
    → p.debuginfo_not_found ≡ false
    → append_unless_missing p (instruction debug) inst_type inst_meta ≡ record p {
      debuginfo_not_found = is_missing debug;
      instid = u32 (suc p.instid);
      inst_headers = p.inst_headers ++ (header_of p.instid inst_type inst_meta debug ∷ []);
    }
unfolding append_unless_missing append_inst_header
append_lem p none inst_type inst_meta found = rw (append_unless_missing, found) refl
append_lem p (some debug) inst_type inst_meta found = rw (append_unless_missing, found) refl

-- The state of the instrumentation.
abbrev pub progress : Bool → ℕ → List InstHeader → List Inserted → Progress
progress missing n headers calls = record {
  debuginfo_not_found = missing;
  instid = n;
  inst_headers = headers;
  inserted = calls;
}

-- One access of a kernel whose debug info was there so far.
pub accesses_step :
    (filtered : Bool) (inst : Instruction) (insts : List Instruction) (headers : List InstHeader)
    (calls : List Inserted) (n : ℕ)
    → IsAccess (access_of inst.op)
    → instrument_accesses filtered (inst ∷ insts) (progress false n headers calls)
      ≡ instrument_accesses filtered insts (
          progress
            (is_missing inst.debug)
            (u32 (suc n))
            (headers ++ (access_header n inst ∷ []))
            (calls ++ (trace_call (some (pointer_of (access_of inst.op))) n filtered ∷ [])))
unfolding instrument_accesses insert_call
accesses_step filtered inst insts headers calls n access = elim (Option-cases (access_of inst.op)) [
  | inl e ↦ absurd (subst IsAccess e access)
  | inr (pair, e) ↦
      rw (instrument_accesses, e)
        (ap (instrument_accesses filtered insts)
          (append_lem _ inst.debug pair.1 (access_meta inst.access_size) refl))
]
