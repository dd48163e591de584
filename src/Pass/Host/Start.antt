-- ===== src/Pass/Host/Start.antt =====
-- The start of a program whose host module the pass has changed: its constructors call the C
-- interface of support/host-support.cu.
pub mod Laws
use mathlib.Core.List.{append_assoc, append-nil}
use t_espresso.Base.{
  contains_text, ℕ, suc, ◌+◌, ◌<◌, ◌^◌, ◌≡◌, refl, sym, ap, ◌∙◌, Bool, true, false, if◌then◌else◌,
  Option, none, some, List, [], ◌∷◌, ◌++◌, length, length-append, ascii, arith, Option-cases, inl,
  inr,
}
use t_espresso.TraceIo.File.Laws.{concat}
use t_espresso.Host.Interface
use t_espresso.Host.Interface.{Globals, initial_globals, gvsym_set_up, kernel_set_up}
use t_espresso.Host.Interface.Laws.{Holds, kernel_set_up-Holds}
use t_espresso.Pass.Host.{
  calls, register_var, other_code, cuprof_init, cuprof_term, cuprof_gvsym_set_up,
  cuprof_kernel_set_up, runtime, defined, Callee, Statement, HostFunction, HostModule, CdtorEntry,
  find_function, cuprof_trace_base_info, cuda_register_globals, run_on_host_module,
}
use t_espresso.Pass.Host.Names.{is_free, ctor_entry}
use t_espresso.Pass.Host.Registration.{
  kdata_of, kid_of, func_of, kernel_caller, AreDistinct, AreFree, IsAmong,
}
use t_espresso.Pass.Host.Constructors.{
  base_func, base_caller, runtime_entry, run_on_host_module-Registered,
}

-- The runtime's globals, and of each variable that was given a kernel id, which.
pub record Started : Type 0 where
  pub globals : Globals
  pub ids : List (List ℕ × ℕ)

-- What is given: the bytes of a device variable, the address of a variable, and what memory holds
-- that is new.
pub record Device : Type 0 where
  pub bytes : List ℕ → List ℕ
  pub address : List ℕ → ℕ
  pub junk : ℕ

-- `none` is a call with too few arguments, or one that aborts.
unfoldable pub run_statement : Device → Statement → Started → Option Started
run_statement d (calls cuprof_init args) s =
    some (record s { globals = Interface.cuprof_init d.junk s.globals })
run_statement d (calls cuprof_term args) s =
    some (record s { globals = Interface.cuprof_term s.globals })
run_statement d (calls cuprof_gvsym_set_up []) s = none
run_statement d (calls cuprof_gvsym_set_up (gv ∷ args)) s =
    some (record s { globals = gvsym_set_up (d.address gv) s.globals })
run_statement d (calls cuprof_kernel_set_up []) s = none
run_statement d (calls cuprof_kernel_set_up (kdata ∷ [])) s = none
run_statement d (calls cuprof_kernel_set_up (kdata ∷ kid ∷ args)) s =
    elim (kernel_set_up d.junk true (d.bytes kdata) s.globals) [
      | none ↦ none
      | some (id, g) ↦ some (record { globals = g; ids = s.ids ++ ((kid, id) ∷ []) })
    ]
run_statement d (register_var gv size) s = some s
run_statement d (other_code n) s = some s

unfoldable pub run_body : Device → List Statement → Started → Option Started
run_body d [] s = some s
run_body d (st ∷ body) s = elim (run_statement d st s) [
  | none ↦ none
  | some s' ↦ run_body d body s'
]

unfoldable pub run_callee : Device → List HostFunction → Callee → Started → Option Started
run_callee d fs (runtime r) s = run_statement d (calls r []) s
run_callee d fs (defined name) s = elim (find_function fs name) [
  | none ↦ none
  | some f ↦ run_body d f.body s
]

unfoldable pub run_entries : Device → List HostFunction → List CdtorEntry → Started → Option Started
run_entries d fs [] s = some s
run_entries d fs (e ∷ es) s = elim (run_callee d fs e.func s) [
  | none ↦ none
  | some s' ↦ run_entries d fs es s'
]
