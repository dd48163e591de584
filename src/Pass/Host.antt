-- ===== src/Pass/Host.antt =====
-- lib/InstrumentHost.cpp: what is added to a host module, so that the program registers its kernels
-- when it starts. A function or a variable is known by its name. LLVM's types and casts are left
-- out; a body is the statements of its last block without the terminator.
pub mod Names
pub mod Registration
pub mod Constructors
pub mod Start
pub mod Launch
use t_espresso.Base.{
  ℕ, suc, ◌+◌, Bool, true, false, if◌then◌else◌, Option, none, some, List, [], ◌∷◌, ◌++◌, ascii,
  same_text, contains_text, u32,
}
use t_espresso.Pass.Symbols.{data_var, data_func, kernel_id, base_name, get_symbol_name}

-- The functions of the host runtime that are called.
pub data Runtime : Type 0 where
  cuprof_init : Runtime
  cuprof_term : Runtime
  cuprof_gvsym_set_up : Runtime
  cuprof_kernel_set_up : Runtime

pub data Callee : Type 0 where
  runtime : Runtime → Callee
  defined : List ℕ → Callee

-- A call, a call of `__cudaRegisterVar` with the variable, its name and size, or other code.
pub data Statement : Type 0 where
  calls : Runtime → List (List ℕ) → Statement
  register_var : List ℕ → ℕ → Statement
  other_code : ℕ → Statement

-- A function without statements is a declaration.
pub record HostFunction : Type 0 where
  pub name : List ℕ
  pub body : List Statement

-- An entry of `llvm.global_ctors` or `llvm.global_dtors`.
pub record CdtorEntry : Type 0 where
  pub priority : ℕ
  pub func : Callee

-- The list in the module: missing, with an initializer that is no array, or with its entries.
pub data CdtorList : Type 0 where
  missing : CdtorList
  no_array : CdtorList
  entries : List CdtorEntry → CdtorList

pub record HostModule : Type 0 where
  pub target_triple : List ℕ
  pub identifier : List ℕ
  pub variables : List (List ℕ)
  pub functions : List HostFunction
  pub global_ctors : CdtorList
  pub global_dtors : CdtorList

pub data CdtorType : Type 0 where
  global_ctor : CdtorType
  global_dtor : CdtorType

-- GLOBAL_CDTOR_DEFAULT_PRIORITY
abbrev pub default_priority : ℕ
default_priority = 2147483646

unfoldable pub has_variable : List (List ℕ) → List ℕ → Bool
has_variable [] name = false
has_variable (v ∷ vs) name = if same_text v name then true else has_variable vs name

unfoldable pub get_or_insert_global_var : HostModule → List ℕ → HostModule
get_or_insert_global_var m name = record m {
  variables = if has_variable m.variables name then m.variables else m.variables ++ (name ∷ []);
}

unfoldable pub find_function : List HostFunction → List ℕ → Option HostFunction
find_function [] name = none
find_function (f ∷ fs) name = if same_text f.name name then some f else find_function fs name

-- `f` in the place of the function of its name, or at the end.
unfoldable pub put_function : List HostFunction → HostFunction → List HostFunction
put_function [] f = f ∷ []
put_function (g ∷ gs) f = if same_text g.name f.name then f ∷ gs else g ∷ put_function gs f

-- The entries that are kept.
unfoldable pub old_entries : CdtorList → List CdtorEntry
old_entries missing = []
old_entries no_array = []
old_entries (entries es) = es

-- `func` is `none` for a null pointer.
unfoldable pub append_global_ctor_dtor :
    HostModule → Option Callee → CdtorType → ℕ → Bool × HostModule
append_global_ctor_dtor m none cdtor_type priority = (false, m)
append_global_ctor_dtor m (some func) global_ctor priority = (
  true,
  record m {
    global_ctors =
        entries (old_entries m.global_ctors ++ (record { priority = priority; func = func } ∷ []));
  },
)
append_global_ctor_dtor m (some func) global_dtor priority = (
  true,
  record m {
    global_dtors =
        entries (old_entries m.global_dtors ++ (record { priority = priority; func = func } ∷ []));
  },
)

-- A new function that calls `func_callee`, as a constructor; none when the name has a body.
unfoldable pub register_func_to_global_ctor :
    HostModule → Runtime → List (List ℕ) → List ℕ → Bool × HostModule
register_func_to_global_ctor m func_callee args ctor_name =
    let ctor : HostFunction = record { name = ctor_name; body = calls func_callee args ∷ [] } in
    let added =
      append_global_ctor_dtor (record m { functions = put_function m.functions ctor })
        (some (defined ctor_name)) global_ctor (u32 (default_priority + 1)) in
    elim (find_function m.functions ctor_name) [
      | none ↦ (true, added.1)
      | some f ↦ elim f.body [ [] ↦ (true, added.1) | s ∷ body ↦ (false, m) ]
    ]

unfoldable pub register_func_to_get_debug_data : HostModule → List ℕ → HostModule
register_func_to_get_debug_data m kernel_name =
    let kdata = get_symbol_name kernel_name data_var in
    let kid = get_symbol_name kernel_name kernel_id in
    let m = get_or_insert_global_var m kdata in
    let m = get_or_insert_global_var m kid in
    (register_func_to_global_ctor m cuprof_kernel_set_up (kdata ∷ kid ∷ [])
      (get_symbol_name kernel_name data_func)).1

-- The variables of one kernel that are in the module.
unfoldable pub kernel_vars : HostModule → List ℕ → List (List ℕ)
kernel_vars m kernel_name =
    let kdata = get_symbol_name kernel_name data_var in
    let kid = get_symbol_name kernel_name kernel_id in
    (if has_variable m.variables kdata then kdata ∷ [] else [])
    ++ (if has_variable m.variables kid then kid ∷ [] else [])

-- The loop over the kernels: the module, and the variables that are collected.
unfoldable pub create_kernel_vars :
    HostModule → List (List ℕ) → List (List ℕ) → HostModule × List (List ℕ)
create_kernel_vars m [] gvs = (m, gvs)
create_kernel_vars m (kernel ∷ kernel_list) gvs =
    let m' = register_func_to_get_debug_data m kernel in
    create_kernel_vars m' kernel_list (gvs ++ kernel_vars m' kernel)

-- One call for each variable. The size is that of the type of the global, which is a pointer.
unfoldable pub registrations : ℕ → List (List ℕ) → List Statement
registrations pointer_size [] = []
registrations pointer_size (gv ∷ vars) =
    register_var gv (u32 pointer_size) ∷ registrations pointer_size vars

-- The calls stand before the terminator of `cuda_setup_func`, which has a body: the compiler writes
-- it.
unfoldable pub register_vars : ℕ → HostModule → List ℕ → List (List ℕ) → HostModule
register_vars pointer_size m cuda_setup_func vars =
    elim (find_function m.functions cuda_setup_func) [
      | none ↦ m
      | some f ↦ record m {
        functions =
            put_function m.functions
              (record f { body = f.body ++ registrations pointer_size vars });
      }
    ]

abbrev pub cuprof_trace_base_info : List ℕ
cuprof_trace_base_info = ascii "___cuprof_trace_base_info"

unfoldable pub create_and_register_trace_vars : ℕ → HostModule → List ℕ → List (List ℕ) → HostModule
create_and_register_trace_vars pointer_size m cuda_setup_func kernel_list =
    let created = create_kernel_vars m kernel_list [] in
    let m' = get_or_insert_global_var created.0 cuprof_trace_base_info in
    let m'' =
      (register_func_to_global_ctor m' cuprof_gvsym_set_up (cuprof_trace_base_info ∷ [])
        (get_symbol_name m'.identifier base_name)).1 in
    register_vars pointer_size m'' cuda_setup_func (created.1 ++ (cuprof_trace_base_info ∷ []))

abbrev pub cuda_register_globals : List ℕ
cuda_register_globals = ascii "__cuda_register_globals"

-- Whether the module was changed, and the module. `kernel_list` are the names of the kernels that
-- were located.
unfoldable pub run_on_host_module : ℕ → HostModule → List (List ℕ) → Bool × HostModule
run_on_host_module pointer_size m kernel_list =
    if contains_text m.target_triple (ascii "nvptx")
    then (false, m)
    else (let m_1 =
          (append_global_ctor_dtor m (some (runtime cuprof_init)) global_ctor default_priority).1 in
        let m_2 =
          (append_global_ctor_dtor m_1 (some (runtime cuprof_term)) global_dtor
            default_priority).1 in
        (
          true,
          elim (find_function m_2.functions cuda_register_globals) [
            | none ↦ m_2
            | some f ↦
                create_and_register_trace_vars pointer_size m_2 cuda_register_globals kernel_list
          ],
        ))
