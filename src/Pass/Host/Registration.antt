-- ===== src/Pass/Host/Registration.antt =====
-- What `createAndRegisterTraceVars` adds to a module.
use mathlib.Core.List.{append_assoc, append-nil}
use t_espresso.Base.{
  ℕ, ◌≡◌, refl, sym, ap, ◌∙◌, subst, true, false, some, List, [], ◌∷◌, ◌++◌, same_text, same_text→≡,
  arith, Bool-cases, inl, inr,
}
use t_espresso.Pass.Symbols.{data_var, data_func, kernel_id, get_symbol_name, get_symbol_name_same}
use t_espresso.Pass.Host.{
  cuprof_kernel_set_up, HostFunction, HostModule, CdtorEntry, old_entries, has_variable,
  find_function, put_function, get_or_insert_global_var, register_func_to_get_debug_data,
  kernel_vars, create_kernel_vars,
}
use t_espresso.Pass.Host.Names.{
  find_function-put_function, find_function-put_other, with_variable, has_variable-with,
  has_variable-with_other, is_free, is_free-put_other, caller, ctor_entry, with_ctor,
  register_func_to_global_ctor_lem,
}

abbrev pub kdata_of : List ℕ → List ℕ
kdata_of k = get_symbol_name k data_var

abbrev pub kid_of : List ℕ → List ℕ
kid_of k = get_symbol_name k kernel_id

abbrev pub func_of : List ℕ → List ℕ
func_of k = get_symbol_name k data_func

-- The function that registers kernel `k`.
abbrev pub kernel_caller : List ℕ → HostFunction
kernel_caller k = caller (func_of k) cuprof_kernel_set_up (kdata_of k ∷ kid_of k ∷ [])

-- No other kernel of the list has the name `k`.
abbrev pub NotAmong : List ℕ → List (List ℕ) → Type 0
NotAmong k [] = Unit {0}
NotAmong k (j ∷ ks) = (same_text k j ≡ false) × NotAmong k ks

abbrev pub AreDistinct : List (List ℕ) → Type 0
AreDistinct [] = Unit {0}
AreDistinct (k ∷ ks) = NotAmong k ks × AreDistinct ks

-- No function with a body has the name that a kernel's function is to have.
abbrev pub AreFree : List HostFunction → List (List ℕ) → Type 0
AreFree fs [] = Unit {0}
AreFree fs (k ∷ ks) = (is_free fs (func_of k) ≡ true) × AreFree fs ks

AreFree-put :
    (fs : List HostFunction) (k : List ℕ) (ks : List (List ℕ))
    → NotAmong k ks
    → AreFree fs ks
    → AreFree (put_function fs (kernel_caller k)) ks
AreFree-put fs k [] other free = tt
AreFree-put fs k (j ∷ ks) (differs, other) (free, rest) = (
  is_free-put_other fs (kernel_caller k) (func_of j) (get_symbol_name_same k j data_func ∙ differs)
      ∙ free,
  AreFree-put fs k ks other rest,
)

abbrev pub entries_of : List (List ℕ) → List CdtorEntry
entries_of [] = []
entries_of (k ∷ ks) = ctor_entry (func_of k) ∷ entries_of ks

abbrev pub vars_of : List (List ℕ) → List (List ℕ)
vars_of [] = []
vars_of (k ∷ ks) = kdata_of k ∷ kid_of k ∷ vars_of ks

abbrev pub put_all : List HostFunction → List (List ℕ) → List HostFunction
put_all fs [] = fs
put_all fs (k ∷ ks) = put_all (put_function fs (kernel_caller k)) ks

-- The module with kernel `k` registered.
abbrev with_kernel : HostModule → List ℕ → HostModule
with_kernel m k =
    with_ctor
      (record m { variables = with_variable (with_variable m.variables (kdata_of k)) (kid_of k) })
      cuprof_kernel_set_up (kdata_of k ∷ kid_of k ∷ []) (func_of k)

register_lem :
    (m : HostModule) (k : List ℕ)
    → is_free m.functions (func_of k) ≡ true
    → register_func_to_get_debug_data m k ≡ with_kernel m k
unfolding register_func_to_get_debug_data get_or_insert_global_var
register_lem m k free =
    ap (λ r. r.1)
      (register_func_to_global_ctor_lem
        (record m { variables = with_variable (with_variable m.variables (kdata_of k)) (kid_of k) })
        cuprof_kernel_set_up (kdata_of k ∷ kid_of k ∷ []) (func_of k) free)

kernel_vars_lem :
    (m : HostModule) (k : List ℕ) → kernel_vars (with_kernel m k) k ≡ kdata_of k ∷ kid_of k ∷ []
unfolding kernel_vars
kernel_vars_lem m k =
    let vs = with_variable m.variables (kdata_of k) in
    rw
      (
        has_variable-with_other vs (kid_of k) (kdata_of k)
            (has_variable-with m.variables (kdata_of k)),
        has_variable-with vs (kid_of k),
      )
      refl

-- What the loop over the kernels leaves.
pub create_kernel_vars_lem :
    (m : HostModule) (ks : List (List ℕ)) (gvs : List (List ℕ))
    → AreDistinct ks
    → AreFree m.functions ks
    → let r = create_kernel_vars m ks gvs in
      (r.1 ≡ gvs ++ vars_of ks)
      × (old_entries r.0.global_ctors ≡ old_entries m.global_ctors ++ entries_of ks)
      × (r.0.global_dtors ≡ m.global_dtors)
      × (r.0.functions ≡ put_all m.functions ks)
      × (r.0.identifier ≡ m.identifier)
unfolding create_kernel_vars old_entries
create_kernel_vars_lem m [] gvs distinct free =
    (sym (append-nil gvs), sym (append-nil (old_entries m.global_ctors)), refl, refl, refl)
create_kernel_vars_lem m (k ∷ ks) gvs (other, distinct) (free, rest) =
    let m' = with_kernel m k in
    let (vars, ctors, dtors, functions, identifier) =
      create_kernel_vars_lem m' ks (gvs ++ (kdata_of k ∷ kid_of k ∷ [])) distinct
        (AreFree-put m.functions k ks other rest) in
    let step : create_kernel_vars m (k ∷ ks) gvs
        ≡ create_kernel_vars m' ks (gvs ++ (kdata_of k ∷ kid_of k ∷ [])) =
      rw (create_kernel_vars, register_lem m k free, kernel_vars_lem m k) refl in
    (
      ap (λ r. r.1) step ∙ vars ∙ append_assoc gvs (kdata_of k ∷ kid_of k ∷ []) (vars_of ks),
      ap (λ r. old_entries r.0.global_ctors) step
          ∙ ctors
          ∙ append_assoc (old_entries m.global_ctors) (ctor_entry (func_of k) ∷ []) (entries_of ks),
      ap (λ r. r.0.global_dtors) step ∙ dtors,
      ap (λ r. r.0.functions) step ∙ functions,
      ap (λ r. r.0.identifier) step ∙ identifier,
    )

pub is_free-put_all :
    (fs : List HostFunction) (ks : List (List ℕ)) (name : List ℕ)
    → ((k : List ℕ) → same_text (func_of k) name ≡ false)
    → is_free (put_all fs ks) name ≡ is_free fs name
is_free-put_all fs [] name other = refl
is_free-put_all fs (k ∷ ks) name other =
    is_free-put_all (put_function fs (kernel_caller k)) ks name other
    ∙ is_free-put_other fs (kernel_caller k) name (other k)

pub find_function-put_all :
    (fs : List HostFunction) (ks : List (List ℕ)) (name : List ℕ)
    → ((k : List ℕ) → same_text (func_of k) name ≡ false)
    → find_function (put_all fs ks) name ≡ find_function fs name
find_function-put_all fs [] name other = refl
find_function-put_all fs (k ∷ ks) name other =
    find_function-put_all (put_function fs (kernel_caller k)) ks name other
    ∙ find_function-put_other fs (kernel_caller k) name (other k)

-- Kernel `k` is one of the list.
abbrev pub IsAmong : List ℕ → List (List ℕ) → Type 0
IsAmong k ks = has_variable ks k ≡ true

kernel_kept :
    (fs : List HostFunction) (ks : List (List ℕ)) (k : List ℕ)
    → find_function fs (func_of k) ≡ some (kernel_caller k)
    → find_function (put_all fs ks) (func_of k) ≡ some (kernel_caller k)
kernel_kept fs [] k e = e
kernel_kept fs (j ∷ ks) k e =
    kernel_kept (put_function fs (kernel_caller j)) ks k (elim (Bool-cases (same_text j k)) [
      | inl same ↦
          subst
            (λ x.
              find_function (put_function fs (kernel_caller x)) (func_of k)
              ≡ some (kernel_caller k))
            (sym (same_text→≡ j k same)) (find_function-put_function fs (kernel_caller k))
      | inr differs ↦
          find_function-put_other fs (kernel_caller j) (func_of k)
            (get_symbol_name_same j k data_func ∙ differs)
          ∙ e
    ])

-- Each kernel of the list has its function.
pub find_function-kernel :
    (fs : List HostFunction) (ks : List (List ℕ)) (k : List ℕ)
    → IsAmong k ks
    → find_function (put_all fs ks) (func_of k) ≡ some (kernel_caller k)
unfolding has_variable
find_function-kernel fs [] k among = absurd (cc)
find_function-kernel fs (j ∷ ks) k among = elim (Bool-cases (same_text j k)) [
  | inl same ↦ kernel_kept (put_function fs (kernel_caller j)) ks k (
      subst
        (λ x.
          find_function (put_function fs (kernel_caller x)) (func_of k) ≡ some (kernel_caller k))
        (sym (same_text→≡ j k same)) (find_function-put_function fs (kernel_caller k)))
  | inr differs ↦ find_function-kernel (put_function fs (kernel_caller j)) ks k (ground arith)
]
