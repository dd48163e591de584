-- ===== src/Pass/Host/Constructors.antt =====
-- What the pass leaves of a host module.
use mathlib.Core.List.{append_assoc}
use t_espresso.Base.{
  contains_text, ℕ, ◌≡◌, refl, sym, ap, ap₂, ◌∙◌, subst, true, false, if◌then◌else◌, some, List, [],
  ◌∷◌, ◌++◌, same_text, ascii, arith, Bool-cases, inl, inr, same_text→≡,
}
use t_espresso.Pass.Symbols.{data_func, base_name, get_symbol_name, get_symbol_name_differs}
use t_espresso.Pass.Host.{
  Runtime, cuprof_init, cuprof_term, cuprof_gvsym_set_up, runtime, HostFunction, HostModule,
  CdtorEntry, entries, old_entries, default_priority, find_function, put_function,
  append_global_ctor_dtor, get_or_insert_global_var, register_func_to_global_ctor,
  create_kernel_vars, registrations, register_vars, cuprof_trace_base_info,
  create_and_register_trace_vars, cuda_register_globals, run_on_host_module,
}
use t_espresso.Pass.Host.Names.{
  find_function-put_function, find_function-put_other, is_free, caller, ctor_entry,
  register_func_to_global_ctor_lem, with_variable,
}
use t_espresso.Pass.Host.Registration.{
  func_of, AreDistinct, AreFree, entries_of, vars_of, create_kernel_vars_lem, is_free-put_all,
  find_function-put_all, IsAmong, find_function-kernel, kernel_caller,
}

abbrev pub base_func : HostModule → List ℕ
base_func m = get_symbol_name m.identifier base_name

abbrev pub base_caller : HostModule → HostFunction
base_caller m = caller (base_func m) cuprof_gvsym_set_up (cuprof_trace_base_info ∷ [])

-- What is known of the module `m'` that is left of `m` for the kernels `ks`.
pub record Registered (pointer_size : ℕ) (m : HostModule) (ks : List (List ℕ))
    (setup : HostFunction) (m' : HostModule) : Type 0 where
  pub ctors :
      old_entries m'.global_ctors
      ≡ old_entries m.global_ctors ++ (entries_of ks ++ (ctor_entry (base_func m) ∷ []))
  pub dtors : m'.global_dtors ≡ m.global_dtors
  pub setup_body :
      find_function m'.functions cuda_register_globals
      ≡ some (record setup {
        body =
            setup.body ++ registrations pointer_size (vars_of ks ++ (cuprof_trace_base_info ∷ []));
      })
  pub base : find_function m'.functions (base_func m) ≡ some (base_caller m)
  pub kernel :
      (k : List ℕ) → IsAmong k ks → find_function m'.functions (func_of k) ≡ some (kernel_caller k)

base_not_setup : (m : HostModule) → same_text (base_func m) cuda_register_globals ≡ false
unfolding get_symbol_name same_text
base_not_setup m = refl

setup_not_base : (m : HostModule) → same_text cuda_register_globals (base_func m) ≡ false
unfolding get_symbol_name same_text
setup_not_base m = refl

kernel_not_setup : (k : List ℕ) → same_text (func_of k) cuda_register_globals ≡ false
unfolding get_symbol_name same_text
kernel_not_setup k = refl

setup_not_kernel : (k : List ℕ) → same_text cuda_register_globals (func_of k) ≡ false
unfolding get_symbol_name same_text
setup_not_kernel k = refl

find_function_name :
    (fs : List HostFunction) (name : List ℕ) (f : HostFunction)
    → find_function fs name ≡ some f
    → f.name ≡ name
unfolding find_function
find_function_name [] name f e = absurd (cc)
find_function_name (g ∷ gs) name f e = elim (Bool-cases (same_text g.name name)) [
  | inl same ↦
      let is : some g ≡ some f =
        ap (λ b. if b then some g else find_function gs name) (sym same) ∙ e in
      let one : g ≡ f = ground arith in ap (λ h. h.name) (sym one) ∙ same_text→≡ g.name name same
  | inr differs ↦ find_function_name gs name f (ground arith)
]

-- The functions after the last two steps: that of the base variable and the set-up function.
abbrev finished : HostModule → List HostFunction → HostFunction → List HostFunction
finished m fs setup = put_function (put_function fs (base_caller m)) setup

finished-setup :
    (m : HostModule) (fs : List HostFunction) (setup : HostFunction)
    → setup.name ≡ cuda_register_globals
    → find_function (finished m fs setup) cuda_register_globals ≡ some setup
finished-setup m fs setup named =
    subst (λ n. find_function (finished m fs setup) n ≡ some setup) named
      (find_function-put_function (put_function fs (base_caller m)) setup)

finished-base :
    (m : HostModule) (fs : List HostFunction) (setup : HostFunction)
    → setup.name ≡ cuda_register_globals
    → find_function (finished m fs setup) (base_func m) ≡ some (base_caller m)
finished-base m fs setup named =
    find_function-put_other (put_function fs (base_caller m)) setup (base_func m)
      (ap (λ n. same_text n (base_func m)) named ∙ setup_not_base m)
    ∙ find_function-put_function fs (base_caller m)

finished-kernel :
    (m : HostModule) (fs : List HostFunction) (setup : HostFunction) (k : List ℕ)
    → setup.name ≡ cuda_register_globals
    → find_function (finished m fs setup) (func_of k) ≡ find_function fs (func_of k)
finished-kernel m fs setup k named =
    find_function-put_other (put_function fs (base_caller m)) setup (func_of k)
      (ap (λ n. same_text n (func_of k)) named ∙ setup_not_kernel k)
    ∙ find_function-put_other fs (base_caller m) (func_of k)
        (get_symbol_name_differs m.identifier k base_name data_func refl)

module _ (pointer_size : ℕ) where
  -- The last steps, from the module `m_1` that the loop over the kernels leaves.
  last_steps :
      (m_1 : HostModule) (setup : HostFunction) (gvs : List (List ℕ))
      → is_free m_1.functions (base_func m_1) ≡ true
      → find_function m_1.functions cuda_register_globals ≡ some setup
      → register_vars pointer_size
          (register_func_to_global_ctor
            (get_or_insert_global_var m_1 cuprof_trace_base_info)
            cuprof_gvsym_set_up
            (cuprof_trace_base_info ∷ [])
            (base_func m_1)).1
          cuda_register_globals
          gvs
        ≡ record m_1 {
          variables = with_variable m_1.variables cuprof_trace_base_info;
          global_ctors =
              entries (old_entries m_1.global_ctors ++ (ctor_entry (base_func m_1) ∷ []));
          functions =
              finished m_1 m_1.functions
                (record setup { body = setup.body ++ registrations pointer_size gvs });
        }
  unfolding register_vars get_or_insert_global_var
  last_steps m_1 setup gvs free there =
      let m_2 = record m_1 { variables = with_variable m_1.variables cuprof_trace_base_info } in
      let added =
        register_func_to_global_ctor_lem m_2 cuprof_gvsym_set_up (cuprof_trace_base_info ∷ [])
          (base_func m_1) free in
      let there_2 =
        find_function-put_other m_1.functions (base_caller m_1) cuda_register_globals
          (base_not_setup m_1)
        ∙ there in
      ap (λ r. register_vars pointer_size r.1 cuda_register_globals gvs) added
      ∙ rw (register_vars, there_2) refl

  create_and_register_lem :
      (m : HostModule) (ks : List (List ℕ)) (setup : HostFunction)
      → AreDistinct ks
      → AreFree m.functions ks
      → is_free m.functions (base_func m) ≡ true
      → find_function m.functions cuda_register_globals ≡ some setup
      → Registered pointer_size m ks setup
          (create_and_register_trace_vars pointer_size m cuda_register_globals ks)
  unfolding create_and_register_trace_vars old_entries get_or_insert_global_var
  create_and_register_lem m ks setup distinct free free_base there =
      let r = create_kernel_vars m ks [] in
      let (vars, ctors, dtors, functions, identifier) =
        create_kernel_vars_lem m ks [] distinct free in
      let base_same : base_func r.0 ≡ base_func m =
        ap (λ i. get_symbol_name i base_name) identifier in
      let named = find_function_name m.functions cuda_register_globals setup there in
      let gvs = r.1 ++ (cuprof_trace_base_info ∷ []) in
      let setup' = record setup { body = setup.body ++ registrations pointer_size gvs } in
      let all_vars : gvs ≡ vars_of ks ++ (cuprof_trace_base_info ∷ []) =
        ap (λ l. l ++ (cuprof_trace_base_info ∷ [])) vars in
      let free_1 : is_free r.0.functions (base_func r.0) ≡ true =
        ap₂ is_free functions base_same
        ∙ is_free-put_all m.functions ks (base_func m)
            (λ k. get_symbol_name_differs k m.identifier data_func base_name refl)
        ∙ free_base in
      let there_1 : find_function r.0.functions cuda_register_globals ≡ some setup =
        ap (λ fs. find_function fs cuda_register_globals) functions
        ∙ find_function-put_all m.functions ks cuda_register_globals kernel_not_setup
        ∙ there in
      let steps = last_steps r.0 setup gvs free_1 there_1 in
      subst (Registered pointer_size m ks setup) (sym steps) (record {
        ctors =
            ap₂ (λ l n. l ++ (ctor_entry n ∷ [])) ctors base_same
            ∙ append_assoc (old_entries m.global_ctors) (entries_of ks)
                (ctor_entry (base_func m) ∷ []);
        dtors = dtors;
        setup_body =
            finished-setup r.0 r.0.functions setup' named
            ∙ ap (λ l. some (record setup { body = setup.body ++ registrations pointer_size l }))
                all_vars;
        base =
            ap (λ n. find_function (finished r.0 r.0.functions setup') n) (sym base_same)
            ∙ finished-base r.0 r.0.functions setup' named
            ∙ ap (λ n. some (caller n cuprof_gvsym_set_up (cuprof_trace_base_info ∷ []))) base_same;
        kernel = λ k among.
            finished-kernel r.0 r.0.functions setup' k named
            ∙ ap (λ fs. find_function fs (func_of k)) functions
            ∙ find_function-kernel m.functions ks k among;
      })

-- The entry of the runtime's own start and end.
abbrev pub runtime_entry : Runtime → CdtorEntry
runtime_entry r = record { priority = default_priority; func = runtime r }

pub run_on_host_module-Registered :
    (pointer_size : ℕ) (m : HostModule) (ks : List (List ℕ)) (setup : HostFunction)
    → contains_text m.target_triple (ascii "nvptx") ≡ false
    → AreDistinct ks
    → AreFree m.functions ks
    → is_free m.functions (base_func m) ≡ true
    → find_function m.functions cuda_register_globals ≡ some setup
    → let r = run_on_host_module pointer_size m ks in
      (r.0 ≡ true)
      × (old_entries r.1.global_ctors
          ≡ old_entries m.global_ctors
            ++ (runtime_entry cuprof_init ∷ (entries_of ks ++ (ctor_entry (base_func m) ∷ []))))
      × (old_entries r.1.global_dtors
          ≡ old_entries m.global_dtors ++ (runtime_entry cuprof_term ∷ []))
      × (find_function r.1.functions cuda_register_globals
          ≡ some (record setup {
            body =
                setup.body
                ++ registrations pointer_size (vars_of ks ++ (cuprof_trace_base_info ∷ []));
          }))
      × (find_function r.1.functions (base_func m) ≡ some (base_caller m))
      × ((k : List ℕ)
          → IsAmong k ks
          → find_function r.1.functions (func_of k) ≡ some (kernel_caller k))
unfolding run_on_host_module append_global_ctor_dtor old_entries
run_on_host_module-Registered pointer_size m ks setup host distinct free free_base there =
    let m_2 = record m {
      global_ctors = entries (old_entries m.global_ctors ++ (runtime_entry cuprof_init ∷ []));
      global_dtors = entries (old_entries m.global_dtors ++ (runtime_entry cuprof_term ∷ []));
    } in
    let known = create_and_register_lem pointer_size m_2 ks setup distinct free free_base there in
    let run : run_on_host_module pointer_size m ks
        ≡ (true, create_and_register_trace_vars pointer_size m_2 cuda_register_globals ks) =
      rw (run_on_host_module, host, there) refl in
    (
      ap (λ r. r.0) run,
      ap (λ r. old_entries r.1.global_ctors) run
          ∙ known.ctors
          ∙ append_assoc (old_entries m.global_ctors) (runtime_entry cuprof_init ∷ [])
              (entries_of ks ++ (ctor_entry (base_func m) ∷ [])),
      ap (λ r. old_entries r.1.global_dtors) run ∙ ap old_entries known.dtors,
      ap (λ r. find_function r.1.functions cuda_register_globals) run ∙ known.setup_body,
      ap (λ r. find_function r.1.functions (base_func m)) run ∙ known.base,
      λ k among. ap (λ r. find_function r.1.functions (func_of k)) run ∙ known.kernel k among,
    )
