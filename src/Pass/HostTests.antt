-- ===== src/Pass/HostTests.antt =====
-- A host module with two kernels, and the start of its program.
use t_espresso.Base.{
  contains_text, ℕ, ◌+◌, ◌*◌, ◌%◌, ◌^◌, ◌≡◌, refl, Option, none, some, List, [], ◌∷◌, ◌++◌, length,
  ascii, same_text, arith,
}
use t_espresso.TraceIo.File.Laws.{concat}
use t_espresso.Host.Interface.{initial_globals}
use t_espresso.Pass.Access.{starts_with}
use t_espresso.Pass.Symbols.{get_symbol_name}
use t_espresso.Pass.Host.{
  other_code, cuprof_init, HostFunction, HostModule, missing, find_function, cuprof_trace_base_info,
  cuda_register_globals, run_on_host_module, has_variable,
}
use t_espresso.Pass.Host.Names.{is_free}
use t_espresso.Pass.Host.Constructors.{runtime_entry}
use t_espresso.Pass.Host.Start.{Device, Started, run_entries}
use t_espresso.Pass.Host.Start.Laws.{
  ordered_entries, ordered_data, ordered_ids, run_entries-started,
}
use t_espresso.Pass.Host.Launch.{patch_kernel_call, patch_kernel_call-packed}

abbrev setup : HostFunction
setup = record { name = cuda_register_globals; body = other_code 1 ∷ [] }

abbrev host_module : HostModule
host_module = record {
  target_triple = ascii "x86_64";
  identifier = ascii "a.cu";
  variables = [];
  functions = record { name = ascii "main"; body = other_code 0 ∷ [] } ∷ setup ∷ [];
  global_ctors = missing;
  global_dtors = missing;
}

abbrev two_kernels : List (List ℕ)
two_kernels = ascii "f" ∷ ascii "g" ∷ []

abbrev some_device : Device
some_device = record { bytes = λ name. length name ∷ []; address = λ name. length name; junk = 9 }

-- Kernel g before f, and the base variable between them.
abbrev g_first : List (Option (List ℕ))
g_first = some (ascii "g") ∷ none ∷ some (ascii "f") ∷ []

run_entries-started_example :
    let fs = (run_on_host_module 8 host_module two_kernels).1.functions in
    (s : Started) × (last : ℕ) × (run_entries some_device fs
        (runtime_entry cuprof_init ∷ ordered_entries host_module g_first)
        (record { globals = initial_globals; ids = [] })
      ≡ some s)
    × (s.ids ≡ ordered_ids 0 g_first)
    × (s.globals.accdat_var ≡ some (concat (ordered_data some_device g_first) ++ (last ∷ [])))
    × (s.globals.accdat_varlen ≡ length (concat (ordered_data some_device g_first)))
    × (s.globals.kernel_count ≡ length (ordered_data some_device g_first))
    × (s.globals.trace_base_info ≡ some (length cuprof_trace_base_info))
unfolding contains_text starts_with same_text is_free find_function get_symbol_name has_variable
run_entries-started_example =
    run_entries-started some_device 8 host_module two_kernels setup g_first refl
      ((refl, tt), (tt, tt)) (refl, (refl, tt)) refl refl (refl, (refl, tt)) (omega arith)
      (omega arith)

patch_kernel_call-packed_example :
    patch_kernel_call ((5 + 6 * 2 ^ 32) ∷ 7 ∷ (32 + 4 * 2 ^ 32) ∷ 2 ∷ 0 ∷ 11 ∷ []) (ascii "f")
    ≡ some (record {
      stream = 11;
      kernel_name = ascii "f";
      grid_dim = 5 + 6 % 2 ^ 16 * 2 ^ 32 + 7 % 2 ^ 16 * 2 ^ 48;
      cta_size = 32 * 4 * 2 % 2 ^ 16;
    })
patch_kernel_call-packed_example =
    patch_kernel_call-packed 5 6 7 32 4 2 0 11 (ascii "f") (omega arith) (omega arith)
