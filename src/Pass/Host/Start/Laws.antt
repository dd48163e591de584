-- ===== src/Pass/Host/Start/Laws.antt =====
-- What the constructors that the pass adds leave, in any order.
use mathlib.Core.List.{append_assoc, append-nil}
use t_espresso.Base.{
  contains_text, ℕ, suc, ◌+◌, ◌<◌, ◌^◌, ◌≡◌, refl, sym, ap, ◌∙◌, Bool, true, false, if◌then◌else◌,
  Option, none, some, List, [], ◌∷◌, ◌++◌, length, length-append, ascii, arith, Option-cases, inl,
  inr,
}
use t_espresso.TraceIo.File.Laws.{concat}
use t_espresso.Host.Interface
use t_espresso.Host.Interface.{Globals, initial_globals, gvsym_set_up, kernel_set_up}
use t_espresso.Host.Interface.Laws.{Holds, kernel_set_up-Holds}
use t_espresso.Pass.Host.{
  cuprof_init, defined, HostFunction, HostModule, CdtorEntry, find_function, cuprof_trace_base_info,
  cuda_register_globals, run_on_host_module,
}
use t_espresso.Pass.Host.Names.{is_free, ctor_entry}
use t_espresso.Pass.Host.Registration.{
  kdata_of, kid_of, func_of, kernel_caller, AreDistinct, AreFree, IsAmong,
}
use t_espresso.Pass.Host.Constructors.{
  base_func, base_caller, runtime_entry, run_on_host_module-Registered,
}
use t_espresso.Pass.Host.Start.{Started, Device, run_statement, run_body, run_callee, run_entries}

-- An order of the constructors that the pass adds after the first: `none` is that of the base
-- variable, `some k` that of kernel `k`.
abbrev pub ordered_entries : HostModule → List (Option (List ℕ)) → List CdtorEntry
ordered_entries m [] = []
ordered_entries m (none ∷ order) = ctor_entry (base_func m) ∷ ordered_entries m order
ordered_entries m (some k ∷ order) = ctor_entry (func_of k) ∷ ordered_entries m order

abbrev pub AllAmong : List (Option (List ℕ)) → List (List ℕ) → Type 0
AllAmong [] ks = Unit {0}
AllAmong (none ∷ order) ks = AllAmong order ks
AllAmong (some k ∷ order) ks = IsAmong k ks × AllAmong order ks

-- The bytes of the kernels in this order, and the ids that they are given from `n + 1` on.
abbrev pub ordered_data : Device → List (Option (List ℕ)) → List (List ℕ)
ordered_data d [] = []
ordered_data d (none ∷ order) = ordered_data d order
ordered_data d (some k ∷ order) = d.bytes (kdata_of k) ∷ ordered_data d order

abbrev pub ordered_ids : ℕ → List (Option (List ℕ)) → List (List ℕ × ℕ)
ordered_ids n [] = []
ordered_ids n (none ∷ order) = ordered_ids n order
ordered_ids n (some k ∷ order) = (kid_of k, suc n) ∷ ordered_ids (suc n) order

abbrev pub has_base : List (Option (List ℕ)) → Bool
has_base [] = false
has_base (none ∷ order) = true
has_base (some k ∷ order) = has_base order

-- The base after an order, when it was `b` before.
abbrev pub base_after : Device → Option ℕ → List (Option (List ℕ)) → Option ℕ
base_after d (some a) order = some a
base_after d none order = if has_base order then some (d.address cuprof_trace_base_info) else none

base_after-nil : (d : Device) (b : Option ℕ) → b ≡ base_after d b []
base_after-nil d none = refl
base_after-nil d (some a) = refl

base_after-kernel :
    (d : Device) (b : Option ℕ) (k : List ℕ) (order : List (Option (List ℕ)))
    → base_after d b order ≡ base_after d b (some k ∷ order)
base_after-kernel d none k order = refl
base_after-kernel d (some a) k order = refl

base_after-base :
    (d : Device) (g : Globals) (order : List (Option (List ℕ)))
    → base_after d (gvsym_set_up (d.address cuprof_trace_base_info) g).trace_base_info order
      ≡ base_after d g.trace_base_info (none ∷ order)
unfolding gvsym_set_up
base_after-base d g order = elim (Option-cases g.trace_base_info) [
  | inl e ↦ rw (gvsym_set_up, e) refl
  | inr (a, e) ↦ rw (gvsym_set_up, e) (ap (λ b. base_after d b order) e)
]

gvsym_set_up-Holds :
    (a : ℕ) (g : Globals) (data_so_far : List ℕ) (last n : ℕ)
    → Holds g data_so_far last n
    → Holds (gvsym_set_up a g) data_so_far last n
unfolding gvsym_set_up
gvsym_set_up-Holds a g data_so_far last n h = elim (Option-cases g.trace_base_info) [
  | inl e ↦ rw (gvsym_set_up, e) h
  | inr (b, e) ↦ rw (gvsym_set_up, e) h
]

module _ (d : Device) (m : HostModule) (ks : List (List ℕ)) (fs : List HostFunction)
    (base_there : find_function fs (base_func m) ≡ some (base_caller m))
    (kernels_there : (k : List ℕ)
      → IsAmong k ks
      → find_function fs (func_of k) ≡ some (kernel_caller k)) where
  run_base :
      (s : Started)
      → run_callee d fs (defined (base_func m)) s
        ≡ some (record s { globals = gvsym_set_up (d.address cuprof_trace_base_info) s.globals })
  unfolding run_callee run_body run_statement
  run_base s = rw (run_callee, base_there) refl

  run_kernel :
      (k : List ℕ) (s : Started) (id : ℕ) (g : Globals)
      → IsAmong k ks
      → kernel_set_up d.junk true (d.bytes (kdata_of k)) s.globals ≡ some (id, g)
      → run_callee d fs (defined (func_of k)) s
        ≡ some (record { globals = g; ids = s.ids ++ ((kid_of k, id) ∷ []) })
  unfolding run_callee run_body run_statement
  run_kernel k s id g among e = rw (run_callee, kernels_there k among, run_body, e) refl

  pub run_ordered :
      (order : List (Option (List ℕ))) (s : Started) (data_so_far : List ℕ) (last n : ℕ)
      → AllAmong order ks
      → Holds s.globals data_so_far last n
      → length data_so_far + length (concat (ordered_data d order)) < 2 ^ 64
      → n + length (ordered_data d order) < 2 ^ 32
      → (s' : Started) × (last' : ℕ) × (run_entries d fs (ordered_entries m order) s ≡ some s')
        × Holds s'.globals
            (data_so_far ++ concat (ordered_data d order))
            last'
            (n + length (ordered_data d order))
        × (s'.ids ≡ s.ids ++ ordered_ids n order)
        × (s'.globals.trace_base_info ≡ base_after d s.globals.trace_base_info order)
  unfolding run_entries
  run_ordered [] s data_so_far last n among (var, len, count) fits few = (
    s,
    last,
    refl,
    (
      var ∙ ap (λ l. some (l ++ (last ∷ []))) (sym (append-nil data_so_far)),
      len ∙ ap length (sym (append-nil data_so_far)),
      omega (arith, count),
    ),
    sym (append-nil s.ids),
    base_after-nil d s.globals.trace_base_info,
  )
  run_ordered (none ∷ order) s data_so_far last n among holds fits few =
      let a = d.address cuprof_trace_base_info in
      let (s', last', e, holds', ids, base) =
        run_ordered order (record s { globals = gvsym_set_up a s.globals }) data_so_far last n among
          (gvsym_set_up-Holds a s.globals data_so_far last n holds) fits few in
      (
        s',
        last',
        rw (run_entries, run_base s) e,
        holds',
        ids,
        base ∙ base_after-base d s.globals order,
      )
  run_ordered (some k ∷ order) s data_so_far last n (here, among) holds fits few =
      let kdata = d.bytes (kdata_of k) in
      let all = length-append kdata (concat (ordered_data d order)) in
      let (g, e_1, holds_1, kept) =
        kernel_set_up-Holds d.junk kdata s.globals data_so_far last n holds (omega (arith, all))
          (omega arith) in
      let s_1 : Started = record { globals = g; ids = s.ids ++ ((kid_of k, suc n) ∷ []) } in
      let (s', last', e, (var, len, count), ids, base) =
        run_ordered order s_1 (data_so_far ++ kdata) 0 (suc n) among holds_1
          (omega (arith, all, length-append data_so_far kdata)) (omega arith) in
      let assoc = append_assoc data_so_far kdata (concat (ordered_data d order)) in
      (
        s',
        last',
        rw (run_entries, run_kernel k s (suc n) g here e_1) e,
        (
          var ∙ ap (λ l. some (l ++ (last' ∷ []))) assoc,
          len ∙ ap length assoc,
          omega (arith, count),
        ),
        ids ∙ append_assoc s.ids ((kid_of k, suc n) ∷ []) (ordered_ids (suc n) order),
        base
            ∙ ap (λ b. base_after d b order) kept
            ∙ base_after-kernel d s.globals.trace_base_info k order,
      )

-- When the constructors that the pass adds run, `___cuprof_init` first and the others in any
-- order, then with memory granted each kernel variable that is set up is given the next id from 1
-- on, the access data is that of these kernels in this order with its length, and the base
-- variable is known exactly when its constructor ran; as long as there are fewer than 2 ^ 32
-- kernels and their data is shorter than 2 ^ 64 bytes.
pub run_entries-started :
    (d : Device) (pointer_size : ℕ) (m : HostModule) (ks : List (List ℕ)) (setup : HostFunction)
    (order : List (Option (List ℕ)))
    → contains_text m.target_triple (ascii "nvptx") ≡ false
    → AreDistinct ks
    → AreFree m.functions ks
    → is_free m.functions (base_func m) ≡ true
    → find_function m.functions cuda_register_globals ≡ some setup
    → AllAmong order ks
    → length (concat (ordered_data d order)) < 2 ^ 64
    → length (ordered_data d order) < 2 ^ 32
    → let fs = (run_on_host_module pointer_size m ks).1.functions in
      (s : Started) × (last : ℕ) × (run_entries d fs
          (runtime_entry cuprof_init ∷ ordered_entries m order)
          (record { globals = initial_globals; ids = [] })
        ≡ some s)
      × (s.ids ≡ ordered_ids 0 order)
      × (s.globals.accdat_var ≡ some (concat (ordered_data d order) ++ (last ∷ [])))
      × (s.globals.accdat_varlen ≡ length (concat (ordered_data d order)))
      × (s.globals.kernel_count ≡ length (ordered_data d order))
      × (s.globals.trace_base_info
          ≡ (if has_base order then some (d.address cuprof_trace_base_info) else none))
unfolding run_entries run_callee run_statement Interface.cuprof_init
run_entries-started d pointer_size m ks setup order host distinct free free_base there among fits
      few =
    let (_, _, _, _, base_there, kernels_there) =
      run_on_host_module-Registered pointer_size m ks setup host distinct free free_base there in
    let fs = (run_on_host_module pointer_size m ks).1.functions in
    let begun : Started = record {
      globals = Interface.cuprof_init d.junk initial_globals;
      ids = [];
    } in
    let (s, last, e, (var, len, count), ids, base) =
      run_ordered d m ks fs base_there kernels_there order begun [] d.junk 0 among
        (refl, refl, refl) (omega arith) (omega arith) in
    (s, last, e, ids, var, len, omega (arith, count), base)
