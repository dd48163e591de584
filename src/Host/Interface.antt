-- ===== src/Host/Interface.antt =====
-- The C interface of support/host-support.cu, which the instrumented host program calls when it
-- starts and ends. CUDA's reads of a symbol are arguments: the bytes of `kdata_sym`. What is stored
-- in `kid_sym` of every device is a result.
pub mod Laws
use t_espresso.Base.{
  ℕ, zero, suc, ◌+◌, ◌-◌, Bool, true, false, Option, none, some, List, [], ◌∷◌, ◌++◌, length, take,
  drop, replicate, u32, u64,
}

-- `___cuprof_accdat_var` (the memory it points to, `none` for a null pointer),
-- `___cuprof_accdat_varlen`, `___cuprof_kernel_count` and `___cuprof_trace_base_info`.
pub record Globals : Type 0 where
  pub accdat_var : Option (List ℕ)
  pub accdat_varlen : ℕ
  pub kernel_count : ℕ
  pub trace_base_info : Option ℕ

abbrev pub initial_globals : Globals
initial_globals = record {
  accdat_var = none;
  accdat_varlen = 0;
  kernel_count = 0;
  trace_base_info = none;
}

-- `malloc` of one byte, of which the value is `junk`.
unfoldable pub cuprof_init : ℕ → Globals → Globals
cuprof_init junk g = elim g.accdat_var [
  | none ↦ record g { accdat_var = some (junk ∷ []) }
  | some var ↦ g
]

unfoldable pub cuprof_term : Globals → Globals
cuprof_term g = elim g.accdat_var [ none ↦ g | some var ↦ record g { accdat_var = none } ]

unfoldable pub gvsym_set_up : ℕ → Globals → Globals
gvsym_set_up basedat_sym g = elim g.trace_base_info [
  | none ↦ record g { trace_base_info = some basedat_sym }
  | some info ↦ g
]

-- `realloc` to `n` bytes: what fits is kept, new bytes are `junk`.
unfoldable pub realloc : ℕ → Option (List ℕ) → ℕ → List ℕ
realloc junk none n = replicate n junk
realloc junk (some mem) n = take n mem ++ replicate (n - length mem) junk

-- Bytes written at an offset.
unfoldable pub write_at : List ℕ → ℕ → List ℕ → List ℕ
write_at mem offset bytes = take offset mem ++ (bytes ++ drop (offset + length bytes) mem)

-- The globals after it, and the id that the kernel is given on every device. `granted` is whether
-- `realloc` finds memory; without it the program aborts, `none`.
unfoldable pub kernel_set_up : ℕ → Bool → List ℕ → Globals → Option (ℕ × Globals)
unfolding realloc write_at
kernel_set_up junk true kdata g =
    let kernel_count = u32 (suc g.kernel_count) in
    let kdata_size = length kdata in
    let var_tmp = realloc junk g.accdat_var (g.accdat_varlen + kdata_size + 1) in
    let var_tmp = write_at var_tmp g.accdat_varlen kdata in
    let var_tmp = write_at var_tmp (g.accdat_varlen + kdata_size) (0 ∷ []) in
    some (
      kernel_count,
      record g {
        accdat_var = some var_tmp;
        accdat_varlen = u64 (g.accdat_varlen + kdata_size);
        kernel_count = kernel_count;
      },
    )
kernel_set_up junk false kdata g = none

-- The kernels of a program, one after the other: the ids that they are given, and the globals.
unfoldable pub set_up_all : ℕ → List (List ℕ) → Globals → Option (List ℕ × Globals)
set_up_all junk [] g = some ([], g)
set_up_all junk (kdata ∷ rest) g = elim (kernel_set_up junk true kdata g) [
  | none ↦ none
  | some (id, g') ↦ elim (set_up_all junk rest g') [
    | none ↦ none
    | some (ids, g'') ↦ some (id ∷ ids, g'')
  ]
]
