-- ===== src/Host/Filename.antt =====
-- `traceName` of support/host-support.cu: the file that the trace of a device is written to.
pub mod Laws
use t_espresso.Base.{
  ℕ, zero, suc, ◌+◌, ◌/◌, ◌%◌, Bool, true, false, ltb, Option, none, some, List, [], ◌∷◌, ◌++◌,
  length, drop, ascii, starts_with, to_string,
}

-- `find` and `replace`: the first `part` in the text becomes `by`.
unfoldable pub replace_first : List ℕ → List ℕ → List ℕ → List ℕ
unfolding starts_with
replace_first [] part by = []
replace_first (c ∷ text) part by = elim (starts_with (c ∷ text) part) [
  | true ↦ by ++ drop (length part) (c ∷ text)
  | false ↦ c ∷ replace_first text part by
]

abbrev pub device_part : List ℕ
device_part = ascii "%d"

-- `pattern_env` is the value of CUPROF_TRACE_FILE, `exename` the name of the program.
unfoldable pub name_pattern : Option (List ℕ) → Option (List ℕ) → List ℕ
name_pattern (some pattern_env) exename = pattern_env
name_pattern none (some exename) = ascii "./trace-" ++ (exename ++ ascii "-%d")
name_pattern none none = ascii "./trace-%d"

unfoldable pub trace_file_name : Option (List ℕ) → Option (List ℕ) → ℕ → List ℕ
unfolding replace_first name_pattern
trace_file_name pattern_env exename device =
    replace_first (name_pattern pattern_env exename) device_part (to_string device)
