-- ===== src/Dump/Run.antt =====
-- What the tool prints of a file of records.
use t_espresso.Base.{◌⊎◌, ℕ, ◌<◌, ◌≡◌, Bool, true, some, List, [], ◌∷◌}
use t_espresso.TraceIo.Types.{KernelHeader, TraceRecord}
use t_espresso.Dump.{print_record, Names}

-- The operations of all records have names.
abbrev pub AreNamed : List TraceRecord → Type 0
AreNamed [] = Unit {0}
AreNamed (r ∷ rs) = (r.inst_info.inst_type < 6) × AreNamed rs

-- The lines of records, one for each.
abbrev pub AreLines : (TraceRecord → Names) → List TraceRecord → List (List ℕ) → Type 0
AreLines names [] [] = Unit {0}
AreLines names [] (text ∷ texts) = ⊥
AreLines names (r ∷ rs) [] = ⊥
AreLines names (r ∷ rs) (text ∷ texts) =
    (print_record (names r) r ≡ some text) × AreLines names rs texts

-- No kernel with an instruction has a file name that is not set and that does harm when it is freed.
abbrev pub AreHarmless : (KernelHeader → Bool) → List KernelHeader → Type 0
AreHarmless unset_is_free [] = Unit {0}
AreHarmless unset_is_free (k ∷ kernels) =
    ((k.insts_count ≡ 0) ⊎ (unset_is_free k ≡ true)) × AreHarmless unset_is_free kernels
