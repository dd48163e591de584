-- ===== src/Pass/Symbols.antt =====
-- `getSymbolName` of lib/PassCommon.h: the names under which device and host code find what
-- belongs to a kernel.
use t_espresso.Base.{
  ℕ, ◌≡◌, refl, Bool, true, false, List, ◌++◌, ascii, same_text, same_text-append,
}

pub data SymbolType : Type 0 where
  data_var : SymbolType
  data_func : SymbolType
  kernel_id : SymbolType
  base_name : SymbolType

-- `SYMBOL_TYPE_STR`
abbrev pub symbol_type_str : SymbolType → List ℕ
symbol_type_str data_var = ascii "___cuprof_accdat_var_"
symbol_type_str data_func = ascii "___cuprof_accdat_func_"
symbol_type_str kernel_id = ascii "___cuprof_kernel_id_"
symbol_type_str base_name = ascii "___cuprof_base_name_"

unfoldable pub get_symbol_name : List ℕ → SymbolType → List ℕ
get_symbol_name kernel_name symbol_type = symbol_type_str symbol_type ++ kernel_name

abbrev pub same_type : SymbolType → SymbolType → Bool
same_type data_var data_var = true
same_type data_func data_func = true
same_type kernel_id kernel_id = true
same_type base_name base_name = true
same_type _ _ = false

-- Symbols of two kinds never coincide.
pub get_symbol_name_differs :
    (a b : List ℕ) (s t : SymbolType)
    → same_type s t ≡ false
    → same_text (get_symbol_name a s) (get_symbol_name b t) ≡ false
unfolding get_symbol_name same_text
get_symbol_name_differs a b data_var data_var h = absurd (cc)
get_symbol_name_differs a b data_var data_func h = refl
get_symbol_name_differs a b data_var kernel_id h = refl
get_symbol_name_differs a b data_var base_name h = refl
get_symbol_name_differs a b data_func data_var h = refl
get_symbol_name_differs a b data_func data_func h = absurd (cc)
get_symbol_name_differs a b data_func kernel_id h = refl
get_symbol_name_differs a b data_func base_name h = refl
get_symbol_name_differs a b kernel_id data_var h = refl
get_symbol_name_differs a b kernel_id data_func h = refl
get_symbol_name_differs a b kernel_id kernel_id h = absurd (cc)
get_symbol_name_differs a b kernel_id base_name h = refl
get_symbol_name_differs a b base_name data_var h = refl
get_symbol_name_differs a b base_name data_func h = refl
get_symbol_name_differs a b base_name kernel_id h = refl
get_symbol_name_differs a b base_name base_name h = absurd (cc)

-- Symbols of one kind coincide for one kernel only.
pub get_symbol_name_same :
    (a b : List ℕ) (s : SymbolType)
    → same_text (get_symbol_name a s) (get_symbol_name b s) ≡ same_text a b
unfolding get_symbol_name
get_symbol_name_same a b s = same_text-append (symbol_type_str s) a b
