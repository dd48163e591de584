-- ===== src/Pass/Options.antt =====
-- `ParseArgs` of lib/RegisterStandardPasses.cpp. Text is a list of bytes; `none` is an exception of
-- `std::stoi`, which nothing catches.
pub mod Laws
use t_espresso.Base.{
  ℕ, zero, suc, ◌+◌, ◌-◌, ◌*◌, ◌%◌, ◌^◌, Bool, true, false, ◌&&◌, ◌||◌, not, ◌==◌, ltb, leb,
  if◌then◌else◌, Option, none, some, List, [], ◌∷◌, ◌++◌, bit_and, u32, u64, shl64, take, get_or,
}

-- `pass_args`
pub record PassArgs : Type 0 where
  pub trace_thread : Bool
  pub trace_mem : Bool
  pub verbose : Bool
  pub kernel : List (List ℕ)
  pub grid : List ℕ
  pub cta : List ℕ
  pub warpv : List ℕ
  pub sm : List ℕ
  pub warpp : List ℕ

abbrev pub arg_type_delim : ℕ
arg_type_delim = b':'

abbrev pub arg_val_assign_delim : ℕ
arg_val_assign_delim = b'='

abbrev pub arg_val_delim : ℕ
arg_val_delim = b','

abbrev pub arg_val_dim_delim : ℕ
arg_val_dim_delim = b'/'

-- The lines that `getline` takes from a stream until it fails: none from an empty stream, and
-- none after a delimiter at the end.
unfoldable pub first_line : ℕ → List (List ℕ) → List (List ℕ)
first_line c [] = (c ∷ []) ∷ []
first_line c (line ∷ lines) = (c ∷ line) ∷ lines

unfoldable pub getlines : ℕ → List ℕ → List (List ℕ)
unfolding first_line
getlines delim [] = []
getlines delim (c ∷ text) =
    let rest = getlines delim text in if c == delim then [] ∷ rest else first_line c rest

-- `argslist`: every argument with a delimiter after it.
unfoldable pub join_args : List (List ℕ) → List ℕ
join_args [] = []
join_args (arg ∷ args) = arg ++ (arg_type_delim ∷ join_args args)

-- `optname`, and the text of `optarglist`.
unfoldable pub opt_name : List ℕ → List ℕ
opt_name [] = []
opt_name (c ∷ text) = let rest = opt_name text in if c == arg_val_assign_delim then [] else c ∷ rest

unfoldable pub opt_args : List ℕ → List ℕ
opt_args [] = []
opt_args (c ∷ text) = let rest = opt_args text in if c == arg_val_assign_delim then text else rest

unfoldable pub all_digits : List ℕ → Bool
all_digits [] = true
all_digits (c ∷ text) = (leb b'0' c && leb c b'9') && all_digits text

-- The number that digits read after `n` denote.
unfoldable pub decimal : ℕ → List ℕ → ℕ
decimal n [] = n
decimal n (c ∷ text) = decimal (10 * n + (c - b'0')) text

-- `std::stoi` of a text of digits: no digits and a number beyond `int` are exceptions.
unfoldable pub stoi : List ℕ → Option ℕ
unfolding decimal
stoi [] = none
stoi (c ∷ text) = let n = decimal 0 (c ∷ text) in if ltb n (2 ^ 31) then some n else none

-- The loop over the values of `grid`, `warpv`, `sm` and `warpp`: pushes the numbers.
unfoldable pub push_numbers : List (List ℕ) → List ℕ → Option (List ℕ)
unfolding all_digits stoi
push_numbers [] values = some values
push_numbers (optarg ∷ optargs) values = elim (all_digits optarg) [
  | true ↦ elim (stoi optarg) [ none ↦ none | some n ↦ push_numbers optargs (values ++ (n ∷ [])) ]
  | false ↦ push_numbers optargs values
]

-- The loop over the components of a CTA: `ctaid[i]` where the text is digits, else 0.
unfoldable pub read_dims : List (List ℕ) → Option (List ℕ)
unfolding all_digits stoi
read_dims [] = some []
read_dims (ctaid_cur ∷ rest) = elim (all_digits ctaid_cur) [
  | true ↦ elim (stoi ctaid_cur) [
    | none ↦ none
    | some n ↦ elim (read_dims rest) [ none ↦ none | some dims ↦ some (n ∷ dims) ]
  ]
  | false ↦ elim (read_dims rest) [ none ↦ none | some dims ↦ some (0 ∷ dims) ]
]

-- `ctaid_conv`
unfoldable pub ctaid_conv : ℕ → ℕ → ℕ → ℕ
ctaid_conv x y z = u64 (u64 (shl64 x 32 + shl64 (bit_and y 0xFFFF) 16) + bit_and z 0xFFFF)

unfoldable pub push_ctas : List (List ℕ) → List ℕ → Option (List ℕ)
unfolding getlines read_dims ctaid_conv
push_ctas [] ctas = some ctas
push_ctas (optarg ∷ optargs) ctas = elim (read_dims (take 3 (getlines arg_val_dim_delim optarg))) [
  | none ↦ none
  | some dims ↦
      push_ctas optargs
        (ctas ++ (ctaid_conv (get_or dims 0 0) (get_or dims 1 0) (get_or dims 2 0) ∷ []))
]

unfoldable pub same_text : List ℕ → List ℕ → Bool
same_text [] [] = true
same_text [] (d ∷ ds) = false
same_text (c ∷ cs) [] = false
same_text (c ∷ cs) (d ∷ ds) = c == d && same_text cs ds

-- The names that the chain of conditions knows.
pub data OptName : Type 0 where
  thread_only : OptName
  mem_only : OptName
  kernel_opt : OptName
  grid_opt : OptName
  cta_opt : OptName
  warpv_opt : OptName
  sm_opt : OptName
  warpp_opt : OptName
  unused : OptName

abbrev thread_only_text : List ℕ
thread_only_text = b't' ∷ b'h' ∷ b'r' ∷ b'e' ∷ b'a' ∷ b'd' ∷ b'-' ∷ b'o' ∷ b'n' ∷ b'l' ∷ b'y' ∷ []

abbrev mem_only_text : List ℕ
mem_only_text = b'm' ∷ b'e' ∷ b'm' ∷ b'-' ∷ b'o' ∷ b'n' ∷ b'l' ∷ b'y' ∷ []

abbrev kernel_text : List ℕ
kernel_text = b'k' ∷ b'e' ∷ b'r' ∷ b'n' ∷ b'e' ∷ b'l' ∷ []

abbrev grid_text : List ℕ
grid_text = b'g' ∷ b'r' ∷ b'i' ∷ b'd' ∷ []

abbrev cta_text : List ℕ
cta_text = b'c' ∷ b't' ∷ b'a' ∷ []

abbrev warpv_text : List ℕ
warpv_text = b'w' ∷ b'a' ∷ b'r' ∷ b'p' ∷ b'v' ∷ []

abbrev sm_text : List ℕ
sm_text = b's' ∷ b'm' ∷ []

abbrev warpp_text : List ℕ
warpp_text = b'w' ∷ b'a' ∷ b'r' ∷ b'p' ∷ b'p' ∷ []

unfoldable pub which_opt : List ℕ → OptName
unfolding same_text
which_opt name =
    if same_text name thread_only_text
    then thread_only
    else (if same_text name mem_only_text
        then mem_only
        else (if same_text name kernel_text
            then kernel_opt
            else (if same_text name grid_text
                then grid_opt
                else (if same_text name cta_text
                    then cta_opt
                    else (if same_text name warpv_text
                        then warpv_opt
                        else (if same_text name sm_text
                            then sm_opt
                            else (if same_text name warpp_text then warpp_opt else unused)))))))

-- One option: the chain of conditions on its name.
unfoldable pub parse_opt : List ℕ → PassArgs → Option PassArgs
unfolding getlines opt_name opt_args push_numbers push_ctas which_opt
parse_opt optstr a =
    let optargs = getlines arg_val_delim (opt_args optstr) in
    elim (which_opt (opt_name optstr)) [
      | thread_only ↦ some (record a { trace_thread = true; trace_mem = false })
      | mem_only ↦ some (record a { trace_thread = false; trace_mem = true })
      | kernel_opt ↦ some (record a { kernel = a.kernel ++ optargs })
      | grid_opt ↦ elim (push_numbers optargs a.grid) [
        | none ↦ none
        | some v ↦ some (record a { grid = v })
      ]
      | cta_opt ↦ elim (push_ctas optargs a.cta) [
        | none ↦ none
        | some v ↦ some (record a { cta = v })
      ]
      | warpv_opt ↦ elim (push_numbers optargs a.warpv) [
        | none ↦ none
        | some v ↦ some (record a { warpv = v })
      ]
      | sm_opt ↦ elim (push_numbers optargs a.sm) [
        | none ↦ none
        | some v ↦ some (record a { sm = v })
      ]
      | warpp_opt ↦ elim (push_numbers optargs a.warpp) [
        | none ↦ none
        | some v ↦ some (record a { warpp = v })
      ]
      | unused ↦ some a
    ]

unfoldable pub parse_opts : List (List ℕ) → PassArgs → Option PassArgs
unfolding parse_opt
parse_opts [] a = some a
parse_opts (optstr ∷ opts) a = elim (parse_opt optstr a) [
  | none ↦ none
  | some a' ↦ parse_opts opts a'
]

unfoldable pub parse_args : List (List ℕ) → PassArgs → Option PassArgs
unfolding getlines join_args parse_opts
parse_args args a =
    parse_opts (getlines arg_type_delim (join_args args))
      (record a { trace_thread = true; trace_mem = true })
