-- ===== src/Pass/Options/Laws.antt =====
-- What the plugin makes of its arguments.
use t_espresso.Base.{
  ℕ, ◌+◌, ◌*◌, ◌%◌, ◌^◌, ◌<◌, ◌≡◌, refl, ap, ◌∙◌, true, false, ◌==◌, List, [], ◌∷◌, ◌++◌, bit_and,
  shl64, arith,
}
use t_espresso.Bits.Fields.{bit_or_field, bit_and_mask}
use t_espresso.Pass.Options.{
  PassArgs, getlines, first_line, join_args, arg_type_delim, ctaid_conv, parse_opts, parse_args,
}
use t_espresso.Pass.Index.{get_cta_serial}

-- No byte of the text is the delimiter.
abbrev pub Lacks : ℕ → List ℕ → Type 0
Lacks delim [] = Unit {0}
Lacks delim (c ∷ text) = ((c == delim) ≡ false) × Lacks delim text

abbrev pub AllLack : ℕ → List (List ℕ) → Type 0
AllLack delim [] = Unit {0}
AllLack delim (line ∷ lines) = Lacks delim line × AllLack delim lines

getlines-line :
    (delim : ℕ) (line rest : List ℕ)
    → Lacks delim line
    → getlines delim (line ++ (delim ∷ rest)) ≡ line ∷ getlines delim rest
unfolding getlines first_line
getlines-line delim [] rest h = let e : (delim == delim) ≡ true = ground arith in rw e refl
getlines-line delim (c ∷ line) rest (h, k) = rw (h, getlines-line delim line rest k) refl

getlines-join_args :
    (args : List (List ℕ))
    → AllLack arg_type_delim args
    → getlines arg_type_delim (join_args args) ≡ args
unfolding join_args getlines
getlines-join_args [] h = refl
getlines-join_args (arg ∷ args) (h, k) =
    getlines-line arg_type_delim arg (join_args args) h
    ∙ ap (λ l. arg ∷ l) (getlines-join_args args k)

-- Arguments without a colon are read one option each, in their order, from both kinds of trace
-- switched on.
pub parse_args-parse_opts :
    (args : List (List ℕ)) (a : PassArgs)
    → AllLack arg_type_delim args
    → parse_args args a ≡ parse_opts args (record a { trace_thread = true; trace_mem = true })
unfolding parse_args
parse_args-parse_opts args a h = rw (getlines-join_args args h) refl

-- The plugin's number of a CTA is the one that the instrumented kernel computes of it.
pub ctaid_conv-get_cta_serial : (x y z : ℕ) → x < 2 ^ 32 → ctaid_conv x y z ≡ get_cta_serial x y z
unfolding ctaid_conv get_cta_serial
ctaid_conv-get_cta_serial x y z h =
    let x_cut : shl64 x 32 ≡ x * 2 ^ 32 = omega arith in
    let y_cut : shl64 (bit_and y 0xFFFF) 16 ≡ (y % 2 ^ 16) * 2 ^ 16 =
      omega (arith, bit_and_mask 16 y) in
    let xy = bit_or_field 32 x ((y % 2 ^ 16) * 2 ^ 16) (omega arith) in
    let xyz = bit_or_field 16 (x * 2 ^ 16 + y % 2 ^ 16) (z % 2 ^ 16) (omega arith) in
    let join : x * 2 ^ 32 + (y % 2 ^ 16) * 2 ^ 16 ≡ (x * 2 ^ 16 + y % 2 ^ 16) * 2 ^ 16 =
      omega arith in
    rw (x_cut, y_cut, bit_and_mask 16 z, xy, join, xyz) (omega arith)

pub ctaid_conv-sum :
    (x y z : ℕ) → x < 2 ^ 32 → ctaid_conv x y z ≡ x * 2 ^ 32 + y % 2 ^ 16 * 2 ^ 16 + z % 2 ^ 16
unfolding ctaid_conv
ctaid_conv-sum x y z h = omega (arith, bit_and_mask 16 y, bit_and_mask 16 z)
