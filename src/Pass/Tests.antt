-- ===== src/Pass/Tests.antt =====
-- The arguments and the indices at concrete values.
use t_espresso.Base.{
  ℕ, ◌+◌, ◌*◌, ◌/◌, ◌%◌, ◌≤◌, ◌<◌, ◌≡◌, refl, ◌&&◌, ◌||◌, true, false, none, some, List, [], ◌∷◌,
  arith,
}
use t_espresso.Pass.Options.{
  PassArgs, parse_args, parse_opts, parse_opt, getlines, join_args, first_line, opt_name, opt_args,
  which_opt, same_text, push_numbers, all_digits, stoi, decimal,
}
use t_espresso.Pass.Kernels.{User, find_kernels, has, collect_callers, sort, insert, filter_common}
use t_espresso.Pass.Kernels.Laws.{find_kernels-has, callers_of, all_below}
use t_espresso.Pass.Index.{get_cta_index, get_warpv}
use t_espresso.Pass.Index.Laws.{get_cta_index-coordinates, get_warpv-bounds}

abbrev no_args : PassArgs
no_args = record {
  trace_thread = true;
  trace_mem = true;
  verbose = false;
  kernel = [];
  grid = [];
  cta = [];
  warpv = [];
  sm = [];
  warpp = [];
}

-- `sm=4,12`
abbrev two_sms : List (List ℕ)
two_sms = (b's' ∷ b'm' ∷ b'=' ∷ b'4' ∷ b',' ∷ b'1' ∷ b'2' ∷ []) ∷ []

two_sms_parsed : parse_args two_sms no_args ≡ some (record no_args { sm = 4 ∷ 12 ∷ [] })
unfolding parse_args parse_opts parse_opt getlines join_args first_line opt_name opt_args which_opt
    same_text push_numbers all_digits stoi decimal
two_sms_parsed = refl

get_cta_index-coordinates_example :
    (get_cta_index 2 1 3 4 5 % 4 ≡ 2)
    × ((get_cta_index 2 1 3 4 5 / 4) % 5 ≡ 1)
    × ((get_cta_index 2 1 3 4 5 / 4) / 5 ≡ 3)
get_cta_index-coordinates_example =
    get_cta_index-coordinates 2 1 3 4 5 (omega arith) (omega arith) (omega arith)

get_warpv-bounds_example :
    (get_warpv 5 3 0 16 16 * 32 ≤ (0 * 16 + 3) * 16 + 5)
    × ((0 * 16 + 3) * 16 + 5 < get_warpv 5 3 0 16 16 * 32 + 32)
get_warpv-bounds_example = get_warpv-bounds 5 3 0 16 16 (omega arith) (omega arith)

abbrev popconf_users : List User
popconf_users = some 1 ∷ none ∷ some 9 ∷ []

abbrev launch_users : List User
launch_users = some 5 ∷ some 1 ∷ some 1 ∷ []

-- The function 9 launches nothing.
tail_kept : find_kernels (some popconf_users) (some launch_users) ≡ 1 ∷ 9 ∷ []
unfolding find_kernels has collect_callers sort insert filter_common
tail_kept = refl

find_kernels-has_example :
    has (find_kernels (some popconf_users) (some launch_users)) 9
    ≡ (callers_of popconf_users 9 && (callers_of launch_users 9 || all_below launch_users 9))
find_kernels-has_example = find_kernels-has popconf_users launch_users 9
