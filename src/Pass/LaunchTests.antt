-- ===== src/Pass/LaunchTests.antt =====
-- Finding launches at concrete blocks.
use mathlib.Core.Option.{some-injective}
use t_espresso.Base.{
  ℕ, zero, suc, ◌<◌, ◌≡◌, refl, sym, subst, false, Option, inl, inr, none, some, List, [], ◌∷◌,
  if◌then◌else◌, ◌==◌, arith,
}
use t_espresso.Pass.Access.{starts_with}
use t_espresso.Pass.Launches.{
  Function, Inst, call, invoke, other, Block, configok_prefix, setup_next_prefix,
  cuda_launch_func_name, find_successor, next_block, find_launch_for, KernelCall, located,
  locate_calls,
}
use t_espresso.Pass.Launches.Blocks.{Leads, NoneNamed, IsLastOf, next_block-found}
use t_espresso.Pass.Launches.Laws.{
  Ends, here, onward, find_launch_for-Ends, locate_calls-expected, expected, found_calls, Launches,
}

abbrev launcher : Function
launcher = record { address = 1; name = some cuda_launch_func_name }

abbrev the_kernel : Function
the_kernel = record { address = 2; name = some (b'k' ∷ []) }

abbrev launch_inst : Inst
launch_inst = call (record { callee = some launcher; args = some the_kernel ∷ none ∷ [] })

-- A call before the launch.
abbrev earlier : Inst
earlier = invoke (record { callee = none; args = [] })

-- Block 0 configures, block 1 is kcall.configok, and block 2 launches.
abbrev three_blocks : ℕ → Block
three_blocks b =
    if b == 0
    then record { name = []; insts = other ∷ []; successors = some (1 ∷ 3 ∷ []) }
    else (if b == 1
        then record { name = configok_prefix; insts = []; successors = some (2 ∷ []) }
        else record {
          name = setup_next_prefix;
          insts = earlier ∷ launch_inst ∷ other ∷ [];
          successors = none;
        })

leads_on : (b m : ℕ) → Leads three_blocks setup_next_prefix b m → (b < m) × (m < 4)
unfolding next_block find_successor starts_with
leads_on zero m leads =
    let e = next_block-found three_blocks setup_next_prefix zero m leads in
    (ground arith, ground arith)
leads_on (suc zero) m leads =
    let e = next_block-found three_blocks setup_next_prefix 1 m leads in
    (ground arith, ground arith)
leads_on (suc (suc b)) m leads =
    let e = next_block-found three_blocks setup_next_prefix (suc (suc b)) m leads in
    absurd (ground arith)

launches_from_2 : (b : ℕ) → IsLastOf (three_blocks (suc (suc b))).insts (some launch_inst)
launches_from_2 b =
    let not_0 : (suc (suc b) == 0) ≡ false = ground arith in
    let not_1 : (suc (suc b) == 1) ≡ false = ground arith in
    rw (not_0, not_1) (earlier ∷ [], other ∷ [], refl, tt, (refl, tt))

ends_at_launch :
    (b c : ℕ) → Ends three_blocks b c → 0 < b → IsLastOf (three_blocks c).insts (some launch_inst)
unfolding starts_with
ends_at_launch zero c h pos = absurd (omega arith)
ends_at_launch (suc zero) c (here (inl e)) pos = absurd (cc)
ends_at_launch (suc zero) c (here (inr (bs, e, none_named))) pos =
    let same : bs ≡ 2 ∷ [] = some-injective bs (2 ∷ []) (sym e) in
    let (unnamed, _) = subst (NoneNamed three_blocks setup_next_prefix) same none_named in
    absurd (cc)
ends_at_launch (suc (suc b)) c (here e) pos = launches_from_2 b
ends_at_launch b c (onward {m = m} leads h) pos =
    let (on, _) = leads_on b m leads in ends_at_launch m c h (omega arith)

launches : Launches three_blocks 4 leads_on 0 the_kernel
unfolding starts_with
launches = (
  1,
  ([], 3 ∷ [], refl, tt, refl),
  omega arith,
  λ c h. (launcher, none ∷ [], b'k' ∷ [], refl, refl, ends_at_launch 1 c h (omega arith)),
)

find_launch_for-Ends_example :
    (c : ℕ) × (found : Option Inst) × (find_launch_for 4 three_blocks 0 ≡ some found)
    × IsLastOf (three_blocks c).insts found
    × Ends three_blocks 1 c
unfolding starts_with
find_launch_for-Ends_example =
    find_launch_for-Ends three_blocks 4 leads_on 0 1 ([], 3 ∷ [], refl, tt, refl) (omega arith)

locate_calls-expected_example :
    (calls : List KernelCall) × (locate_calls 4 three_blocks (0 ∷ []) [] ≡ located calls)
    × (found_calls calls ≡ expected ((0, the_kernel) ∷ []))
locate_calls-expected_example =
    locate_calls-expected three_blocks 4 leads_on ((0, the_kernel) ∷ []) (launches, tt)
