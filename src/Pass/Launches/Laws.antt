-- ===== src/Pass/Launches/Laws.antt =====
-- What launch is found for a configuring call, and of which kernel.
use mathlib.Core.List.{append_assoc, append-nil}
use t_espresso.Base.{
  ℕ, zero, suc, ◌+◌, ◌≤◌, ◌<◌, ◌≡◌, refl, sym, ap, ◌∙◌, Option, some, List, [], ◌∷◌, ◌++◌, arith,
  inl, inr,
}
use t_espresso.Pass.Access.{same_name}
use t_espresso.Pass.Launches.Blocks.{
  Leads, Stops, IsLastOf, next_block-found, next_block-Leads, IsLastOf-last_call,
  last_call-IsLastOf,
}
use t_espresso.Pass.Launches.{
  Function, Inst, call, Block, configok_prefix, setup_next_prefix, cuda_launch_func_name, follow,
  last_call, find_launch_for, kernel, called_by_argument, called_at, get_called_kernel, KernelCall,
  located, locate_one, locate_calls,
}

-- The blocks from `b` on, each the first successor named setup.next of the one before it, end at
-- `c`, which has none.
pub data Ends (blocks : ℕ → Block) : ℕ → ℕ → Type 0 where
  here : {c : ℕ} → Stops blocks setup_next_prefix c → Ends blocks c c
  onward : {b m c : ℕ} → Leads blocks setup_next_prefix b m → Ends blocks m c → Ends blocks b c

called_by_launch :
    (launch f : Function) (args : List (Option Function)) (name : List ℕ)
    → launch.name ≡ some cuda_launch_func_name
    → f.name ≡ some name
    → get_called_kernel (some (call (record { callee = some launch; args = some f ∷ args })))
      ≡ kernel f
unfolding get_called_kernel called_at called_by_argument same_name
called_by_launch launch f args name e named = simp (e, named) refl

-- Each call found, as its configuring call and its kernel.
abbrev pub found_calls : List KernelCall → List (ℕ × Option Function)
found_calls [] = []
found_calls (c ∷ cs) = (c.configure_call, c.kernel_obj) ∷ found_calls cs

abbrev pub configures : List (ℕ × Function) → List ℕ
configures [] = []
configures (site ∷ sites) = site.0 ∷ configures sites

abbrev pub expected : List (ℕ × Function) → List (ℕ × Option Function)
expected [] = []
expected (site ∷ sites) = (site.0, some site.1) ∷ expected sites

found_calls-append :
    (xs ys : List KernelCall) → found_calls (xs ++ ys) ≡ found_calls xs ++ found_calls ys
found_calls-append [] ys = refl
found_calls-append (x ∷ xs) ys =
    ap (λ l. (x.configure_call, x.kernel_obj) ∷ l) (found_calls-append xs ys)

module _ (blocks : ℕ → Block) (count : ℕ)
    (forward : (b m : ℕ) → Leads blocks setup_next_prefix b m → (b < m) × (m < count)) where
  -- The loop ends when the blocks named setup.next stand behind those that lead to them.
  follow_ends :
      (fuel b : ℕ)
      → b < count
      → count ≤ b + fuel
      → (c : ℕ) × (follow fuel blocks b ≡ some c) × Ends blocks b c
  unfolding follow
  follow_ends zero b inside enough = absurd (omega arith)
  follow_ends (suc fuel) b inside enough = elim (next_block-Leads blocks setup_next_prefix b) [
    | inl (m, e, leads) ↦
        let (on, within) = forward b m leads in
        let (c, f, ends) = follow_ends fuel m within (omega arith) in
        (c, rw (follow, e) f, onward leads ends)
    | inr (last, stops) ↦ (b, rw (follow, last) refl, here stops)
  ]

  -- When the blocks named setup.next stand behind those that lead to them, `findLaunchFor` ends
  -- within as many rounds as there are blocks, and finds the last call or invoke, or null if there
  -- is none, of the block at the end of the chain of blocks, each the first successor named
  -- setup.next of the one before, that starts at the first successor named kcall.configok.
  pub find_launch_for-Ends :
      (configure candidate : ℕ)
      → Leads blocks configok_prefix configure candidate
      → candidate < count
      → (c : ℕ) × (found : Option Inst) × (find_launch_for count blocks configure ≡ some found)
        × IsLastOf (blocks c).insts found
        × Ends blocks candidate c
  unfolding find_launch_for
  find_launch_for-Ends configure candidate at inside =
      let (c, e, ends) = follow_ends count candidate inside (omega arith) in
      (
        c,
        last_call (blocks c).insts,
        rw (find_launch_for, next_block-found blocks configok_prefix configure candidate at, e)
            refl,
        last_call-IsLastOf (blocks c).insts,
        ends,
      )

  -- A configuring call whose chain of blocks ends in one whose last call is
  -- `cudaLaunchKernel(f, ...)`.
  abbrev pub Launches : ℕ → Function → Type 0
  Launches configure f =
      (candidate : ℕ) × Leads blocks configok_prefix configure candidate
      × (candidate < count)
      × ((c : ℕ)
          → Ends blocks candidate c
          → (launch : Function) × (args : List (Option Function)) × (name : List ℕ) × (launch.name
              ≡ some cuda_launch_func_name)
            × (f.name ≡ some name)
            × IsLastOf (blocks c).insts
                (some (call (record { callee = some launch; args = some f ∷ args }))))

  locate_one_lem :
      (configure : ℕ) (f : Function)
      → Launches configure f
      → (launch : Option Inst) × (locate_one count blocks configure
          ≡ located (
              record { configure_call = configure; kernel_launch = launch; kernel_obj = some f }
              ∷ []))
  unfolding locate_one
  locate_one_lem configure f (candidate, at, inside, last) =
      let (c, found, e, is_last, ends) = find_launch_for-Ends configure candidate at inside in
      let (launch, args, name, launches, named, is) = last c ends in
      let same =
        sym (IsLastOf-last_call (blocks c).insts found is_last)
        ∙ IsLastOf-last_call (blocks c).insts
            (some (call (record { callee = some launch; args = some f ∷ args }))) is in
      let called = ap get_called_kernel same ∙ called_by_launch launch f args name launches named in
      (found, rw (locate_one, e, called) refl)

  abbrev pub AllLaunch : List (ℕ × Function) → Type 0
  AllLaunch [] = Unit {0}
  AllLaunch (site ∷ sites) = Launches site.0 site.1 × AllLaunch sites

  locate_calls_lem :
      (sites : List (ℕ × Function)) (launch_list : List KernelCall)
      → AllLaunch sites
      → (calls : List KernelCall) × (locate_calls count blocks (configures sites) launch_list
          ≡ located calls)
        × (found_calls calls ≡ found_calls launch_list ++ expected sites)
  unfolding locate_calls
  locate_calls_lem [] launch_list h =
      (launch_list, refl, sym (append-nil (found_calls launch_list)))
  locate_calls_lem (site ∷ sites) launch_list (one, h) =
      let (launch, e) = locate_one_lem site.0 site.1 one in
      let c : KernelCall = record {
        configure_call = site.0;
        kernel_launch = launch;
        kernel_obj = some site.1;
      } in
      let (calls, run, is) = locate_calls_lem sites (launch_list ++ (c ∷ [])) h in
      (
        calls,
        rw (locate_calls, e) run,
        is
            ∙ ap (λ l. l ++ expected sites) (found_calls-append launch_list (c ∷ []))
            ∙ append_assoc (found_calls launch_list) ((site.0, some site.1) ∷ []) (expected sites),
      )

  -- When the blocks named setup.next stand behind those that lead to them and for each configuring
  -- call the last call or invoke of the block at the end of its chain of blocks is a call of
  -- `cudaLaunchKernel` with a named function, `runOnModule` ends and
  -- lists for every configuring call, in their order, this function as the kernel.
  pub locate_calls-expected :
      (sites : List (ℕ × Function))
      → AllLaunch sites
      → (calls : List KernelCall) × (locate_calls count blocks (configures sites) []
          ≡ located calls)
        × (found_calls calls ≡ expected sites)
  locate_calls-expected sites h = locate_calls_lem sites [] h
