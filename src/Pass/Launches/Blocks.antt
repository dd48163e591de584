-- ===== src/Pass/Launches/Blocks.antt =====
-- Which block a block leads to by name, and which call is the last of a block.
use t_espresso.Base.{
  ℕ, ◌≡◌, refl, ap, ◌∙◌, subst, true, false, Option, none, some, List, [], ◌∷◌, ◌++◌, ◌⊎◌,
  Bool-cases, Option-cases, inl, inr,
}
use t_espresso.Pass.Access.{starts_with}
use t_espresso.Pass.Launches.{
  Inst, call, invoke, other, Block, find_successor, next_block, last_call,
}

module _ (blocks : ℕ → Block) (prefix : List ℕ) where
  -- No name of these blocks starts with the prefix.
  abbrev pub NoneNamed : List ℕ → Type 0
  NoneNamed [] = Unit {0}
  NoneNamed (b ∷ bs) = (starts_with (blocks b).name prefix ≡ false) × NoneNamed bs

  -- Block `b` ends in a branch, and `m` is the first of its successors whose name starts with the
  -- prefix.
  abbrev pub Leads : ℕ → ℕ → Type 0
  Leads b m =
      (before : List ℕ) × (after : List ℕ) × ((blocks b).successors ≡ some (before ++ (m ∷ after)))
      × NoneNamed before
      × (starts_with (blocks m).name prefix ≡ true)

  -- Block `b` ends in no branch, or no name of its successors starts with the prefix.
  abbrev pub Stops : ℕ → Type 0
  Stops b =
      ((blocks b).successors ≡ none)
      ⊎ ((bs : List ℕ) × ((blocks b).successors ≡ some bs) × NoneNamed bs)

  find_successor-found :
      (before : List ℕ) (m : ℕ) (after : List ℕ)
      → NoneNamed before
      → starts_with (blocks m).name prefix ≡ true
      → find_successor blocks prefix (before ++ (m ∷ after)) ≡ some m
  unfolding find_successor
  find_successor-found [] m after none_before named = rw (find_successor, named) refl
  find_successor-found (b ∷ before) m after (unnamed, none_before) named =
      rw (find_successor, unnamed) (find_successor-found before m after none_before named)

  -- What is found among blocks.
  abbrev Found : List ℕ → Option ℕ → Type 0
  Found bs none = NoneNamed bs
  Found bs (some m) =
      (before : List ℕ) × (after : List ℕ) × (bs ≡ before ++ (m ∷ after))
      × NoneNamed before
      × (starts_with (blocks m).name prefix ≡ true)

  Found-further :
      (b : ℕ) (bs : List ℕ) (found : Option ℕ)
      → starts_with (blocks b).name prefix ≡ false
      → Found bs found
      → Found (b ∷ bs) found
  Found-further b bs none unnamed found = (unnamed, found)
  Found-further b bs (some m) unnamed (before, after, e, none_before, named) =
      (b ∷ before, after, ap (λ l. b ∷ l) e, (unnamed, none_before), named)

  find_successor-Found : (bs : List ℕ) → Found bs (find_successor blocks prefix bs)
  unfolding find_successor
  find_successor-Found [] = tt
  find_successor-Found (b ∷ bs) = elim (Bool-cases (starts_with (blocks b).name prefix)) [
    | inl named ↦ rw (Found, find_successor, named) ([], bs, refl, tt, named)
    | inr unnamed ↦
        rw (Found, find_successor, unnamed)
          (Found-further b bs (find_successor blocks prefix bs) unnamed (find_successor-Found bs))
  ]

  pub next_block-found : (b m : ℕ) → Leads b m → next_block blocks prefix b ≡ some m
  unfolding next_block
  next_block-found b m (before, after, e, none_before, named) =
      rw (next_block, e) (find_successor-found before m after none_before named)

  pub next_block-Leads :
      (b : ℕ)
      → ((m : ℕ) × (next_block blocks prefix b ≡ some m) × Leads b m)
        ⊎ ((next_block blocks prefix b ≡ none) × Stops b)
  unfolding next_block
  next_block-Leads b = elim (Option-cases (blocks b).successors) [
    | inl no_branch ↦ inr (rw (next_block, no_branch) refl, inl no_branch)
    | inr (bs, branch) ↦
        let found = find_successor-Found bs in
        elim (Option-cases (find_successor blocks prefix bs)) [
          | inl e ↦ inr (rw (next_block, branch) e, inr (bs, branch, subst (Found bs) e found))
          | inr (m, e) ↦
              let (before, after, at, none_before, named) = subst (Found bs) e found in
              inl (
                m,
                rw (next_block, branch) e,
                (before, after, branch ∙ ap some at, none_before, named),
              )
        ]
  ]

abbrev IsCall : Inst → Type 0
IsCall (call site) = Unit {0}
IsCall (invoke site) = Unit {0}
IsCall other = ⊥

abbrev AreOther : List Inst → Type 0
AreOther [] = Unit {0}
AreOther (inst ∷ insts) = (inst ≡ other) × AreOther insts

-- The last call or invoke of the instructions, if there is one.
abbrev pub IsLastOf : List Inst → Option Inst → Type 0
IsLastOf insts none = AreOther insts
IsLastOf insts (some inst) =
    (before : List Inst) × (after : List Inst) × (insts ≡ before ++ (inst ∷ after))
    × IsCall inst
    × AreOther after

last_call-AreOther : (insts : List Inst) → AreOther insts → last_call insts ≡ none
unfolding last_call
last_call-AreOther [] h = refl
last_call-AreOther (other ∷ insts) (e, h) = rw (last_call-AreOther insts h) refl
last_call-AreOther (call site ∷ insts) (e, h) = absurd (cc)
last_call-AreOther (invoke site ∷ insts) (e, h) = absurd (cc)

last_call-call :
    (inst : Inst) (after : List Inst)
    → IsCall inst
    → AreOther after
    → last_call (inst ∷ after) ≡ some inst
unfolding last_call
last_call-call (call site) after c h = rw (last_call, last_call-AreOther after h) refl
last_call-call (invoke site) after c h = rw (last_call, last_call-AreOther after h) refl
last_call-call other after c h = absurd c

last_call-append :
    (before insts : List Inst) (inst : Inst)
    → last_call insts ≡ some inst
    → last_call (before ++ insts) ≡ some inst
unfolding last_call
last_call-append [] insts inst e = e
last_call-append (b ∷ before) insts inst e =
    rw (last_call, last_call-append before insts inst e) refl

-- There is only one last call.
pub IsLastOf-last_call :
    (insts : List Inst) (found : Option Inst) → IsLastOf insts found → last_call insts ≡ found
IsLastOf-last_call insts none h = last_call-AreOther insts h
IsLastOf-last_call insts (some inst) (before, after, e, c, h) =
    ap last_call e ∙ last_call-append before (inst ∷ after) inst (last_call-call inst after c h)

IsLastOf-further :
    (i : Inst) (insts : List Inst) (inst : Inst)
    → IsLastOf insts (some inst)
    → IsLastOf (i ∷ insts) (some inst)
IsLastOf-further i insts inst (before, after, e, c, h) =
    (i ∷ before, after, ap (λ l. i ∷ l) e, c, h)

pub last_call-IsLastOf : (insts : List Inst) → IsLastOf insts (last_call insts)
unfolding last_call
last_call-IsLastOf [] = tt
last_call-IsLastOf (inst ∷ insts) =
    let rest = last_call-IsLastOf insts in
    elim (Option-cases (last_call insts)) [
      | inl e ↦
          rw (IsLastOf, last_call, e) (last_or_none inst insts (subst (IsLastOf insts) e rest))
      | inr (found, e) ↦
          rw (IsLastOf, last_call, e)
            (IsLastOf-further inst insts found (subst (IsLastOf insts) e rest))
    ]
  where
    last_or_none :
        (inst : Inst) (insts : List Inst)
        → AreOther insts
        → IsLastOf
            (inst ∷ insts)
            (elim inst [ call c ↦ some (call c) | invoke c ↦ some (invoke c) | other ↦ none ])
    last_or_none (call c) insts h = ([], insts, refl, tt, h)
    last_or_none (invoke c) insts h = ([], insts, refl, tt, h)
    last_or_none other insts h = (refl, h)
