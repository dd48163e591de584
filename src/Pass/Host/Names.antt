-- ===== src/Pass/Host/Names.antt =====
-- Tables of functions and variables by name.
use t_espresso.Base.{
  ℕ, ◌+◌, ◌≡◌, refl, ap, ◌∙◌, Bool, true, false, if◌then◌else◌, none, some, List, [], ◌∷◌, ◌++◌,
  same_text, same_text_refl, same_text→≡, arith, Bool-cases, Option-cases, inl, inr, subst,
}
use t_espresso.Pass.Host.{
  calls, HostFunction, HostModule, Statement, CdtorEntry, Runtime, defined, entries, old_entries,
  default_priority, has_variable, find_function, put_function, append_global_ctor_dtor,
  register_func_to_global_ctor,
}

pub find_function-put_function :
    (fs : List HostFunction) (f : HostFunction) → find_function (put_function fs f) f.name ≡ some f
unfolding find_function put_function
find_function-put_function [] f = rw (same_text_refl f.name) refl
find_function-put_function (g ∷ gs) f = elim (Bool-cases (same_text g.name f.name)) [
  | inl e ↦ rw (e, find_function, same_text_refl f.name) refl
  | inr e ↦ rw (e, find_function, e) (find_function-put_function gs f)
]

pub find_function-put_other :
    (fs : List HostFunction) (f : HostFunction) (name : List ℕ)
    → same_text f.name name ≡ false
    → find_function (put_function fs f) name ≡ find_function fs name
unfolding find_function put_function
find_function-put_other [] f name h = rw h refl
find_function-put_other (g ∷ gs) f name h = elim (Bool-cases (same_text g.name f.name)) [
  | inl e ↦
      let other : same_text g.name name ≡ false =
        ap (λ n. same_text n name) (same_text→≡ g.name f.name e) ∙ h in
      rw (e, find_function, h, other) refl
  | inr e ↦ rw (e, find_function, find_function-put_other gs f name h) refl
]

pub has_variable-last :
    (vs : List (List ℕ)) (name : List ℕ) → has_variable (vs ++ (name ∷ [])) name ≡ true
unfolding has_variable
has_variable-last [] name = rw (same_text_refl name) refl
has_variable-last (v ∷ vs) name = ground (arith, has_variable-last vs name)

pub has_variable-kept :
    (vs : List (List ℕ)) (other name : List ℕ)
    → has_variable vs name ≡ true
    → has_variable (vs ++ (other ∷ [])) name ≡ true
unfolding has_variable
has_variable-kept [] other name h = absurd (cc)
has_variable-kept (v ∷ vs) other name h = ground (arith, has_variable-kept vs other name)

-- The variables with `name` among them.
abbrev pub with_variable : List (List ℕ) → List ℕ → List (List ℕ)
with_variable vs name = if has_variable vs name then vs else vs ++ (name ∷ [])

pub has_variable-with :
    (vs : List (List ℕ)) (name : List ℕ) → has_variable (with_variable vs name) name ≡ true
has_variable-with vs name = elim (Bool-cases (has_variable vs name)) [
  | inl e ↦ rw (e, e) refl
  | inr e ↦ rw e (has_variable-last vs name)
]

pub has_variable-with_other :
    (vs : List (List ℕ)) (other name : List ℕ)
    → has_variable vs name ≡ true
    → has_variable (with_variable vs other) name ≡ true
has_variable-with_other vs other name h = elim (Bool-cases (has_variable vs other)) [
  | inl e ↦ rw e h
  | inr e ↦ rw e (has_variable-kept vs other name h)
]

-- A name that no function with a body has.
unfoldable pub is_free : List HostFunction → List ℕ → Bool
is_free fs name = elim (find_function fs name) [
  | none ↦ true
  | some f ↦ elim f.body [ [] ↦ true | s ∷ body ↦ false ]
]

pub is_free-put_other :
    (fs : List HostFunction) (f : HostFunction) (name : List ℕ)
    → same_text f.name name ≡ false
    → is_free (put_function fs f) name ≡ is_free fs name
unfolding is_free
is_free-put_other fs f name h = rw (is_free, find_function-put_other fs f name h) refl

-- A function of this name that calls the runtime once, and its entry.
abbrev pub caller : List ℕ → Runtime → List (List ℕ) → HostFunction
caller name r args = record { name = name; body = calls r args ∷ [] }

abbrev pub ctor_entry : List ℕ → CdtorEntry
ctor_entry name = record { priority = default_priority + 1; func = defined name }

-- The module with a constructor of this name.
abbrev pub with_ctor : HostModule → Runtime → List (List ℕ) → List ℕ → HostModule
with_ctor m r args name = record m {
  functions = put_function m.functions (caller name r args);
  global_ctors = entries (old_entries m.global_ctors ++ (ctor_entry name ∷ []));
}

free_body :
    (f : HostFunction) (x y : Bool × HostModule)
    → elim f.body as (λ b. Bool) [ [] ↦ true | s ∷ body ↦ false ] ≡ true
    → elim f.body as (λ b. Bool × HostModule) [ [] ↦ x | s ∷ body ↦ y ] ≡ x
free_body f x y h = go f.body h
  where
    go :
        (b : List Statement)
        → elim b as (λ b. Bool) [ [] ↦ true | s ∷ body ↦ false ] ≡ true
        → elim b as (λ b. Bool × HostModule) [ [] ↦ x | s ∷ body ↦ y ] ≡ x
    go [] h = refl
    go (s ∷ b) h = absurd (cc)

pub register_func_to_global_ctor_lem :
    (m : HostModule) (r : Runtime) (args : List (List ℕ)) (name : List ℕ)
    → is_free m.functions name ≡ true
    → register_func_to_global_ctor m r args name ≡ (true, with_ctor m r args name)
unfolding register_func_to_global_ctor append_global_ctor_dtor is_free
register_func_to_global_ctor_lem m r args name h =
    elim (Option-cases (find_function m.functions name)) [
      | inl e ↦ rw (register_func_to_global_ctor, e) refl
      | inr (f, e) ↦
          rw (register_func_to_global_ctor, e)
            (free_body f _ _ (
              subst
                (λ o.
                  elim o as (λ o. Bool) [
                    | none ↦ true
                    | some f ↦ elim f.body [ [] ↦ true | s ∷ body ↦ false ]
                  ]
                  ≡ true)
                e h))
    ]
