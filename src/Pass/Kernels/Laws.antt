-- ===== src/Pass/Kernels/Laws.antt =====
-- What the filtering of `findKernels` keeps.
use t_espresso.Base.{
  ℕ, zero, suc, ◌+◌, ◌≤◌, ◌<◌, ◌≡◌, refl, sym, ap, ◌∙◌, Bool, true, false, ◌||◌, ◌&&◌, ◌==◌, ltb,
  leb, none, some, List, [], ◌∷◌, ◌++◌, length, arith, Bool-cases, inl, inr,
}
use t_espresso.Pass.Kernels.{User, has, collect_callers, insert, sort, filter_common, find_kernels}

-- All of the list are at least `f`, and the list ascends.
abbrev pub AllFrom : ℕ → List ℕ → Type 0
AllFrom f [] = Unit {0}
AllFrom f (g ∷ gs) = (f ≤ g) × AllFrom f gs

abbrev pub IsSorted : List ℕ → Type 0
IsSorted [] = Unit {0}
IsSorted (f ∷ fs) = AllFrom f fs × IsSorted fs

AllFrom-le : (e f : ℕ) (fs : List ℕ) → e ≤ f → AllFrom f fs → AllFrom e fs
AllFrom-le e f [] h k = tt
AllFrom-le e f (g ∷ fs) h (k, l) = (omega arith, AllFrom-le e f fs h l)

pub swap_or : (a b c : Bool) → (b || (a || c)) ≡ (a || (b || c))
swap_or true true c = refl
swap_or true false c = refl
swap_or false true c = refl
swap_or false false c = refl

pub has-insert : (f : ℕ) (fs : List ℕ) (g : ℕ) → has (insert f fs) g ≡ ((f == g) || has fs g)
unfolding has insert
has-insert f [] g = refl
has-insert f (h ∷ fs) g = elim (Bool-cases (leb f h)) [
  | inl below ↦ rw below refl
  | inr above ↦ rw (above, has-insert f fs g) (swap_or (f == g) (h == g) (has fs g))
]

has-sort : (fs : List ℕ) (g : ℕ) → has (sort fs) g ≡ has fs g
unfolding has sort
has-sort [] g = refl
has-sort (f ∷ fs) g = has-insert f (sort fs) g ∙ ap (λ b. (f == g) || b) (has-sort fs g)

AllFrom-insert : (e f : ℕ) (fs : List ℕ) → e ≤ f → AllFrom e fs → AllFrom e (insert f fs)
unfolding insert
AllFrom-insert e f [] h k = (h, tt)
AllFrom-insert e f (g ∷ fs) h (k, l) = elim (Bool-cases (leb f g)) [
  | inl below ↦ rw below (h, (k, l))
  | inr above ↦ rw above (k, AllFrom-insert e f fs h l)
]

pub insert-IsSorted : (f : ℕ) (fs : List ℕ) → IsSorted fs → IsSorted (insert f fs)
unfolding insert
insert-IsSorted f [] h = (tt, tt)
insert-IsSorted f (g ∷ fs) (h, k) = elim (Bool-cases (leb f g)) [
  | inl below ↦ rw below ((ground arith, AllFrom-le f g fs (ground arith) h), (h, k))
  | inr above ↦ rw above (AllFrom-insert g f fs (ground arith) h, insert-IsSorted f fs k)
]

sort-IsSorted : (fs : List ℕ) → IsSorted (sort fs)
unfolding sort
sort-IsSorted [] = tt
sort-IsSorted (f ∷ fs) = insert-IsSorted f (sort fs) (sort-IsSorted fs)

-- Nothing below the head is in an ascending list.
has-below : (e : ℕ) (fs : List ℕ) (g : ℕ) → AllFrom e fs → g < e → has fs g ≡ false
unfolding has
has-below e [] g h k = refl
has-below e (f ∷ fs) g (h, l) k = ground (arith, has-below e fs g l k)

abbrev pub all_less : List ℕ → ℕ → Bool
all_less [] k = true
all_less (g ∷ gs) k = ltb g k && all_less gs k

-- The loop keeps the functions of the first list that are in the second or beyond all of it.
filter_common-has :
    (fuel : ℕ) (fs gs : List ℕ) (k : ℕ)
    → length fs + length gs ≤ fuel
    → IsSorted fs
    → IsSorted gs
    → has (filter_common fuel fs gs) k ≡ (has fs k && (has gs k || all_less gs k))
unfolding has filter_common
filter_common-has zero [] gs k h sf sg = refl
filter_common-has zero (f ∷ fs) gs k h sf sg = absurd (omega arith)
filter_common-has (suc fuel) [] gs k h sf sg = refl
filter_common-has (suc fuel) (f ∷ fs) [] k h sf sg = ground arith
filter_common-has (suc fuel) (f ∷ fs) (g ∷ gs) k h (sf, sfs) (sg, sgs) =
    let same = filter_common-has fuel fs gs k (omega arith) sfs sgs in
    let skip_new = filter_common-has fuel (f ∷ fs) gs k (omega arith) (sf, sfs) sgs in
    let erased = filter_common-has fuel fs (g ∷ gs) k (omega arith) sfs (sg, sgs) in
    elim (Bool-cases (f == g)) [
      | inl e ↦ rw (e, same) (ground (arith, has-below f fs k sf))
      | inr ne ↦ elim (Bool-cases (ltb g f)) [
        | inl below ↦ rw (ne, below, skip_new) (ground (arith, has-below f fs k sf))
        | inr above ↦ rw (ne, above, erased) (ground (arith, has-below g gs k sg))
      ]
    ]

abbrev pub callers_of : List User → ℕ → Bool
callers_of [] f = false
callers_of (none ∷ users) f = callers_of users f
callers_of (some g ∷ users) f = (g == f) || callers_of users f

has-append : (fs : List ℕ) (g f : ℕ) → has (fs ++ (g ∷ [])) f ≡ (has fs f || (g == f))
unfolding has
has-append [] g f = ground arith
has-append (h ∷ fs) g f = ground (arith, has-append fs g f)

pub assoc_or : (a b c : Bool) → ((a || b) || c) ≡ (a || (b || c))
assoc_or true b c = refl
assoc_or false b c = refl

pub known_lem :
    (callers : List ℕ) (g f : ℕ) (b : Bool)
    → has callers g ≡ true
    → (has callers f || b) ≡ (has callers f || ((g == f) || b))
known_lem callers g f b known = elim (Bool-cases (g == f)) [
  | inl e ↦
      let same : g ≡ f = ground arith in
      let known' : has callers f ≡ true = ap (has callers) (sym same) ∙ known in rw known' refl
  | inr ne ↦ rw ne refl
]

has-collect_callers :
    (users : List User) (callers : List ℕ) (f : ℕ)
    → has (collect_callers users callers) f ≡ (has callers f || callers_of users f)
unfolding collect_callers
has-collect_callers [] callers f = ground arith
has-collect_callers (none ∷ users) callers f = has-collect_callers users callers f
has-collect_callers (some g ∷ users) callers f = elim (Bool-cases (has callers g)) [
  | inl known ↦
      rw (known, has-collect_callers users callers f)
        (known_lem callers g f (callers_of users f) known)
  | inr fresh ↦
      rw (fresh, has-collect_callers users (callers ++ (g ∷ [])) f, has-append callers g f)
        (assoc_or (has callers f) (g == f) (callers_of users f))
]

-- All callers stand below `f`.
abbrev pub all_below : List User → ℕ → Bool
all_below [] f = true
all_below (none ∷ users) f = all_below users f
all_below (some g ∷ users) f = ltb g f && all_below users f

all_less-insert :
    (g : ℕ) (fs : List ℕ) (f : ℕ) → all_less (insert g fs) f ≡ (ltb g f && all_less fs f)
unfolding insert
all_less-insert g [] f = refl
all_less-insert g (h ∷ fs) f = elim (Bool-cases (leb g h)) [
  | inl below ↦ rw below refl
  | inr above ↦ rw (above, all_less-insert g fs f) (swap_and (ltb g f) (ltb h f) (all_less fs f))
]
  where
    swap_and : (a b c : Bool) → (b && (a && c)) ≡ (a && (b && c))
    swap_and true b c = refl
    swap_and false true c = refl
    swap_and false false c = refl

all_less-sort : (fs : List ℕ) (f : ℕ) → all_less (sort fs) f ≡ all_less fs f
unfolding sort
all_less-sort [] f = refl
all_less-sort (g ∷ fs) f =
    all_less-insert g (sort fs) f ∙ ap (λ b. ltb g f && b) (all_less-sort fs f)

all_less-append : (fs : List ℕ) (g f : ℕ) → all_less (fs ++ (g ∷ [])) f ≡ (all_less fs f && ltb g f)
all_less-append [] g f = ground arith
all_less-append (h ∷ fs) g f = ground (arith, all_less-append fs g f)

all_less-has :
    (fs : List ℕ) (g f : ℕ) → has fs g ≡ true → all_less fs f ≡ (ltb g f && all_less fs f)
unfolding has
all_less-has [] g f h = absurd (ground arith)
all_less-has (k ∷ fs) g f h = elim (Bool-cases (k == g)) [
  | inl e ↦ ground arith
  | inr ne ↦ ground (arith, all_less-has fs g f)
]

all_less-collect_callers :
    (users : List User) (callers : List ℕ) (f : ℕ)
    → all_less (collect_callers users callers) f ≡ (all_less callers f && all_below users f)
unfolding collect_callers
all_less-collect_callers [] callers f = ground arith
all_less-collect_callers (none ∷ users) callers f = all_less-collect_callers users callers f
all_less-collect_callers (some g ∷ users) callers f = elim (Bool-cases (has callers g)) [
  | inl known ↦
      rw (known, all_less-collect_callers users callers f)
        (ground (arith, all_less-has callers g f known))
  | inr fresh ↦
      rw
        (fresh, all_less-collect_callers users (callers ++ (g ∷ [])) f, all_less-append callers g f)
        (ground arith)
]

-- With both functions declared, the functions that `findKernels` returns are those callers of
-- `cudaPopCallConfiguration` that also call `cudaLaunchKernel`, and with them those that stand
-- after every caller of `cudaLaunchKernel`, which the loop leaves in the list when it ends.
pub find_kernels-has :
    (popconf launch : List User) (f : ℕ)
    → has (find_kernels (some popconf) (some launch)) f
      ≡ (callers_of popconf f && (callers_of launch f || all_below launch f))
unfolding find_kernels has
find_kernels-has popconf launch f =
    let callers = collect_callers popconf [] in
    let others = collect_callers launch [] in
    filter_common-has (length (sort callers) + length (sort others)) (sort callers) (sort others) f
      (omega arith) (sort-IsSorted callers) (sort-IsSorted others)
    ∙ rw
        (
          has-sort callers f,
          has-sort others f,
          all_less-sort others f,
          has-collect_callers popconf [] f,
          has-collect_callers launch [] f,
          all_less-collect_callers launch [] f,
        )
        refl
