-- ===== src/Pass/Kernels.antt =====
-- `findKernels` of lib/LocateKCalls.cpp. A function is the address that the code compares by.
pub mod Laws
use t_espresso.Base.{
  ℕ, zero, suc, ◌+◌, Bool, true, false, ◌||◌, ◌==◌, ltb, leb, if◌then◌else◌, Option, none, some,
  List, [], ◌∷◌, ◌++◌, length,
}

-- A user of a function: the caller of a call instruction, `none` for any other user.
abbrev pub User : Type 0
User = Option ℕ

-- `std::find(...) != end()`
unfoldable pub has : List ℕ → ℕ → Bool
has [] f = false
has (g ∷ fs) f = (g == f) || has fs f

-- The callers among the users, each once, after those in `callers`.
unfoldable pub collect_callers : List User → List ℕ → List ℕ
unfolding has
collect_callers [] callers = callers
collect_callers (none ∷ users) callers = collect_callers users callers
collect_callers (some f ∷ users) callers =
    collect_callers users (if has callers f then callers else callers ++ (f ∷ []))

-- `std::sort`
unfoldable pub insert : ℕ → List ℕ → List ℕ
insert f [] = f ∷ []
insert f (g ∷ fs) = let rest = insert f fs in if leb f g then f ∷ (g ∷ fs) else g ∷ rest

unfoldable pub sort : List ℕ → List ℕ
unfolding insert
sort [] = []
sort (f ∷ fs) = insert f (sort fs)

-- The loop that filters `caller_list[0]` from `iter` on by `caller_list[i]` from `iter_new` on: what
-- is left from `iter` on. Each round moves one of the two, which is the fuel.
unfoldable pub filter_common : ℕ → List ℕ → List ℕ → List ℕ
filter_common zero fs gs = fs
filter_common (suc fuel) [] gs = []
filter_common (suc fuel) (f ∷ fs) [] = f ∷ fs
filter_common (suc fuel) (f ∷ fs) (g ∷ gs) =
    let same = filter_common fuel fs gs in
    let skip_new = filter_common fuel (f ∷ fs) gs in
    let erased = filter_common fuel fs (g ∷ gs) in
    if f == g then f ∷ same else (if ltb g f then skip_new else erased)

-- The users of `cudaPopCallConfiguration` and of `cudaLaunchKernel`, `none` where the module does
-- not declare the function.
unfoldable pub find_kernels : Option (List User) → Option (List User) → List ℕ
unfolding collect_callers sort filter_common
find_kernels none launch = []
find_kernels (some popconf) none = []
find_kernels (some popconf) (some launch) =
    let callers = sort (collect_callers popconf []) in
    let others = sort (collect_callers launch []) in
    filter_common (length callers + length others) callers others
