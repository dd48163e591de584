-- ===== src/Device/Filter/Laws.antt =====
-- The filters of the device accept what each list that is not empty holds.
use mathlib.Core.List.{append_assoc}
use t_espresso.Base.{
  ℕ, suc, ◌<◌, ◌≡◌, refl, ◌∙◌, Bool, true, false, ◌==◌, ◌&&◌, not, ◌||◌, if◌then◌else◌, List, [],
  ◌∷◌, ◌++◌, get_or, length, length-append, u8, arith, subst,
}
use t_espresso.Device.Filter.{scan_filter, traced_by, combine, filter_constant, filter_volatile}

abbrev pub contains : List ℕ → ℕ → Bool
contains [] value = false
contains (x ∷ xs) value = (x == value) || contains xs value

-- An empty filter accepts everything.
abbrev pub accepts : List ℕ → ℕ → Bool
accepts [] value = true
accepts (x ∷ xs) value = contains (x ∷ xs) value

get_or-append : (front xs : List ℕ) (x d : ℕ) → get_or (front ++ (x ∷ xs)) (length front) d ≡ x
get_or-append [] xs x d = refl
get_or-append (y ∷ front) xs x d = get_or-append front xs x d

found_lem : (b found c : Bool) → ((if b then true else found) || c) ≡ (found || (b || c))
found_lem true true c = refl
found_lem true false c = refl
found_lem false true c = refl
found_lem false false c = refl

scan_filter-contains :
    (front xs : List ℕ) (value i : ℕ) (found : Bool)
    → i ≡ length front
    → scan_filter (front ++ xs) value i (length xs) found ≡ (found || contains xs value)
unfolding scan_filter
scan_filter-contains front [] value i found e = ground arith
scan_filter-contains front (x ∷ xs) value i found e =
    subst
      (λ l.
        scan_filter l value (suc i) (length xs)
          (if get_or (front ++ (x ∷ xs)) i 0 == value then true else found)
        ≡ (found || ((x == value) || contains xs value)))
      (append_assoc front (x ∷ []) xs)
      (scan_filter-contains (front ++ (x ∷ [])) xs value (suc i)
          (if get_or (front ++ (x ∷ xs)) i 0 == value then true else found)
          (omega (arith, length-append front (x ∷ [])))
        ∙ rw (e, get_or-append front xs x 0) (found_lem (x == value) found (contains xs value)))

traced_by-accepts :
    (filter : List ℕ) (value : ℕ) → traced_by filter (length filter) value ≡ accepts filter value
unfolding traced_by scan_filter
traced_by-accepts [] value = refl
traced_by-accepts (x ∷ xs) value =
    scan_filter-contains [] (x ∷ xs) value 0 (suc (length xs) == 0) refl ∙ ground arith

both_lem : (b c : Bool) → (if not c then false else (if not b then false else true)) ≡ (b && c)
both_lem true true = refl
both_lem true false = refl
both_lem false true = refl
both_lem false false = refl

all_lem :
    (a b c : Bool)
    → (if not c then false else (if not b then false else (if not a then false else true)))
      ≡ (a && (b && c))
all_lem true b c = both_lem b c
all_lem false true true = refl
all_lem false true false = refl
all_lem false false true = refl
all_lem false false false = refl

counted :
    (filter : List ℕ) (value : ℕ)
    → length filter < 256
    → traced_by filter (u8 (length filter)) value ≡ accepts filter value
counted filter value h =
    let e : u8 (length filter) ≡ length filter = omega arith in
    rw e (traced_by-accepts filter value)

-- With lists of fewer than 256 entries, whose counts the pass hands over as bytes,
-- `___cuprof_filter` traces a thread exactly if its grid, its CTA and its virtual warp are each in
-- their list or their list is empty.
pub filter_constant-accepts :
    (grids ctas warps : List ℕ) (grid cta warpv : ℕ)
    → length grids < 256
    → length ctas < 256
    → length warps < 256
    → filter_constant grids ctas warps
        (u8 (length grids))
        (u8 (length ctas))
        (u8 (length warps))
        grid
        cta
        warpv
      ≡ (accepts grids grid && (accepts ctas cta && accepts warps warpv))
unfolding filter_constant combine
filter_constant-accepts grids ctas warps grid cta warpv h k m =
    rw (counted grids grid h, counted ctas cta k, counted warps warpv m)
      (all_lem (accepts grids grid) (accepts ctas cta) (accepts warps warpv))

-- The same of `___cuprof_filter_volatile` and the multiprocessor and the physical warp.
pub filter_volatile-accepts :
    (sms warps : List ℕ) (sm warpp : ℕ)
    → length sms < 256
    → length warps < 256
    → filter_volatile sms warps (u8 (length sms)) (u8 (length warps)) sm warpp
      ≡ (accepts sms sm && accepts warps warpp)
unfolding filter_volatile combine
filter_volatile-accepts sms warps sm warpp h k =
    rw (counted sms sm h, counted warps warpp k) (both_lem (accepts sms sm) (accepts warps warpp))
