-- ===== src/Pass/Setup/Laws.antt =====
-- Which threads are traced.
use t_espresso.Base.{
  ℕ, ◌^◌, ◌%◌, ◌<◌, ◌≡◌, refl, sym, ap, ap₂, ◌∙◌, Bool, true, false, ◌&&◌, ◌||◌, ◌==◌, ltb, List,
  [], ◌∷◌, length, u8, arith, Bool-cases, inl, inr,
}
use t_espresso.Device.Filter.{scan_filter, traced_by, filter_constant}
use t_espresso.Device.Filter.Laws.{
  contains, accepts, filter_constant-accepts, filter_volatile-accepts,
}
use t_espresso.Pass.Options.{PassArgs, ctaid_conv}
use t_espresso.Pass.Options.Laws.{ctaid_conv-get_cta_serial, ctaid_conv-sum}
use t_espresso.Pass.Index.{get_cta_serial, get_warpv}
use t_espresso.Pass.Setup.{Thread, setup_trace_info, insert_filter_volatile, is_traced}

-- The coordinates of a CTA.
pub record Coordinates : Type 0 where
  pub x : ℕ
  pub y : ℕ
  pub z : ℕ

abbrev pub IsCoordinates : Coordinates → Type 0
IsCoordinates c = (c.x < 2 ^ 32) × (c.y < 2 ^ 16) × (c.z < 2 ^ 16)

abbrev pub AreCoordinates : List Coordinates → Type 0
AreCoordinates [] = Unit {0}
AreCoordinates (c ∷ cs) = IsCoordinates c × AreCoordinates cs

-- The numbers of CTAs as the arguments of the plugin give them.
abbrev pub serials : List Coordinates → List ℕ
serials [] = []
serials (c ∷ cs) = ctaid_conv c.x c.y c.z ∷ serials cs

abbrev pub same_cta : Coordinates → Coordinates → Bool
same_cta c d = c.x == d.x && (c.y == d.y && c.z == d.z)

abbrev pub has_cta : List Coordinates → Coordinates → Bool
has_cta [] c = false
has_cta (d ∷ ds) c = same_cta d c || has_cta ds c

-- No CTAs stand for all.
abbrev pub accepts_cta : List Coordinates → Coordinates → Bool
accepts_cta [] c = true
accepts_cta (d ∷ ds) c = has_cta (d ∷ ds) c

same_serial :
    (c d : Coordinates)
    → IsCoordinates c
    → IsCoordinates d
    → (ctaid_conv c.x c.y c.z == get_cta_serial d.x d.y d.z) ≡ same_cta c d
same_serial c d (cx, cy, cz) (dx, dy, dz) =
    let e = ctaid_conv-sum c.x c.y c.z cx in
    let f = sym (ctaid_conv-get_cta_serial d.x d.y d.z dx) ∙ ctaid_conv-sum d.x d.y d.z dx in
    rw (e, f) (ground arith)

contains-serials :
    (cs : List Coordinates) (d : Coordinates)
    → AreCoordinates cs
    → IsCoordinates d
    → contains (serials cs) (get_cta_serial d.x d.y d.z) ≡ has_cta cs d
contains-serials [] d h k = refl
contains-serials (c ∷ cs) d (h, hs) k =
    ap₂ (λ a b. a || b) (same_serial c d h k) (contains-serials cs d hs k)

accepts-serials :
    (cs : List Coordinates) (d : Coordinates)
    → AreCoordinates cs
    → IsCoordinates d
    → accepts (serials cs) (get_cta_serial d.x d.y d.z) ≡ accepts_cta cs d
accepts-serials [] d h k = refl
accepts-serials (c ∷ cs) d h k = contains-serials (c ∷ cs) d h k

without_volatile :
    (b : Bool) (sms warpps : List ℕ) (sm warpp : ℕ)
    → (ltb 0 (length sms) || ltb 0 (length warpps)) ≡ false
    → b ≡ (b && (accepts sms sm && accepts warpps warpp))
without_volatile true [] [] sm warpp h = refl
without_volatile false [] [] sm warpp h = refl
without_volatile b (x ∷ sms) warpps sm warpp h = absurd (ground arith)
without_volatile b [] (y ∷ warpps) sm warpp h = absurd (ground arith)

-- With lists of fewer than 256 entries, and the CTAs given by their coordinates, an access of a thread
-- is traced exactly if its grid, its CTA, its virtual warp, its multiprocessor and its physical warp
-- are each among those that the plugin was asked for, or it was asked for none.
pub is_traced-accepts :
    (args : PassArgs) (ctas : List Coordinates) (kernel_id : ℕ) (t : Thread) (sm warpp : ℕ)
    → let c : Coordinates = record { x = t.ctaid_x; y = t.ctaid_y; z = t.ctaid_z } in
      args.cta ≡ serials ctas
      → AreCoordinates ctas
      → IsCoordinates c
      → length args.grid < 256
      → length args.cta < 256
      → length args.warpv < 256
      → length args.sm < 256
      → length args.warpp < 256
      → is_traced args kernel_id t sm warpp ≡ (
          (accepts args.grid t.gridid
            && (accepts_cta ctas c
                && accepts args.warpv (get_warpv t.tid_x t.tid_y t.tid_z t.ntid_x t.ntid_y)))
          && (accepts args.sm sm && accepts args.warpp warpp))
unfolding is_traced setup_trace_info insert_filter_volatile
is_traced-accepts args ctas kernel_id t sm warpp given coords here few_grids few_ctas few_warps
      few_sms few_warpps =
    let c : Coordinates = record { x = t.ctaid_x; y = t.ctaid_y; z = t.ctaid_z } in
    let serial = get_cta_serial t.ctaid_x t.ctaid_y t.ctaid_z in
    let warpv = get_warpv t.tid_x t.tid_y t.tid_z t.ntid_x t.ntid_y in
    let its_cta : accepts args.cta serial ≡ accepts_cta ctas c =
      ap (λ l. accepts l serial) given ∙ accepts-serials ctas c coords here in
    let constant =
      filter_constant-accepts args.grid args.cta args.warpv t.gridid serial warpv few_grids few_ctas
        few_warps
      ∙ ap (λ b. accepts args.grid t.gridid && (b && accepts args.warpv warpv)) its_cta in
    let volatile = filter_volatile-accepts args.sm args.warpp sm warpp few_sms few_warpps in
    elim (Bool-cases (ltb 0 (length args.sm) || ltb 0 (length args.warpp))) [
      | inl e ↦ rw e (ap₂ (λ a b. a && b) constant volatile)
      | inr e ↦ rw e (
          constant
          ∙ without_volatile
              (accepts args.grid t.gridid && (accepts_cta ctas c && accepts args.warpv warpv))
              args.sm args.warpp sm warpp e)
    ]

-- When the plugin is asked for a multiple of 256 grids, the count that the filter is handed is 0, and
-- accesses are traced as if it was asked for none.
pub is_traced-overflow :
    (args : PassArgs) (kernel_id : ℕ) (t : Thread) (sm warpp : ℕ)
    → length args.grid % 256 ≡ 0
    → is_traced args kernel_id t sm warpp
      ≡ is_traced (record args { grid = [] }) kernel_id t sm warpp
unfolding is_traced setup_trace_info insert_filter_volatile filter_constant traced_by scan_filter
is_traced-overflow args kernel_id t sm warpp all =
    let none_left : u8 (length args.grid) ≡ 0 = omega arith in rw none_left refl
