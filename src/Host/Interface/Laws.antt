-- ===== src/Host/Interface/Laws.antt =====
-- The access data that the host collects before the first trace is written.
use mathlib.Core.List.{append_assoc, append-nil}
use t_espresso.Base.{
  ℕ, suc, ◌+◌, ◌-◌, ◌<◌, ◌^◌, ◌≡◌, refl, sym, ap, ap₂, ◌∙◌, true, some, List, [], ◌∷◌, ◌++◌, length,
  take, drop, replicate, u32, u64, arith, length-append, length-replicate, take-append_left,
  drop-append_left, take_all, take-append-drop, length-take, length-drop,
}
use t_espresso.TraceIo.File.Laws.{concat}
use t_espresso.Host.Interface.{
  Globals, initial_globals, cuprof_init, kernel_set_up, realloc, write_at, set_up_all,
}

-- The ids from `n + 1` on.
abbrev pub ids_from : ℕ → List (List ℕ) → List ℕ
ids_from n [] = []
ids_from n (kdata ∷ rest) = suc n ∷ ids_from (suc n) rest

-- The memory holds the data and one byte more, and the length is that of the data.
abbrev pub Holds : Globals → List ℕ → ℕ → ℕ → Type 0
Holds g data_so_far last n =
    (g.accdat_var ≡ some (data_so_far ++ (last ∷ [])))
    × (g.accdat_varlen ≡ length data_so_far)
    × (g.kernel_count ≡ n)

write_at-front :
    (front old new rest : List ℕ)
    → length old ≡ length new
    → write_at (front ++ (old ++ rest)) (length front) new ≡ front ++ (new ++ rest)
unfolding write_at
write_at-front front old new rest h =
    ap₂ (λ a b. a ++ (new ++ b)) (take-append_left (length front) front (old ++ rest) refl)
      (ap (λ l. drop (length front + length new) l) (sym (append_assoc front old rest))
        ∙ drop-append_left (length front + length new) (front ++ old) rest
            (omega (arith, length-append front old)))

-- The data and the closing zero written behind what was there.
written_lem :
    (front mid kdata : List ℕ)
    → length mid ≡ length kdata + 1
    → write_at (write_at (front ++ mid) (length front) kdata) (length front + length kdata) (0 ∷ [])
      ≡ (front ++ kdata) ++ (0 ∷ [])
written_lem front mid kdata h =
    let n = length kdata in
    let first : write_at (front ++ mid) (length front) kdata ≡ front ++ (kdata ++ drop n mid) =
      ap (λ l. write_at (front ++ l) (length front) kdata) (sym (take-append-drop n mid))
      ∙ write_at-front front (take n mid) kdata (drop n mid) (omega (arith, length-take n mid)) in
    let joined : front ++ (kdata ++ drop n mid) ≡ (front ++ kdata) ++ (drop n mid ++ []) =
      sym (append_assoc front kdata (drop n mid))
      ∙ ap (λ l. (front ++ kdata) ++ l) (sym (append-nil (drop n mid))) in
    ap₂ (λ m k. write_at m k (0 ∷ [])) (first ∙ joined) (sym (length-append front kdata))
    ∙ write_at-front (front ++ kdata) (drop n mid) (0 ∷ []) [] (omega (arith, length-drop n mid))

realloc_lem :
    (junk : ℕ) (front : List ℕ) (last n : ℕ)
    → realloc junk (some (front ++ (last ∷ []))) (length front + n + 1)
      ≡ front ++ (last ∷ replicate n junk)
unfolding realloc
realloc_lem junk front last n =
    let kept =
      take_all (length front + n + 1) (front ++ (last ∷ []))
        (omega (arith, length-append front (last ∷ []))) in
    let new : length front + n + 1 - length (front ++ (last ∷ [])) ≡ n =
      omega (arith, length-append front (last ∷ [])) in
    ap₂ (λ a k. a ++ replicate k junk) kept new ∙ append_assoc front (last ∷ []) (replicate n junk)

pub kernel_set_up-Holds :
    (junk : ℕ) (kdata : List ℕ) (g : Globals) (data_so_far : List ℕ) (last n : ℕ)
    → Holds g data_so_far last n
    → length data_so_far + length kdata < 2 ^ 64
    → n + 1 < 2 ^ 32
    → (g' : Globals) × (kernel_set_up junk true kdata g ≡ some (suc n, g'))
      × Holds g' (data_so_far ++ kdata) 0 (suc n)
      × (g'.trace_base_info ≡ g.trace_base_info)
unfolding kernel_set_up realloc
kernel_set_up-Holds junk kdata g data_so_far last n (var, len, count) fits few =
    let wraps_not : u64 (length data_so_far + length kdata) ≡ length data_so_far + length kdata =
      omega arith in
    let counts : u32 (suc n) ≡ suc n = omega arith in
    (
      record g {
        accdat_var = some ((data_so_far ++ kdata) ++ (0 ∷ []));
        accdat_varlen = length (data_so_far ++ kdata);
        kernel_count = suc n;
      },
      rw
          (
            var,
            len,
            realloc_lem junk data_so_far last (length kdata),
            written_lem data_so_far (last ∷ replicate (length kdata) junk) kdata
                (omega (arith, length-replicate (length kdata) junk)),
            length-append data_so_far kdata,
            count,
            wraps_not,
            counts,
          )
          refl,
      (refl, refl, refl),
      refl,
    )

set_up_all-from :
    (junk : ℕ) (kernels : List (List ℕ)) (g : Globals) (data_so_far : List ℕ) (last n : ℕ)
    → Holds g data_so_far last n
    → length data_so_far + length (concat kernels) < 2 ^ 64
    → n + length kernels < 2 ^ 32
    → (g' : Globals) × (last' : ℕ) × (set_up_all junk kernels g ≡ some (ids_from n kernels, g'))
      × Holds g' (data_so_far ++ concat kernels) last' (n + length kernels)
unfolding set_up_all
set_up_all-from junk [] g data_so_far last n (var, len, count) fits few = (
  g,
  last,
  refl,
  (
    var ∙ ap (λ l. some (l ++ (last ∷ []))) (sym (append-nil data_so_far)),
    len ∙ ap length (sym (append-nil data_so_far)),
    omega arith,
  ),
)
set_up_all-from junk (kdata ∷ rest) g data_so_far last n holds fits few =
    let all = length-append kdata (concat rest) in
    let (g₁, e₁, holds₁, _) =
      kernel_set_up-Holds junk kdata g data_so_far last n holds (omega (arith, all))
        (omega arith) in
    let (g₂, last₂, e₂, (var, len, count)) =
      set_up_all-from junk rest g₁ (data_so_far ++ kdata) 0 (suc n) holds₁
        (omega (arith, all, length-append data_so_far kdata)) (omega arith) in
    (
      g₂,
      last₂,
      rw (set_up_all, e₁, e₂) refl,
      (
        var ∙ ap (λ l. some (l ++ (last₂ ∷ []))) (append_assoc data_so_far kdata (concat rest)),
        len ∙ ap length (append_assoc data_so_far kdata (concat rest)),
        omega (arith, count),
      ),
    )

-- With memory granted, after the start of the program the kernels that are set up are given the
-- ids from 1 on in their order, and the access data is theirs in this order with its length, as
-- long as there are fewer than 2 ^ 32 kernels and their data is shorter than 2 ^ 64 bytes.
pub set_up_all-cuprof_init :
    (junk : ℕ) (kernels : List (List ℕ))
    → length (concat kernels) < 2 ^ 64
    → length kernels < 2 ^ 32
    → (g : Globals) × (last : ℕ) × (set_up_all junk kernels (cuprof_init junk initial_globals)
        ≡ some (ids_from 0 kernels, g))
      × (g.accdat_var ≡ some (concat kernels ++ (last ∷ [])))
      × (g.accdat_varlen ≡ length (concat kernels))
      × (g.kernel_count ≡ length kernels)
unfolding cuprof_init
set_up_all-cuprof_init junk kernels fits few =
    let (g, last, e, (var, len, count)) =
      set_up_all-from junk kernels (cuprof_init junk initial_globals) [] junk 0 (refl, refl, refl)
        (omega arith) (omega arith) in
    (g, last, e, var, len, omega (arith, count))
