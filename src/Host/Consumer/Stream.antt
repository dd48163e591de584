-- ===== src/Host/Consumer/Stream.antt =====
-- What a device puts into its slots: of each slot a stream of bytes, of which byte `n` is at `n`
-- modulo the size of the slot until it is flushed.
use mathlib.Core.List.{append-nil}
use mathlib.Core.Path.{subst}
use t_espresso.Base.{
  ℕ, zero, suc, ◌+◌, ◌-◌, ◌%◌, ◌≤◌, ◌<◌, ◌≡◌, refl, sym, ap, ap₂, ◌∙◌, Bool, true, ltb, leb, some,
  List, [], ◌∷◌, ◌++◌, u32, sub32, arith, Bool-cases, inl, inr,
}
use t_espresso.Record.{slot_size}
use t_espresso.TraceIo.File.{Os, TraceFile}
use t_espresso.TraceIo.File.Laws.{contents}
use t_espresso.Host.Slot.{Slot, set_areas, bytes_from, signal_seen, consume_slot}
use t_espresso.Host.Slot.Flush.{ring_bytes, HasArrived}
use t_espresso.Host.Slot.Consume.{HasAllArrived, consume_slot-flush}

-- The bytes of a stream from `start` on up to before `end`.
abbrev pub segment : (ℕ → ℕ) → ℕ → ℕ → List ℕ
segment stream start end = bytes_from stream start (end - start)

-- Both areas that a flush between these counters reads have been written.
abbrev pub HaveArrived : (ℕ → ℕ) → ℕ → ℕ → Type 0
HaveArrived mem old new =
    HasArrived mem (set_areas old new).start_1 (set_areas old new).len_1
    × HasArrived mem (set_areas old new).start_2 (set_areas old new).len_2

-- The slot holds what the stream has from `start` on up to before `end`, and the host sees `end`.
pub record IsFilled (active : Bool) (stream : ℕ → ℕ) (start end : ℕ) (s : Slot) : Type 0 where
  pub seen : signal_seen s active ≡ u32 end
  pub grows : start ≤ end
  pub fits : end ≤ start + slot_size
  pub holds : (j : ℕ) → start ≤ j → j < end → s.records (j % slot_size) ≡ stream j
  pub arrived : start < end → HaveArrived s.records (u32 start) (u32 end)

segment-add :
    (stream : ℕ → ℕ) (start m n : ℕ)
    → bytes_from stream start (m + n) ≡ bytes_from stream start m ++ bytes_from stream (start + m) n
unfolding bytes_from
segment-add stream start zero n =
    let e : 0 + n ≡ n = omega arith in let f : start + 0 ≡ start = omega arith in rw (e, f)
segment-add stream start (suc m) n =
    let e : suc m + n ≡ suc (m + n) = omega arith in
    let f : start + suc m ≡ suc start + m = omega arith in
    rw (e, f) (ap (λ l. stream start ∷ l) (segment-add stream (suc start) m n))

pub segment-append :
    (stream : ℕ → ℕ) (start mid end : ℕ)
    → start ≤ mid
    → mid ≤ end
    → segment stream start mid ++ segment stream mid end ≡ segment stream start end
segment-append stream start mid end h k =
    let e : start + (mid - start) ≡ mid = omega arith in
    let f : end - start ≡ (mid - start) + (end - mid) = omega arith in
    rw (f, segment-add stream start (mid - start) (end - mid), e) refl

pub segment-nil : (stream : ℕ → ℕ) (n : ℕ) → segment stream n n ≡ []
unfolding bytes_from
segment-nil stream n = let e : n - n ≡ 0 = omega arith in rw (e, bytes_from) refl

ring_bytes-stream :
    (mem stream : ℕ → ℕ) (pos start n : ℕ)
    → pos % slot_size ≡ start % slot_size
    → ((j : ℕ) → start ≤ j → j < start + n → mem (j % slot_size) ≡ stream j)
    → ring_bytes mem pos n ≡ bytes_from stream start n
unfolding bytes_from
ring_bytes-stream mem stream pos start zero e h = refl
ring_bytes-stream mem stream pos start (suc n) e h =
    ap₂ (λ x l. x ∷ l) (ap mem e ∙ h start (omega arith) (omega arith))
      (ring_bytes-stream mem stream (suc pos) (suc start) n (omega arith)
        (λ j below above. h j (omega arith) (omega arith)))

-- Nothing new: the slot and the file stay as they are.
consume_slot-idle :
    (os : Os) (s : Slot) (active : Bool) (t : TraceFile) (n : ℕ)
    → s.flushed_old ≡ u32 n
    → signal_seen s active ≡ u32 n
    → consume_slot os s active t ≡ some (s, t)
unfolding consume_slot
consume_slot-idle os s active t n e f =
    let stays : leb slot_size (sub32 (sub32 (signal_seen s active) s.flushed_old) 1) ≡ true =
      rw (e, f) (ground arith) in
    rw (consume_slot, stays) refl

pub consume_slot-stream :
    (os : Os) (takes_all : (k n : ℕ) → os.accepts k n ≡ some n) (stream : ℕ → ℕ) (active : Bool)
    (start end : ℕ) (s : Slot) (t : TraceFile)
    → s.flushed_old ≡ u32 start
    → IsFilled active stream start end s
    → (s' : Slot) × (t' : TraceFile) × (consume_slot os s active t ≡ some (s', t'))
      × (s'.flushed_old ≡ u32 end)
      × (contents os takes_all t' ≡ contents os takes_all t ++ segment stream start end)
consume_slot-stream os takes_all stream active start end s t at_start f =
    elim (Bool-cases (ltb start end)) [
      | inl new ↦
          let later : start < end = ground arith in
          let delta : sub32 (signal_seen s active) s.flushed_old ≡ end - start =
            omega (arith, f.seen, at_start, f.fits) in
          let arrived : HasAllArrived s (signal_seen s active) =
            subst (λ x. HaveArrived s.records x (signal_seen s active)) (sym at_start)
              (subst (λ y. HaveArrived s.records (u32 start) y) (sym f.seen) (f.arrived later)) in
          let (s', t', e, written, _, _, old, _, _) =
            consume_slot-flush os takes_all s active t (omega arith) (omega arith)
              (omega (arith, delta)) (omega (arith, delta, f.fits)) arrived in
          let flushed : ring_bytes s.records s.flushed_old
                (sub32 (signal_seen s active) s.flushed_old)
              ≡ segment stream start end =
            ap (ring_bytes s.records s.flushed_old) delta
            ∙ ring_bytes-stream s.records stream s.flushed_old start (end - start)
                (omega (arith, at_start)) (λ j below above. f.holds j below (omega arith)) in
          (s', t', e, old ∙ f.seen, written ∙ ap (λ l. contents os takes_all t ++ l) flushed)
      | inr none_new ↦
          let same : end ≡ start = ground (arith, f.grows) in
          (
            s,
            t,
            consume_slot-idle os s active t start at_start (f.seen ∙ ap u32 same),
            at_start ∙ ap u32 (sym same),
            sym (append-nil (contents os takes_all t))
                ∙ ap (λ l. contents os takes_all t ++ l)
                    (sym (segment-nil stream start) ∙ ap (segment stream start) (sym same)),
          )
    ]
