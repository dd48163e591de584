-- ===== src/Host/Slot/Consume.antt =====
-- What `consumeSlot` does with a slot and its file.
use mathlib.Core.List.{append-nil}
use t_espresso.Base.{
  ℕ, zero, suc, ◌+◌, ◌%◌, ◌^◌, ◌≤◌, ◌<◌, ◌≡◌, refl, sym, ap, ap₂, ◌∙◌, Bool, false, ◌==◌, ltb, leb,
  if◌then◌else◌, some, List, ◌++◌, sub32, arith, Bool-cases, inl, inr,
}
use t_espresso.Record.{slot_size}
use t_espresso.TraceIo.File.{Os, TraceFile}
use t_espresso.TraceIo.File.Laws.{contents}
use t_espresso.Host.Slot.{
  Slot, set_areas, bytes_from, clear_bytes, flush_areas, signal_seen, consume_slot,
}
use t_espresso.Host.Slot.Flush.{
  HasArrived, ring_bytes, ring_bytes-add, ring_bytes-straight, set_areas_lem, flush_areas_one,
  flush_areas_two, clear_bytes-inside, clear_bytes-keeps_zero,
}

-- The records between the last flush and the signal have all been written.
abbrev pub HasAllArrived : Slot → ℕ → Type 0
HasAllArrived s signal =
    HasArrived s.records (set_areas s.flushed_old signal).start_1
      (set_areas s.flushed_old signal).len_1
    × HasArrived s.records (set_areas s.flushed_old signal).start_2
        (set_areas s.flushed_old signal).len_2

-- The bytes of the ring from `pos` on for `n` are zero.
abbrev pub IsCleared : (ℕ → ℕ) → ℕ → ℕ → Type 0
IsCleared mem pos n = (j : ℕ) → j < n → mem ((pos + j) % slot_size) ≡ 0

ring_bytes-turned :
    (mem : ℕ → ℕ) (pos start n x : ℕ)
    → start ≡ 0
    → n ≤ slot_size
    → pos % slot_size ≡ (if n == 0 then x else 0)
    → ring_bytes mem pos n ≡ bytes_from mem start n
unfolding bytes_from
ring_bytes-turned mem pos start zero x e h turn = refl
ring_bytes-turned mem pos start (suc n) x e h turn =
    ring_bytes-straight mem pos start (suc n) (ground (arith, turn, e)) (omega arith)

ring_bytes-areas :
    (mem : ℕ → ℕ) (old new : ℕ)
    → old < 2 ^ 32
    → new < 2 ^ 32
    → leb slot_size (sub32 (sub32 new old) 1) ≡ false
    → let a = set_areas old new in
      ring_bytes mem old (sub32 new old)
      ≡ bytes_from mem a.start_1 a.len_1 ++ bytes_from mem a.start_2 a.len_2
unfolding bytes_from
ring_bytes-areas mem old new h k flushes =
    let a = set_areas old new in
    let (sum, at_1, fits, at_0, fits_2, turn, _, _, _) = set_areas_lem old new h k flushes in
    let straight = ring_bytes-straight mem old a.start_1 a.len_1 (sym at_1) fits in
    ap (ring_bytes mem old) (sym sum)
    ∙ ring_bytes-add mem old a.len_1 a.len_2
    ∙ ap₂ (λ x y. x ++ y) straight
        (ring_bytes-turned mem (old + a.len_1) a.start_2 a.len_2 (new % slot_size) at_0 fits_2 turn)

-- What the clearing of an area leaves of the ring.
clear_first :
    (mem : ℕ → ℕ) (old start n : ℕ)
    → old % slot_size ≡ start
    → start + n ≤ slot_size
    → IsCleared (clear_bytes start n mem) old n
clear_first mem old start n e h j below =
    clear_bytes-inside start n mem ((old + j) % slot_size) (omega arith) (omega arith)

clear_second :
    (mem : ℕ → ℕ) (old start n m : ℕ)
    → old % slot_size ≡ start
    → start + n ≡ slot_size
    → m ≤ slot_size
    → IsCleared (clear_bytes 0 m (clear_bytes start n mem)) old (n + m)
clear_second mem old start n m e h small j below = elim (Bool-cases (ltb j n)) [
  | inl first ↦
      clear_bytes-keeps_zero 0 m (clear_bytes start n mem) ((old + j) % slot_size)
        (clear_first mem old start n e (omega arith) j (ground arith))
  | inr second ↦
      clear_bytes-inside 0 m (clear_bytes start n mem) ((old + j) % slot_size) (omega arith)
        (ground arith)
]

no_second : (mem : ℕ → ℕ) (start n : ℕ) (xs : List ℕ) → n ≡ 0 → xs ≡ xs ++ bytes_from mem start n
unfolding bytes_from
no_second mem start zero xs e = sym (append-nil xs)
no_second mem start (suc n) xs e = absurd (omega arith)

clear_both :
    (mem : ℕ → ℕ) (old start n start_2 m : ℕ)
    → start ≡ old % slot_size
    → start + n ≡ slot_size
    → start_2 ≡ 0
    → m ≤ slot_size
    → IsCleared (clear_bytes start_2 m (clear_bytes start n mem)) old (n + m)
clear_both mem old start n start_2 m e h at_0 small j below =
    rw at_0 (clear_second mem old start n m (sym e) h small j below)

module _ (os : Os) (takes_all : (k n : ℕ) → os.accepts k n ≡ some n) where
  flush_lem :
      (old new : ℕ) (mem : ℕ → ℕ) (t : TraceFile)
      → old < 2 ^ 32
      → new < 2 ^ 32
      → leb slot_size (sub32 (sub32 new old) 1) ≡ false
      → HasArrived mem (set_areas old new).start_1 (set_areas old new).len_1
      → HasArrived mem (set_areas old new).start_2 (set_areas old new).len_2
      → (mem' : ℕ → ℕ) × (t' : TraceFile) × (flush_areas os (set_areas old new) mem t
          ≡ some (mem', t'))
        × (contents os takes_all t'
            ≡ contents os takes_all t
              ++ (bytes_from mem (set_areas old new).start_1 (set_areas old new).len_1
                  ++ bytes_from mem (set_areas old new).start_2 (set_areas old new).len_2))
        × IsCleared mem' old (sub32 new old)
  flush_lem old new mem t h k flushes arrived arrived_2 =
      let a = set_areas old new in
      let (sum, at_1, fits, at_0, fits_2, turn, _, within, small) =
        set_areas_lem old new h k flushes in
      elim (Bool-cases (a.len_2 == 0)) [
        | inl none_2 ↦
            let (t', e, f) = flush_areas_one os takes_all a mem t (omega arith) arrived none_2 in
            (
              clear_bytes a.start_1 a.len_1 mem,
              t',
              e,
              f
                  ∙ ap (λ x. contents os takes_all t ++ x)
                      (no_second mem a.start_2 a.len_2 (bytes_from mem a.start_1 a.len_1)
                        (ground arith)),
              λ j below. clear_first mem old a.start_1 a.len_1 (sym at_1) fits j (ground arith),
            )
        | inr some_2 ↦
            let (t', e, f) =
              flush_areas_two os takes_all a mem t (omega arith) small (omega arith) at_0 arrived
                arrived_2 some_2 in
            (
              clear_bytes a.start_2 a.len_2 (clear_bytes a.start_1 a.len_1 mem),
              t',
              e,
              f,
              λ j below.
                  clear_both mem old a.start_1 a.len_1 a.start_2 a.len_2 at_1 (ground arith) at_0
                    fits_2 j (omega arith),
            )
      ]

  -- Of a slot with between one byte and SLOT_SIZE bytes between the last flush and the signal, all
  -- of them written, and a file whose writes succeed, `consumeSlot` appends exactly these bytes to
  -- the file in the order of the ring, clears them, tells the device so, and remembers it.
  pub consume_slot-flush :
      (s : Slot) (active : Bool) (t : TraceFile)
      → s.flushed_old < 2 ^ 32
      → signal_seen s active < 2 ^ 32
      → 0 < sub32 (signal_seen s active) s.flushed_old
      → sub32 (signal_seen s active) s.flushed_old ≤ slot_size
      → HasAllArrived s (signal_seen s active)
      → (s' : Slot) × (t' : TraceFile) × (consume_slot os s active t ≡ some (s', t'))
        × (contents os takes_all t'
            ≡ contents os takes_all t
              ++ ring_bytes s.records s.flushed_old (sub32 (signal_seen s active) s.flushed_old))
        × IsCleared s'.records s.flushed_old (sub32 (signal_seen s active) s.flushed_old)
        × (s'.flushed ≡ signal_seen s active)
        × (s'.flushed_old ≡ signal_seen s active)
        × (s'.commit ≡ s.commit)
        × (s'.signal ≡ s.signal)
  unfolding consume_slot
  consume_slot-flush s active t h k some_new within (arrived, arrived_2) =
      let new = signal_seen s active in
      let flushes : leb slot_size (sub32 (sub32 new s.flushed_old) 1) ≡ false = ground arith in
      let (mem', t', e, f, cleared) =
        flush_lem s.flushed_old new s.records t h k flushes arrived arrived_2 in
      (
        record s { flushed = new; flushed_old = new; records = mem' },
        t',
        rw (flushes, e),
        f
            ∙ ap (λ x. contents os takes_all t ++ x)
                (sym (ring_bytes-areas s.records s.flushed_old new h k flushes)),
        cleared,
        refl,
        refl,
        refl,
        refl,
      )
