-- ===== src/Host/Slot/Flush.antt =====
-- What a flush of a slot writes: the ring from the last flush to the signal, in order.
use mathlib.Core.List.{append_assoc}
use t_espresso.Base.{
  ℕ, zero, suc, ◌+◌, ◌-◌, ◌*◌, ◌/◌, ◌%◌, ◌^◌, ◌≤◌, ◌<◌, ◌≡◌, refl, ap, ap₂, ◌∙◌, true, false, ◌&&◌,
  not, ◌==◌, ltb, leb, if◌then◌else◌, some, List, [], ◌∷◌, ◌++◌, sub32, arith, length,
}
use t_espresso.Record.{slot_size}
use t_espresso.TraceIo.Types.{tracefile_buf_size}
use t_espresso.TraceIo.File.{Os, TraceFile}
use t_espresso.TraceIo.File.Laws.{contents, write_lem}
use t_espresso.Host.Slot.{
  Areas, set_areas, bytes_from, all_arrived, clear_bytes, flush_area, flush_areas, all_zero,
  word_is_zero,
}

-- The `n` bytes of the ring from position `pos` on.
abbrev pub ring_bytes : (ℕ → ℕ) → ℕ → ℕ → List ℕ
ring_bytes mem pos zero = []
ring_bytes mem pos (suc n) = mem (pos % slot_size) ∷ ring_bytes mem (suc pos) n

pub ring_bytes-add :
    (mem : ℕ → ℕ) (pos m n : ℕ)
    → ring_bytes mem pos (m + n) ≡ ring_bytes mem pos m ++ ring_bytes mem (pos + m) n
ring_bytes-add mem pos zero n =
    let e : 0 + n ≡ n = omega arith in let f : pos + 0 ≡ pos = omega arith in rw (e, f)
ring_bytes-add mem pos (suc m) n =
    let e : suc m + n ≡ suc (m + n) = omega arith in
    let f : pos + suc m ≡ suc pos + m = omega arith in
    rw (e, f) (ap (λ l. mem (pos % slot_size) ∷ l) (ring_bytes-add mem (suc pos) m n))

length-bytes_from : (mem : ℕ → ℕ) (a n : ℕ) → length (bytes_from mem a n) ≡ n
unfolding bytes_from
length-bytes_from mem a zero = refl
length-bytes_from mem a (suc n) = ap suc (length-bytes_from mem (suc a) n)

-- Up to the end of the slot the ring is contiguous.
pub ring_bytes-straight :
    (mem : ℕ → ℕ) (pos a n : ℕ)
    → pos % slot_size ≡ a
    → a + n ≤ slot_size
    → ring_bytes mem pos n ≡ bytes_from mem a n
unfolding bytes_from
ring_bytes-straight mem pos a zero e h = refl
ring_bytes-straight mem pos a (suc zero) e h = rw e
ring_bytes-straight mem pos a (suc (suc n)) e h = rw e (
    ap (λ l. mem a ∷ l)
      (ring_bytes-straight mem (suc pos) (suc a) (suc n) (omega arith) (omega arith)))

-- The areas cover what was signalled since the last flush, once round the ring at most.
pub set_areas_lem :
    (old new : ℕ)
    → old < 2 ^ 32
    → new < 2 ^ 32
    → leb slot_size (sub32 (sub32 new old) 1) ≡ false
    → let a = set_areas old new in
      (a.len_1 + a.len_2 ≡ sub32 new old)
      × (a.start_1 ≡ old % slot_size)
      × (a.start_1 + a.len_1 ≤ slot_size)
      × (a.start_2 ≡ 0)
      × (a.len_2 ≤ slot_size)
      × ((old + a.len_1) % slot_size ≡ (if a.len_2 == 0 then new % slot_size else 0))
      × (0 < sub32 new old)
      × (sub32 new old ≤ slot_size)
      × (a.len_2 ≤ a.start_1)
unfolding set_areas
set_areas_lem old new h k flushes = ground arith

-- Outside of what was cleared the bytes are what they were.
clear_bytes-outside :
    (start n : ℕ) (mem : ℕ → ℕ) (k : ℕ) → ltb k start ≡ true → clear_bytes start n mem k ≡ mem k
unfolding clear_bytes
clear_bytes-outside start n mem k h = ground arith

pub clear_bytes-inside :
    (start n : ℕ) (mem : ℕ → ℕ) (k : ℕ) → start ≤ k → k < start + n → clear_bytes start n mem k ≡ 0
unfolding clear_bytes
clear_bytes-inside start n mem k h h' = ground arith

pub clear_bytes-keeps_zero :
    (start n : ℕ) (mem : ℕ → ℕ) (k : ℕ) → mem k ≡ 0 → clear_bytes start n mem k ≡ 0
unfolding clear_bytes
clear_bytes-keeps_zero start n mem k h = ground arith

pub bytes_from-clear :
    (start len : ℕ) (mem : ℕ → ℕ) (a n : ℕ)
    → a + n ≤ start
    → bytes_from (clear_bytes start len mem) a n ≡ bytes_from mem a n
unfolding bytes_from
bytes_from-clear start len mem a zero h = refl
bytes_from-clear start len mem a (suc n) h =
    ap₂ (λ x l. x ∷ l) (clear_bytes-outside start len mem a (ground arith))
      (bytes_from-clear start len mem (suc a) n (omega arith))

all_zero-clear :
    (start len : ℕ) (mem : ℕ → ℕ) (a n : ℕ)
    → a + n ≤ start
    → all_zero (clear_bytes start len mem) a n ≡ all_zero mem a n
unfolding all_zero
all_zero-clear start len mem a zero h = refl
all_zero-clear start len mem a (suc n) h =
    ap₂ (λ x b. x == 0 && b) (clear_bytes-outside start len mem a (ground arith))
      (all_zero-clear start len mem (suc a) n (omega arith))

all_arrived-clear :
    (start len : ℕ) (mem : ℕ → ℕ) (i n : ℕ)
    → 8 * (i + n) ≤ start
    → all_arrived (clear_bytes start len mem) i n ≡ all_arrived mem i n
unfolding all_arrived word_is_zero
all_arrived-clear start len mem i zero h = refl
all_arrived-clear start len mem i (suc n) h =
    ap₂ (λ x b. not x && b) (all_zero-clear start len mem (8 * i) 8 (omega arith))
      (all_arrived-clear start len mem (suc i) n (omega arith))

-- The words of an area have all been written.
abbrev pub HasArrived : (ℕ → ℕ) → ℕ → ℕ → Type 0
HasArrived mem start len = all_arrived mem (start / 8) ((start + len) / 8 - start / 8) ≡ true

module _ (os : Os) (takes_all : (k n : ℕ) → os.accepts k n ≡ some n) where
  flush_area_lem :
      (start len : ℕ) (mem : ℕ → ℕ) (t : TraceFile)
      → len ≤ slot_size
      → HasArrived mem start len
      → (t' : TraceFile) × (flush_area os start len mem t ≡ some (clear_bytes start len mem, t'))
        × (contents os takes_all t' ≡ contents os takes_all t ++ bytes_from mem start len)
  unfolding flush_area
  flush_area_lem start len mem t fits arrived =
      let fits' : length (bytes_from mem start len) ≤ tracefile_buf_size =
        omega (arith, length-bytes_from mem start len) in
      let (t', e, f) = write_lem os takes_all t (bytes_from mem start len) fits' in
      (t', rw (arrived, e), f)

  pub flush_areas_one :
      (a : Areas) (mem : ℕ → ℕ) (t : TraceFile)
      → a.len_1 ≤ slot_size
      → HasArrived mem a.start_1 a.len_1
      → (a.len_2 == 0) ≡ true
      → (t' : TraceFile) × (flush_areas os a mem t ≡ some (clear_bytes a.start_1 a.len_1 mem, t'))
        × (contents os takes_all t' ≡ contents os takes_all t ++ bytes_from mem a.start_1 a.len_1)
  unfolding flush_areas
  flush_areas_one a mem t fits arrived none_2 =
      let (t', e, f) = flush_area_lem a.start_1 a.len_1 mem t fits arrived in
      (t', rw (flush_areas, e, none_2), f)

  pub flush_areas_two :
      (a : Areas) (mem : ℕ → ℕ) (t : TraceFile)
      → a.len_1 ≤ slot_size
      → a.len_2 ≤ a.start_1
      → a.start_1 ≤ slot_size
      → a.start_2 ≡ 0
      → HasArrived mem a.start_1 a.len_1
      → HasArrived mem a.start_2 a.len_2
      → (a.len_2 == 0) ≡ false
      → (t' : TraceFile) × (flush_areas os a mem t
          ≡ some (clear_bytes a.start_2 a.len_2 (clear_bytes a.start_1 a.len_1 mem), t'))
        × (contents os takes_all t'
            ≡ contents os takes_all t
              ++ (bytes_from mem a.start_1 a.len_1 ++ bytes_from mem a.start_2 a.len_2))
  unfolding flush_areas
  flush_areas_two a mem t fits below inside at_0 arrived arrived_2 some_2 =
      let mem' = clear_bytes a.start_1 a.len_1 mem in
      let (t₁, e₁, f₁) = flush_area_lem a.start_1 a.len_1 mem t fits arrived in
      let arrived' : HasArrived mem' a.start_2 a.len_2 =
        all_arrived-clear a.start_1 a.len_1 mem (a.start_2 / 8)
          ((a.start_2 + a.len_2) / 8 - a.start_2 / 8) (omega arith)
        ∙ arrived_2 in
      let (t₂, e₂, f₂) = flush_area_lem a.start_2 a.len_2 mem' t₁ (omega arith) arrived' in
      (
        t₂,
        rw (flush_areas, e₁, some_2, e₂),
        f₂
            ∙ ap₂ (λ x y. x ++ y) f₁
                (bytes_from-clear a.start_1 a.len_1 mem a.start_2 a.len_2 (omega arith))
            ∙ append_assoc (contents os takes_all t) (bytes_from mem a.start_1 a.len_1)
                (bytes_from mem a.start_2 a.len_2),
      )
