-- ===== src/Protocol/Safety.antt =====
-- What records and host do to one slot in every order of their steps.
use t_espresso.Base.{
  ℕ, ◌+◌, ◌*◌, ◌/◌, ◌%◌, ◌^◌, ◌≤◌, ◌<◌, ◌≡◌, ◌≢◌, ap, ◌∙◌, subst, Bool, true, false, leb, length,
  length-append, sub32, arith,
}
use t_espresso.Record.{slot_size}
use t_espresso.Protocol.{
  writing, Stage, System, slot_words, rec_word, flushed_by, ring_words, signal_read, Step, allocate,
  pass, store, commit, request, flush, Reach, at_start, later,
}
use t_espresso.Protocol.Invariant.{IsSound, Inv, log_words, initial-Inv}
use t_espresso.Protocol.Moves.{pass-Inv, commit-Inv, request-Inv}
use t_espresso.Protocol.Reserve.{allocate-Inv}
use t_espresso.Protocol.Store.{store-Inv, rec_word_lem}
use t_espresso.Protocol.Flush.{flush-Inv}

step-Inv : (s t : System) → Inv s → Step s t → Inv t
step-Inv s t inv (allocate i n words at pos small filled dist) =
    allocate-Inv s inv i n words pos small filled dist
step-Inv s t inv (pass i alloc_raw n words at free) = pass-Inv s inv i alloc_raw n words at free
step-Inv s t inv (store i alloc_raw n words flushed_cur todo stage o at left) =
    store-Inv s inv i alloc_raw n words flushed_cur todo stage o at left
step-Inv s t inv (commit i alloc_raw n words flushed_cur todo at) =
    commit-Inv s inv i alloc_raw n words flushed_cur todo at
step-Inv s t inv (request i alloc_raw n words flushed_cur todo commit_raw at) =
    request-Inv s inv i alloc_raw n words flushed_cur todo commit_raw at
step-Inv s t inv (flush is_kernel_active ready seen) = flush-Inv s inv is_kernel_active ready seen

Reach-Inv : (s : System) → Reach s → Inv s
Reach-Inv s at_start = initial-Inv
Reach-Inv s (later {s = r} {t} h k) = step-Inv r t (Reach-Inv r h) k

-- In every order of the steps of any number of records and of the host, with fewer than 2 ^ 32
-- bytes allocated and not flushed at each allocation, what is in the file are the first words of
-- the log: the words of the records, in the order in which their space was allocated, with none
-- lost, repeated or mixed with another record's, and no more than was allocated.
pub Reach-log :
    (s : System)
    → Reach s
    → (s.file ≡ log_words s.log 0 (length s.file)) × (length s.file ≤ s.reserved)
Reach-log s h = let inv = Reach-Inv s h in (inv.written, inv.within)

-- In every order of the steps, with fewer than 2 ^ 32 bytes allocated and not flushed at each
-- allocation, a record that is through the waiting loop stores each of its words in a word of the
-- slot that is zero: no word that the host has not flushed is overwritten.
pub Reach-store :
    (s : System)
    → Reach s
    → (i alloc_raw n : ℕ) (words : ℕ → ℕ) (flushed_cur : ℕ) (todo : ℕ → Bool) (stage : Stage)
      (o : ℕ)
    → s.pc i ≡ writing alloc_raw n words flushed_cur todo stage
    → todo o ≡ true
    → s.ring (rec_word alloc_raw o) ≡ 0
Reach-store s h i alloc_raw n words flushed_cur todo stage o at left =
    let inv = Reach-Inv s h in
    let (a, raw, below, room, _, owed) =
      subst (λ p. IsSound (length s.file) s.reserved inv.pend inv.own s.log i p) at (inv.sound i) in
    let (inside, rest) = owed o left in
    let (pending, _, _) = rest in
    let (from, to) = inv.pend_in (a + o) pending in
    let place : rec_word alloc_raw o ≡ (a + o) % slot_words =
      ap (λ x. rec_word x o) raw ∙ rec_word_lem a o in
    ap s.ring place ∙ inv.cell (a + o) from (omega arith) ∙ ground arith

-- When the commit counter has caught up with the allocation counter and less than 2 ^ 32 bytes are
-- left, the flush that the host makes once no kernel runs leaves the words of all records in
-- the file.
pub last_flush-log :
    (s : System)
    → Reach s
    → s.counters.commit ≡ s.counters.alloc
    → 8 * s.reserved < 8 * length s.file + 2 ^ 32
    → leb slot_size (sub32 (sub32 (signal_read s.counters false) s.counters.flushed) 1) ≡ false
    → ((k : ℕ)
        → k < sub32 (signal_read s.counters false) s.counters.flushed / 8
        → s.ring ((s.counters.flushed / 8 + k) % slot_words) ≢ 0)
    → (flushed_by s (signal_read s.counters false)).file ≡ log_words s.log 0 s.reserved
last_flush-log s h caught dist ready seen =
    let inv = Reach-Inv s h in
    let inv' = flush-Inv s inv false ready seen in
    let t = flushed_by s (signal_read s.counters false) in
    let alloc = inv.alloc_eq in
    let flushed = inv.flushed_eq in
    let flushed' = inv'.flushed_eq in
    let within' = inv'.within in
    let more : length s.file ≤ length t.file = omega (
      arith,
      length-append s.file (
          ring_words s.ring (s.counters.flushed / 8)
            (sub32 s.counters.commit s.counters.flushed / 8)),
    ) in
    let e : length t.file ≡ s.reserved = omega arith in inv'.written ∙ ap (log_words s.log 0) e
