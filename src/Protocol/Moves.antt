-- ===== src/Protocol/Moves.antt =====
-- The steps that store no word: a record passes the waiting loop, commits and requests a flush.
use t_espresso.Base.{
  ℕ, ◌+◌, ◌*◌, ◌%◌, ◌^◌, ◌<◌, ◌≡◌, sym, subst, Bool, false, ◌==◌, ltb, if◌then◌else◌, length, u32,
  arith, Bool-cases, inl, inr,
}
use t_espresso.Device.Slot.{must_wait, requests_flush}
use t_espresso.Protocol.{Pc, waiting, writing, filling, counted, done, System, update}
use t_espresso.Protocol.Invariant.{IsSound, Inv}

-- A record that moves, when the others see no change.
pub IsSound-update :
    (f r : ℕ) (pend : ℕ → Bool) (own log : ℕ → ℕ) (pc : ℕ → Pc) (i : ℕ) (p : Pc)
    → ((j : ℕ) → IsSound f r pend own log j (pc j))
    → IsSound f r pend own log i p
    → (j : ℕ) → IsSound f r pend own log j (update pc i p j)
IsSound-update f r pend own log pc i p sound now j = elim (Bool-cases (j == i)) [
  | inl e ↦
      let same : j ≡ i = ground arith in
      rw e (subst (λ k. IsSound f r pend own log k p) (sym same) now)
  | inr e ↦ rw e (sound j)
]

-- A step that changes no word, and of the counters `commit` and `signal` only.
quiet-Inv :
    (s : System)
    → Inv s
    → (i commit signal : ℕ) (p : Pc) → commit % 8 ≡ 0
    → commit < 2 ^ 32
    → signal % 8 ≡ 0
    → signal < 2 ^ 32
    → ((inv : Inv s)
        → IsSound (length s.file) s.reserved inv.pend inv.own s.log i (s.pc i)
        → IsSound (length s.file) s.reserved inv.pend inv.own s.log i p)
    → Inv (record s {
      counters = record s.counters { commit = commit; signal = signal };
      pc = update s.pc i p;
    })
quiet-Inv s inv i commit signal p whole word whole_2 word_2 moves = record {
  pend = inv.pend;
  own = inv.own;
  alloc_eq = inv.alloc_eq;
  flushed_eq = inv.flushed_eq;
  commit_whole = whole;
  commit_word = word;
  signal_whole = whole_2;
  signal_word = word_2;
  within = inv.within;
  pend_in = inv.pend_in;
  far = inv.far;
  cell = inv.cell;
  nonzero = inv.nonzero;
  sound =
      IsSound-update (length s.file) s.reserved inv.pend inv.own s.log s.pc i p inv.sound
        (moves inv (inv.sound i));
  written = inv.written;
}

-- A record whose space is allocated passes the loop only when the space lies in the slot.
passes :
    (s : System) (inv : Inv s) (i alloc_raw n : ℕ) (words : ℕ → ℕ)
    → IsSound (length s.file) s.reserved inv.pend inv.own s.log i (waiting alloc_raw n words)
    → must_wait alloc_raw s.counters.flushed ≡ false
    → IsSound
        (length s.file)
        s.reserved
        inv.pend
        inv.own
        s.log
        i
        (writing alloc_raw n words s.counters.flushed (λ o. ltb o n) filling)
unfolding must_wait
passes s inv i alloc_raw n words (a, raw, below, pos, small, dist, owed) free =
    let (first, _) = inv.pend_in (a + 0) (owed 0 pos).0 in
    let flushed = inv.flushed_eq in
    (a, raw, below, ground arith, tt, λ o e. let h : o < n = ground arith in (h, owed o h))

pub pass-Inv :
    (s : System)
    → Inv s
    → (i alloc_raw n : ℕ) (words : ℕ → ℕ) → s.pc i ≡ waiting alloc_raw n words
    → must_wait alloc_raw s.counters.flushed ≡ false
    → Inv (record s {
      pc = update s.pc i (writing alloc_raw n words s.counters.flushed (λ o. ltb o n) filling);
    })
pass-Inv s inv i alloc_raw n words at free =
    quiet-Inv s inv i s.counters.commit s.counters.signal
      (writing alloc_raw n words s.counters.flushed (λ o. ltb o n) filling) inv.commit_whole
      inv.commit_word inv.signal_whole inv.signal_word
      (λ (v : Inv s) h.
        passes s v i alloc_raw n words
          (subst (λ p. IsSound (length s.file) s.reserved v.pend v.own s.log i p) at h) free)

pub commit-Inv :
    (s : System)
    → Inv s
    → (i alloc_raw n : ℕ) (words : ℕ → ℕ) (flushed_cur : ℕ) (todo : ℕ → Bool)
    → s.pc i ≡ writing alloc_raw n words flushed_cur todo filling
    → Inv (record s {
      counters = record s.counters { commit = u32 (s.counters.commit + 8 * n) };
      pc =
          update s.pc i (
            writing alloc_raw n words flushed_cur todo (counted (u32 (s.counters.commit + 8 * n))));
    })
commit-Inv s inv i alloc_raw n words flushed_cur todo at =
    let whole = inv.commit_whole in
    let multiple : u32 (s.counters.commit + 8 * n) % 8 ≡ 0 = omega arith in
    quiet-Inv s inv i (u32 (s.counters.commit + 8 * n)) s.counters.signal
      (writing alloc_raw n words flushed_cur todo (counted (u32 (s.counters.commit + 8 * n))))
      multiple (omega arith) inv.signal_whole inv.signal_word
      (λ (v : Inv s) h.
        let (a, raw, below, room, _, owed) =
          subst (λ p. IsSound (length s.file) s.reserved v.pend v.own s.log i p) at h in
        (a, raw, below, room, (multiple, omega arith), owed))

pub request-Inv :
    (s : System)
    → Inv s
    → (i alloc_raw n : ℕ) (words : ℕ → ℕ) (flushed_cur : ℕ) (todo : ℕ → Bool) (commit_raw : ℕ)
    → s.pc i ≡ writing alloc_raw n words flushed_cur todo (counted commit_raw)
    → Inv (record s {
      counters = record s.counters {
        signal =
            if requests_flush commit_raw flushed_cur (8 * n) then commit_raw else s.counters.signal;
      };
      pc = update s.pc i (writing alloc_raw n words flushed_cur todo done);
    })
request-Inv s inv i alloc_raw n words flushed_cur todo commit_raw at =
    let (_, _, _, _, (whole, word), _) =
      subst (λ p. IsSound (length s.file) s.reserved inv.pend inv.own s.log i p) at (inv.sound i) in
    let whole_old = inv.signal_whole in
    let word_old = inv.signal_word in
    quiet-Inv s inv i s.counters.commit
      (if requests_flush commit_raw flushed_cur (8 * n) then commit_raw else s.counters.signal)
      (writing alloc_raw n words flushed_cur todo done) inv.commit_whole inv.commit_word
      (ground arith) (ground arith)
      (λ (v : Inv s) h.
        let (a, raw, below, room, _, owed) =
          subst (λ p. IsSound (length s.file) s.reserved v.pend v.own s.log i p) at h in
        (a, raw, below, room, tt, owed))
