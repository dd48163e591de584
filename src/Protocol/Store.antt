-- ===== src/Protocol/Store.antt =====
-- The step that stores one word of a record.
use t_espresso.Base.{
  ℕ, ◌+◌, ◌*◌, ◌%◌, ◌≤◌, ◌<◌, ◌≡◌, ◌≢◌, sym, ap, ◌∙◌, subst, Bool, true, false, ◌==◌, ltb, ◌&&◌,
  not, if◌then◌else◌, length, u32, arith, Bool-cases, inl, inr,
}
use t_espresso.Device.Slot.{rec_byte, rec_offset}
use t_espresso.Protocol.{Pc, idle, waiting, writing, Stage, System, slot_words, update, rec_word}
use t_espresso.Protocol.Invariant.{IsOwed, IsSound, Inv}

pub rec_word_lem : (a o : ℕ) → rec_word (u32 (8 * a)) o ≡ (a + o) % slot_words
unfolding rec_byte rec_offset
rec_word_lem a o = omega arith

-- What a store leaves owed.
IsOwed-update :
    (pend : ℕ → Bool) (own log : ℕ → ℕ) (i : ℕ) (words : ℕ → ℕ) (q o q0 : ℕ)
    → q ≢ q0
    → IsOwed pend own log i words q o
    → IsOwed (update pend q0 false) own log i words q o
IsOwed-update pend own log i words q o q0 apart (p, e, l) = (ground arith, e, l)

IsSound-store :
    (f r : ℕ) (pend : ℕ → Bool) (own log : ℕ → ℕ) (q0 j : ℕ) (p : Pc)
    → own q0 ≢ j
    → IsSound f r pend own log j p
    → IsSound f r (update pend q0 false) own log j p
IsSound-store f r pend own log q0 j idle other h = tt
IsSound-store f r pend own log q0 j (waiting raw n words) other
      (a, e, below, pos, small, dist, owed) =
    (
      a,
      e,
      below,
      pos,
      small,
      dist,
      λ o h.
          let (p, mine, l) = owed o h in
          IsOwed-update pend own log j words (a + o) o q0 (λ same. other (ap own (sym same) ∙ mine))
            (p, mine, l),
    )
IsSound-store f r pend own log q0 j (writing raw n words flushed todo stage) other
      (a, e, below, room, whole, owed) =
    (
      a,
      e,
      below,
      room,
      whole,
      λ o h.
          let (inside, rest) = owed o h in
          let (p, mine, l) = rest in
          (
            inside,
            IsOwed-update pend own log j words (a + o) o q0
                (λ same. other (ap own (sym same) ∙ mine)) (p, mine, l),
          ),
    )

IsSound-own_store :
    (f r : ℕ) (pend : ℕ → Bool) (own log : ℕ → ℕ) (i raw n : ℕ) (words : ℕ → ℕ) (flushed : ℕ)
    (todo : ℕ → Bool) (stage : Stage) (o : ℕ)
    → (h : IsSound f r pend own log i (writing raw n words flushed todo stage))
    → IsSound f r
        (update pend (h.0 + o) false)
        own
        log
        i
        (writing raw n words flushed (update todo o false) stage)
IsSound-own_store f r pend own log i raw n words flushed todo stage o
      (a, e, below, room, whole, owed) =
    (
      a,
      e,
      below,
      room,
      whole,
      λ k h.
          let (inside, rest) = owed k (ground arith) in
          (inside, IsOwed-update pend own log i words (a + k) k (a + o) (ground arith) rest),
    )

-- The cells of the ring after a store.
cell_store :
    (f r : ℕ) (pend : ℕ → Bool) (log ring : ℕ → ℕ) (q0 word q : ℕ)
    → ((q : ℕ)
        → f ≤ q
        → q < f + slot_words
        → ring (q % slot_words) ≡ (if ltb q r && not (pend q) then log q else 0))
    → f ≤ q0
    → q0 < f + slot_words
    → q0 < r
    → log q0 ≡ word
    → f ≤ q
    → q < f + slot_words
    → update ring (q0 % slot_words) word (q % slot_words)
      ≡ (if ltb q r && not (update pend q0 false q) then log q else 0)
cell_store f r pend log ring q0 word q cell from to below is from_q to_q =
    elim (Bool-cases (q == q0)) [
      | inl e ↦ let same : q ≡ q0 = ground arith in ground (arith, ap log same)
      | inr e ↦
          let apart : q % slot_words ≢ q0 % slot_words = ground arith in
          ground (arith, cell q from_q to_q)
    ]

store-IsSound :
    (s : System) (inv : Inv s) (i raw n : ℕ) (words : ℕ → ℕ) (flushed : ℕ) (todo : ℕ → Bool)
    (stage : Stage) (o : ℕ)
    → (h : IsSound
        (length s.file)
        s.reserved
        inv.pend
        inv.own
        s.log
        i
        (writing raw n words flushed todo stage))
    → inv.own (h.0 + o) ≡ i
    → (j : ℕ)
    → IsSound
        (length s.file)
        s.reserved
        (update inv.pend (h.0 + o) false)
        inv.own
        s.log
        j
        (update s.pc i (writing raw n words flushed (update todo o false) stage) j)
store-IsSound s inv i raw n words flushed todo stage o h mine j = elim (Bool-cases (j == i)) [
  | inl e ↦
      let same : j ≡ i = ground arith in
      rw e (
        subst
          (λ k.
            IsSound (length s.file) s.reserved (update inv.pend (h.0 + o) false) inv.own s.log k
              (writing raw n words flushed (update todo o false) stage))
          (sym same)
          (IsSound-own_store (length s.file) s.reserved inv.pend inv.own s.log i raw n words flushed
            todo stage o h))
  | inr e ↦ rw e (
      IsSound-store (length s.file) s.reserved inv.pend inv.own s.log (h.0 + o) j (s.pc j)
        (ground arith) (inv.sound j))
]

pub store-Inv :
    (s : System)
    → Inv s
    → (i alloc_raw n : ℕ) (words : ℕ → ℕ) (flushed_cur : ℕ) (todo : ℕ → Bool) (stage : Stage)
      (o : ℕ)
    → s.pc i ≡ writing alloc_raw n words flushed_cur todo stage
    → todo o ≡ true
    → Inv (record s {
      ring = update s.ring (rec_word alloc_raw o) (words o);
      pc = update s.pc i (writing alloc_raw n words flushed_cur (update todo o false) stage);
    })
store-Inv s inv i alloc_raw n words flushed_cur todo stage o at left =
    let h =
      subst (λ p. IsSound (length s.file) s.reserved inv.pend inv.own s.log i p) at (inv.sound i) in
    let (a, raw, below, room, _, owed) = h in
    let (inside, rest) = owed o left in
    let (pending, mine, is) = rest in
    let (from, to) = inv.pend_in (a + o) pending in
    let place : rec_word alloc_raw o ≡ (a + o) % slot_words =
      ap (λ x. rec_word x o) raw ∙ rec_word_lem a o in
    record {
      pend = update inv.pend (a + o) false;
      own = inv.own;
      alloc_eq = inv.alloc_eq;
      flushed_eq = inv.flushed_eq;
      commit_whole = inv.commit_whole;
      commit_word = inv.commit_word;
      signal_whole = inv.signal_whole;
      signal_word = inv.signal_word;
      within = inv.within;
      pend_in = λ q e. inv.pend_in q (ground arith);
      far = λ q k l. let old = inv.far q k l in ground arith;
      cell = λ q k l. rw place (
          cell_store (length s.file) s.reserved inv.pend s.log s.ring (a + o) (words o) q inv.cell
            from (omega arith) to is k l);
      nonzero = inv.nonzero;
      sound = store-IsSound s inv i alloc_raw n words flushed_cur todo stage o h mine;
      written = inv.written;
    }
