-- ===== src/Protocol/Reserve.antt =====
-- The step that allocates the space of a record.
use t_espresso.Base.{
  ℕ, zero, suc, ◌+◌, ◌-◌, ◌*◌, ◌^◌, ◌≤◌, ◌<◌, ◌≡◌, ◌≢◌, refl, sym, ◌∙◌, Bool, true, ltb, leb, ◌&&◌,
  if◌then◌else◌, length, u32, arith,
}
use t_espresso.Record.{record_size_max}
use t_espresso.Device.Slot.{reserve}
use t_espresso.Protocol.{Pc, idle, waiting, writing, System, update, extend}
use t_espresso.Protocol.Invariant.{IsOwed, IsSound, Inv, log_words}
use t_espresso.Protocol.Moves.{IsSound-update}

-- `v` at the `n` words from `at` on.
abbrev mark {ℓ} : {A : Type ℓ} → (ℕ → A) → ℕ → ℕ → A → ℕ → A
mark f at n v q = if leb at q && ltb q (at + n) then v else f q

-- A word before the new ones is owed as before.
IsOwed-mark :
    (pend : ℕ → Bool) (own log : ℕ → ℕ) (r n i j : ℕ) (new words : ℕ → ℕ) (q o : ℕ)
    → q < r
    → IsOwed pend own log j words q o
    → IsOwed (mark pend r n true) (mark own r n i) (extend log r n new) j words q o
IsOwed-mark pend own log r n i j new words q o below (p, e, l) =
    (ground arith, ground arith, ground arith)

IsSound-reserve :
    (f r : ℕ) (pend : ℕ → Bool) (own log : ℕ → ℕ) (n i j : ℕ) (new : ℕ → ℕ) (p : Pc)
    → IsSound f r pend own log j p
    → IsSound f (r + n) (mark pend r n true) (mark own r n i) (extend log r n new) j p
IsSound-reserve f r pend own log n i j new idle h = tt
IsSound-reserve f r pend own log n i j new (waiting raw m words)
      (a, e, below, pos, small, dist, owed) =
    (
      a,
      e,
      omega arith,
      pos,
      small,
      dist,
      λ o h. IsOwed-mark pend own log r n i j new words (a + o) o (omega arith) (owed o h),
    )
IsSound-reserve f r pend own log n i j new (writing raw m words flushed todo stage)
      (a, e, below, room, whole, owed) =
    (
      a,
      e,
      omega arith,
      room,
      whole,
      λ o h.
          let (inside, rest) = owed o h in
          (inside, IsOwed-mark pend own log r n i j new words (a + o) o (omega arith) rest),
    )

IsSound-new :
    (f r : ℕ) (pend : ℕ → Bool) (own log : ℕ → ℕ) (n i : ℕ) (new : ℕ → ℕ) (raw : ℕ)
    → raw ≡ u32 (8 * r)
    → 0 < n
    → 8 * n ≤ record_size_max
    → 8 * r < 8 * f + 2 ^ 32
    → IsSound f
        (r + n)
        (mark pend r n true)
        (mark own r n i)
        (extend log r n new)
        i
        (waiting raw n new)
IsSound-new f r pend own log n i new raw e pos small dist = (
  r,
  e,
  omega arith,
  pos,
  small,
  dist,
  λ o h. let e : r + o - r ≡ o = omega arith in (ground arith, ground arith, rw e (ground arith)),
)

log_words-extend :
    (log : ℕ → ℕ) (r n : ℕ) (new : ℕ → ℕ) (at m : ℕ)
    → at + m ≤ r
    → log_words (extend log r n new) at m ≡ log_words log at m
log_words-extend log r n new at zero h = refl
log_words-extend log r n new at (suc m) h =
    ground (arith, log_words-extend log r n new (suc at) m (omega arith))

reserve-IsSound :
    (s : System) (inv : Inv s) (i n : ℕ) (words : ℕ → ℕ) (raw : ℕ)
    → raw ≡ u32 (8 * s.reserved)
    → 0 < n
    → 8 * n ≤ record_size_max
    → 8 * s.reserved < 8 * length s.file + 2 ^ 32
    → (j : ℕ)
    → IsSound
        (length s.file)
        (s.reserved + n)
        (mark inv.pend s.reserved n true)
        (mark inv.own s.reserved n i)
        (extend s.log s.reserved n words)
        j
        (update s.pc i (waiting raw n words) j)
reserve-IsSound s inv i n words raw e pos small dist j =
    IsSound-update (length s.file) (s.reserved + n) (mark inv.pend s.reserved n true)
      (mark inv.own s.reserved n i) (extend s.log s.reserved n words) s.pc i (waiting raw n words)
      (λ k.
        IsSound-reserve (length s.file) s.reserved inv.pend inv.own s.log n i k words (s.pc k)
          (inv.sound k))
      (IsSound-new (length s.file) s.reserved inv.pend inv.own s.log n i words raw e pos small dist)
      j

pub allocate-Inv :
    (s : System)
    → Inv s
    → (i n : ℕ) (words : ℕ → ℕ) → 0 < n
    → 8 * n ≤ record_size_max
    → ((o : ℕ) → o < n → words o ≢ 0)
    → 8 * s.reserved < 8 * length s.file + 2 ^ 32
    → Inv (record s {
      counters = (reserve s.counters (8 * n)).1;
      pc = update s.pc i (waiting (reserve s.counters (8 * n)).0 n words);
      log = extend s.log s.reserved n words;
      reserved = s.reserved + n;
    })
unfolding reserve
allocate-Inv s inv i n words pos small filled dist =
    let alloc = inv.alloc_eq in
    let within = inv.within in
    record {
      pend = mark inv.pend s.reserved n true;
      own = mark inv.own s.reserved n i;
      alloc_eq = ground arith;
      flushed_eq = inv.flushed_eq;
      commit_whole = inv.commit_whole;
      commit_word = inv.commit_word;
      signal_whole = inv.signal_whole;
      signal_word = inv.signal_word;
      within = omega arith;
      pend_in = λ q e. ground (arith, inv.pend_in q);
      far = λ q k l. ground (arith, inv.far q k);
      cell = λ q k l. ground (arith, inv.cell q k l);
      nonzero = λ q h. ground (arith, inv.nonzero q, filled (q - s.reserved));
      sound = reserve-IsSound s inv i n words s.counters.alloc inv.alloc_eq pos small dist;
      written =
          inv.written
          ∙ sym (log_words-extend s.log s.reserved n words 0 (length s.file) (omega arith));
    }
