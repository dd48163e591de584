-- ===== src/Protocol/Flush.antt =====
-- The step in which the host flushes.
use t_espresso.Base.{
  ℕ, zero, suc, ◌+◌, ◌-◌, ◌*◌, ◌/◌, ◌%◌, ◌^◌, ◌≤◌, ◌<◌, ◌≡◌, ◌≢◌, refl, sym, ap, ap₂, ◌∙◌, subst,
  Bool, true, false, ltb, leb, ◌&&◌, not, if◌then◌else◌, ◌∷◌, ◌++◌, length, length-append, sub32,
  u32, arith, Bool-cases, inl, inr,
}
use t_espresso.Record.{slot_size}
use t_espresso.Protocol.{
  Pc, idle, waiting, writing, System, slot_words, in_words, clear_words, ring_words, flushed_by,
  signal_read,
}
use t_espresso.Protocol.Invariant.{IsSound, Inv, log_words}

-- More is flushed.
IsSound-later :
    (f m r : ℕ) (pend : ℕ → Bool) (own log : ℕ → ℕ) (j : ℕ) (p : Pc)
    → IsSound f r pend own log j p
    → IsSound (f + m) r pend own log j p
IsSound-later f m r pend own log j idle h = tt
IsSound-later f m r pend own log j (waiting raw n words) (a, e, below, pos, small, dist, owed) =
    (a, e, below, pos, small, omega arith, owed)
IsSound-later f m r pend own log j (writing raw n words flushed todo stage)
      (a, e, below, room, whole, owed) =
    (a, e, below, omega arith, whole, owed)

length-ring_words : (ring : ℕ → ℕ) (at n : ℕ) → length (ring_words ring at n) ≡ n
length-ring_words ring at zero = refl
length-ring_words ring at (suc n) = ground (arith, length-ring_words ring (suc at) n)

log_words-add :
    (log : ℕ → ℕ) (at n m : ℕ)
    → log_words log at (n + m) ≡ log_words log at n ++ log_words log (at + n) m
log_words-add log at zero m = ground arith
log_words-add log at (suc n) m =
    let e : suc n + m ≡ suc (n + m) = omega arith in
    let f : at + suc n ≡ suc at + n = omega arith in
    rw (e, f) (ap (λ xs. log at ∷ xs) (log_words-add log (suc at) n m))

log_words-next :
    (log : ℕ → ℕ) (n m : ℕ) → log_words log 0 (n + m) ≡ log_words log 0 n ++ log_words log n m
log_words-next log n m =
    let e : 0 + n ≡ n = omega arith in
    log_words-add log 0 n m ∙ ap (λ k. log_words log 0 n ++ log_words log k m) e

ring_words_lem :
    (ring log : ℕ → ℕ) (at q n : ℕ)
    → ((k : ℕ) → k < n → ring ((at + k) % slot_words) ≡ log (q + k))
    → ring_words ring at n ≡ log_words log q n
ring_words_lem ring log at q zero h = refl
ring_words_lem ring log at q (suc n) h =
    let e : at + 0 ≡ at = omega arith in
    let f : q + 0 ≡ q = omega arith in
    let first : ring (at % slot_words) ≡ log q =
      subst (λ x. ring (x % slot_words) ≡ log q) e
        (subst (λ x. ring ((at + 0) % slot_words) ≡ log x) f (h 0 (omega arith))) in
    let rest = ring_words_lem ring log (suc at) (suc q) n (λ k l.
      let e : suc at + k ≡ at + suc k = omega arith in
      let f : suc q + k ≡ q + suc k = omega arith in rw (e, f) (h (suc k) (omega arith))) in
    ap₂ (λ x xs. x ∷ xs) first rest

-- What the invariant says of a word that the host has seen.
settled :
    (s : System) (inv : Inv s) (k : ℕ)
    → k < slot_words
    → s.ring ((s.counters.flushed / 8 + k) % slot_words) ≢ 0
    → (length s.file + k < s.reserved)
      × (inv.pend (length s.file + k) ≡ false)
      × (s.ring ((s.counters.flushed / 8 + k) % slot_words) ≡ s.log (length s.file + k))
settled s inv k below seen =
    let flushed = inv.flushed_eq in
    let place : (s.counters.flushed / 8 + k) % slot_words ≡ (length s.file + k) % slot_words =
      omega arith in
    let cell = inv.cell (length s.file + k) (omega arith) (omega arith) in
    let seen' : s.ring ((length s.file + k) % slot_words) ≢ 0 =
      subst (λ x. s.ring x ≢ 0) place seen in
    (ground arith, ground arith, ap s.ring place ∙ ground arith)

-- The cells of the ring after a flush of `m` words.
cell_flush :
    (s : System) (inv : Inv s) (m q : ℕ)
    → 0 < m
    → m ≤ slot_words
    → length s.file + m ≤ s.reserved
    → length s.file + m ≤ q
    → q < length s.file + m + slot_words
    → clear_words s.ring (s.counters.flushed / 8) m (q % slot_words)
      ≡ (if ltb q s.reserved && not (inv.pend q) then s.log q else 0)
cell_flush s inv m q pos small fits from to =
    let flushed = inv.flushed_eq in
    let place : s.counters.flushed / 8 % slot_words ≡ length s.file % slot_words = omega arith in
    elim (Bool-cases (ltb q (length s.file + slot_words))) [
      | inl e ↦
          let apart : in_words (s.counters.flushed / 8) m (q % slot_words) ≡ false = ground arith in
          rw apart (inv.cell q (omega arith) (ground arith))
      | inr e ↦
          let hit : in_words (s.counters.flushed / 8) m (q % slot_words) ≡ true = ground arith in
          rw hit (ground (arith, inv.far q))
    ]

pend_later :
    (pend : ℕ → Bool) (f m q : ℕ)
    → ((k : ℕ) → k < m → pend (f + k) ≡ false)
    → pend q ≡ true
    → f ≤ q
    → f + m ≤ q
pend_later pend f m q stored e from = elim (Bool-cases (leb (f + m) q)) [
  | inl h ↦ ground arith
  | inr h ↦
      let at : f + (q - f) ≡ q = omega arith in
      let no = stored (q - f) (ground arith) in absurd (ground (arith, ap pend at))
]

module _ (s : System) (inv : Inv s) (signal : ℕ) where
  -- A flush up to `signal` by `m` words.
  flush_whole :
      (m : ℕ)
      → m ≡ sub32 signal s.counters.flushed / 8
      → 0 < m
      → m ≤ slot_words
      → signal ≡ u32 (8 * (length s.file + m))
      → ((k : ℕ) → k < m → s.ring ((s.counters.flushed / 8 + k) % slot_words) ≢ 0)
      → Inv (flushed_by s signal)
  flush_whole m e pos small sig seen =
      let known = λ (k : ℕ) (h : k < m). settled s inv k (omega arith) (seen k h) in
      let (last, _, _) = known (m - 1) (omega arith) in
      let fits : length s.file + m ≤ s.reserved = omega arith in
      let whole : length (s.file ++ ring_words s.ring (s.counters.flushed / 8) m)
          ≡ length s.file + m =
        length-append s.file (ring_words s.ring (s.counters.flushed / 8) m)
        ∙ ap (λ n. length s.file + n) (length-ring_words s.ring (s.counters.flushed / 8) m) in
      subst
        (λ n. Inv (record s {
          counters = record s.counters { flushed = signal };
          ring = clear_words s.ring (s.counters.flushed / 8) n;
          file = s.file ++ ring_words s.ring (s.counters.flushed / 8) n;
        }))
        e
        (record {
          pend = inv.pend;
          own = inv.own;
          alloc_eq = inv.alloc_eq;
          flushed_eq = rw whole sig;
          commit_whole = inv.commit_whole;
          commit_word = inv.commit_word;
          signal_whole = inv.signal_whole;
          signal_word = inv.signal_word;
          within = rw whole fits;
          pend_in = λ q e. rw whole (
              let (from, to) = inv.pend_in q e in
              (
                pend_later inv.pend (length s.file) m q
                    (λ k h. let (_, stored, _) = known k h in stored) e from,
                to,
              ));
          far = λ q. rw whole (λ k l. inv.far q (omega arith) l);
          cell = λ q. rw whole (λ k l. cell_flush s inv m q pos small fits k l);
          nonzero = inv.nonzero;
          sound = λ j. rw whole (
              IsSound-later (length s.file) m s.reserved inv.pend inv.own s.log j (s.pc j)
                (inv.sound j));
          written = rw whole (
              ap₂ (λ x y. x ++ y) inv.written
                (ring_words_lem s.ring s.log (s.counters.flushed / 8) (length s.file) m
                  (λ k h. let (_, _, is) = known k h in is))
              ∙ sym (log_words-next s.log (length s.file) m));
        })

pub flush-Inv :
    (s : System)
    → Inv s
    → (is_kernel_active : Bool)
    → leb slot_size (sub32 (sub32 (signal_read s.counters is_kernel_active) s.counters.flushed) 1)
      ≡ false
    → ((k : ℕ)
        → k < sub32 (signal_read s.counters is_kernel_active) s.counters.flushed / 8
        → s.ring ((s.counters.flushed / 8 + k) % slot_words) ≢ 0)
    → Inv (flushed_by s (signal_read s.counters is_kernel_active))
flush-Inv s inv is_kernel_active ready seen =
    let signal = signal_read s.counters is_kernel_active in
    let flushed = inv.flushed_eq in
    let whole : signal % 8 ≡ 0 = ground (arith, inv.signal_whole, inv.commit_whole) in
    let word : signal < 2 ^ 32 = ground (arith, inv.signal_word, inv.commit_word) in
    let m = sub32 signal s.counters.flushed / 8 in
    flush_whole s inv signal m refl (ground arith) (ground arith) (ground arith) seen
