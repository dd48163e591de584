-- ===== src/Protocol/Invariant.antt =====
-- What holds of a slot in every state that is reached.
use t_espresso.Base.{
  ℕ, zero, suc, ◌+◌, ◌*◌, ◌%◌, ◌^◌, ◌≤◌, ◌<◌, ◌≡◌, ◌≢◌, refl, Bool, true, false, ltb, ◌&&◌, not,
  if◌then◌else◌, List, [], ◌∷◌, length, u32, arith,
}
use t_espresso.Record.{record_size_max}
use t_espresso.Protocol.{
  Pc, idle, waiting, writing, Stage, filling, counted, done, System, slot_words, initial,
}

-- Word `q` of the log is still to be stored by record `i`, as word `o` of it.
abbrev pub IsOwed : (ℕ → Bool) → (ℕ → ℕ) → (ℕ → ℕ) → ℕ → (ℕ → ℕ) → ℕ → ℕ → Type 0
IsOwed pend own log i words q o = (pend q ≡ true) × (own q ≡ i) × (log q ≡ words o)

abbrev pub IsWhole : Stage → Type 0
IsWhole filling = Unit {0}
IsWhole (counted commit_raw) = (commit_raw % 8 ≡ 0) × (commit_raw < 2 ^ 32)
IsWhole done = Unit {0}

-- What holds of record `i`: `done` words are flushed and `reserved` allocated.
abbrev pub IsSound : ℕ → ℕ → (ℕ → Bool) → (ℕ → ℕ) → (ℕ → ℕ) → ℕ → Pc → Type 0
IsSound flushed_words reserved pend own log i idle = Unit {0}
IsSound flushed_words reserved pend own log i (waiting alloc_raw n words) =
    (a : ℕ) × (alloc_raw ≡ u32 (8 * a))
    × (a + n ≤ reserved)
    × (0 < n)
    × (8 * n ≤ record_size_max)
    × (8 * a < 8 * flushed_words + 2 ^ 32)
    × ((o : ℕ) → o < n → IsOwed pend own log i words (a + o) o)
IsSound flushed_words reserved pend own log i (writing alloc_raw n words flushed_cur todo stage) =
    (a : ℕ) × (alloc_raw ≡ u32 (8 * a))
    × (a + n ≤ reserved)
    × (a + n ≤ flushed_words + slot_words)
    × IsWhole stage
    × ((o : ℕ) → todo o ≡ true → (o < n) × IsOwed pend own log i words (a + o) o)

-- The `n` words of the log from word `at` on.
abbrev pub log_words : (ℕ → ℕ) → ℕ → ℕ → List ℕ
log_words log at zero = []
log_words log at (suc n) = log at ∷ log_words log (suc at) n

-- `pend` tells which words of the log are not stored yet, and `own` which record they are of.
pub record Inv (s : System) : Type 0 where
  pub pend : ℕ → Bool
  pub own : ℕ → ℕ
  pub alloc_eq : s.counters.alloc ≡ u32 (8 * s.reserved)
  pub flushed_eq : s.counters.flushed ≡ u32 (8 * length s.file)
  pub commit_whole : s.counters.commit % 8 ≡ 0
  pub commit_word : s.counters.commit < 2 ^ 32
  pub signal_whole : s.counters.signal % 8 ≡ 0
  pub signal_word : s.counters.signal < 2 ^ 32
  pub within : length s.file ≤ s.reserved
  pub pend_in : (q : ℕ) → pend q ≡ true → (length s.file ≤ q) × (q < s.reserved)
  pub far : (q : ℕ) → length s.file + slot_words ≤ q → q < s.reserved → pend q ≡ true
  pub cell :
      (q : ℕ)
      → length s.file ≤ q
      → q < length s.file + slot_words
      → s.ring (q % slot_words) ≡ (if ltb q s.reserved && not (pend q) then s.log q else 0)
  pub nonzero : (q : ℕ) → q < s.reserved → s.log q ≢ 0
  pub sound : (i : ℕ) → IsSound (length s.file) s.reserved pend own s.log i (s.pc i)
  pub written : s.file ≡ log_words s.log 0 (length s.file)

pub initial-Inv : Inv initial
initial-Inv = record {
  pend = λ q. false;
  own = λ q. 0;
  alloc_eq = refl;
  flushed_eq = refl;
  commit_whole = refl;
  commit_word = omega arith;
  signal_whole = refl;
  signal_word = omega arith;
  within = omega arith;
  pend_in = λ q e. absurd (ground arith);
  far = λ q h k. absurd (omega arith);
  cell = λ q h k. ground arith;
  nonzero = λ q h. absurd (omega arith);
  sound = λ i. tt;
  written = refl;
}
