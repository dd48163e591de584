-- ===== src/Host/Consumer/Round.antt =====
-- What the rounds of `consume` put into the file, when every slot is filled from a stream.
use t_espresso.Base.{
  ℕ, zero, suc, ◌+◌, ◌≤◌, ◌<◌, ◌≡◌, refl, sym, ap, ◌∙◌, Bool, false, some, List, [], ◌∷◌, ◌++◌,
  length, u32, arith, Bool-cases, inl, inr, ◌==◌, if◌then◌else◌, subst,
}
use mathlib.Core.List.{append_assoc, append-nil}
use t_espresso.TraceIo.File.{Os, TraceFile}
use t_espresso.TraceIo.File.Laws.{contents}
use t_espresso.Host.Slot.{Slot, consume_round}
use t_espresso.Host.Consumer.Stream.{segment, IsFilled, consume_slot-stream}

-- Positions in the streams, one for each slot.
abbrev pub Positions : Type 0
Positions = ℕ → ℕ

-- The host has flushed the slots from slot `k` on up to these positions.
abbrev pub AreFlushed : ℕ → Positions → List Slot → Type 0
AreFlushed k start [] = Unit {0}
AreFlushed k start (s ∷ slots) = (s.flushed_old ≡ u32 (start k)) × AreFlushed (suc k) start slots

abbrev pub AreFilled : Bool → (ℕ → ℕ → ℕ) → ℕ → Positions → Positions → List Slot → Type 0
AreFilled active streams k start end [] = Unit {0}
AreFilled active streams k start end (s ∷ slots) =
    IsFilled active (streams k) (start k) (end k) s
    × AreFilled active streams (suc k) start end slots

-- Parts of a file, each with the slot that it comes from: all their bytes, and those of one slot.
abbrev pub joined : List (ℕ × List ℕ) → List ℕ
joined [] = []
joined ((k, bytes) ∷ parts) = bytes ++ joined parts

abbrev pub of_slot : ℕ → List (ℕ × List ℕ) → List ℕ
of_slot i [] = []
of_slot i ((k, bytes) ∷ parts) = if k == i then bytes ++ of_slot i parts else of_slot i parts

-- Every part comes from one of `n` slots.
abbrev pub ComeFrom : ℕ → List (ℕ × List ℕ) → Type 0
ComeFrom n [] = Unit {0}
ComeFrom n ((k, bytes) ∷ parts) = (k < n) × ComeFrom n parts

pub ComeFrom-append :
    (n : ℕ) (ps qs : List (ℕ × List ℕ)) → ComeFrom n ps → ComeFrom n qs → ComeFrom n (ps ++ qs)
ComeFrom-append n [] qs h k = k
ComeFrom-append n ((i, bytes) ∷ ps) qs (below, h) k = (below, ComeFrom-append n ps qs h k)

-- What `n` slots from slot `k` on hand over, one after the other.
abbrev pub round_parts : (ℕ → ℕ → ℕ) → ℕ → ℕ → Positions → Positions → List (ℕ × List ℕ)
round_parts streams k zero start end = []
round_parts streams k (suc n) start end =
    (k, segment (streams k) (start k) (end k)) ∷ round_parts streams (suc k) n start end

pub joined-append : (ps qs : List (ℕ × List ℕ)) → joined (ps ++ qs) ≡ joined ps ++ joined qs
joined-append [] qs = refl
joined-append ((k, bytes) ∷ ps) qs =
    ap (λ l. bytes ++ l) (joined-append ps qs) ∙ sym (append_assoc bytes (joined ps) (joined qs))

pub of_slot-append :
    (i : ℕ) (ps qs : List (ℕ × List ℕ)) → of_slot i (ps ++ qs) ≡ of_slot i ps ++ of_slot i qs
of_slot-append i [] qs = refl
of_slot-append i ((k, bytes) ∷ ps) qs = elim (Bool-cases (k == i)) [
  | inl e ↦ rw e (
      ap (λ l. bytes ++ l) (of_slot-append i ps qs)
      ∙ sym (append_assoc bytes (of_slot i ps) (of_slot i qs)))
  | inr e ↦ rw e (of_slot-append i ps qs)
]

of_slot-round_below :
    (streams : ℕ → ℕ → ℕ) (i k n : ℕ) (start end : Positions)
    → i < k
    → of_slot i (round_parts streams k n start end) ≡ []
of_slot-round_below streams i k zero start end h = refl
of_slot-round_below streams i k (suc n) start end h =
    let e : (k == i) ≡ false = ground arith in
    rw e (of_slot-round_below streams i (suc k) n start end (omega arith))

pub of_slot-round_parts :
    (streams : ℕ → ℕ → ℕ) (i k n : ℕ) (start end : Positions)
    → k ≤ i
    → i < k + n
    → of_slot i (round_parts streams k n start end) ≡ segment (streams i) (start i) (end i)
of_slot-round_parts streams i k zero start end h below = absurd (omega arith)
of_slot-round_parts streams i k (suc n) start end h below = elim (Bool-cases (k == i)) [
  | inl e ↦
      let same : k ≡ i = ground arith in
      rw e (
        ap (λ l. segment (streams k) (start k) (end k) ++ l)
          (of_slot-round_below streams i (suc k) n start end (omega arith))
        ∙ append-nil (segment (streams k) (start k) (end k))
        ∙ ap (λ x. segment (streams x) (start x) (end x)) same)
  | inr e ↦ rw e (of_slot-round_parts streams i (suc k) n start end (ground arith) (omega arith))
]

pub round_parts-ComeFrom :
    (streams : ℕ → ℕ → ℕ) (k n m : ℕ) (start end : Positions)
    → k + n ≤ m
    → ComeFrom m (round_parts streams k n start end)
round_parts-ComeFrom streams k zero m start end h = tt
round_parts-ComeFrom streams k (suc n) m start end h =
    (omega arith, round_parts-ComeFrom streams (suc k) n m start end (omega arith))

-- No position moves back.
pub AreFilled-grows :
    (active : Bool) (streams : ℕ → ℕ → ℕ) (k : ℕ) (start end : Positions) (slots : List Slot)
    → AreFilled active streams k start end slots
    → (i : ℕ) → k ≤ i
    → i < k + length slots
    → start i ≤ end i
AreFilled-grows active streams k start end [] filled i h below = absurd (omega arith)
AreFilled-grows active streams k start end (s ∷ slots) (fill, filled) i h below =
    elim (Bool-cases (k == i)) [
      | inl e ↦ let same : k ≡ i = ground arith in subst (λ x. start x ≤ end x) same fill.grows
      | inr e ↦
          AreFilled-grows active streams (suc k) start end slots filled i (ground arith)
            (omega arith)
    ]

-- The device leaves what only the host writes, and the number of slots.
abbrev pub KeepOld : List Slot → List Slot → Type 0
KeepOld [] [] = Unit {0}
KeepOld [] (s' ∷ slots') = ⊥
KeepOld (s ∷ slots) [] = ⊥
KeepOld (s ∷ slots) (s' ∷ slots') = (s'.flushed_old ≡ s.flushed_old) × KeepOld slots slots'

module _ (os : Os) (takes_all : (k n : ℕ) → os.accepts k n ≡ some n) (streams : ℕ → ℕ → ℕ) where
  pub consume_round-streams :
      (k : ℕ) (slots : List Slot) (active : Bool) (t : TraceFile) (start end : Positions)
      → AreFlushed k start slots
      → AreFilled active streams k start end slots
      → (slots' : List Slot) × (t' : TraceFile) × (consume_round os slots active t
          ≡ some (slots', t'))
        × (length slots' ≡ length slots)
        × AreFlushed k end slots'
        × (contents os takes_all t'
            ≡ contents os takes_all t ++ joined (round_parts streams k (length slots) start end))
  unfolding consume_round
  consume_round-streams k [] active t start end flushed filled =
      ([], t, refl, refl, tt, sym (append-nil (contents os takes_all t)))
  consume_round-streams k (s ∷ slots) active t start end (at, flushed) (fill, filled) =
      let (s', t_1, e_1, at', c_1) =
        consume_slot-stream os takes_all (streams k) active (start k) (end k) s t at fill in
      let (slots', t_2, e_2, len, flushed', c_2) =
        consume_round-streams (suc k) slots active t_1 start end flushed filled in
      (
        s' ∷ slots',
        t_2,
        rw (consume_round, e_1, e_2) refl,
        ap suc len,
        (at', flushed'),
        c_2
            ∙ ap (λ l. l ++ joined (round_parts streams (suc k) (length slots) start end)) c_1
            ∙ append_assoc (contents os takes_all t) (segment (streams k) (start k) (end k))
                (joined (round_parts streams (suc k) (length slots) start end)),
      )

pub KeepOld-length :
    (slots slots' : List Slot) → KeepOld slots slots' → length slots' ≡ length slots
KeepOld-length [] [] h = refl
KeepOld-length [] (s' ∷ slots') h = absurd h
KeepOld-length (s ∷ slots) [] h = absurd h
KeepOld-length (s ∷ slots) (s' ∷ slots') (e, h) = ap suc (KeepOld-length slots slots' h)

pub KeepOld-AreFlushed :
    (k : ℕ) (start : Positions) (slots slots' : List Slot)
    → KeepOld slots slots'
    → AreFlushed k start slots
    → AreFlushed k start slots'
KeepOld-AreFlushed k start [] [] h f = tt
KeepOld-AreFlushed k start [] (s' ∷ slots') h f = absurd h
KeepOld-AreFlushed k start (s ∷ slots) [] h f = absurd h
KeepOld-AreFlushed k start (s ∷ slots) (s' ∷ slots') (e, h) (f, fs) =
    (e ∙ f, KeepOld-AreFlushed (suc k) start slots slots' h fs)
