-- ===== src/Host/Consumer/Moved.antt =====
-- What a pass of `consume` over the slots does to a consumer, and several in a row.
use mathlib.Core.List.{append_assoc}
use t_espresso.Base.{
  ℕ, ◌≤◌, ◌<◌, ◌≡◌, refl, sym, ap, ap₂, ◌∙◌, Bool, true, false, some, List, [], ◌∷◌, ◌++◌, length,
  arith, subst,
}
use t_espresso.TraceIo.File.{Os, TraceFile}
use t_espresso.TraceIo.File.Laws.{contents}
use t_espresso.Host.Slot.{Slot}
use t_espresso.Host.Consumer.{Consumer, Change, consume_slots}
use t_espresso.Host.Consumer.Stream.{segment, segment-append}
use t_espresso.Host.Consumer.Round.{
  ComeFrom, ComeFrom-append, round_parts-ComeFrom, Positions, AreFlushed, AreFilled,
  AreFilled-grows, KeepOld, KeepOld-length, KeepOld-AreFlushed, joined, joined-append, of_slot,
  of_slot-append, round_parts, of_slot-round_parts, consume_round-streams,
}

-- What a device does before each round, and up to where the slots are filled then.
abbrev pub Plan : Type 0
Plan = List (Change × Positions)

abbrev pub changes_of : Plan → List Change
changes_of [] = []
changes_of ((change, end) ∷ plan) = change ∷ changes_of plan

-- The device fills the slots of the consumer from the streams between the positions.
abbrev pub Fills : Bool → (ℕ → ℕ → ℕ) → Positions → Positions → Change → Consumer → Type 0
Fills active streams start end change c =
    KeepOld c.traceinfo (change c.traceinfo)
    × AreFilled active streams 0 start end (change c.traceinfo)

-- It does so before every round of the plan, of what the rounds before have left, and before the
-- round that `consume` ends with.
abbrev pub Delivers : Os → (ℕ → ℕ → ℕ) → Plan → Change → Positions → Positions → Consumer → Type 0
Delivers os streams [] last start end c = Fills false streams start end last c
Delivers os streams ((change, mid) ∷ plan) last start end c =
    Fills true streams start mid change c
    × ((c' : Consumer)
        → consume_slots os true change c ≡ some c'
        → Delivers os streams plan last mid end c')

-- The file has grown by the parts, which are of each slot the bytes of its stream between the
-- positions, in their order, and the host has flushed the slots up to the end.
pub record HasMoved (os : Os) (takes_all : (k n : ℕ) → os.accepts k n ≡ some n)
    (streams : ℕ → ℕ → ℕ) (start end : Positions) (parts : List (ℕ × List ℕ)) (slots : List Slot)
    (t : TraceFile) (slots' : List Slot) (t' : TraceFile) : Type 0 where
  pub same_length : length slots' ≡ length slots
  pub flushed : AreFlushed 0 end slots'
  pub written : contents os takes_all t' ≡ contents os takes_all t ++ joined parts
  pub labelled : ComeFrom (length slots) parts
  pub grows : (i : ℕ) → i < length slots → start i ≤ end i
  pub of_each : (i : ℕ) → i < length slots → of_slot i parts ≡ segment (streams i) (start i) (end i)

module _ (os : Os) (takes_all : (k n : ℕ) → os.accepts k n ≡ some n) (streams : ℕ → ℕ → ℕ) where
  pub consume_slots-HasMoved :
      (active : Bool) (change : Change) (start end : Positions) (c : Consumer)
      → AreFlushed 0 start c.traceinfo
      → Fills active streams start end change c
      → (c' : Consumer) × (consume_slots os active change c ≡ some c')
        × HasMoved os takes_all streams start end
            (round_parts streams 0 (length c.traceinfo) start end)
            c.traceinfo
            c.tracefile
            c'.traceinfo
            c'.tracefile
  unfolding consume_slots
  consume_slots-HasMoved active change start end c flushed (keeps, filled) =
      let len = KeepOld-length c.traceinfo (change c.traceinfo) keeps in
      let (slots', t', e, len', flushed', written) =
        consume_round-streams os takes_all streams 0 (change c.traceinfo) active c.tracefile start
          end (KeepOld-AreFlushed 0 start c.traceinfo (change c.traceinfo) keeps flushed) filled in
      (
        record c { traceinfo = slots'; tracefile = t' },
        rw (consume_slots, e) refl,
        record {
          same_length = len' ∙ len;
          flushed = flushed';
          written =
              written
              ∙ ap
                  (λ n.
                    contents os takes_all c.tracefile ++ joined (round_parts streams 0 n start end))
                  len;
          labelled =
              round_parts-ComeFrom streams 0 (length c.traceinfo) (length c.traceinfo) start end
                (omega arith);
          grows = λ i below.
              AreFilled-grows active streams 0 start end (change c.traceinfo) filled i (omega arith)
                (omega (arith, len));
          of_each = λ i below.
              of_slot-round_parts streams i 0 (length c.traceinfo) start end (omega arith)
                (omega arith);
        },
      )

  pub HasMoved-trans :
      (start mid end : Positions) (ps qs : List (ℕ × List ℕ)) (slots slots' slots'' : List Slot)
      (t t' t'' : TraceFile)
      → HasMoved os takes_all streams start mid ps slots t slots' t'
      → HasMoved os takes_all streams mid end qs slots' t' slots'' t''
      → HasMoved os takes_all streams start end (ps ++ qs) slots t slots'' t''
  HasMoved-trans start mid end ps qs slots slots' slots'' t t' t'' m m' =
      let inside : (i : ℕ) → i < length slots → i < length slots' =
        λ i below. subst (λ n. i < n) (sym m.same_length) below in
      record {
        same_length = m'.same_length ∙ m.same_length;
        flushed = m'.flushed;
        written =
            m'.written
            ∙ ap (λ l. l ++ joined qs) m.written
            ∙ append_assoc (contents os takes_all t) (joined ps) (joined qs)
            ∙ ap (λ l. contents os takes_all t ++ l) (sym (joined-append ps qs));
        labelled =
            ComeFrom-append (length slots) ps qs m.labelled
              (subst (λ n. ComeFrom n qs) m.same_length m'.labelled);
        grows = λ i below. omega (arith, m.grows i below, m'.grows i (inside i below));
        of_each = λ i below.
            of_slot-append i ps qs
            ∙ ap₂ (λ x y. x ++ y) (m.of_each i below) (m'.of_each i (inside i below))
            ∙ segment-append (streams i) (start i) (mid i) (end i) (m.grows i below)
                (m'.grows i (inside i below));
      }
