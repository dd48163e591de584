-- ===== src/Dump/Fields.antt =====
-- Values from their fields.
use mathlib.Core.List.{append_cancel_right}
use t_espresso.Base.{
  ℕ, zero, suc, ◌-◌, ◌/◌, ◌%◌, ◌≡◌, refl, sym, ap, ap₂, ◌∙◌, true, false, ltb, ◌==◌, if◌then◌else◌,
  List, [], ◌∷◌, ◌++◌, drop, take, take-append_left, drop-append_left, get_or, replicate, length,
  ascii, digit, digits, to_string, to_string_inj, value, value-hex, value-to_string, subst,
  Bool-cases, inl, inr, arith,
}
use t_espresso.TraceIo.Types.{TraceRecord}
use t_espresso.Dump.{
  trace_type, hexadecimal, padded, coordinate, data_fields, access_fields, inst_fields, Names,
}

-- The values that the line of a record shows: the width of its access and the values of its lanes.
abbrev pub lane_values : ℕ → ℕ → List ℕ → List ℕ
lane_values zero i thread_data = []
lane_values (suc n) i thread_data = get_or thread_data i 0 ∷ lane_values n (suc i) thread_data

abbrev pub values_shown : TraceRecord → List ℕ
values_shown r =
    if trace_type r.inst_info.inst_type == b'M'
    then get_or r.inst_info.meta 0 0 ∷ lane_values 32 0 r.thread_data
    else []

-- No byte is below that of the digit 0.
abbrev AreHigh : List ℕ → Type 0
AreHigh [] = Unit {0}
AreHigh (c ∷ cs) = (ltb c b'0' ≡ false) × AreHigh cs

AreHigh-append : (xs ys : List ℕ) → AreHigh xs → AreHigh ys → AreHigh (xs ++ ys)
AreHigh-append [] ys h k = k
AreHigh-append (x ∷ xs) ys (e, h) k = (e, AreHigh-append xs ys h k)

digits-AreHigh : (base fuel n : ℕ) → AreHigh (digits base fuel n)
unfolding digits
digits-AreHigh base zero n = tt
digits-AreHigh base (suc fuel) n = elim (Bool-cases (ltb n base)) [
  | inl e ↦ rw (digits, e) (ground arith, tt)
  | inr e ↦
      rw (digits, e)
        (AreHigh-append (digits base fuel (n / base)) (digit (n % base) ∷ [])
          (digits-AreHigh base fuel (n / base)) (ground arith, tt))
]

abbrev lane_text : ℕ → List ℕ
lane_text x = if x == 0 then ascii "(inactive)" else hexadecimal x

inactive_ne : (x : ℕ) → ascii "(inactive)" ≡ hexadecimal x → ⊥
unfolding hexadecimal
inactive_ne x e =
    let high : AreHigh (ascii "(inactive)") = subst AreHigh (sym e) (digits-AreHigh 16 (suc x) x) in
    let first : true ≡ false = high.0 in absurd (cc)

inactive_text : (x : ℕ) → (x == 0) ≡ true → lane_text x ≡ ascii "(inactive)"
inactive_text x e = rw e refl

active_text : (x : ℕ) → (x == 0) ≡ false → lane_text x ≡ hexadecimal x
active_text x e = rw e refl

lane_text_inj : (x y : ℕ) → lane_text x ≡ lane_text y → x ≡ y
unfolding hexadecimal
lane_text_inj x y e = elim (Bool-cases (x == 0)) [
  | inl x_0 ↦ elim (Bool-cases (y == 0)) [
    | inl y_0 ↦ ground arith
    | inr y_some ↦ absurd (inactive_ne y (sym (inactive_text x x_0) ∙ e ∙ active_text y y_some))
  ]
  | inr x_some ↦ elim (Bool-cases (y == 0)) [
    | inl y_0 ↦ absurd (inactive_ne x (sym (inactive_text y y_0) ∙ sym e ∙ active_text x x_some))
    | inr y_some ↦
        sym (value-hex x)
        ∙ ap (value 16 0) (sym (active_text x x_some) ∙ e ∙ active_text y y_some)
        ∙ value-hex y
  ]
]

data_fields_inj :
    (n i : ℕ) (ts ts' : List ℕ)
    → data_fields n i ts ≡ data_fields n i ts'
    → lane_values n i ts ≡ lane_values n i ts'
unfolding data_fields
data_fields_inj zero i ts ts' e = refl
data_fields_inj (suc n) i ts ts' e =
    ap₂ (λ x xs. x ∷ xs)
      (lane_text_inj (get_or ts i 0) (get_or ts' i 0) (ap (λ l. get_or l 0 []) e))
      (data_fields_inj n (suc i) ts ts' (ap (λ l. drop 1 l) e))

pub padded_inj : (m n : ℕ) → padded m ≡ padded n → m ≡ n
unfolding padded
padded_inj m n e = sym (value-padded m) ∙ ap (value 10 0) e ∙ value-padded n
  where
    value-zeros : (k : ℕ) (cs : List ℕ) → value 10 0 (replicate k b'0' ++ cs) ≡ value 10 0 cs
    value-zeros zero cs = refl
    value-zeros (suc k) cs = value-zeros k cs

    value-padded : (n : ℕ) → value 10 0 (padded n) ≡ n
    value-padded n = value-zeros (10 - length (to_string n)) (to_string n) ∙ value-to_string n

pub coordinate_inj : (m n : ℕ) → coordinate m ≡ coordinate n → m ≡ n
unfolding coordinate
coordinate_inj m n e =
    to_string_inj m n (append_cancel_right (to_string m) (to_string n) (ascii "/0") e)

length-data_fields : (n i : ℕ) (ts : List ℕ) → length (data_fields n i ts) ≡ n
unfolding data_fields
length-data_fields zero i ts = refl
length-data_fields (suc n) i ts = ap suc (length-data_fields n (suc i) ts)

-- Fields of one length in front of others.
split_fields :
    (n : ℕ) (xs xs' ys ys' : List (List ℕ))
    → length xs ≡ n
    → length xs' ≡ n
    → xs ++ ys ≡ xs' ++ ys'
    → (xs ≡ xs') × (ys ≡ ys')
split_fields n xs xs' ys ys' h h' e = (
  sym (take-append_left n xs ys h) ∙ ap (take n) e ∙ take-append_left n xs' ys' h',
  sym (drop-append_left n xs ys h) ∙ ap (drop n) e ∙ drop-append_left n xs' ys' h',
)

abbrev shown : TraceRecord → List (List ℕ)
shown r = to_string (get_or r.inst_info.meta 0 0) ∷ data_fields 32 0 r.thread_data

access_fields-lem :
    (r : TraceRecord)
    → access_fields r ≡ (if trace_type r.inst_info.inst_type == b'M' then shown r else [])
unfolding access_fields
access_fields-lem r = refl

-- The fields behind the first ones, of two records of one type.
pub tail_inj :
    (names names' : Names) (r r' : TraceRecord)
    → (trace_type r.inst_info.inst_type == b'M') ≡ (trace_type r'.inst_info.inst_type == b'M')
    → access_fields r ++ inst_fields names r ≡ access_fields r' ++ inst_fields names' r'
    → (values_shown r ≡ values_shown r') × (inst_fields names r ≡ inst_fields names' r')
tail_inj names names' r r' same e = elim (Bool-cases (trace_type r.inst_info.inst_type == b'M')) [
  | inl m ↦
      let m' = sym same ∙ m in
      let at : access_fields r ≡ shown r = access_fields-lem r ∙ rw m refl in
      let at' : access_fields r' ≡ shown r' = access_fields-lem r' ∙ rw m' refl in
      let (access, inst) =
        split_fields 33 (shown r) (shown r') (inst_fields names r) (inst_fields names' r')
          (ap suc (length-data_fields 32 0 r.thread_data))
          (ap suc (length-data_fields 32 0 r'.thread_data))
          (ap (λ l. l ++ inst_fields names r) (sym at)
            ∙ e
            ∙ ap (λ l. l ++ inst_fields names' r') at') in
      (
        rw (m, m')
            (ap₂ (λ x xs. x ∷ xs)
              (to_string_inj (get_or r.inst_info.meta 0 0) (get_or r'.inst_info.meta 0 0)
                (ap (λ l. get_or l 0 []) access))
              (data_fields_inj 32 0 r.thread_data r'.thread_data (ap (λ l. drop 1 l) access))),
        inst,
      )
  | inr o ↦
      let o' = sym same ∙ o in
      let at : access_fields r ≡ [] = access_fields-lem r ∙ rw o refl in
      let at' : access_fields r' ≡ [] = access_fields-lem r' ∙ rw o' refl in
      (
        rw (o, o') refl,
        ap (λ l. l ++ inst_fields names r) (sym at) ∙ e ∙ ap (λ l. l ++ inst_fields names' r') at',
      )
]
