-- ===== src/Dump/Words.antt =====
-- The words of a printed line.
use mathlib.Core.Option.{some-injective}
use t_espresso.Base.{
  ℕ, zero, suc, ◌-◌, ◌/◌, ◌%◌, ◌≡◌, refl, sym, ap, ◌∙◌, false, ltb, ◌==◌, if◌then◌else◌, some, List,
  [], ◌∷◌, ◌++◌, get_elem?, get_or, replicate, length, ascii, digit, digits, to_string, subst,
  Bool-cases, inl, inr, arith,
}
use t_espresso.TraceIo.Types.{TraceRecord}
use t_espresso.Dump.{
  op_type_names, trace_type, hexadecimal, padded, coordinate, head_fields, data_fields,
  access_fields, inst_fields, Names, spaced, line,
}

-- A text without a space.
abbrev pub IsWord : List ℕ → Type 0
IsWord [] = Unit {0}
IsWord (c ∷ cs) = ((c == b' ') ≡ false) × IsWord cs

abbrev pub AreWords : List (List ℕ) → Type 0
AreWords [] = Unit {0}
AreWords (w ∷ ws) = IsWord w × AreWords ws

abbrev push : ℕ → List (List ℕ) → List (List ℕ)
push c [] = (c ∷ []) ∷ []
push c (w ∷ ws) = (c ∷ w) ∷ ws

-- What stands between the spaces of a text.
abbrev pub words_of : List ℕ → List (List ℕ)
words_of [] = [] ∷ []
words_of (c ∷ cs) = if c == b' ' then [] ∷ words_of cs else push c (words_of cs)

words_of-from :
    (field : List ℕ) (fields : List (List ℕ))
    → IsWord field
    → AreWords fields
    → words_of (field ++ spaced fields) ≡ field ∷ fields
unfolding spaced
words_of-from [] [] h hs = refl
words_of-from [] (next ∷ fields) h (h', hs) = ap (λ l. [] ∷ l) (words_of-from next fields h' hs)
words_of-from (c ∷ field) fields (no_space, h) hs =
    rw (no_space, words_of-from field fields h hs) refl

-- The words of what is printed of fields without spaces are the fields.
pub words_of-line :
    (field : List ℕ) (fields : List (List ℕ))
    → AreWords (field ∷ fields)
    → words_of (line (field ∷ fields)) ≡ field ∷ fields
unfolding line
words_of-line field fields (h, hs) = words_of-from field fields h hs

pub IsWord-append : (xs ys : List ℕ) → IsWord xs → IsWord ys → IsWord (xs ++ ys)
IsWord-append [] ys h k = k
IsWord-append (x ∷ xs) ys (e, h) k = (e, IsWord-append xs ys h k)

pub AreWords-append : (xs ys : List (List ℕ)) → AreWords xs → AreWords ys → AreWords (xs ++ ys)
AreWords-append [] ys h k = k
AreWords-append (x ∷ xs) ys (e, h) k = (e, AreWords-append xs ys h k)

digit-IsWord : (d : ℕ) → IsWord (digit d ∷ [])
digit-IsWord d = (ground arith, tt)

digits-IsWord : (base fuel n : ℕ) → IsWord (digits base fuel n)
unfolding digits
digits-IsWord base zero n = tt
digits-IsWord base (suc fuel) n = elim (Bool-cases (ltb n base)) [
  | inl e ↦ rw (digits, e) (digit-IsWord n)
  | inr e ↦
      rw (digits, e)
        (IsWord-append (digits base fuel (n / base)) (digit (n % base) ∷ [])
          (digits-IsWord base fuel (n / base)) (digit-IsWord (n % base)))
]

to_string-IsWord : (n : ℕ) → IsWord (to_string n)
unfolding to_string
to_string-IsWord n = digits-IsWord 10 (suc n) n

zeros-IsWord : (n : ℕ) → IsWord (replicate n b'0')
zeros-IsWord zero = tt
zeros-IsWord (suc n) = (refl, zeros-IsWord n)

-- The place of an operation among the names.
abbrev pub op_code : List ℕ → ℕ
op_code [] = 6
op_code (c ∷ cs) =
    if c == b'L'
    then 0
    else if c == b'S'
    then 1
    else if c == b'A'
    then 2
    else if c == b'E'
    then 3
    else if c == b'R'
    then 4
    else 5

op_from :
    (t : ℕ) (name op : List ℕ)
    → name ≡ op
    → IsWord name
    → op_code name ≡ t
    → IsWord op × (op_code op ≡ t)
op_from t name op e h code = (subst IsWord e h, ap op_code (sym e) ∙ code)

pub op_lem :
    (t : ℕ) (op : List ℕ) → get_elem? op_type_names t ≡ some op → IsWord op × (op_code op ≡ t)
op_lem zero op e =
    op_from 0 (ascii "LD") op (some-injective (ascii "LD") op e) (refl, (refl, tt)) refl
op_lem (suc zero) op e =
    op_from 1 (ascii "ST") op (some-injective (ascii "ST") op e) (refl, (refl, tt)) refl
op_lem (suc (suc zero)) op e =
    op_from 2 (ascii "AT") op (some-injective (ascii "AT") op e) (refl, (refl, tt)) refl
op_lem (suc (suc (suc zero))) op e =
    op_from 3 (ascii "EX") op (some-injective (ascii "EX") op e) (refl, (refl, tt)) refl
op_lem (suc (suc (suc (suc zero)))) op e =
    op_from 4 (ascii "RT") op (some-injective (ascii "RT") op e) (refl, (refl, tt)) refl
op_lem (suc (suc (suc (suc (suc zero))))) op e =
    op_from 5 (ascii "??") op (some-injective (ascii "??") op e) (refl, (refl, tt)) refl
op_lem (suc (suc (suc (suc (suc (suc t)))))) op e = absurd (cc)

inactive-IsWord : IsWord (ascii "(inactive)")
inactive-IsWord = (refl, (refl, (refl, (refl, (refl, (refl, (refl, (refl, (refl, (refl, tt))))))))))

pub data_fields-AreWords : (n i : ℕ) (thread_data : List ℕ) → AreWords (data_fields n i thread_data)
unfolding data_fields hexadecimal
data_fields-AreWords zero i thread_data = tt
data_fields-AreWords (suc n) i thread_data = (
  elim (Bool-cases (get_or thread_data i 0 == 0)) [
    | inl e ↦ rw e inactive-IsWord
    | inr e ↦ rw e (digits-IsWord 16 (suc (get_or thread_data i 0)) (get_or thread_data i 0))
  ],
  data_fields-AreWords n (suc i) thread_data,
)

coordinate-IsWord : (n : ℕ) → IsWord (coordinate n)
unfolding coordinate
coordinate-IsWord n =
    IsWord-append (to_string n) (ascii "/0") (to_string-IsWord n) (refl, (refl, tt))

type-IsWord : (t : ℕ) → IsWord (trace_type t ∷ [])
unfolding trace_type
type-IsWord t = (ground arith, tt)

padded-IsWord : (n : ℕ) → IsWord (padded n)
unfolding padded
padded-IsWord n =
    let zeros = 10 - length (to_string n) in
    IsWord-append (replicate zeros b'0') (to_string n) (zeros-IsWord zeros) (to_string-IsWord n)

pub head_fields-AreWords : (op : List ℕ) (r : TraceRecord) → IsWord op → AreWords (head_fields op r)
unfolding head_fields
head_fields-AreWords op r h =
    let tail : AreWords (to_string 0 ∷ to_string r.sm ∷ to_string r.warpp ∷ padded r.clock ∷ []) = (
      to_string-IsWord 0,
      (to_string-IsWord r.sm, (to_string-IsWord r.warpp, (padded-IsWord r.clock, tt))),
    ) in
    let block : AreWords (
        coordinate r.ctaid.x
        ∷ coordinate r.ctaid.y
        ∷ coordinate r.ctaid.z
        ∷ to_string r.warpv
        ∷ to_string 0
        ∷ to_string r.sm
        ∷ to_string r.warpp
        ∷ padded r.clock
        ∷ []) =
      (
        coordinate-IsWord r.ctaid.x,
        (
          coordinate-IsWord r.ctaid.y,
          (coordinate-IsWord r.ctaid.z, (to_string-IsWord r.warpv, tail)),
        ),
      ) in
    (type-IsWord r.inst_info.inst_type, (h, (to_string-IsWord r.grid, block)))

pub access_fields-AreWords : (r : TraceRecord) → AreWords (access_fields r)
unfolding access_fields
access_fields-AreWords r = elim (Bool-cases (trace_type r.inst_info.inst_type == b'M')) [
  | inl e ↦
      rw (access_fields, e)
        (to_string-IsWord (get_or r.inst_info.meta 0 0), data_fields-AreWords 32 0 r.thread_data)
  | inr e ↦ rw (access_fields, e) tt
]

pub inst_fields-AreWords :
    (names : Names) (r : TraceRecord)
    → IsWord names.kernel_name
    → IsWord names.filename
    → AreWords (inst_fields names r)
unfolding inst_fields
inst_fields-AreWords names r h k = (
  to_string-IsWord r.inst_info.id,
  (h, (to_string-IsWord r.inst_info.row, (to_string-IsWord r.inst_info.col, (k, tt)))),
)
