-- ===== src/Dump/Laws.antt =====
-- What a printed line says of its record.
use mathlib.Core.Option.{some-injective}
use mathlib.Core.List.{append_cancel_right}
use t_espresso.Base.{
  ℕ, ◌≡◌, refl, sym, ap, ◌∙◌, ◌==◌, none, some, List, [], ◌++◌, drop, get_elem?, get_or, ascii,
  to_string_inj, Option-cases, inl, inr,
}
use t_espresso.TraceIo.Types.{TraceRecord}
use t_espresso.Dump.{
  op_type_names, trace_type, head_fields, access_fields, inst_fields, line, Names, print_record,
}
use t_espresso.Dump.Fields.{values_shown, tail_inj, padded_inj, coordinate_inj}
use t_espresso.Dump.Words.{
  IsWord, AreWords-append, words_of, words_of-line, op_code, op_lem, head_fields-AreWords,
  access_fields-AreWords, inst_fields-AreWords,
}

abbrev all_fields : Names → List ℕ → TraceRecord → List (List ℕ)
all_fields names op r = head_fields op r ++ (access_fields r ++ inst_fields names r)

printed :
    (names : Names) (r : TraceRecord) (text : List ℕ)
    → print_record names r ≡ some text
    → (op : List ℕ) × (get_elem? op_type_names r.inst_info.inst_type ≡ some op)
      × (line (all_fields names op r) ++ ascii "\n" ≡ text)
unfolding print_record
printed names r text e = elim (Option-cases (get_elem? op_type_names r.inst_info.inst_type)) [
  | inl absent ↦
      let nothing : print_record names r ≡ none = rw (print_record, absent) refl in absurd (cc)
  | inr (op, there) ↦
      let text_of : print_record names r ≡ some (line (all_fields names op r) ++ ascii "\n") =
        rw (print_record, there) refl in
      (
        op,
        there,
        some-injective (line (all_fields names op r) ++ ascii "\n") text (sym text_of ∙ e),
      )
]

all_fields-words :
    (names : Names) (op : List ℕ) (r : TraceRecord)
    → IsWord op
    → IsWord names.kernel_name
    → IsWord names.filename
    → words_of (line (all_fields names op r)) ≡ all_fields names op r
unfolding head_fields
all_fields-words names op r h k l = words_of-line _ _ (
    AreWords-append (head_fields op r) (access_fields r ++ inst_fields names r)
      (head_fields-AreWords op r h)
      (AreWords-append (access_fields r) (inst_fields names r) (access_fields-AreWords r)
        (inst_fields-AreWords names r k l)))

-- Equal lines have equal fields.
same_fields :
    (names names' : Names) (r r' : TraceRecord) (text : List ℕ)
    → IsWord names.kernel_name
    → IsWord names.filename
    → IsWord names'.kernel_name
    → IsWord names'.filename
    → print_record names r ≡ some text
    → print_record names' r' ≡ some text
    → (op : List ℕ) × (op' : List ℕ) × (op_code op ≡ r.inst_info.inst_type)
      × (op_code op' ≡ r'.inst_info.inst_type)
      × (all_fields names op r ≡ all_fields names' op' r')
same_fields names names' r r' text h k h' k' e e' =
    let (op, there, text_of) = printed names r text e in
    let (op', there', text_of') = printed names' r' text e' in
    let (word, code) = op_lem r.inst_info.inst_type op there in
    let (word', code') = op_lem r'.inst_info.inst_type op' there' in
    let same : line (all_fields names op r) ≡ line (all_fields names' op' r') =
      append_cancel_right (line (all_fields names op r)) (line (all_fields names' op' r'))
        (ascii "\n") (text_of ∙ sym text_of') in
    (
      op,
      op',
      code,
      code',
      sym (all_fields-words names op r word h k)
          ∙ ap words_of same
          ∙ all_fields-words names' op' r' word' h' k',
    )

-- What the line of a record says of it.
pub record SameLine (names names' : Names) (r r' : TraceRecord) : Type 0 where
  pub inst_type : r.inst_info.inst_type ≡ r'.inst_info.inst_type
  pub grid : r.grid ≡ r'.grid
  pub x : r.ctaid.x ≡ r'.ctaid.x
  pub y : r.ctaid.y ≡ r'.ctaid.y
  pub z : r.ctaid.z ≡ r'.ctaid.z
  pub warpv : r.warpv ≡ r'.warpv
  pub sm : r.sm ≡ r'.sm
  pub warpp : r.warpp ≡ r'.warpp
  pub clock : r.clock ≡ r'.clock
  pub values : values_shown r ≡ values_shown r'
  pub id : r.inst_info.id ≡ r'.inst_info.id
  pub kernel_name : names.kernel_name ≡ names'.kernel_name
  pub row : r.inst_info.row ≡ r'.inst_info.row
  pub col : r.inst_info.col ≡ r'.inst_info.col
  pub filename : names.filename ≡ names'.filename

-- If no space is in what is printed of the memory at the names of the kernels and of the files, two
-- records with the same line agree in all that the line shows: the type of the instruction, the grid,
-- the CTA, the virtual warp, the multiprocessor, the physical warp, the clock, of a memory access its
-- width and the values of all lanes, the number and the position of the instruction, and what is
-- printed of the two names. Nothing is said of the names themselves, which have no NUL behind them.
pub print_record-SameLine :
    (names names' : Names) (r r' : TraceRecord) (text : List ℕ)
    → IsWord names.kernel_name
    → IsWord names.filename
    → IsWord names'.kernel_name
    → IsWord names'.filename
    → print_record names r ≡ some text
    → print_record names' r' ≡ some text
    → SameLine names names' r r'
unfolding head_fields inst_fields
print_record-SameLine names names' r r' text h k h' k' e e' =
    let (op, op', code, code', same) = same_fields names names' r r' text h k h' k' e e' in
    let at = λ (i : ℕ). ap (λ l. get_or l i []) same in
    let inst_type = sym code ∙ ap op_code (at 1) ∙ code' in
    let (values, inst) =
      tail_inj names names' r r' (ap (λ t. trace_type t == b'M') inst_type)
        (ap (λ l. drop 11 l) same) in
    let inst_at = λ (i : ℕ). ap (λ l. get_or l i []) inst in
    record {
      inst_type = inst_type;
      grid = to_string_inj r.grid r'.grid (at 2);
      x = coordinate_inj r.ctaid.x r'.ctaid.x (at 3);
      y = coordinate_inj r.ctaid.y r'.ctaid.y (at 4);
      z = coordinate_inj r.ctaid.z r'.ctaid.z (at 5);
      warpv = to_string_inj r.warpv r'.warpv (at 6);
      sm = to_string_inj r.sm r'.sm (at 8);
      warpp = to_string_inj r.warpp r'.warpp (at 9);
      clock = padded_inj r.clock r'.clock (at 10);
      values = values;
      id = to_string_inj r.inst_info.id r'.inst_info.id (inst_at 0);
      kernel_name = inst_at 1;
      row = to_string_inj r.inst_info.row r'.inst_info.row (inst_at 2);
      col = to_string_inj r.inst_info.col r'.inst_info.col (inst_at 3);
      filename = inst_at 4;
    }
