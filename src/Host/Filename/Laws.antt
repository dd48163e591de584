-- ===== src/Host/Filename/Laws.antt =====
-- When two devices write to the same file.
use mathlib.Core.List.{append_cancel_left, append_cancel_right}
use t_espresso.Base.{
  to_string, to_string_inj, ℕ, ◌<◌, ◌≡◌, refl, sym, ap, ◌∙◌, true, false, Option, List, [], ◌∷◌,
  ◌++◌, length, drop, starts_with, contains_text, ◌↔◌, ◌⊎◌, inl, inr, Bool-cases, arith,
}
use t_espresso.Host.Filename.{replace_first, device_part, name_pattern, trace_file_name}

-- A text that contains the part has it between two texts that the replacement leaves.
replaced :
    (text part : List ℕ)
    → contains_text text part ≡ true
    → 0 < length part
    → (front : List ℕ) × (back : List ℕ) × ((by : List ℕ)
        → replace_first text part by ≡ front ++ (by ++ back))
unfolding replace_first contains_text starts_with
replaced [] [] h some_part = absurd (omega arith)
replaced [] (p ∷ part) h some_part = absurd (cc)
replaced (c ∷ text) part h some_part = elim (Bool-cases (starts_with (c ∷ text) part)) [
  | inl e ↦ ([], drop (length part) (c ∷ text), λ by. rw (replace_first, e) refl)
  | inr e ↦
      let (front, back, f) = replaced text part (ground arith) some_part in
      (c ∷ front, back, λ by. rw (replace_first, e) (ap (λ l. c ∷ l) (f by)))
]

not_replaced :
    (text part by : List ℕ) → contains_text text part ≡ false → replace_first text part by ≡ text
unfolding replace_first contains_text starts_with
not_replaced [] part by h = refl
not_replaced (c ∷ text) part by h =
    let differs : starts_with (c ∷ text) part ≡ false = ground arith in
    rw (replace_first, differs) (ap (λ l. c ∷ l) (not_replaced text part by (ground arith)))

-- Two devices write to the same file exactly when they are one device, or when the pattern of
-- the name does not contain %d.
pub trace_file_name_iff :
    (pattern_env exename : Option (List ℕ)) (m n : ℕ)
    → (trace_file_name pattern_env exename m ≡ trace_file_name pattern_env exename n)
      ↔ ((m ≡ n) ⊎ (contains_text (name_pattern pattern_env exename) device_part ≡ false))
unfolding trace_file_name
trace_file_name_iff pattern_env exename m n =
    let text = name_pattern pattern_env exename in
    (
      λ h. elim (Bool-cases (contains_text text device_part)) [
        | inl e ↦
            let (front, back, f) = replaced text device_part e (omega arith) in
            inl (
              to_string_inj m n (
                append_cancel_right (to_string m) (to_string n) back (
                  append_cancel_left front (to_string m ++ back) (to_string n ++ back)
                    (sym (f (to_string m)) ∙ h ∙ f (to_string n)))))
        | inr e ↦ inr e
      ],
      λ h. elim h [
        | inl same ↦ ap (λ d. replace_first text device_part (to_string d)) same
        | inr e ↦
            not_replaced text device_part (to_string m) e
            ∙ sym (not_replaced text device_part (to_string n) e)
      ],
    )
