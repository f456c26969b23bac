-- ===== src/Training/Csv/Agrees.antt =====
-- How the table of courses changes while the rows of a plan are applied.
use qms_bakery.Prelude.{
  ℕ, ◌≡◌, ◌⊎◌, refl, ap, ◌∙◌, inl, inr, Bool, true, false, not, ◌||◌, Option, none, some, List, [],
  ◌∷◌, ◌++◌, ◌==◌, if◌then◌else◌, is_some, arith, Bool-cases,
}
use qms_bakery.Prelude.Text.{Text, text_eq, is_blank}
use qms_bakery.Models.Training.{TrainingCourse}
use qms_bakery.World.{World}
use qms_bakery.Training.Csv.{Row, Float}
use qms_bakery.Training.Csv.Courses.{
  first_line, code_of, seen_after, form_errors, row_errors, duplicate_errors, set_course,
}
use qms_bakery.Training.Csv.Entered.{has_code, has_id, any-change, any_last}

-- What applying a row leaves of the table of courses: no code but the row's own comes or goes, and no row
-- goes.
abbrev pub Steps : Text → World → World → Type 0
Steps code w w' =
    ((k : Text) → (text_eq code k ≡ true) ⊎ (has_code k w'.courses ≡ has_code k w.courses))
    × ((id : ℕ) → (not (has_id id w.courses) || has_id id w'.courses) ≡ true)

keeps_id : (a b : Bool) → b ≡ a → (not a || b) ≡ true
keeps_id a b h = ground arith

pub set_course-Steps :
    (code : Text) (id : ℕ) (f : TrainingCourse → TrainingCourse) (w w' : World)
    → ((d : TrainingCourse) → (f d).code ≡ d.code)
    → ((d : TrainingCourse) → (f d).id ≡ d.id)
    → w'.courses ≡ (set_course id f w).courses
    → Steps code w w'
set_course-Steps code id f w w' codes_stay ids_stay h = (
  λ k. inr (
      ap (has_code k) h
      ∙ any-change _ (λ d. d.id == id) f w.courses (λ d. ap (λ c. text_eq c k) (codes_stay d))),
  λ j. keeps_id (has_id j w.courses) _ (
      ap (has_id j) h
      ∙ any-change _ (λ d. d.id == id) f w.courses (λ d. ap (λ c. c == j) (ids_stay d))),
)

pub Steps-both :
    (code : Text) (w w1 w2 : World) → Steps code w w1 → Steps code w1 w2 → Steps code w w2
Steps-both code w w1 w2 (a, b) (c, d) = (
  λ k. elim (c k) [
    | inl own ↦ inl own
    | inr same ↦ elim (a k) [ inl own ↦ inl own | inr before ↦ inr (same ∙ before) ]
  ],
  λ j. ground (arith, b j, d j),
)

right_false : (a b : Bool) → b ≡ false → (a || b) ≡ a
right_false a b h = ground arith

pub new_course-Steps :
    (code : Text) (d : TrainingCourse) (w : World)
    → d.code ≡ code
    → Steps code w (record w { courses = w.courses ++ d ∷ [] })
new_course-Steps code d w named = (
  λ k. elim (Bool-cases (text_eq code k)) [
    | inl own ↦ inl own
    | inr other ↦ inr (
        any_last (λ c. text_eq c.code k) w.courses d
        ∙ right_false _ _ (ap (λ c. text_eq c k) named ∙ other))
  ],
  λ j. ground (arith, any_last (λ c. c.id == j) w.courses d),
)

pub first_line-append :
    (k code : Text) (i : ℕ) (seen : List (Text × ℕ))
    → is_some (first_line k (seen ++ (code, i) ∷ []))
      ≡ (is_some (first_line k seen) || text_eq code k)
first_line-append k code i [] = ground arith
first_line-append k code i ((c, j) ∷ seen) = ground (arith, first_line-append k code i seen)

pub append_nil : {A : Type 0} (xs ys : List A) → xs ++ ys ≡ [] → ys ≡ []
append_nil [] ys h = h
append_nil (x ∷ xs) ys h = absurd (ground arith)

no_duplicate : (o : Option ℕ) → duplicate_errors o ≡ [] → o ≡ none
no_duplicate none h = refl
no_duplicate (some i) h = absurd (ground arith)

-- The table of courses against the one that the plan saw: apart from the codes of the rows so far, the
-- same codes, and every row that was there.
abbrev pub Agrees : List (Text × ℕ) → World → World → Type 0
Agrees seen w w1 =
    ((k : Text)
      → (is_some (first_line k seen) ≡ true) ⊎ (has_code k w1.courses ≡ has_code k w.courses))
    × ((id : ℕ) → (not (has_id id w.courses) || has_id id w1.courses) ≡ true)

pub Agrees-seen :
    (raw : Row) (i : ℕ) (seen : List (Text × ℕ)) (w w1 : World)
    → Agrees seen w w1
    → Agrees (seen_after raw i seen) w w1
Agrees-seen raw i seen w w1 (a, b) = elim (Bool-cases (is_blank (code_of raw))) [
  | inl blank ↦ rw blank (a, b)
  | inr full ↦ rw full (
    λ k. elim (a k) [
      | inl before ↦ inl (ground (arith, before, first_line-append k (code_of raw) i seen))
      | inr same ↦ inr same
    ],
    b,
  )
]

pub Agrees-Steps :
    (raw : Row) (i : ℕ) (seen : List (Text × ℕ)) (w w1 w2 : World)
    → is_blank (code_of raw) ≡ false
    → Agrees seen w w1
    → Steps (code_of raw) w1 w2
    → Agrees (seen_after raw i seen) w w2
Agrees-Steps raw i seen w w1 w2 full (a, b) (c, d) = rw full (
  λ k. elim (c k) [
    | inl own ↦ inl (ground (arith, own, first_line-append k (code_of raw) i seen))
    | inr same ↦ elim (a k) [
      | inl before ↦ inl (ground (arith, before, first_line-append k (code_of raw) i seen))
      | inr before ↦ inr (same ∙ before)
    ]
  ],
  λ j. ground (arith, b j, d j),
)

module _ (float_of : Text → Option Float) where
  pub fine_row :
      (seen : List (Text × ℕ)) (raw : Row)
      → row_errors float_of seen raw ≡ []
      → (is_blank (code_of raw) ≡ false) × (first_line (code_of raw) seen ≡ none)
  unfolding row_errors
  fine_row seen raw h = elim (Bool-cases (is_blank (code_of raw))) [
    | inl blank ↦ absurd (ground (arith, h, blank))
    | inr full ↦
        let last : (if is_blank (code_of raw)
              then []
              else duplicate_errors (first_line (code_of raw) seen))
            ≡ [] =
          append_nil (form_errors float_of raw) _ h in
        (full, no_duplicate _ (ground (arith, full, last)))
  ]
