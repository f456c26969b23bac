-- ===== src/Training/Matrix.antt =====
-- app/services/training.py, `build_compliance_matrix`: the dashboard's grid from bulk-loaded rows.
pub mod Cells
pub mod Queried
pub mod Blocked
mod Tests
use qms_bakery.Prelude.{
  ℕ, suc, ◌+◌, Bool, true, false, not, ◌&&◌, ◌||◌, Option, none, some, List, [], ◌∷◌, ◌++◌, map,
  keep, any, elem, count_if, length, ltb, ◌==◌, if◌then◌else◌, is_none,
}
use qms_bakery.Prelude.Text.{Text, text_eq}
use qms_bakery.Models.Training.{
  Trainee, TrainingCourse, TrainingCourseVersion, TrainingEnrolment, TrainingCertification,
  in_open_states,
}
use qms_bakery.World.{Env, World, now}
use qms_bakery.Tickets.Number.{text_lt}
use qms_bakery.Training.Queries.{assignment_matches}
use qms_bakery.Training.Compliance.{
  ComplianceState, not_required, extra, valid, due_soon, in_flight, overdue, compliance_state,
  is_blocking,
}

-- The keyword arguments of `build_compliance_matrix`.
pub record MatrixFilter : Type 0 where
  pub line_id : Option ℕ
  pub role_code : Option Text
  pub line_ids : List ℕ
  pub role_codes : List Text
  pub blocked_only : Bool

abbrev alone {ℓ} : {A : Type ℓ} → Option A → List A
alone none = []
alone (some a) = a ∷ []

abbrev line_set : MatrixFilter → List ℕ
line_set f = alone f.line_id ++ f.line_ids

abbrev role_set : MatrixFilter → List Text
role_set f = alone f.role_code ++ f.role_codes

-- `if the_set: query.filter(column.in_(the_set))`
abbrev line_passes : List ℕ → Option ℕ → Bool
line_passes [] line = true
line_passes (l ∷ ls) none = false
line_passes (l ∷ ls) (some m) = elem m (l ∷ ls)

abbrev role_passes : List Text → Text → Bool
role_passes [] role = true
role_passes (r ∷ rs) role = any (λ s. text_eq s role) (r ∷ rs)

abbrev pub is_shown : MatrixFilter → Trainee → Bool
is_shown f t =
    t.is_active && line_passes (line_set f) t.line_id && role_passes (role_set f) t.role_code

-- `ORDER BY`, of rows that come in table order.
unfoldable pub insert_by {ℓ} : {A : Type ℓ} → (A → A → Bool) → A → List A → List A
insert_by lt x [] = x ∷ []
insert_by lt x (y ∷ ys) = let rest = insert_by lt x ys in if lt y x then y ∷ rest else x ∷ y ∷ ys

unfoldable pub sort_by {ℓ} : {A : Type ℓ} → (A → A → Bool) → List A → List A
unfolding insert_by
sort_by lt [] = []
sort_by lt (x ∷ xs) = insert_by lt x (sort_by lt xs)

unfoldable pub shown_trainees : MatrixFilter → World → List Trainee
unfolding sort_by
shown_trainees f w =
    sort_by (λ (a b : Trainee). text_lt a.full_name b.full_name) (keep (is_shown f) w.trainees)

unfoldable pub shown_courses : World → List TrainingCourse
unfolding sort_by
shown_courses w =
    sort_by (λ (a b : TrainingCourse). text_lt a.code b.code) (keep (λ c. c.is_active) w.courses)

abbrev pub ids_of : List Trainee → List ℕ
ids_of ts = map (λ (t : Trainee). t.id) ts

abbrev pub course_ids : List TrainingCourse → List ℕ
course_ids cs = map (λ (c : TrainingCourse). c.id) cs

-- Step 3: the certificates of the grid, in the order of their ends.
unfoldable pub cert_rows : List ℕ → List ℕ → World → List TrainingCertification
unfolding sort_by
cert_rows ts cs w =
    sort_by (λ (a b : TrainingCertification). ltb a.valid_until b.valid_until)
      (keep (λ c. elem c.trainee_id ts && elem c.course_id cs && is_none c.revoked_at)
        w.certifications)

-- `cert_by.get(key)` after the loop: the last row of a key wins.
abbrev pub cert_by : ℕ → ℕ → List TrainingCertification → Option TrainingCertification
cert_by t c [] = none
cert_by t c (r ∷ rs) = elim (cert_by t c rs) [
  | some later ↦ some later
  | none ↦ if (r.trainee_id == t) && (r.course_id == c) then some r else none
]

-- Step 4: the pairs of a trainee and a course with an open enrolment.
abbrev pub version_pairs :
    Env → List ℕ → List ℕ → TrainingEnrolment → List TrainingCourseVersion → List (ℕ × ℕ)
version_pairs env ts cs e [] = []
version_pairs env ts cs e (v ∷ vs) =
    if (e.course_version_id == v.id)
      && elem e.trainee_id ts
      && elem v.course_id cs
      && in_open_states e.status
      && ltb (now env) e.expires_at
    then (e.trainee_id, v.course_id) ∷ version_pairs env ts cs e vs
    else version_pairs env ts cs e vs

unfoldable pub open_pairs :
    Env → List ℕ → List ℕ → List TrainingCourseVersion → List TrainingEnrolment → List (ℕ × ℕ)
open_pairs env ts cs vs [] = []
open_pairs env ts cs vs (e ∷ es) = version_pairs env ts cs e vs ++ open_pairs env ts cs vs es

abbrev pub has_pair : ℕ → ℕ → List (ℕ × ℕ) → Bool
has_pair t c [] = false
has_pair t c ((a, b) ∷ ps) = ((a == t) && (b == c)) || has_pair t c ps

-- One entry of `states`.
pub record Cell : Type 0 where
  pub trainee : ℕ
  pub course : ℕ
  pub state : ComplianceState
  pub cert : Option TrainingCertification

-- `states[key]`, from what was loaded.
unfoldable pub cell :
    Env → List TrainingCertification → List (ℕ × ℕ) → TrainingCourse → Trainee → Cell
cell env certs pairs c t = record {
  trainee = t.id;
  course = c.id;
  state =
      compliance_state env (any (λ a. assignment_matches a t) c.assignments)
        (cert_by t.id c.id certs) (has_pair t.id c.id pairs);
  cert = cert_by t.id c.id certs;
}

-- The column of a course, and the grid.
abbrev pub column : (TrainingCourse → Trainee → Cell) → TrainingCourse → List Trainee → List Cell
column f c ts = map (f c) ts

abbrev pub grid : (TrainingCourse → Trainee → Cell) → List TrainingCourse → List Trainee → List Cell
grid f [] ts = []
grid f (c ∷ cs) ts = column f c ts ++ grid f cs ts

-- `cleared[trainee.id]`
abbrev pub is_cleared : (TrainingCourse → Trainee → Cell) → List TrainingCourse → Trainee → Bool
is_cleared f cs t = not (any (λ c. is_blocking (f c t).state) cs)

pub record Kpis : Type 0 where
  pub blocked : ℕ
  pub overdue_courses : ℕ
  pub due_soon : ℕ
  pub in_flight : ℕ

pub record Matrix : Type 0 where
  pub trainees : List Trainee
  pub courses : List TrainingCourse
  pub cells : List Cell
  pub cleared : List (ℕ × Bool)
  pub kpis : Kpis

abbrev pub is_due_soon : ComplianceState → Bool
is_due_soon due_soon = true
is_due_soon _ = false

abbrev pub is_in_flight : ComplianceState → Bool
is_in_flight in_flight = true
is_in_flight _ = false

abbrev pub is_overdue : ComplianceState → Bool
is_overdue overdue = true
is_overdue _ = false

-- `len({...})`
unfoldable pub count_distinct : List ℕ → ℕ
count_distinct [] = 0
count_distinct (x ∷ xs) = let n = count_distinct xs in if elem x xs then n else suc n

abbrev pub overdue_ids : List Cell → List ℕ
overdue_ids cells = map (λ (c : Cell). c.course) (keep (λ c. is_overdue c.state) cells)

unfoldable pub kpis_of : List (ℕ × Bool) → List Cell → Kpis
kpis_of cleared cells = record {
  blocked = count_if (λ (p : ℕ × Bool). not p.1) cleared;
  overdue_courses = count_distinct (overdue_ids cells);
  due_soon = count_if (λ (c : Cell). is_due_soon c.state) cells;
  in_flight = count_if (λ (c : Cell). is_in_flight c.state) cells;
}

-- What is returned for the trainees that stay visible: `states` without the rows of the others is the
-- grid of these.
unfoldable pub matrix_of :
    (TrainingCourse → Trainee → Cell) → List TrainingCourse → List Trainee → Matrix
unfolding kpis_of
matrix_of f cs ts =
    let cells = grid f cs ts in
    let cleared = map (λ (t : Trainee). (t.id, is_cleared f cs t)) ts in
    record {
      trainees = ts;
      courses = cs;
      cells = cells;
      cleared = cleared;
      kpis = kpis_of cleared cells;
    }

abbrev pub visible :
    Bool → (TrainingCourse → Trainee → Cell) → List TrainingCourse → List Trainee → List Trainee
visible blocked_only f cs ts = if blocked_only then keep (λ t. not (is_cleared f cs t)) ts else ts

abbrev pub empty_matrix : List TrainingCourse → List Trainee → Matrix
empty_matrix cs ts = record {
  trainees = ts;
  courses = cs;
  cells = [];
  cleared = map (λ (t : Trainee). (t.id, true)) ts;
  kpis = record { blocked = 0; overdue_courses = 0; due_soon = 0; in_flight = 0 };
}

-- `states[(trainee.id, course.id)]` of the rows that are loaded for the grid.
unfoldable pub loaded_cell :
    Env → World → List TrainingCourse → List Trainee → TrainingCourse → Trainee → Cell
unfolding cell
loaded_cell env w cs ts c t =
    cell env (cert_rows (ids_of ts) (course_ids cs) w)
      (open_pairs env (ids_of ts) (course_ids cs) w.versions w.enrolments) c t

abbrev pub matrix_for :
    Bool → (TrainingCourse → Trainee → Cell) → List TrainingCourse → List Trainee → Matrix
matrix_for blocked_only f cs [] = empty_matrix cs []
matrix_for blocked_only f [] (t ∷ ts) = empty_matrix [] (t ∷ ts)
matrix_for blocked_only f (c ∷ cs) (t ∷ ts) =
    matrix_of f (c ∷ cs) (visible blocked_only f (c ∷ cs) (t ∷ ts))

-- `build_compliance_matrix`
unfoldable pub build_compliance_matrix : Env → MatrixFilter → World → Matrix
build_compliance_matrix env f w =
    let cs = shown_courses w in
    let ts = shown_trainees f w in matrix_for f.blocked_only (loaded_cell env w cs ts) cs ts
