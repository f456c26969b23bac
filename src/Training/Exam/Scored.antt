-- ===== src/Training/Exam/Scored.antt =====
-- Attempts, and what a score is.
use qms_bakery.Prelude.{
  ℕ, ◌≤◌, ◌≡◌, refl, ap, subst, ◌⊎◌, inl, inr, Bool, true, false, Option, none, some, List, [], ◌∷◌,
  ◌++◌, map, find, leb, ◌*◌, count_if, length, if◌then◌else◌, ◌==◌, ==_iff, is_some, arith,
  Bool-cases, Option-cases,
}
use qms_bakery.Models.Training.{
  TrainingQuestion, TrainingCourseVersion, TrainingEnrolment, TrainingAttempt,
}
use qms_bakery.World.{Env, World, Error, Result, ok, err, now, ◌>>=◌}
use qms_bakery.Audit.{record_entry}
use qms_bakery.Training.Exam.{
  start_attempt, submit_attempt, grade, submitted, find_attempt, new_attempt, is_right,
  no_questions_in, begin_attempt, or_begin,
}

count_if-le : (p : TrainingQuestion → Bool) (qs : List TrainingQuestion) → count_if p qs ≤ length qs
count_if-le p [] = omega arith
count_if-le p (q ∷ qs) = ground (arith, count_if-le p qs)

found_theirs :
    (enrolment : ℕ) (a : TrainingAttempt) (us : List TrainingAttempt)
    → find (λ u. u.enrolment_id == enrolment) us ≡ some a
    → a.enrolment_id ≡ enrolment
found_theirs enrolment a [] h = absurd (cc)
found_theirs enrolment a (u ∷ us) h = elim (Bool-cases (u.enrolment_id == enrolment)) [
  | inl here ↦ ground (arith, h, here, ==_iff u.enrolment_id enrolment)
  | inr later ↦ found_theirs enrolment a us (ground (arith, h, later))
]

find-put :
    (enrolment : ℕ) (t s : TrainingAttempt) (us : List TrainingAttempt)
    → t.id ≡ s.id
    → t.enrolment_id ≡ s.enrolment_id
    → find (λ u. u.enrolment_id == enrolment) us ≡ some s
    → find (λ u. u.enrolment_id == enrolment) (map (λ u. if u.id == t.id then t else u) us) ≡ some t
find-put enrolment t s [] same_id same_enrolment h = absurd (cc)
find-put enrolment t s (u ∷ us) same_id same_enrolment h =
    ground (arith, find-put enrolment t s us same_id same_enrolment)

find-last :
    (enrolment : ℕ) (a : TrainingAttempt) (us : List TrainingAttempt)
    → a.enrolment_id ≡ enrolment
    → find (λ u. u.enrolment_id == enrolment) us ≡ none
    → find (λ u. u.enrolment_id == enrolment) (us ++ a ∷ []) ≡ some a
find-last enrolment a [] same h = ground arith
find-last enrolment a (u ∷ us) same h = ground (arith, find-last enrolment a us same)

-- The enrolment has no attempt, or one that is not submitted.
abbrev pub Unsubmitted : TrainingEnrolment → World → Type 0
Unsubmitted e w =
    (find_attempt e.id w ≡ none)
    ⊎ ((b : TrainingAttempt) × (find_attempt e.id w ≡ some b) × (is_some b.submitted_at ≡ false))

-- What a call of `submit_attempt` has done, by how it ended.
abbrev pub Graded :
    Env
    → TrainingEnrolment
    → TrainingCourseVersion
    → List (ℕ × List ℕ)
    → World
    → Result TrainingAttempt × World
    → Type 0
Graded env e v answers w (ok a, w') =
    Unsubmitted e w
    × ((right : ℕ) × (right ≡ count_if (is_right answers) v.questions)
        × (right ≤ length v.questions)
        × (1 ≤ length v.questions)
        × (a.score ≡ some right)
        × (a.passed ≡ some (leb (v.pass_threshold * length v.questions) (right * 1000))))
    × (a.enrolment_id ≡ e.id)
    × (a.submitted_at ≡ some (now env))
    × (find_attempt e.id w' ≡ some a)
Graded env e v answers w (err x, w') =
    (x ≡ Error.already_submitted)
      × (w' ≡ w)
      × ((a : TrainingAttempt) × (find_attempt e.id w ≡ some a) × (is_some a.submitted_at ≡ true))
    ⊎ (x ≡ Error.no_questions) × (v.questions ≡ [])

grade-Graded :
    (env : Env) (e : TrainingEnrolment) (v : TrainingCourseVersion) (answers : List (ℕ × List ℕ))
    (a : TrainingAttempt) (w w0 : World)
    → find_attempt e.id w ≡ some a
    → is_some a.submitted_at ≡ false
    → a.enrolment_id ≡ e.id
    → Unsubmitted e w0
    → Graded env e v answers w0 (grade env e v answers a w)
unfolding grade record_entry
grade-Graded env e v answers a w w0 found fresh theirs before =
    elim (Bool-cases (no_questions_in v.questions)) [
      | inl empty ↦ rw (fresh, empty, grade) (inr (refl, ground arith))
      | inr some_questions ↦
          rw (fresh, some_questions, grade)
            (
              before,
              (
                count_if (is_right answers) v.questions,
                refl,
                count_if-le (is_right answers) v.questions,
                ground arith,
                refl,
                refl,
              ),
              theirs,
              refl,
              find-put e.id (submitted env v answers a) a w.attempts refl refl found,
            )
    ]

submitted_twice :
    (env : Env) (e : TrainingEnrolment) (v : TrainingCourseVersion) (answers : List (ℕ × List ℕ))
    (a : TrainingAttempt) (w : World)
    → find_attempt e.id w ≡ some a
    → is_some a.submitted_at ≡ true
    → Graded env e v answers w (grade env e v answers a w)
unfolding grade
submitted_twice env e v answers a w found done =
    rw (done, grade) (inl (refl, refl, (a, found, done)))

submit-found :
    (env : Env) (e : TrainingEnrolment) (v : TrainingCourseVersion) (answers : List (ℕ × List ℕ))
    (a : TrainingAttempt) (w : World)
    → find_attempt e.id w ≡ some a
    → submit_attempt env e v answers w ≡ grade env e v answers a w
unfolding submit_attempt start_attempt
submit-found env e v answers a w found =
    ap (λ (o : Option TrainingAttempt). (or_begin env e o >>= grade env e v answers) w) found

submit-absent :
    (env : Env) (e : TrainingEnrolment) (v : TrainingCourseVersion) (answers : List (ℕ × List ℕ))
    (w : World)
    → find_attempt e.id w ≡ none
    → submit_attempt env e v answers w
      ≡ grade env e v answers (new_attempt env e.id w.next_id) (begin_attempt env e w).1
unfolding submit_attempt start_attempt
submit-absent env e v answers w absent =
    ap (λ (o : Option TrainingAttempt). (or_begin env e o >>= grade env e v answers) w) absent

-- An exam is scored once: a call is graded only where the enrolment has no attempt, or one that is not
-- submitted, and leaves the attempt submitted, `score` being the number of questions
-- whose selected options are exactly the right ones, and passes when that share reaches the version's threshold. A
-- call that finds a submitted attempt raises and changes nothing; for a version without questions it raises.
pub submit_attempt-Graded :
    (env : Env) (e : TrainingEnrolment) (v : TrainingCourseVersion) (answers : List (ℕ × List ℕ))
    (w : World)
    → Graded env e v answers w (submit_attempt env e v answers w)
unfolding record_entry
submit_attempt-Graded env e v answers w = elim (Option-cases (find_attempt e.id w)) [
  | inl absent ↦ rw (submit-absent env e v answers w absent) (
      grade-Graded env e v answers (new_attempt env e.id w.next_id) _ w
        (find-last e.id (new_attempt env e.id w.next_id) w.attempts refl absent) refl refl
        (inl absent))
  | inr (a, found) ↦ elim (Bool-cases (is_some a.submitted_at)) [
    | inl done ↦
        rw (submit-found env e v answers a w found) (submitted_twice env e v answers a w found done)
    | inr fresh ↦ rw (submit-found env e v answers a w found) (
        grade-Graded env e v answers a w w found fresh (found_theirs e.id a w.attempts found)
          (inr (a, found, fresh)))
  ]
]

-- After a submission that was graded, every further one for the enrolment is refused and changes
-- nothing, with whatever answers.
pub submit_attempt-once :
    (env : Env) (e : TrainingEnrolment) (v : TrainingCourseVersion) (answers : List (ℕ × List ℕ))
    (w : World) (a : TrainingAttempt) (w' : World) (env' : Env) (again : List (ℕ × List ℕ))
    → submit_attempt env e v answers w ≡ (ok a, w')
    → submit_attempt env' e v again w' ≡ (err Error.already_submitted, w')
unfolding grade
submit_attempt-once env e v answers w a w' env' again h =
    let g = subst (Graded env e v answers w) h (submit_attempt-Graded env e v answers w) in
    let done : is_some a.submitted_at ≡ true = rw g.3 refl in
    rw (submit-found env' e v again a w' g.4, done, grade) refl
