-- ===== src/Training/Exam/Declared.antt =====
-- Declarations and certificates.
use qms_bakery.Prelude.{
  ◌+◌, ◌≡◌, refl, ap, ◌⊎◌, inl, inr, true, false, Option, none, some, [], ◌∷◌, ◌++◌, is_some,
  Bool-cases, Option-cases,
}
use qms_bakery.Prelude.Text.{is_blank, strip}
use qms_bakery.Prelude.Dates.{instant}
use qms_bakery.Models.Training.{
  TrainingCourseVersion, TrainingEnrolment, TrainingAttempt, TrainingDeclaration,
  TrainingCertification,
}
use qms_bakery.Models.Audit.{AuditAction, EntityType}
use qms_bakery.World.{Env, World, Error, Result, ok, err, now, pure, ◌>>◌}
use qms_bakery.Audit.{record_entry}
use qms_bakery.Training.Calendar.{add_months}
use qms_bakery.Training.Exam.{
  record_declaration, certify, NewDeclaration, new_declaration, new_certification, has_passed,
  declared, rows_of, certify_if, certify_for, signed, certified_diff,
}

-- The certificate that a passed attempt has earned, in the session after the declaration.
abbrev pub Certified : Env → TrainingAttempt → World → World → Type 0
Certified env a w w' =
    (e : TrainingEnrolment) × (v : TrainingCourseVersion) × (c : TrainingCertification) × (rows_of
        a.enrolment_id w.enrolments w.versions
      ≡ some (e, v))
    × (w'.certifications ≡ w.certifications ++ c ∷ [])
    × (c.attempt_id ≡ a.id)
    × (c.trainee_id ≡ e.trainee_id)
    × (c.course_id ≡ v.course_id)
    × (c.valid_from ≡ now env)
    × (c.valid_until ≡ instant (add_months env.clock v.validity_months))

-- What a call of `record_declaration` has done, by how it ended.
abbrev pub Declared :
    Env → TrainingAttempt → NewDeclaration → World → Result TrainingDeclaration × World → Type 0
Declared env a n w (ok d, w') =
    (is_some a.submitted_at ≡ true)
    × (is_blank (strip n.typed_name) ≡ false)
    × (declared a w ≡ false)
    × (d.attempt_id ≡ a.id)
    × (d.typed_name ≡ strip n.typed_name)
    × (d.signature_png ≡ n.signature_png)
    × (d.declaration_text ≡ n.declaration_text)
    × (d.signed_at ≡ now env)
    × (w'.declarations ≡ w.declarations ++ d ∷ [])
    × ((has_passed a ≡ false) × (w'.certifications ≡ w.certifications)
        ⊎ (has_passed a ≡ true) × Certified env a w w')
Declared env a n w (err x, w') =
    (w' ≡ w)
      × ((is_some a.submitted_at ≡ false) × (x ≡ Error.not_submitted)
          ⊎ (is_blank (strip n.typed_name) ≡ true) × (x ≡ Error.typed_name_required)
          ⊎ (declared a w ≡ true) × (x ≡ Error.already_declared))
    ⊎ (is_some a.submitted_at ≡ true)
      × (is_blank (strip n.typed_name) ≡ false)
      × (declared a w ≡ false)
      × (has_passed a ≡ true)
      × (rows_of a.enrolment_id w.enrolments w.versions ≡ none)
      × (x ≡ Error.row_missing)

certify_if-failed :
    (env : Env) (a : TrainingAttempt) (d : TrainingDeclaration) (w : World)
    → has_passed a ≡ false
    → certify_if env a d w ≡ (ok d, w)
unfolding certify_if
certify_if-failed env a d w failed = rw (failed, certify_if) refl

certify_if-lost :
    (env : Env) (a : TrainingAttempt) (d : TrainingDeclaration) (w : World)
    → has_passed a ≡ true
    → rows_of a.enrolment_id w.enrolments w.versions ≡ none
    → certify_if env a d w ≡ (err Error.row_missing, w)
unfolding certify_if certify
certify_if-lost env a d w passed lost =
    rw (passed, certify_if)
      (ap
        (λ (rows : Option (TrainingEnrolment × TrainingCourseVersion)).
          (certify_for env a d.id rows >> pure d) w)
        lost)

-- The session with the certificate in it.
abbrev certified :
    Env
    → TrainingAttempt
    → TrainingDeclaration
    → TrainingEnrolment
    → TrainingCourseVersion
    → World
    → World
certified env a d e v w =
    let c = new_certification env e v a d.id w.next_id in
    record_entry env EntityType.training_certification (some w.next_id)
      AuditAction.training_certified (certified_diff v c.valid_until) none
      (record w { next_id = w.next_id + 1; certifications = w.certifications ++ c ∷ [] })

certify_if-found :
    (env : Env) (a : TrainingAttempt) (d : TrainingDeclaration) (w : World) (e : TrainingEnrolment)
    (v : TrainingCourseVersion)
    → has_passed a ≡ true
    → rows_of a.enrolment_id w.enrolments w.versions ≡ some (e, v)
    → certify_if env a d w ≡ (ok d, certified env a d e v w)
unfolding certify_if certify
certify_if-found env a d w e v passed found =
    rw (passed, certify_if)
      (ap
        (λ (rows : Option (TrainingEnrolment × TrainingCourseVersion)).
          (certify_for env a d.id rows >> pure d) w)
        found)

record_declaration-signed :
    (env : Env) (a : TrainingAttempt) (n : NewDeclaration) (w : World)
    → is_some a.submitted_at ≡ true
    → is_blank (strip n.typed_name) ≡ false
    → declared a w ≡ false
    → record_declaration env a n w
      ≡ certify_if env a (new_declaration env a n w.next_id) (signed env a n w)
unfolding record_declaration
record_declaration-signed env a n w done named first = elim (Option-cases a.submitted_at) [
  | inl open_attempt ↦ absurd (cc)
  | inr (t, set) ↦ rw (set, named, first, record_declaration) refl
]

certify-Declared :
    (env : Env) (a : TrainingAttempt) (n : NewDeclaration) (w : World)
    → is_some a.submitted_at ≡ true
    → is_blank (strip n.typed_name) ≡ false
    → declared a w ≡ false
    → Declared env a n w (certify_if env a (new_declaration env a n w.next_id) (signed env a n w))
unfolding signed record_entry
certify-Declared env a n w done named first = elim (Bool-cases (has_passed a)) [
  | inr failed ↦
      rw (certify_if-failed env a (new_declaration env a n w.next_id) (signed env a n w) failed)
        (done, named, first, refl, refl, refl, refl, refl, refl, inl (failed, refl))
  | inl passed ↦ elim (Option-cases (rows_of a.enrolment_id w.enrolments w.versions)) [
    | inl lost ↦
        rw
          (certify_if-lost env a (new_declaration env a n w.next_id) (signed env a n w) passed lost)
          (inr (done, named, first, passed, lost, refl))
    | inr ((e, v), found) ↦
        rw
          (certify_if-found env a (new_declaration env a n w.next_id) (signed env a n w) e v passed
            found)
          (
            done,
            named,
            first,
            refl,
            refl,
            refl,
            refl,
            refl,
            refl,
            inr (passed, (e, v, _, found, refl, refl, refl, refl, refl, refl)),
          )
  ]
]

-- A submitted attempt that has no declaration yet, signed with a name that is not blank, gets one, with the
-- name stripped, the text, the signature and the moment, and with it a certificate if and only if it was passed:
-- for the enrolment's trainee and course, from now until the version's months later. An attempt that
-- was not submitted, a blank name and a second declaration are refused, and then nothing changes; the
-- call raises besides only where the enrolment of a passed attempt or its version is missing.
pub record_declaration-Declared :
    (env : Env) (a : TrainingAttempt) (n : NewDeclaration) (w : World)
    → Declared env a n w (record_declaration env a n w)
unfolding record_declaration
record_declaration-Declared env a n w = elim (Option-cases a.submitted_at) [
  | inl open_attempt ↦ rw (open_attempt, record_declaration) (inl (refl, inl (refl, refl)))
  | inr (t, done) ↦ elim (Bool-cases (is_blank (strip n.typed_name))) [
    | inl blank ↦ rw (done, blank, record_declaration) (inl (refl, inr (inl (blank, refl))))
    | inr named ↦ elim (Bool-cases (declared a w)) [
      | inl again ↦
          rw (done, named, again, record_declaration) (inl (refl, inr (inr (again, refl))))
      | inr first ↦
          let set : is_some a.submitted_at ≡ true = rw done refl in
          rw (record_declaration-signed env a n w set named first)
            (certify-Declared env a n w set named first)
    ]
  ]
]
