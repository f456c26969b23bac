-- ===== src/Training/Enrol/Issued.antt =====
-- `enrol`, on every branch, and what it means for the scheduler.
use qms_bakery.Prelude.{
  ℕ, suc, ◌+◌, ◌*◌, ◌≤◌, ◌≡◌, refl, sym, ap, ◌∙◌, subst, inl, inr, Bool, true, false, ◌&&◌, ◌||◌,
  Option, none, some, List, [], ◌∷◌, ◌++◌, any, keep, length, length-append, if◌then◌else◌, ◌==◌,
  arith, Bool-cases, Option-cases,
}
use qms_bakery.Prelude.Text.{Text}
use qms_bakery.Models.Training.{
  Trainee, TrainingCourse, TrainingCourseVersion, TrainingEnrolment, EnrolmentSource,
  EnrolmentStatus,
}
use qms_bakery.World.{Env, World, now, Job, Error, Result, ok, err}
use qms_bakery.Audit.{record_entry}
use qms_bakery.Training.Queries.{
  active_version, has_open_enrolment, is_due_for_recert, is_open_for, highest,
}
use qms_bakery.Training.Queue.{dispatch, enqueue_if, wants_sms, wants_email, has_email, address}
use qms_bakery.Training.Enrol.{enrol, new_enrolment, issue_token, send_link, deliver_magic_link}

-- The session but for the queue and the trail.
abbrev pub OnlySent : World → World → Type 0
OnlySent w w' = w' ≡ record w { jobs = w'.jobs; audit_log = w'.audit_log }

-- The jobs that one channel adds.
abbrev added : Bool → Env → ℕ
added want env = if want && env.queue_up then 1 else 0

enqueue_if_lem :
    (want : Bool) (env : Env) (job : Job) (w : World)
    → let w' = (enqueue_if want env job w).1 in
      OnlySent w w' × (length w'.jobs ≡ length w.jobs + added want env)
enqueue_if_lem false env job w = (refl, omega arith)
enqueue_if_lem true env job w = elim (Bool-cases env.queue_up) [
  | inl up ↦ rw up (refl, length-append w.jobs (job ∷ []))
  | inr down ↦ rw down (refl, omega arith)
]

wants_one : (t : Trainee) → (wants_sms t || wants_email t) ≡ true
wants_one t = elim (Bool-cases (has_email t)) [
  | inl addressed ↦ ground (arith, addressed)
  | inr no_address ↦ ground (arith, no_address)
]

OnlySent-trans : (w w1 w2 : World) → OnlySent w w1 → OnlySent w1 w2 → OnlySent w w2
OnlySent-trans w w1 w2 h1 h2 =
    h2 ∙ ap (λ (v : World). record v { jobs = w2.jobs; audit_log = w2.audit_log }) h1

count_lem :
    (want_sms want_email : Bool) (env : Env) (n : ℕ)
    → (want_sms || want_email) ≡ true
    → (if env.queue_up then suc n else n) ≤ n + added want_sms env + added want_email env
count_lem want_sms want_email env n h = ground arith

dispatch_lem :
    (env : Env) (t : Trainee) (sms_body subject email_body : Text) (html : Option Text) (w : World)
    → let w' = (dispatch env t sms_body subject email_body html w).2 in
      OnlySent w w'
      × ((if env.queue_up then suc (length w.jobs) else length w.jobs) ≤ length w'.jobs)
unfolding dispatch
dispatch_lem env t sms_body subject email_body html w =
    let texted = Job.sms (t.phone ∷ []) sms_body in
    let mailed = Job.email (address t) subject email_body html in
    let w1 = (enqueue_if (wants_sms t) env texted w).1 in
    let (same, count) = enqueue_if_lem (wants_sms t) env texted w in
    let (same', count') = enqueue_if_lem (wants_email t) env mailed w1 in
    (
      OnlySent-trans w w1 _ same same',
      subst (λ n. (if env.queue_up then suc (length w.jobs) else length w.jobs) ≤ n)
          (sym (count' ∙ ap (λ (n : ℕ). n + added (wants_email t) env) count))
          (count_lem (wants_sms t) (wants_email t) env (length w.jobs) (wants_one t)),
    )

send_link_lem :
    (env : Env) (t : Trainee) (course : TrainingCourse) (v : TrainingCourseVersion)
    (e : TrainingEnrolment) (base : Option Text) (w : World)
    → OnlySent w (send_link env t course v e base w)
      × ((if env.queue_up then suc (length w.jobs) else length w.jobs)
          ≤ length (send_link env t course v e base w).jobs)
unfolding send_link deliver_magic_link record_entry
send_link_lem env t course v e base w =
    let sent = dispatch_lem env t _ _ _ _ w in
    (
      ap (λ (u : World). record u { audit_log = (send_link env t course v e base w).audit_log })
          sent.0,
      sent.1,
    )

send_link-enrolments :
    (env : Env) (t : Trainee) (course : TrainingCourse) (v : TrainingCourseVersion)
    (e : TrainingEnrolment) (base : Option Text) (w : World)
    → (send_link env t course v e base w).enrolments ≡ w.enrolments
send_link-enrolments env t course v e base w =
    ap (λ (u : World). u.enrolments) (send_link_lem env t course v e base w).0

send_link-versions :
    (env : Env) (t : Trainee) (course : TrainingCourse) (v : TrainingCourseVersion)
    (e : TrainingEnrolment) (base : Option Text) (w : World)
    → (send_link env t course v e base w).versions ≡ w.versions
send_link-versions env t course v e base w =
    ap (λ (u : World). u.versions) (send_link_lem env t course v e base w).0

send_link-certifications :
    (env : Env) (t : Trainee) (course : TrainingCourse) (v : TrainingCourseVersion)
    (e : TrainingEnrolment) (base : Option Text) (w : World)
    → (send_link env t course v e base w).certifications ≡ w.certifications
send_link-certifications env t course v e base w =
    ap (λ (u : World). u.certifications) (send_link_lem env t course v e base w).0

-- An enrolment that was issued now, for the days of the version.
abbrev pub Issued :
    Env
    → Trainee
    → TrainingCourseVersion
    → EnrolmentSource
    → Option Text
    → World
    → TrainingEnrolment
    → Type 0
Issued env t v source source_ref w e =
    (e.id ≡ w.next_id)
    × (e.trainee_id ≡ t.id)
    × (e.course_version_id ≡ v.id)
    × (e.status ≡ EnrolmentStatus.issued)
    × (e.issued_at ≡ now env)
    × (e.expires_at ≡ now env + v.link_ttl_days * 86400)
    × (e.magic_token ≡ issue_token env e.id e.expires_at)
    × (e.source ≡ source)
    × (e.source_ref ≡ source_ref)
    × (e.module_progress ≡ 0)

-- What a call of `enrol` has done, by how it ended.
abbrev pub Enrolled :
    Env
    → Trainee
    → TrainingCourse
    → EnrolmentSource
    → Option Text
    → World
    → Result TrainingEnrolment × World
    → Type 0
Enrolled env t course source source_ref w (ok e, w') =
    (v : TrainingCourseVersion) × (active_version course.id w ≡ some v)
    × (e ≡ new_enrolment env t v source source_ref w.next_id)
    × Issued env t v source source_ref w e
    × (w'.enrolments ≡ w.enrolments ++ e ∷ [])
    × (w'.versions ≡ w.versions)
    × (w'.certifications ≡ w.certifications)
    × ((if env.queue_up then suc (length w.jobs) else length w.jobs) ≤ length w'.jobs)
Enrolled env t course source source_ref w (err e, w') =
    (active_version course.id w ≡ none) × (e ≡ Error.no_active_version) × (w' ≡ w)

-- A course with an active version gives an issued enrolment of the trainee for that version, from now, which
-- ends after the version's days and has a link token for just that, and where Redis answers at least one message is queued, whatever the trainee's
-- channel; a course without one is refused and nothing changes.
pub enrol-Enrolled :
    (env : Env) (t : Trainee) (course : TrainingCourse) (source : EnrolmentSource)
    (source_ref base : Option Text) (w : World)
    → Enrolled env t course source source_ref w (enrol env t course source source_ref base w)
unfolding enrol record_entry
enrol-Enrolled env t course source source_ref base w =
    elim (Option-cases (active_version course.id w)) [
      | inl none_active ↦ rw (none_active, enrol) (none_active, refl, refl)
      | inr (v, found) ↦
          rw (found, enrol)
            (
              v,
              found,
              refl,
              (refl, refl, refl, refl, refl, refl, refl, refl, refl, refl),
              send_link-enrolments env t course v _ base _,
              send_link-versions env t course v _ base _,
              send_link-certifications env t course v _ base _,
              (send_link_lem env t course v _ base _).1,
            )
    ]

-- The active version is a row of the course.
highest-any :
    (course : ℕ) (v : TrainingCourseVersion) (vs : List TrainingCourseVersion)
    → highest (keep (λ u. (u.course_id == course) && u.is_active) vs) ≡ some v
    → any (λ u. (u.id == v.id) && (u.course_id == course)) vs ≡ true
highest-any course v [] h = absurd (cc)
highest-any course v (u ∷ vs) h = elim (Bool-cases ((u.course_id == course) && u.is_active)) [
  | inr out ↦ ground (arith, highest-any course v vs)
  | inl chosen ↦
      elim (Option-cases (highest (keep (λ x. (x.course_id == course) && x.is_active) vs))) [
        | inl alone ↦ ground arith
        | inr (x, best) ↦ ground (arith, highest-any course x vs best)
      ]
]

any-last :
    (p : TrainingEnrolment → Bool) (es : List TrainingEnrolment) (e : TrainingEnrolment)
    → p e ≡ true
    → any p (es ++ e ∷ []) ≡ true
any-last p [] e h = ground arith
any-last p (d ∷ es) e h = ground (arith, any-last p es e h)

new_enrolment-open :
    (env : Env) (t : Trainee) (course : ℕ) (u : TrainingCourseVersion) (source : EnrolmentSource)
    (source_ref : Option Text) (w : World) (id : ℕ)
    → active_version course w ≡ some u
    → 1 ≤ u.link_ttl_days
    → is_open_for env t.id course w (new_enrolment env t u source source_ref id) ≡ true
unfolding active_version
new_enrolment-open env t course u source source_ref w id active lasts =
    ground (arith, highest-any course u w.versions active)

-- After `enrol` has issued a link that lasts at least a day, the trainee is not due for the course:
-- the scheduler does not send a second one.
pub enrol-not_due :
    (env : Env) (t : Trainee) (course : TrainingCourse) (source : EnrolmentSource)
    (source_ref base : Option Text) (w : World) (v : TrainingCourseVersion)
    → active_version course.id w ≡ some v
    → 1 ≤ v.link_ttl_days
    → is_due_for_recert env t course (enrol env t course source source_ref base w).1 ≡ false
unfolding is_due_for_recert has_open_enrolment active_version
enrol-not_due env t course source source_ref base w v found lasts =
    let (r, w') = enrol env t course source source_ref base w in
    go r w' (enrol-Enrolled env t course source source_ref base w)
  where
    go :
        (r : Result TrainingEnrolment) (w' : World)
        → Enrolled env t course source source_ref w (r, w')
        → is_due_for_recert env t course w' ≡ false
    go (err e) w' c = absurd (cc)
    go (ok e) w' (u, active, same, issued, rows, versions, certs, jobs) =
        let opened : any (is_open_for env t.id course.id w') w'.enrolments ≡ true = rw (rows) (
          any-last (is_open_for env t.id course.id w') w.enrolments e (
            rw (same, versions)
              (new_enrolment-open env t course.id u source source_ref w w.next_id active
                (ground arith)))) in
        rw opened refl
