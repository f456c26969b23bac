-- ===== src/Training/Tests.antt =====
-- One course, one version with one question, and one trainee at the sample plant.
use qms_bakery.Prelude.{◌+◌, ◌*◌, ◌≡◌, ◌≢◌, refl, true, none, some, [], ◌∷◌, keep, arith}
use qms_bakery.Prelude.Dates.{DateTime, IsDate, instant, month_days}
use qms_bakery.Prelude.Text.{codes}
use qms_bakery.Json.{end}
use qms_bakery.Models.Training.{TrainingCourseVersion, TrainingAttempt, EnrolmentSource}
use qms_bakery.World.{World, ok, now}
use qms_bakery.Audit.{record_entry}
use qms_bakery.Training.Calendar.{add_months, plus_days, plus_days-instant}
use qms_bakery.Training.Queries.{active_version, trainees_due_for_course}
use qms_bakery.Training.Compliance.Due.{is_candidate, trainees_due_for_course-keep}
use qms_bakery.Training.Catalogue.{add_course_version, NewVersion, top_version}
use qms_bakery.Training.Catalogue.Versions.{add_course_version-active, active_of}
use qms_bakery.Training.Enrol.{enrol}
use qms_bakery.Training.Enrol.Issued.{Enrolled, enrol-Enrolled}
use qms_bakery.Training.Exam.{
  submit_attempt, record_declaration, NewDeclaration, start_attempt, grade,
}
use qms_bakery.Training.Exam.Scored.{Graded, submit_attempt-Graded}
use qms_bakery.Training.Exam.Declared.{Declared, record_declaration-Declared}
use qms_bakery.Training.Reminders.{classify_reminder, mark_reminder_sent, seven_days}
use qms_bakery.Training.Reminders.Classified.{classify_reminder-once}
use qms_bakery.Samples.{env}
use qms_bakery.Training.Samples.{jan, hygiene, first_version, school, link}

abbrev january : DateTime
january = record { year = 2026; month = 1; day = 31; clock = 0 }

january-IsDate : IsDate january
unfolding month_days
january-IsDate = record {
  month_low = omega arith;
  month_high = omega arith;
  day_low = omega arith;
  day_high = omega arith;
  clock_high = omega arith;
}

end_of_february : add_months january 1 ≡ record { year = 2026; month = 2; day = 28; clock = 0 }
unfolding add_months month_days
end_of_february = refl

plus_days-instant_example :
    IsDate (plus_days january 7) × (instant (plus_days january 7) ≡ instant january + 7 * 86400)
plus_days-instant_example = plus_days-instant january 7 january-IsDate

trainees_due_for_course-keep_example :
    trainees_due_for_course env hygiene school
    ≡ keep (is_candidate env hygiene school) (keep (λ t. t.is_active) school.trainees)
trainees_due_for_course-keep_example = trainees_due_for_course-keep env hygiene school (refl, tt)

abbrev second_version : NewVersion
second_version = record {
  title = end;
  summary = none;
  pass_threshold = none;
  validity_months = some 0;
  link_ttl_days = none;
  exam_time_limit_seconds = none;
}

add_course_version-active_example :
    let (r, w') = add_course_version env hygiene second_version school in
    (v : TrainingCourseVersion) × (r ≡ ok v)
    × (v.version ≡ 1 + top_version hygiene.id school.versions)
    × (active_of hygiene.id w'.versions ≡ v ∷ [])
    × (active_version hygiene.id w' ≡ some v)
    × (active_of 9 w'.versions ≡ active_of 9 school.versions)
add_course_version-active_example =
    add_course_version-active env hygiene second_version school 9 (omega arith)

enrol-Enrolled_example :
    Enrolled env jan hygiene EnrolmentSource.manual none school
      (enrol env jan hygiene EnrolmentSource.manual none none school)
enrol-Enrolled_example = enrol-Enrolled env jan hygiene EnrolmentSource.manual none none school

school-active_version : active_version 6 school ≡ some first_version
unfolding active_version
school-active_version = refl

abbrev exam_room : World
exam_room = record school { enrolments = link ∷ [] }

submit_attempt-Graded_example :
    Graded env link first_version
      ((8, 1 ∷ []) ∷ [])
      exam_room
      (submit_attempt env link first_version ((8, 1 ∷ []) ∷ []) exam_room)
submit_attempt-Graded_example =
    submit_attempt-Graded env link first_version ((8, 1 ∷ []) ∷ []) exam_room

abbrev marked : TrainingAttempt
marked = record {
  id = 10;
  enrolment_id = 9;
  started_at = now env;
  submitted_at = some (now env);
  score = some 1;
  passed = some true;
  payload = record { question_id = 8; selected_option_ids = 1 ∷ []; is_correct = true } ∷ [];
}

abbrev after_exam : World
after_exam = (submit_attempt env link first_version ((8, 1 ∷ []) ∷ []) exam_room).1

marked-submit_attempt :
    submit_attempt env link first_version ((8, 1 ∷ []) ∷ []) exam_room ≡ (ok marked, after_exam)
unfolding submit_attempt start_attempt grade record_entry
marked-submit_attempt = refl

abbrev signature : NewDeclaration
signature = record {
  typed_name = codes "Jan";
  declaration_text = [];
  signature_png = none;
  ip_address = none;
  user_agent = none;
}

record_declaration-Declared_example :
    Declared env marked signature after_exam (record_declaration env marked signature after_exam)
record_declaration-Declared_example = record_declaration-Declared env marked signature after_exam

seven_days-due : classify_reminder 691200 link ≡ some seven_days
unfolding classify_reminder
seven_days-due = refl

classify_reminder-once_example :
    classify_reminder 700000 (mark_reminder_sent seven_days 691200 link) ≢ some seven_days
classify_reminder-once_example = classify_reminder-once 691200 700000 link seven_days
