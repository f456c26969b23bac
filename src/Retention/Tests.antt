-- ===== src/Retention/Tests.antt =====
-- A sweep of a school with an old link and an old certificate.
use qms_bakery.Prelude.{◌≡◌, refl, none, some, true, false, [], ◌∷◌, arith}
use qms_bakery.Prelude.Text.{codes}
use qms_bakery.Json.{end}
use qms_bakery.Models.Audit.{AuditAction, EntityType}
use qms_bakery.Models.Training.{EnrolmentStatus, TrainingDeclaration, TrainingCertification}
use qms_bakery.World.{World, now}
use qms_bakery.Audit.{record_entry, verify_chain}
use qms_bakery.Audit.Order.{IsOrdered}
use qms_bakery.Retention.{RetentionConfig, sweep}
use qms_bakery.Retention.Trail.{IsSound, sweep-IsSound}
use qms_bakery.Samples.{env}
use qms_bakery.Training.Samples.{school, link, jan}

abbrev defaults : RetentionConfig
defaults = record { declaration_years = none; audit_years = some 6; dormant_months = none }

abbrev signed : TrainingDeclaration
signed = record {
  id = 3;
  attempt_id = 2;
  typed_name = codes "Jan";
  signature_png = some (codes "png");
  declaration_text = [];
  ip_address = none;
  user_agent = none;
  signed_at = 0;
}

abbrev old : TrainingCertification
old = record {
  id = 4;
  trainee_id = 5;
  course_id = 6;
  course_version_id = 7;
  attempt_id = 2;
  declaration_id = 3;
  valid_from = 0;
  valid_until = 1;
  revoked_at = none;
}

abbrev old_school : World
old_school =
    record_entry env EntityType.trainee (some 5) AuditAction.create end none (record school {
      trainees = record jan { is_active = false } ∷ [];
      enrolments = record link { status = EnrolmentStatus.expired; expires_at = 5 } ∷ [];
      declarations = signed ∷ [];
      certifications = old ∷ [];
    })

old_school-verify_chain : verify_chain env old_school ≡ (true, none)
unfolding record_entry verify_chain now
old_school-verify_chain = refl

old_school-IsOrdered : IsOrdered old_school
unfolding record_entry
old_school-IsOrdered = omega arith

sweep-IsSound_example : IsSound env (sweep env false defaults old_school).1
sweep-IsSound_example =
    sweep-IsSound env false defaults old_school old_school-verify_chain old_school-IsOrdered
