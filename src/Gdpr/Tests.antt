-- ===== src/Gdpr/Tests.antt =====
-- Redaction of a trail with two rows.
use qms_bakery.Prelude.{◌≡◌, refl, true, none, some, [], ◌∷◌, map, any, arith, ◌==◌}
use qms_bakery.Json.{end}
use qms_bakery.Models.Audit.{AuditAction, EntityType}
use qms_bakery.World.{World, now}
use qms_bakery.Audit.{record_entry, verify_chain}
use qms_bakery.Audit.Order.{Ascends, IsOrdered}
use qms_bakery.Gdpr.{redaction_marker, mark, redact_audit_rows}
use qms_bakery.Gdpr.Subjects.{redact}
use qms_bakery.Gdpr.Erasure.{redact-verify_chain}
use qms_bakery.Prelude.Text.{codes}
use qms_bakery.Models.Training.{Trainee, NotificationChannel}
use qms_bakery.Gdpr.Rehash.{unlinked, redact_audit_rows-frame}
use qms_bakery.Samples.{env, plant}

abbrev two_rows : World
two_rows =
    record_entry env EntityType.user (some 1) AuditAction.login_success end none
      (record_entry env EntityType.user (some 1) AuditAction.login_success end none plant)

two_rows-Ascends : Ascends 1 two_rows.audit_log
unfolding record_entry
two_rows-Ascends = omega arith

two_rows-verify_chain : verify_chain env two_rows ≡ (true, none)
unfolding record_entry verify_chain now
two_rows-verify_chain = refl

two_rows-any : any (λ e. e.id == 2) two_rows.audit_log ≡ true
unfolding record_entry
two_rows-any = refl

redact_audit_rows-frame_example :
    map unlinked (redact_audit_rows env (2 ∷ []) two_rows.audit_log).1
    ≡ map (λ e. unlinked (mark (redaction_marker env) (2 ∷ []) e)) two_rows.audit_log
redact_audit_rows-frame_example =
    redact_audit_rows-frame env 2 [] two_rows.audit_log two_rows-Ascends two_rows-any

abbrev jan : Trainee
jan = record {
  id = 5;
  employee_number = none;
  phone = codes "+48600100200";
  email = none;
  full_name = codes "Jan";
  role_code = codes "operator";
  line_id = some 1;
  language = codes "pl";
  is_active = true;
  notification_channel = NotificationChannel.email;
  updated_at = 0;
}

abbrev with_jan : World
with_jan =
    record_entry env EntityType.trainee (some 5) AuditAction.create end none
      (record plant { trainees = jan ∷ [] })

with_jan-IsOrdered : IsOrdered with_jan
unfolding record_entry
with_jan-IsOrdered = omega arith

with_jan-verify_chain : verify_chain env with_jan ≡ (true, none)
unfolding record_entry verify_chain now
with_jan-verify_chain = refl

redact-verify_chain_example :
    verify_chain env (redact env (codes "trainee:uuid") with_jan).1 ≡ (true, none)
redact-verify_chain_example =
    redact-verify_chain env (codes "trainee:uuid") with_jan with_jan-IsOrdered with_jan-verify_chain
