-- ===== src/Training/Links/Tests.antt =====
-- A magic link at the sample plant, with keys written as one character.
use qms_bakery.Prelude.{
  ℕ, ◌+◌, ◌≡◌, refl, ap, none, some, false, [], ◌∷◌, ◌++◌, leb, if◌then◌else◌, arith,
}
use qms_bakery.Prelude.Int.{ℤ}
use qms_bakery.Prelude.Text.{Text, codes, strip}
use qms_bakery.Prelude.Decimal.{int_of, split_on, decimal, read_digits}
use qms_bakery.Models.Training.{TrainingEnrolment, EnrolmentStatus, EnrolmentSource}
use qms_bakery.World.{Env, World, now}
use qms_bakery.Training.Enrol.{issue_token}
use qms_bakery.Training.Links.{
  valid, verify_token, verify_parts, check_signature, body_of, has_expired, opened, refused,
  link_expired, get_enrolment_with_reason,
}
use qms_bakery.Training.Links.RoundTrip.{
  PlainTexts, DistinctUuids, get_enrolment_with_reason-issued,
}
use qms_bakery.Training.Links.Signed.{verify_token-Signed}
use qms_bakery.Samples.{env, plant}

abbrev keyed : Env
keyed = record env { uuid = λ id. (id + 1000) ∷ [] }

keyed-PlainTexts : PlainTexts keyed
keyed-PlainTexts = record {
  sign_dots = λ body. (refl, (refl, (refl, (refl, tt))));
  sign_ascii = λ body. omega arith;
  uuid_dots = λ id. (ground arith, tt);
}

head_of : Text → ℕ
head_of [] = 0
head_of (c ∷ s) = c

keyed-DistinctUuids : DistinctUuids keyed
unfolding head_of
keyed-DistinctUuids a b h = omega (arith, ap head_of h)

abbrev link : TrainingEnrolment
link = record {
  id = 9;
  trainee_id = 5;
  course_version_id = 7;
  magic_token = issue_token keyed 9 99999999999;
  issued_at = 0;
  expires_at = 99999999999;
  status = EnrolmentStatus.issued;
  source = EnrolmentSource.manual;
  source_ref = none;
  module_progress = 0;
  reminder_3d_sent_at = none;
  reminder_7d_sent_at = none;
  reminder_final_sent_at = none;
}

abbrev issued : World
issued = record plant { enrolments = link ∷ [] }

get_enrolment_with_reason-issued_example :
    get_enrolment_with_reason keyed link.magic_token issued
    ≡ (if leb 99999999999 (now keyed) then refused link_expired else opened link)
get_enrolment_with_reason-issued_example =
    get_enrolment_with_reason-issued keyed issued link keyed-PlainTexts keyed-DistinctUuids refl
      refl (omega arith)

abbrev typed : Text
typed = codes "b.+99999999999.5ea1"

typed_valid : verify_token keyed typed ≡ valid (codes "b")
unfolding verify_token verify_parts check_signature split_on int_of strip read_digits decimal now
typed_valid = refl

verify_token-Signed_example :
    (exp : Text) × (e : ℤ) × (typed
      ≡ codes "b" ++ (b'.' ∷ (exp ++ (b'.' ∷ keyed.sign (body_of (codes "b") e)))))
    × (int_of exp ≡ some e)
    × (has_expired keyed e ≡ false)
verify_token-Signed_example = verify_token-Signed keyed typed (codes "b") typed_valid
