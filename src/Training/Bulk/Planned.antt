-- ===== src/Training/Bulk/Planned.antt =====
-- The confirm screen of a bulk issue, and what is issued.
use qms_bakery.Prelude.{
  ℕ, ◌+◌, ◌≡◌, refl, sym, ap, ◌∙◌, inl, inr, false, Option, none, some, List, [], ◌∷◌, ◌++◌, map,
  arith, Option-cases,
}
use mathlib.Core.List.{append_assoc, append-nil}
use qms_bakery.Prelude.Text.{Text}
use qms_bakery.Models.Training.{
  Trainee, TrainingCourse, TrainingCourseVersion, TrainingEnrolment, EnrolmentSource,
}
use qms_bakery.World.{Env, World, Result, ok, err}
use qms_bakery.Training.Queries.{active_version, find_trainee}
use qms_bakery.Training.Enrol.{enrol}
use qms_bakery.Training.Enrol.Issued.{Enrolled, enrol-Enrolled}
use qms_bakery.Training.Bulk.{
  BulkAction, issue, skip_in_flight, skip_no_version, error, BulkNote, BulkIssueRow, n_issue,
  n_skip, n_error, plan_bulk_issue, live_row, stale_row, BulkCounts, counted, apply_rows,
  apply_bulk_issue, existing, bulk_ref, is_issue, skipped_one, no_counts,
}

-- The trainees that a plan issues to, in its order.
abbrev issues_to : BulkAction → Option Trainee → List Trainee → List Trainee
issues_to issue (some t) rest = t ∷ rest
issues_to issue none rest = rest
issues_to skip_in_flight t rest = rest
issues_to skip_no_version t rest = rest
issues_to error t rest = rest

abbrev pub recipients : List BulkIssueRow → List Trainee
recipients [] = []
recipients (r ∷ rs) = issues_to r.action r.trainee (recipients rs)

abbrev owners : List TrainingEnrolment → List ℕ
owners es = map (λ (e : TrainingEnrolment). e.trainee_id) es

abbrev ids : List Trainee → List ℕ
ids ts = map (λ (t : Trainee). t.id) ts

-- The course has an active version.
abbrev Live : TrainingCourse → World → Type 0
Live course w = (v : TrainingCourseVersion) × (active_version course.id w ≡ some v)

-- One link more, for the trainee.
Issued : TrainingCourse → Trainee → World → Result TrainingEnrolment × World → Type 0
Issued course t w (ok e, w') =
    (w'.enrolments ≡ w.enrolments ++ e ∷ []) × (e.trainee_id ≡ t.id) × (w'.versions ≡ w.versions)
Issued course t w (err e, w') = ⊥

enrol-Issued :
    (env : Env) (course : TrainingCourse) (ref base : Option Text) (t : Trainee) (w : World)
    → Live course w
    → Issued course t w (enrol env t course EnrolmentSource.manual ref base w)
unfolding Issued
enrol-Issued env course ref base t w (v, live) =
    go (enrol env t course EnrolmentSource.manual ref base w)
      (enrol-Enrolled env t course EnrolmentSource.manual ref base w)
  where
    go :
        (p : Result TrainingEnrolment × World)
        → Enrolled env t course EnrolmentSource.manual ref w p
        → Issued course t w p
    go (ok e, w') (u, found, same, issued, rows, versions, certs, jobs) =
        (rows, ap (λ (d : TrainingEnrolment). d.trainee_id) same, versions)
    go (err e, w') c = cc

Live-same :
    (course : TrainingCourse) (w w' : World)
    → w'.versions ≡ w.versions
    → Live course w
    → Live course w'
unfolding active_version
Live-same course w w' same (v, live) = (v, rw same live)

-- What a run of a plan's rows has done to the counts and to the enrolments.
abbrev pub Done : List BulkIssueRow → BulkCounts → World → BulkCounts × World → Type 0
Done rows c w (c', w') =
    (c'.issued ≡ c.issued + n_issue rows)
    × (c'.skipped ≡ c.skipped + n_skip rows + n_error rows)
    × (c'.errors ≡ c.errors)
    × ((es : List TrainingEnrolment) × (w'.enrolments ≡ w.enrolments ++ es)
        × (owners es ≡ ids (recipients rows)))

Done-issued :
    (t : Trainee) (note : BulkNote) (rows : List BulkIssueRow) (c : BulkCounts)
    (e : TrainingEnrolment) (w w1 : World) (p : BulkCounts × World)
    → w1.enrolments ≡ w.enrolments ++ e ∷ []
    → e.trainee_id ≡ t.id
    → Done rows (counted (ok e) c) w1 p
    → Done (record { trainee = some t; action = issue; note = note } ∷ rows) c w p
Done-issued t note rows c e w w1 (c', w') added own (i, s, x, (es, more, theirs)) = (
  omega (arith, i),
  omega (arith, s),
  x,
  (
    e ∷ es,
    more
        ∙ ap (λ (l : List TrainingEnrolment). l ++ es) added
        ∙ append_assoc w.enrolments (e ∷ []) es,
    rw (own, theirs) refl,
  ),
)

module _ (env : Env) (course : TrainingCourse) (ref base : Option Text) (planned : World) where
  live_rows : List ℕ → List BulkIssueRow
  live_rows is = map (λ id. live_row env course.id planned id (find_trainee id planned)) is

  abbrev Runs : List BulkIssueRow → BulkCounts → World → Type 0
  Runs rows c w = Done rows c w (apply_rows env course ref base rows c w)

  issue-Runs :
      (t : Trainee) (note : BulkNote) (rows : List BulkIssueRow) (c : BulkCounts) (w : World)
      → Live course w
      → ((d : BulkCounts) (u : World) → Live course u → Runs rows d u)
      → Runs (record { trainee = some t; action = issue; note = note } ∷ rows) c w
  unfolding apply_rows Issued
  issue-Runs t note rows c w live next =
      go (enrol env t course EnrolmentSource.manual ref base w)
        (enrol-Issued env course ref base t w live)
    where
      go :
          (p : Result TrainingEnrolment × World)
          → Issued course t w p
          → Done
              (record { trainee = some t; action = issue; note = note } ∷ rows)
              c
              w
              (apply_rows env course ref base rows (counted p.0 c) p.1)
      go (err e, w1) i = absurd i
      go (ok e, w1) (added, own, same) =
          Done-issued t note rows c e w w1
            (apply_rows env course ref base rows (counted (ok e) c) w1) added own
            (next (counted (ok e) c) w1 (Live-same course w w1 same live))

  skip-Runs :
      (a : BulkAction) (t : Option Trainee) (note : BulkNote) (rows : List BulkIssueRow)
      (c : BulkCounts) (w : World)
      → is_issue a ≡ false
      → Runs rows (skipped_one c) w
      → Runs (record { trainee = t; action = a; note = note } ∷ rows) c w
  unfolding apply_rows
  skip-Runs issue t note rows c w no_issue h = cc
  skip-Runs skip_in_flight t note rows c w no_issue h =
      (omega (arith, h.0), omega (arith, h.1), h.2, h.3)
  skip-Runs skip_no_version t note rows c w no_issue h =
      (omega (arith, h.0), omega (arith, h.1), h.2, h.3)
  skip-Runs error t note rows c w no_issue h = (omega (arith, h.0), omega (arith, h.1), h.2, h.3)

  live_rows-Runs :
      (is : List ℕ) (c : BulkCounts) (w : World) → Live course w → Runs (live_rows is) c w
  unfolding apply_rows live_rows
  live_rows-Runs [] c w live =
      (omega arith, omega arith, refl, ([], sym (append-nil w.enrolments), refl))
  live_rows-Runs (id ∷ is) c w live = elim (Option-cases (find_trainee id planned)) [
    | inl missing ↦ rw missing (
        skip-Runs error none (BulkNote.not_found id) (live_rows is) c w refl
          (live_rows-Runs is (skipped_one c) w live))
    | inr (t, found) ↦ elim (Option-cases (existing env t.id course.id planned)) [
      | inl free ↦
          rw (found, free)
            (issue-Runs t BulkNote.no_note (live_rows is) c w live (live_rows-Runs is))
      | inr (e, taken) ↦
          rw (found, taken)
            (skip-Runs skip_in_flight (some t) (BulkNote.active_until e.expires_at) (live_rows is) c
              w refl (live_rows-Runs is (skipped_one c) w live))
    ]
  ]

  stale-Runs : (is : List ℕ) (c : BulkCounts) (w : World) → Runs (map (stale_row planned) is) c w
  unfolding apply_rows
  stale-Runs [] c w = (omega arith, omega arith, refl, ([], sym (append-nil w.enrolments), refl))
  stale-Runs (id ∷ is) c w =
      skip-Runs skip_no_version (find_trainee id planned) BulkNote.no_version
        (map (stale_row planned) is) c w refl (stale-Runs is (skipped_one c) w)

-- What the confirm screen shows of a plan has been done.
abbrev pub Finished : List BulkIssueRow → World → BulkCounts × World → Type 0
Finished rows w (c, w') =
    (c.issued ≡ n_issue rows)
    × (c.skipped ≡ n_skip rows + n_error rows)
    × (c.errors ≡ 0)
    × ((es : List TrainingEnrolment) × (w'.enrolments ≡ w.enrolments ++ es)
        × (owners es ≡ ids (recipients rows)))

Done-Finished :
    (rows : List BulkIssueRow) (w : World) (p : BulkCounts × World)
    → Done rows no_counts w p
    → Finished rows w p
Done-Finished rows w (c, w') (i, s, x, added) = (omega (arith, i), omega (arith, s), x, added)

-- What `apply_bulk_issue` does with the plan of `plan_bulk_issue`, at one moment and in one session, is
-- what the confirm screen shows: it issues `n_issue` links, one new enrolment for each trainee that the
-- plan issues to, in that order, skips the rest, and meets no error.
pub apply_bulk_issue-plan :
    (env : Env) (is : List ℕ) (course : TrainingCourse) (base : Option Text) (by_user : Option ℕ)
    (w : World)
    → let rows = plan_bulk_issue env is course w in
      Finished rows w (apply_bulk_issue env rows course base by_user w)
unfolding plan_bulk_issue apply_bulk_issue live_rows
apply_bulk_issue-plan env is course base by_user w =
    let ref = some (bulk_ref env by_user) in
    elim (Option-cases (active_version course.id w)) [
      | inl stale ↦ rw stale (
          Done-Finished (map (stale_row w) is) w
            (apply_rows env course ref base (map (stale_row w) is) no_counts w)
            (stale-Runs env course ref base w is no_counts w))
      | inr (v, live) ↦
          let rows = map (λ id. live_row env course.id w id (find_trainee id w)) is in
          rw live (
            Done-Finished rows w (apply_rows env course ref base rows no_counts w)
              (live_rows-Runs env course ref base w is no_counts w (v, live)))
    ]
