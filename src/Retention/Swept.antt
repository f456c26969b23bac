-- ===== src/Retention/Swept.antt =====
-- What the sweep leaves, and what it reports.
use qms_bakery.Prelude.{ℕ, ◌≡◌, ◌⊎◌, true, false, find, All, ◌==◌, is_some}
use qms_bakery.Models.Training.{Trainee, TrainingDeclaration}
use qms_bakery.World.{Env, World, now, Result, Error, ok, err}
use qms_bakery.Audit.{record_entry}
use qms_bakery.Retention.{
  RetentionConfig, SweepSummary, close_sweep, is_held, is_expired, is_stale, shows_pii,
  declaration_years_of, summary_of,
}
use qms_bakery.Retention.Counted.{Counted}

-- No certificate of a declaration is long past its end, or the declaration shows no personal data.
abbrev pub IsClean : Env → RetentionConfig → World → TrainingDeclaration → Type 0
IsClean env cfg w d =
    (is_stale (now env) (declaration_years_of cfg) w d ≡ false) ⊎ (shows_pii d ≡ false)

-- No expired enrolment is left, and every declaration is clean.
abbrev pub Swept : Env → RetentionConfig → World → Type 0
Swept env cfg w =
    All (λ e. is_expired (now env) e ≡ false) w.enrolments × All (IsClean env cfg w) w.declarations

close_sweep-Swept :
    (env : Env) (cfg : RetentionConfig) (s : SweepSummary) (p : Result (Unit {0}) × World)
    → Swept env cfg p.1
    → Swept env cfg (close_sweep env cfg s p).1
unfolding close_sweep record_entry
close_sweep-Swept env cfg s (err e, w) h = h
close_sweep-Swept env cfg s (ok done, w) h = h

-- The trainee is in the table.
abbrev IsThere : World → ℕ → Type 0
IsThere w id = is_some (find (λ (t : Trainee). t.id == id) w.trainees) ≡ true

-- The parts of a summary that do not wait for the redactions.
abbrev pub SameCounts : SweepSummary → Result SweepSummary → Type 0
SameCounts s (err e) = ⊥
SameCounts s (ok t) =
    (t.expired_enrolments_dropped ≡ s.expired_enrolments_dropped)
    × (t.declarations_pii_redacted ≡ s.declarations_pii_redacted)
    × (t.trainees_redacted ≡ s.trainees_redacted)

-- What a sweep has done, by how it ended.
abbrev pub Outcome : Env → RetentionConfig → World → Result SweepSummary × World → Type 0
Outcome env cfg w (ok t, w') =
    (is_held env w ≡ false)
    × SameCounts (summary_of env true cfg w) (ok t)
    × Counted env cfg w (ok t) w'
    × Swept env cfg w'
Outcome env cfg w (err e, w') = (is_held env w ≡ true) × (e ≡ Error.integrity_error) × (w' ≡ w)
