-- ===== src/Training/Csv/Versioned.antt =====
-- What the rows of an import of courses are to write, row by row.
use qms_bakery.Prelude.{
  ℕ, ◌+◌, ◌≡◌, ◌⊎◌, true, false, Option, some, List, [], ◌∷◌, ◌++◌, map, length, ◌==◌,
  if◌then◌else◌,
}
use qms_bakery.Prelude.Text.{Text}
use qms_bakery.Models.Training.{TrainingCourse, TrainingCourseVersion}
use qms_bakery.World.{World}
use qms_bakery.Training.Catalogue.{top_version}
use qms_bakery.Training.Csv.{Row, Float, create, update}
use qms_bakery.Training.Csv.Courses.{
  CourseRowResult, no_errors, code_of, version_of, description_in, active_in,
}

-- The tables of courses and of their versions.
abbrev pub Tables : Type 0
Tables = List TrainingCourse × List TrainingCourseVersion

abbrev pub tables : World → Tables
tables w = (w.courses, w.versions)

module _ (float_of : Text → Option Float) where
  -- One version more, the row's, which is the next one of the course and its active one.
  abbrev pub VersionAdded :
      Row → ℕ → List TrainingCourseVersion → List TrainingCourseVersion → Type 0
  VersionAdded raw course vs us =
      (v : TrainingCourseVersion) × (before : List TrainingCourseVersion) × (us ≡ before ++ v ∷ [])
      × (length before ≡ length vs)
      × (v.course_id ≡ course)
      × (v.version ≡ 1 + top_version course vs)
      × (v.title ≡ (version_of float_of raw).title)
      × (v.is_active ≡ true)

  -- One course more, the row's, with its first version.
  abbrev pub Added : Row → Tables → Tables → Type 0
  Added raw (cs, vs) (ds, us) =
      (d : TrainingCourse) × (d.code ≡ code_of raw)
      × (d.description ≡ description_in float_of raw)
      × (ds
          ≡ map (λ e. if e.id == d.id then record e { is_active = active_in float_of raw } else e)
              (cs ++ d ∷ []))
      × VersionAdded raw d.id vs us

  -- The course with the key has what the row says, and one version more.
  abbrev pub Rewritten : Row → ℕ → Tables → Tables → Type 0
  Rewritten raw id (cs, vs) (ds, us) =
      (ds
        ≡ map
            (λ e.
              if e.id == id
              then record e {
                description = description_in float_of raw;
                is_active = active_in float_of raw;
              }
              else e)
            cs)
      × VersionAdded raw id vs us

  -- What a row of a plan writes: nothing, where it has an error.
  abbrev pub Step : CourseRowResult → Tables → Tables → Type 0
  Step r s t =
      (no_errors r.errors ≡ false) × (t ≡ s)
      ⊎ (no_errors r.errors ≡ true) × (r.action ≡ create) × Added r.raw s t
      ⊎ (no_errors r.errors ≡ true)
        × (r.action ≡ update)
        × ((id : ℕ) × (r.matched_course_id ≡ some id) × Rewritten r.raw id s t)

  -- The rows of a plan are written one after the other.
  abbrev pub Written : List CourseRowResult → Tables → Tables → Type 0
  Written [] s t = t ≡ s
  Written (r ∷ rows) s u = (t : Tables) × Step r s t × Written rows t u
