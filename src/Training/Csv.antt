-- ===== src/Training/Csv.antt =====
-- app/services/training_csv.py: the imports of courses and of trainees from the rows of a CSV file, each as
-- a plan and its application.
pub mod Courses
pub mod Trainees
pub mod Enlist
pub mod Versioned
pub mod Entered
pub mod Agrees
pub mod Written
pub mod Crew
pub mod Follows
pub mod Joined
pub mod Faithful
mod Tests
use qms_bakery.Prelude.{
  ℕ, Bool, true, false, ◌||◌, Option, none, some, List, [], ◌∷◌, any, map, if◌then◌else◌,
}
use qms_bakery.Prelude.Int.{ℤ}
use qms_bakery.Prelude.Text.{Text, codes, text_eq, is_blank, strip}
use qms_bakery.Prelude.Url.{lower_code}

-- A row as `_parse` gives it: columns with their stripped values.
abbrev pub Row : Type 0
Row = List (Text × Text)

-- `raw.get(name, "")`
abbrev pub column : Text → Row → Text
column name [] = []
column name ((k, v) ∷ row) = let rest = column name row in if text_eq k name then v else rest

-- `text or default`
abbrev pub or_text : Text → Text → Text
or_text s default = if is_blank s then default else s

-- The words for true in the column `is_active`.
unfoldable pub is_true_word : Text → Bool
is_true_word s =
    let word = map lower_code (strip s) in
    any (text_eq word)
      (codes "true" ∷ codes "1" ∷ codes "yes" ∷ codes "y" ∷ codes "tak" ∷ codes "t" ∷ [])

-- What Python's `float` makes of a text that it accepts: thousandths, or a NaN or an infinity.
pub data Float : Type 0 where
  finite : ℤ → Float
  not_finite : Float

pub data ImportAction : Type 0 where
  skip create update : ImportAction

pub record ImportCounts : Type 0 where
  pub created : ℕ
  pub updated : ℕ
  pub skipped : ℕ
