-- ===== src/Training/Csv/Written.antt =====
-- What the rows of an import of trainees are to write, row by row.
use qms_bakery.Prelude.{
  ℕ, ◌≡◌, ◌⊎◌, refl, inl, inr, true, false, some, List, [], ◌∷◌, ◌++◌, map, ◌==◌, ==_iff,
  if◌then◌else◌, Bool-cases,
}
use qms_bakery.Models.Training.{Trainee}
use qms_bakery.World.{Env, World}
use qms_bakery.Training.Csv.{Row, create, update}
use qms_bakery.Training.Csv.Trainees.{
  TraineeRowResult, is_fine, number_in, phone_in, name_in, role_in, email_in, is_active_in,
}
use qms_bakery.Training.Csv.Enlist.{overwritten}

-- The trainee has what the row says.
abbrev pub Matches : Row → Trainee → Type 0
Matches raw t = (t.phone ≡ phone_in raw) × (t.full_name ≡ name_in raw) × (t.role_code ≡ role_in raw)

-- The table with one trainee more, who is the one of the row.
abbrev pub Added : Row → List Trainee → List Trainee → Type 0
Added raw ts us =
    (t : Trainee) × (us ≡ ts ++ t ∷ [])
    × Matches raw t
    × (t.employee_number ≡ some (number_in raw))
    × (t.is_active ≡ true)

-- The table where the trainee with the key has what the row says, and nobody else is changed.
abbrev pub Rewritten : Row → ℕ → List Trainee → List Trainee → Type 0
Rewritten raw id [] [] = Unit
Rewritten raw id (t ∷ ts) (u ∷ us) =
    (((t.id ≡ id)
        × (u.id ≡ t.id)
        × (u.employee_number ≡ t.employee_number)
        × Matches raw u
        × (u.email ≡ email_in raw)
        × (u.is_active ≡ is_active_in raw))
      ⊎ ((t.id == id) ≡ false) × (u ≡ t))
    × Rewritten raw id ts us
Rewritten raw id _ _ = ⊥

-- What a row of a plan writes: nothing, where it has an error.
abbrev pub Step : TraineeRowResult → List Trainee → List Trainee → Type 0
Step r ts us =
    (is_fine r.errors ≡ false) × (us ≡ ts)
    ⊎ (is_fine r.errors ≡ true) × (r.action ≡ create) × Added r.raw ts us
    ⊎ (is_fine r.errors ≡ true)
      × (r.action ≡ update)
      × ((id : ℕ) × (r.matched_trainee_id ≡ some id) × Rewritten r.raw id ts us)

-- The rows of a plan are written one after the other.
abbrev pub Written : List TraineeRowResult → List Trainee → List Trainee → Type 0
Written [] ts us = us ≡ ts
Written (r ∷ rows) ts vs = (us : List Trainee) × Step r ts us × Written rows us vs

pub overwritten-Rewritten :
    (env : Env) (raw : Row) (w : World) (id : ℕ) (ts : List Trainee)
    → Rewritten raw id ts (map (λ t. if t.id == id then overwritten env raw w t else t) ts)
overwritten-Rewritten env raw w id [] = tt
overwritten-Rewritten env raw w id (t ∷ ts) = elim (Bool-cases (t.id == id)) [
  | inl hit ↦ rw hit (
    inl ((==_iff t.id id).0 hit, refl, refl, (refl, refl, refl), refl, refl),
    overwritten-Rewritten env raw w id ts,
  )
  | inr miss ↦ rw miss (inr (refl, refl), overwritten-Rewritten env raw w id ts)
]
