-- ===== src/Training/Csv/Joined.antt =====
-- An import of trainees against its plan.
use qms_bakery.Prelude.{
  ℕ, suc, ◌+◌, ◌≡◌, refl, sym, subst, ap, ◌∙◌, inl, inr, Bool, true, false, not, ◌||◌, Option, none,
  some, List, [], ◌∷◌, find, ◌==◌, ==_refl, is_some, arith, Bool-cases, Option-cases,
}
use qms_bakery.Prelude.Text.{Text}
use qms_bakery.Models.Training.{Trainee}
use qms_bakery.World.{Env, World, Result, ok}
use qms_bakery.Training.Csv.{Row, ImportCounts}
use qms_bakery.Training.Csv.Trainees.{
  TraineeRowResult, TraineeRowError, created_rows, updated_rows, refused_rows, number_in, phone_in,
  trainee_errors, key_seen, with_number, with_phone, other_with_phone, planned_trainee,
  plan_trainees, plan_trainees_import,
}
use qms_bakery.Training.Csv.Enlist.{
  enter_trainee, overwrite, apply_trainee, apply_trainees, apply_trainees_plan,
}
use qms_bakery.Prelude.Rows.{found_key}
use qms_bakery.Training.Csv.Written.{Rewritten, Step, Written}
use qms_bakery.Training.Csv.Entered.{find-any, bind_ok}
use qms_bakery.Training.Csv.Faithful.{add_if, or_not, counts_eq}
use qms_bakery.Training.Csv.Crew.{
  has_number, has_phone, has_trainee, IsNew, enter_trainee-Keeps, overwrite-Keeps,
}
use qms_bakery.Training.Csv.Follows.{
  Fine, trainee_errors-Fine, Follows, Follows-seen, Follows-Keeps,
}

abbrev tally : ImportCounts → List TraineeRowResult → ImportCounts
tally c rows = record {
  created = c.created + created_rows rows;
  updated = c.updated + updated_rows rows;
  skipped = c.skipped + refused_rows rows;
}

-- The row is applied as the plan has it.
abbrev Applied :
    Env → World → List (Text × ℕ) → List (Text × ℕ) → ℕ → Row → ImportCounts → World → Type 0
Applied env w numbers phones i raw c w1 =
    let r = planned_trainee i raw (trainee_errors numbers phones raw w) w in
    let (out, w2) = apply_trainee env r c w1 in
    (out ≡ ok (tally c (r ∷ [])))
    × Follows (key_seen (number_in raw) i numbers) (key_seen (phone_in raw) i phones) w w2
    × Step r w1.trainees w2.trainees

tally-cons :
    (c : ImportCounts) (r : TraineeRowResult) (rows : List TraineeRowResult)
    → tally (tally c (r ∷ [])) rows ≡ tally c (r ∷ rows)
tally-cons c r rows =
    counts_eq _ _ (add_if _ c.created (created_rows rows)) (add_if _ c.updated (updated_rows rows))
      (add_if _ c.skipped (refused_rows rows))

absent :
    (seen before now : Bool)
    → (seen || before || not now) ≡ true
    → seen ≡ false
    → before ≡ false
    → now ≡ false
absent seen before now h a b = ground arith

-- A trainee that is found has an id of the table.
found_trainee :
    (p : Trainee → Bool) (ts : List Trainee) (t : Trainee)
    → find p ts ≡ some t
    → has_trainee t.id ts ≡ true
found_trainee p [] t h = absurd (ground arith)
found_trainee p (u ∷ ts) t h = elim (Bool-cases (p u)) [
  | inl here ↦ ground (arith, h, here, ==_refl t.id)
  | inr later ↦ ground (arith, found_trainee p ts t (ground (arith, h, later)))
]

still_there :
    (id : ℕ) (w w1 : World)
    → (not (has_trainee id w.trainees) || has_trainee id w1.trainees) ≡ true
    → has_trainee id w.trainees ≡ true
    → (u : Trainee) × (find (λ (t : Trainee). t.id == id) w1.trainees ≡ some u)
still_there id w w1 stays before =
    elim (Option-cases (find (λ (t : Trainee). t.id == id) w1.trainees)) [
      | inr there ↦ there
      | inl gone ↦
          absurd (
            ground (arith, stays, before, find-any (λ (t : Trainee). t.id == id) w1.trainees, gone))
    ]

module _ (env : Env) (w : World) (numbers phones : List (Text × ℕ)) (i : ℕ) (raw : Row)
    (c : ImportCounts) (w1 : World) where
  is_new :
      Fine numbers phones raw
      → with_number (number_in raw) w ≡ none
      → with_phone (phone_in raw) w ≡ none
      → Follows numbers phones w w1
      → IsNew raw w1
  is_new (number, phone, name, role, first_number, first_phone) no_number no_phone (a, b, _) = (
    ground (arith, phone, name, role),
    number,
    absent _ _ _ (b (phone_in raw)) (ap is_some first_phone)
        (sym (find-any _ w.trainees) ∙ ap is_some no_phone),
    absent _ _ _ (a (number_in raw)) (ap is_some first_number)
        (sym (find-any _ w.trainees) ∙ ap is_some no_number),
  )

  refused-Applied :
      (e : TraineeRowError) (es : List TraineeRowError)
      → trainee_errors numbers phones raw w ≡ e ∷ es
      → Follows numbers phones w w1
      → Applied env w numbers phones i raw c w1
  refused-Applied e es bad follows = rw bad (
    ap ok (counts_eq _ _ (omega arith) (omega arith) (omega arith)),
    Follows-seen raw i numbers phones w w1 follows,
    inl (refl, refl),
  )

  created-Applied :
      trainee_errors numbers phones raw w ≡ []
      → with_number (number_in raw) w ≡ none
      → with_phone (phone_in raw) w ≡ none
      → Follows numbers phones w w1
      → Applied env w numbers phones i raw c w1
  created-Applied fine no_number no_phone follows =
      let fields = trainee_errors-Fine numbers phones raw w fine in
      let (made, keeps, written) =
        enter_trainee-Keeps env raw c w1 (is_new fields no_number no_phone follows) in
      let w2 = (enter_trainee env raw c w1).1 in
      rw (fine, no_number, no_phone)
        (
          made ∙ ap ok (counts_eq _ _ (omega arith) (omega arith) (omega arith)),
          Follows-Keeps raw i numbers phones w w1 w2 fields follows keeps,
          inr (inl (refl, refl, written)),
        )

  taken-Applied :
      (other : Trainee)
      → trainee_errors numbers phones raw w ≡ []
      → with_number (number_in raw) w ≡ none
      → with_phone (phone_in raw) w ≡ some other
      → Follows numbers phones w w1
      → Applied env w numbers phones i raw c w1
  taken-Applied other fine no_number phone follows =
      rw (fine, no_number, phone)
        (
          ap ok (counts_eq _ _ (omega arith) (omega arith) (omega arith)),
          Follows-seen raw i numbers phones w w1 follows,
          inl (refl, refl),
        )

  clash-Applied :
      (t other : Trainee)
      → trainee_errors numbers phones raw w ≡ []
      → with_number (number_in raw) w ≡ some t
      → other_with_phone (phone_in raw) t.id w ≡ some other
      → Follows numbers phones w w1
      → Applied env w numbers phones i raw c w1
  clash-Applied t other fine number phone follows =
      rw (fine, number, phone)
        (
          ap ok (counts_eq _ _ (omega arith) (omega arith) (omega arith)),
          Follows-seen raw i numbers phones w w1 follows,
          inl (refl, refl),
        )

  updated-Applied :
      (t : Trainee)
      → trainee_errors numbers phones raw w ≡ []
      → with_number (number_in raw) w ≡ some t
      → other_with_phone (phone_in raw) t.id w ≡ none
      → Follows numbers phones w w1
      → Applied env w numbers phones i raw c w1
  updated-Applied t fine number free (new_numbers, new_phones, stay) =
      let (u, there) = still_there t.id w w1 (stay t.id) (found_trainee _ w.trainees t number) in
      let (made, keeps, written) = overwrite-Keeps env raw c u w1 in
      let w2 = (overwrite env raw c (some u) w1).1 in
      rw (fine, number, free, there)
        (
          made ∙ ap ok (counts_eq _ _ (omega arith) (omega arith) (omega arith)),
          Follows-Keeps raw i numbers phones w w1 w2 (trainee_errors-Fine numbers phones raw w fine)
              (new_numbers, new_phones, stay) keeps,
          inr (
              inr (
                refl,
                refl,
                (
                  t.id,
                  refl,
                  subst (λ id. Rewritten raw id w1.trainees w2.trainees)
                      (found_key (λ (x : Trainee). x.id) t.id w1.trainees u there) written,
                ),
              )),
        )

  row-Applied :
      (es : List TraineeRowError)
      → trainee_errors numbers phones raw w ≡ es
      → Follows numbers phones w w1
      → Applied env w numbers phones i raw c w1
  row-Applied (e ∷ es) bad follows = refused-Applied e es bad follows
  row-Applied [] fine follows = elim (Option-cases (with_number (number_in raw) w)) [
    | inl no_number ↦ elim (Option-cases (with_phone (phone_in raw) w)) [
      | inl no_phone ↦ created-Applied fine no_number no_phone follows
      | inr (other, phone) ↦ taken-Applied other fine no_number phone follows
    ]
    | inr (t, number) ↦ elim (Option-cases (other_with_phone (phone_in raw) t.id w)) [
      | inl free ↦ updated-Applied t fine number free follows
      | inr (other, phone) ↦ clash-Applied t other fine number phone follows
    ]
  ]

-- The rows are applied as the plan has them.
abbrev AllApplied :
    ImportCounts → List TraineeRowResult → List Trainee → Result ImportCounts × World → Type 0
AllApplied c rows ts q = (q.0 ≡ ok (tally c rows)) × Written rows ts q.1.trainees

apply_trainees-plan :
    (env : Env) (w : World) (numbers phones : List (Text × ℕ)) (i : ℕ) (rows : List Row)
    (c : ImportCounts) (w1 : World)
    → Follows numbers phones w w1
    → AllApplied c
        (plan_trainees w numbers phones i rows)
        w1.trainees
        (apply_trainees env (plan_trainees w numbers phones i rows) c w1)
unfolding apply_trainees plan_trainees
apply_trainees-plan env w numbers phones i [] c w1 follows =
    (ap ok (counts_eq _ _ (omega arith) (omega arith) (omega arith)), refl)
apply_trainees-plan env w numbers phones i (raw ∷ rows) c w1 follows =
    let r = planned_trainee i raw (trainee_errors numbers phones raw w) w in
    let numbers' = key_seen (number_in raw) i numbers in
    let phones' = key_seen (phone_in raw) i phones in
    let rest = plan_trainees w numbers' phones' (suc i) rows in
    let (out, next, step) =
      row-Applied env w numbers phones i raw c w1 (trainee_errors numbers phones raw w) refl
        follows in
    let w2 = (apply_trainee env r c w1).1 in
    let (more, written) =
      apply_trainees-plan env w numbers' phones' (suc i) rows (tally c (r ∷ [])) w2 next in
    subst (AllApplied c (r ∷ rest) w1.trainees)
      (sym (bind_ok (apply_trainee env r c) (apply_trainees env rest) (tally c (r ∷ [])) w1 out))
      (more ∙ ap ok (tally-cons c r rest), (w2.trainees, step, written))

or_or_not : (b : Bool) → (false || b || not b) ≡ true
or_or_not b = ground arith

-- An import of trainees that is applied to the table for which it was planned does what the plan announced,
-- whatever the file says: it does not raise, counts as many created, updated and skipped rows as the plan
-- has rows to create, to update and with an error, and writes the rows one after the other. A row to create
-- adds one active trainee with its number, phone, name and role; a row to update gives the trainee whom the
-- plan has found its phone, name, role, address and state and leaves the others; a row with an error writes
-- nothing.
pub apply_trainees_plan-plan_trainees_import :
    (env : Env) (file : Option (List Row)) (w : World)
    → let plan = plan_trainees_import file w in
      let (out, w') = apply_trainees_plan env plan w in
      (out
        ≡ ok (record {
          created = created_rows plan;
          updated = updated_rows plan;
          skipped = refused_rows plan;
        }))
      × Written plan w.trainees w'.trainees
unfolding apply_trainees_plan plan_trainees_import apply_trainees
apply_trainees_plan-plan_trainees_import env none w = (refl, (w.trainees, inl (refl, refl), refl))
apply_trainees_plan-plan_trainees_import env (some rows) w =
    let (out, written) =
      apply_trainees-plan env w [] [] 2 rows (record { created = 0; updated = 0; skipped = 0 }) w
        (
          λ k. or_or_not (has_number k w.trainees),
          λ k. or_or_not (has_phone k w.trainees),
          λ id. or_not (has_trainee id w.trainees),
        ) in
    (out ∙ ap ok (counts_eq _ _ (omega arith) (omega arith) (omega arith)), written)
