-- ===== src/Training/Csv/Crew.antt =====
-- How the table of trainees changes while the rows of a plan are applied.
use qms_bakery.Prelude.{
  ℕ, suc, ◌≡◌, refl, ap, ◌∙◌, inl, inr, Bool, true, false, not, ◌||◌, some, List, [], ◌∷◌, ◌++◌,
  map, any, ◌==◌, if◌then◌else◌, arith, Bool-cases,
}
use qms_bakery.Prelude.Text.{Text, codes, text_eq, option_text_eq, is_blank, or_none}
use qms_bakery.Prelude.Text.Stripped.{strip-strip}
use qms_bakery.Models.Training.{Trainee}
use qms_bakery.World.{Env, World, ok, pure}
use qms_bakery.Audit.{record_entry}
use qms_bakery.Training.Catalogue.{NewTrainee, create_trainee, trimmed, new_trainee}
use qms_bakery.Training.Catalogue.Versions.{text_eq-sym}
use qms_bakery.Training.Csv.{Row, ImportCounts, column}
use qms_bakery.Training.Csv.Entered.{bind_ok, any-change, any_last}
use qms_bakery.Training.Csv.Trainees.{number_in, phone_in, name_in, role_in}
use qms_bakery.Training.Csv.Written.{Added, Rewritten, overwritten-Rewritten}
use qms_bakery.Training.Csv.Enlist.{trainee_of, overwritten, enter_trainee, overwrite}

abbrev pub has_number : Text → List Trainee → Bool
has_number number ts = any (λ (t : Trainee). option_text_eq t.employee_number (some number)) ts

abbrev pub has_phone : Text → List Trainee → Bool
has_phone phone ts = any (λ (t : Trainee). text_eq t.phone phone) ts

abbrev pub has_trainee : ℕ → List Trainee → Bool
has_trainee id ts = any (λ (t : Trainee). t.id == id) ts

-- The checks of `create_trainee`, on a row without errors.
abbrev pub IsNew : Row → World → Type 0
IsNew raw w =
    ((is_blank (phone_in raw) || is_blank (name_in raw) || is_blank (role_in raw)) ≡ false)
    × (is_blank (number_in raw) ≡ false)
    × (has_phone (phone_in raw) w.trainees ≡ false)
    × (has_number (number_in raw) w.trainees ≡ false)

any-map :
    (phone : Text) (ts : List Trainee)
    → any (text_eq phone) (map (λ (t : Trainee). t.phone) ts) ≡ has_phone phone ts
any-map phone [] = refl
any-map phone (t ∷ ts) = ground (arith, text_eq-sym phone t.phone, any-map phone ts)

full_text : (t : Text) → is_blank t ≡ false → or_none t ≡ some t
full_text [] h = absurd (ground arith)
full_text (c ∷ s) h = refl

trimmed_number :
    (raw : Row)
    → is_blank (number_in raw) ≡ false
    → trimmed (some (number_in raw)) ≡ some (number_in raw)
trimmed_number raw full =
    ap or_none (strip-strip (column (codes "employee_number") raw)) ∙ full_text (number_in raw) full

-- What `create_trainee` returns when it does not raise, and the row that it adds.
create_trainee_lem :
    (env : Env) (n : NewTrainee) (number : Text) (w : World)
    → (is_blank n.phone || is_blank n.full_name || is_blank n.role_code) ≡ false
    → any (text_eq n.phone) (map (λ (t : Trainee). t.phone) w.trainees) ≡ false
    → trimmed n.employee_number ≡ some number
    → has_number number w.trainees ≡ false
    → let (r, w') = create_trainee env n w in
      (t : Trainee) × (r ≡ ok t)
      × (t.phone ≡ n.phone)
      × (t.employee_number ≡ some number)
      × (t.full_name ≡ n.full_name)
      × (t.role_code ≡ n.role_code)
      × (t.is_active ≡ true)
      × (w'.trainees ≡ w.trainees ++ t ∷ [])
unfolding create_trainee record_entry
create_trainee_lem env n number w fields phone_free numbered number_free =
    rw (fields, phone_free, numbered, number_free)
      (
        record (new_trainee env n _) { employee_number = some number },
        refl,
        refl,
        refl,
        refl,
        refl,
        refl,
        refl,
      )

enter_trainee_lem :
    (env : Env) (raw : Row) (c : ImportCounts) (w : World)
    → IsNew raw w
    → let (r, w') = enter_trainee env raw c w in
      (t : Trainee) × (r ≡ ok (record c { created = suc c.created }))
      × (t.phone ≡ phone_in raw)
      × (t.employee_number ≡ some (number_in raw))
      × (t.full_name ≡ name_in raw)
      × (t.role_code ≡ role_in raw)
      × (t.is_active ≡ true)
      × (w'.trainees ≡ w.trainees ++ t ∷ [])
enter_trainee_lem env raw c w (fields, full, phone_free, number_free) =
    let n = trainee_of raw w in
    let (t, made, phoned, numbered, named, rolled, active, table) =
      create_trainee_lem env n (number_in raw) w fields
        (any-map (phone_in raw) w.trainees ∙ phone_free) (trimmed_number raw full) number_free in
    let whole =
      bind_ok (create_trainee env n) (λ _. pure (record c { created = suc c.created })) t w made in
    (
      t,
      ap (λ q. q.0) whole,
      phoned,
      numbered,
      named,
      rolled,
      active,
      ap (λ q. q.1.trainees) whole ∙ table,
    )

-- What applying a row leaves of the table: no number or phone but the row's own comes, and no row goes.
abbrev pub Keeps : Row → World → World → Type 0
Keeps raw w w' =
    ((k : Text)
      → (text_eq (number_in raw) k || has_number k w.trainees || not (has_number k w'.trainees))
        ≡ true)
    × ((k : Text)
        → (text_eq (phone_in raw) k || has_phone k w.trainees || not (has_phone k w'.trainees))
          ≡ true)
    × ((id : ℕ) → (not (has_trainee id w.trainees) || has_trainee id w'.trainees) ≡ true)

either_way : (a b c : Bool) → c ≡ b → (a || b || not c) ≡ true
either_way a b c h = ground arith

kept : (a b : Bool) → b ≡ a → (not a || b) ≡ true
kept a b h = ground arith

one_more : (a b c d : Bool) → c ≡ (b || d) → d ≡ a → (a || b || not c) ≡ true
one_more a b c d h g = ground arith

more : (a b c : Bool) → b ≡ (a || c) → (not a || b) ≡ true
more a b c h = ground arith

-- A change of a row that makes a test `b`.
any-set :
    {A : Type 0} (p q : A → Bool) (f : A → A) (b : Bool) (xs : List A)
    → ((x : A) → p (f x) ≡ b)
    → (b || any p xs || not (any p (map (λ x. if q x then f x else x) xs))) ≡ true
any-set p q f b [] sets = ground arith
any-set p q f b (x ∷ xs) sets = elim (Bool-cases (q x)) [
  | inl hit ↦ rw hit (ground (arith, sets x, any-set p q f b xs sets))
  | inr miss ↦ rw miss (ground (arith, any-set p q f b xs sets))
]

pub enter_trainee-Keeps :
    (env : Env) (raw : Row) (c : ImportCounts) (w : World)
    → IsNew raw w
    → let (r, w') = enter_trainee env raw c w in
      (r ≡ ok (record c { created = suc c.created }))
      × Keeps raw w w'
      × Added raw w.trainees w'.trainees
enter_trainee-Keeps env raw c w new =
    let (t, made, phoned, numbered, named, rolled, active, table) =
      enter_trainee_lem env raw c w new in
    (
      made,
      (
        λ k.
            one_more _ _ _ _ (ap (has_number k) table ∙ any_last _ w.trainees t)
              (ap (λ o. option_text_eq o (some k)) numbered),
        λ k.
            one_more _ _ _ _ (ap (has_phone k) table ∙ any_last _ w.trainees t)
              (ap (λ o. text_eq o k) phoned),
        λ j. more _ _ _ (ap (has_trainee j) table ∙ any_last _ w.trainees t),
      ),
      (t, table, (phoned, named, rolled), numbered, active),
    )

pub overwrite-Keeps :
    (env : Env) (raw : Row) (c : ImportCounts) (t : Trainee) (w : World)
    → let (r, w') = overwrite env raw c (some t) w in
      (r ≡ ok (record c { updated = suc c.updated }))
      × Keeps raw w w'
      × Rewritten raw t.id w.trainees w'.trainees
overwrite-Keeps env raw c t w = (
  refl,
  (
    λ k.
        either_way _ _ _
          (any-change _ (λ u. u.id == t.id) (overwritten env raw w) w.trainees (λ u. refl)),
    λ k. any-set _ (λ u. u.id == t.id) (overwritten env raw w) _ w.trainees (λ u. refl),
    λ j. kept _ _ (any-change _ (λ u. u.id == t.id) (overwritten env raw w) w.trainees (λ u. refl)),
  ),
  overwritten-Rewritten env raw w t.id w.trainees,
)
