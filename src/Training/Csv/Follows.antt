-- ===== src/Training/Csv/Follows.antt =====
-- The table of trainees during an import against the one for which the import was planned.
use qms_bakery.Prelude.{
  ℕ, ◌≡◌, refl, sym, ap, ◌∙◌, inl, inr, Bool, true, false, not, ◌||◌, Option, none, some, List, [],
  ◌∷◌, ◌++◌, if◌then◌else◌, is_some, arith, Bool-cases,
}
use qms_bakery.Prelude.Text.{Text, text_eq, is_blank}
use qms_bakery.World.{World}
use qms_bakery.Training.Csv.{Row}
use qms_bakery.Training.Csv.Courses.{first_line}
use qms_bakery.Training.Csv.Trainees.{
  TraineeRowError, number_in, phone_in, name_in, role_in, when, twice, twice_errors,
  duplicate_number, duplicate_phone, field_errors, trainee_errors, key_seen,
}
use qms_bakery.Training.Csv.Agrees.{first_line-append, append_nil}
use qms_bakery.Training.Csv.Crew.{has_number, has_phone, has_trainee, Keeps}

append_left : {A : Type 0} (xs ys : List A) → xs ++ ys ≡ [] → xs ≡ []
append_left [] ys h = refl
append_left (x ∷ xs) ys h = absurd (ground arith)

none_raised : (b : Bool) (e : TraineeRowError) → when b e ≡ [] → b ≡ false
none_raised true e h = absurd (ground arith)
none_raised false e h = refl

not_twice : (error : ℕ → TraineeRowError) (o : Option ℕ) → twice error o ≡ [] → o ≡ none
not_twice error none h = refl
not_twice error (some i) h = absurd (ground arith)

first_time :
    (error : ℕ → TraineeRowError) (key : Text) (seen : List (Text × ℕ))
    → is_blank key ≡ false
    → twice_errors error key seen ≡ []
    → first_line key seen ≡ none
first_time error key seen full h =
    not_twice error (first_line key seen)
      (sym (ap (λ b. if b then [] else twice error (first_line key seen)) full) ∙ h)

-- A row without errors has its fields, and no row before it has its number or its phone.
abbrev pub Fine : List (Text × ℕ) → List (Text × ℕ) → Row → Type 0
Fine numbers phones raw =
    (is_blank (number_in raw) ≡ false)
    × (is_blank (phone_in raw) ≡ false)
    × (is_blank (name_in raw) ≡ false)
    × (is_blank (role_in raw) ≡ false)
    × (first_line (number_in raw) numbers ≡ none)
    × (first_line (phone_in raw) phones ≡ none)

pub trainee_errors-Fine :
    (numbers phones : List (Text × ℕ)) (raw : Row) (w : World)
    → trainee_errors numbers phones raw w ≡ []
    → Fine numbers phones raw
unfolding trainee_errors
trainee_errors-Fine numbers phones raw w h =
    let fields = append_left (field_errors raw w) _ h in
    let keys = append_nil (field_errors raw w) _ h in
    let four = append_left _ _ (append_left _ _ (append_left _ _ fields)) in
    let three = append_left _ _ four in
    let two = append_left _ _ three in
    let number = none_raised (is_blank (number_in raw)) _ (append_left _ _ two) in
    let phone = none_raised (is_blank (phone_in raw)) _ (append_nil _ _ two) in
    let name = none_raised (is_blank (name_in raw)) _ (append_nil _ _ three) in
    let role = none_raised (is_blank (role_in raw)) _ (append_nil _ _ four) in
    (
      number,
      phone,
      name,
      role,
      first_time duplicate_number (number_in raw) numbers number (append_left _ _ keys),
      first_time duplicate_phone (phone_in raw) phones phone
          (append_nil (twice_errors duplicate_number (number_in raw) numbers) _ keys),
    )

-- The table of trainees against the one that the plan saw: no number or phone that neither it nor a row so
-- far has, and every row that was there.
abbrev pub Follows : List (Text × ℕ) → List (Text × ℕ) → World → World → Type 0
Follows numbers phones w w1 =
    ((k : Text)
      → (is_some (first_line k numbers)
          || has_number k w.trainees
          || not (has_number k w1.trainees))
        ≡ true)
    × ((k : Text)
        → (is_some (first_line k phones) || has_phone k w.trainees || not (has_phone k w1.trainees))
          ≡ true)
    × ((id : ℕ) → (not (has_trainee id w.trainees) || has_trainee id w1.trainees) ≡ true)

seen_more :
    (seen : List (Text × ℕ)) (key k : Text) (i : ℕ) (w0 w1 : Bool)
    → (is_some (first_line k seen) || w0 || not w1) ≡ true
    → (is_some (first_line k (key_seen key i seen)) || w0 || not w1) ≡ true
seen_more seen key k i w0 w1 h = elim (Bool-cases (is_blank key)) [
  | inl blank ↦ rw blank h
  | inr full ↦ rw full (ground (arith, h, first_line-append k key i seen))
]

seen_own :
    (seen : List (Text × ℕ)) (key k : Text) (i : ℕ) (w0 w1 w2 : Bool)
    → is_blank key ≡ false
    → (is_some (first_line k seen) || w0 || not w1) ≡ true
    → (text_eq key k || w1 || not w2) ≡ true
    → (is_some (first_line k (key_seen key i seen)) || w0 || not w2) ≡ true
seen_own seen key k i w0 w1 w2 full h g =
    rw full (ground (arith, h, g, first_line-append k key i seen))

pub Follows-seen :
    (raw : Row) (i : ℕ) (numbers phones : List (Text × ℕ)) (w w1 : World)
    → Follows numbers phones w w1
    → Follows (key_seen (number_in raw) i numbers) (key_seen (phone_in raw) i phones) w w1
Follows-seen raw i numbers phones w w1 (a, b, c) = (
  λ k. seen_more numbers (number_in raw) k i _ _ (a k),
  λ k. seen_more phones (phone_in raw) k i _ _ (b k),
  c,
)

pub Follows-Keeps :
    (raw : Row) (i : ℕ) (numbers phones : List (Text × ℕ)) (w w1 w2 : World)
    → Fine numbers phones raw
    → Follows numbers phones w w1
    → Keeps raw w1 w2
    → Follows (key_seen (number_in raw) i numbers) (key_seen (phone_in raw) i phones) w w2
Follows-Keeps raw i numbers phones w w1 w2 (number, phone, _, _, _, _) (a, b, c) (d, e, f) = (
  λ k. seen_own numbers (number_in raw) k i _ _ _ number (a k) (d k),
  λ k. seen_own phones (phone_in raw) k i _ _ _ phone (b k) (e k),
  λ j. ground (arith, c j, f j),
)
