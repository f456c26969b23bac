-- ===== src/Training/Csv/Entered.antt =====
-- The tables after a row of an import of courses that creates or updates one, and tests on lists.
use qms_bakery.Prelude.{
  ℕ, suc, ◌≡◌, refl, sym, subst, ap, ◌∙◌, inl, inr, Bool, ◌||◌, Option, none, some, List, [], ◌∷◌,
  ◌++◌, map, any, find, ◌==◌, if◌then◌else◌, is_some, arith, Bool-cases,
}
use qms_bakery.Prelude.Text.{Text, text_eq}
use qms_bakery.Models.Training.{TrainingCourse, TrainingCourseVersion}
use qms_bakery.World.{Env, World, Session, Result, ok, err, ◌>>=◌, pure}
use qms_bakery.Audit.{record_entry}
use qms_bakery.Training.Queries.{get_course_by_code}
use qms_bakery.Training.Catalogue.{create_course, add_course_version, retire}
use qms_bakery.Training.Csv.{Row, Float, ImportCounts}
use qms_bakery.Prelude.Rows.{length-map}
use qms_bakery.Training.Csv.Versioned.{tables, VersionAdded, Added, Rewritten}
use qms_bakery.Training.Csv.Courses.{
  code_of, set_course, activate, with_version, create_from, update_from, version_of, description_in,
  active_in,
}

abbrev pub has_code : Text → List TrainingCourse → Bool
has_code code cs = any (λ (c : TrainingCourse). text_eq c.code code) cs

abbrev pub has_id : ℕ → List TrainingCourse → Bool
has_id id cs = any (λ (c : TrainingCourse). c.id == id) cs

pub find-any : {A : Type 0} (p : A → Bool) (xs : List A) → is_some (find p xs) ≡ any p xs
find-any p [] = refl
find-any p (x ∷ xs) = ground (arith, find-any p xs)

any-append :
    {A : Type 0} (p : A → Bool) (xs ys : List A) → any p (xs ++ ys) ≡ (any p xs || any p ys)
any-append p [] ys = refl
any-append p (x ∷ xs) ys = ground (arith, any-append p xs ys)

-- A change of a row that keeps what a test looks at.
pub any-change :
    {A : Type 0} (p q : A → Bool) (f : A → A) (xs : List A)
    → ((x : A) → p (f x) ≡ p x)
    → any p (map (λ x. if q x then f x else x) xs) ≡ any p xs
any-change p q f [] keeps = refl
any-change p q f (x ∷ xs) keeps = elim (Bool-cases (q x)) [
  | inl hit ↦ rw hit (ground (arith, keeps x, any-change p q f xs keeps))
  | inr miss ↦ rw miss (ground (arith, any-change p q f xs keeps))
]

abbrev bound : {A B : Type 0} → (A → Session B) → Result A → World → Result B × World
bound f r w = elim r [ ok a ↦ f a w | err e ↦ (err e, w) ]

bound_ok :
    {A B : Type 0} (f : A → Session B) (r : Result A) (a : A) (w : World)
    → r ≡ ok a
    → bound f r w ≡ f a w
bound_ok f r a w h = ap (λ q. bound f q w) h

pub bind_ok :
    {A B : Type 0} (m : Session A) (f : A → Session B) (a : A) (w : World)
    → (m w).0 ≡ ok a
    → (m >>= f) w ≡ f a (m w).1
bind_ok m f a w h = bound_ok f (m w).0 a (m w).1 h

create_course_lem :
    (env : Env) (code : Text) (description : Option Text) (w : World)
    → get_course_by_code code w ≡ none
    → let (r, w') = create_course env code description w in
      (c : TrainingCourse) × (r ≡ ok c)
      × (c.code ≡ code)
      × (c.description ≡ description)
      × (w'.versions ≡ w.versions)
      × (w'.courses ≡ w.courses ++ c ∷ [])
unfolding create_course record_entry
create_course_lem env code description w free =
    rw (free, create_course) (_, refl, refl, refl, refl, refl)

pub any_last :
    {A : Type 0} (p : A → Bool) (xs : List A) (x : A) → any p (xs ++ x ∷ []) ≡ (any p xs || p x)
any_last p xs x = ground (arith, any-append p xs (x ∷ []))

module _ (float_of : Text → Option Float) (env : Env) where
  add_course_version-courses :
      (c : TrainingCourse) (raw : Row) (w : World)
      → let (r, w') = add_course_version env c (version_of float_of raw) w in
        (v : TrainingCourseVersion) × (r ≡ ok v)
        × (w'.courses ≡ w.courses)
        × VersionAdded float_of raw c.id w.versions w'.versions
  unfolding add_course_version record_entry
  add_course_version-courses c raw w = (
    _,
    refl,
    refl,
    (
      _,
      map (retire c.id) w.versions,
      refl,
      length-map (retire c.id) w.versions,
      refl,
      refl,
      refl,
      refl,
    ),
  )

  -- The rows of courses after a row that creates one.
  pub create_from_lem :
      (raw : Row) (c : ImportCounts) (w : World)
      → get_course_by_code (code_of raw) w ≡ none
      → let (r, w') = create_from float_of env raw c w in
        (d : TrainingCourse) × (r ≡ ok (record c { created = suc c.created }))
        × (d.code ≡ code_of raw)
        × (w'.courses
            ≡ (set_course d.id
                (λ e. record e { is_active = active_in float_of raw })
                (record w { courses = w.courses ++ d ∷ [] })).courses)
        × Added float_of raw (tables w) (tables w')
  create_from_lem raw c w free =
      let (d, made, named, described, versions, table) =
        create_course_lem env (code_of raw) (description_in float_of raw) w free in
      let w1 = (create_course env (code_of raw) (description_in float_of raw) w).1 in
      let (v, added, same, new) = add_course_version-courses d raw w1 in
      let w2 = (add_course_version env d (version_of float_of raw) w1).1 in
      let whole : create_from float_of env raw c w ≡ (
        ok (record c { created = suc c.created }),
        set_course d.id (λ e. record e { is_active = active_in float_of raw }) w2,
      ) =
        bind_ok (create_course env (code_of raw) (description_in float_of raw))
          (with_version float_of env raw c) d w made
        ∙ bind_ok (add_course_version env d (version_of float_of raw))
            (λ _. activate float_of raw c d) v w1 added in
      let courses =
        ap (λ p. p.1.courses) whole
        ∙ ap
            (map (λ e. if e.id == d.id then record e { is_active = active_in float_of raw } else e))
            (same ∙ table) in
      (
        d,
        ap (λ p. p.0) whole,
        named,
        courses,
        (
          d,
          named,
          described,
          courses,
          subst (λ us. VersionAdded float_of raw d.id w.versions us)
              (sym (ap (λ p. p.1.versions) whole))
              (subst (λ vs. VersionAdded float_of raw d.id vs w2.versions) versions new),
        ),
      )

  pub update_from_lem :
      (raw : Row) (c : ImportCounts) (d : TrainingCourse) (w : World)
      → let (r, w') = update_from float_of env raw c (some d) w in
        (r ≡ ok (record c { updated = suc c.updated }))
        × (w'.courses
            ≡ (set_course d.id
                (λ e. record e {
                  description = description_in float_of raw;
                  is_active = active_in float_of raw;
                })
                w).courses)
        × Rewritten float_of raw d.id (tables w) (tables w')
  update_from_lem raw c d w =
      let w1 =
        set_course d.id
          (λ e. record e {
            description = description_in float_of raw;
            is_active = active_in float_of raw;
          })
          w in
      let (v, added, same, new) = add_course_version-courses d raw w1 in
      let whole =
        bind_ok (add_course_version env d (version_of float_of raw))
          (λ _. pure (record c { updated = suc c.updated })) v w1 added in
      let courses = ap (λ p. p.1.courses) whole ∙ same in
      (
        ap (λ p. p.0) whole,
        courses,
        (
          courses,
          subst (λ us. VersionAdded float_of raw d.id w.versions us)
              (sym (ap (λ p. p.1.versions) whole)) new,
        ),
      )
