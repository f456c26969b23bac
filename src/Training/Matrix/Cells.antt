-- ===== src/Training/Matrix/Cells.antt =====
-- The bulk-loaded grid against the queries for one trainee and one course.
use qms_bakery.Prelude.{
  ℕ, ◌≤◌, ◌≡◌, refl, ap, ◌∙◌, inl, inr, Bool, true, ◌&&◌, ◌||◌, Option, some, List, [], ◌∷◌, ◌++◌,
  keep, any, elem, All, ltb, ◌==◌, if◌then◌else◌, is_none, arith, Bool-cases, Option-cases, ==_iff,
}
use qms_bakery.Models.Training.{
  Trainee, TrainingCourse, TrainingCourseVersion, TrainingEnrolment, TrainingCertification,
  in_open_states,
}
use qms_bakery.World.{Env, World, now}
use qms_bakery.Training.Queries.{
  assignment_matches, latest_certification, latest, later, has_open_enrolment, is_open_for,
}
use qms_bakery.Training.Compliance.{compliance_state}
use qms_bakery.Training.Matrix.{
  insert_by, sort_by, cert_rows, cert_by, version_pairs, open_pairs, has_pair, loaded_cell, ids_of,
  course_ids, Cell,
}

abbrev Cert : Type 0
Cert = TrainingCertification

abbrev before : Cert → Cert → Bool
before a b = ltb a.valid_until b.valid_until

abbrev Low : ℕ → List Cert → Type 0
Low m rows = All (λ r. m ≤ r.valid_until) rows

abbrev Ascends : List Cert → Type 0
Ascends [] = Unit
Ascends (r ∷ rs) = Low r.valid_until rs × Ascends rs

Low-mono : (m n : ℕ) (rs : List Cert) → m ≤ n → Low n rs → Low m rs
Low-mono m n [] le h = tt
Low-mono m n (r ∷ rs) le h = (omega arith, Low-mono m n rs le h.1)

Low-insert_by :
    (m : ℕ) (x : Cert) (rs : List Cert)
    → m ≤ x.valid_until
    → Low m rs
    → Low m (insert_by before x rs)
unfolding insert_by
Low-insert_by m x [] le h = (le, tt)
Low-insert_by m x (r ∷ rs) le h = elim (Bool-cases (before r x)) [
  | inl less ↦ rw less (h.0, Low-insert_by m x rs le h.1)
  | inr more ↦ rw more (le, h)
]

Ascends-insert_by : (x : Cert) (rs : List Cert) → Ascends rs → Ascends (insert_by before x rs)
unfolding insert_by
Ascends-insert_by x [] h = (tt, tt)
Ascends-insert_by x (r ∷ rs) h = elim (Bool-cases (before r x)) [
  | inl less ↦
      rw less (Low-insert_by r.valid_until x rs (ground arith) h.0, Ascends-insert_by x rs h.1)
  | inr more ↦
      let le : x.valid_until ≤ r.valid_until = ground arith in
      rw more ((le, Low-mono x.valid_until r.valid_until rs le h.0), h)
]

Ascends-sort_by : (rs : List Cert) → Ascends (sort_by before rs)
unfolding sort_by
Ascends-sort_by [] = tt
Ascends-sort_by (r ∷ rs) = Ascends-insert_by r (sort_by before rs) (Ascends-sort_by rs)

module _ (t c : ℕ) where
  abbrev of_key : Cert → Bool
  of_key r = (r.trainee_id == t) && (r.course_id == c)

  cert_by-Low :
      (m : ℕ) (rs : List Cert) (l : Cert) → Low m rs → cert_by t c rs ≡ some l → m ≤ l.valid_until
  cert_by-Low m [] l low h = absurd (cc)
  cert_by-Low m (r ∷ rs) l low h = elim (Option-cases (cert_by t c rs)) [
    | inl nothing ↦ ground arith
    | inr (k, found) ↦ ground (arith, cert_by-Low m rs k low.1 found)
  ]

  -- A row is inserted as a loop over the rows in table order would take it.
  cert_by-insert_by :
      (x : Cert) (rs : List Cert)
      → Ascends rs
      → cert_by t c (insert_by before x rs)
        ≡ (if of_key x then some (later x (cert_by t c rs)) else cert_by t c rs)
  unfolding insert_by
  cert_by-insert_by x [] h = ground arith
  cert_by-insert_by x (r ∷ rs) h = elim (Bool-cases (before r x)) [
    | inl less ↦
        let ih = cert_by-insert_by x rs h.1 in
        elim (Option-cases (cert_by t c rs)) [
          | inl nothing ↦ rw (less, ih, nothing) (ground arith)
          | inr (k, found) ↦ rw (less, ih, found) (ground arith)
        ]
    | inr more ↦ elim (Option-cases (cert_by t c rs)) [
      | inl nothing ↦ rw (more, nothing) (ground arith)
      | inr (k, found) ↦
          let low = cert_by-Low r.valid_until rs k h.0 found in rw (more, found) (ground arith)
    ]
  ]

module _ (env : Env) (t c : ℕ) (ts cs : List ℕ) (in_ts : elem t ts ≡ true)
    (in_cs : elem c cs ≡ true) where
  has_pair-append :
      (ps qs : List (ℕ × ℕ)) → has_pair t c (ps ++ qs) ≡ (has_pair t c ps || has_pair t c qs)
  has_pair-append [] qs = refl
  has_pair-append ((a, b) ∷ ps) qs = ground (arith, has_pair-append ps qs)

  elem-same : (a b : ℕ) (xs : List ℕ) → (a == b) ≡ true → elem b xs ≡ true → elem a xs ≡ true
  elem-same a b xs same h = ap (λ (k : ℕ). elem k xs) ((==_iff a b).0 same) ∙ h

  version_pairs_lem :
      (e : TrainingEnrolment) (vs : List TrainingCourseVersion)
      → has_pair t c (version_pairs env ts cs e vs) ≡ (
          any (λ v. (v.id == e.course_version_id) && (v.course_id == c)) vs
          && (e.trainee_id == t)
          && in_open_states e.status
          && ltb (now env) e.expires_at)
  version_pairs_lem e [] = refl
  version_pairs_lem e (v ∷ vs) = elim (Bool-cases (e.trainee_id == t)) [
    | inr other ↦ ground (arith, version_pairs_lem e vs)
    | inl mine ↦ elim (Bool-cases (v.course_id == c)) [
      | inr other ↦ ground (arith, version_pairs_lem e vs)
      | inl its ↦
          rw (elem-same e.trainee_id t ts mine in_ts, elem-same v.course_id c cs its in_cs)
            (ground (arith, version_pairs_lem e vs))
    ]
  ]

  open_pairs_lem :
      (w : World) (es : List TrainingEnrolment)
      → has_pair t c (open_pairs env ts cs w.versions es) ≡ any (is_open_for env t c w) es
  unfolding open_pairs
  open_pairs_lem w [] = refl
  open_pairs_lem w (e ∷ es) =
      has_pair-append (version_pairs env ts cs e w.versions) (open_pairs env ts cs w.versions es)
      ∙ rw (version_pairs_lem e w.versions, open_pairs_lem w es) refl

  cert_by-sort_by :
      (rs : List Cert)
      → cert_by t c (
          sort_by before
            (keep (λ r. elem r.trainee_id ts && elem r.course_id cs && is_none r.revoked_at) rs))
        ≡ latest (keep (λ r. (r.trainee_id == t) && (r.course_id == c) && is_none r.revoked_at) rs)
  unfolding sort_by
  cert_by-sort_by [] = refl
  cert_by-sort_by (r ∷ rs) =
      let loaded =
        λ (k : Cert). elem k.trainee_id ts && elem k.course_id cs && is_none k.revoked_at in
      let rest = sort_by before (keep loaded rs) in
      let sorted = Ascends-sort_by (keep loaded rs) in
      let ih = cert_by-sort_by rs in
      elim (Bool-cases (r.trainee_id == t)) [
        | inr other ↦ elim (Bool-cases (loaded r)) [
          | inl kept ↦ rw (kept, other, cert_by-insert_by t c r rest sorted) (rw (other) ih)
          | inr left ↦ rw (left, other) ih
        ]
        | inl mine ↦ elim (Bool-cases (r.course_id == c)) [
          | inr other ↦ elim (Bool-cases (loaded r)) [
            | inl kept ↦
                rw (kept, mine, other, cert_by-insert_by t c r rest sorted) (rw (mine, other) ih)
            | inr left ↦ rw (left, mine, other) ih
          ]
          | inl its ↦
              rw
                (
                  elem-same r.trainee_id t ts mine in_ts,
                  elem-same r.course_id c cs its in_cs,
                  mine,
                  its,
                )
                (elim (Bool-cases (is_none r.revoked_at)) [
                  | inl in_force ↦
                      rw (in_force, cert_by-insert_by t c r rest sorted, mine, its)
                        (ap (λ (o : Option Cert). some (later r o)) ih)
                  | inr revoked ↦ rw revoked ih
                ])
        ]
      ]

-- The cell that the queries for one trainee and one course give.
abbrev pub queried_cell : Env → World → TrainingCourse → Trainee → Cell
queried_cell env w c t = record {
  trainee = t.id;
  course = c.id;
  state =
      compliance_state env (any (λ a. assignment_matches a t) c.assignments)
        (latest_certification t.id c.id w) (has_open_enrolment env t.id c.id w);
  cert = latest_certification t.id c.id w;
}

pub loaded_cell-queried_cell :
    (env : Env) (w : World) (cs : List TrainingCourse) (ts : List Trainee) (c : TrainingCourse)
    (t : Trainee)
    → elem t.id (ids_of ts) ≡ true
    → elem c.id (course_ids cs) ≡ true
    → loaded_cell env w cs ts c t ≡ queried_cell env w c t
unfolding loaded_cell cert_rows latest_certification has_open_enrolment
loaded_cell-queried_cell env w cs ts c t in_ts in_cs =
    rw
      (
        cert_by-sort_by env t.id c.id (ids_of ts) (course_ids cs) in_ts in_cs w.certifications,
        open_pairs_lem env t.id c.id (ids_of ts) (course_ids cs) in_ts in_cs w w.enrolments,
      )
      refl
