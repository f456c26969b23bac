-- ===== src/Gdpr/Rehash.antt =====
-- The chain under the re-hash, and what the re-hash changes.
use qms_bakery.Prelude.{
  ℕ, ◌≤◌, ◌≡◌, sym, ◌∙◌, refl, true, List, [], ◌∷◌, ◌++◌, map, elem, arith, ap, ltb, ◌==◌, any,
  Bool-cases, inl, inr,
}
use qms_bakery.Json.{Fields}
use qms_bakery.Models.Audit.{AuditLog, Payload, genesis_hash}
use qms_bakery.World.{Env}
use qms_bakery.Audit.{tail_checksum}
use qms_bakery.Audit.Chain.{Verifies, end_of, tail_checksum-eq}
use qms_bakery.Audit.Order.{Ascends, starts_at, starts_at_key, rows_before, rows_from, rows_split}
use qms_bakery.Gdpr.{redaction_marker, minimum, mark, relink, rehash, redact_audit_rows}

rehash-Verifies :
    (hash : Payload → ℕ) (marker : Fields) (ids : List ℕ) (p : ℕ) (log : List AuditLog)
    → Verifies hash p (rehash hash marker ids p log)
unfolding rehash
rehash-Verifies hash marker ids p [] = tt
rehash-Verifies hash marker ids p (e ∷ log) =
    (refl, refl, rehash-Verifies hash marker ids (relink hash marker ids p e).checksum log)

module _ (hash : Payload → ℕ) where
  Verifies-append :
      (p : ℕ) (xs ys : List AuditLog)
      → Verifies hash p xs
      → Verifies hash (end_of hash p xs) ys
      → Verifies hash p (xs ++ ys)
  Verifies-append p [] ys hx hy = hy
  Verifies-append p (x ∷ xs) ys hx hy = (hx.0, hx.1, Verifies-append x.checksum xs ys hx.2 hy)

  Verifies-prefix :
      (p : ℕ) (xs ys : List AuditLog) → Verifies hash p (xs ++ ys) → Verifies hash p xs
  Verifies-prefix p [] ys h = tt
  Verifies-prefix p (x ∷ xs) ys h = (h.0, h.1, Verifies-prefix x.checksum xs ys h.2)

-- The re-hashed trail of `_redact_audit_rows` verifies if the old one did.
pub redact_audit_rows-Verifies :
    (env : Env) (ids : List ℕ) (log : List AuditLog)
    → Ascends 1 log
    → Verifies env.sha256 genesis_hash log
    → Verifies env.sha256 genesis_hash (redact_audit_rows env ids log).1
unfolding redact_audit_rows
redact_audit_rows-Verifies env [] log o h = h
redact_audit_rows-Verifies env (id ∷ ids) log o h =
    let first = minimum id ids in
    let rows = rows_from first log in
    let before = rows_before first log in
    let kept =
      Verifies-prefix env.sha256 genesis_hash before rows (rw (rows_split 1 first log o) h) in
    elim (Bool-cases (starts_at first rows)) [
      | inr absent ↦ rw absent h
      | inl found ↦ rw found (
          Verifies-append env.sha256 genesis_hash before _ kept (
            rw (← tail_checksum-eq env.sha256 before)
              (rehash-Verifies env.sha256 (redaction_marker env) (id ∷ ids) _ rows)))
    ]

-- A row without its sums.
abbrev pub unlinked : AuditLog → AuditLog
unlinked e = record e { prev_checksum = 0; checksum = 0 }

map-unlinked-rehash :
    (hash : Payload → ℕ) (marker : Fields) (ids : List ℕ) (p : ℕ) (log : List AuditLog)
    → map unlinked (rehash hash marker ids p log) ≡ map (λ e. unlinked (mark marker ids e)) log
unfolding rehash
map-unlinked-rehash hash marker ids p [] = refl
map-unlinked-rehash hash marker ids p (e ∷ log) =
    ap (λ (l : List AuditLog). unlinked (mark marker ids e) ∷ l)
      (map-unlinked-rehash hash marker ids (relink hash marker ids p e).checksum log)

minimum-le : (a : ℕ) (bs : List ℕ) → minimum a bs ≤ a
minimum-le a [] = omega arith
minimum-le a (b ∷ bs) = ground (arith, minimum-le a bs, minimum-le b bs)

minimum-le_of_elem : (k a : ℕ) (bs : List ℕ) → elem k (a ∷ bs) ≡ true → minimum a bs ≤ k
minimum-le_of_elem k a [] h = ground arith
minimum-le_of_elem k a (b ∷ bs) h =
    ground (
      arith,
      minimum-le a bs,
      minimum-le b bs,
      minimum-le_of_elem k a bs,
      minimum-le_of_elem k b bs,
    )

-- No row before the smallest listed key is listed.
rows_before-unmarked :
    (marker : Fields) (id : ℕ) (ids : List ℕ) (log : List AuditLog)
    → map (λ e. unlinked (mark marker (id ∷ ids) e)) (rows_before (minimum id ids) log)
      ≡ map unlinked (rows_before (minimum id ids) log)
rows_before-unmarked marker id ids [] = refl
rows_before-unmarked marker id ids (e ∷ log) = elim (Bool-cases (ltb e.id (minimum id ids))) [
  | inr above ↦ rw above (rows_before-unmarked marker id ids log)
  | inl below ↦ elim (Bool-cases (elem e.id (id ∷ ids))) [
    | inl listed ↦ absurd (ground (arith, minimum-le_of_elem e.id id ids listed))
    | inr plain ↦
        rw (below, plain)
          (ap (λ (l : List AuditLog). unlinked e ∷ l) (rows_before-unmarked marker id ids log))
  ]
]

map-append :
    (f : AuditLog → AuditLog) (xs ys : List AuditLog) → map f (xs ++ ys) ≡ map f xs ++ map f ys
map-append f [] ys = refl
map-append f (x ∷ xs) ys = ap (λ (l : List AuditLog). f x ∷ l) (map-append f xs ys)

-- Apart from the two sums, `_redact_audit_rows` changes the diffs of the listed rows, each to the
-- marker, and nothing else, if the smallest listed key is a key of the trail.
pub redact_audit_rows-frame :
    (env : Env) (id : ℕ) (ids : List ℕ) (log : List AuditLog)
    → Ascends 1 log
    → any (λ e. e.id == minimum id ids) log ≡ true
    → map unlinked (redact_audit_rows env (id ∷ ids) log).1
      ≡ map (λ e. unlinked (mark (redaction_marker env) (id ∷ ids) e)) log
unfolding redact_audit_rows
redact_audit_rows-frame env id ids log o found =
    let first = minimum id ids in
    let marker = redaction_marker env in
    let rows = rows_from first log in
    let before = rows_before first log in
    let f = λ (e : AuditLog). unlinked (mark marker (id ∷ ids) e) in
    rw (starts_at_key 1 first log o found) (
      map-append unlinked before _
      ∙ ap (λ (l : List AuditLog). map unlinked before ++ l)
          (map-unlinked-rehash env.sha256 marker (id ∷ ids) (tail_checksum before) rows)
      ∙ ap (λ (l : List AuditLog). l ++ map f rows) (sym (rows_before-unmarked marker id ids log))
      ∙ sym (map-append f before rows)
      ∙ ap (map f) (rows_split 1 first log o))
