-- ===== src/Audit/Order.antt =====
-- The order of the keys of the trail, and the rows before a key and from it on.
use qms_bakery.Prelude.{
  ℕ, suc, ◌≤◌, ◌<◌, ◌≡◌, refl, Bool, true, false, Option, List, [], ◌∷◌, ◌++◌, arith, ltb, leb,
  keep, Bool-cases, any, ◌==◌, inl, inr,
}
use qms_bakery.Json.{Fields}
use qms_bakery.Models.Audit.{AuditLog, AuditAction, EntityType}
use qms_bakery.World.{Env, World}
use qms_bakery.Audit.{next_key, new_entry, record_entry}

-- Every key is at least `k`, and the keys ascend.
abbrev pub Ascends : ℕ → List AuditLog → Type 0
Ascends k [] = Unit
Ascends k (e ∷ log) = (k ≤ e.id) × Ascends (suc e.id) log

abbrev pub IsOrdered : World → Type 0
IsOrdered w = Ascends 1 w.audit_log

-- The rows before `k`, and the rows from `k` on.
abbrev pub rows_before : ℕ → List AuditLog → List AuditLog
rows_before k log = keep (λ e. ltb e.id k) log

abbrev pub rows_from : ℕ → List AuditLog → List AuditLog
rows_from k log = keep (λ e. leb k e.id) log

-- The first row has key `k`.
abbrev pub starts_at : ℕ → List AuditLog → Bool
starts_at k [] = false
starts_at k (e ∷ log) = e.id == k

rows_before-Ascends :
    (j k : ℕ) (log : List AuditLog) → k ≤ j → Ascends j log → rows_before k log ≡ []
rows_before-Ascends j k [] le h = refl
rows_before-Ascends j k (e ∷ log) le h =
    ground (arith, rows_before-Ascends (suc e.id) k log (omega arith) h.1)

rows_from-Ascends : (j k : ℕ) (log : List AuditLog) → k ≤ j → Ascends j log → rows_from k log ≡ log
rows_from-Ascends j k [] le h = refl
rows_from-Ascends j k (e ∷ log) le h =
    ground (arith, rows_from-Ascends (suc e.id) k log (omega arith) h.1)

pub rows_split :
    (j k : ℕ) (log : List AuditLog) → Ascends j log → rows_before k log ++ rows_from k log ≡ log
rows_split j k [] h = refl
rows_split j k (e ∷ log) h = elim (Bool-cases (ltb e.id k)) [
  | inl lt ↦ ground (arith, rows_split (suc e.id) k log h.1)
  | inr ge ↦ ground (
    arith,
    rows_before-Ascends (suc e.id) k log (ground arith) h.1,
    rows_from-Ascends (suc e.id) k log (ground arith) h.1,
  )
]

next_key_above :
    (j : ℕ) (f : AuditLog) (log : List AuditLog) → Ascends j (f ∷ log) → j ≤ next_key (f ∷ log)
next_key_above j f [] h = omega arith
next_key_above j f (g ∷ log) h = omega (arith, next_key_above (suc f.id) g log h.1)

any-Ascends :
    (j k : ℕ) (log : List AuditLog) → k < j → Ascends j log → any (λ e. e.id == k) log ≡ false
any-Ascends j k [] lt h = refl
any-Ascends j k (e ∷ log) lt h = ground (arith, any-Ascends (suc e.id) k log (omega arith) h.1)

-- The row with key `k` is the first of the rows from `k` on.
pub starts_at_key :
    (j k : ℕ) (log : List AuditLog)
    → Ascends j log
    → any (λ e. e.id == k) log ≡ true
    → starts_at k (rows_from k log) ≡ true
starts_at_key j k [] h found = cc
starts_at_key j k (e ∷ log) h found = elim (Bool-cases (leb k e.id)) [
  | inr below ↦ ground (arith, starts_at_key (suc e.id) k log h.1)
  | inl above ↦ elim (Bool-cases (e.id == k)) [
    | inl here ↦ ground arith
    | inr over ↦ ground (arith, any-Ascends (suc e.id) k log (ground arith) h.1)
  ]
]

Ascends-snoc :
    (j : ℕ) (log : List AuditLog) (e : AuditLog)
    → Ascends j log
    → j ≤ e.id
    → next_key log ≤ e.id
    → Ascends j (log ++ e ∷ [])
Ascends-snoc j [] e h le next = (le, tt)
Ascends-snoc j (f ∷ []) e h le next = (h.0, (next, tt))
Ascends-snoc j (f ∷ g ∷ log) e h le next = (
  h.0,
  Ascends-snoc (suc f.id) (g ∷ log) e h.1 (omega (arith, next_key_above (suc f.id) g log h.1)) next,
)

one-le-next_key : (log : List AuditLog) → 1 ≤ next_key log
one-le-next_key [] = omega arith
one-le-next_key (f ∷ []) = omega arith
one-le-next_key (f ∷ g ∷ log) = one-le-next_key (g ∷ log)

pub new_entry-Ascends :
    (env : Env) (entity : EntityType) (entity_id : Option ℕ) (action : AuditAction) (diff : Fields)
    (user_id : Option ℕ) (log : List AuditLog)
    → Ascends 1 log
    → Ascends 1 (log ++ new_entry env entity entity_id action diff user_id log ∷ [])
unfolding new_entry
new_entry-Ascends env entity entity_id action diff user_id log h =
    Ascends-snoc 1 log _ h (one-le-next_key log) (omega arith)

-- An entry that `record` appends keeps the keys ascending.
pub record_entry-IsOrdered :
    (env : Env) (entity : EntityType) (entity_id : Option ℕ) (action : AuditAction) (diff : Fields)
    (user_id : Option ℕ) (w : World)
    → IsOrdered w
    → IsOrdered (record_entry env entity entity_id action diff user_id w)
unfolding record_entry
record_entry-IsOrdered env entity entity_id action diff user_id w h =
    new_entry-Ascends env entity entity_id action diff user_id w.audit_log h
