-- ===== src/Tickets/Query/Listed.antt =====
-- What `list_tickets` lists.
use qms_bakery.Prelude.{
  All-keep, ℕ, zero, suc, ◌≤◌, ◌≡◌, refl, ap, ◌∙◌, ◌&&◌, Bool, true, List, [], ◌∷◌, keep, take,
  length, All, count_if, ltb, ◌==◌, arith, Bool-cases, inl, inr, length-take-le,
}
use qms_bakery.Models.Tickets.{Ticket}
use qms_bakery.World.{World}
use qms_bakery.Tickets.Query.{TicketFilter, selected, list_tickets, newest_first, insert_row}

-- No ticket is older than one after it.
abbrev pub Descends : List Ticket → Type 0
Descends [] = Unit
Descends (t ∷ ts) = All (λ u. u.created_at ≤ t.created_at) ts × Descends ts

abbrev Below : ℕ → List Ticket → Type 0
Below m ts = All (λ u. u.created_at ≤ m) ts

Below-mono : (m n : ℕ) (ts : List Ticket) → m ≤ n → Below m ts → Below n ts
Below-mono m n [] le h = tt
Below-mono m n (t ∷ ts) le h = (omega (arith, h.0), Below-mono m n ts le h.1)

Below-insert :
    (m : ℕ) (t : Ticket) (ts : List Ticket)
    → t.created_at ≤ m
    → Below m ts
    → Below m (insert_row t ts)
unfolding insert_row
Below-insert m t [] le h = (le, tt)
Below-insert m t (u ∷ us) le h = elim (Bool-cases (ltb u.created_at t.created_at)) [
  | inl newer ↦ rw (newer, insert_row) (le, h)
  | inr older ↦ rw (older, insert_row) (h.0, Below-insert m t us le h.1)
]

Descends-insert : (t : Ticket) (ts : List Ticket) → Descends ts → Descends (insert_row t ts)
unfolding insert_row
Descends-insert t [] h = (tt, tt)
Descends-insert t (u ∷ us) h = elim (Bool-cases (ltb u.created_at t.created_at)) [
  | inl newer ↦
      let le : u.created_at ≤ t.created_at = ground arith in
      rw (newer, insert_row) ((le, Below-mono u.created_at t.created_at us le h.0), h)
  | inr older ↦
      rw (older, insert_row)
        (Below-insert u.created_at t us (ground arith) h.0, Descends-insert t us h.1)
]

newest_first-Descends : (ts : List Ticket) → Descends (newest_first ts)
unfolding newest_first
newest_first-Descends [] = tt
newest_first-Descends (t ∷ ts) = Descends-insert t (newest_first ts) (newest_first-Descends ts)

All-take : (P : Ticket → Type 0) (n : ℕ) (ts : List Ticket) → All P ts → All P (take n ts)
All-take P zero ts h = tt
All-take P (suc n) [] h = tt
All-take P (suc n) (t ∷ ts) h = (h.0, All-take P n ts h.1)

Descends-keep : (p : Ticket → Bool) (ts : List Ticket) → Descends ts → Descends (keep p ts)
Descends-keep p [] h = tt
Descends-keep p (t ∷ ts) h = elim (Bool-cases (p t)) [
  | inl kept ↦ rw kept (All-keep _ p ts h.0, Descends-keep p ts h.1)
  | inr left_out ↦ rw left_out (Descends-keep p ts h.1)
]

Descends-take : (n : ℕ) (ts : List Ticket) → Descends ts → Descends (take n ts)
Descends-take zero ts h = tt
Descends-take (suc n) [] h = tt
Descends-take (suc n) (t ∷ ts) h = (All-take _ n ts h.0, Descends-take n ts h.1)

keep-selected : (p : Ticket → Bool) (ts : List Ticket) → All (λ t. p t ≡ true) (keep p ts)
keep-selected p [] = tt
keep-selected p (t ∷ ts) = elim (Bool-cases (p t)) [
  | inl kept ↦ rw kept (kept, keep-selected p ts)
  | inr left_out ↦ rw left_out (keep-selected p ts)
]

count_if-insert :
    (q : Ticket → Bool) (t : Ticket) (ts : List Ticket)
    → count_if q (insert_row t ts) ≡ count_if q (t ∷ ts)
unfolding insert_row
count_if-insert q t [] = refl
count_if-insert q t (u ∷ us) = elim (Bool-cases (ltb u.created_at t.created_at)) [
  | inl newer ↦ rw (newer, insert_row) refl
  | inr older ↦ rw (older, insert_row) (ground (arith, count_if-insert q t us))
]

count_if-newest_first :
    (q : Ticket → Bool) (ts : List Ticket) → count_if q (newest_first ts) ≡ count_if q ts
unfolding newest_first
count_if-newest_first q [] = refl
count_if-newest_first q (t ∷ ts) =
    ground (arith, count_if-insert q t (newest_first ts), count_if-newest_first q ts)

length-keep : (p : Ticket → Bool) (ts : List Ticket) → length (keep p ts) ≡ count_if p ts
length-keep p [] = refl
length-keep p (t ∷ ts) = ground (arith, length-keep p ts)

count_if-keep :
    (p q : Ticket → Bool) (ts : List Ticket)
    → count_if q (keep p ts) ≡ count_if (λ t. p t && q t) ts
count_if-keep p q [] = refl
count_if-keep p q (t ∷ ts) = ground (arith, count_if-keep p q ts)

take-all : (n : ℕ) (ts : List Ticket) → length ts ≤ n → take n ts ≡ ts
take-all zero [] le = refl
take-all zero (t ∷ ts) le = absurd (omega arith)
take-all (suc n) [] le = refl
take-all (suc n) (t ∷ ts) le = ap (λ (l : List Ticket). t ∷ l) (take-all n ts (omega arith))

-- `list_tickets` lists at most `limit` tickets, each of which passes the filters, newest first.
pub list_tickets_lem :
    (f : TicketFilter) (limit : ℕ) (w : World)
    → (length (list_tickets f limit w) ≤ limit)
      × All (λ t. selected f t ≡ true) (list_tickets f limit w)
      × Descends (list_tickets f limit w)
unfolding list_tickets
list_tickets_lem f limit w =
    let sorted = newest_first-Descends w.tickets in
    (
      length-take-le limit (keep (selected f) (newest_first w.tickets)),
      All-take _ limit (keep (selected f) (newest_first w.tickets))
          (keep-selected (selected f) (newest_first w.tickets)),
      Descends-take limit (keep (selected f) (newest_first w.tickets))
          (Descends-keep (selected f) (newest_first w.tickets) sorted),
    )

-- `list_tickets` leaves nothing out: where no more rows pass the filters than the limit allows, a key
-- is listed as often as it stands in the table on a row that passes them.
pub list_tickets_complete :
    (f : TicketFilter) (limit : ℕ) (w : World) (id : ℕ)
    → count_if (selected f) w.tickets ≤ limit
    → count_if (λ t. t.id == id) (list_tickets f limit w)
      ≡ count_if (λ t. selected f t && (t.id == id)) w.tickets
unfolding list_tickets
list_tickets_complete f limit w id le =
    let rows = keep (selected f) (newest_first w.tickets) in
    let fits : length rows ≤ limit = omega (
      arith,
      length-keep (selected f) (newest_first w.tickets),
      count_if-newest_first (selected f) w.tickets,
    ) in
    rw (take-all limit rows fits) (
      count_if-keep (selected f) (λ t. t.id == id) (newest_first w.tickets)
      ∙ count_if-newest_first (λ t. selected f t && (t.id == id)) w.tickets)
