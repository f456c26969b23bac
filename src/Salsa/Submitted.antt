-- ===== src/Salsa/Submitted.antt =====
-- What `submit_response` has done.
use qms_bakery.Prelude.{
  ℕ, suc, ◌<◌, ◌≡◌, ◌⊎◌, true, false, not, none, some, List, [], ◌∷◌, ◌++◌, map, length, count_if,
  find, ◌==◌,
}
use qms_bakery.Prelude.Text.{Text}
use qms_bakery.Models.Quality.{SalsaChecklist, SalsaAnswer, SalsaResponse}
use qms_bakery.Models.Tickets.{Ticket, TicketSeverity, TicketStatus, TicketCategory}
use qms_bakery.World.{
  Env, World, Error, Result, ok, err, now, integrity_error, is_flush_failure, rolled_back,
}
use qms_bakery.Salsa.{Entry, clean_answer, valid_keys, find_checklist}

-- The ticket of a response with failures, or none.
abbrev pub FollowedUp : SalsaChecklist → SalsaResponse → World → World → Type 0
FollowedUp c r w w' =
    ((r.nonconformities_count ≡ 0) ⊎ (c.line_id ≡ none))
      × (r.linked_ticket_id ≡ none)
      × (w'.salsa_responses ≡ w.salsa_responses ++ r ∷ [])
      × (w'.tickets ≡ w.tickets)
    ⊎ (0 < r.nonconformities_count)
      × (find (λ (u : SalsaResponse). u.id == r.id) w'.salsa_responses ≡ some r)
      × (length w'.salsa_responses ≡ suc (length w.salsa_responses))
      × ((t : Ticket) × (r.linked_ticket_id ≡ some t.id)
          × (w'.tickets ≡ w.tickets ++ t ∷ [])
          × (c.line_id ≡ some t.line_id)
          × (t.severity ≡ TicketSeverity.high)
          × (t.category ≡ TicketCategory.hygiene)
          × (t.status ≡ TicketStatus.new))

-- What a call of `submit_response` has done, by how it ended.
abbrev pub Submitted : Env → ℕ → List Entry → World → Result SalsaResponse × World → Type 0
Submitted env id answers w (ok r, w') =
    (c : SalsaChecklist) × (find_checklist id w ≡ some c)
    × (c.is_active ≡ true)
    × (r.answers ≡ map (clean_answer answers) (valid_keys env c))
    × (r.nonconformities_count ≡ count_if (λ (a : SalsaAnswer). not a.ok) r.answers)
    × (r.checklist_id ≡ c.id)
    × (r.responded_at ≡ now env)
    × FollowedUp c r w w'
Submitted env id answers w (err e, w') =
    (w' ≡ w)
      × ((find_checklist id w ≡ none) × (e ≡ Error.checklist_not_found)
          ⊎ ((c : SalsaChecklist) × (find_checklist id w ≡ some c)
              × (c.is_active ≡ false)
              × (e ≡ Error.checklist_inactive)))
    ⊎ ((c : SalsaChecklist) × (find_checklist id w ≡ some c)
        × (c.is_active ≡ true)
        × (w'.tickets ≡ w.tickets)
        × ((e ≡ integrity_error) × (w' ≡ w)
            ⊎ (is_flush_failure e ≡ false)
              × (length w'.salsa_responses ≡ suc (length w.salsa_responses)))
        × (0
            < count_if (λ (a : SalsaAnswer). not a.ok)
                (map (clean_answer answers) (valid_keys env c))))

-- The session with the response, against the one before it.
abbrev Responded : SalsaResponse → World → World → Type 0
Responded r w v =
    (v.tickets ≡ w.tickets)
    × (v.salsa_responses ≡ w.salsa_responses ++ r ∷ [])
    × (rolled_back w v ≡ w)

-- The parts of `Submitted` that a response keeps from `new_response`.
abbrev Answered : Env → SalsaChecklist → List Entry → SalsaResponse → Type 0
Answered env c answers r =
    (r.answers ≡ map (clean_answer answers) (valid_keys env c))
    × (r.nonconformities_count ≡ count_if (λ (a : SalsaAnswer). not a.ok) r.answers)
    × (r.checklist_id ≡ c.id)
    × (r.responded_at ≡ now env)
