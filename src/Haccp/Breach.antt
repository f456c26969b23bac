-- ===== src/Haccp/Breach.antt =====
-- What `record_measurement` does with a value, inside the limits of its control point and outside.
use qms_bakery.Prelude.{◌≡◌, ◌⊎◌, true, false, none, some, [], ◌∷◌, ◌++◌, find, suc, length, ◌==◌}
use qms_bakery.Models.Quality.{CcpDefinition, CcpMeasurement, is_within_limits}
use qms_bakery.Models.Tickets.{Ticket, TicketSeverity, TicketStatus}
use qms_bakery.Models.Production.{ProductionLine}
use qms_bakery.World.{Env, World, Error, Result, ok, err, now, integrity_error, is_flush_failure}
use qms_bakery.Tickets.{find_ticket, find_line}
use qms_bakery.Haccp.{measured, NewMeasurement, find_ccp}

-- What a call of `record_measurement` has done, by how it ended.
abbrev pub Recorded : Env → NewMeasurement → World → Result CcpMeasurement × World → Type 0
Recorded env n w (ok m, w') =
    (ccp : CcpDefinition) × (find_ccp n.ccp_id w ≡ some ccp)
    × (ccp.is_active ≡ true)
    × (m.measured_value ≡ n.value)
    × (m.is_within_limits ≡ is_within_limits ccp n.value)
    × (m.measured_at ≡ now env)
    × ((is_within_limits ccp n.value ≡ true)
          × (m.linked_ticket_id ≡ none)
          × (w'.measurements ≡ w.measurements ++ m ∷ [])
          × (w'.tickets ≡ w.tickets)
        ⊎ (is_within_limits ccp n.value ≡ false)
          × (find (λ (u : CcpMeasurement). u.id == m.id) w'.measurements ≡ some m)
          × (length w'.measurements ≡ suc (length w.measurements))
          × ((t : Ticket) × (m.linked_ticket_id ≡ some t.id)
              × (find_ticket t.id w' ≡ some t)
              × (length w'.tickets ≡ suc (length w.tickets))
              × (t.line_id ≡ ccp.line_id)
              × (t.severity ≡ TicketSeverity.critical)
              × (t.status ≡ TicketStatus.new)
              × (t.is_ccp_related ≡ true)))
Recorded env n w (err e, w') =
    (w' ≡ w)
      × ((find_ccp n.ccp_id w ≡ none) × (e ≡ Error.ccp_not_found)
          ⊎ ((ccp : CcpDefinition) × (find_ccp n.ccp_id w ≡ some ccp)
              × (ccp.is_active ≡ false)
              × (e ≡ Error.ccp_inactive)))
    ⊎ ((ccp : CcpDefinition) × (find_ccp n.ccp_id w ≡ some ccp)
        × (ccp.is_active ≡ true)
        × (is_within_limits ccp n.value ≡ false)
        × (w'.tickets ≡ w.tickets)
        × ((e ≡ integrity_error) × (w' ≡ w)
            ⊎ (is_flush_failure e ≡ false)
              × (w' ≡ measured env ccp n w)
              × ((find_line ccp.line_id w ≡ none)
                  ⊎ ((l : ProductionLine) × (find_line ccp.line_id w ≡ some l)
                      × (l.is_active ≡ false)))))
