-- ===== src/Salsa.antt =====
-- app/services/salsa.py: filled checklists.
pub mod Submitted
mod Tests
use qms_bakery.Prelude.{
  ℕ, ◌+◌, ◌*◌, Bool, true, false, not, Option, none, some, List, [], ◌∷◌, ◌++◌, map, find, take,
  length, reverse, ◌==◌, if◌then◌else◌,
}
use qms_bakery.Prelude.Int.{pos}
use qms_bakery.Prelude.Text.{Text, codes, text_eq, is_blank, strip}
use qms_bakery.Json.{num, str, uid, arr, Items, nil, item, Fields, end, field}
use qms_bakery.Models.Audit.{AuditAction, EntityType}
use qms_bakery.Models.Quality.{SalsaItem, SalsaChecklist, SalsaAnswer, SalsaResponse}
use qms_bakery.Models.Tickets.{Ticket, TicketSeverity, TicketSource, TicketCategory}
use qms_bakery.World.{
  Env, World, now, Session, Result, ok, err, Error, pure, gets, or_raise, raise_if,
  is_flush_failure, rolled_back, ◌>>=◌, ◌>>◌,
}
use qms_bakery.Audit.{record_entry}
use qms_bakery.Tickets.{NewTicket, create_ticket}
use qms_bakery.Prelude.Decimal.{decimal}

-- `answers`: by the key of an item, `bool(entry.get("ok"))` and the comment.
pub record Entry : Type 0 where
  pub key : Text
  pub is_ok : Bool
  pub comment : Option Text

-- `x or None`
abbrev or_none : Text → Option Text
or_none s = if is_blank s then none else some s

-- `(entry.get("comment") or "").strip()[:500] or None`
abbrev clean_comment : Option Text → Option Text
clean_comment none = none
clean_comment (some s) = or_none (take 500 (strip s))

-- An item that was not answered is not ok.
unfoldable pub clean_answer : List Entry → Text → SalsaAnswer
clean_answer answers k = elim (find (λ (e : Entry). text_eq e.key k) answers) [
  | none ↦ record { key = k; ok = false; comment = none }
  | some e ↦ record { key = k; ok = e.is_ok; comment = clean_comment e.comment }
]

-- The loop over `valid_keys`: the cleaned answers and the failures.
unfoldable pub clean : List Entry → List Text → List SalsaAnswer × List Text
unfolding clean_answer
clean answers [] = ([], [])
clean answers (k ∷ ks) =
    let (cleaned, failures) = clean answers ks in
    let a = clean_answer answers k in (a ∷ cleaned, if a.ok then failures else k ∷ failures)

-- `{item["key"] for item in checklist.items}`, in the order in which Python goes through it.
abbrev pub valid_keys : Env → SalsaChecklist → List Text
valid_keys env c = env.set_order (map (λ (i : SalsaItem). i.key) c.items)

abbrev pub find_checklist : ℕ → World → Option SalsaChecklist
find_checklist id w = find (λ (c : SalsaChecklist). c.id == id) w.checklists

-- `{item["key"]: ... for item in checklist.items}`: of two items with one key the last counts.
abbrev prompt_of : Text → List SalsaItem → Option Text
prompt_of k items = elim (find (λ (i : SalsaItem). text_eq i.key k) (reverse items)) [
  | none ↦ none
  | some i ↦ i.prompt_en
]

-- `.get("en", first_fail)`
abbrev prompt_or : Text → List SalsaItem → Text
prompt_or k items = elim (prompt_of k items) [ none ↦ k | some p ↦ p ]

-- `", ".join(texts)`
pub join : List Text → Text
join [] = []
join (s ∷ []) = s
join (s ∷ t ∷ ts) = s ++ codes ", " ++ join (t ∷ ts)

pub texts : List Text → Items
texts [] = nil
texts (s ∷ ts) = item (str s) (texts ts)

unfoldable pub new_response :
    Env → SalsaChecklist → List SalsaAnswer → List Text → Option ℕ → ℕ → SalsaResponse
new_response env c cleaned failures user id = record {
  id = id;
  checklist_id = c.id;
  responded_by_user_id = user;
  responded_at = now env;
  answers = cleaned;
  nonconformities_count = length failures;
  linked_ticket_id = none;
}

-- The session with the response and its audit entry.
unfoldable pub responded :
    Env → SalsaChecklist → SalsaResponse → List Text → Option ℕ → World → World
responded env c r failures user w =
    record_entry env EntityType.salsa_response (some r.id) AuditAction.submit
      (field (codes "checklist_code") (str c.code) (
        field (codes "nonconformities") (num (pos (length failures * 1000)))
          (field (codes "failed_items") (arr (texts failures)) end)))
      user (record w { next_id = w.next_id + 1; salsa_responses = w.salsa_responses ++ r ∷ [] })

-- The ticket that failures ask for, where the checklist has a line.
unfoldable pub nonconformity : SalsaChecklist → ℕ → Text → List Text → Option ℕ → ℕ → NewTicket
nonconformity c line first_fail failures user response = record {
  line_id = line;
  title =
      take 200
        (codes "SALSA nonconformity: " ++ c.code ++ codes " — " ++ prompt_or first_fail c.items);
  description = some (decimal (length failures) ++ codes " failed item(s): " ++ join failures);
  severity = TicketSeverity.high;
  category = TicketCategory.hygiene;
  source = TicketSource.manual;
  created_by_user_id = user;
  metadata = field (codes "salsa_checklist") (str c.code) (
      field (codes "salsa_response_id") (uid response)
        (field (codes "failed_items") (arr (texts failures)) end));
}

-- Writes a row back.
abbrev pub put_response : SalsaResponse → World → World
put_response r w = record w {
  salsa_responses = map (λ u. if u.id == r.id then r else u) w.salsa_responses;
}

abbrev pub ticketed : SalsaResponse → Ticket → SalsaResponse
ticketed r t = record r { linked_ticket_id = some t.id }

-- A ticket that is refused leaves the response in the session; a failed flush rolls the transaction back,
-- to the session `before` the call, which begins the transaction.
unfoldable pub link_ticket :
    World → SalsaResponse → Result Ticket × World → Result SalsaResponse × World
link_ticket before r (err e, w) = (err e, if is_flush_failure e then rolled_back before w else w)
link_ticket before r (ok t, w) = (ok (ticketed r t), put_response (ticketed r t) w)

-- `if failures and checklist.line_id: ...`
unfoldable pub follow_up :
    Env
    → SalsaChecklist
    → SalsaResponse
    → Option ℕ
    → List Text
    → Option ℕ
    → World
    → Session SalsaResponse
follow_up env c r user [] line before w = (ok r, w)
follow_up env c r user (f ∷ fs) none before w = (ok r, w)
follow_up env c r user (f ∷ fs) (some line) before w =
    link_ticket before r (create_ticket env (nonconformity c line f (f ∷ fs) user r.id) w)

-- `submit_response`, once the checklist is found and active.
unfoldable pub respond : Env → SalsaChecklist → List Entry → Option ℕ → Session SalsaResponse
respond env c answers user w =
    let (cleaned, failures) = clean answers (valid_keys env c) in
    let r = new_response env c cleaned failures user w.next_id in
    follow_up env c r user failures c.line_id w (responded env c r failures user w)

-- `submit_response`
unfoldable pub submit_response : Env → ℕ → List Entry → Option ℕ → Session SalsaResponse
submit_response env checklist_id answers user = do
  c ← or_raise (← gets (find_checklist checklist_id)) Error.checklist_not_found
  raise_if (not c.is_active) Error.checklist_inactive
  respond env c answers user
