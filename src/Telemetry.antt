-- ===== src/Telemetry.antt =====
-- app/mqtt/bridge.py, app/services/stream.py and app/workers/trigger_worker.py: readings from the
-- factory, the Redis stream that buffers them, and the worker that hands them to the triggers.
pub mod Delivery
pub mod Parsed
mod Tests
use qms_bakery.Prelude.{
  ℕ, zero, suc, ◌+◌, Bool, true, false, not, ◌&&◌, ◌||◌, Option, none, some, List, [], ◌∷◌, ◌++◌,
  map, keep, find, take, length, ◌==◌, if◌then◌else◌, is_none,
}
use qms_bakery.Prelude.Int.{ℤ}
use qms_bakery.Prelude.Text.{Text, codes, text_eq, is_blank, strip}
use qms_bakery.Prelude.Decimal.{split_on}
use qms_bakery.Json.{Json, null, bool, num, str, uid, moment, arr, obj, Fields, end, field, get}
use qms_bakery.Models.Production.{ProductionLine}
use qms_bakery.Models.Triggers.{TriggerExecution}
use qms_bakery.World.{Env, World, Result, ok, err}
use qms_bakery.Triggers.Fire.{evaluate}

-- What the parser asks of `json.loads` and `float`: the value of a text, or none where it raises. A
-- number is in thousandths.
pub record Reader : Type 0 where
  pub loads : Text → Option Json
  pub float_of : Text → Option ℤ

-- `d[key] = value`
unfoldable pub put : Text → Json → Fields → Fields
put k v end = field k v end
put k v (field j u d) = let rest = put k v d in if text_eq k j then field j v d else field j u rest

-- A number that is no bool.
abbrev number : Option Json → Option ℤ
number (some (num n)) = some n
number _ = none

abbrev is_null : Option Json → Bool
is_null none = true
is_null (some null) = true
is_null (some _) = false

abbrev candidate : Text → Fields → Option Json
candidate metric d = if is_null (get (codes "value") d) then get metric d else get (codes "value") d

-- The value of a payload that `json.loads` accepts.
abbrev pub loaded_value : Text → Json → Option ℤ
loaded_value metric (obj d) = number (candidate metric d)
loaded_value metric (num n) = some n
loaded_value metric _ = none

abbrev pub value_of : Reader → Text → Text → Option Json → Option ℤ
value_of reader metric raw none = reader.float_of raw
value_of reader metric raw (some j) = loaded_value metric j

-- The dict that is returned: a later entry of a key replaces an earlier one.
abbrev pub reading_of : Text → Text → Text → ℤ → Fields
reading_of line device metric v = put (codes "source") (str (codes "iot")) (
    put (codes "device_id") (str device) (
      put (codes "line_code") (str line) (
        put (codes "scope") (str (codes "line:" ++ line))
          (put metric (num v) (field (codes "metric") (str metric) end)))))

abbrev pub read_value : Text → Text → Text → Option ℤ → Option Fields
read_value line device metric none = none
read_value line device metric (some v) = some (reading_of line device metric v)

-- `parse_message`, from the parts of the topic on.
unfoldable pub parse_parts : Reader → List Text → Text → Option Fields
parse_parts reader (root ∷ line ∷ device ∷ metric ∷ []) payload =
    let raw = strip payload in
    if not (text_eq root (codes "factory"))
      || is_blank line
      || is_blank device
      || is_blank metric
      || is_blank raw
    then none
    else read_value line device metric (value_of reader metric raw (reader.loads raw))
parse_parts reader _ payload = none

-- `parse_message`
unfoldable pub parse_message : Reader → Text → Text → Option Fields
parse_message reader topic payload = parse_parts reader (split_on b'/' topic) payload

abbrev line_with : Text → World → Option ProductionLine
line_with code w = find (λ (l : ProductionLine). text_eq l.code code) w.lines

abbrev with_line : Option ProductionLine → Fields → Fields
with_line none reading = reading
with_line (some l) reading = put (codes "line_id") (uid l.id) reading

abbrev line_of : Option Json → World → Option ProductionLine
line_of (some (str code)) w = if is_blank code then none else line_with code w
line_of _ w = none

abbrev counted : Result (List TriggerExecution) × World → Result ℕ × World
counted (ok fired, w) = (ok (length fired), w)
counted (err e, w) = (err e, w)

-- `process_reading`: the number of triggers that fired, and the session. It raises where `evaluate` does,
-- after a rollback.
unfoldable pub process_reading : Env → Fields → World → Result ℕ × World
process_reading env reading w =
    let known = get (codes "line_id") reading in
    counted (
      evaluate env
        (if is_none known
          then with_line (line_of (get (codes "line_code") reading) w) reading
          else reading)
        w)

abbrev fired_or_none : Result (List TriggerExecution) × World → ℕ × World
fired_or_none (ok fired, w) = (length fired, w)
fired_or_none (err e, w) = (0, w)

-- `_evaluate_in_context`, of a reading that `parse_message` has made.
unfoldable pub evaluate_in_context : Env → Fields → World → ℕ × World
evaluate_in_context env parsed w =
    fired_or_none (evaluate env (with_line (line_of (get (codes "line_code") parsed) w) parsed) w)

abbrev handled : Env → Option Fields → World → ℕ × World
handled env none w = (0, w)
handled env (some parsed) w = evaluate_in_context env parsed w

-- `handle_message`
unfoldable pub handle_message : Env → Reader → Text → Text → World → ℕ × World
handle_message env reader topic payload w = handled env (parse_message reader topic payload) w

-- An entry of the stream: the reading, or none where its payload is missing or is no JSON.
pub record Entry : Type 0 where
  pub id : ℕ
  pub reading : Option Fields

-- The stream and its consumer group: the entries that no consumer has had, and the keys that were
-- delivered and not acknowledged.
pub record Stream : Type 0 where
  pub fresh : List Entry
  pub pending : List ℕ

abbrev pub dropped : ℕ → List Entry → List Entry
dropped zero es = es
dropped (suc n) [] = []
dropped (suc n) (e ∷ es) = dropped n es

-- `publish_reading`: XADD, by which Redis trims some of the oldest entries.
unfoldable pub publish_reading : ℕ → ℕ → Fields → Stream → Stream
publish_reading trimmed id reading s = record s {
  fresh = dropped trimmed (s.fresh ++ record { id = id; reading = some reading } ∷ []);
}

-- `enqueue_message`: the key of the entry, or none. `reachable` tells whether Redis takes the entry.
unfoldable pub enqueue_message : Bool → Reader → ℕ → ℕ → Text → Text → Stream → Option ℕ × Stream
enqueue_message reachable reader trimmed id topic payload s =
    elim (parse_message reader topic payload) [
      | none ↦ (none, s)
      | some parsed ↦
          if reachable then (some id, publish_reading trimmed id parsed s) else (none, s)
    ]

-- `XACK`
abbrev pub ack : ℕ → List ℕ → List ℕ
ack id ids = keep (λ i. not (i == id)) ids

-- A handler changes its state, and tells whether it returned.
abbrev pub Handler : Type 0 → Type 0
Handler S = Fields → S → Bool × S

module _ {S : Type 0} (handler : Handler S) where
  -- The body of the loop: whether the entry was processed, with its acknowledgement.
  abbrev pub attempt : Option Fields → S → Bool × S
  attempt none s = (false, s)
  attempt (some r) s = handler r s

  abbrev pub settle : ℕ → Bool → List ℕ → List ℕ
  settle id true pending = ack id pending
  settle id false pending = pending

  -- The loop over the entries of a batch: how many were processed, what is pending, and the state.
  unfoldable pub dispatch_batch : List Entry → List ℕ → S → ℕ × List ℕ × S
  dispatch_batch [] pending s = (0, pending, s)
  dispatch_batch (e ∷ es) pending s =
      let (fine, s') = attempt e.reading s in
      let (n, pending', s'') = dispatch_batch es (settle e.id fine pending) s' in
      (if fine then suc n else n, pending', s'')

  -- `XREADGROUP … ">"`, with COUNT: the next entries are delivered, and are pending from then on.
  abbrev pub delivered : ℕ → Stream → List Entry
  delivered batch st = take batch st.fresh

  abbrev pub after_delivery : ℕ → Stream → List ℕ
  after_delivery batch st = st.pending ++ map (λ (e : Entry). e.id) (delivered batch st)

  -- One round of `consume`.
  unfoldable pub consume_once : ℕ → Stream → S → ℕ × Stream × S
  consume_once batch st s =
      let (n, pending, s') = dispatch_batch (delivered batch st) (after_delivery batch st) s in
      (n, record { fresh = dropped batch st.fresh; pending = pending }, s')

  -- `consume`, for a number of rounds.
  unfoldable pub consume : ℕ → ℕ → Stream → S → ℕ × Stream × S
  consume zero batch st s = (0, st, s)
  consume (suc rounds) batch st s =
      let (n, st', s') = consume_once batch st s in
      let (m, st'', s'') = consume rounds batch st' s' in (n + m, st'', s'')
