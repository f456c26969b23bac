-- ===== src/Telemetry/Tests.antt =====
-- Readings of the proofing room, and a worker that counts what it has handled.
use qms_bakery.Prelude.{ℕ, suc, ◌≡◌, refl, true, none, some, [], ◌∷◌, elem, if◌then◌else◌, arith}
use qms_bakery.Prelude.Int.{pos}
use qms_bakery.Prelude.Text.{Text, codes, text_eq, strip, lstrip, is_space}
use qms_bakery.Prelude.Decimal.{split_on}
use qms_bakery.Json.{num, str, Fields, end, field}
use qms_bakery.Telemetry.{Reader, parse_message, parse_parts, put, Stream, Handler, consume}
use qms_bakery.Telemetry.Delivery.{handle_all, consume_lem, consume-never_again}
use qms_bakery.Telemetry.Parsed.{IsFrom, parse_message-IsFrom}

-- Reads `21.5`, as JSON and as a number.
abbrev reader : Reader
reader = record {
  loads = λ s. if text_eq s (codes "21.5") then some (num (pos 21500)) else none;
  float_of = λ s. none;
}

abbrev topic : Text
topic = codes "factory/L1/sensor-7/temperature"

abbrev reading : Fields
reading = field (codes "metric") (str (codes "temperature")) (
    field (codes "temperature") (num (pos 21500)) (
      field (codes "scope") (str (codes "line:L1")) (
        field (codes "line_code") (str (codes "L1")) (
          field (codes "device_id") (str (codes "sensor-7"))
            (field (codes "source") (str (codes "iot")) end)))))

parse_message-IsFrom_example : IsFrom reader (codes " 21.5") (split_on b'/' topic) reading
unfolding parse_message parse_parts put strip lstrip is_space split_on
parse_message-IsFrom_example = parse_message-IsFrom reader topic (codes " 21.5") reading refl

abbrev count_up : Handler ℕ
count_up r s = (true, suc s)

abbrev three : Stream
three = record {
  fresh =
      record { id = 5; reading = some reading }
      ∷ record { id = 6; reading = none }
      ∷ record { id = 7; reading = some reading }
      ∷ [];
  pending = 2 ∷ [];
}

consume_lem_example :
    let (n, st', s') = consume count_up 2 2 three 0 in
    (st'.fresh ≡ [])
    × (n ≡ (handle_all count_up three.fresh 0).0)
    × (s' ≡ (handle_all count_up three.fresh 0).1)
consume_lem_example = consume_lem count_up 2 2 three 0 (omega arith)

consume-never_again_example :
    let (n, st', s') = consume count_up 2 2 three 0 in
    (elem 2 st'.pending ≡ true) × (s' ≡ (consume count_up 2 2 (record three { pending = [] }) 0).2)
consume-never_again_example = consume-never_again count_up 2 2 2 three 0 refl refl (omega arith)
