-- ===== src/Telemetry/Parsed.antt =====
-- What `parse_message` makes of a topic and a payload.
use qms_bakery.Prelude.{
  ◌≡◌, ◌⊎◌, refl, ◌∙◌, inl, inr, subst, Bool, true, false, not, ◌||◌, Option, none, some, List, [],
  ◌∷◌, ◌++◌, if◌then◌else◌, arith, Bool-cases,
}
use qms_bakery.Prelude.Int.{ℤ}
use qms_bakery.Prelude.Text.{Text, codes, text_eq, text_eq_iff, text_eq_refl, is_blank, strip}
use qms_bakery.Prelude.Decimal.{split_on}
use qms_bakery.Json.{Json, str, num, Fields, end, field, get}
use qms_bakery.Telemetry.{Reader, put, parse_parts, parse_message, reading_of, read_value, value_of}

get-put :
    (k j : Text) (v : Json) (d : Fields)
    → get k (put j v d) ≡ (if text_eq k j then some v else get k d)
unfolding get put
get-put k j v end = refl
get-put k j v (field i u d) =
    ground (arith, text_eq_iff k j, text_eq_iff j i, text_eq_iff k i, get-put k j v d)

get-put_same : (k : Text) (v : Json) (d : Fields) → get k (put k v d) ≡ some v
get-put_same k v d = ground (arith, get-put k k v d, text_eq_refl k)

get-put_other :
    (k j : Text) (v : Json) (d : Fields) → text_eq k j ≡ false → get k (put j v d) ≡ get k d
get-put_other k j v d apart = ground (arith, get-put k j v d, apart)

-- What a reading says of its device.
abbrev pub Describes : Text → Text → Fields → Type 0
Describes line device r =
    (get (codes "line_code") r ≡ some (str line))
    × (get (codes "device_id") r ≡ some (str device))
    × (get (codes "scope") r ≡ some (str (codes "line:" ++ line)))
    × (get (codes "source") r ≡ some (str (codes "iot")))

-- The keys that `parse_message` writes after the value.
abbrev pub is_reserved : Text → Bool
is_reserved m =
    text_eq m (codes "source")
    || text_eq m (codes "device_id")
    || text_eq m (codes "line_code")
    || text_eq m (codes "scope")

reading_of-Describes :
    (line device metric : Text) (v : ℤ) → Describes line device (reading_of line device metric v)
reading_of-Describes line device metric v = (
  get-put_other (codes "line_code") (codes "source") _ _ refl
      ∙ get-put_other (codes "line_code") (codes "device_id") _ _ refl
      ∙ get-put_same (codes "line_code") _ _,
  get-put_other (codes "device_id") (codes "source") _ _ refl
      ∙ get-put_same (codes "device_id") _ _,
  get-put_other (codes "scope") (codes "source") _ _ refl
      ∙ get-put_other (codes "scope") (codes "device_id") _ _ refl
      ∙ get-put_other (codes "scope") (codes "line_code") _ _ refl
      ∙ get-put_same (codes "scope") _ _,
  get-put_same (codes "source") _ _,
)

reading_of-value :
    (line device metric : Text) (v : ℤ)
    → is_reserved metric ≡ false
    → get metric (reading_of line device metric v) ≡ some (num v)
reading_of-value line device metric v free =
    get-put_other metric (codes "source") _ _ (ground (arith, free))
    ∙ get-put_other metric (codes "device_id") _ _ (ground (arith, free))
    ∙ get-put_other metric (codes "line_code") _ _ (ground (arith, free))
    ∙ get-put_other metric (codes "scope") _ _ (ground (arith, free))
    ∙ get-put_same metric _ _

abbrev as_number : Option ℤ → Option Json
as_number none = none
as_number (some v) = some (num v)

-- The value of a reading, at a metric that is no reserved key.
abbrev pub HasValue : Text → Option ℤ → Fields → Type 0
HasValue metric v r = (is_reserved metric ≡ true) ⊎ (get metric r ≡ as_number v)

-- What a reading says of the parts of its topic, and of a value.
abbrev pub IsFrom : Reader → Text → List Text → Fields → Type 0
IsFrom reader payload (root ∷ line ∷ device ∷ metric ∷ []) r =
    let raw = strip payload in
    (root ≡ codes "factory")
    × ((is_blank line || is_blank device || is_blank metric || is_blank raw) ≡ false)
    × Describes line device r
    × HasValue metric (value_of reader metric raw (reader.loads raw)) r
IsFrom reader payload _ r = ⊥

reading_of-HasValue :
    (line device metric : Text) (v : ℤ) → HasValue metric (some v) (reading_of line device metric v)
reading_of-HasValue line device metric v = elim (Bool-cases (is_reserved metric)) [
  | inl taken ↦ inl taken
  | inr free ↦ inr (reading_of-value line device metric v free)
]

read_value_lem :
    (line device metric : Text) (v : Option ℤ) (r : Fields)
    → read_value line device metric v ≡ some r
    → Describes line device r × HasValue metric v r
read_value_lem line device metric none r h = absurd (ground arith)
read_value_lem line device metric (some v) r h =
    subst (λ q. Describes line device q × HasValue metric (some v) q) (ground arith)
      (reading_of-Describes line device metric v, reading_of-HasValue line device metric v)

accepted :
    (root : Text) (a b c d : Bool) (o : Option Fields) (r : Fields)
    → (if not (text_eq root (codes "factory")) || a || b || c || d then none else o) ≡ some r
    → (root ≡ codes "factory") × ((a || b || c || d) ≡ false) × (o ≡ some r)
accepted root a b c d o r h =
    ((text_eq_iff root (codes "factory")).0 (ground arith), ground arith, ground arith)

parse_parts_lem :
    (reader : Reader) (parts : List Text) (payload : Text) (r : Fields)
    → parse_parts reader parts payload ≡ some r
    → IsFrom reader payload parts r
unfolding parse_parts
parse_parts_lem reader [] payload r h = absurd (ground arith)
parse_parts_lem reader (_ ∷ []) payload r h = absurd (ground arith)
parse_parts_lem reader (_ ∷ _ ∷ []) payload r h = absurd (ground arith)
parse_parts_lem reader (_ ∷ _ ∷ _ ∷ []) payload r h = absurd (ground arith)
parse_parts_lem reader (root ∷ line ∷ device ∷ metric ∷ []) payload r h =
    let ok = accepted root _ _ _ _ _ r h in
    let said = read_value_lem line device metric _ r ok.2 in (ok.0, ok.1, said.0, said.1)
parse_parts_lem reader (_ ∷ _ ∷ _ ∷ _ ∷ _ ∷ _) payload r h = absurd (ground arith)

-- A message that `parse_message` accepts has a topic of four parts, of which the first is `factory` and
-- none is empty, and a payload that is not blank. Its reading names the line and the device of the
-- topic, has the scope of the line and the source `iot`, and holds at the topic's metric the value that
-- the payload gives, unless the metric is spelled like one of these four keys.
pub parse_message-IsFrom :
    (reader : Reader) (topic payload : Text) (r : Fields)
    → parse_message reader topic payload ≡ some r
    → IsFrom reader payload (split_on b'/' topic) r
unfolding parse_message
parse_message-IsFrom reader topic payload r h =
    parse_parts_lem reader (split_on b'/' topic) payload r h
