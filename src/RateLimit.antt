-- ===== src/RateLimit.antt =====
-- app/services/ratelimit.py: the fixed-window counters, with the Redis keys as rows.
pub mod Window
mod Tests
use qms_bakery.Prelude.{
  ℕ, ◌+◌, ◌*◌, ◌-◌, ◌/◌, Bool, true, false, not, ◌&&◌, ◌||◌, Option, none, some, List, [], ◌∷◌, ltb,
  leb, ◌==◌, if◌then◌else◌, get_or,
}
use qms_bakery.Prelude.Text.{Text, codes, text_eq, is_blank, strip}
use qms_bakery.Prelude.Decimal.{split_on}
use qms_bakery.World.{World}

-- The parts of the key `prefix:ratelimit:bucket:ident:window_index`. A bucket has no colon and an index
-- has none, so the text tells them apart.
pub record Key : Type 0 where
  pub bucket : Text
  pub ident : Text
  pub window_index : ℕ

abbrev pub key_eq : Key → Key → Bool
key_eq a b =
    text_eq a.bucket b.bucket && text_eq a.ident b.ident && (a.window_index == b.window_index)

-- A key of Redis, and when it expires, if it does.
pub record Counter : Type 0 where
  pub key : Key
  pub count : ℕ
  pub expires_at : Option ℕ

abbrev pub is_live : ℕ → Option ℕ → Bool
is_live now none = true
is_live now (some t) = ltb now t

abbrev fresh : Key → Counter
fresh k = record { key = k; count = 1; expires_at = none }

-- `INCR`: the new value. A key that has expired is gone.
unfoldable pub incr : ℕ → Key → List Counter → ℕ × List Counter
incr now k [] = (1, fresh k ∷ [])
incr now k (c ∷ cs) =
    let (n, rest) = incr now k cs in
    if key_eq c.key k
    then (if is_live now c.expires_at
        then (c.count + 1, record c { count = c.count + 1 } ∷ cs)
        else (1, fresh k ∷ cs))
    else (n, c ∷ rest)

-- `EXPIRE`
unfoldable pub expire : Key → ℕ → List Counter → List Counter
expire k t [] = []
expire k t (c ∷ cs) =
    let rest = expire k t cs in
    if key_eq c.key k then record c { expires_at = some t } ∷ cs else c ∷ rest

-- What `check` returns.
pub record Verdict : Type 0 where
  pub allowed : Bool
  pub remaining : ℕ
  pub retry_after : ℕ

-- The counters after a request, with its count.
unfoldable pub counted : ℕ → ℕ → Key → List Counter → ℕ × List Counter
counted now window_seconds k rows =
    let (n, rows') = incr now k rows in
    (n, if n == 1 then expire k (now + window_seconds) rows' else rows')

abbrev pub key_at : ℕ → ℕ → Text → Text → Key
key_at now window_seconds b i = record {
  bucket = b;
  ident = i;
  window_index = now / window_seconds;
}

abbrev verdict : ℕ → ℕ → ℕ → ℕ → Verdict
verdict now max_requests window_seconds n = record {
  allowed = leb n max_requests;
  remaining = max_requests - n;
  retry_after = (now / window_seconds + 1) * window_seconds - now;
}

-- `check`: open where Redis is down, and where the division by the window raises.
unfoldable pub check : Bool → ℕ → Text → Text → ℕ → ℕ → List Counter → Verdict × List Counter
check redis_up now bucket ident max_requests window_seconds rows =
    if not redis_up || (window_seconds == 0)
    then (record { allowed = true; remaining = max_requests; retry_after = window_seconds }, rows)
    else (let (n, rows') =
          counted now window_seconds (key_at now window_seconds bucket ident) rows in
        (verdict now max_requests window_seconds n, rows'))

-- `parts[0]`
abbrev first_part : List Text → Text
first_part [] = []
first_part (p ∷ ps) = p

-- `request.headers.get("X-Forwarded-For")` and `request.remote_addr`.
abbrev forwarded : Option Text → Option Text → Text
forwarded none none = codes "unknown"
forwarded none (some addr) = if is_blank addr then codes "unknown" else addr
forwarded (some xff) addr = strip (first_part (split_on b',' xff))

-- `_ident_for_request`
unfoldable pub ident_for_request : Option Text → Option Text → Text
ident_for_request none addr = forwarded none addr
ident_for_request (some xff) addr =
    if is_blank xff then forwarded none addr else forwarded (some xff) addr

-- What `rate_limit` reads of `app.config`; an override is there where its key is given and set.
pub record LimitSettings : Type 0 where
  pub is_enabled : Bool
  pub max_override : Option ℕ
  pub window_override : Option ℕ

-- The 429, or the view's response, with the header X-RateLimit-Remaining where there is one.
pub data Limited (A : Type 0) : Type 0 where
  too_many : ℕ → Limited A
  served : A → Option ℕ → Limited A

abbrev answer : {A : Type 0} → (World → A × World) → Verdict → World → Limited A × World
answer view v w =
    let (a, w') = view w in
    if not v.allowed then (too_many v.retry_after, w) else (served a (some v.remaining), w')

-- `rate_limit`, round a view that changes the session.
unfoldable pub rate_limit :
    {A : Type 0}
    → LimitSettings
    → Text
    → ℕ
    → ℕ
    → Bool
    → ℕ
    → Text
    → (World → A × World)
    → List Counter
    → World
    → Limited A × List Counter × World
rate_limit s bucket max_requests window_seconds redis_up now ident view rows w =
    let (a, w1) = view w in
    let (v, rows') =
      check redis_up now bucket ident (get_or s.max_override max_requests)
        (get_or s.window_override window_seconds) rows in
    let (r, w2) = answer view v w in
    if not s.is_enabled then (served a none, rows, w1) else (r, rows', w2)
