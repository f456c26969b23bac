-- ===== src/Jobs.antt =====
-- app/jobs/webhook.py and app/jobs/sms.py: the jobs that a worker of the queues runs.
pub mod Guarded
pub mod Texted
mod Tests
use qms_bakery.Prelude.{
  ℕ, ◌+◌, Bool, true, false, not, ◌&&◌, ◌||◌, Option, none, some, List, [], ◌∷◌, ◌++◌, map, keep,
  all, take, leb, ltb, ◌==◌, if◌then◌else◌,
}
use qms_bakery.Prelude.Text.{Text, codes, is_blank, strip, text_eq}
use qms_bakery.Prelude.Url.{ParsedUrl, urlparse, hostname}
use qms_bakery.Json.{Fields}

-- What `ipaddress` says of an address.
pub record Address : Type 0 where
  pub is_loopback : Bool
  pub is_link_local : Bool
  pub is_private : Bool
  pub is_reserved : Bool
  pub is_multicast : Bool
  pub is_unspecified : Bool

pub record HttpRequest : Type 0 where
  pub url : Text
  pub body : Text
  pub headers : List (Text × Text)

-- A message of the ClickSend API, and the request that carries some.
pub record Sms : Type 0 where
  pub to : Text
  pub source : Text
  pub body : Text

pub data Outgoing : Type 0 where
  http : HttpRequest → Outgoing
  sms : Text → List Sms → Outgoing

-- The network: `getaddrinfo` (none for gaierror), of which an address may be no address for
-- `ipaddress`; the requests that `requests.post` sends on as the answers redirect it, and the status of the
-- last answer (none where `requests` raises); `json.dumps` with sorted keys; the HMAC-SHA256 of a body under
-- a secret; and the seconds of the clock as text.
pub record Net : Type 0 where
  pub getaddrinfo : Text → Option (List (Option Address))
  pub redirected : Outgoing → List Outgoing
  pub status : Outgoing → Option ℕ
  pub dumps : Fields → Text
  pub hmac : Text → Text → Text
  pub time : Text

-- What the worker has sent, and how often RQ would run the job again (none outside a worker).
pub record Worker : Type 0 where
  pub sent : List Outgoing
  pub retries_left : Option ℕ

-- How a job ends: with a status, or with one of the exceptions.
pub data Outcome : Type 0 where
  done : ℕ → Outcome
  unsafe_url value_error transport_error : Outcome
  http_error permanent_error : ℕ → Outcome

abbrev pub is_public : Option Address → Bool
is_public none = false
is_public (some a) = not (
    a.is_loopback || a.is_link_local || a.is_private || a.is_reserved || a.is_multicast
    || a.is_unspecified)

abbrev all_public : Option (List (Option Address)) → Bool
all_public none = false
all_public (some answers) = all is_public answers

-- `_is_safe_outbound_host`
unfoldable pub is_safe_outbound_host : Net → Text → Bool
is_safe_outbound_host net host = all_public (net.getaddrinfo host)

-- `_drain_retries`
abbrev pub drain_retries : Worker → Worker
drain_retries k = record k { retries_left = elim k.retries_left [ none ↦ none | some n ↦ some 0 ] }

-- The ways in which `_validate_outbound_url` ends.
pub data Check : Type 0 where
  safe unsafe malformed : Check

abbrev pub check_host : Net → Bool → Option Text → Check
check_host net allow_private none = unsafe
check_host net allow_private (some host) =
    if allow_private || is_safe_outbound_host net host then safe else unsafe

abbrev is_http : Text → Bool
is_http scheme = text_eq scheme (codes "http") || text_eq scheme (codes "https")

abbrev pub check_url : Net → Bool → Option ParsedUrl → Check
check_url net allow_private none = malformed
check_url net allow_private (some parsed) =
    if is_http parsed.scheme then check_host net allow_private (hostname parsed) else unsafe

-- `_validate_outbound_url`
unfoldable pub validate_outbound_url : Net → Text → Bool → Check
validate_outbound_url net url allow_private = check_url net allow_private (urlparse url)

-- `raise_for_status` raises for 400 to 599.
abbrev pub judged : ℕ → Outcome
judged status = if leb 400 status && ltb status 600 then http_error status else done status

abbrev pub answered : Option ℕ → Outcome
answered none = transport_error
answered (some status) = judged status

abbrev signature_headers : Net → Option Text → Text → List (Text × Text)
signature_headers net none body = []
signature_headers net (some secret) body =
    if is_blank secret
    then []
    else (codes "X-QMS-Signature", codes "sha256=" ++ net.hmac secret body)
      ∷ (codes "X-QMS-Timestamp", net.time)
      ∷ []

unfoldable pub webhook_request : Net → Text → Fields → Option Text → HttpRequest
webhook_request net url payload secret = record {
  url = url;
  body = net.dumps payload;
  headers =
      (codes "Content-Type", codes "application/json")
      ∷ (codes "User-Agent", codes "qms-webhook/1.0")
      ∷ signature_headers net secret (net.dumps payload);
}

-- `requests.post`, which follows redirects.
abbrev pub posted : Net → Outgoing → Worker → Worker
posted net out k = record k { sent = k.sent ++ out ∷ net.redirected out }

abbrev pub post_checked : Net → HttpRequest → Check → Worker → Outcome × Worker
post_checked net r safe k = (answered (net.status (http r)), posted net (http r) k)
post_checked net r unsafe k = (unsafe_url, drain_retries k)
post_checked net r malformed k = (value_error, k)

-- `post_webhook`
unfoldable pub post_webhook : Net → Text → Fields → Option Text → Bool → Worker → Outcome × Worker
post_webhook net url payload secret allow_private k =
    post_checked net (webhook_request net url payload secret)
      (validate_outbound_url net url allow_private) k

abbrev pub sms_max_body_chars : ℕ
sms_max_body_chars = 1530

-- `base_url.rstrip("/")`
abbrev drop_slashes : Text → Text
drop_slashes [] = []
drop_slashes (c ∷ s) =
    let rest = drop_slashes s in if (c == b'/') && is_blank rest then [] else c ∷ rest

abbrev pub recipients : List Text → List Text
recipients to = keep (λ n. not (is_blank n)) (map strip to)

unfoldable pub sms_request : Text → Text → Text → List Text → Outgoing
sms_request base_url source body to =
    sms (drop_slashes base_url ++ codes "/sms/send")
      (map (λ n. record { to = n; source = source; body = take sms_max_body_chars body }) to)

-- 4xx but 429 is final.
abbrev pub sms_judged : Option ℕ → Worker → Outcome × Worker
sms_judged none k = (transport_error, k)
sms_judged (some status) k =
    if leb 400 status && ltb status 500 && not (status == 429)
    then (permanent_error status, drain_retries k)
    else (judged status, k)

abbrev pub no_recipients : List Text → Bool
no_recipients [] = true
no_recipients (_ ∷ _) = false

abbrev pub lacks : List Text → Text → Text → Text → Bool
lacks numbers username api_key body =
    no_recipients numbers || (is_blank username || is_blank api_key || is_blank body)

abbrev pub post_sms : Bool → Net → Outgoing → Worker → Outcome × Worker
post_sms true net out k = (value_error, k)
post_sms false net out k = sms_judged (net.status out) (posted net out k)

-- `send_sms`
unfoldable pub send_sms :
    Net → List Text → Text → Text → Text → Text → Text → Worker → Outcome × Worker
send_sms net to body username api_key source base_url k =
    post_sms (lacks (recipients to) username api_key body) net
      (sms_request base_url source body (recipients to)) k
