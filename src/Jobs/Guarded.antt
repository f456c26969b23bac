-- ===== src/Jobs/Guarded.antt =====
-- The guard of the webhooks against requests into the own network.
use qms_bakery.Prelude.{
  ◌≡◌, ◌≢◌, ◌⊎◌, refl, inl, inr, Bool, true, false, ◌||◌, Option, none, some, List, [], ◌∷◌, ◌++◌,
  All, all, arith, Bool-cases, Option-cases,
}
use qms_bakery.Prelude.Text.{Text, codes, text_eq, text_eq_iff}
use qms_bakery.Prelude.Url.{ParsedUrl, urlparse, hostname}
use qms_bakery.Json.{Fields}
use qms_bakery.Jobs.{
  Address, Net, Worker, http, Outcome, unsafe_url, value_error, Check, safe, unsafe, malformed,
  is_safe_outbound_host, drain_retries, validate_outbound_url, HttpRequest, webhook_request,
  post_webhook, answered, check_host, check_url, is_public,
}

-- No kind of address that stays inside.
abbrev pub IsPublic : Option Address → Type 0
IsPublic none = ⊥
IsPublic (some a) =
    (a.is_loopback ≡ false)
    × (a.is_link_local ≡ false)
    × (a.is_private ≡ false)
    × (a.is_reserved ≡ false)
    × (a.is_multicast ≡ false)
    × (a.is_unspecified ≡ false)

-- A target that the guard is to let through: a web scheme, and a host of which the resolver gives public
-- addresses only, unless private ones are asked for.
abbrev pub IsSafe : Net → Text → Bool → Type 0
IsSafe net url allow_private =
    (p : ParsedUrl) × (host : Text) × (urlparse url ≡ some p)
    × ((p.scheme ≡ codes "http") ⊎ (p.scheme ≡ codes "https"))
    × (hostname p ≡ some host)
    × ((allow_private ≡ true)
        ⊎ ((answers : List (Option Address)) × (net.getaddrinfo host ≡ some answers)
            × All IsPublic answers))

-- A job has sent its request to a safe target, and after it what the answers redirect; or nothing, and a
-- URL that is refused costs the job its retries.
abbrev pub Guarded : Net → Text → Fields → Option Text → Bool → Worker → Outcome × Worker → Type 0
Guarded net url payload secret allow_private k (out, k') =
    (IsSafe net url allow_private
      × ((r : HttpRequest) × (r.url ≡ url)
          × (r.body ≡ net.dumps payload)
          × (out ≡ answered (net.status (http r)))
          × (k' ≡ record k { sent = k.sent ++ http r ∷ net.redirected (http r) })))
    ⊎ ((out ≡ unsafe_url) × (k' ≡ drain_retries k) × (¬ IsSafe net url allow_private))
    ⊎ ((out ≡ value_error) × (k' ≡ k) × (urlparse url ≡ none))

is_public-IsPublic : (a : Option Address) → is_public a ≡ true → IsPublic a
is_public-IsPublic none h = absurd (ground arith)
is_public-IsPublic (some a) h =
    (ground arith, ground arith, ground arith, ground arith, ground arith, ground arith)

all-IsPublic :
    (answers : List (Option Address)) → all is_public answers ≡ true → All IsPublic answers
all-IsPublic [] h = tt
all-IsPublic (a ∷ answers) h =
    (is_public-IsPublic a (ground arith), all-IsPublic answers (ground arith))

safe_host :
    (net : Net) (host : Text)
    → is_safe_outbound_host net host ≡ true
    → (answers : List (Option Address)) × (net.getaddrinfo host ≡ some answers)
      × All IsPublic answers
unfolding is_safe_outbound_host
safe_host net host h = elim (Option-cases (net.getaddrinfo host)) [
  | inl none_found ↦ absurd (ground (arith, h, none_found))
  | inr (answers, found) ↦ (answers, found, all-IsPublic answers (ground (arith, h, found)))
]

check_host-safe :
    (net : Net) (allow_private : Bool) (o : Option Text)
    → check_host net allow_private o ≡ safe
    → (host : Text) × (o ≡ some host)
      × ((allow_private ≡ true)
          ⊎ ((answers : List (Option Address)) × (net.getaddrinfo host ≡ some answers)
              × All IsPublic answers))
check_host-safe net allow_private none h = absurd (ground arith)
check_host-safe net true (some host) h = (host, refl, inl refl)
check_host-safe net false (some host) h = (host, refl, inr (safe_host net host (ground arith)))

Check-cases : (c : Check) → (c ≡ safe) ⊎ (c ≡ unsafe) ⊎ (c ≡ malformed)
Check-cases safe = inl refl
Check-cases unsafe = inr (inl refl)
Check-cases malformed = inr (inr refl)

http_scheme :
    (scheme : Text)
    → (text_eq scheme (codes "http") || text_eq scheme (codes "https")) ≡ true
    → (scheme ≡ codes "http") ⊎ (scheme ≡ codes "https")
http_scheme scheme h = elim (Bool-cases (text_eq scheme (codes "http"))) [
  | inl plain ↦ inl ((text_eq_iff scheme (codes "http")).0 plain)
  | inr other ↦ inr ((text_eq_iff scheme (codes "https")).0 (ground arith))
]

check_url-IsSafe :
    (net : Net) (url : Text) (allow_private : Bool) (p : ParsedUrl)
    → urlparse url ≡ some p
    → check_url net allow_private (some p) ≡ safe
    → IsSafe net url allow_private
check_url-IsSafe net url allow_private p parsed h =
    elim (Bool-cases (text_eq p.scheme (codes "http") || text_eq p.scheme (codes "https"))) [
      | inr other ↦ absurd (ground (arith, h, other))
      | inl web ↦
          let (host, named, fine) =
            check_host-safe net allow_private (hostname p) (ground (arith, h, web)) in
          (p, host, parsed, http_scheme p.scheme web, named, fine)
    ]

IsPublic-is_public : (a : Option Address) → IsPublic a → is_public a ≡ true
IsPublic-is_public none h = absurd h
IsPublic-is_public (some a) h = ground arith

All-all : (answers : List (Option Address)) → All IsPublic answers → all is_public answers ≡ true
All-all [] h = refl
All-all (a ∷ answers) h = ground (arith, IsPublic-is_public a h.0, All-all answers h.1)

fine_host :
    (net : Net) (host : Text) (allow_private : Bool)
    → ((allow_private ≡ true)
        ⊎ ((answers : List (Option Address)) × (net.getaddrinfo host ≡ some answers)
            × All IsPublic answers))
    → (allow_private || is_safe_outbound_host net host) ≡ true
unfolding is_safe_outbound_host
fine_host net host allow_private (inl asked) = ground arith
fine_host net host allow_private (inr (answers, found, all_fine)) =
    ground (arith, found, All-all answers all_fine)

scheme_http :
    (scheme : Text)
    → (scheme ≡ codes "http") ⊎ (scheme ≡ codes "https")
    → (text_eq scheme (codes "http") || text_eq scheme (codes "https")) ≡ true
scheme_http scheme (inl plain) = rw plain refl
scheme_http scheme (inr secure) = rw secure refl

IsSafe-safe :
    (net : Net) (url : Text) (allow_private : Bool)
    → IsSafe net url allow_private
    → validate_outbound_url net url allow_private ≡ safe
unfolding validate_outbound_url
IsSafe-safe net url allow_private (p, host, parsed, web, named, fine) =
    ground (arith, parsed, scheme_http p.scheme web, named, fine_host net host allow_private fine)

checked :
    (net : Net) (url : Text) (allow_private : Bool) (p : ParsedUrl) (c : Check)
    → urlparse url ≡ some p
    → check_url net allow_private (some p) ≡ c
    → validate_outbound_url net url allow_private ≡ c
unfolding validate_outbound_url
checked net url allow_private p c parsed h = ground (arith, parsed, h)

unparsed :
    (net : Net) (url : Text) (allow_private : Bool)
    → urlparse url ≡ none
    → validate_outbound_url net url allow_private ≡ malformed
unfolding validate_outbound_url
unparsed net url allow_private bad = ground (arith, bad)

not_unsafe :
    (net : Net) (url : Text) (allow_private : Bool)
    → validate_outbound_url net url allow_private ≡ unsafe
    → ¬ IsSafe net url allow_private
not_unsafe net url allow_private refused fine =
    absurd (ground (arith, refused, IsSafe-safe net url allow_private fine))

host_not_malformed :
    (net : Net) (allow_private : Bool) (o : Option Text)
    → check_host net allow_private o ≢ malformed
host_not_malformed net allow_private none h = absurd (ground arith)
host_not_malformed net allow_private (some host) h = absurd (ground arith)

not_malformed :
    (net : Net) (allow_private : Bool) (p : ParsedUrl)
    → check_url net allow_private (some p) ≢ malformed
not_malformed net allow_private p h =
    elim (Bool-cases (text_eq p.scheme (codes "http") || text_eq p.scheme (codes "https"))) [
      | inr other ↦ absurd (ground (arith, h, other))
      | inl web ↦ host_not_malformed net allow_private (hostname p) (ground (arith, h, web))
    ]

validate-cases :
    (net : Net) (url : Text) (allow_private : Bool)
    → (IsSafe net url allow_private × (validate_outbound_url net url allow_private ≡ safe))
      ⊎ (validate_outbound_url net url allow_private ≡ unsafe)
      ⊎ ((urlparse url ≡ none) × (validate_outbound_url net url allow_private ≡ malformed))
validate-cases net url allow_private = elim (Option-cases (urlparse url)) [
  | inl bad ↦ inr (inr (bad, unparsed net url allow_private bad))
  | inr (p, parsed) ↦ elim (Check-cases (check_url net allow_private (some p))) [
    | inl fine ↦ inl (
      check_url-IsSafe net url allow_private p parsed fine,
      checked net url allow_private p safe parsed fine,
    )
    | inr (inl refused) ↦ inr (inl (checked net url allow_private p unsafe parsed refused))
    | inr (inr raised) ↦ absurd (not_malformed net allow_private p raised)
  ]
]

-- A webhook job sends the payload to its URL only where that has a web scheme and a host whose addresses
-- are all public (unless private ones are allowed), and ends as the last answer says; whatever else it
-- sends are the requests to which the answers redirect it, whose targets are not looked at. A URL that is
-- refused sends nothing and costs the job its retries; one that cannot be parsed sends nothing.
pub post_webhook-Guarded :
    (net : Net) (url : Text) (payload : Fields) (secret : Option Text) (allow_private : Bool)
    (k : Worker)
    → Guarded net url payload secret allow_private k
        (post_webhook net url payload secret allow_private k)
unfolding post_webhook webhook_request
post_webhook-Guarded net url payload secret allow_private k =
    elim (validate-cases net url allow_private) [
      | inl (fine, go) ↦
          rw (go, post_webhook)
            (inl (fine, (webhook_request net url payload secret, refl, refl, refl, refl)))
      | inr (inl refused) ↦
          rw (refused, post_webhook)
            (inr (inl (refl, refl, not_unsafe net url allow_private refused)))
      | inr (inr (bad, raised)) ↦ rw (raised, post_webhook) (inr (inr (refl, refl, bad)))
    ]
