-- ===== src/Jobs/Texted.antt =====
-- What an SMS job sends, and when it gives up for good.
use qms_bakery.Prelude.{
  ℕ, ◌≡◌, ◌⊎◌, ◌≤◌, ◌<◌, ◌≢◌, refl, ap, inl, inr, Bool, true, false, not, ◌&&◌, ◌||◌, Option, none,
  some, List, [], ◌∷◌, ◌++◌, All, map, keep, take, length, length-take-le, leb, ltb, ◌==◌, ==_iff,
  arith, Bool-cases,
}
use qms_bakery.Prelude.Text.{Text, is_blank, strip}
use qms_bakery.Jobs.{
  Net, Worker, Outgoing, Sms, sms, Outcome, value_error, permanent_error, drain_retries, answered,
  recipients, sms_request, send_sms, lacks, no_recipients, sms_judged, sms_max_body_chars,
}

-- The answers that stand for a mistake of the job itself.
abbrev pub IsFinal : ℕ → Type 0
IsFinal status = (400 ≤ status) × (status < 500) × (status ≢ 429)

-- How an SMS job ends after its request, with the state of the worker: for good after a final answer.
abbrev pub Ends : Option ℕ → Worker → Outcome × Worker → Type 0
Ends answer k (out, k') =
    ((status : ℕ) × (answer ≡ some status)
      × IsFinal status
      × (out ≡ permanent_error status)
      × (k' ≡ drain_retries k))
    ⊎ ((out ≡ answered answer)
        × (k' ≡ k)
        × ((answer ≡ none) ⊎ ((status : ℕ) × (answer ≡ some status) × (¬ IsFinal status))))

-- A message to a number, whose text is not too long.
abbrev pub Fits : Text → Text → Sms → Type 0
Fits source body m =
    (is_blank m.to ≡ false)
    × (m.source ≡ source)
    × (m.body ≡ take sms_max_body_chars body)
    × (length m.body ≤ sms_max_body_chars)

-- One message to each number, in their order.
abbrev pub AllFit : Text → Text → List Text → Outgoing → Type 0
AllFit source body numbers (sms url messages) =
    All (Fits source body) messages × (map (λ (m : Sms). m.to) messages ≡ numbers)
AllFit source body numbers _ = ⊥

-- What a call of `send_sms` has done.
abbrev pub Texted :
    Net → List Text → Text → Text → Text → Text → Text → Worker → Outcome × Worker → Type 0
Texted net to body username api_key source base_url k (out, k') =
    let numbers = recipients to in
    let request = sms_request base_url source body numbers in
    ((out ≡ value_error)
      × (k' ≡ k)
      × ((numbers ≡ []) ⊎ ((is_blank username || is_blank api_key || is_blank body) ≡ true)))
    ⊎ ((numbers ≢ [])
        × (is_blank username ≡ false)
        × (is_blank api_key ≡ false)
        × (is_blank body ≡ false)
        × AllFit source body numbers request
        × Ends (net.status request) (record k { sent = k.sent ++ request ∷ net.redirected request })
            (out, k'))

messages-Fits :
    (source body : Text) (numbers : List Text)
    → All (λ n. is_blank n ≡ false) numbers
    → All
        (Fits source body)
        (map (λ n. record { to = n; source = source; body = take sms_max_body_chars body }) numbers)
messages-Fits source body [] h = tt
messages-Fits source body (n ∷ numbers) h = (
  (h.0, refl, refl, length-take-le sms_max_body_chars body),
  messages-Fits source body numbers h.1,
)

messages-to :
    (source body : Text) (numbers : List Text)
    → map
        (λ (m : Sms). m.to)
        (map (λ n. record { to = n; source = source; body = take sms_max_body_chars body }) numbers)
      ≡ numbers
messages-to source body [] = refl
messages-to source body (n ∷ numbers) =
    ap (λ (ns : List Text). n ∷ ns) (messages-to source body numbers)

keep_full : (ns : List Text) → All (λ n. is_blank n ≡ false) (keep (λ n. not (is_blank n)) ns)
keep_full [] = tt
keep_full (n ∷ ns) = elim (Bool-cases (is_blank n)) [
  | inl blank ↦ rw blank (keep_full ns)
  | inr full ↦ rw full (full, keep_full ns)
]

sms_request-AllFit :
    (base_url source body : Text) (to : List Text)
    → AllFit source body (recipients to) (sms_request base_url source body (recipients to))
unfolding sms_request
sms_request-AllFit base_url source body to = (
  messages-Fits source body (recipients to) (keep_full (map strip to)),
  messages-to source body (recipients to),
)

permanent_status :
    (status : ℕ) → (leb 400 status && ltb status 500 && not (status == 429)) ≡ true → IsFinal status
permanent_status status h =
    (ground arith, ground arith, λ e. absurd (ground (arith, h, e, ==_iff status 429)))

transient_status :
    (status : ℕ)
    → (leb 400 status && ltb status 500 && not (status == 429)) ≡ false
    → ¬ IsFinal status
transient_status status h (low, high, other) =
    absurd (ground (arith, h, low, high, other, ==_iff status 429))

sms_judged-Ends : (answer : Option ℕ) (k : Worker) → Ends answer k (sms_judged answer k)
sms_judged-Ends none k = inr (refl, refl, inl refl)
sms_judged-Ends (some status) k =
    elim (Bool-cases (leb 400 status && ltb status 500 && not (status == 429))) [
      | inl final ↦ rw final (inl (status, refl, permanent_status status final, refl, refl))
      | inr other ↦ rw other (inr (refl, refl, inr (status, refl, transient_status status other)))
    ]

what_lacks :
    (numbers : List Text) (b : Bool)
    → (no_recipients numbers || b) ≡ true
    → (numbers ≡ []) ⊎ (b ≡ true)
what_lacks [] b h = inl refl
what_lacks (n ∷ numbers) b h = inr (ground arith)

lacks_none :
    (numbers : List Text) (username api_key body : Text)
    → lacks numbers username api_key body ≡ false
    → (numbers ≢ [])
      × (is_blank username ≡ false)
      × (is_blank api_key ≡ false)
      × (is_blank body ≡ false)
lacks_none [] username api_key body h = absurd (ground arith)
lacks_none (n ∷ numbers) username api_key body h =
    (λ e. absurd (ground arith), ground arith, ground arith, ground arith)

-- An SMS job without a number, a body or its credentials sends nothing and raises. Otherwise it sends its
-- request, with one message to each number and each text cut to the longest that is allowed (and what the
-- answers redirect), and ends as the last answer says; an answer from 400 to 499 but 429 costs the job its retries.
pub send_sms-Texted :
    (net : Net) (to : List Text) (body username api_key source base_url : Text) (k : Worker)
    → Texted net to body username api_key source base_url k
        (send_sms net to body username api_key source base_url k)
unfolding send_sms
send_sms-Texted net to body username api_key source base_url k =
    elim (Bool-cases (lacks (recipients to) username api_key body)) [
      | inl bare ↦ rw (bare, send_sms) (inl (refl, refl, what_lacks _ _ bare))
      | inr full ↦
          rw (full, send_sms)
            (let (some_numbers, named, keyed, worded) =
                lacks_none (recipients to) username api_key body full in
              inr (
                some_numbers,
                named,
                keyed,
                worded,
                sms_request-AllFit base_url source body to,
                sms_judged-Ends _ _,
              ))
    ]
