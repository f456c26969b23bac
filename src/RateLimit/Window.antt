-- ===== src/RateLimit/Window.antt =====
-- How many requests of a client one window lets through.
pub mod Refines
use qms_bakery.Prelude.{
  ℕ, suc, ◌+◌, ◌*◌, ◌-◌, ◌/◌, ◌≤◌, ◌<◌, ◌≡◌, refl, sym, ap, ◌∙◌, subst, ◌⊎◌, inl, inr, Bool, true,
  false, ◌&&◌, Option, none, some, List, [], ◌∷◌, count_if, leb, ◌==◌, if◌then◌else◌, arith,
  Bool-cases, ==_iff, ==_refl,
}
use native.Mathlib.Nat.{lt-div-mul-add, div-mul-le_self}
use qms_bakery.Prelude.Text.{Text, text_eq_iff, text_eq_refl}
use qms_bakery.RateLimit.{Key, key_eq, Counter, is_live, incr, expire, counted, key_at, check}

-- The value of a key, 0 where there is none.
used : Key → List Counter → ℕ
used k [] = 0
used k (c ∷ cs) = if key_eq c.key k then c.count else used k cs

abbrev reaches : ℕ → Option ℕ → Bool
reaches end none = false
reaches end (some t) = leb end t

-- Where the key is there, it does not expire before the given moment.
lasts : ℕ → Key → List Counter → Bool
lasts end k [] = true
lasts end k (c ∷ cs) = if key_eq c.key k then reaches end c.expires_at else lasts end k cs

key_eq_refl : (k : Key) → key_eq k k ≡ true
key_eq_refl k = rw (text_eq_refl k.bucket, text_eq_refl k.ident, ==_refl k.window_index) refl

-- Two keys that one key equals are equal.
key_eq-other : (a b k : Key) → key_eq a b ≡ true → key_eq b k ≡ false → key_eq a k ≡ false
key_eq-other a b k same other = ground (
  arith,
  text_eq_iff a.bucket b.bucket,
  text_eq_iff a.ident b.ident,
  ==_iff a.window_index b.window_index,
)

reaches-live :
    (end now : ℕ) (e : Option ℕ) → now < end → reaches end e ≡ true → is_live now e ≡ true
reaches-live end now none early l = ground arith
reaches-live end now (some t) early l = ground arith

lasts-here :
    (end : ℕ) (k : Key) (c : Counter) (cs : List Counter)
    → key_eq c.key k ≡ true
    → lasts end k (c ∷ cs) ≡ reaches end c.expires_at
unfolding lasts
lasts-here end k c cs same = rw same refl

lasts-there :
    (end : ℕ) (k : Key) (c : Counter) (cs : List Counter)
    → key_eq c.key k ≡ false
    → lasts end k (c ∷ cs) ≡ lasts end k cs
unfolding lasts
lasts-there end k c cs other = rw other refl

incr-own :
    (end now : ℕ) (k : Key) (rows : List Counter)
    → now < end
    → lasts end k rows ≡ true
    → ((incr now k rows).0 ≡ used k rows + 1)
      × (used k (incr now k rows).1 ≡ used k rows + 1)
      × ((lasts end k (incr now k rows).1 ≡ true) ⊎ ((incr now k rows).0 ≡ 1))
unfolding incr used lasts
incr-own end now k [] early l = (refl, rw (key_eq_refl k) refl, inr refl)
incr-own end now k (c ∷ cs) early l = elim (Bool-cases (key_eq c.key k)) [
  | inl same ↦
      let stays = sym (lasts-here end k c cs same) ∙ l in
      rw (same, reaches-live end now c.expires_at early stays)
        (refl, rw same refl, inl (rw same stays))
  | inr other ↦
      let rest = incr-own end now k cs early (sym (lasts-there end k c cs other) ∙ l) in
      rw other (rest.0, rw other rest.1, rw other rest.2)
]

expire-own :
    (end t : ℕ) (k : Key) (rows : List Counter)
    → end ≤ t
    → (used k (expire k t rows) ≡ used k rows) × (lasts end k (expire k t rows) ≡ true)
unfolding expire used lasts
expire-own end t k [] le = (refl, refl)
expire-own end t k (c ∷ cs) le = ground (arith, expire-own end t k cs le)

incr-other :
    (end now : ℕ) (k k' : Key) (rows : List Counter)
    → key_eq k' k ≡ false
    → (used k (incr now k' rows).1 ≡ used k rows)
      × (lasts end k (incr now k' rows).1 ≡ lasts end k rows)
unfolding incr used lasts
incr-other end now k k' [] other = rw other (refl, refl)
incr-other end now k k' (c ∷ cs) other = elim (Bool-cases (key_eq c.key k')) [
  | inl same ↦ elim (Bool-cases (is_live now c.expires_at)) [
    | inl live ↦ rw (same, live) (rw (key_eq-other c.key k' k same other) (refl, refl))
    | inr gone ↦ rw (same, gone) (rw (key_eq-other c.key k' k same other, other) (refl, refl))
  ]
  | inr else_where ↦
      let rest = incr-other end now k k' cs other in rw else_where (ground (arith, rest))
]

expire-other :
    (end t : ℕ) (k k' : Key) (rows : List Counter)
    → key_eq k' k ≡ false
    → (used k (expire k' t rows) ≡ used k rows)
      × (lasts end k (expire k' t rows) ≡ lasts end k rows)
unfolding expire used lasts
expire-other end t k k' [] other = (refl, refl)
expire-other end t k k' (c ∷ cs) other = elim (Bool-cases (key_eq c.key k')) [
  | inl same ↦ rw same (rw (key_eq-other c.key k' k same other) (refl, refl))
  | inr else_where ↦
      let rest = expire-other end t k k' cs other in rw else_where (ground (arith, rest))
]

-- The moment at which the window of a key ends.
abbrev end_of : ℕ → Key → ℕ
end_of window_seconds k = (k.window_index + 1) * window_seconds

counted-own :
    (end now w : ℕ) (k : Key) (rows : List Counter)
    → now < end
    → end ≤ now + w
    → lasts end k rows ≡ true
    → ((counted now w k rows).0 ≡ used k rows + 1)
      × (used k (counted now w k rows).1 ≡ used k rows + 1)
      × (lasts end k (counted now w k rows).1 ≡ true)
unfolding counted
counted-own end now w k rows early late l =
    let more = incr-own end now k rows early l in
    let set = expire-own end (now + w) k (incr now k rows).1 late in
    elim (Bool-cases ((incr now k rows).0 == 1)) [
      | inl first ↦ rw (first, counted) (more.0, set.0 ∙ more.1, set.1)
      | inr again ↦ rw (again, counted) (more.0, more.1, ground (arith, more))
    ]

counted-other :
    (end now w : ℕ) (k k' : Key) (rows : List Counter)
    → key_eq k' k ≡ false
    → (used k (counted now w k' rows).1 ≡ used k rows)
      × (lasts end k (counted now w k' rows).1 ≡ lasts end k rows)
unfolding counted
counted-other end now w k k' rows other =
    let one = incr-other end now k k' rows other in
    let set = expire-other end (now + w) k k' (incr now k' rows).1 other in
    elim (Bool-cases ((incr now k' rows).0 == 1)) [
      | inl first ↦ rw (first, counted) (set.0 ∙ one.0, set.1 ∙ one.1)
      | inr again ↦ rw (again, counted) (one.0, one.1)
    ]

-- A request: the bucket, the client and the second.
pub record Hit : Type 0 where
  pub bucket : Text
  pub ident : Text
  pub at : ℕ

abbrev pub key_of : ℕ → Hit → Key
key_of w h = key_at h.at w h.bucket h.ident

-- How many of the requests with a key are let through, when `check` answers all of them in turn.
unfoldable pub admitted : ℕ → ℕ → Key → List Hit → List Counter → ℕ
admitted max w k [] rows = 0
admitted max w k (h ∷ hs) rows =
    let (v, rows') = check true h.at h.bucket h.ident max w rows in
    let later = admitted max w k hs rows' in
    if key_eq (key_of w h) k && v.allowed then suc later else later

abbrev pub least : ℕ → ℕ → ℕ
least a b = if leb a b then a else b

in_window : (w at : ℕ) → 0 < w → (at < (at / w + 1) * w) × ((at / w + 1) * w ≤ at + w)
in_window w at pos_w =
    (omega (arith, lt-div-mul-add {a = at} {b = w} pos_w), omega (arith, div-mul-le_self at w))

not_zero : (w : ℕ) → 0 < w → (w == 0) ≡ false
not_zero w pos_w = ground arith

check-up :
    (h : Hit) (max w : ℕ) (rows : List Counter)
    → 0 < w
    → (check true h.at h.bucket h.ident max w rows).1 ≡ (counted h.at w (key_of w h) rows).1
unfolding check
check-up h max w rows pos_w = rw (not_zero w pos_w, check) refl

check-allowed :
    (h : Hit) (max w : ℕ) (rows : List Counter)
    → 0 < w
    → (check true h.at h.bucket h.ident max w rows).0.allowed
      ≡ leb (counted h.at w (key_of w h) rows).0 max
unfolding check
check-allowed h max w rows pos_w = rw (not_zero w pos_w, check) refl

-- The requests with a key.
abbrev pub asked : ℕ → Key → List Hit → ℕ
asked w k hits = count_if (λ h. key_eq (key_of w h) k) hits

-- What is let through of the rest, once the counters are as given.
abbrev Bounds : ℕ → ℕ → Key → List Hit → List Counter → Type 0
Bounds max w k hits rows =
    lasts (end_of w k) k rows ≡ true
    → admitted max w k hits rows ≡ least (asked w k hits) (max - used k rows)

least-step :
    (n u u' a max rest : ℕ)
    → n ≡ u + 1
    → u' ≡ u + 1
    → rest ≡ least a (max - u')
    → (if leb n max then suc rest else rest) ≡ least (suc a) (max - u)
least-step n u u' a max rest e e' r = ground arith

next_own :
    (max w : ℕ) (h : Hit) (hs : List Hit) (rows : List Counter)
    → 0 < w
    → ((rs : List Counter) → Bounds max w (key_of w h) hs rs)
    → Bounds max w (key_of w h) (h ∷ hs) rows
unfolding admitted
next_own max w h hs rows pos_w ih l =
    let k = key_of w h in
    let span = in_window w h.at pos_w in
    let c = counted-own (end_of w k) h.at w k rows span.0 span.1 l in
    let later = ih (counted h.at w k rows).1 c.2 in
    rw (key_eq_refl k, check-allowed h max w rows pos_w, check-up h max w rows pos_w)
      (least-step (counted h.at w k rows).0 (used k rows) (used k (counted h.at w k rows).1)
        (asked w k hs) max _ c.0 c.1 later)

next_other :
    (max w : ℕ) (k : Key) (h : Hit) (hs : List Hit) (rows : List Counter)
    → 0 < w
    → key_eq (key_of w h) k ≡ false
    → ((rs : List Counter) → Bounds max w k hs rs)
    → Bounds max w k (h ∷ hs) rows
unfolding admitted
next_other max w k h hs rows pos_w other ih l =
    let c = counted-other (end_of w k) h.at w k (key_of w h) rows other in
    let later = ih (counted h.at w (key_of w h) rows).1 (c.1 ∙ l) in
    rw (other, check-up h max w rows pos_w) (later ∙ ap (λ u. least (asked w k hs) (max - u)) c.0)

key_eq-path : (a b : Key) → key_eq a b ≡ true → a ≡ b
key_eq-path a b same =
    let p : a.bucket ≡ b.bucket = ground (arith, text_eq_iff a.bucket b.bucket) in
    let q : a.ident ≡ b.ident = ground (arith, text_eq_iff a.ident b.ident) in
    let r : a.window_index ≡ b.window_index =
      ground (arith, ==_iff a.window_index b.window_index) in
    ap (λ (x : Text). record a { bucket = x }) p
    ∙ ap (λ (x : Text). record a { bucket = b.bucket; ident = x }) q
    ∙ ap (λ (x : ℕ). record b { window_index = x }) r

admitted-from :
    (max w : ℕ) (k : Key) (hits : List Hit)
    → 0 < w
    → (rows : List Counter) → Bounds max w k hits rows
unfolding admitted
admitted-from max w k [] pos_w rows l = ground arith
admitted-from max w k (h ∷ hs) pos_w rows l = elim (Bool-cases (key_eq (key_of w h) k)) [
  | inl same ↦
      subst
        (λ (j : Key). ((rs : List Counter) → Bounds max w j hs rs) → Bounds max w j (h ∷ hs) rows)
        (key_eq-path (key_of w h) k same) (next_own max w h hs rows pos_w)
        (admitted-from max w k hs pos_w) l
  | inr other ↦ next_other max w k h hs rows pos_w other (admitted-from max w k hs pos_w) l
]

-- Where Redis is up, `check` lets `max_requests` requests of a client through in one window, and no
-- more: of any requests, answered in turn from no counters, those of one bucket, client and window
-- that are let through are as many as there are, or `max_requests` where there are more.
pub admitted_lem :
    (max w : ℕ) (k : Key) (hits : List Hit)
    → 0 < w
    → admitted max w k hits [] ≡ least (asked w k hits) max
unfolding lasts used
admitted_lem max w k hits pos_w =
    admitted-from max w k hits pos_w [] refl ∙ ap (least (asked w k hits)) (omega arith)
