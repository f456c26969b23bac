-- ===== src/RateLimit/Window/Refines.antt =====
-- The counters in Redis, which expire, against a table of numbers that never does.
use qms_bakery.Prelude.{
  ℕ, suc, ◌+◌, ◌*◌, ◌-◌, ◌/◌, ◌<◌, ◌≡◌, refl, ap, ◌∙◌, subst, inl, inr, true, List, [], ◌∷◌, leb,
  if◌then◌else◌, arith, Bool-cases,
}
use qms_bakery.RateLimit.{Key, key_eq, Counter, counted, check, Verdict}
use qms_bakery.RateLimit.Window.{
  Hit, key_of, used, lasts, end_of, in_window, counted-own, counted-other, check-up, key_eq-path,
  key_eq_refl, not_zero,
}

-- The specification: how many requests each client has made in each window.
abbrev pub Tally : Type 0
Tally = Key → ℕ

abbrev pub no_requests : Tally
no_requests k = 0

abbrev pub counted_once : Key → Tally → Tally
counted_once key s k = if key_eq key k then suc (s k) else s k

-- The verdict on the n-th request of a window.
abbrev pub nth_verdict : ℕ → ℕ → Hit → ℕ → Verdict
nth_verdict max w h n = record {
  allowed = leb n max;
  remaining = max - n;
  retry_after = (h.at / w + 1) * w - h.at;
}

unfoldable pub promised : ℕ → ℕ → List Hit → Tally → List Verdict
promised max w [] s = []
promised max w (h ∷ hs) s =
    nth_verdict max w h (suc (s (key_of w h))) ∷ promised max w hs (counted_once (key_of w h) s)

-- The verdicts of `check` on requests in turn, while Redis is up.
unfoldable pub verdicts : ℕ → ℕ → List Hit → List Counter → List Verdict
verdicts max w [] rows = []
verdicts max w (h ∷ hs) rows =
    let (v, rows') = check true h.at h.bucket h.ident max w rows in v ∷ verdicts max w hs rows'

-- The rows stand for the tally, and none expires within its window.
abbrev Implements : ℕ → List Counter → Tally → Type 0
Implements w rows s = (k : Key) → (used k rows ≡ s k) × (lasts (end_of w k) k rows ≡ true)

module _ (w : ℕ) (pos_w : 0 < w) (h : Hit) (rows : List Counter) (s : Tally)
    (i : Implements w rows s) where
  counted-n : (counted h.at w (key_of w h) rows).0 ≡ suc (s (key_of w h))
  counted-n =
      let k = key_of w h in
      let span = in_window w h.at pos_w in
      let c = counted-own (end_of w k) h.at w k rows span.0 span.1 (i k).1 in
      omega (arith, c.0, (i k).0)

  counted-Implements_own :
      let k = key_of w h in
      (used k (counted h.at w k rows).1 ≡ counted_once k s k)
      × (lasts (end_of w k) k (counted h.at w k rows).1 ≡ true)
  counted-Implements_own =
      let k = key_of w h in
      let span = in_window w h.at pos_w in
      let c = counted-own (end_of w k) h.at w k rows span.0 span.1 (i k).1 in
      rw (key_eq_refl k) (omega (arith, c.1, (i k).0), c.2)

  counted-Implements :
      Implements w (counted h.at w (key_of w h) rows).1 (counted_once (key_of w h) s)
  counted-Implements k = elim (Bool-cases (key_eq (key_of w h) k)) [
    | inl same ↦
        subst
          (λ (j : Key).
            (used j (counted h.at w (key_of w h) rows).1 ≡ counted_once (key_of w h) s j)
            × (lasts (end_of w j) j (counted h.at w (key_of w h) rows).1 ≡ true))
          (key_eq-path (key_of w h) k same) counted-Implements_own
    | inr other ↦
        let c = counted-other (end_of w k) h.at w k (key_of w h) rows other in
        rw other (c.0 ∙ (i k).0, c.1 ∙ (i k).1)
  ]

check-verdict :
    (h : Hit) (max w : ℕ) (rows : List Counter)
    → 0 < w
    → (check true h.at h.bucket h.ident max w rows).0
      ≡ nth_verdict max w h (counted h.at w (key_of w h) rows).0
unfolding check
check-verdict h max w rows pos_w = rw (not_zero w pos_w, check) refl

verdicts-Implements :
    (max w : ℕ) (hits : List Hit) (rows : List Counter) (s : Tally)
    → 0 < w
    → Implements w rows s
    → verdicts max w hits rows ≡ promised max w hits s
unfolding verdicts promised
verdicts-Implements max w [] rows s pos_w i = refl
verdicts-Implements max w (h ∷ hs) rows s pos_w i =
    rw (check-verdict h max w rows pos_w, check-up h max w rows pos_w, counted-n w pos_w h rows s i)
      (ap (λ (vs : List Verdict). nth_verdict max w h (suc (s (key_of w h))) ∷ vs)
        (verdicts-Implements max w hs (counted h.at w (key_of w h) rows).1
          (counted_once (key_of w h) s) pos_w (counted-Implements w pos_w h rows s i)))

-- While Redis is up, `check` refines the specification of a fixed-window limiter, in which a table
-- counts the requests of each client in each window for ever: from no keys, any requests get the same
-- verdicts, although keys expire. The requests need not come in the order of their times.
pub verdicts-promised :
    (max w : ℕ) (hits : List Hit) → 0 < w → verdicts max w hits [] ≡ promised max w hits no_requests
unfolding used lasts
verdicts-promised max w hits pos_w =
    verdicts-Implements max w hits [] no_requests pos_w (λ k. (refl, refl))
