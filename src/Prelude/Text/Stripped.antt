-- ===== src/Prelude/Text/Stripped.antt =====
-- A text that was stripped stays as it is when it is stripped again.
use qms_bakery.Prelude.Tests.{Bool-cases}
use Prim.Native.Nat.{ℕ}
use mathlib.Core.Path.{◌≡◌, refl, ap, ◌∙◌}
use mathlib.Core.Logic.{inl, inr}
use mathlib.Core.Bool.{false}
use mathlib.Core.List.{[], ◌∷◌, ◌++◌, reverse, reverse-append, reverse-reverse, reverse-cons}
use qms_bakery.Prelude.Text.{Text, is_space, lstrip, strip}

lstrip-lstrip : (s : Text) → lstrip (lstrip s) ≡ lstrip s
unfolding lstrip
lstrip-lstrip [] = refl
lstrip-lstrip (c ∷ s) = elim (Bool-cases (is_space c)) [
  | inl blank ↦ rw blank (lstrip-lstrip s)
  | inr full ↦ rw full (rw full refl)
]

lstrip-last : (s : Text) (c : ℕ) → is_space c ≡ false → lstrip (s ++ c ∷ []) ≡ lstrip s ++ c ∷ []
unfolding lstrip
lstrip-last [] c full = rw full refl
lstrip-last (d ∷ s) c full = elim (Bool-cases (is_space d)) [
  | inl blank ↦ rw blank (lstrip-last s c full)
  | inr mark ↦ rw mark refl
]

rstrip : Text → Text
rstrip s = reverse (lstrip (reverse s))

rstrip-cons : (c : ℕ) (s : Text) → is_space c ≡ false → rstrip (c ∷ s) ≡ c ∷ rstrip s
unfolding rstrip
rstrip-cons c s full =
    ap (λ t. reverse (lstrip t)) (reverse-cons c s)
    ∙ ap reverse (lstrip-last (reverse s) c full)
    ∙ reverse-append (lstrip (reverse s)) (c ∷ [])

rstrip-nil : rstrip [] ≡ []
unfolding rstrip lstrip
rstrip-nil = refl

rstrip-rstrip : (s : Text) → rstrip (rstrip s) ≡ rstrip s
unfolding rstrip
rstrip-rstrip s =
    ap (λ t. reverse (lstrip t)) (reverse-reverse (lstrip (reverse s)))
    ∙ ap reverse (lstrip-lstrip (reverse s))

lstrip-rstrip : (s : Text) → lstrip (rstrip (lstrip s)) ≡ rstrip (lstrip s)
unfolding lstrip
lstrip-rstrip [] = rw rstrip-nil refl
lstrip-rstrip (c ∷ s) = elim (Bool-cases (is_space c)) [
  | inl blank ↦ rw blank (lstrip-rstrip s)
  | inr full ↦ rw full (rw (rstrip-cons c s full) (rw full refl))
]

pub strip-strip : (s : Text) → strip (strip s) ≡ strip s
unfolding strip rstrip
strip-strip s = ap rstrip (lstrip-rstrip s) ∙ rstrip-rstrip (lstrip s)
