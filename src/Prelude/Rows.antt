-- ===== src/Prelude/Rows.antt =====
-- Tables: a row that was added last and is then written back by its key.
use qms_bakery.Prelude.{
  ℕ, suc, ◌≡◌, refl, some, List, [], ◌∷◌, ◌++◌, map, find, length, ◌==◌, ==_iff, Bool-cases, inl,
  inr, if◌then◌else◌, arith, ap,
}

module _ {A : Type 0} (key : A → ℕ) where
  pub find-written :
      (t t' : A) (ts : List A)
      → key t' ≡ key t
      → find (λ u. key u == key t) (map (λ u. if key u == key t' then t' else u) (ts ++ t ∷ []))
        ≡ some t'
  find-written t t' [] same = ground arith
  find-written t t' (u ∷ ts) same = ground (arith, find-written t t' ts same)

  pub length-written :
      (f : A → A) (t : A) (ts : List A) → length (map f (ts ++ t ∷ [])) ≡ suc (length ts)
  length-written f t [] = refl
  length-written f t (u ∷ ts) = ap suc (length-written f t ts)

  -- A row that is found has the key.
  pub found_key : (id : ℕ) (ts : List A) (u : A) → find (λ t. key t == id) ts ≡ some u → key u ≡ id
  found_key id [] u h = absurd (ground arith)
  found_key id (t ∷ ts) u h = elim (Bool-cases (key t == id)) [
    | inl here ↦ ground (arith, h, here, ==_iff (key t) id)
    | inr later ↦ found_key id ts u (ground (arith, h, later))
  ]

pub length-last : {A : Type 0} (x : A) (xs : List A) → length (xs ++ x ∷ []) ≡ suc (length xs)
length-last x [] = refl
length-last x (y ∷ xs) = ap suc (length-last x xs)

pub length-map : {A B : Type 0} (f : A → B) (xs : List A) → length (map f xs) ≡ length xs
length-map f [] = refl
length-map f (x ∷ xs) = ap suc (length-map f xs)
