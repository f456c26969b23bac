-- ===== src/Training/Links/RoundTrip.antt =====
-- Issued links, and what the look-up of their token gives.
use qms_bakery.Prelude.{
  ℕ, ◌<◌, ◌≡◌, refl, ap, ◌∙◌, inl, inr, Bool, true, false, Option, some, List, [], ◌∷◌, ◌++◌, All,
  find, leb, ◌==◌, if◌then◌else◌, arith, Bool-cases, ==_iff, ==_refl,
}
use mathlib.Core.List.{append_assoc}
use qms_bakery.Prelude.Int.{pos}
use qms_bakery.Prelude.Text.{Text, codes, text_eq, text_eq_refl, text_eq_iff}
use qms_bakery.Prelude.Decimal.{decimal, split_on}
use qms_bakery.Prelude.Decimal.ReadBack.{AllDigits, AllDigits-decimal, int_of-decimal}
use qms_bakery.Models.Training.{TrainingEnrolment}
use qms_bakery.World.{Env, World, now}
use qms_bakery.Training.Enrol.{issue_token, unix, unix_epoch, link_body}
use qms_bakery.Training.Links.{
  Verified, valid, invalid, expired, verify_token, verify_parts, check_signature, body_of, is_ascii,
  opened, link_expired, refused, get_enrolment_with_reason, open_row, open_verified,
}

-- No character is a dot.
abbrev pub NoDot : Text → Type 0
NoDot s = All (λ c. (c == b'.') ≡ false) s

split-part : (s t : Text) → NoDot s → split_on b'.' (s ++ (b'.' ∷ t)) ≡ s ∷ split_on b'.' t
unfolding split_on
split-part [] t h = refl
split-part (c ∷ s) t h = rw (h.0, split-part s t h.1) refl

split-last : (s : Text) → NoDot s → split_on b'.' s ≡ s ∷ []
unfolding split_on
split-last [] h = refl
split-last (c ∷ s) h = rw (h.0, split-last s h.1) refl

NoDot-AllDigits : (s : Text) → AllDigits s → NoDot s
NoDot-AllDigits [] h = tt
NoDot-AllDigits (c ∷ s) h = (ground arith, NoDot-AllDigits s h.1)

all-All : (s : Text) → All (λ c. c < 128) s → is_ascii s ≡ true
all-All [] h = refl
all-All (c ∷ s) h = ground (arith, all-All s h.1)

-- What the program relies on of `hexdigest` and of UUIDs: the text of a signature is ASCII with no dot,
-- and that of a key has no dot.
pub record PlainTexts (env : Env) : Type 0 where
  pub sign_dots : (body : Text) → NoDot (env.sign body)
  pub sign_ascii : (body : Text) → All (λ c. c < 128) (env.sign body)
  pub uuid_dots : (id : ℕ) → NoDot (env.uuid id)

three_parts :
    (a b c : Text) → a ++ codes "." ++ b ++ codes "." ++ c ≡ a ++ (b'.' ∷ (b ++ (b'.' ∷ c)))
three_parts a b c = simp append_assoc

token-parts :
    (env : Env) (id expires_at : ℕ)
    → PlainTexts env
    → split_on b'.' (issue_token env id expires_at)
      ≡ env.uuid id
        ∷ decimal (unix expires_at)
        ∷ env.sign (link_body (env.uuid id) (unix expires_at))
        ∷ []
unfolding issue_token
token-parts env id expires_at plain =
    let sig = env.sign (link_body (env.uuid id) (unix expires_at)) in
    let exp = decimal (unix expires_at) in
    ap (split_on b'.') (three_parts (env.uuid id) exp sig)
    ∙ split-part (env.uuid id) (exp ++ (b'.' ∷ sig)) (plain.uuid_dots id)
    ∙ ap (λ (l : List Text). env.uuid id ∷ l)
        (split-part exp sig (NoDot-AllDigits exp (AllDigits-decimal (unix expires_at)))
          ∙ ap (λ (l : List Text). exp ∷ l)
              (split-last sig (plain.sign_dots (link_body (env.uuid id) (unix expires_at)))))

check_signature-own :
    (env : Env) (id : Text) (e : ℕ)
    → PlainTexts env
    → check_signature env id (pos e) (env.sign (body_of id (pos e)))
      ≡ (if leb e (unix (now env)) then invalid expired else valid id)
unfolding check_signature
check_signature-own env id e plain =
    rw
      (
        all-All (env.sign (body_of id (pos e))) (plain.sign_ascii (body_of id (pos e))),
        text_eq_refl (env.sign (body_of id (pos e))),
        check_signature,
      )
      refl

-- `verify_token` reads back what `issue_token` wrote: the key until the link expires, and then that it
-- has expired.
pub verify_token-issue_token :
    (env : Env) (id expires_at : ℕ)
    → PlainTexts env
    → verify_token env (issue_token env id expires_at)
      ≡ (if leb (unix expires_at) (unix (now env)) then invalid expired else valid (env.uuid id))
unfolding verify_token verify_parts
verify_token-issue_token env id expires_at plain =
    rw (token-parts env id expires_at plain, int_of-decimal (unix expires_at))
      (check_signature-own env (env.uuid id) (unix expires_at) plain)

-- No two keys have one UUID.
abbrev pub DistinctUuids : Env → Type 0
DistinctUuids env = (a b : ℕ) → env.uuid a ≡ env.uuid b → a ≡ b

not_both : (b : Bool) → b ≡ false → b ≡ true → ⊥
not_both b no_way is_so = cc

enrolment_of-uuid :
    (env : Env) (id : ℕ) (es : List TrainingEnrolment)
    → DistinctUuids env
    → find (λ (e : TrainingEnrolment). text_eq (env.uuid e.id) (env.uuid id)) es
      ≡ find (λ (e : TrainingEnrolment). e.id == id) es
enrolment_of-uuid env id [] distinct = refl
enrolment_of-uuid env id (e ∷ es) distinct = elim (Bool-cases (e.id == id)) [
  | inl same ↦ rw ((==_iff e.id id).0 same, text_eq_refl (env.uuid id), ==_refl id) refl
  | inr other ↦ elim (Bool-cases (text_eq (env.uuid e.id) (env.uuid id))) [
    | inl equal ↦ absurd (
        not_both (e.id == id) other
          ((==_iff e.id id).1 (distinct e.id id ((text_eq_iff _ _).0 equal))))
    | inr differ ↦ rw (differ, other) (enrolment_of-uuid env id es distinct)
  ]
]

-- The enrolment with a key.
abbrev pub find_enrolment : ℕ → World → Option TrainingEnrolment
find_enrolment id w = find (λ (e : TrainingEnrolment). e.id == id) w.enrolments

open_row-own :
    (env : Env) (e : TrainingEnrolment)
    → open_row env e.magic_token (some e)
      ≡ (if leb e.expires_at (now env) then refused link_expired else opened e)
unfolding open_row
open_row-own env e = rw (text_eq_refl e.magic_token, open_row) refl

unix-leb : (a b : ℕ) → unix_epoch < a → leb (unix a) (unix b) ≡ leb a b
unix-leb a b h = ground arith

open_verified-own :
    (env : Env) (w : World) (e : TrainingEnrolment)
    → DistinctUuids env
    → find_enrolment e.id w ≡ some e
    → unix_epoch < e.expires_at
    → open_verified env e.magic_token w (
        if leb (unix e.expires_at) (unix (now env)) then invalid expired else valid (env.uuid e.id))
      ≡ (if leb e.expires_at (now env) then refused link_expired else opened e)
open_verified-own env w e distinct stored late = elim (Bool-cases (leb e.expires_at (now env))) [
  | inl past ↦ rw (unix-leb e.expires_at (now env) late, past) refl
  | inr live ↦
      rw (unix-leb e.expires_at (now env) late, live)
        (ap (open_row env e.magic_token) (enrolment_of-uuid env e.id w.enrolments distinct ∙ stored)
          ∙ open_row-own env e
          ∙ ap (λ (b : Bool). if b then refused link_expired else opened e) live)
]

-- The token of a stored enrolment opens that enrolment until it expires; from then on it is refused as
-- expired.
pub get_enrolment_with_reason-issued :
    (env : Env) (w : World) (e : TrainingEnrolment)
    → PlainTexts env
    → DistinctUuids env
    → find_enrolment e.id w ≡ some e
    → e.magic_token ≡ issue_token env e.id e.expires_at
    → unix_epoch < e.expires_at
    → get_enrolment_with_reason env e.magic_token w
      ≡ (if leb e.expires_at (now env) then refused link_expired else opened e)
unfolding get_enrolment_with_reason
get_enrolment_with_reason-issued env w e plain distinct stored token late =
    ap (λ (v : Verified). open_verified env e.magic_token w v)
      (ap (verify_token env) token ∙ verify_token-issue_token env e.id e.expires_at plain)
    ∙ open_verified-own env w e distinct stored late
