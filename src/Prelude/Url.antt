-- ===== src/Prelude/Url.antt =====
-- `urllib.parse.urlparse`, of ASCII text: what the program reads of its result.
use qms_bakery.Prelude.{
  ℕ, ◌+◌, Bool, false, not, ◌&&◌, ◌||◌, Option, none, some, [], ◌∷◌, keep, elem, leb, ◌==◌,
  if◌then◌else◌,
}
use qms_bakery.Prelude.Text.{Text, is_blank}
use qms_bakery.Prelude.Decimal.{is_digit}

pub record ParsedUrl : Type 0 where
  pub scheme : Text
  pub netloc : Text

-- Control characters and spaces are dropped from the front, and tabs and line breaks anywhere.
abbrev drop_controls : Text → Text
drop_controls [] = []
drop_controls (c ∷ s) = if leb c 32 then drop_controls s else c ∷ s

abbrev is_removed : ℕ → Bool
is_removed c = (c == 9) || (c == 10) || (c == 13)

unfoldable pub url_text : Text → Text
url_text s = keep (λ c. not (is_removed c)) (drop_controls s)

abbrev is_upper : ℕ → Bool
is_upper c = leb 65 c && leb c 90

abbrev is_letter : ℕ → Bool
is_letter c = is_upper c || (leb 97 c && leb c 122)

abbrev pub lower_code : ℕ → ℕ
lower_code c = if is_upper c then c + 32 else c

abbrev is_scheme_code : ℕ → Bool
is_scheme_code c = is_letter c || is_digit c || (c == b'+') || (c == b'-') || (c == b'.')

-- The text before the first colon, where it is made of the characters of a scheme, and the text after it.
unfoldable pub scheme_split : Text → Option (Text × Text)
scheme_split [] = none
scheme_split (c ∷ s) =
    let rest = scheme_split s in
    if c == b':'
    then some ([], s)
    else if is_scheme_code c
    then elim rest [ none ↦ none | some (a, b) ↦ some (lower_code c ∷ a, b) ]
    else none

abbrev starts_letter : Text → Bool
starts_letter [] = false
starts_letter (c ∷ s) = is_letter c

unfoldable pub split_scheme : Text → Text × Text
split_scheme s =
    if starts_letter s
    then elim (scheme_split s) [ none ↦ ([], s) | some (a, b) ↦ (a, b) ]
    else ([], s)

-- The text up to a slash, a question mark or a hash.
abbrev until_path : Text → Text
until_path [] = []
until_path (c ∷ s) =
    let rest = until_path s in if (c == b'/') || (c == b'?') || (c == b'#') then [] else c ∷ rest

abbrev netloc_of : Text → Text
netloc_of (a ∷ b ∷ s) = if (a == b'/') && (b == b'/') then until_path s else []
netloc_of _ = []

-- Only one kind of bracket: ValueError.
abbrev has_lone_bracket : Text → Bool
has_lone_bracket s = if elem b'[' s then not (elem b']' s) else elem b']' s

-- `urlparse`; none where it raises ValueError.
unfoldable pub urlparse : Text → Option ParsedUrl
urlparse s =
    let (scheme, rest) = split_scheme (url_text s) in
    let netloc = netloc_of rest in
    if has_lone_bracket netloc then none else some (record { scheme = scheme; netloc = netloc })

-- `s.rpartition("@")[2]`
abbrev after_at : Text → Text → Text
after_at [] host = host
after_at (c ∷ s) host = if c == b'@' then after_at s s else after_at s host

abbrev until : ℕ → Text → Text
until d [] = []
until d (c ∷ s) = let rest = until d s in if c == d then [] else c ∷ rest

abbrev after : ℕ → Text → Text
after d [] = []
after d (c ∷ s) = let rest = after d s in if c == d then s else rest

-- A zone stays as it is.
abbrev lower_host : Text → Text
lower_host [] = []
lower_host (c ∷ s) = let rest = lower_host s in if c == b'%' then c ∷ s else lower_code c ∷ rest

-- `parsed.hostname`
unfoldable pub hostname : ParsedUrl → Option Text
hostname parsed =
    let host = after_at parsed.netloc parsed.netloc in
    let bare = if elem b'[' host then until b']' (after b'[' host) else until b':' host in
    if is_blank bare then none else some (lower_host bare)
