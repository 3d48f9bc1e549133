-- ===== src/Party/Contacts/Email.antt =====
-- EMAIL_REGEX of packages/shared/src/validation.ts. The local part has no `@`, and a label of the domain
-- has no dot, so the text is split at the first `@` and the domain at its dots.
use besterp.Prelude.{
  ℕ, Bool, false, not, ◌&&◌, ◌||◌, List, [], ◌∷◌, Option, none, some, leb, ◌==◌, if◌then◌else◌,
  length, all,
}
use besterp.Text.{Text, lit, between}

abbrev letter : ℕ → Bool
letter c = between b'a' b'z' c || between b'A' b'Z' c

abbrev alphanumeric : ℕ → Bool
alphanumeric c = letter c || between b'0' b'9' c

is_member : ℕ → Text → Bool
is_member c [] = false
is_member c (d ∷ s) = c == d || is_member c s

-- [a-zA-Z0-9.!#$%&'*+/=?^_`{|}~-].
abbrev local_char : ℕ → Bool
local_char c = alphanumeric c || is_member c (lit ".!#$%&'*+/=?^_`{|}~-")

-- `(?!.*\.\.)`.
has_double_dot : Text → Bool
has_double_dot (c ∷ d ∷ s) = c == b'.' && d == b'.' || has_double_dot (d ∷ s)
has_double_dot _ = false

starts_with : ℕ → Text → Bool
starts_with c [] = false
starts_with c (d ∷ s) = d == c

ends_with : ℕ → Text → Bool
ends_with c [] = false
ends_with c (d ∷ []) = d == c
ends_with c (d ∷ e ∷ s) = ends_with c (e ∷ s)

-- The texts before and after the first character given.
unfoldable pub split_at : ℕ → Text → Option (Text × Text)
split_at c [] = none
split_at c (d ∷ s) =
    let rest = split_at c s in
    if d == c
    then some ([], s)
    else elim rest [ none ↦ none | some (left, right) ↦ some (d ∷ left, right) ]

-- The labels of a domain.
labels : Text → List Text
labels [] = [] ∷ []
labels (c ∷ s) =
    let rest = labels s in
    if c == b'.' then [] ∷ rest else elim rest [ [] ↦ (c ∷ []) ∷ [] | l ∷ ls ↦ (c ∷ l) ∷ ls ]

last_alphanumeric : Text → Bool
last_alphanumeric [] = false
last_alphanumeric (c ∷ []) = alphanumeric c
last_alphanumeric (c ∷ d ∷ s) = last_alphanumeric (d ∷ s)

-- [a-zA-Z0-9](?:[a-zA-Z0-9-]{0,61}[a-zA-Z0-9])?
is_label : Text → Bool
unfolding last_alphanumeric
is_label [] = false
is_label (c ∷ s) =
    alphanumeric c
    && leb (length s) 62
    && last_alphanumeric (c ∷ s)
    && all (λ d. alphanumeric d || d == b'-') s

-- [a-zA-Z]{2,63}.
is_top_level : Text → Bool
is_top_level s = leb 2 (length s) && leb (length s) 63 && all letter s

-- One label or more, then the top level.
is_domain : List Text → Bool
unfolding is_label is_top_level
is_domain [] = false
is_domain (l ∷ []) = false
is_domain (l ∷ t ∷ []) = is_label l && is_top_level t
is_domain (l ∷ t ∷ u ∷ ls) = is_label l && is_domain (t ∷ u ∷ ls)

is_local : Text → Bool
unfolding is_member ends_with
is_local s = not (length s == 0) && all local_char s && not (ends_with b'.' s)

unfoldable pub email_regex : Text → Bool
unfolding has_double_dot starts_with split_at labels is_domain is_local
email_regex s = not (starts_with b'.' s) && not (has_double_dot s) && (elim (split_at b'@' s) [
  | none ↦ false
  | some (left, right) ↦ is_local left && is_domain (labels right)
])
