-- ===== src/Registry/Names.antt =====
-- Tool names: the format /^[a-z][a-z0-9]*(_[a-z0-9]+)*$/, and the names like a name.
pub mod Laws
use besterp.Prelude.{
  ℕ, Bool, true, false, ◌&&◌, ◌||◌, List, [], ◌∷◌, ltb, leb, ◌==◌, if◌then◌else◌, length, take, any,
  select,
}
use besterp.Text.{Text, between, is_space}
use besterp.Support.{Support}

unfoldable pub is_lower : ℕ → Bool
is_lower = between b'a' b'z'

unfoldable pub is_alnum : ℕ → Bool
unfolding is_lower
is_alnum c = is_lower c || between b'0' b'9' c

-- The expression as an automaton: inside a word, or right after an underscore.
unfoldable mutual
  pub in_word : Text → Bool
  in_word [] = true
  in_word (c ∷ s) = (is_alnum c && in_word s) || (c == b'_' && after_underscore s)

  pub after_underscore : Text → Bool
  after_underscore [] = false
  after_underscore (c ∷ s) = is_alnum c && in_word s

unfoldable pub is_snake_case : Text → Bool
is_snake_case [] = false
is_snake_case (c ∷ s) = is_lower c && in_word s

-- `s.startsWith(prefix)` and `s.includes(part)`.
unfoldable pub starts_with : Text → Text → Bool
starts_with s [] = true
starts_with [] (c ∷ p) = false
starts_with (d ∷ s) (c ∷ p) = d == c && starts_with s p

unfoldable pub includes_text : Text → Text → Bool
unfolding starts_with
includes_text [] part = starts_with [] part
includes_text (c ∷ s) part = starts_with (c ∷ s) part || includes_text s part

is_separator : ℕ → Bool
is_separator c = c == b'_' || is_space c

prepend : ℕ → List Text → List Text
prepend c [] = (c ∷ []) ∷ []
prepend c (part ∷ parts) = (c ∷ part) ∷ parts

-- The parts between single separators; the empty ones are dropped below, as those of a run are.
split_parts : Text → List Text
unfolding is_separator prepend
split_parts [] = [] ∷ []
split_parts (c ∷ s) =
    let parts = split_parts s in if is_separator c then [] ∷ parts else prepend c parts

-- `lower.split(/[_\s]+/).filter((p) => p.length >= 2)`.
unfoldable pub name_parts : Text → List Text
unfolding split_parts
name_parts s = select (λ p. leb 2 (length p)) (split_parts s)

-- No part matches where there is none, so the tests for empty lists need no place of their own.
share_part : List Text → List Text → Bool
share_part ps qs = any (λ p. any (λ q. includes_text q p || includes_text p q) qs) ps

module _ (lib : Support) where
  unfoldable pub is_similar : Text → Text → Bool
  unfolding share_part
  is_similar lower_name existing =
      let lower = lib.to_lower_case existing in
      includes_text lower lower_name
      || includes_text lower_name lower
      || share_part (name_parts lower_name) (name_parts lower)

  unfoldable pub find_similar_names : Text → List Text → List Text
  find_similar_names name names =
      let lower_name = lib.to_lower_case name in
      if ltb (length lower_name) 2 then [] else take 5 (select (is_similar lower_name) names)
