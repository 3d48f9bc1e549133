-- ===== src/Text.antt =====
-- JavaScript strings as lists of UTF-16 code units, so that `length`, `slice` and the character
-- classes of the regular expressions mean what they mean in the source.
pub mod Laws
use Prim.Native.Char.{code}
use Prim.Native.String.{String}
use Prim.Native.String
use mathlib.Core.List.{reverse}
use besterp.Prelude.{
  ℕ, zero, suc, ◌+◌, ◌%◌, ◌/◌, Bool, true, false, ◌&&◌, ◌||◌, List, [], ◌∷◌, ltb, leb, ◌==◌,
  if◌then◌else◌,
}

abbrev pub Text : Type 0
Text = List ℕ

-- A literal of the source, where every character is one code unit.
abbrev pub lit : String → Text
lit String.[] = []
lit (String.◌∷◌ c s) = code c ∷ lit s

-- `a === b` on strings.
unfoldable pub text_eq : Text → Text → Bool
text_eq [] [] = true
text_eq (a ∷ s) (b ∷ t) = a == b && text_eq s t
text_eq _ _ = false

-- `list.includes(text)`.
unfoldable pub includes : Text → List Text → Bool
includes t [] = false
includes t (s ∷ ss) = text_eq s t || includes t ss

abbrev pub between : ℕ → ℕ → ℕ → Bool
between lo hi c = leb lo c && leb c hi

-- WhiteSpace and LineTerminator of ECMAScript: what `trim` strips and `\s` matches.
unfoldable pub is_space : ℕ → Bool
is_space c =
    between 0x9 0xd c
    || c == 0x20
    || c == 0xa0
    || c == 0x1680
    || between 0x2000 0x200a c
    || between 0x2028 0x2029 c
    || c == 0x202f
    || c == 0x205f
    || c == 0x3000
    || c == 0xfeff

unfoldable pub trim_start : Text → Text
trim_start [] = []
trim_start (c ∷ s) = if is_space c then trim_start s else c ∷ s

unfoldable pub trim : Text → Text
unfolding trim_start
trim s = reverse (trim_start (reverse (trim_start s)))

-- `String(n)`; a number has no more digits than its value, plus one.
decimal_from : ℕ → ℕ → Text → Text
decimal_from zero n out = out
decimal_from (suc fuel) n out =
    let digit = (b'0' + n % 10) ∷ out in
    let rest = decimal_from fuel (n / 10) digit in if ltb n 10 then digit else rest

unfoldable pub decimal : ℕ → Text
unfolding decimal_from
decimal n = decimal_from (suc n) n []
