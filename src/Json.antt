-- ===== src/Json.antt =====
-- JSON.stringify of ECMAScript, over the text of a number.
use besterp.Prelude.{
  ℕ, ◌+◌, ◌-◌, ◌/◌, ◌%◌, ◌&&◌, ◌||◌, Option, List, [], ◌∷◌, ◌++◌, ltb, ◌==◌, if◌then◌else◌,
}
use besterp.Text.{Text, lit}
use besterp.Value.{
  Value, undefined, null, boolean, number, string, array, object, Items, nil, cons, Fields, end,
  field,
}
use besterp.Surrogates.{is_high_surrogate, is_low_surrogate}

hex_digit : ℕ → ℕ
hex_digit d = if ltb d 10 then b'0' + d else b'a' + (d - 10)

-- \uXXXX.
unicode_escape : ℕ → Text
unfolding hex_digit
unicode_escape c =
    lit "\\u"
    ++ (hex_digit (c / 4096 % 16)
        ∷ hex_digit (c / 256 % 16)
        ∷ hex_digit (c / 16 % 16)
        ∷ hex_digit (c % 16)
        ∷ [])

-- A unit that is no surrogate.
escape_unit : ℕ → Text
unfolding unicode_escape
escape_unit c =
    if c == 0x22
    then lit "\\\""
    else if c == 0x5c
    then lit "\\\\"
    else if c == 0x8
    then lit "\\b"
    else if c == 0x9
    then lit "\\t"
    else if c == 0xa
    then lit "\\n"
    else if c == 0xc
    then lit "\\f"
    else if c == 0xd
    then lit "\\r"
    else if ltb c 0x20
    then unicode_escape c
    else c ∷ []

escape_alone : ℕ → Text
unfolding escape_unit unicode_escape
escape_alone c =
    if is_high_surrogate c || is_low_surrogate c then unicode_escape c else escape_unit c

-- A surrogate that is not paired is escaped.
unfoldable pub escape : Text → Text
unfolding escape_alone
escape [] = []
escape (c ∷ []) = escape_alone c
escape (c ∷ d ∷ s) =
    let pair = c ∷ d ∷ escape s in
    let one = escape_alone c ++ escape (d ∷ s) in
    if is_high_surrogate c && is_low_surrogate d then pair else one

unfoldable pub quote : Text → Text
unfolding escape
quote s = lit "\"" ++ escape s ++ lit "\""

-- With a comma between two parts.
commas : List Text → Text
commas [] = []
commas (t ∷ []) = t
commas (t ∷ u ∷ ts) = t ++ lit "," ++ commas (u ∷ ts)

-- The parts of an array or an object, where a field that is undefined is left out.
unfoldable mutual
  unfolding quote commas

  pub stringify : (ℕ → Text) → Value → Text
  stringify num undefined = lit "null"
  stringify num null = lit "null"
  stringify num (boolean b) = if b then lit "true" else lit "false"
  stringify num (number n) = num n
  stringify num (string s) = quote s
  stringify num (array vs) = lit "[" ++ commas (item_texts num vs) ++ lit "]"
  stringify num (object fs) = lit "{" ++ commas (field_texts num fs) ++ lit "}"

  pub item_texts : (ℕ → Text) → Items → List Text
  item_texts num nil = []
  item_texts num (cons v vs) = stringify num v ∷ item_texts num vs

  pub field_texts : (ℕ → Text) → Fields → List Text
  field_texts num end = []
  field_texts num (field k undefined fs) = field_texts num fs
  field_texts num (field k v fs) = (quote k ++ lit ":" ++ stringify num v) ∷ field_texts num fs

-- What is left of ECMAScript's JSON and numbers: the text of a number (`null` if it is not finite), a
-- whole number as its bits, and JSON.parse, which may throw.
pub record Json : Type 0 where
  pub number_text : ℕ → Text
  pub whole_number : ℕ → ℕ
  pub parse : Text → Option Value
