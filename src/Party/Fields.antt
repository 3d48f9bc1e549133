-- ===== src/Party/Fields.antt =====
-- The validators of single fields of
-- apps/api/src/modules/core/party/party.service.ts, and the patterns of
-- packages/shared/src/validation.ts that they test.
pub mod Laws
use besterp.Prelude.{
  ℕ, zero, suc, ◌%◌, ◌^◌, Bool, true, false, not, ◌&&◌, ◌||◌, List, [], ◌∷◌, ◌++◌, Option, none,
  some, ltb, leb, ◌==◌, if◌then◌else◌, length, all,
}
use besterp.Text.{Text, lit, between, decimal, trim}
use besterp.Value.{Value, undefined, null, boolean, number, string, array, object}
use besterp.Run.{Thrown}
use besterp.Support.{Support, Attempt, returns, fails, ◌>>=◌}
use besterp.Platform.{Platform}
use besterp.Dates.{is_valid_iso_date}
use besterp.Limits.{max_date_string_length}
use besterp.Errors.{field_context, invalid_type_value}

-- `typeof value`.
unfoldable pub type_of : Value → Text
type_of undefined = lit "undefined"
type_of null = lit "object"
type_of (boolean b) = lit "boolean"
type_of (number n) = lit "number"
type_of (string s) = lit "string"
type_of (array vs) = lit "object"
type_of (object fs) = lit "object"

-- `value ? … : …`: a number is false if it is a zero or no number.
unfoldable pub is_truthy : Value → Bool
is_truthy undefined = false
is_truthy null = false
is_truthy (boolean b) = b
is_truthy (number n) = not (n % 2 ^ 63 == 0) && leb (n % 2 ^ 63) 0x7ff0000000000000
is_truthy (string s) = not (length s == 0)
is_truthy (array vs) = true
is_truthy (object fs) = true

-- The length that a context reports: its bits as a number are left out.
abbrev pub measured : ℕ → Value
measured n = string (decimal n)

abbrev pub quoted : Text → Text
quoted name = lit "'" ++ name ++ lit "'"

unfoldable pub not_a_string : Text → Text → Value → Thrown
not_a_string name tool v =
    invalid_type_value (quoted name ++ lit " must be a string.") (tool ∷ [])
      (field_context name ((lit "received", string (type_of v)) ∷ []))

unfoldable pub too_long : Text → ℕ → List Text → Text → Thrown
too_long name bound tools s =
    invalid_type_value
      (quoted name ++ lit " exceeds maximum length of " ++ decimal bound ++ lit " characters.")
      tools (field_context name ((lit "length", measured (length s)) ∷ []))

unfoldable pub require_max_length : Text → Text → ℕ → Text → Attempt Unit
require_max_length s name bound tool =
    if ltb bound (length s) then fails (too_long name bound (tool ∷ []) s) else returns tt

require_trimmed : Text → Text → ℕ → Text → Attempt Text
require_trimmed s name bound tool =
    if length s == 0
    then fails (
        invalid_type_value (quoted name ++ lit " must not be empty.") (tool ∷ [])
          (field_context name []))
    else if ltb bound (length s)
    then fails (too_long name bound (tool ∷ []) s)
    else returns s

-- `requireStringField`.
unfoldable pub require_string_field : Value → Text → ℕ → Text → Attempt Text
unfolding require_trimmed
require_string_field (string s) name bound tool = require_trimmed (trim s) name bound tool
require_string_field v name bound tool = fails (not_a_string name tool v)

-- /^[0-9a-fA-F]{8}-[0-9a-fA-F]{4}-[0-9a-fA-F]{4}-[0-9a-fA-F]{4}-[0-9a-fA-F]{12}$/, as the runs of
-- digits, with a hyphen between two of them.
abbrev hex_digit : ℕ → Bool
hex_digit c = between b'0' b'9' c || between b'a' b'f' c || between b'A' b'F' c

uuid_from : ℕ → List ℕ → Text → Bool
uuid_from zero [] [] = true
uuid_from zero (n ∷ ns) (c ∷ s) = c == b'-' && uuid_from n ns s
uuid_from (suc n) ns (c ∷ s) = hex_digit c && uuid_from n ns s
uuid_from _ _ _ = false

unfoldable pub uuid_regex : Text → Bool
unfolding uuid_from
uuid_regex = uuid_from 8 (4 ∷ 4 ∷ 4 ∷ 12 ∷ [])

-- /^\+[1-9]\d{0,2}$/.
unfoldable pub country_code_regex : Text → Bool
country_code_regex (p ∷ d ∷ s) =
    p == b'+' && between b'1' b'9' d && leb (length s) 2 && all (between b'0' b'9') s
country_code_regex _ = false

-- /^[A-Z]{2,3}$/.
unfoldable pub country_code_iso_regex : Text → Bool
country_code_iso_regex s = leb 2 (length s) && leb (length s) 3 && all (between b'A' b'Z') s

module _ (lib : Support) where
  require_stripped : Text → Text → ℕ → Text → Attempt Text
  require_stripped s name bound tool =
      if length s == 0
      then fails (
          invalid_type_value
            (quoted name ++ lit " must contain visible characters after HTML sanitization.")
            (tool ∷ []) (field_context name []))
      else if ltb bound (length s)
      then fails (too_long name bound (tool ∷ []) s)
      else returns s

  strip_trimmed : Text → Text → ℕ → Text → Attempt Text
  unfolding require_stripped
  strip_trimmed s name bound tool =
      if length s == 0
      then fails (
          invalid_type_value (quoted name ++ lit " must not be empty.") (tool ∷ [])
            (field_context name []))
      else lib.strip_html_tags s >>= λ t. require_stripped t name bound tool

  -- `requireSanitizedStringField`.
  unfoldable pub require_sanitized_string_field : Value → Text → ℕ → Text → Attempt Text
  unfolding strip_trimmed
  require_sanitized_string_field (string s) name bound tool = strip_trimmed (trim s) name bound tool
  require_sanitized_string_field v name bound tool = fails (not_a_string name tool v)

  not_a_uuid : Text → List Text → Text → Thrown
  not_a_uuid name tools received =
      invalid_type_value (quoted name ++ lit " must be a valid UUID.") tools
        (field_context name ((lit "received", string received) ∷ []))

  check_uuid : Text → List Text → Text → Attempt Text
  unfolding not_a_uuid
  check_uuid name tools s =
      if uuid_regex s
      then returns s
      else fails (not_a_uuid name tools (lib.sanitize_for_log_output s))

  -- `requireUuid`.
  unfoldable pub require_uuid : Value → Text → List Text → Attempt Text
  unfolding check_uuid not_a_uuid
  require_uuid (string s) name tools = lib.strip_html_tags (trim s) >>= check_uuid name tools
  require_uuid v name tools = fails (not_a_uuid name tools (type_of v))

  filter_text : Text → ℕ → List Text → Text → Attempt (Option Text)
  filter_text name bound tools s =
      if length s == 0
      then fails (
          invalid_type_value (lit "Filter " ++ quoted name ++ lit " cannot be whitespace-only.")
            tools (field_context name []))
      else if ltb bound (length s)
      then fails (
          invalid_type_value
            (lit "Filter "
              ++ quoted name
              ++ lit " exceeds maximum length of "
              ++ decimal bound
              ++ lit " characters.")
            tools (field_context name ((lit "length", measured (length s)) ∷ [])))
      else returns (some s)

  -- `requireNonEmptyFilter`, of a filter that is a string if it is given.
  unfoldable pub require_non_empty_filter :
      Option Text → Text → ℕ → List Text → Attempt (Option Text)
  unfolding filter_text
  require_non_empty_filter none name bound tools = returns none
  require_non_empty_filter (some s) name bound tools =
      lib.strip_html_tags (trim s) >>= filter_text name bound tools

module _ (lib : Support) (env : Platform) where
  not_a_date : Text → List Text → List (Text × Value) → Thrown
  not_a_date name tools more =
      invalid_type_value (quoted name ++ lit " must be a non-empty ISO 8601 date string.") tools
        (field_context name more)

  abbrev received : Text → List (Text × Value)
  received s = (lit "received", string (lib.sanitize_for_log_output s)) ∷ []

  check_date : Text → List Text → Text → Text → Attempt Text
  unfolding not_a_date
  check_date name tools original s =
      if length s == 0
      then fails (not_a_date name tools (received s))
      else if ltb max_date_string_length (length s)
      then fails (too_long name max_date_string_length tools s)
      else if is_valid_iso_date lib env s
      then returns s
      else fails (
          invalid_type_value
            (quoted name
              ++ lit " is not a valid ISO 8601 date. Received: "
              ++ lib.sanitize_for_log_output original
              ++ lit ".")
            tools (field_context name ((lit "invalidValue", string original) ∷ [])))

  trimmed_date : Text → List Text → Text → Text → Attempt Text
  unfolding check_date not_a_date
  trimmed_date name tools original s =
      if length s == 0
      then (lib.strip_html_tags original >>= λ t. fails (not_a_date name tools (received t)))
      else lib.strip_html_tags s >>= check_date name tools original

  -- `requireValidDate`: the trimmed and stripped form of a valid date.
  unfoldable pub require_valid_date : Value → Text → List Text → Attempt Text
  unfolding trimmed_date not_a_date
  require_valid_date (string s) name tools = trimmed_date name tools s (trim s)
  require_valid_date v name tools =
      fails (not_a_date name tools ((lit "received", v) ∷ (lit "type", string (type_of v)) ∷ []))
