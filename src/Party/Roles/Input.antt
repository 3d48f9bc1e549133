-- ===== src/Party/Roles/Input.antt =====
-- The validation of a new role's type and start date in party.service.ts.
use besterp.Prelude.{ℕ, [], ◌∷◌, Option, none, some, ◌==◌, if◌then◌else◌, length}
use besterp.Text.{Text, lit, trim}
use besterp.Value.{Value, string}
use besterp.Support.{Support, Attempt, returns, fails, ◌>>=◌}
use besterp.Platform.{Platform}
use besterp.Limits.{max_role_type_length}
use besterp.Errors.{field_context, invalid_type_value}
use besterp.Dates.{parse_iso_date_time_as_utc}
use besterp.Party.Fields.{not_a_string, require_max_length, require_valid_date}

abbrev pub role_tool : Text
role_tool = lit "add_party_role"

module _ (lib : Support) where
  check_stripped : Text → Attempt Text
  check_stripped s =
      if length s == 0
      then fails (
          invalid_type_value
            (lit "'roleType' must contain visible characters after HTML sanitization.")
            (role_tool ∷ []) (field_context (lit "roleType") []))
      else require_max_length s (lit "Role type") max_role_type_length role_tool >>= λ _. returns s

  check_role_type : Text → Text → Attempt Text
  unfolding check_stripped
  check_role_type original s =
      if length s == 0
      then (lib.strip_html_tags original >>= λ t. fails (
          invalid_type_value (lit "'roleType' must not be empty.") (role_tool ∷ []) (
            field_context (lit "roleType")
              ((lit "received", string (lib.sanitize_for_log_output t)) ∷ []))))
      else lib.strip_html_tags s >>= check_stripped

  -- `validateAddPartyRoleInput`: the trimmed and stripped type.
  unfoldable pub validate_add_party_role_input : Value → Attempt Text
  unfolding check_role_type
  validate_add_party_role_input (string s) = check_role_type s (trim s)
  validate_add_party_role_input v = fails (not_a_string (lit "roleType") role_tool v)

module _ (lib : Support) (env : Platform) where
  parse_trimmed : ℕ → Text → Attempt ℕ
  parse_trimmed now s =
      if length s == 0
      then returns now
      else require_valid_date lib env (string s) (lit "fromDate") (role_tool ∷ [])
        >>= parse_iso_date_time_as_utc lib env

  -- `parseFromDate`, at the time given. What is parsed is a valid date.
  unfoldable pub parse_from_date : ℕ → Option Text → Attempt ℕ
  unfolding parse_trimmed
  parse_from_date now none = returns now
  parse_from_date now (some s) = parse_trimmed now (trim s)
