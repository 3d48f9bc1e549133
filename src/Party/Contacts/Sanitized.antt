-- ===== src/Party/Contacts/Sanitized.antt =====
-- `sanitizePostalAddress` and `sanitizeTelecomNumber` of packages/shared/src/sanitize.ts: the forms of an
-- address and of a phone number that are stored.
use besterp.Prelude.{[], ◌∷◌, ◌++◌, Option, none, some, ◌==◌, if◌then◌else◌, length}
use besterp.Text.{Text, lit, trim}
use besterp.Value.{Value, undefined, null, string}
use besterp.Run.{Thrown}
use besterp.Support.{Support, Attempt, returns, fails, ◌>>=◌, ◌>>◌}
use besterp.Platform.{Platform}
use besterp.Directory.{PostalAddress, TelecomNumber}
use besterp.Errors.{field_context, invalid_type_value}
use besterp.Party.Fields.{type_of, quoted}
use besterp.Party.Contacts.Input.{PostalAddressInput, TelecomNumberInput}

abbrev pub default_phone_country_code : Text
default_phone_country_code = lit "+1"

not_text : Text → Text → Thrown
not_text name received =
    invalid_type_value (quoted name ++ lit " must be a string.") []
      (field_context name ((lit "received", string received) ∷ []))

unfoldable pub check_nonempty : Text → Text → Attempt Text
check_nonempty name s =
    if length s == 0
    then fails
        (invalid_type_value (quoted name ++ lit " must not be empty.") [] (field_context name []))
    else returns s

-- `requireStringField` of sanitize.ts: the trimmed text.
unfoldable pub required_text : Value → Text → Attempt Text
unfolding check_nonempty not_text
required_text (string s) name = check_nonempty name (trim s)
required_text null name = fails (not_text name (lit "null"))
required_text v name = fails (not_text name (type_of v))

-- `optionalStringField`: the trimmed text unless it is empty.
unfoldable pub optional_text : Value → Text → Attempt (Option Text)
unfolding not_text
optional_text undefined name = returns none
optional_text null name = returns none
optional_text (string s) name = returns (if length (trim s) == 0 then none else some (trim s))
optional_text v name = fails (not_text name (type_of v))

unfoldable pub check_visible : Text → Text → Attempt Unit
check_visible name s =
    if length s == 0
    then fails (
        invalid_type_value
          (quoted name ++ lit " must contain visible characters after HTML sanitization.") []
          (field_context name []))
    else returns tt

module _ (lib : Support) where
  -- `text ? (stripHtmlTags(text) || null) : null`.
  unfoldable pub stripped : Option Text → Attempt (Option Text)
  stripped none = returns none
  stripped (some s) =
      lib.strip_html_tags s >>= λ t. returns (if length t == 0 then none else some t)

  -- The code, or the default if it is absent or nothing once it is stripped.
  unfoldable pub code_or_default : Option Text → Attempt Text
  code_or_default none = lib.strip_html_tags default_phone_country_code
  code_or_default (some s) = lib.strip_html_tags s >>= λ t.
      if length t == 0 then lib.strip_html_tags default_phone_country_code else returns t

  unfoldable pub sanitize_telecom_number : TelecomNumberInput → Attempt TelecomNumber
  unfolding required_text optional_text check_visible stripped code_or_default
  sanitize_telecom_number i = do
    area_code ← required_text i.area_code (lit "areaCode")
    line_number ← required_text i.line_number (lit "lineNumber")
    country_code ← optional_text i.country_code (lit "countryCode")
    extension ← optional_text i.extension (lit "extension")
    area ← lib.strip_html_tags area_code
    line ← lib.strip_html_tags line_number
    check_visible (lit "areaCode") area
    check_visible (lit "lineNumber") line
    country ← code_or_default country_code
    extra ← stripped extension
    returns
        (record { country_code = country; area_code = area; line_number = line; extension = extra })

module _ (lib : Support) (env : Platform) where
  unfoldable pub sanitize_postal_address : PostalAddressInput → Attempt PostalAddress
  unfolding required_text optional_text check_visible stripped
  sanitize_postal_address i = do
    address_line_1 ← required_text i.address_line_1 (lit "addressLine1")
    city ← required_text i.city (lit "city")
    country ← required_text i.country (lit "country")
    address_line_2 ← optional_text i.address_line_2 (lit "addressLine2")
    state_province ← optional_text i.state_province (lit "stateProvince")
    postal_code ← optional_text i.postal_code (lit "postalCode")
    line_1 ← lib.strip_html_tags address_line_1
    town ← lib.strip_html_tags city
    nation ← lib.strip_html_tags (env.to_upper_case country)
    check_visible (lit "addressLine1") line_1
    check_visible (lit "city") town
    check_visible (lit "country") nation
    line_2 ← stripped lib address_line_2
    province ← stripped lib state_province
    code ← stripped lib postal_code
    returns (record {
      address_line_1 = line_1;
      address_line_2 = line_2;
      city = town;
      state_province = province;
      postal_code = code;
      country = nation;
    })
