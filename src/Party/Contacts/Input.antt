-- ===== src/Party/Contacts/Input.antt =====
-- The validation of a new contact mechanism in party.service.ts.
use besterp.Prelude.{
  ℕ, not, ◌&&◌, ◌||◌, [], ◌∷◌, ◌++◌, Option, none, some, ltb, ◌==◌, if◌then◌else◌, length, is_some,
}
use besterp.Text.{Text, lit, text_eq, includes, trim}
use besterp.Value.{Value, undefined, null, string, array, nil, cons}
use besterp.Run.{Thrown}
use besterp.Support.{Support, Attempt, returns, fails, ◌>>=◌, ◌>>◌}
use besterp.Platform.{Platform}
use besterp.Limits.{
  max_address_line_length, max_city_length, max_state_province_length, max_postal_code_length,
  max_country_code_length, min_country_code_length, max_area_code_length, max_line_number_length,
  max_extension_length, max_phone_country_code_length, max_email_length,
}
use besterp.Errors.{context, field_context, invalid_type_value, missing_subtype_data}
use besterp.Party.Fields.{
  is_truthy, measured, quoted, not_a_string, require_max_length, require_sanitized_string_field,
  country_code_regex, country_code_iso_regex,
}
use besterp.Party.Contacts.Email.{email_regex}

pub record PostalAddressInput : Type 0 where
  pub address_line_1 : Value
  pub address_line_2 : Value
  pub city : Value
  pub state_province : Value
  pub postal_code : Value
  pub country : Value

pub record TelecomNumberInput : Type 0 where
  pub country_code : Value
  pub area_code : Value
  pub line_number : Value
  pub extension : Value

abbrev pub contact_tool : Text
contact_tool = lit "add_contact_mechanism"

abbrev pub postal_type : Text
postal_type = lit "POSTAL_ADDRESS"

abbrev pub telecom_type : Text
telecom_type = lit "TELECOM_NUMBER"

abbrev pub email_type : Text
email_type = lit "EMAIL_ADDRESS"

-- What a caller gives for the three types. The email is the object's field `email`.
pub record ContactData : Type 0 where
  pub postal_address : Option PostalAddressInput
  pub telecom_number : Option TelecomNumberInput
  pub email_address : Option Value

unfoldable pub unknown_contact_type : Text → Thrown
unknown_contact_type type =
    invalid_type_value
      (lit "CONTACT_MECHANISM_TYPE "
        ++ quoted type
        ++ lit " is not valid. Valid types: ['POSTAL_ADDRESS', 'TELECOM_NUMBER', 'EMAIL_ADDRESS'].")
      (lit "get_type_table_values" ∷ [])
      (field_context (lit "contactMechanismType") (
        (lit "invalidValue", string type)
        ∷ (
          lit "validValues",
          array (
              cons (string postal_type)
                (cons (string telecom_type) (cons (string email_type) nil))),
        )
        ∷ []))

subtype_field : Text → Text
subtype_field type =
    if text_eq type postal_type
    then lit "postalAddress"
    else if text_eq type telecom_type
    then lit "telecomNumber"
    else lit "emailAddress"

cross_subtype : Text → Text → Thrown
unfolding subtype_field
cross_subtype type unexpected =
    invalid_type_value
      (lit "When contactMechanismType is "
        ++ type
        ++ lit ", "
        ++ quoted unexpected
        ++ lit " data must not be provided. Only "
        ++ quoted (subtype_field type)
        ++ lit " data is expected.")
      (contact_tool ∷ [])
      (context (
        (lit "contactMechanismType", string type)
        ∷ (lit "unexpectedField", string unexpected)
        ∷ []))

-- `rejectCrossSubtypeData`, in the order of the three entries.
unfoldable pub reject_cross_subtype_data : Text → ContactData → Attempt Unit
unfolding cross_subtype
reject_cross_subtype_data type d =
    if not (text_eq postal_type type) && is_some d.postal_address
    then fails (cross_subtype type (lit "postalAddress"))
    else if not (text_eq telecom_type type) && is_some d.telecom_number
    then fails (cross_subtype type (lit "telecomNumber"))
    else if not (text_eq email_type type) && is_some d.email_address
    then fails (cross_subtype type (lit "emailAddress"))
    else returns tt

missing_data : Text → Text → Thrown
missing_data type name =
    missing_subtype_data
      (name ++ lit " is required when contactMechanismType is " ++ type ++ lit ".")
      (contact_tool ∷ [])
      (context ((lit "contactMechanismType", string type) ∷ (lit "missingField", string name) ∷ []))

module _ (lib : Support) (env : Platform) where
  invalid_country : Text → Text → Thrown
  invalid_country original normalized =
      invalid_type_value
        (lit "country must be a 2-3 letter ISO 3166-1 alpha-2/3 code (e.g., 'US', 'DE'). Received: "
          ++ quoted (lib.sanitize_for_log_output original)
          ++ lit ".")
        (contact_tool ∷ [])
        (field_context (lit "country") (
          (lit "received", string normalized)
          ∷ (lit "minLength", measured min_country_code_length)
          ∷ []))

  check_country : Text → Text → Attempt Unit
  unfolding invalid_country
  check_country original s =
      if length s == 0
      then fails (
          invalid_type_value (lit "country is required for postal address.") (contact_tool ∷ []) (
            context (
              (lit "contactMechanismType", string postal_type)
              ∷ (lit "field", string (lit "country"))
              ∷ [])))
      else require_max_length s (lit "country") max_country_code_length contact_tool >>= λ _.
          if ltb (length s) min_country_code_length || not (country_code_iso_regex s)
          then fails (invalid_country original s)
          else returns tt

  -- The country, trimmed, stripped and then in upper case.
  country_field : Value → Attempt Unit
  unfolding check_country
  country_field (string s) =
      lib.strip_html_tags (trim s) >>= λ t. check_country (trim s) (env.to_upper_case t)
  country_field v = fails (not_a_string (lit "country") contact_tool v)

  unfoldable pub string_or_nullish : Value → Text → Attempt Unit
  string_or_nullish (string s) name = returns tt
  string_or_nullish undefined name = returns tt
  string_or_nullish null name = returns tt
  string_or_nullish v name = fails (not_a_string name contact_tool v)

  unfoldable pub capped : Value → Text → ℕ → Attempt Unit
  capped (string s) name bound =
      lib.strip_html_tags (trim s) >>= λ t. require_max_length t name bound contact_tool
  capped _ name bound = returns tt

  -- `validatePostalAddressSubtype`.
  unfoldable pub validate_postal_address_subtype : Option PostalAddressInput → Attempt Unit
  unfolding country_field string_or_nullish capped missing_data
  validate_postal_address_subtype none = fails (missing_data postal_type (lit "postalAddress"))
  validate_postal_address_subtype (some a) = do
    require_sanitized_string_field lib a.address_line_1 (lit "addressLine1") max_address_line_length
        contact_tool
    require_sanitized_string_field lib a.city (lit "city") max_city_length contact_tool
    country_field a.country
    string_or_nullish a.address_line_2 (lit "addressLine2")
    string_or_nullish a.state_province (lit "stateProvince")
    string_or_nullish a.postal_code (lit "postalCode")
    capped a.address_line_2 (lit "addressLine2") max_address_line_length
    capped a.state_province (lit "stateProvince") max_state_province_length
    capped a.postal_code (lit "postalCode") max_postal_code_length

  unfoldable pub check_country_code : Text → Attempt Unit
  check_country_code s =
      require_max_length s (lit "countryCode") max_phone_country_code_length contact_tool >>= λ _.
      if country_code_regex s
      then returns tt
      else fails (
          invalid_type_value
            (lit "countryCode must be an E.164 country code (e.g., '+1', '+44'). Received: "
              ++ s
              ++ lit ".")
            (contact_tool ∷ [])
            (field_context (lit "countryCode") ((lit "invalidValue", string s) ∷ [])))

  -- A country code that is true of `if`.
  unfoldable pub country_code_field : Value → Attempt Unit
  unfolding check_country_code
  country_code_field (string s) =
      if length s == 0 then returns tt else lib.strip_html_tags (trim s) >>= check_country_code
  country_code_field v = if is_truthy v then fails env.type_error else returns tt

  -- `validateTelecomSubtype`.
  unfoldable pub validate_telecom_subtype : Option TelecomNumberInput → Attempt Unit
  unfolding country_code_field string_or_nullish capped missing_data
  validate_telecom_subtype none = fails (missing_data telecom_type (lit "telecomNumber"))
  validate_telecom_subtype (some t) = do
    require_sanitized_string_field lib t.area_code (lit "areaCode") max_area_code_length
        contact_tool
    require_sanitized_string_field lib t.line_number (lit "lineNumber") max_line_number_length
        contact_tool
    country_code_field t.country_code
    string_or_nullish t.extension (lit "extension")
    capped t.extension (lit "extension") max_extension_length

  check_email : Text → Attempt Text
  check_email s =
      if length s == 0
      then fails (
          invalid_type_value (lit "email must contain visible characters after HTML sanitization.")
            (contact_tool ∷ []) (field_context (lit "email") []))
      else if email_regex s
      then returns s
      else fails (
          invalid_type_value (lit "Invalid email format: " ++ s) (contact_tool ∷ []) (
            context (
              (lit "contactMechanismType", string email_type)
              ∷ (lit "field", string (lit "email"))
              ∷ (lit "invalidValue", string s)
              ∷ [])))

  -- `validateEmailSubtype`: the stripped email in lower case.
  unfoldable pub validate_email_subtype : Option Value → Attempt Text
  unfolding check_email missing_data
  validate_email_subtype none = fails (missing_data email_type (lit "emailAddress"))
  validate_email_subtype (some email) =
      require_sanitized_string_field lib email (lit "email") max_email_length contact_tool >>= λ s.
      check_email (lib.to_lower_case s)

  -- `validateContactMechanismSubtype`: the normalized email of an email address.
  unfoldable pub validate_contact_mechanism_subtype : Text → ContactData → Attempt (Option Text)
  unfolding reject_cross_subtype_data validate_postal_address_subtype validate_telecom_subtype
      validate_email_subtype unknown_contact_type
  validate_contact_mechanism_subtype type d =
      if not (includes type (postal_type ∷ telecom_type ∷ email_type ∷ []))
      then fails (unknown_contact_type type)
      else reject_cross_subtype_data type d >>= λ _.
          if text_eq type postal_type
          then (validate_postal_address_subtype d.postal_address >>= λ _. returns none)
          else if text_eq type telecom_type
          then (validate_telecom_subtype d.telecom_number >>= λ _. returns none)
          else validate_email_subtype d.email_address >>= λ e. returns (some e)
