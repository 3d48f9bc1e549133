-- ===== src/Party/Subtypes.antt =====
-- The validation of a new party's fields in party.service.ts, and of its data as a person or an
-- organization, with the sanitized form that is stored. An object that is given has the fields named,
-- with values of any type.
use besterp.Prelude.{
  ℕ, not, ◌&&◌, [], ◌∷◌, ◌++◌, Option, none, some, ◌==◌, if◌then◌else◌, length, is_some,
}
use besterp.Text.{Text, lit, text_eq, trim}
use besterp.Value.{Value, undefined, null, string, is_nullish}
use besterp.Support.{Support, Attempt, returns, fails, ◌>>=◌, ◌>>◌}
use besterp.Platform.{Platform}
use besterp.Limits.{
  max_party_name_length, max_party_description_length, max_person_name_length,
  max_middle_name_length, max_legal_name_length, max_tax_id_length, max_gender_length,
}
use besterp.Errors.{context, field_context, invalid_type_value, missing_subtype_data}
use besterp.Party.Fields.{is_truthy, not_a_string, require_max_length, require_valid_date}

pub record PersonInput : Type 0 where
  pub first_name : Value
  pub last_name : Value
  pub middle_name : Value
  pub birth_date : Value
  pub gender : Value

pub record OrganizationInput : Type 0 where
  pub legal_name : Value
  pub tax_id : Value
  pub registration_date : Value

pub record SanitizedPerson : Type 0 where
  pub first_name : Text
  pub last_name : Text
  pub middle_name : Option Text
  pub gender : Option Text
  pub birth_date : Option Text

pub record SanitizedOrganization : Type 0 where
  pub legal_name : Text
  pub tax_id : Option Text
  pub registration_date : Option Text

abbrev pub create_tool : Text
create_tool = lit "create_party"

abbrev pub person_type : Text
person_type = lit "PERSON"

abbrev pub organization_type : Text
organization_type = lit "ORGANIZATION"

subtype_context : Text → Text → Text → Value
subtype_context party_type name subtype =
    context ((lit "partyType", string party_type) ∷ (name, string subtype) ∷ [])

-- `validateCreatePartySubtype`: of the types PERSON and ORGANIZATION, the data of one is needed and
-- that of the other is refused.
unfoldable pub validate_create_party_subtype :
    Text → Option PersonInput → Option OrganizationInput → Attempt Unit
unfolding subtype_context
validate_create_party_subtype party_type person organization =
    if text_eq party_type person_type && not (is_some person)
    then fails (
        missing_subtype_data
          (lit
            "When partyType is PERSON, the 'person' object with firstName and lastName is required.")
          (create_tool ∷ []) (subtype_context party_type (lit "missingField") (lit "person")))
    else if text_eq party_type organization_type && not (is_some organization)
    then fails (
        missing_subtype_data
          (lit
            "When partyType is ORGANIZATION, the 'organization' object with legalName is required.")
          (create_tool ∷ []) (subtype_context party_type (lit "missingField") (lit "organization")))
    else if text_eq party_type person_type && is_some organization
    then fails (
        invalid_type_value
          (lit
            "When partyType is PERSON, 'organization' data must not be provided. Only 'person' data is expected.")
          (create_tool ∷ [])
          (subtype_context party_type (lit "unexpectedField") (lit "organization")))
    else if text_eq party_type organization_type && is_some person
    then fails (
        invalid_type_value
          (lit
            "When partyType is ORGANIZATION, 'person' data must not be provided. Only 'organization' data is expected.")
          (create_tool ∷ []) (subtype_context party_type (lit "unexpectedField") (lit "person")))
    else returns tt

module _ (lib : Support) where
  -- The length that is capped is that of the stripped text.
  unfoldable pub require_stripped_max_length : Text → Text → ℕ → Attempt Unit
  require_stripped_max_length s name bound =
      lib.strip_html_tags s >>= λ t. require_max_length t name bound create_tool

  unfoldable pub check_name : Text → Text → Attempt Text
  unfolding require_stripped_max_length
  check_name original s =
      if length s == 0
      then (lib.strip_html_tags original >>= λ t. fails (
          invalid_type_value (lit "'name' must not be empty.") (create_tool ∷ []) (
            field_context (lit "name")
              ((lit "received", string (lib.sanitize_for_log_output t)) ∷ []))))
      else require_stripped_max_length s (lit "Party name") max_party_name_length >>= λ _. returns s

  unfoldable pub name_field : Value → Attempt Text
  unfolding check_name
  name_field (string s) = check_name s (trim s)
  name_field v = fails (not_a_string (lit "name") create_tool v)

  check_description : Text → Attempt (Option Text)
  unfolding require_stripped_max_length
  check_description s =
      if length s == 0
      then fails (
          invalid_type_value (lit "'description' cannot be whitespace-only.") (create_tool ∷ [])
            (field_context (lit "description") []))
      else require_stripped_max_length s (lit "Description") max_party_description_length >>= λ _.
          returns (some s)

  pub description_field : Value → Attempt (Option Text)
  unfolding check_description
  description_field undefined = returns none
  description_field null = returns none
  description_field (string s) = check_description (trim s)
  description_field v = fails (not_a_string (lit "description") create_tool v)

  -- `validateCreatePartyFields`: the trimmed name and description.
  unfoldable pub validate_create_party_fields : Value → Value → Attempt (Text × Option Text)
  unfolding name_field description_field
  validate_create_party_fields name description = do
    trimmed_name ← name_field name
    trimmed_description ← description_field description
    returns (trimmed_name, trimmed_description)

  check_required : Text → Text → ℕ → Text → Text → Attempt Unit
  unfolding require_stripped_max_length
  check_required name kind bound label s =
      if length s == 0
      then fails (
          missing_subtype_data (name ++ lit " is required for " ++ kind ++ lit " data.")
            (create_tool ∷ []) (field_context name []))
      else require_stripped_max_length s label bound

  -- A field of the subtype that must be there.
  required_field : Value → Text → Text → ℕ → Text → Attempt Unit
  unfolding check_required
  required_field (string s) name kind bound label = check_required name kind bound label (trim s)
  required_field v name kind bound label = fails (not_a_string name create_tool v)

  -- `if (typeof value === "string") requireMaxLength(…)`.
  optional_field : Value → Text → ℕ → Attempt Unit
  unfolding require_stripped_max_length
  optional_field (string s) label bound = require_stripped_max_length (trim s) label bound
  optional_field _ label bound = returns tt

  -- `value.trim()` stripped, or nothing if that or what it is stripped from is empty.
  unfoldable pub strip_optional : Text → Attempt (Option Text)
  strip_optional s =
      if length s == 0
      then returns none
      else lib.strip_html_tags s >>= λ t. returns (if length t == 0 then none else some t)

  string_optional : Value → Attempt (Option Text)
  unfolding strip_optional
  string_optional (string s) = strip_optional (trim s)
  string_optional _ = returns none

module _ (lib : Support) (env : Platform) where
  date_field : Value → Text → Attempt Unit
  date_field v name =
      if is_nullish v
      then returns tt
      else require_valid_date lib env v name (create_tool ∷ []) >>= λ _. returns tt

  -- `validatePersonData`.
  unfoldable pub validate_person_data : Option PersonInput → Attempt Unit
  unfolding required_field optional_field date_field
  validate_person_data none = returns tt
  validate_person_data (some p) = do
    required_field lib p.first_name (lit "firstName") (lit "person") max_person_name_length
        (lit "First name")
    required_field lib p.last_name (lit "lastName") (lit "person") max_person_name_length
        (lit "Last name")
    optional_field lib p.gender (lit "Gender") max_gender_length
    optional_field lib p.middle_name (lit "Middle name") max_middle_name_length
    date_field p.birth_date (lit "birthDate")

  -- `validateOrganizationData`.
  unfoldable pub validate_organization_data : Option OrganizationInput → Attempt Unit
  unfolding required_field optional_field date_field
  validate_organization_data none = returns tt
  validate_organization_data (some o) = do
    required_field lib o.legal_name (lit "legalName") (lit "organization") max_legal_name_length
        (lit "Legal name")
    date_field o.registration_date (lit "registrationDate")
    optional_field lib o.tax_id (lit "Tax ID") max_tax_id_length

  -- `(value ?? "").trim()`, stripped.
  strip_required : Value → Attempt Text
  strip_required undefined = lib.strip_html_tags []
  strip_required null = lib.strip_html_tags []
  strip_required (string s) = lib.strip_html_tags (trim s)
  strip_required _ = fails env.type_error

  -- `value ? stripHtmlTags(value.trim()) || undefined : undefined`.
  strip_tax_id : Value → Attempt (Option Text)
  strip_tax_id (string s) =
      if length s == 0
      then returns none
      else lib.strip_html_tags (trim s) >>= λ t. returns (if length t == 0 then none else some t)
  strip_tax_id v = if is_truthy v then fails env.type_error else returns none

  -- `sanitizePerson`.
  unfoldable pub sanitize_person : PersonInput → Attempt SanitizedPerson
  unfolding strip_required string_optional
  sanitize_person p = do
    first_name ← strip_required p.first_name
    last_name ← strip_required p.last_name
    middle_name ← string_optional lib p.middle_name
    gender ← string_optional lib p.gender
    birth_date ← string_optional lib p.birth_date
    returns (record {
      first_name = first_name;
      last_name = last_name;
      middle_name = middle_name;
      gender = gender;
      birth_date = birth_date;
    })

  -- `sanitizeOrganization`.
  unfoldable pub sanitize_organization : OrganizationInput → Attempt SanitizedOrganization
  unfolding strip_required strip_tax_id string_optional
  sanitize_organization o = do
    legal_name ← strip_required o.legal_name
    tax_id ← strip_tax_id o.tax_id
    registration_date ← string_optional lib o.registration_date
    returns
        (record { legal_name = legal_name; tax_id = tax_id; registration_date = registration_date })
