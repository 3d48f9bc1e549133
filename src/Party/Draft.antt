-- ===== src/Party/Draft.antt =====
-- What `createParty` of party.service.ts does before its first query: the validations in their order,
-- and the sanitized draft of the party. The dates of a draft become instants in its transaction.
use besterp.Prelude.{ℕ, ◌||◌, List, [], ◌∷◌, ◌++◌, Option, none, some, ◌==◌, if◌then◌else◌, length}
use besterp.Text.{Text, lit, trim}
use besterp.Value.{Value, string, array, text_items}
use besterp.Directory.{Person, Organization}
use besterp.Run.{Thrown}
use besterp.Support.{Support, Attempt, returns, fails, ◌>>=◌, ◌>>◌}
use besterp.Platform.{Platform}
use besterp.Errors.{context, field_context, invalid_type_value}
use besterp.Dates.{parse_iso_date_time_as_utc}
use besterp.Party.Fields.{type_of}
use besterp.Party.Subtypes.{
  PersonInput, OrganizationInput, SanitizedPerson, SanitizedOrganization, create_tool,
  validate_create_party_subtype, validate_create_party_fields, validate_person_data,
  validate_organization_data, sanitize_person, sanitize_organization, strip_optional,
}

pub record CreatePartyInput : Type 0 where
  pub tenant_id : Value
  pub party_type : Value
  pub name : Value
  pub description : Value
  pub person : Option PersonInput
  pub organization : Option OrganizationInput

-- What `createPartyTransaction` stores.
pub record PartyDraft : Type 0 where
  pub type_id : Text
  pub tenant_id : Text
  pub name : Text
  pub description : Option Text
  pub person : Option SanitizedPerson
  pub organization : Option SanitizedOrganization

empty_type : Value → Thrown
empty_type v =
    invalid_type_value (lit "'partyType' must not be empty.") (create_tool ∷ [])
      (field_context (lit "partyType") ((lit "received", string (type_of v)) ∷ []))

check_type : Text → Text → Attempt Text
unfolding empty_type
check_type original s = if length s == 0 then fails (empty_type (string original)) else returns s

-- The trimmed type.
pub party_type_field : Value → Attempt Text
unfolding check_type empty_type
party_type_field (string s) = check_type s (trim s)
party_type_field v = fails (empty_type v)

invisible : Text → Value → Thrown
invisible subject ctx =
    invalid_type_value (subject ++ lit " must contain visible characters after HTML sanitization.")
      (create_tool ∷ []) ctx

names_context : List Text → Value
names_context names = context ((lit "fields", array (text_items names)) ∷ [])

unfoldable pub check_visible_name : Text → Attempt Unit
unfolding invisible
check_visible_name name =
    if length name == 0
    then fails (invisible (lit "Party name") (field_context (lit "name") []))
    else returns tt

check_visible_person : Option SanitizedPerson → Attempt Unit
unfolding invisible names_context
check_visible_person none = returns tt
check_visible_person (some p) =
    if length p.first_name == 0 || length p.last_name == 0
    then fails (
        invisible (lit "Person first name and last name")
          (names_context (lit "firstName" ∷ lit "lastName" ∷ [])))
    else returns tt

check_visible_organization : Option SanitizedOrganization → Attempt Unit
unfolding invisible names_context
check_visible_organization none = returns tt
check_visible_organization (some o) =
    if length o.legal_name == 0
    then fails (invisible (lit "Organization legal name") (names_context (lit "legalName" ∷ [])))
    else returns tt

unfoldable pub sanitize_optional : {A B : Type 0} → (A → Attempt B) → Option A → Attempt (Option B)
sanitize_optional f none = returns none
sanitize_optional f (some a) = f a >>= λ b. returns (some b)

module _ (lib : Support) (env : Platform) where
  -- `value ? parseISODateTimeAsUTC(value) : null`. A date that is parsed is valid.
  unfoldable pub parse_optional : Option Text → Attempt (Option ℕ)
  parse_optional none = returns none
  parse_optional (some s) = parse_iso_date_time_as_utc lib env s >>= λ t. returns (some t)

  unfoldable pub person_row : Option SanitizedPerson → Attempt (Option Person)
  unfolding parse_optional
  person_row none = returns none
  person_row (some p) = parse_optional p.birth_date >>= λ birth_date. returns (
      some (record {
        first_name = p.first_name;
        last_name = p.last_name;
        middle_name = p.middle_name;
        birth_date = birth_date;
        gender = p.gender;
      }))

  unfoldable pub organization_row : Option SanitizedOrganization → Attempt (Option Organization)
  unfolding parse_optional
  organization_row none = returns none
  organization_row (some o) = parse_optional o.registration_date >>= λ registration_date. returns (
      some (record {
        legal_name = o.legal_name;
        tax_id = o.tax_id;
        registration_date = registration_date;
      }))

  pub strip_description : Option Text → Attempt (Option Text)
  strip_description none = returns none
  strip_description (some s) = strip_optional lib s

  -- The validations of the input: the trimmed type, name and description.
  unfoldable pub validate_input : CreatePartyInput → Attempt (Text × Text × Option Text)
  unfolding party_type_field
  validate_input i = do
    party_type ← party_type_field i.party_type
    (trimmed_name, trimmed_description) ← validate_create_party_fields lib i.name i.description
    validate_create_party_subtype (env.to_upper_case party_type) i.person i.organization
    validate_person_data lib env i.person
    validate_organization_data lib env i.organization
    returns (party_type, trimmed_name, trimmed_description)

  -- `sanitizeCreatePartyInput`, as a draft with no type yet.
  unfoldable pub sanitize_create_party_input :
      CreatePartyInput → Text → Text → Option Text → Attempt PartyDraft
  unfolding strip_description
  sanitize_create_party_input i tenant trimmed_name trimmed_description = do
    person ← sanitize_optional (sanitize_person lib env) i.person
    organization ← sanitize_optional (sanitize_organization lib env) i.organization
    name ← lib.strip_html_tags trimmed_name
    description ← strip_description trimmed_description
    returns (record {
      type_id = [];
      tenant_id = tenant;
      name = name;
      description = description;
      person = person;
      organization = organization;
    })

  -- What must be left once it is sanitized.
  unfoldable pub check_visible : PartyDraft → Attempt Unit
  unfolding check_visible_person check_visible_organization
  check_visible d = do
    check_visible_name d.name
    check_visible_person d.person
    check_visible_organization d.organization

  -- All that comes before the first query: the trimmed type, and the draft.
  unfoldable pub prepare_party : CreatePartyInput → Text → Attempt (Text × PartyDraft)
  prepare_party i tenant = do
    (party_type, trimmed_name, trimmed_description) ← validate_input i
    draft ← sanitize_create_party_input i tenant trimmed_name trimmed_description
    check_visible draft
    returns (party_type, draft)
