-- ===== src/Party/Contacts/Duplicates.antt =====
-- The pre-checks of `createContactMechanismTransaction` in party.service.ts, with the rows and the unique
-- constraints of the tables that they look at.
use besterp.Prelude.{
  Bool, false, ◌&&◌, List, [], ◌∷◌, ◌++◌, Option, none, some, ◌==◌, if◌then◌else◌, length, take,
}
use besterp.Text.{Text, lit, text_eq, trim}
use besterp.Value.{Value, string, array, text_items}
use besterp.Run.{Thrown}
use besterp.Support.{Support, Attempt, returns, fails, ◌>>=◌}
use besterp.Platform.{Platform}
use besterp.Directory.{PostalAddress, TelecomNumber, ContactRow}
use besterp.Errors.{context, invalid_type_value, duplicate_entity}
use besterp.Party.Fields.{is_truthy, quoted}
use besterp.Party.Contacts.Email.{split_at}
use besterp.Party.Contacts.Input.{
  PostalAddressInput, TelecomNumberInput, contact_tool, postal_type, telecom_type, email_type,
}
use besterp.Party.Contacts.Sanitized.{default_phone_country_code, sanitize_postal_address}

-- The columns of the unique constraint on phone numbers, besides the tenant.
pub record PhoneKey : Type 0 where
  pub country_code : Text
  pub area_code : Text
  pub line_number : Text

-- The row has the email in the tenant.
unfoldable pub has_email : Text → Text → ContactRow → Bool
has_email tenant email r = elim r.email_address [
  | none ↦ false
  | some e ↦ text_eq e email && text_eq r.tenant_id tenant
]

-- The row has the phone number in the tenant.
unfoldable pub has_phone : Text → PhoneKey → ContactRow → Bool
has_phone tenant k r = elim r.telecom_number [
  | none ↦ false
  | some n ↦
      text_eq r.tenant_id tenant
      && text_eq n.country_code k.country_code
      && text_eq n.area_code k.area_code
      && text_eq n.line_number k.line_number
]

abbrev pub key_of : TelecomNumber → PhoneKey
key_of n = record {
  country_code = n.country_code;
  area_code = n.area_code;
  line_number = n.line_number;
}

redacted : Option (Text × Text) → Text
redacted none = lit "***"
redacted (some ([], right)) = lit "***"
redacted (some (c ∷ left, right)) = take 2 (c ∷ left) ++ lit "***@" ++ right

unfoldable pub duplicate_email : Text → Thrown
unfolding redacted split_at
duplicate_email email =
    let shown = redacted (split_at b'@' email) in
    duplicate_entity (lit "Email " ++ quoted shown ++ lit " is already registered in this tenant.")
      (contact_tool ∷ [])
      (context ((lit "contactMechanismType", string email_type) ∷ (lit "email", string shown) ∷ []))

unfoldable pub duplicate_phone : PhoneKey → Thrown
duplicate_phone k =
    duplicate_entity
      (lit "Phone number "
        ++ k.country_code
        ++ lit " ("
        ++ k.area_code
        ++ lit ") "
        ++ k.line_number
        ++ lit " is already registered in this tenant.")
      (contact_tool ∷ []) (context ((lit "contactMechanismType", string telecom_type) ∷ []))

module _ (lib : Support) (env : Platform) where
  unfoldable pub strip_text : Value → Attempt Text
  strip_text (string s) = lib.strip_html_tags (trim s)
  strip_text v = fails env.type_error

  -- `countryCode ? stripHtmlTags(countryCode.trim()) : DEFAULT_PHONE_COUNTRY_CODE`.
  unfoldable pub checked_country_code : Value → Attempt Text
  checked_country_code (string s) =
      if length s == 0 then returns default_phone_country_code else lib.strip_html_tags (trim s)
  checked_country_code v =
      if is_truthy v then fails env.type_error else returns default_phone_country_code

  -- The number that the duplicate check looks for.
  unfoldable pub checked_phone : TelecomNumberInput → Attempt PhoneKey
  unfolding strip_text checked_country_code
  checked_phone i = do
    area_code ← strip_text i.area_code
    line_number ← strip_text i.line_number
    country_code ← checked_country_code i.country_code
    returns
        (record { country_code = country_code; area_code = area_code; line_number = line_number })

  blank_field : Text → Text → List Text
  blank_field name s = if length (trim s) == 0 then name ∷ [] else []

  joined : List Text → Text
  joined [] = []
  joined (n ∷ []) = n
  joined (n ∷ m ∷ ns) = n ++ lit ", " ++ joined (m ∷ ns)

  unusable : List Text → PostalAddress → Attempt PostalAddress
  unfolding joined text_items
  unusable [] a = returns a
  unusable (n ∷ ns) a = fails (
      invalid_type_value
        (joined (n ∷ ns) ++ lit " must contain visible characters after HTML sanitization.")
        (contact_tool ∷ [])
        (context (
          (lit "contactMechanismType", string postal_type)
          ∷ (lit "fields", array (text_items (n ∷ ns)))
          ∷ [])))

  check_postal : PostalAddress → Attempt PostalAddress
  unfolding unusable blank_field
  check_postal a =
      unusable
        (blank_field (lit "addressLine1") a.address_line_1
          ++ blank_field (lit "city") a.city
          ++ blank_field (lit "country") a.country)
        a

  -- `assertSanitizedPostalUsable`.
  unfoldable pub assert_sanitized_postal_usable :
      Text → Option PostalAddressInput → Attempt (Option PostalAddress)
  unfolding check_postal
  assert_sanitized_postal_usable type none = returns none
  assert_sanitized_postal_usable type (some i) =
      if text_eq type postal_type
      then (sanitize_postal_address lib env i >>= λ a.
          check_postal a >>= λ usable. returns (some usable))
      else returns none
