-- ===== src/Party/Contacts.antt =====
-- `addContactMechanism` of party.service.ts: the transaction that checks for the party and for a
-- duplicate, and then stores the contact mechanism under the unique constraints of the tables.
pub mod Email
pub mod Input
pub mod Sanitized
pub mod Duplicates
pub mod Laws
use besterp.Prelude.{
  ℕ, Bool, false, not, List, [], ◌∷◌, Option, none, some, ◌==◌, if◌then◌else◌, length, any,
}
use besterp.Text.{Text, lit, text_eq}
use besterp.Value.{Value}
use besterp.Directory.{
  TypeRow, PartyRow, PostalAddress, TelecomNumber, ContactRow, Directory, find_party, find_named,
  find_type, has_party,
}
use besterp.Store.{Store}
use besterp.Run.{M, ◌>>=◌, pure, throw, query, Commit, commit, reject, ◌>>◌}
use besterp.Support.{Support, Attempt, returns, fails}
use besterp.Platform.{Platform}
use besterp.Limits.{max_tenant_id_length, max_contact_mechanism_type_length}
use besterp.Party.Fields.{require_string_field, require_uuid}
use besterp.Party.Results.{mapped, attempt, read, tenant_scoped}
use besterp.Party.Create.{party_not_found}
use Input.{
  TelecomNumberInput, ContactData, contact_tool, telecom_type, email_type, unknown_contact_type,
  validate_contact_mechanism_subtype,
}
use Sanitized.{sanitize_telecom_number}
use Duplicates.{
  has_email, has_phone, key_of, duplicate_email, duplicate_phone, checked_phone,
  assert_sanitized_postal_usable,
}

pub record AddContactMechanismInput : Type 0 where
  pub tenant_id : Value
  pub party_id : Value
  pub contact_mechanism_type : Value
  pub details : ContactData

pub record ContactMechanismResult : Type 0 where
  pub contact_mechanism_id : Text
  pub contact_mechanism_type : Text
  pub party_id : Text
  pub postal_address : Option PostalAddress
  pub telecom_number : Option TelecomNumber
  pub email_address : Option Text

-- What the transaction is given.
pub record ContactRequest : Type 0 where
  pub tenant_id : Text
  pub party_id : Text
  pub type : Text
  pub type_id : Text
  pub details : ContactData
  pub normalized_email : Option Text

-- A row's subtype data.
pub record ContactDraft : Type 0 where
  pub postal_address : Option PostalAddress
  pub telecom_number : Option TelecomNumber
  pub email_address : Option Text

-- The number, if the type is that of phone numbers.
unfoldable pub phone_data : ContactRequest → Option TelecomNumberInput
phone_data q = if text_eq q.type telecom_type then q.details.telecom_number else none

-- An empty email is none.
abbrev pub nonempty : Option Text → Option Text
nonempty none = none
nonempty (some e) = if length e == 0 then none else some e

unfoldable pub email_data : ContactRequest → Option Text
email_data q = if text_eq q.type email_type then nonempty q.normalized_email else none

-- The unique constraints that a new row meets.
abbrev pub email_taken : Text → Option Text → List ContactRow → Bool
email_taken tenant none rows = false
email_taken tenant (some e) rows = any (has_email tenant e) rows

abbrev pub phone_taken : Text → Option TelecomNumber → List ContactRow → Bool
phone_taken tenant none rows = false
phone_taken tenant (some n) rows = any (has_phone tenant (key_of n)) rows

-- `formatContactResult`: an absent column is null or absent.
unfoldable pub format_contact_result : ContactRow → Text → ContactMechanismResult
format_contact_result r party_id = record {
  contact_mechanism_id = r.contact_mechanism_id;
  contact_mechanism_type = r.contact_type.name;
  party_id = party_id;
  postal_address = r.postal_address;
  telecom_number = r.telecom_number;
  email_address = r.email_address;
}

module _ (lib : Support) (env : Platform) where
  -- `checkEmailDuplicate`.
  unfoldable pub check_email_duplicate : Text → Option Text → M Unit
  unfolding has_email read duplicate_email
  check_email_duplicate tenant none = pure tt
  check_email_duplicate tenant (some e) =
      read (λ s. any (has_email tenant e) s.directory.contacts) >>= λ taken.
      if taken then throw (duplicate_email e) else pure tt

  -- `checkTelecomDuplicate`, of the number once it is sanitized.
  unfoldable pub check_telecom_duplicate : Text → Option TelecomNumberInput → M Unit
  unfolding has_phone read duplicate_phone checked_phone
  check_telecom_duplicate tenant none = pure tt
  check_telecom_duplicate tenant (some i) = attempt (checked_phone lib env i) >>= λ k.
      read (λ s. any (has_phone tenant k) s.directory.contacts) >>= λ taken.
      if taken then throw (duplicate_phone k) else pure tt

  unfoldable pub new_contact : ContactRequest → TypeRow → ContactDraft → Directory → ContactRow
  new_contact q type d t = record {
    contact_mechanism_id = env.random_uuid t;
    contact_type = type;
    tenant_id = q.tenant_id;
    party_id = q.party_id;
    postal_address = d.postal_address;
    telecom_number = d.telecom_number;
    email_address = d.email_address;
  }

  -- `tx.contactMechanism.create` with its nested rows, which the constraints check.
  unfoldable pub insert_typed :
      ContactRequest → ContactDraft → Store → Option TypeRow → Commit ContactRow
  unfolding new_contact has_email has_phone has_party
  insert_typed q d s none = reject env.foreign_key_violation
  insert_typed q d s (some type) =
      let t = s.directory in
      let row = new_contact q type d t in
      if not (has_party q.party_id t.parties)
      then reject env.foreign_key_violation
      else if email_taken q.tenant_id d.email_address t.contacts
      then reject (env.unique_violation (lit "tenantId and email"))
      else if phone_taken q.tenant_id d.telecom_number t.contacts
      then reject
          (env.unique_violation (lit "tenantId and countryCode and areaCode and lineNumber"))
      else commit row (record s { directory = record t { contacts = row ∷ t.contacts } })

  unfoldable pub insert_contact : ContactRequest → ContactDraft → ℕ → Store → Commit ContactRow
  unfolding insert_typed find_type
  insert_contact q d now s = insert_typed q d s (find_type q.type_id s.directory.contact_types)

  unfoldable pub sanitize_phone : Option TelecomNumberInput → Attempt (Option TelecomNumber)
  sanitize_phone none = returns none
  sanitize_phone (some i) = elim (sanitize_telecom_number lib i) [
    | returns n ↦ returns (some n)
    | fails e ↦ fails e
  ]

  unfoldable pub after_party : ContactRequest → Option PartyRow → M ContactRow
  unfolding party_not_found check_email_duplicate check_telecom_duplicate phone_data email_data
      sanitize_phone insert_contact
  after_party q none = throw (party_not_found q.party_id q.tenant_id)
  after_party q (some p) = do
    check_email_duplicate q.tenant_id (nonempty q.normalized_email)
    check_telecom_duplicate q.tenant_id (phone_data q)
    postal ← attempt (assert_sanitized_postal_usable lib env q.type q.details.postal_address)
    phone ← attempt (sanitize_phone (phone_data q))
    query (
        insert_contact q (record {
          postal_address = postal;
          telecom_number = phone;
          email_address = email_data q;
        }))

  -- `createContactMechanismTransaction`.
  unfoldable pub create_contact_mechanism_transaction : ContactRequest → M ContactRow
  unfolding after_party mapped read find_party
  create_contact_mechanism_transaction q =
      mapped env contact_tool (lit "contact mechanism")
        (read (λ s. find_party q.party_id q.tenant_id s.directory.parties) >>= after_party q)

  unfoldable pub known_type : Text → Option TypeRow → M Text
  unfolding unknown_contact_type
  known_type type none = throw (unknown_contact_type type)
  known_type type (some row) = pure row.type_id

  -- `addContactMechanism` once its input is validated.
  unfoldable pub add_validated_contact :
      ContactData → Text → Text → Text → Option Text → M ContactMechanismResult
  unfolding mapped read find_named known_type create_contact_mechanism_transaction
      format_contact_result
  add_validated_contact details tenant id type email = do
    row ←
        mapped env contact_tool (lit "contact mechanism")
          (read (λ s. find_named (text_eq type) s.directory.contact_types))
    type_id ← known_type type row
    stored ← create_contact_mechanism_transaction (record {
      tenant_id = tenant;
      party_id = id;
      type = type;
      type_id = type_id;
      details = details;
      normalized_email = email;
    })
    pure (format_contact_result stored id)

  unfoldable pub add_contact_mechanism : AddContactMechanismInput → M ContactMechanismResult
  unfolding require_string_field require_uuid tenant_scoped validate_contact_mechanism_subtype
      add_validated_contact
  add_contact_mechanism i = do
    tenant ←
        attempt
          (require_string_field i.tenant_id (lit "tenantId") max_tenant_id_length contact_tool)
    id ← attempt (require_uuid lib i.party_id (lit "partyId") (contact_tool ∷ []))
    scope ← tenant_scoped lib tenant
    type ← attempt (
        require_string_field i.contact_mechanism_type (lit "contactMechanismType")
          max_contact_mechanism_type_length contact_tool)
    email ← attempt (validate_contact_mechanism_subtype lib env type i.details)
    add_validated_contact i.details tenant id type email
