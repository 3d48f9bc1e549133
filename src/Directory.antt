-- ===== src/Directory.antt =====
-- The tables of parties, their roles and their contact mechanisms, with the shared tables of types
-- (packages/database/prisma/schema.prisma). A date is its milliseconds. A foreign key to a table of
-- types is the row that it names, and a subtype row is a column of its supertype's row.
pub mod Laws
use besterp.Prelude.{ℕ, Bool, true, false, ◌&&◌, List, [], ◌∷◌, if◌then◌else◌, Option, none, some}
use besterp.Text.{Text, text_eq}

-- A row of `party_type`, `role_type` or `contact_mechanism_type`.
pub record TypeRow : Type 0 where
  pub type_id : Text
  pub name : Text

pub record Person : Type 0 where
  pub first_name : Text
  pub last_name : Text
  pub middle_name : Option Text
  pub birth_date : Option ℕ
  pub gender : Option Text

pub record Organization : Type 0 where
  pub legal_name : Text
  pub tax_id : Option Text
  pub registration_date : Option ℕ

pub record PartyRow : Type 0 where
  pub party_id : Text
  pub party_type : TypeRow
  pub tenant_id : Text
  pub name : Text
  pub description : Option Text
  pub person : Option Person
  pub organization : Option Organization
  pub created_at : ℕ
  pub updated_at : ℕ

pub record RoleRow : Type 0 where
  pub party_role_id : Text
  pub party_id : Text
  pub role_type : TypeRow
  pub from_date : ℕ
  pub thru_date : Option ℕ

pub record PostalAddress : Type 0 where
  pub address_line_1 : Text
  pub address_line_2 : Option Text
  pub city : Text
  pub state_province : Option Text
  pub postal_code : Option Text
  pub country : Text

pub record TelecomNumber : Type 0 where
  pub country_code : Text
  pub area_code : Text
  pub line_number : Text
  pub extension : Option Text

-- With the party that the row of `party_contact_mechanism` links it to.
pub record ContactRow : Type 0 where
  pub contact_mechanism_id : Text
  pub contact_type : TypeRow
  pub tenant_id : Text
  pub party_id : Text
  pub postal_address : Option PostalAddress
  pub telecom_number : Option TelecomNumber
  pub email_address : Option Text

pub record Directory : Type 0 where
  pub party_types : List TypeRow
  pub role_types : List TypeRow
  pub contact_types : List TypeRow
  pub parties : List PartyRow
  pub roles : List RoleRow
  pub contacts : List ContactRow

abbrev pub empty_directory : Directory
empty_directory = record {
  party_types = [];
  role_types = [];
  contact_types = [];
  parties = [];
  roles = [];
  contacts = [];
}

abbrev pub owns : Text → Text → PartyRow → Bool
owns id tenant p = text_eq p.party_id id && text_eq p.tenant_id tenant

-- `party.findUnique({ where: { partyId, tenantId } })`.
unfoldable pub find_party : Text → Text → List PartyRow → Option PartyRow
find_party id tenant [] = none
find_party id tenant (p ∷ ps) = if owns id tenant p then some p else find_party id tenant ps

-- `findUnique({ where: { name } })` on a table of types.
unfoldable pub find_named : (Text → Bool) → List TypeRow → Option TypeRow
find_named p [] = none
find_named p (t ∷ ts) = if p t.name then some t else find_named p ts

-- `findUnique` on a table of types by its id.
unfoldable pub find_type : Text → List TypeRow → Option TypeRow
find_type id [] = none
find_type id (t ∷ ts) = if text_eq t.type_id id then some t else find_type id ts

unfoldable pub has_party : Text → List PartyRow → Bool
has_party id [] = false
has_party id (p ∷ ps) = if text_eq p.party_id id then true else has_party id ps

-- A role with no `thruDate`.
unfoldable pub is_active : RoleRow → Bool
is_active r = elim r.thru_date [ none ↦ true | some t ↦ false ]

-- What the partial index on (party_id, role_type_id) of active roles holds.
unfoldable pub holds : Text → Text → RoleRow → Bool
unfolding is_active
holds party type r = text_eq r.party_id party && text_eq r.role_type.type_id type && is_active r

-- `partyRole.findFirst({ where: { partyId, roleTypeId, thruDate: null } })`.
unfoldable pub find_active : Text → Text → List RoleRow → Option RoleRow
find_active party type [] = none
find_active party type (r ∷ rs) = if holds party type r then some r else find_active party type rs
