-- ===== src/Party/Sound.antt =====
-- What the services of party.service.ts keep true of the tables: the subtype and the name of a party,
-- the references to parties, and the unique indexes.
pub mod Runs
pub mod Draft
pub mod Create
pub mod Roles
pub mod Contacts
pub mod Calls
use besterp.Prelude.{
  ◌≤◌, ◌≡◌, Bool, true, false, not, ◌&&◌, ◌||◌, List, [], ◌∷◌, Option, none, some, ◌==◌, length,
  All, is_some,
}
use besterp.Limits.{max_party_name_length}
use besterp.Directory.{PartyRow, RoleRow, ContactRow, Directory, is_active, holds, has_party}
use besterp.Store.{Store}
use besterp.Party.Contacts.Duplicates.{has_email, has_phone, key_of}

-- No row stands in the relation to a row after it.
abbrev pub Apart : {A : Type 0} → (A → A → Bool) → List A → Type 0
Apart r [] = Unit
Apart r (x ∷ xs) = All (λ y. r x y ≡ false) xs × Apart r xs

-- Two active roles of one type and one party.
unfoldable pub same_role : RoleRow → RoleRow → Bool
unfolding is_active holds
same_role r q = is_active r && holds r.party_id r.role_type.type_id q

-- One email in one tenant.
unfoldable pub same_email : ContactRow → ContactRow → Bool
unfolding has_email
same_email r q = elim r.email_address [ none ↦ false | some e ↦ has_email r.tenant_id e q ]

-- One phone number in one tenant.
unfoldable pub same_phone : ContactRow → ContactRow → Bool
unfolding has_phone
same_phone r q = elim r.telecom_number [
  | none ↦ false
  | some n ↦ has_phone r.tenant_id (key_of n) q
]

-- Exactly one of the two is there.
abbrev pub just_one : {A B : Type 0} → Option A → Option B → Bool
just_one a b = is_some a && not (is_some b) || not (is_some a) && is_some b

-- A person or an organization, with a name of 1 to 500 code units.
pub record IsParty (p : PartyRow) : Type 0 where
  pub one_subtype : just_one p.person p.organization ≡ true
  pub named : (length p.name == 0) ≡ false
  pub bounded : length p.name ≤ max_party_name_length

pub record IsSound (t : Directory) : Type 0 where
  pub parties_valid : All IsParty t.parties
  pub roles_linked : All (λ r. has_party r.party_id t.parties ≡ true) t.roles
  pub contacts_linked : All (λ c. has_party c.party_id t.parties ≡ true) t.contacts
  pub roles_apart : Apart same_role t.roles
  pub emails_apart : Apart same_email t.contacts
  pub phones_apart : Apart same_phone t.contacts

abbrev pub IsSoundStore : Store → Type 0
IsSoundStore s = IsSound s.directory
