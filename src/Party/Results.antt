-- ===== src/Party/Results.antt =====
-- The results of party.service.ts: a party with its rows of other tables, in the form that callers get,
-- and what the queries of the service share.
pub mod Laws
use besterp.Prelude.{Option, List, map, select}
use mathlib.Core.Option as Opt
use besterp.Text.{Text, text_eq}
use besterp.Directory.{Person, Organization, PartyRow, RoleRow}
use besterp.Value.{string}
use besterp.Run.{M, done, throws, try_catch, query, commit, throw}
use besterp.Support.{Support, Attempt, returns, fails}
use besterp.Platform.{Platform}
use besterp.Store.{Store}
use besterp.PrismaErrors.{handle_transaction_error}
use besterp.Tenant.{validate_tenant_id}

-- A party with what PARTY_INCLUDE joins to it.
pub record PartyWithIncludes : Type 0 where
  pub party : PartyRow
  pub roles : List RoleRow

pub record PersonResult : Type 0 where
  pub first_name : Text
  pub last_name : Text
  pub middle_name : Option Text
  pub birth_date : Option Text
  pub gender : Option Text

pub record OrganizationResult : Type 0 where
  pub legal_name : Text
  pub tax_id : Option Text
  pub registration_date : Option Text

pub record RoleResult : Type 0 where
  pub party_role_id : Text
  pub role_type_name : Text
  pub from_date : Text
  pub thru_date : Option Text

pub record PartyResult : Type 0 where
  pub party_id : Text
  pub name : Text
  pub party_type : Text
  pub description : Option Text
  pub person : Option PersonResult
  pub organization : Option OrganizationResult
  pub roles : List RoleResult
  pub created_at : Text
  pub updated_at : Text

unfoldable pub include_party : List RoleRow → PartyRow → PartyWithIncludes
include_party roles p = record {
  party = p;
  roles = select (λ r. text_eq r.party_id p.party_id) roles;
}

module _ (env : Platform) where
  unfoldable pub to_person_result : Person → PersonResult
  to_person_result p = record {
    first_name = p.first_name;
    last_name = p.last_name;
    middle_name = p.middle_name;
    birth_date = Opt.map env.to_iso_string p.birth_date;
    gender = p.gender;
  }

  unfoldable pub to_org_result : Organization → OrganizationResult
  to_org_result o = record {
    legal_name = o.legal_name;
    tax_id = o.tax_id;
    registration_date = Opt.map env.to_iso_string o.registration_date;
  }

  unfoldable pub to_role_result : RoleRow → RoleResult
  to_role_result r = record {
    party_role_id = r.party_role_id;
    role_type_name = r.role_type.name;
    from_date = env.to_iso_string r.from_date;
    thru_date = Opt.map env.to_iso_string r.thru_date;
  }

  unfoldable pub to_party_result : PartyWithIncludes → PartyResult
  unfolding to_person_result to_org_result to_role_result
  to_party_result i = record {
    party_id = i.party.party_id;
    name = i.party.name;
    party_type = i.party.party_type.name;
    description = i.party.description;
    person = Opt.map to_person_result i.party.person;
    organization = Opt.map to_org_result i.party.organization;
    roles = map to_role_result i.roles;
    created_at = env.to_iso_string i.party.created_at;
    updated_at = env.to_iso_string i.party.updated_at;
  }

  -- An operation whose errors are mapped for the tool and the entity.
  unfoldable pub mapped : {A : Type 0} → Text → Text → M A → M A
  mapped tool entity m = try_catch m (λ e. throw (handle_transaction_error env tool tool entity e))

-- A validation inside an asynchronous function.
abbrev pub attempt : {A : Type 0} → Attempt A → M A
attempt (returns a) w = done a w
attempt (fails e) w = throws e w

-- A read of the tables.
unfoldable pub read : {A : Type 0} → (Store → A) → M A
read f = query (λ now s. commit (f s) s)

-- `prisma.tenantScoped(tenantId)`: the tenant of the client that it makes. The cache of clients, and
-- the refusal while the service shuts down, are left out.
unfoldable pub tenant_scoped : Support → Text → M Text
tenant_scoped lib tenant = attempt (validate_tenant_id lib (string tenant))
