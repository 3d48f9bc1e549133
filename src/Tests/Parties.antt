-- ===== src/Tests/Parties.antt =====
-- A small directory of parties, and what is stored in it.
pub mod Stored
pub mod Called
pub mod Abstract
use besterp.Prelude.{true, false, none, some, [], ◌∷◌}
use besterp.Text.{Text, lit, text_eq}
use besterp.Value.{undefined, null, string}
use besterp.Directory.{TypeRow, PartyRow, empty_directory}
use besterp.Store.{Store}
use besterp.Run.{Thrown}
use besterp.Platform.{Platform}
use besterp.Party.Draft.{CreatePartyInput}
use besterp.Party.Results.{PartyResult}
use besterp.Tests.{tables}

abbrev pub database_error : Text → Thrown
database_error code = record {
  is_domain = false;
  code = some code;
  message = [];
  suggested_tools = [];
  context = undefined;
  target = none;
}

abbrev pub fresh_id : Text
fresh_id = lit "00000000-0000-4000-8000-000000000001"

-- Every date is one instant, and comparisons look at the case.
abbrev pub plain_env : Platform
plain_env = record {
  to_upper_case = λ s. s;
  date_parse = λ s. some 1_000;
  to_iso_string = λ n. lit "2024-01-01T00:00:00.000Z";
  type_error = database_error (lit "TypeError");
  random_uuid = λ t. fresh_id;
  contains_insensitive = λ s p. true;
  equals_insensitive = text_eq;
  id_before = λ s t. false;
  foreign_key_violation = database_error (lit "P2003");
  connect_missing = database_error (lit "P2025");
  unique_violation = λ fields. record (database_error (lit "P2002")) { target = some fields };
  constraint_name = λ e. lit "unknown";
}

abbrev pub person_type_row : TypeRow
person_type_row = record { type_id = lit "pt-1"; name = lit "PERSON" }

abbrev pub customer_type : TypeRow
customer_type = record { type_id = lit "rt-1"; name = lit "Customer" }

-- The types, and no party.
abbrev pub typed_tables : Store
typed_tables = record tables {
  directory = record empty_directory {
    party_types = person_type_row ∷ [];
    role_types = customer_type ∷ [];
  };
}

abbrev pub ada : CreatePartyInput
ada = record {
  tenant_id = string (lit "t1");
  party_type = string (lit "PERSON");
  name = string (lit " Ada ");
  description = undefined;
  person = some (record {
    first_name = string (lit "Ada");
    last_name = string (lit "L");
    middle_name = undefined;
    birth_date = null;
    gender = undefined;
  });
  organization = none;
}

abbrev pub ada_row : PartyRow
ada_row = record {
  party_id = fresh_id;
  party_type = person_type_row;
  tenant_id = lit "t1";
  name = lit "Ada";
  description = none;
  person = some (record {
    first_name = lit "Ada";
    last_name = lit "L";
    middle_name = none;
    birth_date = none;
    gender = none;
  });
  organization = none;
  created_at = 5;
  updated_at = 5;
}

abbrev pub ada_tables : Store
ada_tables = record typed_tables {
  directory = record typed_tables.directory { parties = ada_row ∷ [] };
}

abbrev pub ada_result : PartyResult
ada_result = record {
  party_id = fresh_id;
  name = lit "Ada";
  party_type = lit "PERSON";
  description = none;
  person = some (record {
    first_name = lit "Ada";
    last_name = lit "L";
    middle_name = none;
    birth_date = none;
    gender = none;
  });
  organization = none;
  roles = [];
  created_at = lit "2024-01-01T00:00:00.000Z";
  updated_at = lit "2024-01-01T00:00:00.000Z";
}
