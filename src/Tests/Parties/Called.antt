-- ===== src/Tests/Parties/Called.antt =====
-- Searches of the small directory, and sequences of calls.
use besterp.Prelude.{◌≡◌, refl, false, none, some, [], ◌∷◌, arith, length, select, List, map}
use besterp.Text.{lit, text_eq, trim, trim_start, is_space}
use besterp.Value.{undefined, string}
use besterp.Directory.{
  PartyRow, RoleRow, TelecomNumber, find_party, find_named, find_type, find_active, has_party,
  is_active,
}
use besterp.Store.{Store}
use besterp.Run.{quiet, done, arrive, fault, query}
use besterp.Support.{returns}
use besterp.Tenant.{validate_tenant_id, tenant_id_pattern, is_tenant_char}
use besterp.PrismaErrors.{compute_has_more}
use besterp.Party.Fields.{
  require_string_field, require_max_length, require_uuid, uuid_regex, require_non_empty_filter,
  require_sanitized_string_field, country_code_regex,
}
use besterp.Party.Results.{
  include_party, mapped, read, tenant_scoped, to_party_result, to_person_result, to_org_result,
  to_role_result,
}
use besterp.Party.Search.Filters.{
  SearchPartiesInput, PartyWhere, whole, clamp, require_integer_page_param, search_where,
}
use besterp.Party.Search.{
  SearchPartiesResult, search_parties, matching, satisfies, order, insert_ordered, before,
  find_page, search_result,
}
use mathlib.Core.List.{Perm}
use besterp.Party.Search.Order.{IsCollation, IsOrdered}
use besterp.Party.Search.Walk.{walk, walk-all}
use besterp.Party.Search.Isolation.{search-isolated}
use besterp.Party.Roles.Input.{validate_add_party_role_input, parse_from_date}
use besterp.Party.Roles.{
  AddPartyRoleInput, PartyRoleResult, add_party_role, add_validated_role, retry_loop, known_role,
  add_party_role_transaction, after_outcome, after_party, after_insert, insert_role,
  insert_unless_active, new_role,
}
use besterp.Party.Roles.Again.{RefusedAs, add-add}
use besterp.Party.Contacts.Input.{TelecomNumberInput, validate_telecom_subtype}
use besterp.Party.Contacts.Sanitized.{sanitize_telecom_number}
use besterp.Party.Contacts.Duplicates.{PhoneKey, key_of, checked_phone}
use besterp.Party.Contacts.Laws.{checked-stored}
use besterp.Party.Calls.{creates, adds_role, searches, calls}
use besterp.Party.Sound.{IsSoundStore}
use besterp.Party.Sound.Calls.{calls-IsSound}
use besterp.Tests.{plain_lib}
use besterp.Tests.Parties.{
  plain_env, fresh_id, customer_type, typed_tables, ada, ada_row, ada_tables, ada_result,
}

abbrev everybody : SearchPartiesInput
everybody = record {
  tenant_id = string (lit "t1");
  name = none;
  party_type = none;
  role_type = none;
  limit = some (whole 1);
  offset = none;
}

abbrev in_tenant : PartyWhere
in_tenant = record { tenant_id = lit "t1"; name = none; party_type = none; role_type = none }

abbrev bob_row : PartyRow
bob_row = record ada_row { party_id = lit "id-2"; name = lit "Bob"; created_at = 4 }

abbrev two_parties : Store
two_parties = record ada_tables {
  directory = record ada_tables.directory { parties = ada_row ∷ bob_row ∷ [] };
}

tenant_required :
    require_string_field (string (lit "t1")) (lit "tenantId") 100 (lit "search_parties")
    ≡ returns (lit "t1")
unfolding require_string_field trim trim_start is_space
tenant_required = refl

tenant_validated : validate_tenant_id plain_lib (string (lit "t1")) ≡ returns (lit "t1")
unfolding validate_tenant_id tenant_id_pattern is_tenant_char trim trim_start is_space
tenant_validated = refl

nothing_filtered : search_where plain_lib everybody (lit "t1") ≡ returns in_tenant
unfolding search_where require_non_empty_filter
nothing_filtered = refl

two_match : length (matching plain_env in_tenant two_parties.directory) ≡ 2
unfolding matching satisfies text_eq
two_match = refl

unordered : IsCollation plain_env
unordered = record { asymmetric = λ a b h. refl; transitive = λ a b c h k. refl }

-- Two pages of one party each.
walk-all_example :
    (rows : List PartyRow) × Perm rows (matching plain_env in_tenant two_parties.directory)
    × IsOrdered plain_env rows
    × (walk plain_lib plain_env 2 0 everybody (quiet two_parties 5)
        ≡ done
            (map (to_party_result plain_env) (map (include_party two_parties.directory.roles) rows))
            (quiet two_parties 5))
walk-all_example =
    walk-all plain_lib plain_env everybody (lit "t1") (lit "t1") in_tenant 1 two_parties 5 1
      tenant_required tenant_validated nothing_filtered refl (omega arith) (omega arith)
      (omega (arith, two_match)) (omega (arith, two_match)) unordered

abbrev foreign_row : PartyRow
foreign_row = record ada_row { party_id = lit "id-3"; tenant_id = lit "t2"; created_at = 9 }

-- With a newer party of another tenant.
abbrev shared_tables : Store
shared_tables = record ada_tables {
  directory = record ada_tables.directory { parties = foreign_row ∷ ada_row ∷ [] };
}

abbrev ada_page : SearchPartiesResult
ada_page = record { items = ada_result ∷ []; total = 1; limit = 1; offset = 0; has_more = false }

ada_searched :
    search_parties plain_lib plain_env everybody (quiet ada_tables 5)
    ≡ done ada_page (quiet ada_tables 5)
unfolding search_parties require_string_field trim trim_start is_space require_integer_page_param
    tenant_scoped validate_tenant_id tenant_id_pattern is_tenant_char search_where
    require_non_empty_filter mapped read query arrive fault matching satisfies text_eq find_page
    order insert_ordered before search_result compute_has_more clamp include_party to_party_result
    to_person_result to_org_result to_role_result is_active
ada_searched = refl

same_own :
    select (λ p. text_eq p.tenant_id (lit "t1")) (ada_row ∷ [])
    ≡ select (λ p. text_eq p.tenant_id (lit "t1")) (foreign_row ∷ ada_row ∷ [])
unfolding text_eq
same_own = refl

search-isolated_example :
    search_parties plain_lib plain_env everybody (quiet shared_tables 5)
    ≡ done ada_page (quiet shared_tables 5)
search-isolated_example =
    search-isolated plain_lib plain_env everybody (lit "t1") ada_tables shared_tables 5 ada_page
      tenant_required same_own refl ada_searched

abbrev pub customer : AddPartyRoleInput
customer = record {
  tenant_id = string (lit "t1");
  party_id = string fresh_id;
  role_type = string (lit "Customer");
  from_date = none;
}

abbrev customer_row : RoleRow
customer_row = record {
  party_role_id = fresh_id;
  party_id = fresh_id;
  role_type = customer_type;
  from_date = 5;
  thru_date = none;
}

abbrev customer_tables : Store
customer_tables = record ada_tables {
  directory = record ada_tables.directory { roles = customer_row ∷ [] };
}

abbrev customer_result : PartyRoleResult
customer_result = record {
  role = record {
    party_role_id = fresh_id;
    role_type_name = lit "Customer";
    from_date = lit "2024-01-01T00:00:00.000Z";
    thru_date = none;
  };
  party_id = fresh_id;
}

customer_added :
    add_party_role plain_lib plain_env customer (quiet ada_tables 5)
    ≡ done customer_result (quiet customer_tables 5)
unfolding add_party_role require_string_field trim trim_start is_space require_uuid uuid_regex
    tenant_scoped validate_tenant_id tenant_id_pattern is_tenant_char validate_add_party_role_input
    require_max_length parse_from_date add_validated_role mapped read query arrive fault find_named
    text_eq known_role retry_loop add_party_role_transaction after_outcome after_party after_insert
    insert_role insert_unless_active new_role find_party find_active find_type has_party
    to_role_result
customer_added = refl

add-add_example :
    RefusedAs plain_env customer_result
      (quiet customer_tables 5)
      (add_party_role plain_lib plain_env customer (quiet customer_tables 5))
add-add_example =
    add-add plain_lib plain_env customer ada_tables 5 customer_result (quiet customer_tables 5)
      customer_added

typed_tables-IsSound : IsSoundStore typed_tables
typed_tables-IsSound = record {
  parties_valid = tt;
  roles_linked = tt;
  contacts_linked = tt;
  roles_apart = tt;
  emails_apart = tt;
  phones_apart = tt;
}

calls-IsSound_example :
    IsSoundStore
      (calls plain_lib plain_env
        (creates ada ∷ adds_role customer ∷ searches everybody ∷ [])
        (quiet typed_tables 5)).store
calls-IsSound_example =
    calls-IsSound plain_lib plain_env (creates ada ∷ adds_role customer ∷ searches everybody ∷ [])
      (quiet typed_tables 5) (typed_tables-IsSound, tt)

abbrev office : TelecomNumberInput
office = record {
  country_code = string (lit " +44");
  area_code = string (lit "20 ");
  line_number = string (lit "5550100");
  extension = undefined;
}

abbrev office_key : PhoneKey
office_key = record { country_code = lit "+44"; area_code = lit "20"; line_number = lit "5550100" }

abbrev office_number : TelecomNumber
office_number = record {
  country_code = lit "+44";
  area_code = lit "20";
  line_number = lit "5550100";
  extension = none;
}

office_valid : validate_telecom_subtype plain_lib plain_env (some office) ≡ returns tt
unfolding validate_telecom_subtype require_sanitized_string_field trim trim_start is_space
    country_code_regex require_max_length
office_valid = refl

office_checked : checked_phone plain_lib plain_env office ≡ returns office_key
unfolding checked_phone trim trim_start is_space
office_checked = refl

office_sanitized : sanitize_telecom_number plain_lib office ≡ returns office_number
unfolding sanitize_telecom_number trim trim_start is_space
office_sanitized = refl

checked-stored_example : key_of office_number ≡ office_key
checked-stored_example =
    checked-stored plain_lib plain_env office office_key office_number refl refl office_valid
      office_checked office_sanitized
