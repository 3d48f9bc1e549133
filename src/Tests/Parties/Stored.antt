-- ===== src/Tests/Parties/Stored.antt =====
-- What the services of parties do to the small directory.
use besterp.Prelude.{ℕ, ◌≡◌, refl, true, false, some}
use besterp.Text.{lit, text_eq, trim, trim_start, is_space, includes}
use besterp.Value.{string, is_nullish}
use besterp.Directory.{find_named, find_type}
use besterp.Run.{quiet, done, arrive, fault, query}
use besterp.Support.{returns}
use besterp.Tenant.{validate_tenant_id, tenant_id_pattern, is_tenant_char}
use besterp.Dates.{
  normalize_iso_date_time_to_utc, is_valid_iso_date, parse_iso_date_time_as_utc, iso_date,
  leading_date, days_in_month, is_leap,
}
use besterp.Dates.Laws.{valid-parses}
use besterp.Party.Fields.{require_string_field, require_max_length, uuid_regex}
use besterp.Party.Subtypes.{
  validate_create_party_fields, validate_create_party_subtype, validate_person_data,
  validate_organization_data, sanitize_person, sanitize_organization, strip_optional, check_name,
  name_field, require_stripped_max_length,
}
use besterp.Party.Draft.{
  validate_input, sanitize_create_party_input, sanitize_optional, check_visible, check_visible_name,
  parse_optional, person_row, organization_row, prepare_party,
}
use besterp.Party.Results.{
  include_party, mapped, read, tenant_scoped, to_org_result, to_party_result, to_person_result,
  to_role_result,
}
use besterp.Party.Create.{
  create_party, create_party_transaction, insert_found, insert_party, new_party, store_party,
  transaction_body, get_party,
}
use besterp.Party.Create.Laws.{get-create}
use besterp.Tests.{plain_lib}
use besterp.Tests.Parties.{plain_env, fresh_id, typed_tables, ada, ada_tables, ada_result}

ada_created :
    create_party plain_lib plain_env ada (quiet typed_tables 5)
    ≡ done ada_result (quiet ada_tables 5)
unfolding create_party trim is_space validate_input validate_create_party_fields require_max_length
    validate_create_party_subtype text_eq validate_person_data is_nullish validate_organization_data
    sanitize_create_party_input sanitize_optional sanitize_person check_visible check_visible_name
    validate_tenant_id tenant_id_pattern find_named find_type create_party_transaction insert_found
    insert_party new_party store_party transaction_body organization_row parse_optional person_row
    prepare_party require_string_field include_party mapped read tenant_scoped to_org_result
    to_party_result to_person_result to_role_result check_name name_field
    require_stripped_max_length sanitize_organization strip_optional arrive fault query
    is_tenant_char includes trim_start
ada_created = refl

fresh_id_uuid : uuid_regex fresh_id ≡ true
unfolding uuid_regex
fresh_id_uuid = refl

get-create_example :
    get_party plain_lib plain_env (string (lit "t1")) (string fresh_id) (quiet ada_tables 5)
    ≡ done ada_result (quiet ada_tables 5)
get-create_example =
    get-create plain_lib plain_env ada typed_tables 5 ada_result (quiet ada_tables 5) fresh_id_uuid
      refl ada_created

leap_day_valid : is_valid_iso_date plain_lib plain_env (lit "2024-02-29") ≡ true
unfolding is_valid_iso_date iso_date leading_date days_in_month is_leap
leap_day_valid = refl

-- No 29th of February, a month 13, an hour 24, a zone past 14:00.
invalid_dates :
    (is_valid_iso_date plain_lib plain_env (lit "2023-02-29") ≡ false)
    × (is_valid_iso_date plain_lib plain_env (lit "2024-13-01") ≡ false)
    × (is_valid_iso_date plain_lib plain_env (lit "2024-01-01T24:00:00Z") ≡ false)
    × (is_valid_iso_date plain_lib plain_env (lit "2024-01-01T10:00:00+14:30") ≡ false)
    × (is_valid_iso_date plain_lib plain_env (lit "2024-01-01T10:00:00.123456-11:30") ≡ true)
unfolding is_valid_iso_date iso_date leading_date days_in_month is_leap text_eq
invalid_dates = (refl, refl, refl, refl, refl)

valid-parses_example :
    (t : ℕ) × (plain_env.date_parse (normalize_iso_date_time_to_utc (lit "2024-02-29")) ≡ some t)
    × (parse_iso_date_time_as_utc plain_lib plain_env (lit "2024-02-29") ≡ returns t)
valid-parses_example = valid-parses plain_lib plain_env (lit "2024-02-29") leap_day_valid
