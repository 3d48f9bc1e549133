-- ===== src/Tests/Parties/Abstract.antt =====
-- A role that is added to the small directory, as the abstract set of active roles sees it.
use besterp.Prelude.{◌≡◌, refl, some, [], ◌∷◌}
use besterp.Text.{lit, text_eq, trim, trim_start, is_space}
use besterp.Value.{string}
use besterp.Directory.{find_party, find_named, find_type}
use besterp.Run.{quiet}
use besterp.Support.{returns}
use besterp.Tenant.{validate_tenant_id, tenant_id_pattern, is_tenant_char}
use besterp.Limits.{max_tenant_id_length}
use besterp.Party.Fields.{require_string_field, require_max_length, require_uuid, uuid_regex}
use besterp.Party.Roles.Input.{role_tool, validate_add_party_role_input, parse_from_date}
use besterp.Party.Roles.{add_party_role}
use besterp.Party.Roles.Abstract.{
  active_roles, add_if_absent, Implements, add_party_role-Implements,
}
use besterp.Tests.{plain_lib}
use besterp.Tests.Parties.{plain_env, fresh_id, customer_type, ada_row, ada_tables}
use besterp.Tests.Parties.Called.{customer}

tenant_known :
    require_string_field customer.tenant_id (lit "tenantId") max_tenant_id_length role_tool
    ≡ returns (lit "t1")
unfolding require_string_field trim trim_start is_space
tenant_known = refl

id_known :
    require_uuid plain_lib customer.party_id (lit "partyId") (role_tool ∷ []) ≡ returns fresh_id
unfolding require_uuid uuid_regex trim trim_start is_space
id_known = refl

tenant_valid : validate_tenant_id plain_lib (string (lit "t1")) ≡ returns (lit "t1")
unfolding validate_tenant_id trim trim_start is_space tenant_id_pattern is_tenant_char
tenant_valid = refl

type_valid : validate_add_party_role_input plain_lib customer.role_type ≡ returns (lit "Customer")
unfolding validate_add_party_role_input require_max_length trim trim_start is_space
type_valid = refl

from_now : parse_from_date plain_lib plain_env 5 customer.from_date ≡ returns 5
unfolding parse_from_date
from_now = refl

type_named :
    find_named (λ n. plain_env.equals_insensitive n (lit "Customer")) (customer_type ∷ [])
    ≡ some customer_type
unfolding find_named text_eq
type_named = refl

type_there : find_type customer_type.type_id (customer_type ∷ []) ≡ some customer_type
unfolding find_type text_eq
type_there = refl

party_there : find_party fresh_id (lit "t1") (ada_row ∷ []) ≡ some ada_row
unfolding find_party text_eq
party_there = refl

add_party_role-Implements_example :
    Implements
      (add_if_absent fresh_id customer_type.type_id (active_roles []))
      (add_party_role plain_lib plain_env customer (quiet ada_tables 5))
add_party_role-Implements_example =
    add_party_role-Implements plain_lib plain_env customer (lit "t1") fresh_id (lit "t1")
      (lit "Customer") 5 ada_tables 5 ada_row customer_type tenant_known id_known tenant_valid
      type_valid from_now type_named type_there party_there
