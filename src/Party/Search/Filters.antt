-- ===== src/Party/Search/Filters.antt =====
-- The page and the filters that a search of parties is given, and the conditions they become.
use besterp.Prelude.{ℕ, [], ◌∷◌, ◌++◌, Option, none, some, ltb, if◌then◌else◌}
use besterp.Text.{Text, lit}
use besterp.Value.{Value, string}
use besterp.Support.{Support, Attempt, returns, fails, ◌>>=◌}
use besterp.Limits.{max_party_name_length, max_party_type_length, max_role_type_length}
use besterp.Errors.{field_context, invalid_type_value}
use besterp.Party.Fields.{quoted, require_non_empty_filter}

-- A number: an integer by its sign, or another with its text (NaN, an infinity, a fraction).
pub data PageParam : Type 0 where
  whole negative : ℕ → PageParam
  irregular : Text → PageParam

pub record SearchPartiesInput : Type 0 where
  pub tenant_id : Value
  pub name : Option Text
  pub party_type : Option Text
  pub role_type : Option Text
  pub limit : Option PageParam
  pub offset : Option PageParam

-- The conditions of `where`: the tenant, and the filters that are given.
pub record PartyWhere : Type 0 where
  pub tenant_id : Text
  pub name : Option Text
  pub party_type : Option Text
  pub role_type : Option Text

abbrev pub search_tool : Text
search_tool = lit "search_parties"

-- `value ?? initial`.
abbrev pub or_default : Option PageParam → ℕ → PageParam
or_default none n = whole n
or_default (some p) n = p

unfoldable pub require_integer_page_param : PageParam → Text → Attempt Unit
require_integer_page_param (irregular text) name = fails (
    invalid_type_value
      (quoted name ++ lit " must be a finite integer (received " ++ text ++ lit ").")
      (search_tool ∷ []) (field_context name ((lit "received", string text) ∷ [])))
require_integer_page_param _ name = returns tt

-- `Math.min(Math.max(value, lo), hi)` with natural bounds.
unfoldable pub clamp : PageParam → ℕ → ℕ → ℕ
clamp (whole n) lo hi =
    let raised = if ltb n lo then lo else n in if ltb hi raised then hi else raised
clamp _ lo hi = if ltb hi lo then hi else lo

module _ (lib : Support) where
  -- The filters in their order.
  unfoldable pub search_where : SearchPartiesInput → Text → Attempt PartyWhere
  unfolding require_non_empty_filter
  search_where i tenant = do
    name ← require_non_empty_filter lib i.name (lit "name") max_party_name_length (search_tool ∷ [])
    party_type ←
        require_non_empty_filter lib i.party_type (lit "partyType") max_party_type_length
          (search_tool ∷ [])
    role_type ←
        require_non_empty_filter lib i.role_type (lit "roleType") max_role_type_length
          (search_tool ∷ lit "get_type_table_values" ∷ [])
    returns
        (record { tenant_id = tenant; name = name; party_type = party_type; role_type = role_type })
