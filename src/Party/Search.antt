-- ===== src/Party/Search.antt =====
-- `searchParties` of party.service.ts: the filters, the clamped page, the count and the page of rows.
pub mod Filters
pub mod Pages
pub mod Order
pub mod Walk
pub mod Isolation
use besterp.Prelude.{
  ℕ, Bool, true, ◌&&◌, ◌||◌, List, [], ◌∷◌, Option, none, some, ltb, ◌==◌, if◌then◌else◌, length,
  take, drop, any, select, map,
}
use besterp.Text.{Text, lit, text_eq}
use besterp.Directory.{PartyRow, RoleRow, Directory, is_active}
use besterp.Run.{M, pure, ◌>>=◌, ◌>>◌}
use besterp.Support.{Support}
use besterp.Platform.{Platform}
use besterp.Limits.{
  max_tenant_id_length, default_search_limit, min_search_limit, max_search_limit, min_search_offset,
  max_search_offset,
}
use besterp.PrismaErrors.{compute_has_more}
use besterp.Party.Fields.{require_string_field}
use besterp.Party.Search.Filters.{
  SearchPartiesInput, PartyWhere, search_tool, or_default, require_integer_page_param, clamp,
  search_where,
}
use besterp.Party.Results.{
  PartyWithIncludes, PartyResult, include_party, to_party_result, mapped, attempt, read,
  tenant_scoped,
}

pub record SearchPartiesResult : Type 0 where
  pub items : List PartyResult
  pub total : ℕ
  pub limit : ℕ
  pub offset : ℕ
  pub has_more : Bool

-- A filter that is not given, or is empty, is no condition.
abbrev holds_if : Option Text → (Text → Bool) → Bool
holds_if none p = true
holds_if (some s) p = length s == 0 || p s

-- The order `createdAt` descending, then `partyId` ascending.
module _ (env : Platform) where
  unfoldable pub satisfies : PartyWhere → List RoleRow → PartyRow → Bool
  unfolding is_active
  satisfies w roles p =
      text_eq p.tenant_id w.tenant_id
      && holds_if w.name (env.contains_insensitive p.name)
      && holds_if w.party_type (env.equals_insensitive p.party_type.name)
      && holds_if w.role_type (λ name.
        any
          (λ r.
            text_eq r.party_id p.party_id
            && env.equals_insensitive r.role_type.name name
            && is_active r)
          roles)

  unfoldable pub before : PartyRow → PartyRow → Bool
  before p q =
      ltb q.created_at p.created_at
      || p.created_at == q.created_at && env.id_before p.party_id q.party_id

  unfoldable pub insert_ordered : PartyRow → List PartyRow → List PartyRow
  unfolding before
  insert_ordered p [] = p ∷ []
  insert_ordered p (q ∷ qs) =
      let rest = insert_ordered p qs in if before q p then q ∷ rest else p ∷ q ∷ qs

  -- `orderBy`.
  unfoldable pub order : List PartyRow → List PartyRow
  unfolding insert_ordered
  order [] = []
  order (p ∷ ps) = insert_ordered p (order ps)

  -- The rows that the conditions select.
  unfoldable pub matching : PartyWhere → Directory → List PartyRow
  unfolding satisfies
  matching w t = select (satisfies w t.roles) t.parties

  -- `party.findMany` with `skip` and `take`.
  unfoldable pub find_page : PartyWhere → ℕ → ℕ → Directory → List PartyWithIncludes
  unfolding order matching include_party
  find_page w skip limit t =
      map (include_party t.roles) (take limit (drop skip (order (matching w t))))

  unfoldable pub search_result : ℕ → ℕ → ℕ → List PartyWithIncludes → SearchPartiesResult
  unfolding to_party_result compute_has_more
  search_result limit offset total items = record {
    items = map (to_party_result env) items;
    total = total;
    limit = limit;
    offset = offset;
    has_more = compute_has_more offset limit total;
  }

module _ (lib : Support) (env : Platform) where
  unfoldable pub search_parties : SearchPartiesInput → M SearchPartiesResult
  unfolding require_string_field require_integer_page_param clamp tenant_scoped search_where mapped
      read matching find_page search_result
  search_parties i = do
    tenant ←
        attempt (require_string_field i.tenant_id (lit "tenantId") max_tenant_id_length search_tool)
    attempt (require_integer_page_param (or_default i.limit default_search_limit) (lit "limit"))
    attempt (require_integer_page_param (or_default i.offset min_search_offset) (lit "offset"))
    let limit = clamp (or_default i.limit default_search_limit) min_search_limit max_search_limit
    let offset = clamp (or_default i.offset min_search_offset) min_search_offset max_search_offset
    scope ← tenant_scoped lib tenant
    conditions ← attempt (search_where lib i tenant)
    total ←
        mapped env search_tool (lit "party")
          (read (λ s. length (matching env conditions s.directory)))
    items ←
        mapped env search_tool (lit "party")
          (read (λ s. find_page env conditions offset limit s.directory))
    pure (search_result env limit offset total items)
