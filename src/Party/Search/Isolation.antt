-- ===== src/Party/Search/Isolation.antt =====
-- A search sees nothing of other tenants.
use besterp.Prelude.{
  ℕ, ◌≡◌, refl, sym, ap, subst, ◌∙◌, Bool, true, List, [], ◌∷◌, arith, length, select, take, drop,
  map,
}
use besterp.Text.{Text, lit, text_eq}
use besterp.Value.{string}
use besterp.Directory.{PartyRow, RoleRow}
use besterp.Store.{Store}
use besterp.Run.{done, quiet, query, arrive, fault}
use besterp.Run.Returned.{done_value}
use besterp.Support.{Support, returns, bind_cases, returns-eq_returns}
use besterp.Platform.{Platform}
use besterp.Tenant.{validate_tenant_id}
use besterp.Limits.{
  max_tenant_id_length, max_party_name_length, max_party_type_length, max_role_type_length,
  default_search_limit, min_search_limit, max_search_limit, min_search_offset, max_search_offset,
}
use besterp.Party.Fields.{require_string_field, require_non_empty_filter}
use besterp.Party.Results.{include_party, mapped, read, tenant_scoped}
use besterp.Party.Results.Laws.{attempt_bind_returned}
use besterp.Party.Search.Filters.{
  SearchPartiesInput, PartyWhere, search_tool, or_default, require_integer_page_param, clamp,
  search_where,
}
use besterp.Party.Search.{
  SearchPartiesResult, satisfies, order, matching, find_page, search_result, search_parties,
}

-- The parties of a tenant.
abbrev pub own_parties : Text → Store → List PartyRow
own_parties tenant s = select (λ p. text_eq p.tenant_id tenant) s.directory.parties

select-select :
    {A : Type 0} (p q : A → Bool) (xs : List A)
    → ((x : A) → q x ≡ true → p x ≡ true)
    → select q (select p xs) ≡ select q xs
select-select p q [] h = refl
select-select p q (x ∷ xs) h = ground (arith, h x, select-select p q xs h)

module _ (env : Platform) where
  satisfies-own :
      (c : PartyWhere) (roles : List RoleRow) (p : PartyRow)
      → satisfies env c roles p ≡ true
      → text_eq p.tenant_id c.tenant_id ≡ true
  unfolding satisfies
  satisfies-own c roles p h = ground arith

  -- What matches is found among the tenant's own parties.
  matching-own :
      (c : PartyWhere) (s s' : Store)
      → own_parties c.tenant_id s ≡ own_parties c.tenant_id s'
      → s.directory.roles ≡ s'.directory.roles
      → matching env c s.directory ≡ matching env c s'.directory
  unfolding matching
  matching-own c s s' parties roles =
      sym (select-select _ _ s.directory.parties (satisfies-own c s.directory.roles))
      ∙ (ap (select (satisfies env c s.directory.roles)) parties
          ∙ (ap (λ rs. select (satisfies env c rs) (own_parties c.tenant_id s')) roles
              ∙ select-select _ _ s'.directory.parties (satisfies-own c s'.directory.roles)))

module _ (lib : Support) (env : Platform) where
  search_where-tenant :
      (i : SearchPartiesInput) (tenant : Text) (c : PartyWhere)
      → search_where lib i tenant ≡ returns c
      → c.tenant_id ≡ tenant
  unfolding search_where
  search_where-tenant i tenant c h =
      bind_cases
        (require_non_empty_filter lib i.name (lit "name") max_party_name_length (search_tool ∷ []))
        _ _ h
        (λ name e1 h1.
          bind_cases
            (require_non_empty_filter lib i.party_type (lit "partyType") max_party_type_length
              (search_tool ∷ []))
            _ _ h1
            (λ party_type e2 h2.
              bind_cases
                (require_non_empty_filter lib i.role_type (lit "roleType") max_role_type_length
                  (search_tool ∷ lit "get_type_table_values" ∷ []))
                _ _ h2 (λ role_type e3 h3. ap (λ x. x.tenant_id) (sym (returns-eq_returns h3)))))

  limit_of : SearchPartiesInput → ℕ
  limit_of i = clamp (or_default i.limit default_search_limit) min_search_limit max_search_limit

  offset_of : SearchPartiesInput → ℕ
  offset_of i = clamp (or_default i.offset min_search_offset) min_search_offset max_search_offset

  result_of : SearchPartiesInput → PartyWhere → Store → SearchPartiesResult
  result_of i c s =
      search_result env (limit_of i) (offset_of i) (length (matching env c s.directory))
        (find_page env c (offset_of i) (limit_of i) s.directory)

  result_of-isolated :
      (i : SearchPartiesInput) (c : PartyWhere) (s s' : Store)
      → own_parties c.tenant_id s ≡ own_parties c.tenant_id s'
      → s.directory.roles ≡ s'.directory.roles
      → result_of i c s ≡ result_of i c s'
  unfolding result_of find_page
  result_of-isolated i c s s' parties roles =
      ap (λ rows. from rows s.directory.roles) (matching-own env c s s' parties roles)
      ∙ ap (from (matching env c s'.directory)) roles
    where
      from : List PartyRow → List RoleRow → SearchPartiesResult
      from rows rs =
          search_result env (limit_of i) (offset_of i) (length rows)
            (map (include_party rs) (take (limit_of i) (drop (offset_of i) (order env rows))))

  -- In two quiet databases that have the same parties of the tenant and the same roles, whatever
  -- else they have of other tenants, a search that returns in the one returns the same in the
  -- other.
  pub search-isolated :
      (i : SearchPartiesInput) (tenant : Text) (s s' : Store) (now : ℕ) (r : SearchPartiesResult)
      → require_string_field i.tenant_id (lit "tenantId") max_tenant_id_length search_tool
        ≡ returns tenant
      → own_parties tenant s ≡ own_parties tenant s'
      → s.directory.roles ≡ s'.directory.roles
      → search_parties lib env i (quiet s now) ≡ done r (quiet s now)
      → search_parties lib env i (quiet s' now) ≡ done r (quiet s' now)
  unfolding search_parties tenant_scoped mapped read query arrive fault result_of limit_of offset_of
  search-isolated i tenant s s' now r e1 parties roles h =
      attempt_bind_returned
        (require_string_field i.tenant_id (lit "tenantId") max_tenant_id_length search_tool) _
        (quiet s now) r (quiet s now) h
        (λ tenant' e1' h1.
          attempt_bind_returned
            (require_integer_page_param (or_default i.limit default_search_limit) (lit "limit")) _
            (quiet s now) r (quiet s now) h1
            (λ u e2 h2.
              attempt_bind_returned
                (require_integer_page_param (or_default i.offset min_search_offset) (lit "offset"))
                _ (quiet s now) r (quiet s now) h2
                (λ v e3 h3.
                  attempt_bind_returned (validate_tenant_id lib (string tenant')) _ (quiet s now) r
                    (quiet s now) h3
                    (λ scope e4 h4.
                      attempt_bind_returned (search_where lib i tenant') _ (quiet s now) r
                        (quiet s now) h4
                        (λ c e5 h5.
                          let tenant_eq =
                            search_where-tenant i tenant' c e5
                            ∙ returns-eq_returns (sym e1' ∙ e1) in
                          let same =
                            result_of-isolated i c s s'
                              (subst (λ t. own_parties t s ≡ own_parties t s') (sym tenant_eq)
                                parties)
                              roles in
                          rw (e1', e2, e3, e4, e5)
                            (ap (λ x. done x (quiet s' now)) (sym same ∙ done_value h5)))))))
