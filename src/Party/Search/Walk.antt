-- ===== src/Party/Search/Walk.antt =====
-- A caller that follows the pages of a search: while a page says that there is more, the next one starts
-- at its offset plus its limit.
use besterp.Prelude.{
  ℕ, zero, suc, ◌+◌, ◌*◌, ◌≤◌, ◌<◌, ◌≡◌, refl, ap, ◌∙◌, Bool, true, false, List, [], ◌++◌, some,
  arith, length, Bool-cases, inl, inr, map,
}
use besterp.Text.{Text, lit}
use besterp.Value.{string}
use besterp.Directory.{PartyRow}
use besterp.Store.{Store}
use besterp.Run.{Run, done, M, ◌>>=◌, pure, quiet, query, arrive, fault}
use besterp.Run.Laws.{bind-done}
use besterp.Support.{Support, returns}
use besterp.Platform.{Platform}
use besterp.Tenant.{validate_tenant_id}
use besterp.Limits.{max_tenant_id_length, max_search_limit, max_search_offset}
use besterp.PrismaErrors.{compute_has_more}
use besterp.Party.Fields.{require_string_field}
use besterp.Party.Results.{include_party, to_party_result, PartyResult, mapped, read, tenant_scoped}
use besterp.Party.Search.Filters.{
  SearchPartiesInput, PartyWhere, whole, search_tool, require_integer_page_param, search_where,
}
use besterp.Party.Search.{
  order, SearchPartiesResult, matching, find_page, search_result, search_parties,
}
use mathlib.Core.List.{Perm}
use besterp.Party.Search.Order.{IsCollation, IsOrdered, order-IsOrdered, order-perm}
use besterp.Party.Search.Pages.{
  has_more_no, has_more_yes, clamp_whole, all_results, results_from, page_items, page-append,
  page_last,
}

-- What comes of a page, and of the pages after it if there is more.
follow : Bool → SearchPartiesResult → M (List PartyResult) → M (List PartyResult)
follow false page later = pure page.items
follow true page later = later >>= λ rest. pure (page.items ++ rest)

module _ (lib : Support) (env : Platform) where
  -- At most as many pages as given, from the offset on.
  unfoldable pub walk : ℕ → ℕ → SearchPartiesInput → M (List PartyResult)
  unfolding follow
  walk zero offset i = pure []
  walk (suc n) offset i =
      search_parties lib env (record i { offset = some (whole offset) }) >>= λ page.
      follow page.has_more page (walk n (page.offset + page.limit) i)

module _ (lib : Support) (env : Platform) (i : SearchPartiesInput) (tenant scope : Text)
    (c : PartyWhere) (limit : ℕ) (s : Store) (now : ℕ) where
  -- The input is valid, with the limit given.
  record IsSearch : Type 0 where
    pub tenant_valid :
        require_string_field i.tenant_id (lit "tenantId") max_tenant_id_length search_tool
        ≡ returns tenant
    pub scope_valid : validate_tenant_id lib (string tenant) ≡ returns scope
    pub filters_valid : search_where lib i tenant ≡ returns c
    pub limited : i.limit ≡ some (whole limit)
    pub positive : 1 ≤ limit
    pub capped : limit ≤ max_search_limit

  page_at : ℕ → SearchPartiesResult
  page_at offset =
      search_result env limit offset (length (matching env c s.directory))
        (find_page env c offset limit s.directory)

  search_page :
      (offset : ℕ)
      → IsSearch
      → offset ≤ max_search_offset
      → search_parties lib env (record i { offset = some (whole offset) }) (quiet s now)
        ≡ done (page_at offset) (quiet s now)
  unfolding search_parties search_where require_integer_page_param tenant_scoped mapped read query
      arrive fault page_at
  search_page offset h k =
      rw (h.tenant_valid, h.limited, h.scope_valid, h.filters_valid)
        (rw
          (
            clamp_whole limit 1 max_search_limit h.positive h.capped,
            clamp_whole offset 0 max_search_offset (omega arith) k,
          )
          refl)

  follow_page : ℕ → ℕ → Bool → Run (List PartyResult)
  follow_page n offset more =
      follow more (page_at offset) (walk lib env n (offset + limit) i) (quiet s now)

  walk_page :
      (n offset : ℕ)
      → IsSearch
      → offset ≤ max_search_offset
      → walk lib env (suc n) offset i (quiet s now)
        ≡ follow_page n offset (compute_has_more offset limit (length (matching env c s.directory)))
  unfolding walk follow_page page_at search_result
  walk_page n offset h k =
      bind-done (search_parties lib env (record i { offset = some (whole offset) })) _ (quiet s now)
        (search_page offset h k)

  walk_step :
      (n offset : ℕ) (rest : List PartyResult)
      → walk lib env n (offset + limit) i (quiet s now) ≡ done rest (quiet s now)
      → follow_page n offset true
        ≡ done (page_items env c s.directory offset limit ++ rest) (quiet s now)
  unfolding follow_page follow page_at search_result page_items
  walk_step n offset rest next = bind-done (walk lib env n (offset + limit) i) _ (quiet s now) next

  walk_end :
      (n offset : ℕ)
      → follow_page n offset false ≡ done (page_items env c s.directory offset limit) (quiet s now)
  unfolding follow_page follow page_at search_result page_items
  walk_end n offset = refl

  walk_last :
      (n offset : ℕ)
      → IsSearch
      → length (matching env c s.directory) ≤ max_search_offset
      → compute_has_more offset limit (length (matching env c s.directory)) ≡ false
      → follow_page n offset (compute_has_more offset limit (length (matching env c s.directory)))
        ≡ done (results_from env c s.directory offset) (quiet s now)
  walk_last n offset h few closed =
      ap (follow_page n offset) closed
      ∙ (walk_end n offset
          ∙ ap (λ items. done items (quiet s now))
              (page_last env c s.directory offset limit (
                has_more_no offset limit (length (matching env c s.directory)) few closed
                  h.positive)))

  walk_more :
      (n offset : ℕ)
      → compute_has_more offset limit (length (matching env c s.directory)) ≡ true
      → walk lib env n (offset + limit) i (quiet s now)
        ≡ done (results_from env c s.directory (offset + limit)) (quiet s now)
      → follow_page n offset (compute_has_more offset limit (length (matching env c s.directory)))
        ≡ done (results_from env c s.directory offset) (quiet s now)
  walk_more n offset further next =
      ap (follow_page n offset) further
      ∙ (walk_step n offset (results_from env c s.directory (offset + limit)) next
          ∙ ap (λ items. done items (quiet s now)) (page-append env c s.directory offset limit))

  walk_split :
      (n offset : ℕ)
      → IsSearch
      → offset ≤ max_search_offset
      → length (matching env c s.directory) ≤ max_search_offset
      → (offset + limit < length (matching env c s.directory)
          → offset + limit ≤ max_search_offset
          → walk lib env n (offset + limit) i (quiet s now)
            ≡ done (results_from env c s.directory (offset + limit)) (quiet s now))
      → walk lib env (suc n) offset i (quiet s now)
        ≡ done (results_from env c s.directory offset) (quiet s now)
  walk_split n offset h k few later =
      walk_page n offset h k
      ∙ (elim (Bool-cases (compute_has_more offset limit (length (matching env c s.directory)))) [
        | inr closed ↦ walk_last n offset h few closed
        | inl further ↦
            let (lt, le) =
              has_more_yes offset limit (length (matching env c s.directory)) further in
            walk_more n offset further (later lt le)
      ])

  walk_from :
      (n offset : ℕ)
      → IsSearch
      → offset ≤ max_search_offset
      → length (matching env c s.directory) ≤ max_search_offset
      → length (matching env c s.directory) ≤ offset + suc n * limit
      → walk lib env (suc n) offset i (quiet s now)
        ≡ done (results_from env c s.directory offset) (quiet s now)
  walk_from zero offset h k few enough =
      walk_split zero offset h k few (λ lt le. absurd (omega (arith, lt, enough)))
  walk_from (suc n) offset h k few enough =
      walk_split (suc n) offset h k few
        (λ lt le. walk_from n (offset + limit) h le few (grind arith))

  walk_results :
      (n : ℕ)
      → require_string_field i.tenant_id (lit "tenantId") max_tenant_id_length search_tool
        ≡ returns tenant
      → validate_tenant_id lib (string tenant) ≡ returns scope
      → search_where lib i tenant ≡ returns c
      → i.limit ≡ some (whole limit)
      → 1 ≤ limit
      → limit ≤ max_search_limit
      → length (matching env c s.directory) ≤ max_search_offset
      → length (matching env c s.directory) ≤ suc n * limit
      → walk lib env (suc n) 0 i (quiet s now) ≡ done (all_results env c s.directory) (quiet s now)
  unfolding results_from
  walk_results n e1 e2 e3 e4 lo hi few enough =
      walk_from n 0
        (record {
          tenant_valid = e1;
          scope_valid = e2;
          filters_valid = e3;
          limited = e4;
          positive = lo;
          capped = hi;
        })
        (omega arith) few (omega (arith, enough))

  -- With the database quiet, for a valid search with a limit of 1 to 500, and ids that the
  -- database sorts in a strict weak order, a caller who follows hasMore, from one offset to the
  -- next by the limit, gets after n + 1 pages at most each matching party once and nothing else,
  -- the latest created first and those of one instant by their id, if there are at most (n + 1) *
  -- limit matches and at most 10000.
  pub walk-all :
      (n : ℕ)
      → require_string_field i.tenant_id (lit "tenantId") max_tenant_id_length search_tool
        ≡ returns tenant
      → validate_tenant_id lib (string tenant) ≡ returns scope
      → search_where lib i tenant ≡ returns c
      → i.limit ≡ some (whole limit)
      → 1 ≤ limit
      → limit ≤ max_search_limit
      → length (matching env c s.directory) ≤ max_search_offset
      → length (matching env c s.directory) ≤ suc n * limit
      → IsCollation env
      → (rows : List PartyRow) × Perm rows (matching env c s.directory)
        × IsOrdered env rows
        × (walk lib env (suc n) 0 i (quiet s now)
            ≡ done
                (map (to_party_result env) (map (include_party s.directory.roles) rows))
                (quiet s now))
  walk-all n e1 e2 e3 e4 lo hi few enough collation = (
    order env (matching env c s.directory),
    order-perm env (matching env c s.directory),
    order-IsOrdered env collation (matching env c s.directory),
    walk_results n e1 e2 e3 e4 lo hi few enough,
  )
