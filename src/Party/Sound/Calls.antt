-- ===== src/Party/Sound/Calls.antt =====
-- Every service keeps the tables sound, and so does any sequence of calls.
use besterp.Prelude.{List, [], ◌∷◌, ℕ, Option, none, some, length}
use besterp.Text.{Text, lit}
use besterp.Value.{Value}
use besterp.Run.{World, Run, done, throws}
use besterp.Run.Keeps.{Kept, Keeps, KeepsRun, bind-Keeps}
use besterp.Support.{Support}
use besterp.Platform.{Platform}
use besterp.Limits.{
  max_tenant_id_length, default_search_limit, min_search_limit, max_search_limit, min_search_offset,
  max_search_offset,
}
use besterp.Party.Fields.{require_string_field, require_uuid}
use besterp.Party.Results.{PartyWithIncludes, mapped, read, tenant_scoped}
use besterp.Party.Create.{get_party, found_party, find_included}
use besterp.Party.Search.Filters.{
  SearchPartiesInput, search_tool, or_default, require_integer_page_param, clamp, search_where,
}
use besterp.Party.Search.{matching, find_page, search_parties}
use besterp.Party.Calls.{
  Call, creates, gets, searches, adds_role, adds_contact, last_world, call, calls,
}
use besterp.Party.Sound.{IsSoundStore}
use besterp.Party.Sound.Runs.{mapped-Keeps, read-Keeps, attempt-bind-Keeps, tenant_scoped-Keeps}
use besterp.Party.Sound.Create.{create_party-Keeps}
use besterp.Party.Sound.Roles.{add_party_role-Keeps}
use besterp.Party.Sound.Contacts.{add_contact_mechanism-Keeps}

last_world-Kept :
    {A : Type 0} (r : Run A) → KeepsRun IsSoundStore r → Kept IsSoundStore (last_world r)
last_world-Kept (done a w) h = h
last_world-Kept (throws e w) h = h

module _ (lib : Support) (env : Platform) where
  found_party-Keeps :
      (id tenant : Text) (o : Option PartyWithIncludes)
      → Keeps IsSoundStore (found_party lib env id tenant o)
  unfolding found_party
  found_party-Keeps id tenant none w kept = kept
  found_party-Keeps id tenant (some p) w kept = kept

  get_party-Keeps : (tenant id : Value) → Keeps IsSoundStore (get_party lib env tenant id)
  unfolding get_party
  get_party-Keeps tenant_id party_id =
      attempt-bind-Keeps IsSoundStore
        (require_string_field tenant_id (lit "tenantId") max_tenant_id_length (lit "get_party")) _
        (λ tenant e1.
          attempt-bind-Keeps IsSoundStore
            (require_uuid lib party_id (lit "partyId") (lit "get_party" ∷ [])) _
            (λ id e2.
              bind-Keeps IsSoundStore (tenant_scoped lib tenant) _
                (tenant_scoped-Keeps IsSoundStore lib tenant)
                (λ scope.
                  bind-Keeps IsSoundStore
                    (mapped env (lit "get_party") (lit "party")
                      (read (λ s. find_included id tenant s.directory)))
                    (found_party lib env id tenant)
                    (mapped-Keeps IsSoundStore env (lit "get_party") (lit "party") _
                      (read-Keeps IsSoundStore _))
                    (found_party-Keeps id tenant))))

  search_parties-Keeps : (i : SearchPartiesInput) → Keeps IsSoundStore (search_parties lib env i)
  unfolding search_parties
  search_parties-Keeps i =
      attempt-bind-Keeps IsSoundStore
        (require_string_field i.tenant_id (lit "tenantId") max_tenant_id_length search_tool) _
        (λ tenant e1.
          attempt-bind-Keeps IsSoundStore
            (require_integer_page_param (or_default i.limit default_search_limit) (lit "limit")) _
            (λ u e2.
              attempt-bind-Keeps IsSoundStore
                (require_integer_page_param (or_default i.offset min_search_offset) (lit "offset"))
                _
                (λ v e3.
                  bind-Keeps IsSoundStore (tenant_scoped lib tenant) _
                    (tenant_scoped-Keeps IsSoundStore lib tenant)
                    (λ scope.
                      attempt-bind-Keeps IsSoundStore (search_where lib i tenant) _
                        (λ conditions e4.
                          bind-Keeps IsSoundStore
                            (mapped env search_tool (lit "party")
                              (read (λ s. length (matching env conditions s.directory))))
                            _
                            (mapped-Keeps IsSoundStore env search_tool (lit "party") _
                              (read-Keeps IsSoundStore _))
                            (λ total.
                              bind-Keeps IsSoundStore
                                (mapped env search_tool (lit "party") (
                                  read (λ s.
                                    find_page env conditions (offset_of i) (limit_of i)
                                      s.directory)))
                                _
                                (mapped-Keeps IsSoundStore env search_tool (lit "party") _
                                  (read-Keeps IsSoundStore _))
                                (λ items w kept. kept)))))))
    where
      limit_of : SearchPartiesInput → ℕ
      limit_of i = clamp (or_default i.limit default_search_limit) min_search_limit max_search_limit

      offset_of : SearchPartiesInput → ℕ
      offset_of i =
          clamp (or_default i.offset min_search_offset) min_search_offset max_search_offset

  call-Kept : (c : Call) (w : World) → Kept IsSoundStore w → Kept IsSoundStore (call lib env c w)
  unfolding call
  call-Kept (creates i) w h = last_world-Kept _ (create_party-Keeps lib env i w h)
  call-Kept (gets tenant id) w h = last_world-Kept _ (get_party-Keeps tenant id w h)
  call-Kept (searches i) w h = last_world-Kept _ (search_parties-Keeps i w h)
  call-Kept (adds_role i) w h = last_world-Kept _ (add_party_role-Keeps lib env i w h)
  call-Kept (adds_contact i) w h = last_world-Kept _ (add_contact_mechanism-Keeps lib env i w h)

  -- From sound tables, in an environment that keeps them sound, after any sequence of calls of the
  -- party service, whether they return or throw, the tables are sound: every party has exactly one
  -- subtype and a name of 1 to 500 characters, every role and contact belongs to a party that is
  -- there, and no two active roles of a party have one type, no two emails of a tenant and no two
  -- phone numbers of a tenant are the same.
  pub calls-IsSound :
      (cs : List Call) (w : World) → Kept IsSoundStore w → IsSoundStore (calls lib env cs w).store
  unfolding calls
  calls-IsSound [] w h = h.0
  calls-IsSound (c ∷ cs) w h = calls-IsSound cs (call lib env c w) (call-Kept c w h)
