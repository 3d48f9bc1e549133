-- ===== src/Party/Create/Laws.antt =====
-- A party that was created is the party that is found.
use besterp.Prelude.{
  ℕ, ◌≡◌, refl, sym, ap, subst, ◌∙◌, true, [], ◌∷◌, Option, none, some, Bool-cases, inl, inr,
}
use besterp.Text.{Text, lit, text_eq, includes}
use besterp.Text.Laws.{text_eq_refl}
use besterp.Value.{Value, string}
use besterp.Directory.{TypeRow, Person, Organization, owns, find_party, find_named, find_type}
use besterp.Store.{Store}
use besterp.Run.{World, done, quiet, query, Commit, commit, arrive, fault}
use besterp.Run.Keeps.{commit_store}
use besterp.Tenant.{validate_tenant_id}
use besterp.Run.Returned.{done_value, done_world, commit_value, bind_returned, query_returned}
use besterp.Support.{Support, Attempt, returns, fails, bind_cases, returns-eq_returns}
use besterp.Platform.{Platform}
use besterp.Limits.{max_tenant_id_length}
use besterp.Party.Fields.{uuid_regex, require_string_field, require_uuid}
use besterp.Party.Fields.Laws.{require_string_field-tool, require_uuid-uuid}
use besterp.Party.Subtypes.{create_tool, sanitize_person, sanitize_organization}
use besterp.Party.Draft.{
  CreatePartyInput, PartyDraft, person_row, organization_row, validate_input, sanitize_optional,
  strip_description, sanitize_create_party_input, check_visible, prepare_party,
}
use besterp.Party.Results.{
  PartyWithIncludes, PartyResult, include_party, to_party_result, mapped, read, tenant_scoped,
}
use besterp.Party.Results.Laws.{attempt_bind_returned, mapped_returned}
use besterp.Party.Create.{
  new_party, insert_found, insert_party, transaction_body, create_party_transaction, store_party,
  create_party, found_party, find_included, get_party, party_types_with_subtype,
}

-- The row is at the head of the table, under the id given and in the tenant of the draft, and the
-- result is the row with what is joined to it.
abbrev Stored : Platform → PartyDraft → Store → PartyWithIncludes → Store → Type 0
Stored env d s p s' =
    (p.party.party_id ≡ env.random_uuid s.directory)
    × (p.party.tenant_id ≡ d.tenant_id)
    × (s'.directory.parties ≡ p.party ∷ s.directory.parties)
    × (include_party s'.directory.roles p.party ≡ p)

module _ (lib : Support) (env : Platform) where
  insert_found-Stored :
      (d : PartyDraft) (person : Option Person) (organization : Option Organization) (now : ℕ)
      (s : Store) (found : Option TypeRow) (p : PartyWithIncludes) (s' : Store)
      → insert_found lib env d person organization now s found ≡ commit p s'
      → Stored env d s p s'
  unfolding insert_found new_party include_party
  insert_found-Stored d person organization now s none p s' h = cc
  insert_found-Stored d person organization now s (some type) p s' h =
      subst (λ y. Stored env d s p y) (commit_store h)
        (subst (λ x. Stored env d s x (stored type)) (commit_value h) (refl, refl, refl, refl))
    where
      stored : TypeRow → Store
      stored type = record s {
        directory = record s.directory {
          parties =
              new_party lib env d type person organization now s.directory ∷ s.directory.parties;
        };
      }

  transaction_body-Stored :
      (d : PartyDraft) (now : ℕ) (s : Store) (person : Attempt (Option Person))
      (organization : Attempt (Option Organization)) (p : PartyWithIncludes) (s' : Store)
      → transaction_body lib env d now s person organization ≡ commit p s'
      → Stored env d s p s'
  unfolding transaction_body insert_party
  transaction_body-Stored d now s (fails e) o p s' h = cc
  transaction_body-Stored d now s (returns person) (fails e) p s' h = cc
  transaction_body-Stored d now s (returns person) (returns o) p s' h =
      insert_found-Stored d person o now s (find_type d.type_id s.directory.party_types) p s' h

  transaction-Stored :
      (d : PartyDraft) (s : Store) (now : ℕ) (p : PartyWithIncludes) (w : World)
      → create_party_transaction lib env d (quiet s now) ≡ done p w
      → (s' : Store) × (w ≡ quiet s' now) × Stored env d s p s'
  unfolding create_party_transaction
  transaction-Stored d s now p w h =
      query_returned body s now p w
        (mapped_returned env create_tool (lit "party") (query body) (quiet s now) p w h)
        (λ s' e ew. (
          s',
          ew,
          transaction_body-Stored d now s (person_row lib env d.person)
              (organization_row lib env d.organization) p s' e,
        ))
    where
      body : ℕ → Store → Commit PartyWithIncludes
      body now s =
          transaction_body lib env d now s (person_row lib env d.person)
            (organization_row lib env d.organization)

  store_party-Stored :
      (type : Text) (d : PartyDraft) (found : Option TypeRow) (s : Store) (now : ℕ)
      (p : PartyWithIncludes) (w : World)
      → store_party lib env type d found (quiet s now) ≡ done p w
      → (s' : Store) × (w ≡ quiet s' now) × Stored env d s p s'
  unfolding store_party
  store_party-Stored type d none s now p w h = cc
  store_party-Stored type d (some row) s now p w h =
      elim (Bool-cases (includes (env.to_upper_case type) party_types_with_subtype)) [
        | inl one ↦ transaction-Stored (record d { type_id = row.type_id }) s now p w (rw one at h)
        | inr other ↦ cc (rw other at h)
      ]

  sanitized_tenant :
      (i : CreatePartyInput) (tenant name : Text) (description : Option Text) (d : PartyDraft)
      → sanitize_create_party_input lib env i tenant name description ≡ returns d
      → d.tenant_id ≡ tenant
  unfolding sanitize_create_party_input
  sanitized_tenant i tenant name description d h =
      bind_cases (sanitize_optional (sanitize_person lib env) i.person) _ _ h (λ p e1 h1.
        bind_cases (sanitize_optional (sanitize_organization lib env) i.organization) _ _ h1
          (λ o e2 h2. bind_cases (lib.strip_html_tags name) _ _ h2 (λ n e3 h3.
            bind_cases (strip_description lib env description) _ _ h3
              (λ t e4 h4. ap (λ x. x.tenant_id) (sym (returns-eq_returns h4))))))

  prepare_party-tenant :
      (i : CreatePartyInput) (tenant type : Text) (d : PartyDraft)
      → prepare_party lib env i tenant ≡ returns (type, d)
      → d.tenant_id ≡ tenant
  unfolding prepare_party
  prepare_party-tenant i tenant type d h =
      bind_cases (validate_input lib env i) _ _ h (λ (type', name, description) e1 h1.
        bind_cases (sanitize_create_party_input lib env i tenant name description) _ _ h1
          (λ d' e2 h2. bind_cases (check_visible lib env d') _ _ h2 (λ u e3 h3.
            ap (λ x. x.1.tenant_id) (sym (returns-eq_returns h3))
            ∙ sanitized_tenant i tenant name description d' e2)))

  found-Stored :
      (tenant : Text) (d : PartyDraft) (s : Store) (p : PartyWithIncludes) (s' : Store)
      → Stored env d s p s'
      → d.tenant_id ≡ tenant
      → find_included p.party.party_id tenant s'.directory ≡ some p
  unfolding find_included find_party
  found-Stored tenant d s p s' (id_eq, tenant_eq, rows, joined) e =
      rw (rows, owned) (ap some joined)
    where
      owned : owns p.party.party_id tenant p.party ≡ true
      owned = rw (text_eq_refl p.party.party_id) (
          subst (λ t. text_eq p.party.tenant_id t ≡ true) (tenant_eq ∙ e)
            (text_eq_refl p.party.tenant_id))

  -- A party that is in the tables of the tenant is found.
  get_found :
      (v : Value) (tenant scope id : Text) (s : Store) (now : ℕ) (p : PartyWithIncludes)
      → require_string_field v (lit "tenantId") max_tenant_id_length (lit "get_party")
        ≡ returns tenant
      → validate_tenant_id lib (string tenant) ≡ returns scope
      → require_uuid lib (string id) (lit "partyId") (lit "get_party" ∷ []) ≡ returns id
      → find_included id tenant s.directory ≡ some p
      → get_party lib env v (string id) (quiet s now) ≡ done (to_party_result env p) (quiet s now)
  unfolding get_party tenant_scoped found_party mapped read query arrive fault
  get_found v tenant scope id s now p e1 e2 e3 e4 = rw (e1, e3, e2, e4) refl

  -- With the database quiet, where the id that it gives to a new party is a UUID which the removal
  -- of tags leaves alone, and createParty has returned a party, getParty with the same tenant and
  -- that party's id returns the same party and changes nothing.
  pub get-create :
      (i : CreatePartyInput) (s : Store) (now : ℕ) (r : PartyResult) (w : World)
      → uuid_regex (env.random_uuid s.directory) ≡ true
      → lib.strip_html_tags (env.random_uuid s.directory) ≡ returns (env.random_uuid s.directory)
      → create_party lib env i (quiet s now) ≡ done r w
      → get_party lib env i.tenant_id (string r.party_id) w ≡ done r w
  unfolding create_party tenant_scoped mapped read query arrive fault to_party_result
  get-create i s now r w uuid plain h =
      attempt_bind_returned
        (require_string_field i.tenant_id (lit "tenantId") max_tenant_id_length create_tool) _
        (quiet s now) r w h
        (λ tenant e1 h1.
          attempt_bind_returned (prepare_party lib env i tenant) _ (quiet s now) r w h1
            (λ (type, d) e2 h2.
              attempt_bind_returned (validate_tenant_id lib (string tenant)) _ (quiet s now) r w h2
                (λ scope e3 h3.
                  bind_returned (store_party lib env type d (found_type type)) _ (quiet s now) r w
                    h3
                    (λ p v e4 h4.
                      let (s', ew, stored) =
                        store_party-Stored type d (found_type type) s now p v e4 in
                      let found =
                        found-Stored tenant d s p s' stored
                          (prepare_party-tenant i tenant type d e2) in
                      let id_eq = stored.0 in
                      let required =
                        require_uuid-uuid lib p.party.party_id (lit "partyId")
                          (lit "get_party" ∷ []) (subst (λ x. uuid_regex x ≡ true) (sym id_eq) uuid)
                          (subst (λ x. lib.strip_html_tags x ≡ returns x) (sym id_eq) plain) in
                      let got =
                        get_found i.tenant_id tenant scope p.party.party_id s' now p
                          (require_string_field-tool i.tenant_id (lit "tenantId")
                            max_tenant_id_length create_tool (lit "get_party") tenant e1)
                          e3 required found in
                      subst (λ x. get_party lib env i.tenant_id (string x.party_id) w ≡ done x w)
                        (done_value h4)
                        (subst
                          (λ y.
                            get_party lib env i.tenant_id (string p.party.party_id) y
                            ≡ done (to_party_result env p) y)
                          (sym ew ∙ done_world h4) got)))))
    where
      found_type : Text → Option TypeRow
      found_type type =
          find_named (λ n. env.equals_insensitive n (env.to_upper_case type))
            s.directory.party_types
