-- ===== src/Party/Sound/Create.antt =====
-- `createParty` keeps the tables sound.
use besterp.Prelude.{
  ℕ, ◌≡◌, refl, sym, ap, subst, true, List, [], ◌∷◌, Option, none, some, arith, All, is_some,
}
use besterp.Text.{Text, lit, includes}
use besterp.Directory.{TypeRow, Person, Organization, PartyRow, Directory, find_type, has_party}
use besterp.Store.{Store}
use besterp.Run.{commit, throw}
use besterp.Run.Keeps.{commit_store, Keeps, if-Keeps, query-Keeps, bind-Keeps}
use besterp.Support.{Support, Attempt, returns, fails, bind_cases, returns-eq_returns}
use besterp.Platform.{Platform}
use besterp.Party.Draft.{
  CreatePartyInput, PartyDraft, person_row, organization_row, parse_optional, prepare_party,
}
use besterp.Party.Subtypes.{SanitizedPerson, SanitizedOrganization, create_tool}
use besterp.Party.Results.{PartyWithIncludes}
use besterp.Party.Create.{
  new_party, insert_found, insert_party, transaction_body, create_party_transaction, store_party,
  create_party, party_types_with_subtype,
}
use besterp.Party.Sound.{IsParty, IsSound, IsSoundStore}
use besterp.Party.Sound.Draft.{IsDraft, prepare_party-IsDraft}
use besterp.Party.Sound.Runs.{
  mapped-Keeps, read-Keeps, attempt-Keeps, attempt-bind-Keeps, tenant_scoped-Keeps,
}

-- A party that was there is there with one more.
pub has_party-cons :
    (p : PartyRow) (id : Text) (ps : List PartyRow)
    → has_party id ps ≡ true
    → has_party id (p ∷ ps) ≡ true
unfolding has_party
has_party-cons p id ps h = ground arith

All-linked :
    {A : Type 0} (f : A → Text) (p : PartyRow) (ps : List PartyRow) (xs : List A)
    → All (λ x. has_party (f x) ps ≡ true) xs
    → All (λ x. has_party (f x) (p ∷ ps) ≡ true) xs
All-linked f p ps [] h = tt
All-linked f p ps (x ∷ xs) h = (has_party-cons p (f x) ps h.0, All-linked f p ps xs h.1)

new_party-IsSound :
    (t : Directory) (p : PartyRow)
    → IsSound t
    → IsParty p
    → IsSound (record t { parties = p ∷ t.parties })
new_party-IsSound t p sound h = record {
  parties_valid = (h, sound.parties_valid);
  roles_linked = All-linked (λ r. r.party_id) p t.parties t.roles sound.roles_linked;
  contacts_linked = All-linked (λ c. c.party_id) p t.parties t.contacts sound.contacts_linked;
  roles_apart = sound.roles_apart;
  emails_apart = sound.emails_apart;
  phones_apart = sound.phones_apart;
}

module _ (lib : Support) (env : Platform) where
  person_row-is_some :
      (p : Option SanitizedPerson) (r : Option Person)
      → person_row lib env p ≡ returns r
      → is_some r ≡ is_some p
  unfolding person_row
  person_row-is_some none r h = ap is_some (sym (returns-eq_returns h))
  person_row-is_some (some p) r h =
      bind_cases (parse_optional lib env p.birth_date) _ _ h
        (λ d e k. ap is_some (sym (returns-eq_returns k)))

  organization_row-is_some :
      (o : Option SanitizedOrganization) (r : Option Organization)
      → organization_row lib env o ≡ returns r
      → is_some r ≡ is_some o
  unfolding organization_row
  organization_row-is_some none r h = ap is_some (sym (returns-eq_returns h))
  organization_row-is_some (some o) r h =
      bind_cases (parse_optional lib env o.registration_date) _ _ h
        (λ d e k. ap is_some (sym (returns-eq_returns k)))

  insert_party-IsSound :
      (d : PartyDraft) (p : Option Person) (o : Option Organization) (now : ℕ) (s : Store)
      (a : PartyWithIncludes) (s' : Store)
      → IsDraft d
      → is_some p ≡ is_some d.person
      → is_some o ≡ is_some d.organization
      → IsSoundStore s
      → insert_party lib env d p o now s ≡ commit a s'
      → IsSoundStore s'
  unfolding insert_party insert_found new_party
  insert_party-IsSound d p o now s a s' draft hp ho sound h =
      go (find_type d.type_id s.directory.party_types) h
    where
      stored : TypeRow → PartyRow
      stored type = new_party lib env d type p o now s.directory

      stored-IsParty : (type : TypeRow) → IsParty (stored type)
      stored-IsParty type = record {
        one_subtype = rw (hp, ho) draft.one_subtype;
        named = draft.named;
        bounded = draft.bounded;
      }

      go :
          (found : Option TypeRow)
          → insert_found lib env d p o now s found ≡ commit a s'
          → IsSoundStore s'
      go none k = cc
      go (some type) k =
          subst IsSoundStore (commit_store k)
            (new_party-IsSound s.directory (stored type) sound (stored-IsParty type))

  transaction_body-IsSound :
      (d : PartyDraft) (now : ℕ) (s : Store) (p : Attempt (Option Person))
      (o : Attempt (Option Organization)) (a : PartyWithIncludes) (s' : Store)
      → IsDraft d
      → ((r : Option Person) → p ≡ returns r → is_some r ≡ is_some d.person)
      → ((r : Option Organization) → o ≡ returns r → is_some r ≡ is_some d.organization)
      → IsSoundStore s
      → transaction_body lib env d now s p o ≡ commit a s'
      → IsSoundStore s'
  unfolding transaction_body
  transaction_body-IsSound d now s (fails e) o a s' draft hp ho sound h = cc
  transaction_body-IsSound d now s (returns p) (fails e) a s' draft hp ho sound h = cc
  transaction_body-IsSound d now s (returns p) (returns o) a s' draft hp ho sound h =
      insert_party-IsSound d p o now s a s' draft (hp p refl) (ho o refl) sound h

  pub create_party_transaction-Keeps :
      (d : PartyDraft) → IsDraft d → Keeps IsSoundStore (create_party_transaction lib env d)
  unfolding create_party_transaction
  create_party_transaction-Keeps d draft =
      mapped-Keeps IsSoundStore env create_tool (lit "party") _ (
        query-Keeps IsSoundStore _ (λ now s a s' sound h.
          transaction_body-IsSound d now s (person_row lib env d.person)
            (organization_row lib env d.organization) a s' draft (person_row-is_some d.person)
            (organization_row-is_some d.organization) sound h))

  store_party-Keeps :
      (type : Text) (d : PartyDraft) (found : Option TypeRow)
      → (includes (env.to_upper_case type) party_types_with_subtype ≡ true → IsDraft d)
      → Keeps IsSoundStore (store_party lib env type d found)
  unfolding store_party
  store_party-Keeps type d none h = λ w kept. kept
  store_party-Keeps type d (some row) h =
      if-Keeps IsSoundStore (includes (env.to_upper_case type) party_types_with_subtype)
        (create_party_transaction lib env (record d { type_id = row.type_id })) (throw _)
        (λ one. create_party_transaction-Keeps (record d { type_id = row.type_id }) (typed one))
        (λ other w kept. kept)
    where
      typed :
          includes (env.to_upper_case type) party_types_with_subtype ≡ true
          → IsDraft (record d { type_id = row.type_id })
      typed one = record {
        one_subtype = (h one).one_subtype;
        named = (h one).named;
        bounded = (h one).bounded;
      }

  pub create_party-Keeps : (i : CreatePartyInput) → Keeps IsSoundStore (create_party lib env i)
  unfolding create_party
  create_party-Keeps i = bind-Keeps IsSoundStore _ _ (attempt-Keeps IsSoundStore _) (λ tenant.
      attempt-bind-Keeps IsSoundStore (prepare_party lib env i tenant) _ (λ (type, d) e.
        bind-Keeps IsSoundStore _ _ (tenant_scoped-Keeps IsSoundStore lib tenant) (λ scope.
          bind-Keeps IsSoundStore _ _
            (mapped-Keeps IsSoundStore env create_tool (lit "party") _ (read-Keeps IsSoundStore _))
            (λ found.
              bind-Keeps IsSoundStore _ _
                (store_party-Keeps type d found (prepare_party-IsDraft lib env i tenant type d e))
                (λ p w kept. kept)))))
