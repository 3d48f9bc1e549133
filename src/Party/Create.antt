-- ===== src/Party/Create.antt =====
-- `createParty` and `getParty` of party.service.ts. The log lines are left out.
pub mod Laws
use besterp.Prelude.{ℕ, List, [], ◌∷◌, ◌++◌, Option, none, some, if◌then◌else◌}
use mathlib.Core.Option as Opt
use besterp.Text.{Text, lit, includes}
use besterp.Value.{Value, string}
use besterp.Directory.{
  TypeRow, Person, Organization, PartyRow, Directory, find_party, find_named, find_type,
}
use besterp.Store.{Store}
use besterp.Run.{Thrown, M, pure, throw, query, Commit, commit, reject, ◌>>=◌, ◌>>◌}
use besterp.Support.{Support, Attempt, returns, fails}
use besterp.Platform.{Platform}
use besterp.Limits.{max_tenant_id_length}
use besterp.Errors.{context, field_context, invalid_type_value, entity_not_found}
use besterp.Party.Fields.{quoted, require_string_field, require_uuid}
use besterp.Party.Subtypes.{create_tool, person_type, organization_type}
use besterp.Party.Draft.{CreatePartyInput, PartyDraft, person_row, organization_row, prepare_party}
use besterp.Party.Results.{
  PartyWithIncludes, PartyResult, include_party, to_party_result, mapped, attempt, read,
  tenant_scoped,
}

-- PARTY_TYPES_WITH_SUBTYPE.
abbrev pub party_types_with_subtype : List Text
party_types_with_subtype = person_type ∷ organization_type ∷ []

type_context : Text → Value
type_context s = field_context (lit "partyType") ((lit "invalidValue", string s) ∷ [])

unknown_type : Text → Thrown
unfolding type_context
unknown_type s =
    invalid_type_value
      (lit "PARTY_TYPE "
        ++ quoted s
        ++ lit " is not valid. Use 'get_type_table_values' to see the available party types.")
      (lit "get_type_table_values" ∷ []) (type_context s)

no_subtype : Text → Thrown
unfolding type_context
no_subtype s =
    invalid_type_value
      (lit "PARTY_TYPE "
        ++ quoted s
        ++ lit
            " cannot be created directly — it has no party subtype. Use 'PERSON' or 'ORGANIZATION'.")
      (lit "get_type_table_values" ∷ []) (type_context s)

unfoldable pub party_not_found : Text → Text → Thrown
party_not_found id tenant =
    entity_not_found
      (lit "Party " ++ quoted id ++ lit " not found in tenant " ++ quoted tenant ++ lit ".")
      (lit "search_parties" ∷ lit "get_party" ∷ [])
      (context ((lit "partyId", string id) ∷ (lit "tenantId", string tenant) ∷ []))

-- `findUnique({ where: { partyId, tenantId }, include })`.
unfoldable pub find_included : Text → Text → Directory → Option PartyWithIncludes
find_included id tenant t = Opt.map (include_party t.roles) (find_party id tenant t.parties)

module _ (lib : Support) (env : Platform) where
  unfoldable pub new_party :
      PartyDraft → TypeRow → Option Person → Option Organization → ℕ → Directory → PartyRow
  new_party d type person organization now t = record {
    party_id = env.random_uuid t;
    party_type = type;
    tenant_id = d.tenant_id;
    name = d.name;
    description = d.description;
    person = person;
    organization = organization;
    created_at = now;
    updated_at = now;
  }

  unfoldable pub insert_found :
      PartyDraft
      → Option Person
      → Option Organization
      → ℕ
      → Store
      → Option TypeRow
      → Commit PartyWithIncludes
  unfolding new_party include_party
  insert_found d person organization now s none = reject env.connect_missing
  insert_found d person organization now s (some type) =
      let row = new_party d type person organization now s.directory in
      commit (include_party s.directory.roles row)
        (record s { directory = record s.directory { parties = row ∷ s.directory.parties } })

  -- `tx.party.create`, where `connect` needs the type to be there.
  unfoldable pub insert_party :
      PartyDraft → Option Person → Option Organization → ℕ → Store → Commit PartyWithIncludes
  unfolding insert_found find_type
  insert_party d person organization now s =
      insert_found d person organization now s (find_type d.type_id s.directory.party_types)

  unfoldable pub transaction_body :
      PartyDraft
      → ℕ
      → Store
      → Attempt (Option Person)
      → Attempt (Option Organization)
      → Commit PartyWithIncludes
  unfolding insert_party
  transaction_body d now s (fails e) _ = reject e
  transaction_body d now s (returns person) (fails e) = reject e
  transaction_body d now s (returns person) (returns organization) =
      insert_party d person organization now s

  -- `createPartyTransaction`. Its only statement is the last, so it is one operation.
  unfoldable pub create_party_transaction : PartyDraft → M PartyWithIncludes
  unfolding transaction_body mapped
  create_party_transaction d = mapped env create_tool (lit "party") (
      query (λ now s.
        transaction_body d now s (person_row lib env d.person)
          (organization_row lib env d.organization)))

  unfoldable pub store_party : Text → PartyDraft → Option TypeRow → M PartyWithIncludes
  unfolding create_party_transaction unknown_type no_subtype
  store_party party_type d none = throw (unknown_type party_type)
  store_party party_type d (some type) =
      if includes (env.to_upper_case party_type) party_types_with_subtype
      then create_party_transaction (record d { type_id = type.type_id })
      else throw (no_subtype party_type)

  unfoldable pub create_party : CreatePartyInput → M PartyResult
  unfolding prepare_party store_party find_named mapped read tenant_scoped require_string_field
      to_party_result
  create_party i = do
    tenant ←
        attempt (require_string_field i.tenant_id (lit "tenantId") max_tenant_id_length create_tool)
    (party_type, draft) ← attempt (prepare_party lib env i tenant)
    scope ← tenant_scoped lib tenant
    type ← mapped env create_tool (lit "party") (
        read (λ s.
          find_named (λ n. env.equals_insensitive n (env.to_upper_case party_type))
            s.directory.party_types))
    party ← store_party party_type draft type
    pure (to_party_result env party)

  unfoldable pub found_party : Text → Text → Option PartyWithIncludes → M PartyResult
  unfolding to_party_result party_not_found
  found_party id tenant none = throw (party_not_found id tenant)
  found_party id tenant (some p) = pure (to_party_result env p)

  unfoldable pub get_party : Value → Value → M PartyResult
  unfolding found_party mapped read tenant_scoped find_included
  get_party tenant_id party_id = do
    tenant ←
        attempt
          (require_string_field tenant_id (lit "tenantId") max_tenant_id_length (lit "get_party"))
    id ← attempt (require_uuid lib party_id (lit "partyId") (lit "get_party" ∷ []))
    scope ← tenant_scoped lib tenant
    found ←
        mapped env (lit "get_party") (lit "party") (read (λ s. find_included id tenant s.directory))
    found_party id tenant found
