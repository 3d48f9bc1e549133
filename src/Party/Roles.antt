-- ===== src/Party/Roles.antt =====
-- `addPartyRole` of party.service.ts: the transaction that inserts an active role unless there is one,
-- and its bounded retry. The statements of the transaction meet what other transactions commit
-- between them; only one of them writes.
pub mod Input
pub mod Laws
pub mod Again
pub mod Abstract
use besterp.Prelude.{ℕ, zero, suc, ◌-◌, [], ◌∷◌, ◌++◌, Option, none, some, if◌then◌else◌}
use besterp.Text.{Text, lit}
use besterp.Value.{Value, string}
use besterp.Directory.{
  TypeRow, PartyRow, RoleRow, Directory, find_party, find_named, find_type, has_party, find_active,
}
use besterp.Store.{Store}
use besterp.Run.{Thrown, M, ◌>>=◌, pure, throw, current_time, query, Commit, commit, reject, ◌>>◌}
use besterp.Support.{Support}
use besterp.Platform.{Platform}
use besterp.Limits.{max_tenant_id_length}
use besterp.Errors.{
  context, field_context, invalid_type_value, duplicate_entity, concurrency_conflict,
}
use besterp.Party.Fields.{quoted, require_string_field, require_uuid}
use besterp.Party.Results.{RoleResult, to_role_result, mapped, attempt, read, tenant_scoped}
use besterp.Party.Create.{party_not_found}
use besterp.Party.Roles.Input.{validate_add_party_role_input, parse_from_date, role_tool}

pub record AddPartyRoleInput : Type 0 where
  pub tenant_id : Value
  pub party_id : Value
  pub role_type : Value
  pub from_date : Option Text

pub record PartyRoleResult : Type 0 where
  pub role : RoleResult
  pub party_id : Text

-- What the transaction is given: the tenant, the party, the type's id, the name asked for, the start.
pub record RoleRequest : Type 0 where
  pub tenant_id : Text
  pub party_id : Text
  pub role_type_id : Text
  pub role_type : Text
  pub from_date : ℕ

-- The role stored, or a `ConcurrencyRetryError`.
pub data RoleOutcome : Type 0 where
  stored : RoleRow → RoleOutcome
  conflict : RoleOutcome

-- A conflict goes on with the retry given.
unfoldable pub after_outcome : RoleOutcome → M RoleRow → M RoleRow
after_outcome (stored r) retry = pure r
after_outcome conflict retry = retry

-- What INSERT … ON CONFLICT DO NOTHING returns: the row, or no row.
abbrev pub Inserted : Type 0
Inserted = Option RoleRow

abbrev pub max_concurrency_retries : ℕ
max_concurrency_retries = 3

unknown_role : Text → Thrown
unknown_role s =
    invalid_type_value
      (lit "ROLE_TYPE "
        ++ quoted s
        ++ lit " is not valid. Use 'get_type_table_values' to see valid role types.")
      (lit "get_type_table_values" ∷ [])
      (field_context (lit "roleType")
        ((lit "invalidValue", string s) ∷ (lit "lookupField", string (lit "name")) ∷ []))

unfoldable pub retries_exhausted : RoleRequest → Thrown
retries_exhausted q =
    concurrency_conflict
      (lit "Transaction conflict while adding role to party "
        ++ quoted q.party_id
        ++ lit " — please retry the operation.")
      (role_tool ∷ [])
      (context ((lit "partyId", string q.party_id) ∷ (lit "roleType", string q.role_type) ∷ []))

module _ (env : Platform) where
  unfoldable pub duplicate_role : RoleRequest → RoleRow → Thrown
  duplicate_role q r =
      let from_date = env.to_iso_string r.from_date in
      duplicate_entity
        (lit "Party "
          ++ quoted q.party_id
          ++ lit " already has active role "
          ++ quoted q.role_type
          ++ lit ". Existing role started on "
          ++ from_date
          ++ lit ". "
          ++ lit
              "To change a party's role, first end the current role by setting a thruDate, then re-call add_party_role.")
        (lit "get_party" ∷ [])
        (context (
          (lit "partyId", string q.party_id)
          ∷ (lit "roleType", string q.role_type)
          ∷ (lit "existingRoleId", string r.party_role_id)
          ∷ (lit "existingRoleDate", string from_date)
          ∷ []))

  unfoldable pub new_role : RoleRequest → TypeRow → Directory → RoleRow
  new_role q type t = record {
    party_role_id = env.random_uuid t;
    party_id = q.party_id;
    role_type = type;
    from_date = q.from_date;
    thru_date = none;
  }

  -- The statement: an active role of the party and type suppresses the row, and the row needs the
  -- party and the type to be there. The row is read again, with its type, in the same snapshot.
  unfoldable pub insert_unless_active :
      RoleRequest → Store → Option RoleRow → Option TypeRow → Commit Inserted
  unfolding new_role has_party
  insert_unless_active q s (some r) type = commit none s
  insert_unless_active q s none none = reject env.foreign_key_violation
  insert_unless_active q s none (some type) =
      let t = s.directory in
      let row = new_role q type t in
      if has_party q.party_id t.parties
      then commit (some row) (record s { directory = record t { roles = row ∷ t.roles } })
      else reject env.foreign_key_violation

  unfoldable pub insert_role : RoleRequest → ℕ → Store → Commit Inserted
  unfolding insert_unless_active find_active find_type
  insert_role q now s =
      insert_unless_active q s (find_active q.party_id q.role_type_id s.directory.roles)
        (find_type q.role_type_id s.directory.role_types)

  -- With no row returned, the active role that is there by now is reported.
  unfoldable pub report_existing : RoleRequest → Option RoleRow → M RoleOutcome
  unfolding duplicate_role
  report_existing q none = pure conflict
  report_existing q (some r) = throw (duplicate_role q r)

  -- The re-check looks for a role of a party of the tenant.
  unfoldable pub of_party : Option PartyRow → Option RoleRow → Option RoleRow
  of_party none active = none
  of_party (some p) active = active

  unfoldable pub existing_role : RoleRequest → Directory → Option RoleRow
  unfolding of_party find_party find_active
  existing_role q t =
      of_party (find_party q.party_id q.tenant_id t.parties)
        (find_active q.party_id q.role_type_id t.roles)

  unfoldable pub after_insert : RoleRequest → Inserted → M RoleOutcome
  unfolding report_existing read existing_role
  after_insert q none = read (λ s. existing_role q s.directory) >>= report_existing q
  after_insert q (some r) = pure (stored r)

  unfoldable pub after_party : RoleRequest → Option PartyRow → M RoleOutcome
  unfolding after_insert insert_role party_not_found
  after_party q none = throw (party_not_found q.party_id q.tenant_id)
  after_party q (some p) = query (insert_role q) >>= after_insert q

  -- `addPartyRoleTransaction`.
  unfoldable pub add_party_role_transaction : RoleRequest → M RoleOutcome
  unfolding after_party mapped read find_party
  add_party_role_transaction q =
      mapped env role_tool (lit "party role")
        (read (λ s. find_party q.party_id q.tenant_id s.directory.parties) >>= after_party q)

  -- The loop, by the attempts that are left after this one.
  unfoldable pub retry_loop : ℕ → RoleRequest → M RoleRow
  unfolding add_party_role_transaction retries_exhausted after_outcome
  retry_loop zero q =
      add_party_role_transaction q >>= λ o. after_outcome o (throw (retries_exhausted q))
  retry_loop (suc left) q =
      add_party_role_transaction q >>= λ o. after_outcome o (retry_loop left q)

  unfoldable pub known_role : Text → Option TypeRow → M Text
  unfolding unknown_role
  known_role name none = throw (unknown_role name)
  known_role name (some type) = pure type.type_id

  -- `addPartyRole` once its input is validated.
  unfoldable pub add_validated_role : Text → Text → Text → ℕ → M PartyRoleResult
  unfolding mapped read find_named known_role retry_loop to_role_result
  add_validated_role tenant id name from_date = do
    type ←
        mapped env role_tool (lit "party role")
          (read (λ s. find_named (λ n. env.equals_insensitive n name) s.directory.role_types))
    type_id ← known_role name type
    role ← retry_loop (max_concurrency_retries - 1) (record {
      tenant_id = tenant;
      party_id = id;
      role_type_id = type_id;
      role_type = name;
      from_date = from_date;
    })
    pure (record { role = to_role_result env role; party_id = role.party_id })

module _ (lib : Support) (env : Platform) where
  unfoldable pub add_party_role : AddPartyRoleInput → M PartyRoleResult
  unfolding require_string_field require_uuid tenant_scoped validate_add_party_role_input
      parse_from_date add_validated_role
  add_party_role i = do
    tenant ←
        attempt (require_string_field i.tenant_id (lit "tenantId") max_tenant_id_length role_tool)
    id ← attempt (require_uuid lib i.party_id (lit "partyId") (role_tool ∷ []))
    scope ← tenant_scoped lib tenant
    name ← attempt (validate_add_party_role_input lib i.role_type)
    now ← current_time
    from_date ← attempt (parse_from_date lib env now i.from_date)
    add_validated_role env tenant id name from_date
