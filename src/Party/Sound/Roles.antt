-- ===== src/Party/Sound/Roles.antt =====
-- `addPartyRole` keeps the tables sound.
use besterp.Prelude.{
  ℕ, zero, suc, ◌-◌, ◌≡◌, refl, sym, subst, true, false, [], ◌∷◌, Option, none, some, All,
  Bool-cases, inl, inr,
}
use besterp.Text.{Text, lit}
use besterp.Directory.{
  TypeRow, PartyRow, RoleRow, Directory, find_named, find_type, find_active, has_party, holds,
  is_active,
}
use besterp.Directory.Laws.{find_active-none, find_type-type_id}
use besterp.Store.{Store}
use besterp.Run.{M, commit, throw, query, current_time}
use besterp.Run.Keeps.{commit_store, Keeps, query-Keeps, bind-Keeps}
use besterp.Support.{Support}
use besterp.Platform.{Platform}
use besterp.Limits.{max_tenant_id_length}
use besterp.Party.Fields.{require_string_field, require_uuid}
use besterp.Party.Results.{mapped, read, tenant_scoped}
use besterp.Party.Roles.Input.{role_tool, validate_add_party_role_input, parse_from_date}
use besterp.Party.Roles.{
  AddPartyRoleInput, RoleRequest, RoleOutcome, stored, conflict, after_outcome, Inserted,
  retries_exhausted, max_concurrency_retries, new_role, insert_unless_active, insert_role,
  report_existing, after_insert, after_party, add_party_role_transaction, retry_loop, known_role,
  add_validated_role, add_party_role,
}
use besterp.Party.Sound.{same_role, IsSound, IsSoundStore}
use besterp.Party.Sound.Runs.{mapped-Keeps, read-Keeps, attempt-bind-Keeps, tenant_scoped-Keeps}

module _ (env : Platform) where
  new_role-IsSound :
      (q : RoleRequest) (type : TypeRow) (t : Directory)
      → IsSound t
      → has_party q.party_id t.parties ≡ true
      → All (λ r. holds q.party_id type.type_id r ≡ false) t.roles
      → IsSound (record t { roles = new_role env q type t ∷ t.roles })
  unfolding new_role same_role is_active
  new_role-IsSound q type t sound linked free = record {
    parties_valid = sound.parties_valid;
    roles_linked = (linked, sound.roles_linked);
    contacts_linked = sound.contacts_linked;
    roles_apart = (free, sound.roles_apart);
    emails_apart = sound.emails_apart;
    phones_apart = sound.phones_apart;
  }

  insert_unless_active-IsSound :
      (q : RoleRequest) (s : Store) (active : Option RoleRow) (type : Option TypeRow) (a : Inserted)
      (s' : Store)
      → find_active q.party_id q.role_type_id s.directory.roles ≡ active
      → ((row : TypeRow) → type ≡ some row → row.type_id ≡ q.role_type_id)
      → IsSoundStore s
      → insert_unless_active env q s active type ≡ commit a s'
      → IsSoundStore s'
  unfolding insert_unless_active
  insert_unless_active-IsSound q s (some r) type a s' free typed sound h =
      subst IsSoundStore (commit_store h) sound
  insert_unless_active-IsSound q s none none a s' free typed sound h = cc
  insert_unless_active-IsSound q s none (some type) a s' free typed sound h =
      elim (Bool-cases (has_party q.party_id s.directory.parties)) [
        | inl linked ↦ subst IsSoundStore (commit_store (rw linked at h)) (
            new_role-IsSound q type s.directory sound linked (
              subst (λ id. All (λ r. holds q.party_id id r ≡ false) s.directory.roles)
                (sym (typed type refl))
                (find_active-none q.party_id q.role_type_id s.directory.roles free)))
        | inr missing ↦ cc (rw missing at h)
      ]

  insert_role-Keeps : (q : RoleRequest) → Keeps IsSoundStore (query (insert_role env q))
  unfolding insert_role
  insert_role-Keeps q = query-Keeps IsSoundStore (insert_role env q) (λ now s a s' sound h.
      insert_unless_active-IsSound q s (find_active q.party_id q.role_type_id s.directory.roles)
        (find_type q.role_type_id s.directory.role_types) a s' refl
        (find_type-type_id q.role_type_id s.directory.role_types) sound h)

  report_existing-Keeps :
      (q : RoleRequest) (o : Option RoleRow) → Keeps IsSoundStore (report_existing env q o)
  unfolding report_existing
  report_existing-Keeps q none w kept = kept
  report_existing-Keeps q (some r) w kept = kept

  after_insert-Keeps : (q : RoleRequest) (o : Inserted) → Keeps IsSoundStore (after_insert env q o)
  unfolding after_insert
  after_insert-Keeps q none =
      bind-Keeps IsSoundStore _ (report_existing env q) (read-Keeps IsSoundStore _)
        (report_existing-Keeps q)
  after_insert-Keeps q (some r) = λ w kept. kept

  after_party-Keeps :
      (q : RoleRequest) (o : Option PartyRow) → Keeps IsSoundStore (after_party env q o)
  unfolding after_party
  after_party-Keeps q none = λ w kept. kept
  after_party-Keeps q (some p) =
      bind-Keeps IsSoundStore (query (insert_role env q)) (after_insert env q) (insert_role-Keeps q)
        (after_insert-Keeps q)

  add_party_role_transaction-Keeps :
      (q : RoleRequest) → Keeps IsSoundStore (add_party_role_transaction env q)
  unfolding add_party_role_transaction
  add_party_role_transaction-Keeps q =
      mapped-Keeps IsSoundStore env role_tool (lit "party role") _ (
        bind-Keeps IsSoundStore _ (after_party env q) (read-Keeps IsSoundStore _)
          (after_party-Keeps q))

  after_outcome-Keeps :
      (o : RoleOutcome) (m : M RoleRow)
      → Keeps IsSoundStore m
      → Keeps IsSoundStore (after_outcome o m)
  unfolding after_outcome
  after_outcome-Keeps (stored r) m h = λ w kept. kept
  after_outcome-Keeps conflict m h = h

  retry_loop-Keeps : (n : ℕ) (q : RoleRequest) → Keeps IsSoundStore (retry_loop env n q)
  unfolding retry_loop
  retry_loop-Keeps zero q =
      bind-Keeps IsSoundStore (add_party_role_transaction env q) _
        (add_party_role_transaction-Keeps q)
        (λ o. after_outcome-Keeps o (throw (retries_exhausted q)) (λ w kept. kept))
  retry_loop-Keeps (suc n) q =
      bind-Keeps IsSoundStore (add_party_role_transaction env q) _
        (add_party_role_transaction-Keeps q)
        (λ o. after_outcome-Keeps o (retry_loop env n q) (retry_loop-Keeps n q))

  known_role-Keeps : (name : Text) (o : Option TypeRow) → Keeps IsSoundStore (known_role env name o)
  unfolding known_role
  known_role-Keeps name none w kept = kept
  known_role-Keeps name (some t) w kept = kept

module _ (lib : Support) (env : Platform) where
  pub add_party_role-Keeps : (i : AddPartyRoleInput) → Keeps IsSoundStore (add_party_role lib env i)
  unfolding add_party_role add_validated_role
  add_party_role-Keeps i =
      attempt-bind-Keeps IsSoundStore
        (require_string_field i.tenant_id (lit "tenantId") max_tenant_id_length role_tool) _
        (λ tenant e1.
          attempt-bind-Keeps IsSoundStore
            (require_uuid lib i.party_id (lit "partyId") (role_tool ∷ [])) _
            (λ id e2.
              bind-Keeps IsSoundStore (tenant_scoped lib tenant) _
                (tenant_scoped-Keeps IsSoundStore lib tenant)
                (λ scope.
                  attempt-bind-Keeps IsSoundStore (validate_add_party_role_input lib i.role_type) _
                    (λ name e3.
                      bind-Keeps IsSoundStore current_time _ (λ w kept. kept)
                        (λ now.
                          attempt-bind-Keeps IsSoundStore (parse_from_date lib env now i.from_date)
                            _ (λ from_date e4. with_type tenant id name from_date))))))
    where
      with_type :
          (tenant id name : Text) (from_date : ℕ)
          → Keeps IsSoundStore (add_validated_role env tenant id name from_date)
      with_type tenant id name from_date =
          bind-Keeps IsSoundStore
            (mapped env role_tool (lit "party role")
              (read (λ s. find_named (λ n. env.equals_insensitive n name) s.directory.role_types)))
            _
            (mapped-Keeps IsSoundStore env role_tool (lit "party role") _
              (read-Keeps IsSoundStore _))
            (λ type.
              bind-Keeps IsSoundStore (known_role env name type) _ (known_role-Keeps env name type)
                (λ type_id.
                  bind-Keeps IsSoundStore
                    (retry_loop env (max_concurrency_retries - 1) (record {
                      tenant_id = tenant;
                      party_id = id;
                      role_type_id = type_id;
                      role_type = name;
                      from_date = from_date;
                    }))
                    _ (retry_loop-Keeps env (max_concurrency_retries - 1) _) (λ role w kept. kept)))
