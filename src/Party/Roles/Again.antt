-- ===== src/Party/Roles/Again.antt =====
-- `addPartyRole` called again for the same role.
use besterp.Prelude.{ℕ, ◌-◌, ◌≡◌, refl, sym, ap, subst, ◌∙◌, List, [], ◌∷◌, Option, none, some}
use besterp.Text.{Text, lit}
use besterp.Value.{string}
use besterp.Directory.{TypeRow, RoleRow, find_named, find_active}
use besterp.Store.{Store}
use besterp.Run.{World, Thrown, Run, done, throws, M, ◌>>=◌, pure, quiet, query, arrive, fault}
use besterp.Run.Returned.{done_value, done_world, bind_returned}
use besterp.Support.{Support}
use besterp.Platform.{Platform}
use besterp.Tenant.{validate_tenant_id}
use besterp.Limits.{max_tenant_id_length}
use besterp.Party.Fields.{require_string_field, require_uuid}
use besterp.Party.Results.{to_role_result, mapped, read, tenant_scoped}
use besterp.Party.Results.Laws.{attempt_bind_returned}
use besterp.Party.Roles.Input.{role_tool, validate_add_party_role_input, parse_from_date}
use besterp.Party.Roles.Laws.{
  with_role, AddedRow, retry_loop-AddedRow, new_role-found, retry_loop-again,
}
use besterp.Party.Roles.{
  AddPartyRoleInput, PartyRoleResult, RoleRequest, max_concurrency_retries, duplicate_role,
  new_role, retry_loop, known_role, add_validated_role, add_party_role,
}

bind-throws :
    {A B : Type 0} (m : M A) (f : A → M B) (w v : World) (e : Thrown)
    → m w ≡ throws e v
    → (m >>= f) w ≡ throws e v
bind-throws {A} {B} m f w v e h =
    ap {B = Run B} (elim [ done a u ↦ f a u | throws x u ↦ throws x u ]) h

-- The request is refused as the duplicate of the row, which is the one that the first call returned
-- and is now the active role.
abbrev pub RefusedAs : Platform → PartyRoleResult → World → Run PartyRoleResult → Type 0
RefusedAs env r w again =
    (q : RoleRequest) × (row : RoleRow) × (again ≡ throws (duplicate_role env q row) w)
    × (row.party_role_id ≡ r.role.party_role_id)
    × (find_active q.party_id q.role_type_id w.store.directory.roles ≡ some row)

module _ (env : Platform) (tenant id name : Text) (from_date : ℕ) where
  request : Text → RoleRequest
  request type_id = record {
    tenant_id = tenant;
    party_id = id;
    role_type_id = type_id;
    role_type = name;
    from_date = from_date;
  }

  -- What follows the lookup of the type.
  typed : Option TypeRow → M PartyRoleResult
  typed found = known_role env name found >>= λ type_id.
      retry_loop env (max_concurrency_retries - 1) (request type_id) >>= λ role.
      pure (record { role = to_role_result env role; party_id = role.party_id })

  typed-again :
      (found : Option TypeRow) (s : Store) (now : ℕ) (r : PartyRoleResult) (w : World)
      → typed found (quiet s now) ≡ done r w
      → (s' : Store) × (w ≡ quiet s' now)
        × (s'.directory.role_types ≡ s.directory.role_types)
        × RefusedAs env r (quiet s' now) (typed found (quiet s' now))
  unfolding typed known_role to_role_result with_role AddedRow new_role request
  typed-again none s now r w h = cc
  typed-again (some t) s now r w h =
      bind_returned (retry_loop env (max_concurrency_retries - 1) (request t.type_id)) _
        (quiet s now) r w h
        (λ role v e k.
          let ((p, ep), added) =
            retry_loop-AddedRow env (request t.type_id) s now (max_concurrency_retries - 1) role v
              e in
          let (type, et, er, ev) = added in
          (
            with_role env (request t.type_id) s now type,
            sym (done_world k) ∙ ev,
            refl,
            (
              request t.type_id,
              new_role env (request t.type_id) type s.directory,
              bind-throws (retry_loop env (max_concurrency_retries - 1) (request t.type_id)) _ _ _ _
                  (retry_loop-again env (request t.type_id) s now (max_concurrency_retries - 1) p
                    type ep et),
              ap (λ x. x.party_role_id) (sym er) ∙ ap (λ x. x.role.party_role_id) (done_value k),
              new_role-found env (request t.type_id) s now type et,
            ),
          ))

  validated-again :
      (s : Store) (now : ℕ) (r : PartyRoleResult) (w : World)
      → add_validated_role env tenant id name from_date (quiet s now) ≡ done r w
      → (s' : Store) × (w ≡ quiet s' now)
        × RefusedAs env r
            (quiet s' now)
            (add_validated_role env tenant id name from_date (quiet s' now))
  unfolding add_validated_role typed mapped read query arrive fault request
  validated-again s now r w h =
      let found = λ (types : List TypeRow). find_named (λ n. env.equals_insensitive n name) types in
      let (s', ew, types, again) = typed-again (found s.directory.role_types) s now r w h in
      (
        s',
        ew,
        subst (λ ts. RefusedAs env r (quiet s' now) (typed (found ts) (quiet s' now))) (sym types)
            again,
      )

module _ (lib : Support) (env : Platform) where
  -- With the database quiet, after addPartyRole has returned a role, the same call again throws
  -- that the party already has this active role, with the role returned, and changes nothing.
  pub add-add :
      (i : AddPartyRoleInput) (s : Store) (now : ℕ) (r : PartyRoleResult) (w : World)
      → add_party_role lib env i (quiet s now) ≡ done r w
      → RefusedAs env r w (add_party_role lib env i w)
  unfolding add_party_role tenant_scoped
  add-add i s now r w h =
      attempt_bind_returned
        (require_string_field i.tenant_id (lit "tenantId") max_tenant_id_length role_tool) _
        (quiet s now) r w h
        (λ tenant e1 h1.
          attempt_bind_returned (require_uuid lib i.party_id (lit "partyId") (role_tool ∷ [])) _
            (quiet s now) r w h1
            (λ id e2 h2.
              attempt_bind_returned (validate_tenant_id lib (string tenant)) _ (quiet s now) r w h2
                (λ scope e3 h3.
                  attempt_bind_returned (validate_add_party_role_input lib i.role_type) _
                    (quiet s now) r w h3
                    (λ name e4 h4.
                      attempt_bind_returned (parse_from_date lib env now i.from_date) _
                        (quiet s now) r w h4
                        (λ from_date e5 h5.
                          let (s', ew, again) =
                            validated-again env tenant id name from_date s now r w h5 in
                          subst (λ v. RefusedAs env r v (add_party_role lib env i v)) (sym ew)
                            (rw (e1, e2, e3, e4, e5) again))))))
