-- ===== src/Party/Roles/Laws.antt =====
-- A role that was added is there, and is not added again.
use besterp.Prelude.{
  ℕ, zero, suc, ◌≡◌, refl, sym, ap, ◌∙◌, ◌∷◌, Option, none, some, Bool-cases, inl, inr,
}
use besterp.Text.{lit}
use besterp.Directory.{
  TypeRow, PartyRow, RoleRow, find_party, find_type, find_active, has_party, is_active,
}
use besterp.Directory.Laws.{find_active-cons, find_type-type_id}
use besterp.Store.{Store}
use besterp.Run.{World, Run, done, throws, M, ◌>>=◌, quiet, query, commit, conclude, arrive, fault}
use besterp.Run.Laws.{bind-done}
use besterp.Run.Returned.{done_value, done_world, bind_returned}
use besterp.Platform.{Platform}
use besterp.PrismaErrors.{handle_transaction_error, map_code, is_prisma_code}
use besterp.Party.Results.{mapped, read}
use besterp.Party.Results.Laws.{mapped_returned}
use besterp.Party.Roles.Input.{role_tool}
use besterp.Party.Roles.{
  RoleRequest, RoleOutcome, stored, conflict, after_outcome, duplicate_role, new_role,
  insert_unless_active, insert_role, report_existing, of_party, existing_role, after_insert,
  after_party, add_party_role_transaction, retry_loop,
}

-- An active role that is there is reported, and nothing changes.
module _ (env : Platform) (q : RoleRequest) (s : Store) (now : ℕ) (p : PartyRow) (row : RoleRow)
    (ep : find_party q.party_id q.tenant_id s.directory.parties ≡ some p)
    (ea : find_active q.party_id q.role_type_id s.directory.roles ≡ some row) where
  refused : Run RoleOutcome
  refused = throws (duplicate_role env q row) (quiet s now)

  existing_role-row : existing_role env q s.directory ≡ some row
  unfolding existing_role of_party
  existing_role-row =
      ap (λ o. of_party env o (find_active q.party_id q.role_type_id s.directory.roles)) ep ∙ ea

  insert_role-none : insert_role env q now s ≡ commit none s
  unfolding insert_role insert_unless_active
  insert_role-none =
      ap (λ o. insert_unless_active env q s o (find_type q.role_type_id s.directory.role_types)) ea

  after_insert-refused : after_insert env q none (quiet s now) ≡ refused
  unfolding after_insert report_existing refused read query arrive fault
  after_insert-refused = ap (λ o. report_existing env q o (quiet s now)) existing_role-row

  after_party-refused : after_party env q (some p) (quiet s now) ≡ refused
  unfolding after_party query arrive fault
  after_party-refused =
      bind-done (query (insert_role env q)) (after_insert env q) (quiet s now)
        (ap (conclude (quiet s now)) insert_role-none)
      ∙ after_insert-refused

  -- Whatever would come after it.
  pub transaction_refused :
      (f : RoleOutcome → M RoleRow)
      → (add_party_role_transaction env q >>= f) (quiet s now)
        ≡ throws (duplicate_role env q row) (quiet s now)
  unfolding add_party_role_transaction mapped read query arrive fault refused
      handle_transaction_error map_code duplicate_role is_prisma_code
  transaction_refused f =
      ap (λ r. rest (mapped_run r))
        (ap (λ o. after_party env q o (quiet s now)) ep ∙ after_party-refused)
    where
      mapped_run : Run RoleOutcome → Run RoleOutcome
      mapped_run r = elim r [
        | done a w ↦ done a w
        | throws e w ↦
            throws (handle_transaction_error env role_tool role_tool (lit "party role") e) w
      ]

      rest : Run RoleOutcome → Run RoleRow
      rest r = elim r [ done a w ↦ f a w | throws e w ↦ throws e w ]

module _ (env : Platform) (q : RoleRequest) (s : Store) (now : ℕ) where
  -- The tables with the new role.
  unfoldable pub with_role : TypeRow → Store
  with_role type = record s {
    directory = record s.directory { roles = new_role env q type s.directory ∷ s.directory.roles };
  }

  -- The outcome is the new role, and the world has it.
  Added : RoleOutcome → World → Type 0
  Added o w =
      (type : TypeRow) × (find_type q.role_type_id s.directory.role_types ≡ some type)
      × (o ≡ stored (new_role env q type s.directory))
      × (w ≡ quiet (with_role type) now)

  -- What comes of the insertion, by what the statement finds.
  inserted : Option RoleRow → Option TypeRow → Run RoleOutcome
  inserted active type = elim (conclude (quiet s now) (insert_unless_active env q s active type)) [
    | done a w ↦ after_insert env q a w
    | throws e w ↦ throws e w
  ]

  inserted-Added :
      (p : PartyRow) (active : Option RoleRow) (type : Option TypeRow) (o : RoleOutcome) (w : World)
      → find_party q.party_id q.tenant_id s.directory.parties ≡ some p
      → find_active q.party_id q.role_type_id s.directory.roles ≡ active
      → find_type q.role_type_id s.directory.role_types ≡ type
      → inserted active type ≡ done o w
      → Added o w
  unfolding inserted Added with_role insert_unless_active after_insert report_existing read query
      arrive fault
  inserted-Added p (some r) type o w ep ea et h = cc (rw (ep, ea) at h)
  inserted-Added p none none o w ep ea et h = cc
  inserted-Added p none (some type) o w ep ea et h =
      elim (Bool-cases (has_party q.party_id s.directory.parties)) [
        | inl there ↦
            let k = rw (there, inserted) at h in (type, et, sym (done_value k), sym (done_world k))
        | inr missing ↦ cc (rw (missing, inserted) at h)
      ]

  party_checked : Option PartyRow → Run RoleOutcome
  party_checked party = after_party env q party (quiet s now)

  party_checked-Added :
      (party : Option PartyRow) (o : RoleOutcome) (w : World)
      → find_party q.party_id q.tenant_id s.directory.parties ≡ party
      → party_checked party ≡ done o w
      → ((p : PartyRow) × (party ≡ some p)) × Added o w
  unfolding party_checked after_party insert_role inserted query arrive fault
  party_checked-Added none o w e h = cc
  party_checked-Added (some p) o w e h = (
    (p, refl),
    inserted-Added p (find_active q.party_id q.role_type_id s.directory.roles)
        (find_type q.role_type_id s.directory.role_types) o w e refl refl h,
  )

  transaction-Added :
      (o : RoleOutcome) (w : World)
      → add_party_role_transaction env q (quiet s now) ≡ done o w
      → ((p : PartyRow) × (find_party q.party_id q.tenant_id s.directory.parties ≡ some p))
        × Added o w
  unfolding add_party_role_transaction party_checked read query arrive fault
  transaction-Added o w h =
      party_checked-Added (find_party q.party_id q.tenant_id s.directory.parties) o w refl (
        mapped_returned env role_tool (lit "party role")
          (read (λ t. find_party q.party_id q.tenant_id t.directory.parties) >>= after_party env q)
          (quiet s now) o w h)

  -- The row is the new role, and the world has it.
  unfoldable pub AddedRow : RoleRow → World → Type 0
  AddedRow r w =
      (type : TypeRow) × (find_type q.role_type_id s.directory.role_types ≡ some type)
      × (r ≡ new_role env q type s.directory)
      × (w ≡ quiet (with_role type) now)

  outcome-AddedRow :
      (c : M RoleRow) (o : RoleOutcome) (v : World) (r : RoleRow) (w : World)
      → Added o v
      → after_outcome o c v ≡ done r w
      → AddedRow r w
  unfolding Added AddedRow after_outcome
  outcome-AddedRow c (stored x) v r w (type, et, eo, ev) h =
      (type, et, sym (done_value h) ∙ stored_row eo, sym (done_world h) ∙ ev)
    where
      stored_row : {a b : RoleRow} → stored a ≡ stored b → a ≡ b
      stored_row e = cc
  outcome-AddedRow c conflict v r w (type, et, eo, ev) h = cc

  pub retry_loop-AddedRow :
      (n : ℕ) (r : RoleRow) (w : World)
      → retry_loop env n q (quiet s now) ≡ done r w
      → ((p : PartyRow) × (find_party q.party_id q.tenant_id s.directory.parties ≡ some p))
        × AddedRow r w
  unfolding retry_loop
  retry_loop-AddedRow zero r w h =
      bind_returned (add_party_role_transaction env q) _ (quiet s now) r w h (λ o v e k.
        let (party, added) = transaction-Added o v e in (party, outcome-AddedRow _ o v r w added k))
  retry_loop-AddedRow (suc n) r w h =
      bind_returned (add_party_role_transaction env q) _ (quiet s now) r w h (λ o v e k.
        let (party, added) = transaction-Added o v e in (party, outcome-AddedRow _ o v r w added k))

  pub new_role-found :
      (type : TypeRow)
      → find_type q.role_type_id s.directory.role_types ≡ some type
      → find_active q.party_id q.role_type_id (with_role type).directory.roles
        ≡ some (new_role env q type s.directory)
  unfolding with_role new_role is_active
  new_role-found type et =
      find_active-cons (new_role env q type s.directory) q.party_id q.role_type_id s.directory.roles
        refl (find_type-type_id q.role_type_id s.directory.role_types type et) refl

  pub retry_loop-again :
      (n : ℕ) (p : PartyRow) (type : TypeRow)
      → find_party q.party_id q.tenant_id s.directory.parties ≡ some p
      → find_type q.role_type_id s.directory.role_types ≡ some type
      → retry_loop env n q (quiet (with_role type) now)
        ≡ throws
            (duplicate_role env q (new_role env q type s.directory))
            (quiet (with_role type) now)
  unfolding retry_loop with_role
  retry_loop-again zero p type ep et =
      transaction_refused env q (with_role type) now p _ ep (new_role-found type et) _
  retry_loop-again (suc n) p type ep et =
      transaction_refused env q (with_role type) now p _ ep (new_role-found type et) _
