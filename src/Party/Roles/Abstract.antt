-- ===== src/Party/Roles/Abstract.antt =====
-- The roles as an abstract set of active roles, to which `addPartyRole` adds one that is not there.
use besterp.Prelude.{
  ℕ, zero, suc, ◌-◌, ◌≡◌, refl, sym, ap, subst, Bool, true, false, ◌&&◌, ◌||◌, Option, none, some,
  List, [], ◌∷◌, if◌then◌else◌, is_some,
}
use besterp.Text.{Text, lit, text_eq}
use besterp.Value.{string}
use besterp.Directory.{
  TypeRow, PartyRow, RoleRow, find_party, find_named, find_type, find_active, has_party, is_active,
  holds,
}
use besterp.Directory.Laws.{find_type-type_id, find_party-has_party}
use besterp.Store.{Store}
use besterp.Run.{World, Run, done, throws, quiet, query, commit, conclude, arrive, fault}
use besterp.Run.Laws.{bind-done}
use besterp.Support.{Support, returns}
use besterp.Platform.{Platform}
use besterp.Tenant.{validate_tenant_id}
use besterp.Limits.{max_tenant_id_length}
use besterp.Party.Fields.{require_string_field, require_uuid}
use besterp.Party.Results.{to_role_result, mapped, read, tenant_scoped}
use besterp.Party.Roles.Input.{role_tool, validate_add_party_role_input, parse_from_date}
use besterp.Party.Roles.Laws.{with_role, transaction_refused}
use besterp.Party.Roles.{
  AddPartyRoleInput, RoleRequest, stored, max_concurrency_retries, duplicate_role, new_role,
  insert_unless_active, insert_role, after_insert, after_party, add_party_role_transaction,
  after_outcome, retry_loop, known_role, add_validated_role, add_party_role,
}

-- Whether a party has an active role of a type.
abbrev pub ActiveRoles : Type 0
ActiveRoles = Text → Text → Bool

-- What the table of roles stands for.
abbrev pub active_roles : List RoleRow → ActiveRoles
active_roles rs party type = is_some (find_active party type rs)

abbrev pub with_active : Text → Text → ActiveRoles → ActiveRoles
with_active party type v p t = text_eq party p && text_eq type t || v p t

-- What `addPartyRole` promises: whether the role is added, and the roles thereafter.
abbrev pub add_if_absent : Text → Text → ActiveRoles → Bool × ActiveRoles
add_if_absent party type v = if v party type then (false, v) else (true, with_active party type v)

abbrev pub returned : {A : Type 0} → Run A → Bool
returned (done a w) = true
returned (throws e w) = false

abbrev pub world_after : {A : Type 0} → Run A → World
world_after (done a w) = w
world_after (throws e w) = w

-- The run answers and changes the roles as the promise says.
abbrev pub Implements : {A : Type 0} → Bool × ActiveRoles → Run A → Type 0
Implements promise r =
    (returned r ≡ promise.0)
    × ((party type : Text)
        → active_roles (world_after r).store.directory.roles party type ≡ promise.1 party type)

some_if :
    {A : Type 0} (b c : Bool) (a : A) (o : Option A)
    → is_some (if b && c && true then some a else o) ≡ b && c || is_some o
some_if true true a o = refl
some_if true false a o = refl
some_if false c a o = refl

then_pure-Implements :
    {A B : Type 0} (promise : Bool × ActiveRoles) (r : Run A) (f : A → B)
    → Implements promise r
    → Implements promise (elim r [ done a w ↦ done (f a) w | throws e w ↦ throws e w ])
then_pure-Implements promise (done a w) f h = h
then_pure-Implements promise (throws e w) f h = h

module _ (env : Platform) (q : RoleRequest) (s : Store) (now : ℕ) (p : PartyRow) (type : TypeRow)
    (ep : find_party q.party_id q.tenant_id s.directory.parties ≡ some p)
    (et : find_type q.role_type_id s.directory.role_types ≡ some type) where
  linked : has_party q.party_id s.directory.parties ≡ true
  linked = find_party-has_party q.party_id q.tenant_id s.directory.parties p ep

  insert_role-new :
      find_active q.party_id q.role_type_id s.directory.roles ≡ none
      → insert_role env q now s
        ≡ commit (some (new_role env q type s.directory)) (with_role env q s now type)
  unfolding insert_role insert_unless_active with_role
  insert_role-new ea = rw (ea, et, linked) refl

  after_party-stored :
      find_active q.party_id q.role_type_id s.directory.roles ≡ none
      → after_party env q (some p) (quiet s now)
        ≡ done (stored (new_role env q type s.directory)) (quiet (with_role env q s now type) now)
  unfolding after_party after_insert query arrive fault
  after_party-stored ea =
      bind-done (query (insert_role env q)) (after_insert env q) (quiet s now)
        (ap (conclude (quiet s now)) (insert_role-new ea))

  transaction_stored :
      find_active q.party_id q.role_type_id s.directory.roles ≡ none
      → add_party_role_transaction env q (quiet s now)
        ≡ done (stored (new_role env q type s.directory)) (quiet (with_role env q s now type) now)
  unfolding add_party_role_transaction mapped read query arrive fault
  transaction_stored ea = rw (ep, after_party-stored ea) refl

  retry_loop-new :
      (n : ℕ)
      → find_active q.party_id q.role_type_id s.directory.roles ≡ none
      → retry_loop env n q (quiet s now)
        ≡ done (new_role env q type s.directory) (quiet (with_role env q s now type) now)
  unfolding retry_loop after_outcome
  retry_loop-new zero ea =
      bind-done (add_party_role_transaction env q) _ (quiet s now) (transaction_stored ea)
  retry_loop-new (suc n) ea =
      bind-done (add_party_role_transaction env q) _ (quiet s now) (transaction_stored ea)

  retry_loop-refused :
      (n : ℕ) (row : RoleRow)
      → find_active q.party_id q.role_type_id s.directory.roles ≡ some row
      → retry_loop env n q (quiet s now) ≡ throws (duplicate_role env q row) (quiet s now)
  unfolding retry_loop
  retry_loop-refused zero row ea = transaction_refused env q s now p row ep ea _
  retry_loop-refused (suc n) row ea = transaction_refused env q s now p row ep ea _

  active-with_role :
      (party t : Text)
      → active_roles (with_role env q s now type).directory.roles party t
        ≡ with_active q.party_id q.role_type_id (active_roles s.directory.roles) party t
  unfolding with_role new_role find_active holds is_active
  active-with_role party t =
      rw (find_type-type_id q.role_type_id s.directory.role_types type et)
        (some_if (text_eq q.party_id party) (text_eq q.role_type_id t) _ _)

  promised : Bool × ActiveRoles
  promised = add_if_absent q.party_id q.role_type_id (active_roles s.directory.roles)

  retry_loop-promised :
      (n : ℕ) (o : Option RoleRow)
      → find_active q.party_id q.role_type_id s.directory.roles ≡ o
      → Implements promised (retry_loop env n q (quiet s now))
  unfolding promised
  retry_loop-promised n none ea =
      subst (Implements promised) (sym (retry_loop-new n ea)) (rw ea (refl, active-with_role))
  retry_loop-promised n (some row) ea =
      subst (Implements promised) (sym (retry_loop-refused n row ea))
        (rw ea (refl, λ party t. refl))

  retry_loop-Implements :
      (n : ℕ)
      → Implements
          (add_if_absent q.party_id q.role_type_id (active_roles s.directory.roles))
          (retry_loop env n q (quiet s now))
  unfolding promised
  retry_loop-Implements n =
      retry_loop-promised n (find_active q.party_id q.role_type_id s.directory.roles) refl

module _ (lib : Support) (env : Platform) where
  -- Seen as the set of active roles, which says whether a party has an active role of a type, and
  -- with the database quiet, addPartyRole for a valid request, a party of the tenant and a known
  -- type adds the role and returns exactly if the set does not have it, and else throws and leaves
  -- the set as it was.
  pub add_party_role-Implements :
      (i : AddPartyRoleInput) (tenant id scope name : Text) (from_date : ℕ) (s : Store) (now : ℕ)
      (p : PartyRow) (type : TypeRow)
      → require_string_field i.tenant_id (lit "tenantId") max_tenant_id_length role_tool
        ≡ returns tenant
      → require_uuid lib i.party_id (lit "partyId") (role_tool ∷ []) ≡ returns id
      → validate_tenant_id lib (string tenant) ≡ returns scope
      → validate_add_party_role_input lib i.role_type ≡ returns name
      → parse_from_date lib env now i.from_date ≡ returns from_date
      → find_named (λ n. env.equals_insensitive n name) s.directory.role_types ≡ some type
      → find_type type.type_id s.directory.role_types ≡ some type
      → find_party id tenant s.directory.parties ≡ some p
      → Implements
          (add_if_absent id type.type_id (active_roles s.directory.roles))
          (add_party_role lib env i (quiet s now))
  unfolding add_party_role tenant_scoped add_validated_role mapped read query arrive fault
      known_role to_role_result
  add_party_role-Implements i tenant id scope name from_date s now p type e1 e2 e3 e4 e5 en et ep =
      rw (e1, e2, e3, e4, e5, en)
        (then_pure-Implements _ _ _ (
          retry_loop-Implements env
            (record {
              tenant_id = tenant;
              party_id = id;
              role_type_id = type.type_id;
              role_type = name;
              from_date = from_date;
            })
            s now p type ep et (max_concurrency_retries - 1)))
