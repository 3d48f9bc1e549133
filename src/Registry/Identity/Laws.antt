-- ===== src/Registry/Identity/Laws.antt =====
-- The ids of a call that is let in.
use besterp.Prelude.{
  ℕ, ◌≤◌, ◌<◌, ◌≡◌, refl, sym, ap, subst, Bool, Option, none, some, ◌⊎◌, inl, inr, true, false, not,
  arith, Bool-cases, length, all,
}
use besterp.Text.{Text, trim}
use besterp.Value.{Value, undefined, null, boolean, number, string, array, object}
use besterp.Support.{Support, Attempt, returns, fails}
use besterp.Limits.{max_user_id_length, max_agent_id_length, max_conversation_id_length}
use besterp.Tool.{ToolContext}
use besterp.Tenant.{validate_tenant_id, is_hidden_char, is_valid_optional_id}
use besterp.Tenant.Laws.{IsTenantId, validated-IsTenantId, validated_iff}
use besterp.Identity.{sanitize_durable_identity}
use besterp.Run.{Thrown}
use besterp.Registry.Identity.{
  IdentityCheck, identified, rejected, is_stored, is_identity, is_user_id, is_optional_id,
  normalized, with_tenant, validate_context_identity, context_identity_error,
  optional_identity_error,
}

-- Of a length that the column holds, and of visible characters.
pub record IsId (bound : ℕ) (s : Text) : Type 0 where
  pub nonempty : 0 < length s
  pub bounded : length s ≤ bound
  pub shown : all (λ c. not (is_hidden_char c)) s ≡ true

module _ (lib : Support) where
  -- Such an id that `sanitize_durable_identity` also leaves something of.
  pub record IsStoredId (bound : ℕ) (s : Text) : Type 0 where
    pub id : IsId bound s
    pub kept : Text
    pub stored : sanitize_durable_identity lib (string s) bound ≡ some kept

  -- The id that was given, trimmed.
  abbrev pub IsNamed : ℕ → Value → Value → Type 0
  IsNamed bound given checked =
      (s : Text) × (given ≡ string s) × (checked ≡ string (trim s)) × IsStoredId bound (trim s)

  -- An id that may be absent, and then stays so.
  abbrev pub IsOptional : ℕ → Value → Value → Type 0
  IsOptional bound given checked =
      (((given ≡ undefined) ⊎ (given ≡ null)) × (checked ≡ undefined)) ⊎ IsNamed bound given checked

  -- The context that was checked has the ids of the one given, trimmed, and all else of it.
  pub record IsIdentified (context checked : ToolContext) : Type 0 where
    pub tenant :
        (s : Text) × (context.tenant_id ≡ string s)
        × (checked.tenant_id ≡ string (trim s))
        × IsTenantId (trim s)
    pub user : IsNamed max_user_id_length context.user_id checked.user_id
    pub agent : IsOptional max_agent_id_length context.agent_id checked.agent_id
    pub conversation :
        IsOptional max_conversation_id_length context.conversation_id checked.conversation_id
    pub key : checked.idempotency_key ≡ context.idempotency_key
    pub confirmation : checked.confirmation ≡ context.confirmation
    pub reasoning : checked.reasoning ≡ context.reasoning

  is_stored-some : (o : Option Text) → is_stored lib o ≡ true → (t : Text) × (o ≡ some t)
  unfolding is_stored
  is_stored-some none h = cc
  is_stored-some (some t) h = (t, refl)

  is_identity-IsId :
      (bound : ℕ) (s : Text)
      → is_identity lib bound s ≡ true
      → IsId bound s × (is_stored lib (sanitize_durable_identity lib (string s) bound) ≡ true)
  unfolding is_identity is_valid_optional_id
  is_identity-IsId bound s h = (ground arith, ground arith)

  is_identity-IsStoredId :
      (bound : ℕ) (s : Text) → is_identity lib bound s ≡ true → IsStoredId bound s
  is_identity-IsStoredId bound s h =
      let (id, stored) = is_identity-IsId bound s h in
      let (t, here) = is_stored-some (sanitize_durable_identity lib (string s) bound) stored in
      record { id = id; kept = t; stored = here }

  IsStoredId-is_identity :
      (bound : ℕ) (s : Text)
      → bound ≤ max_user_id_length
      → IsStoredId bound s
      → is_identity lib bound s ≡ true
  unfolding is_identity is_valid_optional_id is_stored
  IsStoredId-is_identity bound s least h =
      rw h.stored (ground (arith, least, h.id.nonempty, h.id.bounded, h.id.shown))

  user-IsNamed :
      (v : Value) → is_user_id lib v ≡ true → IsNamed max_user_id_length v (normalized lib v)
  unfolding is_user_id normalized
  user-IsNamed (string s) h = (s, refl, refl, is_identity-IsStoredId max_user_id_length (trim s) h)
  user-IsNamed undefined h = cc
  user-IsNamed null h = cc
  user-IsNamed (boolean b) h = cc
  user-IsNamed (number n) h = cc
  user-IsNamed (array vs) h = cc
  user-IsNamed (object fs) h = cc

  optional-IsOptional :
      (bound : ℕ) (v : Value)
      → is_optional_id lib bound v ≡ true
      → IsOptional bound v (normalized lib v)
  unfolding is_optional_id normalized
  optional-IsOptional bound undefined h = inl (inl refl, refl)
  optional-IsOptional bound null h = inl (inr refl, refl)
  optional-IsOptional bound (string s) h =
      inr (s, refl, refl, is_identity-IsStoredId bound (trim s) h)
  optional-IsOptional bound (boolean b) h = cc
  optional-IsOptional bound (number n) h = cc
  optional-IsOptional bound (array vs) h = cc
  optional-IsOptional bound (object fs) h = cc

  IsNamed-user : {v u : Value} → IsNamed max_user_id_length v u → is_user_id lib v ≡ true
  unfolding is_user_id
  IsNamed-user (s, e, q, h) =
      rw e (IsStoredId-is_identity max_user_id_length (trim s) (omega arith) h)

  IsOptional-optional :
      (bound : ℕ) {v u : Value}
      → bound ≤ max_user_id_length
      → IsOptional bound v u
      → is_optional_id lib bound v ≡ true
  unfolding is_optional_id
  IsOptional-optional bound least (inl (inl e, q)) = rw e refl
  IsOptional-optional bound least (inl (inr e, q)) = rw e refl
  IsOptional-optional bound least (inr (s, e, q, h)) =
      rw e (IsStoredId-is_identity bound (trim s) least h)

  -- What an identity check has established.
  abbrev pub Established : ToolContext → IdentityCheck → Type 0
  Established context (identified checked) = IsIdentified context checked
  Established context (rejected reply code name) =
      (reply.success ≡ false) × ((checked : ToolContext) → ¬ IsIdentified context checked)

  differ : (b : Bool) → b ≡ true → b ≡ false → ⊥
  differ b h k = cc

  accepted-tenant :
      (context : ToolContext) (e : Thrown)
      → validate_tenant_id lib context.tenant_id ≡ fails e
      → (checked : ToolContext) → ¬ IsIdentified context checked
  accepted-tenant context e h checked i =
      let (s, given, same, t) = i.tenant in
      let accepted = (validated_iff lib context.tenant_id (trim s)).1 (s, given, refl, t) in cc

  with_tenant-Established :
      (context : ToolContext) (a : Attempt Text)
      → validate_tenant_id lib context.tenant_id ≡ a
      → Established context (with_tenant lib context a)
  unfolding with_tenant context_identity_error optional_identity_error
  with_tenant-Established context (fails e) h = (refl, accepted-tenant context e h)
  with_tenant-Established context (returns t) h =
      elim (Bool-cases (is_user_id lib context.user_id)) [
        | inr bad ↦ rw bad (refl, λ checked i. differ _ (IsNamed-user i.user) bad)
        | inl user ↦ elim (Bool-cases (is_optional_id lib max_agent_id_length context.agent_id)) [
          | inr bad ↦
              rw (user, bad)
                (
                  refl,
                  λ checked i.
                      differ _ (IsOptional-optional max_agent_id_length (omega arith) i.agent) bad,
                )
          | inl agent ↦
              elim (Bool-cases
                (is_optional_id lib max_conversation_id_length context.conversation_id)) [
                  | inr bad ↦
                      rw (user, agent, bad)
                        (
                          refl,
                          λ checked i.
                              differ _
                                (IsOptional-optional max_conversation_id_length (omega arith)
                                  i.conversation)
                                bad,
                        )
                  | inl conversation ↦
                      let (s, given, same, ok) = validated-IsTenantId lib context.tenant_id t h in
                      rw (user, agent, conversation)
                        (record {
                          tenant = (s, given, ap string (sym same), subst IsTenantId (sym same) ok);
                          user = user-IsNamed context.user_id user;
                          agent = optional-IsOptional max_agent_id_length context.agent_id agent;
                          conversation =
                              optional-IsOptional max_conversation_id_length context.conversation_id
                                conversation;
                          key = refl;
                          confirmation = refl;
                          reasoning = refl;
                        })
                ]
        ]
      ]

  -- A call is let in exactly if its tenant and its user are well-formed once they are trimmed, and
  -- so are its agent and its conversation where it has them: it then goes on under these ids,
  -- trimmed, with all else in its context as it was, and without an agent or a conversation only
  -- where it had none; any other call is rejected with a failure.
  pub validate_context_identity-Established :
      (context : ToolContext) → Established context (validate_context_identity lib context)
  unfolding validate_context_identity
  validate_context_identity-Established context =
      with_tenant-Established context (validate_tenant_id lib context.tenant_id) refl
