-- ===== src/Registry/Identity.antt =====
-- `validateContextIdentity`: the ids of a call are checked and trimmed before anything runs.
pub mod Laws
use besterp.Prelude.{
  ℕ, Bool, true, false, not, ◌&&◌, Option, none, some, [], ◌∷◌, ◌++◌, leb, ◌==◌, if◌then◌else◌,
  length,
}
use besterp.Text.{Text, lit, trim}
use besterp.Value.{Value, undefined, null, string}
use besterp.Support.{Support, Attempt, returns, fails}
use besterp.Limits.{max_user_id_length, max_agent_id_length, max_conversation_id_length}
use besterp.Tool.{ToolContext, ToolResult, failure}
use besterp.Identity.{sanitize_durable_identity}
use besterp.Tenant.{validate_tenant_id, is_valid_optional_id}

abbrev pub invalid_tenant_id : Text
invalid_tenant_id = lit "INVALID_TENANT_ID"

abbrev pub invalid_user_id : Text
invalid_user_id = lit "INVALID_USER_ID"

abbrev pub invalid_context_id : Text
invalid_context_id = lit "INVALID_CONTEXT_ID"

abbrev pub identity_error : Text → Text → ToolResult
identity_error code message = failure code message (lit "list_available_tools" ∷ []) undefined

unfoldable pub context_identity_error : Text → Text → ToolResult
context_identity_error code label =
    identity_error code
      (lit "The request " ++ label ++ lit " is invalid. Contact the system administrator.")

unfoldable pub optional_identity_error : Text → ToolResult
optional_identity_error name =
    identity_error invalid_context_id
      (lit "The " ++ name ++ lit " is invalid. Contact the system administrator.")

-- A rejection names its code and its field to the audit trail.
pub data IdentityCheck : Type 0 where
  identified : ToolContext → IdentityCheck
  rejected : ToolResult → Text → Text → IdentityCheck

module _ (lib : Support) where
  unfoldable pub is_stored : Option Text → Bool
  is_stored none = false
  is_stored (some s) = true

  -- The tests that a trimmed id has to pass.
  unfoldable pub is_identity : ℕ → Text → Bool
  unfolding is_stored
  is_identity bound s =
      not (length s == 0)
      && leb (length s) bound
      && is_valid_optional_id s
      && is_stored (sanitize_durable_identity lib (string s) bound)

  unfoldable pub is_user_id : Value → Bool
  is_user_id (string s) = is_identity max_user_id_length (trim s)
  is_user_id _ = false

  unfoldable pub is_optional_id : ℕ → Value → Bool
  is_optional_id bound undefined = true
  is_optional_id bound null = true
  is_optional_id bound (string s) = is_identity bound (trim s)
  is_optional_id bound _ = false

  -- `value == null ? undefined : value.trim()`, of a value that passed.
  unfoldable pub normalized : Value → Value
  normalized (string s) = string (trim s)
  normalized _ = undefined

  with_tenant : ToolContext → Attempt Text → IdentityCheck
  with_tenant context (fails e) =
      rejected (context_identity_error invalid_tenant_id (lit "tenant identifier"))
        invalid_tenant_id (lit "tenant identifier")
  with_tenant context (returns tenant) =
      if not (is_user_id context.user_id)
      then rejected (context_identity_error invalid_user_id (lit "user identifier")) invalid_user_id
          (lit "user identifier")
      else if not (is_optional_id max_agent_id_length context.agent_id)
      then rejected (optional_identity_error (lit "agentId")) invalid_context_id (lit "agentId")
      else if not (is_optional_id max_conversation_id_length context.conversation_id)
      then rejected (optional_identity_error (lit "conversationId")) invalid_context_id
          (lit "conversationId")
      else identified (record context {
        tenant_id = string tenant;
        user_id = normalized context.user_id;
        agent_id = normalized context.agent_id;
        conversation_id = normalized context.conversation_id;
      })

  -- Where no field changes, the context that the source hands back has the same fields.
  unfoldable pub validate_context_identity : ToolContext → IdentityCheck
  unfolding with_tenant
  validate_context_identity context = with_tenant context (validate_tenant_id lib context.tenant_id)
