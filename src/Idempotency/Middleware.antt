-- ===== src/Idempotency/Middleware.antt =====
-- `idempotencyMiddleware` and `computeInputHash`. A store that is not there is a false `available`.
pub mod Guard
pub mod Once
pub mod Protect
use besterp.Prelude.{ℕ, Bool, true, false, Option, none, some, [], ◌∷◌, if◌then◌else◌}
use besterp.Text.{Text}
use besterp.Value.{Value, undefined, string}
use besterp.Support.{Support, Attempt, returns, fails}
use besterp.Limits.{max_user_id_length, max_agent_id_length, max_conversation_id_length}
use besterp.Identity.{sanitize_durable_identity}
use besterp.Store.{IdempotencyRecord}
use besterp.Run.{M, ◌>>=◌, pure, current_time}
use besterp.Tool.{
  ToolResult, ToolContext, ToolDefinition, ToolMiddleware, Next, Parsed, valid, invalid,
}
use besterp.Idempotency.Key.{KeyCheck, accepted, refused, validate_idempotency_key}
use besterp.Idempotency.Errors.{
  handle_unhashable_input, handle_record_unavailable, handle_record_contention,
}
use besterp.Idempotency.Acquire.{Claim, Acquired, acquire_idempotency_record}
use besterp.Idempotency.Existing.{handle_existing_record}
use besterp.Idempotency.Execute.{execute_and_update}

pub data HashOutcome : Type 0 where
  ok : Text → HashOutcome
  invalid_input unhashable : HashOutcome

-- A tenant that passed the registry's check is a string.
unfoldable pub text_of : Value → Text
text_of (string s) = s
text_of _ = []

module _ (lib : Support) where
  hash_parsed : Attempt Text → HashOutcome
  hash_parsed (returns hash) = ok hash
  hash_parsed (fails e) = unhashable

  hash_valid : Parsed → HashOutcome
  unfolding hash_parsed
  hash_valid (valid v) = hash_parsed (lib.hash_input v)
  hash_valid (invalid issues) = invalid_input

  unfoldable pub compute_input_hash : Value → ToolDefinition → HashOutcome
  unfolding hash_valid
  compute_input_hash input d = hash_valid (d.input_schema.safe_parse input)

  or_empty : Option Text → Text
  or_empty none = []
  or_empty (some s) = s

  optional_identity : Value → ℕ → Option Text
  unfolding or_empty
  optional_identity undefined bound = none
  optional_identity v bound = some (or_empty (sanitize_durable_identity lib v bound))

  -- The key's row and the sanitized identity (`sanitizeIdentityFields`) that the row holds.
  unfoldable pub claim_of : Text → ToolContext → Text → Text → Claim
  unfolding or_empty optional_identity
  claim_of key context tool hash = record {
    key = record { key = key; tenant = text_of context.tenant_id };
    user = or_empty (sanitize_durable_identity lib context.user_id max_user_id_length);
    agent = optional_identity context.agent_id max_agent_id_length;
    conversation = optional_identity context.conversation_id max_conversation_id_length;
    tool = tool;
    input_hash = hash;
  }

  unclaimed : Claim → Bool → ToolResult
  unclaimed c true = handle_record_unavailable c.tool
  unclaimed c false = handle_record_contention lib c.key.key c.tool

  answer_or_execute :
      Claim → Value → ToolContext → Next → Acquired → Option IdempotencyRecord → M ToolResult
  unfolding unclaimed
  answer_or_execute c input context next a (some r) =
      current_time >>= λ now. pure (handle_existing_record lib now r c)
  answer_or_execute c input context next a none =
      if a.created
      then execute_and_update lib c.key input context next
      else pure (unclaimed c a.unavailable)

  with_acquired : Claim → Value → ToolContext → Next → Acquired → M ToolResult
  unfolding answer_or_execute
  with_acquired c input context next a = answer_or_execute c input context next a a.existing

  unfoldable pub run_claim : Claim → Value → ToolContext → Next → M ToolResult
  unfolding with_acquired
  run_claim c input context next =
      acquire_idempotency_record c >>= with_acquired c input context next

  with_hash : Text → Value → ToolContext → ToolDefinition → Next → HashOutcome → M ToolResult
  with_hash key input context d next (ok hash) =
      run_claim (claim_of key context d.name hash) input context next
  with_hash key input context d next invalid_input = next input context
  with_hash key input context d next unhashable = pure (handle_unhashable_input d.name)

  with_key : Bool → Value → ToolContext → ToolDefinition → Next → KeyCheck → M ToolResult
  unfolding with_hash
  with_key available input context d next (refused r) = pure r
  with_key available input context d next (accepted []) = next input context
  with_key available input context d next (accepted (c ∷ key)) =
      if available
      then with_hash (c ∷ key) input context d next (compute_input_hash input d)
      else pure (handle_record_unavailable d.name)

  unfoldable pub idempotency_middleware : Bool → ToolMiddleware
  unfolding with_key
  idempotency_middleware available input context d next =
      with_key available input context d next
        (validate_idempotency_key lib context.idempotency_key d.name)
