-- ===== src/Idempotency/Existing.antt =====
-- `handleExistingRecord`: the answer to a request whose key already has a row.
pub mod Laws
use besterp.Prelude.{ℕ, ◌+◌, ◌-◌, ◌/◌, true, not, Option, none, some, [], ◌∷◌, ◌++◌, if◌then◌else◌}
use besterp.Text.{Text, lit, text_eq, decimal}
use besterp.Value.{string}
use besterp.Support.{Support}
use besterp.Tool.{ToolResult, failure}
use besterp.Store.{IdempotencyRecord, Status, pending, completed, failed, unknown}
use besterp.Idempotency.Acquire.{is_same_caller, is_stale, Claim}
use besterp.Idempotency.Errors.{
  idempotency_key_mismatch, stale_pending_record, request_in_progress, idempotency_unknown_status,
  redact_key, entry, plain_failure, caller_mismatch_error,
}

module _ (lib : Support) where
  -- "Idempotency key '…'", and what is said of it.
  abbrev about_key : Text → Text → Text
  about_key key rest = lit "Idempotency key '" ++ redact_key lib key ++ lit "'" ++ rest

  unfoldable pub replay : IdempotencyRecord → Text → ToolResult
  replay r tool = record {
    success = true;
    payload = lib.redact_sensitive_field_values r.result;
    error = none;
    next_actions = some (
        (lit "This is a replay of a previous '" ++ tool ++ lit "' call. No action needed.")
        ∷ (if lib.is_truncation_marker r.result
            then lit "Note: The original result was truncated for storage." ∷ []
            else []));
    replayed = true;
  }

  mismatch_with_hash : IdempotencyRecord → Text → Text → Text → ToolResult
  mismatch_with_hash r key tool rest =
      failure idempotency_key_mismatch (about_key key rest) (tool ∷ [])
        (entry (lit "originalInputHash") (string r.input_hash))

  existing_completed : IdempotencyRecord → Claim → ToolResult
  unfolding mismatch_with_hash
  existing_completed r c =
      if text_eq r.input_hash c.input_hash
      then replay r c.tool
      else mismatch_with_hash r c.key.key c.tool (
          lit
            " was already used with different input. Use a new idempotency key for a different operation.")

  -- A pending row of another input.
  existing_conflict : ℕ → Claim → Option ℕ → ToolResult
  existing_conflict now c none =
      plain_failure idempotency_key_mismatch
        (about_key c.key.key (
          lit
            " has a corrupted pending record (missing createdAt). Retry with a new idempotency key."))
        c.tool
  existing_conflict now c (some created) =
      if is_stale now created
      then plain_failure stale_pending_record
          (about_key c.key.key (
            lit " has a stale pending record ("
            ++ decimal ((now - created + 500) / 1000)
            ++ lit
                "s old) with different input. The previous request likely crashed. Retry with a new idempotency key."))
          c.tool
      else plain_failure idempotency_key_mismatch
          (about_key c.key.key (lit " is in use with different input. Use a new idempotency key."))
          c.tool

  existing_pending : ℕ → IdempotencyRecord → Claim → ToolResult
  unfolding existing_conflict
  existing_pending now r c =
      if text_eq r.input_hash c.input_hash
      then plain_failure request_in_progress
          (lit "A request with idempotency key '"
            ++ redact_key lib c.key.key
            ++ lit "' is already in progress. Wait and retry.")
          c.tool
      else existing_conflict now c r.created_at

  existing_failed : IdempotencyRecord → Claim → ToolResult
  unfolding mismatch_with_hash
  existing_failed r c =
      if text_eq r.input_hash c.input_hash
      then plain_failure request_in_progress
          (about_key c.key.key (lit " has a failed record that is being reset. Wait and retry."))
          c.tool
      else mismatch_with_hash r c.key.key c.tool
          (lit " was previously used with different input. Use a new idempotency key.")

  existing_by_status : ℕ → IdempotencyRecord → Claim → Status → ToolResult
  unfolding existing_completed existing_pending existing_failed
  existing_by_status now r c completed = existing_completed r c
  existing_by_status now r c pending = existing_pending now r c
  existing_by_status now r c failed = existing_failed r c
  existing_by_status now r c (unknown s) =
      failure idempotency_unknown_status
        (lit "Unexpected idempotency status '"
          ++ s
          ++ lit "' for key '"
          ++ redact_key lib c.key.key
          ++ lit "'. Retry with a new idempotency key.")
        (c.tool ∷ []) (entry (lit "status") (string s))

  unfoldable pub handle_existing_record : ℕ → IdempotencyRecord → Claim → ToolResult
  unfolding existing_by_status
  handle_existing_record now r c =
      if not (text_eq r.tool_name c.tool)
      then plain_failure idempotency_key_mismatch
          (about_key c.key.key (
            lit " was already used by tool '"
            ++ lib.sanitize_for_log_output r.tool_name
            ++ lit "'. Use a new idempotency key for a different operation."))
          c.tool
      else if not (is_same_caller r c.user c.agent)
      then caller_mismatch_error lib c.key.key c.tool
      else existing_by_status now r c r.status
