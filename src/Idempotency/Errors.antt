-- ===== src/Idempotency/Errors.antt =====
-- The rejections of the idempotency middleware and their codes (packages/mcp-tools/src/error-codes.ts).
use besterp.Prelude.{[], ◌∷◌, ◌++◌, take}
use besterp.Text.{Text, lit}
use besterp.Value.{Value, end, field, undefined, object}
use besterp.Support.{Support}
use besterp.Tool.{ToolResult, failure}

abbrev pub invalid_idempotency_key : Text
invalid_idempotency_key = lit "INVALID_IDEMPOTENCY_KEY"

abbrev pub idempotency_key_mismatch : Text
idempotency_key_mismatch = lit "IDEMPOTENCY_KEY_MISMATCH"

abbrev pub idempotency_contention : Text
idempotency_contention = lit "IDEMPOTENCY_CONTENTION"

abbrev pub idempotency_unavailable : Text
idempotency_unavailable = lit "IDEMPOTENCY_UNAVAILABLE"

abbrev pub idempotency_unknown_status : Text
idempotency_unknown_status = lit "IDEMPOTENCY_UNKNOWN_STATUS"

abbrev pub request_in_progress : Text
request_in_progress = lit "REQUEST_IN_PROGRESS"

abbrev pub service_unavailable : Text
service_unavailable = lit "SERVICE_UNAVAILABLE"

abbrev pub stale_pending_record : Text
stale_pending_record = lit "STALE_PENDING_RECORD"

-- An object with one field.
abbrev pub entry : Text → Value → Value
entry name value = object (field name value end)

-- An error without `context`, whose one suggestion is the tool itself.
abbrev pub plain_failure : Text → Text → Text → ToolResult
plain_failure code message tool = failure code message (tool ∷ []) undefined

unfoldable pub handle_unhashable_input : Text → ToolResult
handle_unhashable_input tool =
    plain_failure idempotency_unavailable
      (lit
        "The request is too large to deduplicate safely. Reduce the size of the request and retry with a new idempotency key.")
      tool

unfoldable pub handle_record_unavailable : Text → ToolResult
handle_record_unavailable tool =
    plain_failure service_unavailable
      (lit
        "Idempotency service is temporarily unavailable. The operation cannot be retried at this time — retry the same request later (not with a new key).")
      tool

module _ (lib : Support) where
  unfoldable pub redact_key : Text → Text
  redact_key key = lit "id-" ++ take 12 (lib.sha256_hex key)

  unfoldable pub handle_record_contention : Text → Text → ToolResult
  handle_record_contention key tool =
      plain_failure idempotency_contention
        (lit "Could not acquire idempotency record for '"
          ++ redact_key key
          ++ lit
              "' after 3 attempts — a concurrent request holds the record. Wait briefly and retry the same request with the same idempotency key (do not use a new key).")
        tool

  unfoldable pub caller_mismatch_error : Text → Text → ToolResult
  caller_mismatch_error key tool =
      plain_failure idempotency_key_mismatch
        (lit "Idempotency key '"
          ++ redact_key key
          ++ lit
              "' was already used by another caller in this tenant. Idempotency keys are scoped to a single caller — use a new idempotency key for a different operation.")
        tool
