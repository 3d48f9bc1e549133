-- ===== src/Idempotency/Execute.antt =====
-- `executeAndUpdate` and `updateIdempotencyRecordWithRetry`: the handler runs once the key is
-- claimed, and its outcome is written on the row. The writes to stderr are left out.
pub mod Laws
pub mod Bounds
use besterp.Prelude.{ℕ, zero, suc, Bool, true, false, not, Option, none, some, [], if◌then◌else◌}
use besterp.Text.{Text, lit}
use besterp.Value.{Value, null, undefined, string, object, field, end, is_nullish}
use besterp.Surrogates.{normalize_unpaired_surrogates}
use besterp.Support.{Support}
use besterp.Limits.{idempotency_max_retries, max_soft_failure_message_size}
use besterp.Store.{IdempotencyRecord, Key, completed, failed, Store, find_unique, update}
use besterp.Run.{
  M, Run, done, throws, Thrown, ◌>>=◌, pure, try_catch, query, Commit, commit, reject,
}
use besterp.Tool.{ToolResult, ToolError, ToolContext, Next}
use besterp.Idempotency.Acquire.{has_code}

-- Prisma's error for an update of a row that is not there.
abbrev pub record_not_found : Thrown
record_not_found = record {
  is_domain = false;
  code = some (lit "P2025");
  message = lit "Record to update not found.";
  suggested_tools = [];
  context = undefined;
  target = none;
}

update_found :
    Key → (IdempotencyRecord → IdempotencyRecord) → Store → Option IdempotencyRecord → Commit Bool
update_found k f s none = reject record_not_found
update_found k f s (some r) = commit true (record s { records = update k f s.records })

-- `prisma.idempotencyRecord.update`, by a change that may read the clock.
unfoldable pub update_record : Key → (ℕ → IdempotencyRecord → IdempotencyRecord) → M Bool
unfolding update_found
update_record k f = query (λ now s. update_found k (f now) s (find_unique k s.records))

module _ (lib : Support) where
  -- Scrubbed and capped, as every text of the durable `error` column.
  pub durable_text : Text → Text
  durable_text s =
      lib.cap_string (normalize_unpaired_surrogates (lib.sanitize_for_log_output s))
        max_soft_failure_message_size

  error_message : Option ToolError → Text
  error_message none = []
  error_message (some e) = e.message

  error_code : Option ToolError → Text
  error_code none = []
  error_code (some e) = e.code

  stored_error : Bool → ToolResult → Value
  unfolding error_message error_code
  stored_error true r = object (
      field (lit "message") (string (durable_text (error_message r.error)))
        (field (lit "code") (string (durable_text (error_code r.error))) end))
  stored_error false r = null

  unfoldable pub stored_result : Value → Value
  stored_result v =
      if is_nullish v then null else lib.truncate_value (lib.redact_sensitive_field_values v)

  -- The columns that the outcome of an execution sets.
  unfoldable pub finish_record : ToolResult → Bool → ℕ → IdempotencyRecord → IdempotencyRecord
  unfolding stored_error
  finish_record result soft now r = record r {
    status = if soft then failed else completed;
    result = stored_result result.payload;
    error = stored_error soft result;
    completed_at = some now;
  }

  last_update : ℕ → M Bool → M Bool
  last_update zero retry = pure false
  last_update (suc left) retry = retry

  on_update_error : ℕ → M Bool → Thrown → M Bool
  on_update_error left retry e =
      if has_code e (lit "P2025") then pure false else last_update left retry

  -- The loop, by the attempts left.
  unfoldable pub update_attempts : ℕ → Key → ToolResult → Bool → M Bool
  unfolding last_update on_update_error
  update_attempts zero k result soft = pure false
  update_attempts (suc left) k result soft =
      let retry : M Bool = update_attempts left k result soft in
      try_catch (update_record k (finish_record result soft)) (on_update_error left retry)

  unfoldable pub update_with_retry : Key → ToolResult → Bool → M Bool
  update_with_retry = update_attempts idempotency_max_retries

  -- The result that stands for a thrown error in the table.
  unfoldable pub failed_result : Thrown → ToolResult
  failed_result e = record {
    success = false;
    payload = undefined;
    error = some (record {
      code = durable_text (elim e.code [ none ↦ lit "EXECUTION_ERROR" | some c ↦ c ]);
      message = durable_text e.message;
      suggested_tools = none;
      context = undefined;
    });
    next_actions = none;
    replayed = false;
  }

  unfoldable pub mark_failed : ℕ → IdempotencyRecord → IdempotencyRecord
  mark_failed now r = record r { status = failed; completed_at = some now; error = null }

  reset_unless : Key → Bool → M Bool
  reset_unless k true = pure true
  reset_unless k false = try_catch (update_record k mark_failed) (λ e. pure false)

  persist_failure : Key → Thrown → M Bool
  unfolding reset_unless
  persist_failure k e = update_with_retry k (failed_result e) true >>= reset_unless k

  rethrow : Thrown → Run Bool → Run ToolResult
  rethrow e (done persisted w) = throws e w
  rethrow e (throws x w) = throws x w

  on_execution_error : Key → Thrown → M ToolResult
  unfolding persist_failure rethrow
  on_execution_error k e w = rethrow e (persist_failure k e w)

  keep_result : ToolResult → Run Bool → Run ToolResult
  keep_result r (done persisted w) = done r w
  keep_result r (throws e w) = done r w

  on_execution_result : Key → ToolResult → M ToolResult
  unfolding keep_result
  on_execution_result k r w = keep_result r (update_with_retry k r (not r.success) w)

  executed : Key → Run ToolResult → Run ToolResult
  unfolding on_execution_error on_execution_result
  executed k (done r w) = on_execution_result k r w
  executed k (throws e w) = on_execution_error k e w

  unfoldable pub execute_and_update : Key → Value → ToolContext → Next → M ToolResult
  unfolding executed
  execute_and_update k input context next w = executed k (next input context w)
