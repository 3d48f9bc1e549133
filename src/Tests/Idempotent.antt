-- ===== src/Tests/Idempotent.antt =====
-- The theorems on idempotency at concrete requests.
use besterp.Prelude.{◌≡◌, refl, ◌↔◌, inl, true, false, none, some, [], ◌∷◌, arith, All}
use besterp.Text.{lit, text_eq}
use besterp.Value.{Value, undefined, string, is_nullish}
use besterp.Store.{IdempotencyRecord, Store, find_unique}
use besterp.Run.{quiet, World, done}
use besterp.Run.Laws.{Returns}
use besterp.Tool.{ToolResult, Next}
use besterp.Idempotency.Key.{validate_idempotency_key, accepted}
use besterp.Idempotency.Key.Laws.{IsKey, accepted_iff}
use besterp.Idempotency.Acquire.{
  acquire_tx, acquire_idempotency_record, is_same_caller, same_agent, fresh_record,
}
use besterp.Idempotency.Acquire.Claims.{IsFree, created_iff}
use besterp.Idempotency.Acquire.Attempts.{Acquisition, acquire-Returns}
use besterp.Idempotency.Acquire.Quiet.{after_tx}
use besterp.Idempotency.Existing.{handle_existing_record, replay}
use besterp.Idempotency.Existing.Laws.{IsReplay, success→IsReplay}
use besterp.Idempotency.Execute.{execute_and_update, finish_record, stored_result}
use besterp.Idempotency.Execute.Laws.{EndsAs, execute-EndsAs}
use besterp.Idempotency.Middleware.{run_claim, idempotency_middleware}
use besterp.Idempotency.Middleware.Once.{recorded, executes_once}
use besterp.Idempotency.Middleware.Guard.{Guarded, run_claim-Guarded}
use besterp.Idempotency.Middleware.Protect.{Protected, idempotency_middleware-Protected}
use besterp.Idempotency.Exclusion.{Shared, start, next, begins, waits}
use besterp.Idempotency.Exclusion.Laws.{Distinct, Holds, Reach-exclusive}
use besterp.Idempotency.Exclusion.Overrun.{late_failure_reopens}
use besterp.Tests.{
  plain_lib, call_claim, tables, success_result, failed_result, succeed, create_party, agent_call,
  arguments,
}

-- The tables after the call of `call_claim` at time 5.
abbrev claimed : Store
claimed = after_tx 5 call_claim tables

abbrev finished : Store
finished = recorded plain_lib call_claim claimed 9 success_result

abbrev pending_row : IdempotencyRecord
pending_row = fresh_record 5 call_claim

abbrev finished_row : IdempotencyRecord
finished_row = finish_record plain_lib success_result false 9 pending_row

-- The database fails a first operation, after another request's time.
abbrev rough : World
rough = record {
  store = tables;
  now = 5;
  events =
      record {
        elapsed = 30;
        interfere = λ s. s;
        fault = some (record {
          is_domain = false;
          code = some (lit "P2034");
          message = lit "conflict";
          suggested_tools = [];
          context = undefined;
          target = none;
        });
      }
      ∷ [];
}

tables-IsFree : IsFree 5 call_claim tables.records
unfolding find_unique
tables-IsFree = inl refl

claims_it : (acquire_tx 5 call_claim tables.records).0.created ≡ true
unfolding acquire_tx find_unique
claims_it = refl

executes_once_example :
    (run_claim plain_lib call_claim arguments agent_call succeed (quiet tables 5)
      ≡ done success_result (quiet (recorded plain_lib call_claim claimed 5 success_result) 5))
    × (reply : ToolResult) × (run_claim plain_lib call_claim arguments agent_call succeed
          (quiet (recorded plain_lib call_claim claimed 5 success_result) 60)
        ≡ done reply (quiet (recorded plain_lib call_claim claimed 5 success_result) 60))
    × (reply.success ≡ true)
    × (reply.replayed ≡ true)
    × (reply.payload
        ≡ plain_lib.redact_sensitive_field_values (stored_result plain_lib success_result.payload))
executes_once_example =
    executes_once plain_lib call_claim arguments agent_call succeed tables claimed 5 5
      success_result arguments agent_call succeed
      (recorded plain_lib call_claim claimed 5 success_result) 60 tables-IsFree refl refl refl refl
      (omega arith)

run_claim-Guarded_example :
    Guarded plain_lib call_claim arguments agent_call
      (λ next. run_claim plain_lib call_claim arguments agent_call next rough)
run_claim-Guarded_example = run_claim-Guarded plain_lib call_claim arguments agent_call rough

nonnull : is_nullish agent_call.idempotency_key ≡ false
unfolding is_nullish
nonnull = refl

idempotency_middleware-Protected_example :
    Protected plain_lib arguments agent_call create_party rough
      (λ next. idempotency_middleware plain_lib true arguments agent_call create_party next rough)
idempotency_middleware-Protected_example =
    idempotency_middleware-Protected plain_lib arguments agent_call create_party rough true
      arguments nonnull refl

created_iff_example :
    ((acquire_tx 5 call_claim tables.records).0.created ≡ true) ↔ IsFree 5 call_claim tables.records
created_iff_example = created_iff 5 call_claim tables.records

acquire-Returns_example :
    Returns (Acquisition call_claim) (acquire_idempotency_record call_claim rough)
acquire-Returns_example = acquire-Returns call_claim rough

replays_it : (handle_existing_record plain_lib 60 finished_row call_claim).success ≡ true
unfolding handle_existing_record is_same_caller finish_record fresh_record text_eq same_agent replay
replays_it = refl

success→IsReplay_example :
    IsReplay call_claim finished_row
    × (handle_existing_record plain_lib 60 finished_row call_claim
        ≡ replay plain_lib finished_row call_claim.tool)
success→IsReplay_example = success→IsReplay plain_lib 60 finished_row call_claim replays_it

execute-EndsAs_example :
    EndsAs plain_lib
      (succeed arguments agent_call rough)
      (execute_and_update plain_lib call_claim.key arguments agent_call succeed rough)
execute-EndsAs_example = execute-EndsAs plain_lib call_claim.key arguments agent_call succeed rough

abbrev idle : Shared
idle = record { records = []; now = 5; running = [] }

abbrev one_runs : Shared
one_runs = record idle {
  records = (acquire_tx 5 call_claim []).1;
  running = record { claim = call_claim; started = 5 } ∷ [];
}

Reach-exclusive_example :
    Distinct (record one_runs { now = 60 }).running
    × All (Holds one_runs.records 60) one_runs.running
Reach-exclusive_example =
    Reach-exclusive plain_lib {s = idle} {t = record one_runs { now = 60 }} refl
      (next (next start (begins call_claim claims_it)) (waits 55 (omega arith, tt)))

-- The tables once a second call has taken the key over, and a handler that meanwhile fails.
abbrev taken_over : Store
taken_over = after_tx 65_000 call_claim claimed

abbrev fail_late : Next
fail_late input context w = done failed_result (quiet taken_over 69_000)

late_failure_reopens_example :
    ((acquire_tx 65_000 call_claim claimed.records).0.created ≡ true)
    × ((acquire_tx 70_000 call_claim taken_over.records).0.created ≡ false)
    × (s : Store) × (run_claim plain_lib call_claim arguments agent_call fail_late (quiet tables 5)
        ≡ done failed_result (quiet s 69_000))
    × ((acquire_tx 70_000 call_claim s.records).0.created ≡ true)
late_failure_reopens_example =
    late_failure_reopens plain_lib call_claim arguments agent_call fail_late tables taken_over 5
      65_000 69_000 70_000 failed_result tables-IsFree (omega arith) refl refl refl (omega arith)

accepted_iff_example :
    (validate_idempotency_key plain_lib (string (lit "key-1")) (lit "create_party")
      ≡ accepted (lit "key-1"))
    ↔ ((Value.string (lit "key-1") ≡ string (lit "key-1")) × IsKey (lit "key-1"))
accepted_iff_example =
    accepted_iff plain_lib (lit "create_party") (string (lit "key-1")) (lit "key-1") nonnull
