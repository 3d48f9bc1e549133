-- ===== src/Idempotency/Middleware/Once.antt =====
-- Two requests with one key, where nothing fails: the second one is answered by a replay.
use besterp.Prelude.{ℕ, ◌+◌, ◌<◌, ◌≡◌, refl, ap, ◌∙◌, Bool, true, false, some, arith}
use besterp.Value.{Value}
use besterp.Support.{Support}
use besterp.Limits.{idempotency_ttl_ms}
use besterp.Store.{IdempotencyRecord, Records, Store, find_unique, update}
use besterp.Run.{done, quiet}
use besterp.Run.Laws.{bind-done}
use besterp.Tool.{ToolResult, ToolContext, Next}
use besterp.Idempotency.Acquire.{Claim, Acquired, acquire_tx, acquire_idempotency_record}
use besterp.Idempotency.Acquire.Laws.{IsOwner, IsExpired}
use besterp.Idempotency.Acquire.Claims.{IsFree, created_iff, created-Claimed, created-existing}
use besterp.Idempotency.Acquire.Quiet.{after_tx, acquire-quiet, acquire_tx-completed}
use besterp.Idempotency.Existing.{replay}
use besterp.Idempotency.Existing.Laws.{IsReplay, IsReplay→replay}
use besterp.Idempotency.Execute.{stored_result, finish_record, execute_and_update}
use besterp.Idempotency.Execute.Laws.{execute-result, finished-row}
use besterp.Idempotency.Middleware.{answer_or_execute, with_acquired, run_claim}

module _ (lib : Support) (c : Claim) where
  -- A live row with the outcome of this request is replayed, and the handler does not run.
  pub run_claim-replay :
      (input : Value) (context : ToolContext) (next : Next) (s : Store) (t : ℕ)
      {r : IdempotencyRecord}
      → find_unique c.key s.records ≡ some r
      → IsReplay c r
      → ¬ IsExpired t r
      → run_claim lib c input context next (quiet s t) ≡ done (replay lib r c.tool) (quiet s t)
  unfolding run_claim with_acquired answer_or_execute
  run_claim-replay input context next s t {r} here own live =
      bind-done (acquire_idempotency_record c) (with_acquired lib c input context next) (quiet s t)
        (acquire-quiet c s t)
      ∙ ap
          (λ (o : Acquired × Records).
            with_acquired lib c input context next o.0 (quiet (record s { records = o.1 }) t))
          (acquire_tx-completed t c s.records r here own.1 live)
      ∙ ap (λ x. done x (quiet s t)) (IsReplay→replay lib t r c own)

  -- A request on a free key runs its handler under the claim.
  pub run_claim-first :
      (input : Value) (context : ToolContext) (next : Next) (s : Store) (t : ℕ)
      → (acquire_tx t c s.records).0.created ≡ true
      → run_claim lib c input context next (quiet s t)
        ≡ execute_and_update lib c.key input context next (quiet (after_tx t c s) t)
  unfolding run_claim with_acquired answer_or_execute
  run_claim-first input context next s t created =
      bind-done (acquire_idempotency_record c) (with_acquired lib c input context next) (quiet s t)
        (acquire-quiet c s t)
      ∙ ap (λ a. with_acquired lib c input context next a (quiet (after_tx t c s) t))
          (created-existing t c s.records created)

  finish-IsOwner :
      (r : ToolResult) (soft : Bool) (t : ℕ) (x : IdempotencyRecord)
      → IsOwner c x
      → IsOwner c (finish_record lib r soft t x)
  unfolding finish_record
  finish-IsOwner r soft t x o = ground arith

  -- A first request on a free key, whose handler succeeds and leaves the key's row alone, returns the
  -- handler's result and leaves a row that holds it for a day.
  pub run_claim-success :
      (input : Value) (context : ToolContext) (next : Next) (s s' : Store) (t t' : ℕ)
      (r : ToolResult)
      → IsFree t c s.records
      → next input context (quiet (after_tx t c s) t) ≡ done r (quiet s' t')
      → r.success ≡ true
      → find_unique c.key s'.records ≡ find_unique c.key (after_tx t c s).records
      → (row : IdempotencyRecord) × (run_claim lib c input context next (quiet s t)
          ≡ done r (
              quiet
                (record s' { records = update c.key (finish_record lib r false t') s'.records })
                t'))
        × (find_unique c.key (update c.key (finish_record lib r false t') s'.records) ≡ some row)
        × IsReplay c row
        × (row.expires_at ≡ some (t + idempotency_ttl_ms))
        × (row.result ≡ stored_result lib r.payload)
  unfolding finish_record
  run_claim-success input context next s s' t t' r free ran good same =
      let is_created = (created_iff t c s.records).1 free in
      let (x, here, fresh) = created-Claimed t c s.records is_created in
      (
        finish_record lib r false t' x,
        run_claim-first input context next s t is_created
            ∙ execute-result lib c.key input context next (quiet (after_tx t c s) t) r true s' t'
                ran good (same ∙ here),
        finished-row lib c.key r false t' s'.records (same ∙ here),
        (finish-IsOwner r false t' x fresh.owner, refl),
        fresh.expires,
        refl,
      )

  not-IsExpired :
      (row : IdempotencyRecord) (t now : ℕ)
      → row.expires_at ≡ some (t + idempotency_ttl_ms)
      → now < t + idempotency_ttl_ms
      → ¬ IsExpired now row
  not-IsExpired row t now e early (u, e', late) = ground arith

  -- The tables once the first request's outcome is written.
  abbrev pub recorded : Store → ℕ → ToolResult → Store
  recorded s t r = record s { records = update c.key (finish_record lib r false t) s.records }

  -- With the database quiet, after a first request on a free key whose handler succeeds and leaves
  -- the key's row alone, a second request with the same claim, less than a day after the first
  -- began and with the row as the first left it, does not run its handler: it returns at once,
  -- with its state as it was, a success that is marked as a replay and holds the stored payload of
  -- the first.
  pub executes_once :
      (input : Value) (context : ToolContext) (next : Next) (s s' : Store) (t t' : ℕ)
      (r : ToolResult) (input' : Value) (context' : ToolContext) (next' : Next) (s'' : Store)
      (now : ℕ)
      → IsFree t c s.records
      → next input context (quiet (after_tx t c s) t) ≡ done r (quiet s' t')
      → r.success ≡ true
      → find_unique c.key s'.records ≡ find_unique c.key (after_tx t c s).records
      → find_unique c.key s''.records ≡ find_unique c.key (recorded s' t' r).records
      → now < t + idempotency_ttl_ms
      → (run_claim lib c input context next (quiet s t) ≡ done r (quiet (recorded s' t' r) t'))
        × (reply : ToolResult) × (run_claim lib c input' context' next' (quiet s'' now)
            ≡ done reply (quiet s'' now))
        × (reply.success ≡ true)
        × (reply.replayed ≡ true)
        × (reply.payload ≡ lib.redact_sensitive_field_values (stored_result lib r.payload))
  unfolding replay
  executes_once input context next s s' t t' r input' context' next' s'' now free ran good same kept
        early =
      let (row, first, here, own, expires, stored) =
        run_claim-success input context next s s' t t' r free ran good same in
      (
        first,
        replay lib row c.tool,
        run_claim-replay input' context' next' s'' now (kept ∙ here) own
            (not-IsExpired row t now expires early),
        refl,
        refl,
        ap lib.redact_sensitive_field_values stored,
      )
