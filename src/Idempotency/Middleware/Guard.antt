-- ===== src/Idempotency/Middleware/Guard.antt =====
-- The idempotency middleware in any environment: the handler runs under a claimed key only.
use besterp.Prelude.{◌≡◌, ap, ◌∙◌, Bool, true, false, some}
use besterp.Value.{Value}
use besterp.Support.{Support}
use besterp.Store.{IdempotencyRecord, find_unique}
use besterp.Run.{World, Run, done}
use besterp.Run.Laws.{Returns→done, bind-done}
use besterp.Tool.{ToolResult, ToolContext, Next}
use besterp.Idempotency.Acquire.{Claim, Acquired, acquire_idempotency_record}
use besterp.Idempotency.Acquire.Laws.{Claimed, IsExpired}
use besterp.Idempotency.Acquire.Attempts.{
  Acquisition, claimed, found, lost, failed, acquire-Returns,
}
use besterp.Idempotency.Errors.{handle_record_unavailable, handle_record_contention}
use besterp.Idempotency.Existing.{replay, handle_existing_record}
use besterp.Idempotency.Existing.Laws.{IsReplay, success→IsReplay}
use besterp.Idempotency.Execute.{execute_and_update}
use besterp.Idempotency.Middleware.{unclaimed, answer_or_execute, with_acquired, run_claim}

module _ (lib : Support) (c : Claim) (input : Value) (context : ToolContext) where
  -- A reply that was made without the handler: a success only as the replay of a live row that holds
  -- the outcome of the same request of the same caller.
  pub record IsAnswer (reply : ToolResult) (w : World) : Type 0 where
    pub replays :
        reply.success ≡ true
        → (r : IdempotencyRecord) × (find_unique c.key w.store.records ≡ some r)
          × (¬ IsExpired w.now r)
          × IsReplay c r
          × (reply ≡ replay lib r c.tool)

  -- What a run with the key does, as a function of the handler.
  pub data Guarded (run : Next → Run ToolResult) : Type 0 where
    executes :
        (w' : World)
        → Claimed w'.now c w'.store.records
        → ((next : Next) → run next ≡ execute_and_update lib c.key input context next w')
        → Guarded run
    answers :
        (reply : ToolResult) (w' : World)
        → IsAnswer reply w'
        → ((next : Next) → run next ≡ done reply w')
        → Guarded run

  unclaimed-success : (b : Bool) → (unclaimed lib c b).success ≡ true → ⊥
  unfolding unclaimed handle_record_unavailable handle_record_contention
  unclaimed-success true h = cc
  unclaimed-success false h = cc

  Acquisition-Guarded :
      (a : Acquired) (w : World)
      → Acquisition c a w
      → Guarded (λ next. with_acquired lib c input context next a w)
  unfolding with_acquired answer_or_execute
  Acquisition-Guarded a w (claimed e row) =
      executes w row (λ next. ap (λ x. answer_or_execute lib c input context next x x.existing w) e)
  Acquisition-Guarded a w (found r e here live) =
      answers (handle_existing_record lib w.now r c) w
        (record {
          replays =
              λ h. let (own, same) = success→IsReplay lib w.now r c h in (r, here, live, own, same);
        })
        (λ next. ap (λ x. answer_or_execute lib c input context next x x.existing w) e)
  Acquisition-Guarded a w (lost e) =
      answers (unclaimed lib c false) w
        (record { replays = λ h. absurd (unclaimed-success false h) })
        (λ next. ap (λ x. answer_or_execute lib c input context next x x.existing w) e)
  Acquisition-Guarded a w (failed e) =
      answers (unclaimed lib c true) w (record { replays = λ h. absurd (unclaimed-success true h) })
        (λ next. ap (λ x. answer_or_execute lib c input context next x x.existing w) e)

  Guarded-shift :
      (run run' : Next → Run ToolResult)
      → ((next : Next) → run next ≡ run' next)
      → Guarded run'
      → Guarded run
  Guarded-shift run run' same (executes w' row e) = executes w' row (λ next. same next ∙ e next)
  Guarded-shift run run' same (answers reply w' ok e) =
      answers reply w' ok (λ next. same next ∙ e next)

  -- In any environment a request with a key either claims the key, and executes the handler in a
  -- state where the key's row is fresh, pending and its own, or it is answered without the
  -- handler, and then with a success only as the replay of a live row of the same request.
  pub run_claim-Guarded : (w : World) → Guarded (λ next. run_claim lib c input context next w)
  unfolding run_claim
  run_claim-Guarded w =
      let (a, w', ran, how) =
        Returns→done (Acquisition c) (acquire_idempotency_record c w) (acquire-Returns c w) in
      Guarded-shift _ (λ next. with_acquired lib c input context next a w')
        (λ next.
          bind-done (acquire_idempotency_record c) (with_acquired lib c input context next) w ran)
        (Acquisition-Guarded a w' how)
