-- ===== src/Idempotency/Execute/Laws.antt =====
-- Executing the handler under a claimed key: the outcome is the handler's, and the row records it.
use besterp.Prelude.{
  ℕ, zero, suc, ◌≡◌, refl, ap, ◌∙◌, inl, inr, Bool, true, false, not, some, Bool-cases,
}
use besterp.Text.{lit}
use besterp.Value.{Value}
use besterp.Support.{Support}
use besterp.Store.{IdempotencyRecord, Key, Records, Store, find_unique, update}
use besterp.Store.Laws.{key_of, find_unique-update}
use besterp.Run.{World, Thrown, Run, done, throws, M, quiet, query, conclude, arrive, fault}
use besterp.Run.Laws.{Returns, Ends, catch-Returns, query-Ends, try_catch-done}
use besterp.Tool.{ToolResult, ToolContext, Next}
use besterp.Idempotency.Acquire.{has_code}
use besterp.Idempotency.Execute.{
  update_found, update_record, finish_record, last_update, on_update_error, update_attempts,
  update_with_retry, failed_result, mark_failed, reset_unless, persist_failure, rethrow,
  on_execution_error, keep_result, on_execution_result, executed, execute_and_update,
}

abbrev Anything : {A : Type 0} → A → World → Type 0
Anything a w = Unit

module _ (lib : Support) where
  on_update_error-Returns :
      (left : ℕ) (retry : M Bool) (e : Thrown) (w : World)
      → Returns Anything (retry w)
      → Returns Anything (on_update_error lib left retry e w)
  unfolding on_update_error last_update
  on_update_error-Returns zero retry e w h = elim (Bool-cases (has_code e (lit "P2025"))) [
    | inl gone ↦ rw gone tt
    | inr other ↦ rw other tt
  ]
  on_update_error-Returns (suc left) retry e w h = elim (Bool-cases (has_code e (lit "P2025"))) [
    | inl gone ↦ rw gone tt
    | inr other ↦ rw other h
  ]

  update_attempts-Returns :
      (left : ℕ) (k : Key) (r : ToolResult) (soft : Bool) (w : World)
      → Returns Anything (update_attempts lib left k r soft w)
  unfolding update_attempts update_record
  update_attempts-Returns zero k r soft w = tt
  update_attempts-Returns (suc left) k r soft w =
      catch-Returns Anything (update_record k (finish_record lib r soft) w)
        (on_update_error lib left (update_attempts lib left k r soft))
        (query-Ends Anything _ w (λ a s e. tt))
        (λ e w' h.
          on_update_error-Returns left (update_attempts lib left k r soft) e w'
            (update_attempts-Returns left k r soft w'))

  -- The update of the row reports a failure, and never throws.
  pub update-Returns :
      (k : Key) (r : ToolResult) (soft : Bool) (w : World)
      → Returns Anything (update_with_retry lib k r soft w)
  unfolding update_with_retry
  update-Returns = update_attempts-Returns 3

  reset_unless-Returns :
      (k : Key) (b : Bool) (w : World) → Returns Anything (reset_unless lib k b w)
  unfolding reset_unless update_record
  reset_unless-Returns k true w = tt
  reset_unless-Returns k false w =
      catch-Returns Anything (update_record k (mark_failed lib) w) (λ e w'. done false w')
        (query-Ends Anything _ w (λ a s e. tt)) (λ e w' h. tt)

  -- How an execution ends: as the handler ended, whatever becomes of the row.
  abbrev pub EndsAs : Run ToolResult → Run ToolResult → Type 0
  EndsAs (done r w) run = Ends (λ r' w'. r' ≡ r) (λ e w'. ⊥) run
  EndsAs (throws e w) run = Ends (λ r' w'. ⊥) (λ e' w'. e' ≡ e) run

  keep_result-EndsAs :
      (r : ToolResult) (run : Run Bool) → Ends (λ r' w'. r' ≡ r) (λ e w'. ⊥) (keep_result lib r run)
  unfolding keep_result
  keep_result-EndsAs r (done b w) = refl
  keep_result-EndsAs r (throws e w) = refl

  reset_then-Returns :
      (k : Key) (run : Run Bool)
      → Returns Anything run
      → Returns Anything (elim run [ done b w ↦ reset_unless lib k b w | throws x w ↦ throws x w ])
  reset_then-Returns k (done b w) h = reset_unless-Returns k b w
  reset_then-Returns k (throws x w) h = absurd h

  rethrow-EndsAs :
      (e : Thrown) (run : Run Bool)
      → Returns Anything run
      → Ends (λ r' w'. ⊥) (λ e' w'. e' ≡ e) (rethrow lib e run)
  unfolding rethrow
  rethrow-EndsAs e (done b w) h = refl
  rethrow-EndsAs e (throws x w) h = absurd h

  executed-EndsAs : (k : Key) (run : Run ToolResult) → EndsAs run (executed lib k run)
  unfolding executed on_execution_result on_execution_error persist_failure
  executed-EndsAs k (done r w) = keep_result-EndsAs r (update_with_retry lib k r (not r.success) w)
  executed-EndsAs k (throws e w) = rethrow-EndsAs e (persist_failure lib k e w) (
      reset_then-Returns k (update_with_retry lib k (failed_result lib e) true w)
        (update-Returns k (failed_result lib e) true w))

  -- The execution returns what the handler returned and throws what it threw, also where the row
  -- cannot be written.
  pub execute-EndsAs :
      (k : Key) (input : Value) (context : ToolContext) (next : Next) (w : World)
      → EndsAs (next input context w) (execute_and_update lib k input context next w)
  unfolding execute_and_update
  execute-EndsAs k input context next w = executed-EndsAs k (next input context w)

  pub finish-key :
      (r : ToolResult) (soft : Bool) (now : ℕ) (x : IdempotencyRecord)
      → key_of (finish_record lib r soft now x) ≡ key_of x
  unfolding finish_record
  finish-key r soft now x = refl

  update_record-quiet :
      (k : Key) (f : ℕ → IdempotencyRecord → IdempotencyRecord) (s : Store) (now : ℕ)
      {x : IdempotencyRecord}
      → find_unique k s.records ≡ some x
      → update_record k f (quiet s now)
        ≡ done true (quiet (record s { records = update k (f now) s.records }) now)
  unfolding update_record query arrive fault
  update_record-quiet k f s now e = ap (λ o. conclude (quiet s now) (update_found k (f now) s o)) e

  -- In a quiet environment the row is written at once.
  pub update-quiet :
      (k : Key) (r : ToolResult) (soft : Bool) (s : Store) (now : ℕ) {x : IdempotencyRecord}
      → find_unique k s.records ≡ some x
      → update_with_retry lib k r soft (quiet s now)
        ≡ done true
            (quiet (record s { records = update k (finish_record lib r soft now) s.records }) now)
  unfolding update_with_retry update_attempts
  update-quiet k r soft s now e =
      try_catch-done (update_record k (finish_record lib r soft))
        (on_update_error lib 2 (update_attempts lib 2 k r soft)) (quiet s now)
        (update_record-quiet k (finish_record lib r soft) s now e)

  -- The row then holds the handler's result, as a success or as a failure.
  pub execute-result :
      (k : Key) (input : Value) (context : ToolContext) (next : Next) (w : World) (r : ToolResult)
      (good : Bool) (s : Store) (now : ℕ) {x : IdempotencyRecord}
      → next input context w ≡ done r (quiet s now)
      → r.success ≡ good
      → find_unique k s.records ≡ some x
      → execute_and_update lib k input context next w
        ≡ done r (
            quiet
              (record s { records = update k (finish_record lib r (not good) now) s.records })
              now)
  unfolding execute_and_update executed on_execution_result
  execute-result k input context next w r good s now ran how e =
      ap (executed lib k) ran
      ∙ ap (λ b. keep_result lib r (update_with_retry lib k r (not b) (quiet s now))) how
      ∙ ap (keep_result lib r) (update-quiet k r (not good) s now e)

  pub finished-row :
      (k : Key) (r : ToolResult) (soft : Bool) (now : ℕ) (rs : Records) {x : IdempotencyRecord}
      → find_unique k rs ≡ some x
      → find_unique k (update k (finish_record lib r soft now) rs)
        ≡ some (finish_record lib r soft now x)
  finished-row k r soft now rs e =
      find_unique-update k (finish_record lib r soft now) rs (finish-key r soft now) e

  pub mark_failed-key :
      (now : ℕ) (x : IdempotencyRecord) → key_of (mark_failed lib now x) ≡ key_of x
  unfolding mark_failed
  mark_failed-key now x = refl
