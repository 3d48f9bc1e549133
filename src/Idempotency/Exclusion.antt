-- ===== src/Idempotency/Exclusion.antt =====
-- Many requests at once over one idempotency table: each transaction and each update of
-- packages/mcp-tools/src/middleware/idempotency.ts is one step, in any order. `running` are the
-- requests whose handlers run. Time passes only so far that no handler runs longer than the
-- stale-pending threshold; `Overrun` drops this assumption. A request
-- ends with the write of its outcome: a second write, after one whose acknowledgement was lost, is no
-- step.
pub mod Laws
pub mod Overrun
use besterp.Prelude.{ℕ, ◌+◌, ◌≤◌, ◌≡◌, Bool, true, false, some, List, ◌∷◌, All}
use besterp.Support.{Support}
use besterp.Limits.{idempotency_stale_pending_threshold_ms}
use besterp.Store.{IdempotencyRecord, Key, Records, find_unique, delete, update}
use besterp.Tool.{ToolResult}
use besterp.Idempotency.Acquire.{Claim, acquire_tx}
use besterp.Idempotency.Acquire.Laws.{IsExpired}
use besterp.Idempotency.Execute.{finish_record, mark_failed}

pub record Running : Type 0 where
  pub claim : Claim
  pub started : ℕ

pub record Shared : Type 0 where
  pub records : Records
  pub now : ℕ
  pub running : List Running

-- `ls'` is `ls` without one `l`.
pub data Removes (l : Running) : List Running → List Running → Type 0 where
  here : {ls : List Running} → Removes l (l ∷ ls) ls
  there : {x : Running} {ls ls' : List Running} → Removes l ls ls' → Removes l (x ∷ ls) (x ∷ ls')

abbrev pub IsTimely : ℕ → Running → Type 0
IsTimely now l = now ≤ l.started + idempotency_stale_pending_threshold_ms

module _ (lib : Support) where
  pub data Step (s : Shared) : Shared → Type 0 where
    -- The transaction claims the key, and the handler starts.
    begins :
        (c : Claim)
        → (acquire_tx s.now c s.records).0.created ≡ true
        → Step s (record s {
          records = (acquire_tx s.now c s.records).1;
          running = record { claim = c; started = s.now } ∷ s.running;
        })
    -- The transaction does not claim the key.
    turned_away :
        (c : Claim)
        → (acquire_tx s.now c s.records).0.created ≡ false
        → Step s (record s { records = (acquire_tx s.now c s.records).1 })
    -- The handler has ended, and the update of the row is written.
    finishes :
        (l : Running) (r : ToolResult) (soft : Bool) {rest : List Running}
        → Removes l s.running rest
        → Step s (record s {
          records = update l.claim.key (finish_record lib r soft s.now) s.records;
          running = rest;
        })
    -- The handler has thrown, and only the last fallback is written.
    fails_over :
        (l : Running) {rest : List Running}
        → Removes l s.running rest
        → Step s (record s {
          records = update l.claim.key (mark_failed lib s.now) s.records;
          running = rest;
        })
    -- The handler has ended, or its process has, and nothing is written.
    gives_up :
        (l : Running) {rest : List Running}
        → Removes l s.running rest
        → Step s (record s { running = rest })
    -- The cleanup job deletes a row whose time is over.
    cleans :
        (k : Key) (r : IdempotencyRecord)
        → find_unique k s.records ≡ some r
        → IsExpired s.now r
        → Step s (record s { records = delete k s.records })
    waits : (n : ℕ) → All (IsTimely (s.now + n)) s.running → Step s (record s { now = s.now + n })

  pub data Reach (s : Shared) : Shared → Type 0 where
    start : Reach s s
    next : {t u : Shared} → Reach s t → Step t u → Reach s u
