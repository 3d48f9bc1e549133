-- ===== src/Idempotency/Exclusion/Overrun.antt =====
-- A handler that runs longer than the stale-pending threshold: its outcome is written by the key
-- alone, so it lands on the row of the request that took over.
use besterp.Prelude.{
  ℕ, ◌+◌, ◌<◌, ◌≤◌, ◌≡◌, refl, sym, ◌∙◌, inl, inr, true, false, some, arith, Bool-cases,
  some-eq_some, subst,
}
use besterp.Value.{Value}
use besterp.Support.{Support}
use besterp.Limits.{idempotency_stale_pending_threshold_ms}
use besterp.Store.{IdempotencyRecord, Records, Store, find_unique, update}
use besterp.Run.{done, quiet}
use besterp.Tool.{ToolResult, ToolContext, Next}
use besterp.Idempotency.Acquire.{Claim, acquire_tx}
use besterp.Idempotency.Acquire.Laws.{IsClaimed, IsExpired, IsAbandoned}
use besterp.Idempotency.Acquire.Claims.{IsFree, created_iff, created-Claimed}
use besterp.Idempotency.Acquire.Quiet.{after_tx}
use besterp.Idempotency.Execute.{finish_record}
use besterp.Idempotency.Execute.Laws.{execute-result, finished-row}
use besterp.Idempotency.Middleware.{run_claim}
use besterp.Idempotency.Middleware.Once.{run_claim-first}

-- A row that was claimed within the threshold is nobody else's.
claimed-IsHeld :
    (c : Claim) (t now : ℕ) (rs : Records) (row : IdempotencyRecord)
    → find_unique c.key rs ≡ some row
    → IsClaimed t c row
    → now ≤ t + idempotency_stale_pending_threshold_ms
    → ¬ IsFree now c rs
claimed-IsHeld c t now rs row here h early (inl e) = cc
claimed-IsHeld c t now rs row here h early (inr (r, e, inl old)) =
    let (u, expires, over) = subst (IsExpired now) (some-eq_some (sym e ∙ here)) old in
    ground (arith, h.expires, expires, over, early)
claimed-IsHeld c t now rs row here h early (inr (r, e, inr (own, left))) =
    elim (subst (IsAbandoned now) (some-eq_some (sym e ∙ here)) left) [
      | inl bad ↦ ground (arith, h.pending, bad)
      | inr (waits, inl never) ↦ ground (arith, h.created, never)
      | inr (waits, inr (u, created, long)) ↦ ground (arith, h.created, created, long, early)
    ]

module _ (lib : Support) (c : Claim) where
  finished-IsFree :
      (r : ToolResult) (t late now : ℕ) (rs : Records) (row : IdempotencyRecord)
      → find_unique c.key rs ≡ some row
      → IsClaimed t c row
      → IsFree now c (update c.key (finish_record lib r true late) rs)
  unfolding finish_record
  finished-IsFree r t late now rs row here h = inr (
    finish_record lib r true late row,
    finished-row lib c.key r true late rs here,
    inr (
      record {
        hash = h.owner.hash;
        tool = h.owner.tool;
        user = h.owner.user;
        agent = h.owner.agent;
      },
      inl refl,
    ),
  )

  takes_over :
      (s : Store) (t t' : ℕ)
      → (acquire_tx t c s.records).0.created ≡ true
      → t + idempotency_stale_pending_threshold_ms < t'
      → (acquire_tx t' c (after_tx t c s).records).0.created ≡ true
  takes_over s t t' first overrun =
      let (x, here, fresh) = created-Claimed t c s.records first in
      (created_iff t' c (after_tx t c s).records).1 (
        inr (
          x,
          here,
          inr (fresh.owner, inr (fresh.pending, inr (t, fresh.created, omega (arith, overrun)))),
        ))

  -- With the database quiet but for what happens while the handler runs: a first request claims
  -- its key, and its handler runs longer than the stale-pending threshold and fails. A second
  -- request with the same claim comes after the threshold, claims the key and still runs, so that
  -- the key's row is as its claim left it when the first handler ends. Then a third request with
  -- the claim, no later than the threshold after the second, is turned away before the first one's
  -- outcome is written, and claims the key, beside the second, once it is written.
  pub late_failure_reopens :
      (input : Value) (context : ToolContext) (next : Next) (s s' : Store) (t t' late now : ℕ)
      (r : ToolResult)
      → IsFree t c s.records
      → t + idempotency_stale_pending_threshold_ms < t'
      → next input context (quiet (after_tx t c s) t) ≡ done r (quiet s' late)
      → r.success ≡ false
      → find_unique c.key s'.records ≡ find_unique c.key (after_tx t' c (after_tx t c s)).records
      → now ≤ t' + idempotency_stale_pending_threshold_ms
      → ((acquire_tx t' c (after_tx t c s).records).0.created ≡ true)
        × ((acquire_tx now c s'.records).0.created ≡ false)
        × (s'' : Store) × (run_claim lib c input context next (quiet s t) ≡ done r (quiet s'' late))
        × ((acquire_tx now c s''.records).0.created ≡ true)
  late_failure_reopens input context next s s' t t' late now r free overrun ran bad same early =
      let first = (created_iff t c s.records).1 free in
      let second = takes_over s t t' first overrun in
      let (row, left, fresh) = created-Claimed t' c (after_tx t c s).records second in
      let here = same ∙ left in
      (
        second,
        elim (Bool-cases (acquire_tx now c s'.records).0.created) [
          | inr held ↦ held
          | inl claimed ↦ absurd (
              claimed-IsHeld c t' now s'.records row here fresh early
                ((created_iff now c s'.records).0 claimed))
        ],
        record s' { records = update c.key (finish_record lib r true late) s'.records },
        run_claim-first lib c input context next s t first
            ∙ execute-result lib c.key input context next (quiet (after_tx t c s) t) r false s' late
                ran bad here,
        (created_iff now c (update c.key (finish_record lib r true late) s'.records)).1
            (finished-IsFree r t' late now s'.records row here fresh),
      )
