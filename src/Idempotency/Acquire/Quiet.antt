-- ===== src/Idempotency/Acquire/Quiet.antt =====
-- The acquisition where nobody else works and nothing fails.
use besterp.Prelude.{ℕ, ◌≡◌, refl, some, arith}
use besterp.Store.{IdempotencyRecord, Records, Store, completed, find_unique}
use besterp.Run.{done, quiet, query, arrive, fault}
use besterp.Run.Laws.{try_catch-done}
use besterp.Idempotency.Acquire.{
  Claim, Acquired, found_record, acquire_tx, run_acquire_tx, on_acquire_error, acquire_attempts,
  acquire_idempotency_record,
}
use besterp.Idempotency.Acquire.Laws.{IsExpired, Outcome, replaced, taken, kept, acquire_tx-Outcome}

abbrev pub after_tx : ℕ → Claim → Store → Store
after_tx t c s = record s { records = (acquire_tx t c s.records).1 }

-- In a quiet environment one transaction is enough.
pub acquire-quiet :
    (c : Claim) (s : Store) (t : ℕ)
    → acquire_idempotency_record c (quiet s t)
      ≡ done (acquire_tx t c s.records).0 (quiet (after_tx t c s) t)
unfolding acquire_idempotency_record run_acquire_tx query arrive fault
acquire-quiet c s t =
    try_catch-done (run_acquire_tx c) (on_acquire_error 2 c (acquire_attempts 2 c)) (quiet s t) refl

module _ (t : ℕ) (c : Claim) (rs : Records) (r : IdempotencyRecord) where
  completed-Outcome :
      (o : Acquired × Records)
      → r.status ≡ completed
      → ¬ IsExpired t r
      → Outcome t c r rs o
      → o ≡ (found_record r, rs)
  completed-Outcome o e live (replaced old) = absurd (live old)
  completed-Outcome o e live (taken _ _ left) = ground arith
  completed-Outcome o e live (kept _ _) = refl

  -- A live row with an outcome is never claimed.
  pub acquire_tx-completed :
      find_unique c.key rs ≡ some r
      → r.status ≡ completed
      → ¬ IsExpired t r
      → acquire_tx t c rs ≡ (found_record r, rs)
  acquire_tx-completed here e live =
      completed-Outcome (acquire_tx t c rs) e live (acquire_tx-Outcome t c rs here)
