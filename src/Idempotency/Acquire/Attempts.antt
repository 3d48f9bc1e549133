-- ===== src/Idempotency/Acquire/Attempts.antt =====
-- The acquisition loop in any environment: it always returns, whatever fails and whoever interferes.
use besterp.Prelude.{ℕ, zero, suc, ◌≡◌, refl, ap, inl, inr, Option, none, some, Bool-cases}
use besterp.Text.{lit}
use besterp.Store.{IdempotencyRecord, Key, find_unique}
use besterp.Run.{World, Thrown, Run, done, throws, M, pure, query, commit, arrive}
use besterp.Run.Laws.{Returns, Ends, query_commit-Ends, catch-Returns}
use besterp.Idempotency.Acquire.{
  Claim, Acquired, created_record, found_record, contended, out_of_service, acquire_tx,
  run_acquire_tx, live_record, is_expired_record, read_idempotency_record, has_code, after_read,
  last_or_retry, on_acquire_error, acquire_attempts, acquire_idempotency_record,
}
use besterp.Idempotency.Acquire.Laws.{IsExpired, IsExpired→is_expired, Claimed}
use besterp.Idempotency.Acquire.Claims.{created-Claimed, created-existing, refused-kept}

-- How an acquisition may end: the key is claimed and its row is fresh, or a live row of the table is
-- handed over, or the request lost every race, or the store could not be used.
pub data Acquisition (c : Claim) (a : Acquired) (w : World) : Type 0 where
  claimed : a ≡ created_record → Claimed w.now c w.store.records → Acquisition c a w
  found :
      (r : IdempotencyRecord)
      → a ≡ found_record r
      → find_unique c.key w.store.records ≡ some r
      → ¬ IsExpired w.now r
      → Acquisition c a w
  lost : a ≡ contended → Acquisition c a w
  failed : a ≡ out_of_service → Acquisition c a w

acquire_tx-Acquisition :
    (c : Claim) (w : World)
    → Acquisition c
        (acquire_tx w.now c w.store.records).0
        (record w { store = record w.store { records = (acquire_tx w.now c w.store.records).1 } })
acquire_tx-Acquisition c w = elim (Bool-cases (acquire_tx w.now c w.store.records).0.created) [
  | inl is_created ↦
      claimed (created-existing w.now c w.store.records is_created)
        (created-Claimed w.now c w.store.records is_created)
  | inr not_ ↦
      let (r, here, live, same) = refused-kept w.now c w.store.records not_ in
      found r (ap (λ o. o.0) same) (rw same here) live
]

run_acquire_tx-Ends :
    (c : Claim) (w : World) → Ends (Acquisition c) (λ e w'. w' ≡ arrive w) (run_acquire_tx c w)
unfolding run_acquire_tx
run_acquire_tx-Ends c w =
    query_commit-Ends (Acquisition c) _ _ w (acquire_tx-Acquisition c (arrive w))

-- What a read of the row says.
abbrev IsRead : Key → Option IdempotencyRecord → World → Type 0
IsRead k none w = Unit
IsRead k (some r) w = (find_unique k w.store.records ≡ some r) × ¬ IsExpired w.now r

live_record-IsRead :
    (k : Key) (w : World) (o : Option IdempotencyRecord)
    → find_unique k w.store.records ≡ o
    → IsRead k (live_record w.now o) w
unfolding live_record
live_record-IsRead k w none e = tt
live_record-IsRead k w (some r) e = elim (Bool-cases (is_expired_record w.now r)) [
  | inl old ↦ rw old tt
  | inr young ↦ rw young (e, λ h. cc (young, IsExpired→is_expired w.now r h))
]

IsRead-Returns : (k : Key) (w : World) → Returns (IsRead k) (read_idempotency_record k w)
unfolding read_idempotency_record
IsRead-Returns k w =
    catch-Returns (IsRead k)
      (query (λ now s. commit (live_record now (find_unique k s.records)) s) w) (λ e. pure none)
      (query_commit-Ends (IsRead k) (λ now s. live_record now (find_unique k s.records))
        (λ now s. s) w
        (live_record-IsRead k (arrive w) (find_unique k (arrive w).store.records) refl))
      (λ e w' h. tt)

module _ (c : Claim) (retry : M Acquired)
    (again : (w : World) → Returns (Acquisition c) (retry w)) where
  after_read-Returns :
      (left : ℕ) (o : Option IdempotencyRecord) (w : World)
      → IsRead c.key o w
      → Returns (Acquisition c) (after_read left retry o w)
  unfolding after_read
  after_read-Returns left (some r) w (here, live) = found r refl here live
  after_read-Returns zero none w h = failed refl
  after_read-Returns (suc left) none w h = again w

  read_then-Returns :
      (left : ℕ) (r : Run (Option IdempotencyRecord))
      → Returns (IsRead c.key) r
      → Returns
          (Acquisition c)
          (elim r [ done o w ↦ after_read left retry o w | throws e w ↦ throws e w ])
  read_then-Returns left (done o w) h = after_read-Returns left o w h
  read_then-Returns left (throws e w) h = absurd h

  last_or_retry-Returns :
      (left : ℕ) (w : World) → Returns (Acquisition c) (last_or_retry left retry w)
  unfolding last_or_retry
  last_or_retry-Returns zero w = lost refl
  last_or_retry-Returns (suc left) w = again w

  on_acquire_error-Returns :
      (left : ℕ) (e : Thrown) (w : World)
      → Returns (Acquisition c) (on_acquire_error left c retry e w)
  unfolding on_acquire_error
  on_acquire_error-Returns left e w = elim (Bool-cases (has_code e (lit "P2034"))) [
    | inl conflict ↦ rw conflict (last_or_retry-Returns left w)
    | inr other ↦ elim (Bool-cases (has_code e (lit "P2002"))) [
      | inl duplicate ↦
          rw (other, duplicate)
            (read_then-Returns left (read_idempotency_record c.key w) (IsRead-Returns c.key w))
      | inr fatal ↦ rw (other, fatal) (failed refl)
    ]
  ]

acquire_attempts-Returns :
    (left : ℕ) (c : Claim) (w : World) → Returns (Acquisition c) (acquire_attempts left c w)
unfolding acquire_attempts
acquire_attempts-Returns zero c w = lost refl
acquire_attempts-Returns (suc left) c w =
    catch-Returns (Acquisition c) (run_acquire_tx c w)
      (on_acquire_error left c (acquire_attempts left c)) (run_acquire_tx-Ends c w)
      (λ e w' h.
        on_acquire_error-Returns c (acquire_attempts left c) (acquire_attempts-Returns left c) left
          e w')

-- In any environment, whatever other requests commit and whatever the database throws, acquiring
-- returns: the key is claimed, or a live row of the key was read, or the request is told of
-- contention or of an unavailable service.
pub acquire-Returns :
    (c : Claim) (w : World) → Returns (Acquisition c) (acquire_idempotency_record c w)
unfolding acquire_idempotency_record
acquire-Returns c w = acquire_attempts-Returns 3 c w
