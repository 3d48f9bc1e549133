-- ===== src/Idempotency/Acquire.antt =====
-- `acquireIdempotencyRecord`: the serializable transaction that claims a key, and the loop round it.
-- The clock is read once in a transaction; the source reads it a few times within one.
pub mod Laws
pub mod Claims
pub mod Attempts
pub mod Quiet
use besterp.Prelude.{
  ℕ, zero, suc, ◌+◌, ◌-◌, Bool, true, false, ◌&&◌, Option, none, some, ◌∷◌, ltb, leb, if◌then◌else◌,
}
use besterp.Text.{Text, lit, text_eq}
use besterp.Value.{null}
use besterp.Limits.{
  idempotency_ttl_ms, idempotency_stale_pending_threshold_ms, idempotency_max_retries,
}
use besterp.Store.{
  IdempotencyRecord, Key, Records, Status, pending, completed, failed, unknown, find_unique, delete,
  update,
}
use besterp.Run.{M, Thrown, ◌>>=◌, pure, try_catch, query, commit}

-- What a request is, for its deduplication: the sanitized caller, the tool and the hashed input.
pub record Claim : Type 0 where
  pub key : Key
  pub user : Text
  pub agent : Option Text
  pub conversation : Option Text
  pub tool : Text
  pub input_hash : Text

pub record Acquired : Type 0 where
  pub existing : Option IdempotencyRecord
  pub created : Bool
  pub unavailable : Bool

abbrev pub created_record : Acquired
created_record = record { existing = none; created = true; unavailable = false }

abbrev pub found_record : IdempotencyRecord → Acquired
found_record r = record { existing = some r; created = false; unavailable = false }

abbrev pub contended : Acquired
contended = record { existing = none; created = false; unavailable = false }

abbrev pub out_of_service : Acquired
out_of_service = record { existing = none; created = false; unavailable = true }

abbrev is_expired_at : Option ℕ → ℕ → Bool
is_expired_at none now = false
is_expired_at (some expiry) now = leb expiry now

unfoldable pub is_expired_record : ℕ → IdempotencyRecord → Bool
is_expired_record now r = is_expired_at r.expires_at now

unfoldable pub same_agent : Option Text → Option Text → Bool
same_agent none none = true
same_agent (some a) (some b) = text_eq a b
same_agent _ _ = false

unfoldable pub is_same_caller : IdempotencyRecord → Text → Option Text → Bool
is_same_caller r user agent = text_eq r.user_id user && same_agent r.agent_id agent

unfoldable pub can_claim_record : IdempotencyRecord → Claim → Bool
can_claim_record r c =
    text_eq r.input_hash c.input_hash
    && text_eq r.tool_name c.tool
    && is_same_caller r c.user c.agent

-- The row that a first request creates. `createdAt` is the column's default.
unfoldable pub fresh_record : ℕ → Claim → IdempotencyRecord
fresh_record now c = record {
  idempotency_key = c.key.key;
  tool_name = c.tool;
  tenant_id = c.key.tenant;
  user_id = c.user;
  agent_id = c.agent;
  conversation_id = c.conversation;
  status = pending;
  input_hash = c.input_hash;
  result = null;
  error = null;
  created_at = some now;
  completed_at = none;
  expires_at = some (now + idempotency_ttl_ms);
}

-- The update by which a request takes over a failed or an abandoned row.
unfoldable pub reset_record : ℕ → Claim → IdempotencyRecord → IdempotencyRecord
reset_record now c r = record r {
  status = pending;
  input_hash = c.input_hash;
  created_at = some now;
  expires_at = some (now + idempotency_ttl_ms);
  error = null;
}

unfoldable pub take_over : ℕ → Claim → IdempotencyRecord → Records → Acquired × Records
take_over now c r rs =
    if can_claim_record r c
    then (created_record, update c.key (reset_record now c) rs)
    else (found_record r, rs)

-- `Date.now() - createdAt > threshold`: a row from the future is not stale.
abbrev pub is_stale : ℕ → ℕ → Bool
is_stale now created = ltb idempotency_stale_pending_threshold_ms (now - created)

acquire_pending : ℕ → Claim → IdempotencyRecord → Option ℕ → Records → Acquired × Records
acquire_pending now c r none rs = take_over now c r rs
acquire_pending now c r (some created) rs =
    if is_stale now created then take_over now c r rs else (found_record r, rs)

acquire_live : ℕ → Claim → IdempotencyRecord → Status → Records → Acquired × Records
acquire_live now c r failed rs = take_over now c r rs
acquire_live now c r pending rs = acquire_pending now c r r.created_at rs
acquire_live now c r completed rs = (found_record r, rs)
acquire_live now c r (unknown s) rs = (found_record r, rs)

acquire_row : ℕ → Claim → Option IdempotencyRecord → Records → Acquired × Records
acquire_row now c none rs = (created_record, fresh_record now c ∷ rs)
acquire_row now c (some r) rs =
    if is_expired_record now r
    then (created_record, fresh_record now c ∷ delete c.key rs)
    else acquire_live now c r r.status rs

-- The body of the transaction.
unfoldable pub acquire_tx : ℕ → Claim → Records → Acquired × Records
unfolding take_over acquire_pending acquire_live acquire_row
acquire_tx now c rs = acquire_row now c (find_unique c.key rs) rs

unfoldable pub run_acquire_tx : Claim → M Acquired
run_acquire_tx c = query (λ now s.
    commit (acquire_tx now c s.records).0 (record s { records = (acquire_tx now c s.records).1 }))

live_record : ℕ → Option IdempotencyRecord → Option IdempotencyRecord
live_record now none = none
live_record now (some r) = if is_expired_record now r then none else some r

-- A read that fails reads as no row.
unfoldable pub read_idempotency_record : Key → M (Option IdempotencyRecord)
unfolding live_record
read_idempotency_record k =
    try_catch (query (λ now s. commit (live_record now (find_unique k s.records)) s))
      (λ e. pure none)

abbrev pub has_code : Thrown → Text → Bool
has_code e code = elim e.code [ none ↦ false | some c ↦ text_eq c code ]

after_read : ℕ → M Acquired → Option IdempotencyRecord → M Acquired
after_read left retry (some r) = pure (found_record r)
after_read zero retry none = pure out_of_service
after_read (suc left) retry none = retry

last_or_retry : ℕ → M Acquired → M Acquired
last_or_retry zero retry = pure contended
last_or_retry (suc left) retry = retry

-- The handler of a failed attempt, with `left` attempts to come.
on_acquire_error : ℕ → Claim → M Acquired → Thrown → M Acquired
on_acquire_error left c retry e =
    if has_code e (lit "P2034")
    then last_or_retry left retry
    else if has_code e (lit "P2002")
    then (read_idempotency_record c.key >>= after_read left retry)
    else pure out_of_service

-- The loop, by the attempts left.
unfoldable pub acquire_attempts : ℕ → Claim → M Acquired
unfolding after_read last_or_retry on_acquire_error
acquire_attempts zero c = pure contended
acquire_attempts (suc left) c =
    let retry : M Acquired = acquire_attempts left c in
    try_catch (run_acquire_tx c) (on_acquire_error left c retry)

unfoldable pub acquire_idempotency_record : Claim → M Acquired
unfolding acquire_attempts
acquire_idempotency_record c = acquire_attempts idempotency_max_retries c
