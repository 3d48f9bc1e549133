-- ===== src/Backpressure.antt =====
-- packages/mcp-tools/src/middleware/audit-log.ts, `createBackpressureManager`: at most 100 audit rows
-- are written at once and at most 1000 entries wait; what is over, or waits too long, is dropped and
-- counted. Entries stand for numbers here; the row that an entry becomes is not modelled.
pub mod Laws
use besterp.Prelude.{
  ℕ, ◌+◌, ◌-◌, Bool, Option, none, some, List, [], ◌∷◌, ◌++◌, ltb, leb, ◌==◌, if◌then◌else◌, length,
  any,
}
use besterp.Limits.{max_concurrent_audit_writes, max_audit_queue_size}

-- An entry leaves the queue when it is settled, so `settled` is whether it is there.
pub record Backpressure : Type 0 where
  pub active_writes : ℕ
  pub write_queue : List ℕ
  pub dropped_count : ℕ
  pub error_count : ℕ

-- What a new entry meets: a slot, a place in the queue, or neither.
pub data Slot : Type 0 where
  acquired waiting dropped : Slot

pub record Logged : Type 0 where
  pub manager : Backpressure
  pub slot : Slot

drop_entry : Backpressure → Logged
drop_entry b = record { manager = record b { dropped_count = b.dropped_count + 1 }; slot = dropped }

-- `setTimeout` may fail.
unfoldable pub acquire_write_slot : Bool → ℕ → Backpressure → Logged
unfolding drop_entry
acquire_write_slot timer_fails entry b =
    if ltb b.active_writes max_concurrent_audit_writes
    then record { manager = record b { active_writes = b.active_writes + 1 }; slot = acquired }
    else if timer_fails
    then drop_entry b
    else record { manager = record b { write_queue = b.write_queue ++ entry ∷ [] }; slot = waiting }

unfoldable pub log : Bool → ℕ → Backpressure → Logged
unfolding drop_entry
log timer_fails entry b =
    if leb max_audit_queue_size (length b.write_queue)
    then drop_entry b
    else acquire_write_slot timer_fails entry b

unfoldable pub is_queued : ℕ → List ℕ → Bool
is_queued entry queue = any (λ e. e == entry) queue

-- `splice(indexOf(entry), 1)`.
unfoldable pub remove_entry : ℕ → List ℕ → List ℕ
remove_entry entry [] = []
remove_entry entry (e ∷ es) =
    let rest = remove_entry entry es in if e == entry then es else e ∷ rest

-- The timer of an entry that waits too long.
unfoldable pub time_out : ℕ → Backpressure → Backpressure
unfolding is_queued
time_out entry b =
    if is_queued entry b.write_queue
    then record b {
      write_queue = remove_entry entry b.write_queue;
      dropped_count = b.dropped_count + 1;
    }
    else b

pub record Released : Type 0 where
  pub manager : Backpressure
  -- The entry that the slot goes to.
  pub next : Option ℕ

hand_over : Backpressure → List ℕ → Released
hand_over b [] = record { manager = record b { active_writes = b.active_writes - 1 }; next = none }
hand_over b (e ∷ es) = record {
  manager = record b { active_writes = b.active_writes - 1 + 1; write_queue = es };
  next = some e;
}

unfoldable pub release_write_slot : Backpressure → Released
unfolding hand_over
release_write_slot b =
    if b.active_writes == 0 then record { manager = b; next = none } else hand_over b b.write_queue

-- A write that ends, with an error or without.
unfoldable pub end_write : Bool → Backpressure → Released
unfolding release_write_slot
end_write failed b =
    release_write_slot (if failed then record b { error_count = b.error_count + 1 } else b)
