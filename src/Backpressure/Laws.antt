-- ===== src/Backpressure/Laws.antt =====
-- The audit trail's manager under any order of logs, ends of writes and timeouts.
use besterp.Prelude.{
  ℕ, ◌+◌, ◌≤◌, ◌<◌, ◌≡◌, Bool, true, Option, none, some, List, [], ◌∷◌, ◌++◌, if◌then◌else◌, length,
}
use besterp.Limits.{max_concurrent_audit_writes, max_audit_queue_size}
use besterp.Backpressure.{
  Backpressure, Slot, acquired, waiting, dropped, Logged, log, is_queued, remove_entry, time_out,
  Released, end_write,
}

-- The manager with the entries that hold a slot, how many entries were logged, and how many of them
-- were written without an error.
pub record System : Type 0 where
  pub manager : Backpressure
  pub writing : List ℕ
  pub logged : ℕ
  pub written : ℕ

abbrev pub start : System
start = record {
  manager = record { active_writes = 0; write_queue = []; dropped_count = 0; error_count = 0 };
  writing = [];
  logged = 0;
  written = 0;
}

abbrev hold : Slot → ℕ → List ℕ → List ℕ
hold acquired e es = e ∷ es
hold waiting e es = es
hold dropped e es = es

abbrev hold_next : Option ℕ → List ℕ → List ℕ
hold_next none es = es
hold_next (some e) es = e ∷ es

-- The entries are numbered in the order in which they are logged.
abbrev after_log : System → Logged → System
after_log x l = record x {
  manager = l.manager;
  writing = hold l.slot x.logged x.writing;
  logged = x.logged + 1;
}

abbrev pub logs : Bool → System → System
logs timer_fails x = after_log x (log timer_fails x.logged x.manager)

abbrev after_end : ℕ → ℕ → System → Released → System
after_end written e x r = record x {
  manager = r.manager;
  writing = hold_next r.next (remove_entry e x.writing);
  written = written;
}

abbrev pub ends : ℕ → Bool → System → System
ends e failed x =
    after_end (if failed then x.written else x.written + 1) e x (end_write failed x.manager)

pub data Step (x : System) : System → Type 0 where
  log_step : (timer_fails : Bool) → Step x (logs timer_fails x)
  end_step : (e : ℕ) (failed : Bool) → is_queued e x.writing ≡ true → Step x (ends e failed x)
  timeout_step : (e : ℕ) → Step x (record x { manager = time_out e x.manager })

pub data Reach : System → Type 0 where
  begin : Reach start
  step : {x y : System} → Reach x → Step x y → Reach y

-- A slot is held by each running write and by nothing else; the bounds hold; nobody waits while a
-- slot is free; and each logged entry is being written, waits, was written without an error, or was
-- counted as failed or as dropped.
pub record IsBalanced (x : System) : Type 0 where
  pub slots : x.manager.active_writes ≡ length x.writing
  pub bounded : x.manager.active_writes ≤ max_concurrent_audit_writes
  pub queue_bounded : length x.manager.write_queue ≤ max_audit_queue_size
  pub busy :
      x.manager.active_writes < max_concurrent_audit_writes → length x.manager.write_queue ≡ 0
  pub accounted :
      x.logged
      ≡ length x.writing
        + length x.manager.write_queue
        + x.written
        + x.manager.error_count
        + x.manager.dropped_count

module _ (x : System) (ok : IsBalanced x) where
  abbrev granted : Logged
  granted = record {
    manager = record x.manager { active_writes = x.manager.active_writes + 1 };
    slot = acquired;
  }

  abbrev enqueued : Logged
  enqueued = record {
    manager = record x.manager { write_queue = x.manager.write_queue ++ x.logged ∷ [] };
    slot = waiting;
  }
