-- ===== src/Tests/Audited.antt =====
-- The theorem on the audit trail's manager after a write.
use besterp.Prelude.{false}
use besterp.Backpressure.Laws.{System, start, logs}

abbrev one_write : System
one_write = logs false start
