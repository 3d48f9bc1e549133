-- ===== src/Idempotency.antt =====
-- packages/mcp-tools/src/middleware/idempotency.ts, the guard that executes a write once per key.
pub mod Key
pub mod Errors
pub mod Acquire
pub mod Existing
pub mod Execute
pub mod Middleware
pub mod Exclusion
