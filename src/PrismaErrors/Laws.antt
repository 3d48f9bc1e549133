-- ===== src/PrismaErrors/Laws.antt =====
-- One error of the database on its two ways to the agent: mapped by the service that met it and then
-- handled as a domain error, or handled as it is.
use besterp.Prelude.{◌≡◌, refl, false, Option, none, some}
use besterp.Text.{Text, lit, text_eq, includes}
use besterp.Support.{Support}
use besterp.Run.{Thrown}
use besterp.Platform.{Platform}
use besterp.Tool.{ToolDefinition, ToolError, ToolResult}
use besterp.ErrorHandler.{handle_error, handle_domain_error, handle_prisma_error}
use besterp.PrismaErrors.{
  handle_transaction_error, is_prisma_code, is_engine_code, map_prisma_error, conflict_error,
  missing_error, retry_error,
}

-- The code of the database's client, and the one that an agent acts on: try another value, look the
-- entity up again, retry, or wait for the connection.
pub data ToldAs : Text → Text → Type 0 where
  unique : ToldAs (lit "P2002") (lit "DUPLICATE_ENTITY")
  missing : ToldAs (lit "P2025") (lit "ENTITY_NOT_FOUND")
  conflict : ToldAs (lit "P2034") (lit "CONCURRENCY_CONFLICT")
  timed_out : ToldAs (lit "P2028") (lit "CONCURRENCY_CONFLICT")
  denied : ToldAs (lit "P1000") (lit "DATABASE_CONNECTION_ERROR")
  unreachable : ToldAs (lit "P1001") (lit "DATABASE_CONNECTION_ERROR")
  slow : ToldAs (lit "P1002") (lit "DATABASE_CONNECTION_ERROR")
  no_database : ToldAs (lit "P1003") (lit "DATABASE_CONNECTION_ERROR")
  over_time : ToldAs (lit "P1008") (lit "DATABASE_CONNECTION_ERROR")
  closed : ToldAs (lit "P1017") (lit "DATABASE_CONNECTION_ERROR")

code_of : Option ToolError → Option Text
code_of none = none
code_of (some e) = some e.code

-- The code in a result.
unfoldable pub told : ToolResult → Option Text
unfolding code_of
told r = code_of r.error

module _ (lib : Support) (d : ToolDefinition) (env : Platform) (retry suggest entity : Text) where
  -- For a unique or missing row, a conflict or a timeout of a transaction and a failed connection,
  -- the agent is told the code of `ToldAs` both where the service has mapped the error first and
  -- where it has not.
  pub handle_error-handle_transaction_error :
      (e : Thrown) (code answer : Text)
      → ToldAs code answer
      → e.is_domain ≡ false
      → e.code ≡ some code
      → (told (handle_error lib d (handle_transaction_error env retry suggest entity e))
          ≡ some answer)
        × (told (handle_error lib d e) ≡ some answer)
  unfolding told handle_error handle_domain_error handle_prisma_error handle_transaction_error
      is_prisma_code is_engine_code map_prisma_error conflict_error missing_error retry_error
      includes text_eq
  handle_error-handle_transaction_error e code answer unique raw h = rw (h, raw) (refl, refl)
  handle_error-handle_transaction_error e code answer missing raw h = rw (h, raw) (refl, refl)
  handle_error-handle_transaction_error e code answer conflict raw h = rw (h, raw) (refl, refl)
  handle_error-handle_transaction_error e code answer timed_out raw h = rw (h, raw) (refl, refl)
  handle_error-handle_transaction_error e code answer denied raw h = rw (h, raw) (refl, refl)
  handle_error-handle_transaction_error e code answer unreachable raw h = rw (h, raw) (refl, refl)
  handle_error-handle_transaction_error e code answer slow raw h = rw (h, raw) (refl, refl)
  handle_error-handle_transaction_error e code answer no_database raw h = rw (h, raw) (refl, refl)
  handle_error-handle_transaction_error e code answer over_time raw h = rw (h, raw) (refl, refl)
  handle_error-handle_transaction_error e code answer closed raw h = rw (h, raw) (refl, refl)
