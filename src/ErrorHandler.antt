-- ===== src/ErrorHandler.antt =====
-- packages/mcp-tools/src/middleware/error-handler.ts: what a handler throws becomes a result for the
-- agent. The sanitizers do not throw here, so the mapping of an error does not fail itself; the
-- writes to stderr are left out.
pub mod Laws
use besterp.Prelude.{Option, none, some, List, [], ◌∷◌, ◌++◌, ◌==◌, if◌then◌else◌, length}
use besterp.Text.{Text, lit, text_eq, includes}
use besterp.Value.{Value, undefined, string, object, field, end}
use besterp.Support.{Support}
use besterp.Run.{Thrown, Run, done, throws}
use besterp.Tool.{ToolResult, ToolDefinition, ToolMiddleware, RelatedTools, failure}
use besterp.AgentResult.{sanitize_agent_facing_result}

abbrev pub reference_error : Text
reference_error = lit "REFERENCE_ERROR"

abbrev pub database_error : Text
database_error = lit "DATABASE_ERROR"

abbrev pub database_connection_error : Text
database_connection_error = lit "DATABASE_CONNECTION_ERROR"

abbrev pub internal_error : Text
internal_error = lit "INTERNAL_ERROR"

abbrev pub duplicate_entity : Text
duplicate_entity = lit "DUPLICATE_ENTITY"

abbrev pub entity_not_found : Text
entity_not_found = lit "ENTITY_NOT_FOUND"

abbrev pub concurrency_conflict : Text
concurrency_conflict = lit "CONCURRENCY_CONFLICT"

abbrev pub tool_and_list : ToolDefinition → List Text
tool_and_list d = d.name ∷ lit "list_available_tools" ∷ []

code_text : Option Text → Text
code_text none = []
code_text (some code) = code

or_tools : List Text → List Text → List Text
or_tools [] fallback = fallback
or_tools (t ∷ ts) fallback = t ∷ ts

-- A `DomainError` has a code.
unfoldable pub handle_domain_error : Thrown → ToolDefinition → ToolResult
unfolding code_text or_tools
handle_domain_error e d =
    failure (code_text e.code) e.message (or_tools e.suggested_tools (tool_and_list d)) e.context

unfoldable pub resolve_related_tools : ToolDefinition → RelatedTools
resolve_related_tools d = elim d.related_tools [
  | none ↦ record { get = none; search = none }
  | some r ↦ r
]

-- `[…].filter((t): t is string => t !== undefined)`.
unfoldable pub present : List (Option Text) → List Text
present [] = []
present (none ∷ ts) = present ts
present (some t ∷ ts) = t ∷ present ts

search_hint : Option Text → Text → Text
search_hint none purpose = []
search_hint (some tool) purpose =
    lit " Use '" ++ tool ++ lit "' to find " ++ purpose ++ lit " records."

conflict_note : Option Text → Text
conflict_note none = []
conflict_note (some target) = lit " Conflicting field(s): " ++ target ++ lit "."

conflict_context : Option Text → Value
conflict_context none = undefined
conflict_context (some target) = object (field (lit "conflictingFields") (string target) end)

-- The codes of an entry of `PRISMA_ERROR_HANDLERS`, and of `CONNECTION_ERROR_CODES`.
abbrev pub connection_error_codes : List Text
connection_error_codes =
    lit "P1000" ∷ lit "P1001" ∷ lit "P1002" ∷ lit "P1003" ∷ lit "P1008" ∷ lit "P1017" ∷ []

module _ (lib : Support) where
  -- A target that is empty, or nothing once it is sanitized, is not told.
  clean_target : Option Text → Option Text
  clean_target none = none
  clean_target (some t) =
      let safe = lib.sanitize_for_log_output t in
      if length t == 0 then none else if length safe == 0 then none else some safe

  duplicate_error : ToolDefinition → Option Text → ToolResult
  unfolding resolve_related_tools present search_hint conflict_note conflict_context
  duplicate_error d target =
      let related = resolve_related_tools d in
      failure duplicate_entity
        (lit "A duplicate entity already exists."
          ++ conflict_note target
          ++ search_hint related.search (lit "existing"))
        (present (related.search ∷ some d.name ∷ [])) (conflict_context target)

  missing_error : ToolDefinition → Text → ToolResult
  unfolding resolve_related_tools present search_hint
  missing_error d entity =
      let related = resolve_related_tools d in
      failure entity_not_found
        (lit "The '"
          ++ entity
          ++ lit "' entity was not found."
          ++ search_hint related.search (lit "valid"))
        (present (related.search ∷ related.get ∷ some d.name ∷ [])) undefined

  concurrency_error : ToolDefinition → Text → ToolResult
  unfolding resolve_related_tools present
  concurrency_error d rest =
      let related = resolve_related_tools d in
      failure concurrency_conflict (lit "The '" ++ d.name ++ lit "' operation" ++ rest)
        (present (related.get ∷ some d.name ∷ [])) undefined

  related_error : ToolDefinition → Text → ToolResult
  unfolding resolve_related_tools present
  related_error d message =
      failure reference_error message
        (present ((resolve_related_tools d).search ∷ some d.name ∷ [])) undefined

  -- The handlers by their code, in no order that matters: a code has one.
  prisma_handler : Text → Option Text → Text → Text → ToolDefinition → Option ToolResult
  unfolding clean_target duplicate_error missing_error concurrency_error related_error
  prisma_handler code target entity plural d =
      if text_eq code (lit "P2002")
      then some (duplicate_error d (clean_target target))
      else if text_eq code (lit "P2025")
      then some (missing_error d entity)
      else if text_eq code (lit "P2034")
      then some (
          concurrency_error d (
            lit
              " conflicted with a concurrent update. Re-fetch the entity and retry with the same idempotency key (do not use a new key)."))
      else if text_eq code (lit "P2003")
      then some (
          related_error d (
            lit
              "A referenced entity was not found. Check foreign key values and ensure all referenced "
            ++ plural
            ++ lit " exist."))
      else if text_eq code (lit "P2000")
      then some (
          failure (lit "INVALID_INPUT")
            (lit
              "A field value is too long for the column. Check field length limits and retry with shorter values.")
            (d.name ∷ []) undefined)
      else if text_eq code (lit "P2014")
      then some (
          related_error d (
            lit
              "A required relation is missing or violates a constraint. Check that all required related "
            ++ plural
            ++ lit " exist and are properly linked."))
      else if text_eq code (lit "P2021")
      then some (
          failure database_error
            (lit
              "A database table is missing. The schema may need to be migrated. Try again after running migrations.")
            (lit "list_available_tools" ∷ []) undefined)
      else if text_eq code (lit "P2028")
      then some (
          concurrency_error d (
            lit " on "
            ++ entity
            ++ lit
                " timed out. Re-fetch the entity and retry with the same idempotency key (do not use a new key)."))
      else if text_eq code (lit "P2024")
      then some (
          failure database_connection_error
            (lit "The '"
              ++ d.name
              ++ lit
                  "' operation timed out waiting for a database connection from the pool. The service may be under heavy load. Retry the same request with the same idempotency key (do not use a new key — the first attempt's outcome is unknown).")
            (tool_and_list d) undefined)
      else none

  unfoldable pub handle_prisma_error :
      Text → Option Text → Text → Text → ToolDefinition → Option ToolResult
  unfolding prisma_handler
  handle_prisma_error code target entity plural d =
      if includes code connection_error_codes
      then some (
          failure database_connection_error
            (lit
              "The database connection failed. The service may be temporarily unavailable. Retry the same request with the same idempotency key (do not use a new key).")
            (lit "list_available_tools" ∷ []) undefined)
      else prisma_handler code target entity plural d

  unfoldable pub handle_generic_error : ToolDefinition → ToolResult
  handle_generic_error d =
      failure internal_error
        (lit "Unexpected error in '"
          ++ d.name
          ++ lit
              "'. Check server logs for details. If this was a write, retry the same request with the same idempotency key (do not use a new key).")
        (tool_and_list d) undefined

  or_generic : ToolDefinition → Option ToolResult → ToolResult
  or_generic d none = handle_generic_error d
  or_generic d (some r) = r

  entity_name : Option Text → Text
  entity_name none = lit "entity"
  entity_name (some e) = e

  -- An empty code is no code.
  of_code : ToolDefinition → Option Text → Option Text → ToolResult
  unfolding or_generic entity_name
  of_code d target none = handle_generic_error d
  of_code d target (some code) =
      if length code == 0
      then handle_generic_error d
      else or_generic d (
          handle_prisma_error code target (entity_name d.entity)
            (lib.pluralize (entity_name d.entity)) d)

  unfoldable pub handle_error : ToolDefinition → Thrown → ToolResult
  unfolding of_code
  handle_error d e = if e.is_domain then handle_domain_error e d else of_code d e.target e.code

  caught : ToolDefinition → Run ToolResult → Run ToolResult
  caught d (done r w) = done r w
  caught d (throws e w) = done (sanitize_agent_facing_result lib (handle_error d e)) w

  unfoldable pub error_handler_middleware : ToolMiddleware
  unfolding caught
  error_handler_middleware input context d next w = caught d (next input context w)
