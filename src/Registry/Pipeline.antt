-- ===== src/Registry/Pipeline.antt =====
-- The middlewares of a tool composed around its handler (`reduceRight` in `ToolRegistry.execute`).
pub mod Laws
use besterp.Prelude.{List, [], ◌∷◌, ◌++◌}
use besterp.Text.{Text, lit}
use besterp.Value.{field, end, object}
use besterp.Support.{Support}
use besterp.Run.{M, pure, ◌>>=◌}
use besterp.Tool.{
  ToolContext, ToolResult, ToolDefinition, ToolMiddleware, Next, Parsed, valid, invalid, failure,
  Issue,
}
use besterp.AgentResult.{sanitize_agent_facing_result}
use besterp.Registry.Envelope.{strip_envelope_keys}

abbrev pub invalid_input : Text
invalid_input = lit "INVALID_INPUT"

module _ (lib : Support) where
  unfoldable pub invalid_input_error : Text → List Issue → ToolResult
  invalid_input_error tool issues =
      failure invalid_input (lit "Input validation failed: " ++ lib.issue_summary issues)
        (tool ∷ []) (object (field (lit "issues") (lib.sanitize_issues issues) end))

  call_handler : ToolDefinition → ToolContext → Parsed → M ToolResult
  call_handler d context (invalid issues) =
      pure (sanitize_agent_facing_result lib (invalid_input_error d.name issues))
  call_handler d context (valid parsed) =
      d.handler parsed context >>= λ r. pure (sanitize_agent_facing_result lib r)

  -- The innermost function: it validates the input, and calls the handler on what the schema made of
  -- it. A tool is registered under its own name, so the name asked for is the definition's.
  unfoldable pub final_handler : ToolDefinition → Next
  unfolding call_handler
  final_handler d input context =
      call_handler d context (d.input_schema.safe_parse (strip_envelope_keys input))

  unfoldable pub compose : ToolDefinition → List ToolMiddleware → Next → Next
  compose d [] next = next
  compose d (m ∷ ms) next = λ input context. m input context d (compose d ms next)

  unfoldable pub compile : List ToolMiddleware → ToolDefinition → List ToolMiddleware → Next
  unfolding final_handler compose
  compile globals d middlewares = compose d (globals ++ middlewares) (final_handler d)
