-- ===== src/Registry/Execute.antt =====
-- `ToolRegistry.execute`: a call is looked up, identified and stripped of its envelope, and then run
-- through the tool's pipeline, which is composed once and cached.
pub mod Laws
use besterp.Prelude.{Option, none, some, List, [], ◌∷◌, ◌++◌, map, take}
use besterp.Text.{Text, lit}
use besterp.Value.{
  Value, undefined, null, boolean, number, string, array, object, field, end, text_items,
}
use besterp.Support.{Support, Attempt, returns, fails}
use besterp.Limits.{max_error_message_length}
use besterp.Run.{M, pure}
use besterp.Tool.{ToolContext, ToolResult, ToolError, Next, failure}
use besterp.Tenant.{validate_tenant_id}
use besterp.AgentResult.{cap_agent_error_text}
use besterp.Registry.Names.{find_similar_names}
use besterp.Registry.Envelope.{
  strip_envelope_keys, promote_envelope_keys, Promotion, promoted, conflict,
}
use besterp.Registry.Identity.{validate_context_identity, IdentityCheck, identified, rejected}
use besterp.Registry.Tools.{ToolRegistry, RegistryEntry, find_entry, find_cached, names}
use besterp.Registry.Pipeline.{compile}

abbrev pub unknown_tool : Text
unknown_tool = lit "UNKNOWN_TOOL"

-- What the rejection auditor is told of a call that no pipeline ran for. An
-- error that the auditor throws is swallowed, so the auditor has no part in the outcome.
pub record ToolCallRejection : Type 0 where
  pub tool_name : Text
  pub context : ToolContext
  pub code : Text
  pub message : Text
  pub input : Value

-- The registry with its cache after the call, what was audited, and the run of the call.
pub record Execution : Type 0 where
  pub registry : ToolRegistry
  pub audited : Option ToolCallRejection
  pub run : M ToolResult

-- `name === null ? "null" : typeof name`.
unfoldable pub type_name : Value → Text
type_name undefined = lit "undefined"
type_name null = lit "null"
type_name (boolean b) = lit "boolean"
type_name (number n) = lit "number"
type_name (string s) = lit "string"
type_name (array vs) = lit "object"
type_name (object fs) = lit "object"

not_a_name : Value → ToolResult
not_a_name name =
    failure unknown_tool (lit "A tool name must be a string.") (lit "list_available_tools" ∷ [])
      (object (field (lit "received") (string (type_name name)) end))

-- `similar.map((s) => `'${s}'`).join(", ")`.
joined : List Text → Text
joined [] = []
joined (s ∷ []) = lit "'" ++ s ++ lit "'"
joined (s ∷ t ∷ ss) = lit "'" ++ s ++ lit "', " ++ joined (t ∷ ss)

similar_note : List Text → Text
unfolding joined
similar_note [] = []
similar_note (s ∷ ss) = lit " Similar tools: [" ++ joined (s ∷ ss) ++ lit "]."

unknown_tool_message : Text → List Text → Text
unfolding similar_note
unknown_tool_message name similar =
    lit "Tool '"
    ++ name
    ++ lit "' does not exist."
    ++ similar_note similar
    ++ lit " Use 'list_available_tools' to see all available tools."

-- `promotion.error.error?.code` and `?.message`, with their fallbacks.
rejection_of : Text → ToolContext → Value → Option ToolError → ToolCallRejection
rejection_of tool context raw none = record {
  tool_name = tool;
  context = context;
  code = lit "INVALID_INPUT";
  message = lit "The request was rejected before execution.";
  input = raw;
}
rejection_of tool context raw (some e) = record {
  tool_name = tool;
  context = context;
  code = e.code;
  message = e.message;
  input = raw;
}

answered : ToolRegistry → Option ToolCallRejection → ToolResult → Execution
answered r audited reply = record { registry = r; audited = audited; run = pure reply }

module _ (lib : Support) where
  unknown_tool_error : Text → List Text → ToolResult
  unfolding text_items
  unknown_tool_error name similar =
      failure unknown_tool (cap_agent_error_text lib (unknown_tool_message name similar))
        (lit "list_available_tools" ∷ similar)
        (object (
          field (lit "requestedTool") (string (cap_agent_error_text lib name))
            (field (lit "similarTools") (array (text_items similar)) end)))

  -- `auditIdentityRejection`: only a call with a valid tenant is recorded.
  audit_identity_rejection :
      Text → ToolContext → Text → Text → Attempt Text → Option ToolCallRejection
  audit_identity_rejection name context code label (fails e) = none
  audit_identity_rejection name context code label (returns tenant) = some (record {
    tool_name = take max_error_message_length (lib.sanitize_for_log_output name);
    context = record context { tenant_id = string tenant };
    code = code;
    message = lit "The request " ++ label ++ lit " is invalid.";
    input = undefined;
  })

  -- The cached pipeline, or else a new one, which the cache keeps.
  run_pipeline : ToolRegistry → RegistryEntry → Text → Value → ToolContext → Option Next → Execution
  run_pipeline r e name raw context (some pipeline) = record {
    registry = r;
    audited = none;
    run = pipeline (strip_envelope_keys raw) context;
  }
  run_pipeline r e name raw context none =
      let pipeline = compile lib r.global_middlewares e.definition e.middlewares in
      record {
        registry = record r {
          pipeline_cache = record { tool = name; pipeline = pipeline } ∷ r.pipeline_cache;
        };
        audited = none;
        run = pipeline (strip_envelope_keys raw) context;
      }

  with_promotion : ToolRegistry → RegistryEntry → Text → Value → ToolContext → Promotion → Execution
  unfolding rejection_of answered run_pipeline
  with_promotion r e name raw context (conflict reply) =
      answered r (some (rejection_of name context raw reply.error)) reply
  with_promotion r e name raw context (promoted effective) =
      run_pipeline r e name raw effective (find_cached name r.pipeline_cache)

  -- The audited context of an unknown tool is the one given, and not the identified one.
  with_entry :
      ToolRegistry → Text → Value → ToolContext → ToolContext → Option RegistryEntry → Execution
  unfolding with_promotion unknown_tool_error unknown_tool_message answered
  with_entry r name raw given context none =
      let safe_name = lib.sanitize_for_log_output name in
      let similar = map lib.sanitize_for_log_output (find_similar_names lib name (names r)) in
      answered r
        (some (record {
          tool_name = safe_name;
          context = given;
          code = unknown_tool;
          message = unknown_tool_message safe_name similar;
          input = raw;
        }))
        (unknown_tool_error safe_name similar)
  with_entry r name raw given context (some e) =
      with_promotion r e name raw context (promote_envelope_keys context raw)

  with_identity : ToolRegistry → Text → Value → ToolContext → IdentityCheck → Execution
  unfolding with_entry audit_identity_rejection answered
  with_identity r name raw given (rejected reply code label) =
      answered r
        (audit_identity_rejection name given code label (validate_tenant_id lib given.tenant_id))
        reply
  with_identity r name raw given (identified context) =
      with_entry r name raw given context (find_entry name r.tools)

  unfoldable pub execute : ToolRegistry → Value → Value → ToolContext → Execution
  unfolding with_identity not_a_name answered
  execute r (string name) raw context =
      with_identity r name raw context (validate_context_identity lib context)
  execute r name raw context = answered r none (not_a_name name)
