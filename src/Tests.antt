-- ===== src/Tests.antt =====
-- Concrete calls, tables and tools that the theorems are applied to.
pub mod Idempotent
pub mod Guards
pub mod Registered
pub mod Audited
pub mod Handled
pub mod Parties
pub mod Truncated
pub mod Hashed
use besterp.Prelude.{true, false, none, some, [], ◌∷◌, take}
use besterp.Text.{lit}
use besterp.Value.{Value, undefined, null, number, string, array, object, end, field, nil, cons}
use besterp.Support.{Support, returns}
use besterp.Directory.{empty_directory}
use besterp.Store.{Store, AgentRow, GateRow}
use besterp.Run.{pure}
use besterp.Tool.{
  ToolContext, ToolResult, ToolDefinition, ZodSchemaLike, RiskLevel, Next, valid, failure,
}
use besterp.Idempotency.Acquire.{Claim}

-- Sanitizers that change nothing, and constant digests.
abbrev pub plain_lib : Support
plain_lib = record {
  sha256_hex = λ s. s;
  hash_input = λ v. returns (lit "hash");
  sanitize_for_log_output = λ s. s;
  sanitize_keep_opaque = λ s. s;
  strip_html_tags = λ s. returns s;
  redact_sensitive_field_values = λ v. v;
  truncate_value = λ v. v;
  is_truncation_marker = λ v. false;
  cap_string = λ s n. take n s;
  sanitize_log_message = λ s. s;
  to_lower_case = λ s. s;
  pluralize = λ s. s;
  issue_summary = λ is. [];
  sanitize_issues = λ is. undefined;
}

abbrev pub call_claim : Claim
call_claim = record {
  key = record { key = lit "key-1"; tenant = lit "t1" };
  user = lit "u1";
  agent = some (lit "a1");
  conversation = none;
  tool = lit "create_party";
  input_hash = lit "hash";
}

abbrev pub agent_row : AgentRow
agent_row = record {
  agent_id = lit "a1";
  tenant_id = lit "t1";
  is_active = true;
  capabilities = array (cons (string (lit "create_party")) nil);
}

abbrev pub gate_row : GateRow
gate_row = record { tool_name = lit "create_party"; enabled = true }

abbrev pub tables : Store
tables = record {
  records = [];
  agents = agent_row ∷ [];
  gates = gate_row ∷ [];
  directory = empty_directory;
  app = undefined;
}

-- Any input is valid, as it stands.
abbrev pub open_schema : ZodSchemaLike
open_schema = record { safe_parse = λ v. valid v; shape = some (lit "name" ∷ []) }

abbrev pub success_result : ToolResult
success_result = record {
  success = true;
  payload = number 7;
  error = none;
  next_actions = none;
  replayed = false;
}

abbrev pub failed_result : ToolResult
failed_result =
    failure (lit "NOT_FOUND") (lit "No such party.") (lit "delete_party" ∷ lit "create_party" ∷ [])
      undefined

abbrev pub succeed : Next
succeed input context = pure success_result

abbrev pub create_party : ToolDefinition
create_party = record {
  name = lit "create_party";
  description = lit "Creates a party.";
  input_schema = open_schema;
  risk_level = RiskLevel.high;
  entity = none;
  tags = none;
  related_tools = none;
  handler = succeed;
}

abbrev pub archive_party : ToolDefinition
archive_party = record create_party { name = lit "archive_party" }

abbrev pub agent_call : ToolContext
agent_call = record {
  tenant_id = string (lit "t1");
  user_id = string (lit " u1");
  agent_id = string (lit "a1");
  conversation_id = null;
  idempotency_key = string (lit "key-1");
  confirmation = string (lit "The customer asked for it.");
  reasoning = undefined;
}

abbrev pub arguments : Value
arguments = object (
    field (lit "name") (string (lit "Acme"))
      (field (lit "idempotencyKey") (string (lit "key-1")) end))
