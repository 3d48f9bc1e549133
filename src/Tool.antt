-- ===== src/Tool.antt =====
-- packages/mcp-tools/src/schema/tool-definition.ts: contexts, results and definitions of tools, and
-- the `ToolMiddleware` that wraps an execution. A context's `services` are part of the handler here.
use besterp.Prelude.{Bool, false, Option, some, List}
use besterp.Text.{Text}
use besterp.Value.{Value}
use besterp.Run.{M}

pub data RiskLevel : Type 0 where
  none low medium high critical : RiskLevel

-- The fields that callers are known to fill with values of any type are values.
pub record ToolContext : Type 0 where
  pub tenant_id : Value
  pub user_id : Value
  pub agent_id : Value
  pub conversation_id : Value
  pub idempotency_key : Value
  pub confirmation : Value
  pub reasoning : Value

pub record ToolError : Type 0 where
  pub code : Text
  pub message : Text
  pub suggested_tools : Option (List Text)
  pub context : Value

pub record ToolResult : Type 0 where
  pub success : Bool
  pub payload : Value
  pub error : Option ToolError
  pub next_actions : Option (List Text)
  pub replayed : Bool

-- A Zod issue.
pub record Issue : Type 0 where
  pub path : List Text
  pub message : Text
  pub code : Option Text
  pub received : Value

pub data Parsed : Type 0 where
  valid : Value → Parsed
  invalid : List Issue → Parsed

-- A schema is third-party code: its `safeParse`, and the field names of its `shape` if it has one.
pub record ZodSchemaLike : Type 0 where
  pub safe_parse : Value → Parsed
  pub shape : Option (List Text)

abbrev pub Next : Type 0
Next = Value → ToolContext → M ToolResult

-- The tools that an error may point to.
pub record RelatedTools : Type 0 where
  pub get : Option Text
  pub search : Option Text

pub record ToolDefinition : Type 0 where
  pub name : Text
  pub description : Text
  pub input_schema : ZodSchemaLike
  pub risk_level : RiskLevel
  pub entity : Option Text
  pub tags : Option (List Text)
  pub related_tools : Option RelatedTools
  pub handler : Next

abbrev pub ToolMiddleware : Type 0
ToolMiddleware = Value → ToolContext → ToolDefinition → Next → M ToolResult

-- A result that reports an error, as the guards of the pipeline build it.
abbrev pub failure : Text → Text → List Text → Value → ToolResult
failure code message suggested context = record {
  success = false;
  payload = Value.undefined;
  error = some (record {
    code = code;
    message = message;
    suggested_tools = some suggested;
    context = context;
  });
  next_actions = Option.none;
  replayed = false;
}
