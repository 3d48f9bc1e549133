-- ===== src/Gate.antt =====
-- packages/mcp-tools/src/middleware/confirmation-gate.ts: a tool of high or critical risk runs only
-- with the agent's confirmation, where the gate table asks for one. The writes to stderr are left
-- out.
pub mod Laws
use besterp.Prelude.{
  Bool, true, false, Option, none, some, List, [], ◌∷◌, ◌++◌, ltb, ◌==◌, if◌then◌else◌, length,
  take,
}
use besterp.Text.{Text, lit, trim}
use Prim.Native.String.{String}
use besterp.Value.{Value, Fields, undefined, null, string, get, as_object}
use besterp.Surrogates.{normalize_unpaired_surrogates}
use besterp.Support.{Support, Attempt, returns, fails}
use besterp.Limits.{min_confirmation_length, max_confirmation_length}
use besterp.Store.{GateRow, find_gate}
use besterp.Run.{M, Run, done, throws, throw, Thrown, pure, query, commit}
use besterp.Tool.{
  RiskLevel, high, critical, ToolContext, ToolResult, ToolDefinition, ToolMiddleware, Next, failure,
}

abbrev pub confirmation_required : Text
confirmation_required = lit "CONFIRMATION_REQUIRED"

abbrev pub invalid_confirmation : Text
invalid_confirmation = lit "INVALID_CONFIRMATION"

abbrev pub confirmation_gate_unavailable : Text
confirmation_gate_unavailable = lit "CONFIRMATION_GATE_UNAVAILABLE"

abbrev pub suggested_tools : List Text
suggested_tools = lit "list_available_tools" ∷ []

-- "Tool '…'", and what is said of it.
abbrev pub about_tool : Text → String → Text
about_tool tool rest = lit "Tool '" ++ tool ++ lit "'" ++ lit rest

unfoldable pub confirmation_required_error : Text → ToolResult
confirmation_required_error tool =
    failure confirmation_required
      (about_tool tool
        " requires agent confirmation. Pass a 'confirmation' field explaining why this operation should proceed.")
      suggested_tools undefined

unfoldable pub invalid_confirmation_error : Text → ToolResult
invalid_confirmation_error message = failure invalid_confirmation message suggested_tools undefined

unfoldable pub gate_unavailable_error : Text → ToolResult
gate_unavailable_error tool =
    failure confirmation_gate_unavailable
      (about_tool tool
        " requires an agent confirmation, but the confirmation gate could not be verified. The operation did NOT run. Retry when the service is healthy.")
      suggested_tools undefined

pub from_input : Option Fields → Value
from_input none = undefined
from_input (some fs) = get (lit "confirmation") fs

-- The context's confirmation, or else the one in the input.
unfoldable pub read_confirmation : Value → ToolContext → Value
unfolding from_input
read_confirmation input context = elim context.confirmation [
  | undefined ↦ from_input (as_object input)
  | v ↦ v
]

pub data Validation : Type 0 where
  valid : Text → Validation
  invalid : ToolResult → Validation
  -- A sanitizer threw.
  broken : Thrown → Validation

module _ (lib : Support) where
  -- `normalize(sanitize(strip(…))).slice(0, MAX)`, given what `strip` returns.
  unfoldable pub visible : Text → Text
  visible stripped =
      take max_confirmation_length
        (normalize_unpaired_surrogates (lib.sanitize_for_log_output stripped))

  check_visible : Text → Attempt Text → Validation
  check_visible tool (fails e) = broken e
  check_visible tool (returns stripped) =
      if ltb (length (trim (visible stripped))) min_confirmation_length
      then invalid (
          invalid_confirmation_error
            (about_tool tool " requires a confirmation of at least 10 characters of visible text."))
      else valid (visible stripped)

  check_text : Text → Text → Validation
  unfolding check_visible
  check_text tool confirmation =
      if length confirmation == 0
      then invalid (
          invalid_confirmation_error
            (about_tool tool " requires a non-empty 'confirmation' field."))
      else if ltb max_confirmation_length (length confirmation)
      then invalid
          (invalid_confirmation_error (about_tool tool " confirmation exceeds 500 characters."))
      else check_visible tool (lib.strip_html_tags confirmation)

  unfoldable pub validate_confirmation : Value → Text → Validation
  unfolding check_text
  validate_confirmation undefined tool = invalid (confirmation_required_error tool)
  validate_confirmation null tool = invalid (confirmation_required_error tool)
  validate_confirmation (string s) tool = check_text tool (trim s)
  validate_confirmation _ tool =
      invalid
        (invalid_confirmation_error (about_tool tool " requires a string 'confirmation' field."))

  unfoldable pub is_gated_risk : RiskLevel → Bool
  is_gated_risk high = true
  is_gated_risk critical = true
  is_gated_risk _ = false

  -- `gate?.enabled ?? false`.
  unfoldable pub gate_enabled : Option GateRow → Bool
  gate_enabled none = false
  gate_enabled (some g) = g.enabled

  unfoldable pub look_up_gate : Text → M Bool
  look_up_gate tool = query (λ now s. commit (gate_enabled (find_gate tool s.gates)) s)

  with_confirmation : Value → ToolContext → Next → Validation → M ToolResult
  with_confirmation input context next (invalid r) = pure r
  with_confirmation input context next (broken e) = throw e
  with_confirmation input context next (valid c) =
      next input (record context { confirmation = string c })

  -- The call of `next` behind a disabled gate stands in the `try` of the lookup, but it is returned
  -- there and not awaited, so the `catch` is for the lookup alone.
  with_gate : Value → ToolContext → ToolDefinition → Next → Run Bool → Run ToolResult
  unfolding with_confirmation
  with_gate input context d next (throws e w) = done (gate_unavailable_error d.name) w
  with_gate input context d next (done false w) = next input context w
  with_gate input context d next (done true w) =
      with_confirmation input context next
        (validate_confirmation (read_confirmation input context) d.name) w

  unfoldable pub confirmation_gate_middleware : ToolMiddleware
  unfolding with_gate
  confirmation_gate_middleware input context d next w =
      if is_gated_risk d.risk_level
      then with_gate input context d next (look_up_gate d.name w)
      else next input context w
