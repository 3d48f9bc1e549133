-- ===== src/AgentResult.antt =====
-- packages/mcp-tools/src/agent-result.ts: the boundary that every value on its way to an agent
-- passes.
pub mod Laws
use besterp.Prelude.{
  ℕ, zero, suc, ◌&&◌, Option, none, some, [], ◌∷◌, ◌++◌, map, leb, if◌then◌else◌, length,
}
use besterp.Text.{Text, lit, between}
use besterp.Value.{Value, undefined, is_nullish}
use besterp.Surrogates.{normalize_unpaired_surrogates}
use besterp.Support.{Support, Attempt, returns, fails}
use besterp.Limits.{max_error_message_length}
use besterp.Tool.{ToolError, ToolResult}

-- `[...value].slice(0, n).join("")`: a pair of surrogates is one character, and is kept whole.
unfoldable pub take_chars : ℕ → Text → Text
take_chars zero s = []
take_chars (suc n) [] = []
take_chars (suc n) (c ∷ []) = c ∷ []
take_chars (suc n) (c ∷ d ∷ s) =
    let pair = c ∷ d ∷ take_chars n s in
    let one = c ∷ take_chars n (d ∷ s) in
    if between 0xd800 0xdbff c && between 0xdc00 0xdfff d then pair else one

-- A text of at most `n` characters comes back whole from `take_chars` too.
unfoldable pub truncate_at_character_boundary : Text → ℕ → Text
truncate_at_character_boundary s n = if leb (length s) n then s else take_chars n s

module _ (lib : Support) where
  scrub : Text → Text
  scrub s = normalize_unpaired_surrogates (lib.sanitize_for_log_output s)

  scrub_stripped : Text → Attempt Text → Text
  unfolding scrub
  scrub_stripped value (returns stripped) = scrub stripped
  scrub_stripped value (fails e) = scrub value

  unfoldable pub sanitize_agent_text : Text → Text
  unfolding scrub_stripped
  sanitize_agent_text value = scrub_stripped value (lib.strip_html_tags value)

  cap_safe : Text → Text
  cap_safe safe =
      if leb (length safe) max_error_message_length
      then safe
      else truncate_at_character_boundary safe max_error_message_length ++ lit "…"

  unfoldable pub cap_agent_error_text : Text → Text
  unfolding cap_safe
  cap_agent_error_text value = cap_safe (normalize_unpaired_surrogates value)

  unfoldable pub agent_text : Text → Text
  agent_text s = cap_agent_error_text (sanitize_agent_text s)

  unfoldable pub redact_or_keep : Value → Value
  redact_or_keep v = if is_nullish v then v else lib.redact_sensitive_field_values v

  unfoldable pub map_option : {A B : Type 0} → (A → B) → Option A → Option B
  map_option f none = none
  map_option f (some a) = some (f a)

  context_of : Value → Value
  context_of v = if is_nullish v then undefined else lib.redact_sensitive_field_values v

  unfoldable pub sanitize_error : ToolError → ToolError
  unfolding map_option context_of
  sanitize_error e = record {
    code = agent_text e.code;
    message = agent_text e.message;
    suggested_tools = map_option (map agent_text) e.suggested_tools;
    context = context_of e.context;
  }

  unfoldable pub sanitize_agent_facing_result : ToolResult → ToolResult
  unfolding map_option sanitize_error
  sanitize_agent_facing_result r = record r {
    payload = redact_or_keep r.payload;
    error = if r.success then r.error else map_option sanitize_error r.error;
    next_actions = map_option (map sanitize_agent_text) r.next_actions;
  }
