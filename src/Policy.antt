-- ===== src/Policy.antt =====
-- packages/mcp-tools/src/middleware/agent-policy.ts: an agent calls only the tools that its row of
-- the registry lists, and is told only of tools that it may call. A registry that is not there is a
-- false `available`.
pub mod Laws
use besterp.Prelude.{
  Bool, true, false, not, Option, none, some, List, [], ◌∷◌, ◌++◌, ◌==◌, if◌then◌else◌, length,
  select,
}
use besterp.Text.{Text, lit, includes}
use besterp.Value.{Value, undefined, string, array, object, strings, field, end}
use besterp.Support.{Support}
use besterp.Store.{AgentRow, find_agent}
use besterp.Run.{M, Run, World, done, throws, query, commit}
use besterp.Tool.{ToolContext, ToolError, ToolResult, ToolDefinition, ToolMiddleware, Next, failure}
use besterp.Idempotency.Middleware.{text_of}

abbrev pub agent_not_registered : Text
agent_not_registered = lit "AGENT_NOT_REGISTERED"

abbrev pub agent_inactive : Text
agent_inactive = lit "AGENT_INACTIVE"

abbrev pub agent_capability_denied : Text
agent_capability_denied = lit "AGENT_CAPABILITY_DENIED"

abbrev pub agent_policy_unavailable : Text
agent_policy_unavailable = lit "AGENT_POLICY_UNAVAILABLE"

abbrev pub suggested_tools : List Text
suggested_tools = lit "list_available_tools" ∷ []

abbrev pub capability_suggestions : List Text
capability_suggestions = lit "describe_agent" ∷ lit "list_available_tools" ∷ []

-- The tools of a list that the agent may call.
abbrev pub callable : List Text → List Text → List Text
callable capabilities = select (λ tool. includes tool capabilities)

unfoldable pub pick_callable_suggestions : Option (List Text) → List Text → List Text
pick_callable_suggestions none preferred = preferred
pick_callable_suggestions (some capabilities) preferred = callable capabilities preferred

replace_suggestions : ToolResult → ToolError → List Text → ToolResult
replace_suggestions r e tools = record r {
  error = some (record e { suggested_tools = some tools });
}

unfoldable pub or_fallback : List Text → Text → List Text
or_fallback [] fallback = fallback ∷ []
or_fallback (t ∷ ts) fallback = t ∷ ts

filter_tools : ToolResult → ToolError → List Text → List Text → Text → ToolResult
unfolding replace_suggestions
filter_tools r e suggested capabilities fallback =
    if length suggested == 0
    then r
    else if length (callable capabilities suggested) == length suggested
    then r
    else replace_suggestions r e (or_fallback (callable capabilities suggested) fallback)

filter_error : ToolResult → Option ToolError → List Text → Text → ToolResult
unfolding filter_tools
filter_error r none capabilities fallback = r
filter_error r (some e) capabilities fallback = elim e.suggested_tools [
  | none ↦ r
  | some suggested ↦ filter_tools r e suggested capabilities fallback
]

unfoldable pub filter_suggestions_for_capabilities : ToolResult → List Text → Text → ToolResult
unfolding filter_error
filter_suggestions_for_capabilities r capabilities fallback =
    if r.success then r else filter_error r r.error capabilities fallback

-- A column that is no array grants nothing.
unfoldable pub read_capabilities : Value → List Text
read_capabilities (array vs) = strings vs
read_capabilities _ = []

module _ (lib : Support) where
  agent_context : Text → Value
  agent_context agent =
      object (field (lit "agentId") (string (lib.sanitize_for_log_output agent)) end)

  unfoldable pub no_registry : Text → ToolResult
  unfolding agent_context
  no_registry agent =
      failure agent_policy_unavailable
        (lit "The agent registry is unavailable, so the agent's permissions cannot be verified.")
        (pick_callable_suggestions none suggested_tools) (agent_context agent)

  unfoldable pub registry_unreadable : Text → ToolResult
  unfolding agent_context
  registry_unreadable agent =
      failure agent_policy_unavailable
        (lit
          "The agent registry could not be read, so the agent's permissions could not be verified.")
        (pick_callable_suggestions none suggested_tools) (agent_context agent)

  unfoldable pub not_registered : Text → ToolResult
  unfolding agent_context
  not_registered agent =
      failure agent_not_registered
        (lit "Agent '"
          ++ lib.sanitize_for_log_output agent
          ++ lit "' is not registered in this tenant.")
        (pick_callable_suggestions none suggested_tools) (agent_context agent)

  unfoldable pub inactive : Text → List Text → ToolResult
  unfolding agent_context
  inactive agent capabilities =
      failure agent_inactive
        (lit "Agent '"
          ++ lib.sanitize_for_log_output agent
          ++ lit "' is deactivated and cannot call tools.")
        (pick_callable_suggestions (some capabilities) suggested_tools) (agent_context agent)

  unfoldable pub capability_denied : Text → Text → List Text → ToolResult
  capability_denied agent tool capabilities =
      failure agent_capability_denied
        (lit "Agent '"
          ++ lib.sanitize_for_log_output agent
          ++ lit "' is not permitted to call '"
          ++ lib.sanitize_for_log_output tool
          ++ lit "'. Use 'describe_agent' to review the agent's capabilities.")
        (pick_callable_suggestions (some capabilities) capability_suggestions)
        (object (
          field (lit "agentId") (string (lib.sanitize_for_log_output agent))
            (field (lit "tool") (string tool) end)))

  unfoldable pub filter_run : List Text → Text → Run ToolResult → Run ToolResult
  filter_run capabilities tool (done r w) =
      done (filter_suggestions_for_capabilities r capabilities tool) w
  filter_run capabilities tool (throws e w) = throws e w

  with_agent :
      Text → Value → ToolContext → ToolDefinition → Next → Option AgentRow → World → Run ToolResult
  unfolding filter_run
  with_agent agent input context d next none w = done (not_registered agent) w
  with_agent agent input context d next (some row) w =
      let capabilities = read_capabilities row.capabilities in
      let denied = capability_denied agent d.name capabilities in
      if not row.is_active
      then done (inactive agent capabilities) w
      else if not (includes d.name capabilities)
      then done denied w
      else filter_run capabilities d.name (next input context w)

  with_lookup :
      Text → Value → ToolContext → ToolDefinition → Next → Run (Option AgentRow) → Run ToolResult
  unfolding with_agent
  with_lookup agent input context d next (throws e w) = done (registry_unreadable agent) w
  with_lookup agent input context d next (done row w) = with_agent agent input context d next row w

  unfoldable pub look_up_agent : Text → Text → M (Option AgentRow)
  look_up_agent agent tenant = query (λ now s. commit (find_agent agent tenant s.agents) s)

  for_agent : Bool → Text → Value → ToolContext → ToolDefinition → Next → World → Run ToolResult
  unfolding with_lookup
  for_agent false agent input context d next w = done (no_registry agent) w
  for_agent true agent input context d next w =
      with_lookup agent input context d next (look_up_agent agent (text_of context.tenant_id) w)

  -- The database's client rejects an id that is no text before it asks. What is told of such an id is
  -- what is told of null.
  for_other : Bool → M ToolResult
  for_other false w = done (no_registry []) w
  for_other true w = done (registry_unreadable []) w

  by_agent : Value → Bool → ToolMiddleware
  unfolding for_agent for_other
  by_agent undefined available input context d next w = next input context w
  by_agent (string agent) available input context d next w =
      if length agent == 0
      then next input context w
      else for_agent available agent input context d next w
  by_agent v available input context d next w = for_other available w

  unfoldable pub agent_policy_middleware : Bool → ToolMiddleware
  unfolding by_agent
  agent_policy_middleware available input context d next w =
      by_agent context.agent_id available input context d next w
