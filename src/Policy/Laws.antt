-- ===== src/Policy/Laws.antt =====
-- What lets an agent's call through, and which tools a rejected agent is told of.
use besterp.Prelude.{
  select-All, select_whole, ◌≡◌, ◌⊎◌, refl, sym, ap, ◌∙◌, subst, inl, inr, Bool, true, false,
  Option, none, some, List, [], ◌∷◌, arith, ◌==◌, if◌then◌else◌, Bool-cases, length, All,
  select-All, select_whole,
}
use besterp.Text.{Text, includes}
use besterp.Text.Laws.{text_eq→≡}
use besterp.Value.{Value, undefined, null, boolean, number, string, array, object}
use besterp.Support.{Support}
use besterp.Store.{AgentRow, find_agent}
use besterp.Run.{Run, World, done, throws, Thrown, arrive, fault, query}
use besterp.Tool.{ToolContext, ToolError, ToolResult, ToolDefinition, Next}
use besterp.Idempotency.Middleware.{text_of}
use besterp.Policy.{
  callable, pick_callable_suggestions, suggested_tools, capability_suggestions, replace_suggestions,
  or_fallback, filter_tools, filter_error, filter_suggestions_for_capabilities, read_capabilities,
  no_registry, registry_unreadable, not_registered, inactive, capability_denied, filter_run,
  with_agent, with_lookup, look_up_agent, for_agent, for_other, by_agent, agent_policy_middleware,
}

-- The follow-up tools that a result names.
abbrev error_suggestions : Option ToolError → List Text
error_suggestions none = []
error_suggestions (some e) = elim e.suggested_tools [ none ↦ [] | some ts ↦ ts ]

abbrev pub suggestions : ToolResult → List Text
suggestions r = error_suggestions r.error

-- Every follow-up tool of the result is one that the agent may call.
abbrev pub OnlyCallable : List Text → ToolResult → Type 0
OnlyCallable capabilities r = All (λ tool. includes tool capabilities ≡ true) (suggestions r)

module _ (capabilities : List Text) (fallback : Text)
    (may : includes fallback capabilities ≡ true) where
  or_fallback-All :
      (ts : List Text)
      → All (λ t. includes t capabilities ≡ true) ts
      → All (λ t. includes t capabilities ≡ true) (or_fallback ts fallback)
  unfolding or_fallback
  or_fallback-All [] h = (may, tt)
  or_fallback-All (t ∷ ts) h = h

  suggestions-error :
      (r : ToolResult) (e : ToolError) (ts : List Text)
      → r.error ≡ some e
      → e.suggested_tools ≡ some ts
      → suggestions r ≡ ts
  suggestions-error r e ts h k =
      ap error_suggestions h ∙ ap {B = List Text} (elim [ none ↦ [] | some us ↦ us ]) k

  none_suggested :
      (ts : List Text) → (length ts == 0) ≡ true → All (λ t. includes t capabilities ≡ true) ts
  none_suggested [] h = tt
  none_suggested (t ∷ ts) h = ground arith

  filter_tools-OnlyCallable :
      (r : ToolResult) (e : ToolError) (ts : List Text)
      → suggestions r ≡ ts
      → OnlyCallable capabilities (filter_tools r e ts capabilities fallback)
  unfolding filter_tools replace_suggestions
  filter_tools-OnlyCallable r e ts same = elim (Bool-cases (length ts == 0)) [
    | inl empty ↦ rw empty (rw same (none_suggested ts empty))
    | inr nonempty ↦ elim (Bool-cases (length (callable capabilities ts) == length ts)) [
      | inl whole ↦
          rw (nonempty, whole)
            (rw same (select_whole (λ t. includes t capabilities) ts (ground arith)))
      | inr part ↦
          rw (nonempty, part)
            (or_fallback-All (callable capabilities ts)
              (select-All (λ t. includes t capabilities) ts))
    ]
  ]

  suggested-OnlyCallable :
      (r : ToolResult) (e : ToolError) (o : Option (List Text))
      → r.error ≡ some e
      → e.suggested_tools ≡ o
      → OnlyCallable capabilities
          (elim o [ none ↦ r | some ts ↦ filter_tools r e ts capabilities fallback ])
  suggested-OnlyCallable r e none h k =
      rw (ap error_suggestions h ∙ ap {B = List Text} (elim [ none ↦ [] | some us ↦ us ]) k) tt
  suggested-OnlyCallable r e (some ts) h k =
      filter_tools-OnlyCallable r e ts (suggestions-error r e ts h k)

  filter_error-OnlyCallable :
      (r : ToolResult) (o : Option ToolError)
      → r.error ≡ o
      → OnlyCallable capabilities (filter_error r o capabilities fallback)
  unfolding filter_error
  filter_error-OnlyCallable r none h = rw (ap error_suggestions h) tt
  filter_error-OnlyCallable r (some e) h = suggested-OnlyCallable r e e.suggested_tools h refl

  -- For a fallback that is callable, a failed result suggests after the filter only tools that are
  -- among the capabilities.
  pub filter-OnlyCallable :
      (r : ToolResult)
      → r.success ≡ false
      → OnlyCallable capabilities (filter_suggestions_for_capabilities r capabilities fallback)
  unfolding filter_suggestions_for_capabilities
  filter-OnlyCallable r bad =
      subst
        (λ b.
          OnlyCallable capabilities (if b then r else filter_error r r.error capabilities fallback))
        (sym bad) (filter_error-OnlyCallable r r.error refl)

find_agent-own :
    (a t : Text) (rows : List AgentRow) {row : AgentRow}
    → find_agent a t rows ≡ some row
    → (row.agent_id ≡ a) × (row.tenant_id ≡ t)
unfolding find_agent
find_agent-own a t [] h = cc
find_agent-own a t (x ∷ rows) {row} h =
    ground
      (arith, text_eq→≡ x.agent_id a, text_eq→≡ x.tenant_id t, find_agent-own a t rows {row = row})

-- No agent is named.
abbrev pub IsUnnamed : Value → Type 0
IsUnnamed v = (v ≡ undefined) ⊎ (v ≡ string [])

-- The row that lets an agent call a tool: its own, of the tenant, active, and listing the tool.
pub record IsPermit (agent tenant tool : Text) (row : AgentRow) : Type 0 where
  pub own : row.agent_id ≡ agent
  pub of_tenant : row.tenant_id ≡ tenant
  pub active : row.is_active ≡ true
  pub lists : includes tool (read_capabilities row.capabilities) ≡ true

module _ (lib : Support) (input : Value) (context : ToolContext) (d : ToolDefinition)
    (w : World) where
  abbrev agent : Text
  agent = text_of context.agent_id

  abbrev tenant : Text
  tenant = text_of context.tenant_id

  -- What the policy does with a call, as a function of what stands behind it.
  pub data Policed (run : Next → Run ToolResult) : Type 0 where
    human :
        IsUnnamed context.agent_id → ((next : Next) → run next ≡ next input context w) → Policed run
    permitted :
        (row : AgentRow)
        → find_agent agent tenant (arrive w).store.agents ≡ some row
        → IsPermit agent tenant d.name row
        → ((next : Next)
            → run next
              ≡ filter_run lib
                  (read_capabilities row.capabilities)
                  d.name
                  (next input context (arrive w)))
        → Policed run
    -- Where the agent's row is known, the rejection suggests callable tools only.
    denied_row :
        (row : AgentRow) (reply : ToolResult)
        → find_agent agent tenant (arrive w).store.agents ≡ some row
        → reply.success ≡ false
        → OnlyCallable (read_capabilities row.capabilities) reply
        → ((next : Next) → run next ≡ done reply (arrive w))
        → Policed run
    denied :
        (reply : ToolResult) (w' : World)
        → reply.success ≡ false
        → ((next : Next) → run next ≡ done reply w')
        → Policed run

  includes-callable :
      (capabilities preferred : List Text)
      → All
          (λ t. includes t capabilities ≡ true)
          (pick_callable_suggestions (some capabilities) preferred)
  unfolding pick_callable_suggestions
  includes-callable capabilities preferred = select-All (λ t. includes t capabilities) preferred

  with_agent-Policed :
      (o : Option AgentRow)
      → find_agent agent tenant (arrive w).store.agents ≡ o
      → Policed (λ next. with_agent lib agent input context d next o (arrive w))
  unfolding with_agent not_registered inactive capability_denied
  with_agent-Policed none e = denied (not_registered lib agent) (arrive w) refl (λ next. refl)
  with_agent-Policed (some row) e = elim (Bool-cases row.is_active) [
    | inr off ↦
        denied_row row (inactive lib agent (read_capabilities row.capabilities)) e refl
          (includes-callable (read_capabilities row.capabilities) suggested_tools) (λ next. rw off)
    | inl on ↦ elim (Bool-cases (includes d.name (read_capabilities row.capabilities))) [
      | inr unlisted ↦
          denied_row row (capability_denied lib agent d.name (read_capabilities row.capabilities)) e
            refl (includes-callable (read_capabilities row.capabilities) capability_suggestions)
            (λ next. rw (on, unlisted))
      | inl listed ↦
          permitted row e
            (record {
              own = (find_agent-own agent tenant (arrive w).store.agents e).0;
              of_tenant = (find_agent-own agent tenant (arrive w).store.agents e).1;
              active = on;
              lists = listed;
            })
            (λ next. rw (on, listed))
    ]
  ]

  looked_up-Policed :
      (o : Option Thrown)
      → Policed (λ next. with_lookup lib agent input context d next (elim o [
        | none ↦ done (find_agent agent tenant (arrive w).store.agents) (arrive w)
        | some e ↦ throws e (arrive w)
      ]))
  unfolding with_lookup registry_unreadable
  looked_up-Policed (some e) = denied (registry_unreadable lib agent) (arrive w) refl (λ next. refl)
  looked_up-Policed none = with_agent-Policed (find_agent agent tenant (arrive w).store.agents) refl

  look_up-cases :
      (o : Option Thrown)
      → fault w ≡ o
      → look_up_agent lib agent tenant w ≡ (elim o [
        | none ↦ done (find_agent agent tenant (arrive w).store.agents) (arrive w)
        | some e ↦ throws e (arrive w)
      ])
  unfolding look_up_agent query
  look_up-cases none e = rw e
  look_up-cases (some x) e = rw e

  for_agent-Policed :
      (available : Bool) → Policed (λ next. for_agent lib available agent input context d next w)
  unfolding for_agent no_registry
  for_agent-Policed false = denied (no_registry lib agent) w refl (λ next. refl)
  for_agent-Policed true = rw (look_up-cases (fault w) refl) (looked_up-Policed (fault w))

  length-zero : (t : Text) → (length t == 0) ≡ true → t ≡ []
  length-zero [] h = refl
  length-zero (x ∷ t) h = ground arith

  for_other-Policed : (available : Bool) → Policed (λ next. for_other lib available w)
  unfolding for_other no_registry registry_unreadable
  for_other-Policed false = denied (no_registry lib []) w refl (λ next. refl)
  for_other-Policed true = denied (registry_unreadable lib []) w refl (λ next. refl)

  named-Policed :
      (s : Text) (available : Bool)
      → context.agent_id ≡ string s
      → Policed (λ next. for_agent lib available s input context d next w)
  unfolding text_of
  named-Policed s available e =
      subst (λ a. Policed (λ next. for_agent lib available a input context d next w)) (ap text_of e)
        (for_agent-Policed available)

  by_agent-Policed :
      (v : Value) (available : Bool)
      → context.agent_id ≡ v
      → Policed (λ next. by_agent lib v available input context d next w)
  unfolding by_agent
  by_agent-Policed undefined available e = human (inl e) (λ next. refl)
  by_agent-Policed (string s) available e = elim (Bool-cases (length s == 0)) [
    | inl empty ↦ rw empty (human (inr (e ∙ ap string (length-zero s empty))) (λ next. refl))
    | inr named ↦ rw named (named-Policed s available e)
  ]
  by_agent-Policed null available e = for_other-Policed available
  by_agent-Policed (boolean b) available e = for_other-Policed available
  by_agent-Policed (number n) available e = for_other-Policed available
  by_agent-Policed (array vs) available e = for_other-Policed available
  by_agent-Policed (object fs) available e = for_other-Policed available

  -- A call passes the policy only if its agent id is undefined or empty, or the agent's own row of
  -- the tenant is active and lists the tool, and then the result is filtered; else it is answered
  -- by a failure and nothing behind the policy runs.
  pub agent_policy-Policed :
      (available : Bool)
      → Policed (λ next. agent_policy_middleware lib available input context d next w)
  unfolding agent_policy_middleware
  agent_policy-Policed available = by_agent-Policed context.agent_id available refl
