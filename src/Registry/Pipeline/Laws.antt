-- ===== src/Registry/Pipeline/Laws.antt =====
-- What stands between an agent's call and the handler in the production pipeline.
use besterp.Prelude.{◌≡◌, refl, sym, ap, ◌∙◌, true, false, some, List, [], ◌∷◌}
use besterp.Text.{Text}
use besterp.Value.{Value, string, is_nullish}
use besterp.Support.{Support}
use besterp.Store.{AgentRow, find_agent, find_gate}
use besterp.Run.{World, Run, done, throws, arrive}
use besterp.Tool.{ToolContext, ToolResult, ToolDefinition, ToolMiddleware, Next, valid}
use besterp.Idempotency.Acquire.Laws.{Claimed}
use besterp.Idempotency.Execute.{execute_and_update}
use besterp.Idempotency.Middleware.{text_of, claim_of, idempotency_middleware}
use besterp.Idempotency.Middleware.Guard.{executes, answers}
use besterp.Idempotency.Middleware.Protect.{
  Protected, rejects, claims, idempotency_middleware-Protected,
}
use besterp.Gate.{confirmation_gate_middleware}
use besterp.Gate.Laws.{
  Gated, ungated, disabled, confirmed, blocked, broken_off, IsConfirmation, IsHighRisk, IsOff,
  Supplies, IsVisible, confirmation_gate-Gated,
}
use besterp.Policy.{agent_policy_middleware, filter_run, read_capabilities}
use besterp.Policy.Laws.{
  human, permitted, denied_row, denied, IsPermit, IsUnnamed, agent_policy-Policed,
}
use besterp.Registry.Pipeline.{compose}

module _ (lib : Support) (input : Value) (context : ToolContext) (d : ToolDefinition)
    (w : World) where
  -- The guards in the order of PRODUCTION_PIPELINE_ORDER.
  abbrev pub guards : List ToolMiddleware
  guards =
      agent_policy_middleware lib true
      ∷ confirmation_gate_middleware lib
      ∷ idempotency_middleware lib true
      ∷ []

  -- Why the gate let the call through, and the context it handed on: the call's own, but for the
  -- visible part of the confirmation that it came with.
  pub data IsCleared (handed : ToolContext) : Type 0 where
    low_risk : ¬ IsHighRisk d.risk_level → handed ≡ context → IsCleared handed
    gate_off :
        IsOff (find_gate d.name (arrive (arrive w)).store.gates)
        → handed ≡ context
        → IsCleared handed
    reasoned :
        (c s : Text)
        → IsConfirmation c
        → Supplies input context s
        → IsVisible lib (string s) c
        → handed ≡ record context { confirmation = string c }
        → IsCleared handed

  -- What becomes of an agent's call, as a function of the handler.
  pub data Secured (run : Next → Run ToolResult) : Type 0 where
    without : (r : Run ToolResult) → ((next : Next) → run next ≡ r) → Secured run
    reached :
        (row : AgentRow) (handed : ToolContext) (key hash : Text) (w' : World)
        → find_agent (text_of context.agent_id) (text_of context.tenant_id) (arrive w).store.agents
          ≡ some row
        → IsPermit (text_of context.agent_id) (text_of context.tenant_id) d.name row
        → IsCleared handed
        → context.idempotency_key ≡ string key
        → Claimed w'.now (claim_of lib key handed d.name hash) w'.store.records
        → ((next : Next)
            → run next
              ≡ filter_run lib (read_capabilities row.capabilities) d.name (
                  execute_and_update lib
                    (claim_of lib key handed d.name hash).key
                    input
                    handed
                    next
                    w'))
        → Secured run

  module _ (row : AgentRow)
      (here : find_agent
          (text_of context.agent_id)
          (text_of context.tenant_id)
          (arrive w).store.agents
        ≡ some row)
      (permit : IsPermit (text_of context.agent_id) (text_of context.tenant_id) d.name row) where
    filtered : Run ToolResult → Run ToolResult
    filtered = filter_run lib (read_capabilities row.capabilities) d.name

    Protected-Secured :
        (run guarded : Next → Run ToolResult) (handed : ToolContext) (w' : World)
        → IsCleared handed
        → handed.idempotency_key ≡ context.idempotency_key
        → ((next : Next) → run next ≡ filtered (guarded next))
        → Protected lib input handed d w' guarded
        → Secured run
    unfolding filtered
    Protected-Secured run guarded handed w' clear same e (rejects reply bad g) =
        without (filtered (done reply w')) (λ next. e next ∙ ap filtered (g next))
    Protected-Secured run guarded handed w' clear same e
          (claims key hash k (answers reply w'' h g)) =
        without (filtered (done reply w'')) (λ next. e next ∙ ap filtered (g next))
    Protected-Secured run guarded handed w' clear same e (claims key hash k (executes w'' h g)) =
        reached row handed key hash w'' here permit clear (sym same ∙ k) h
          (λ next. e next ∙ ap filtered (g next))

    Gated-Secured :
        (run : Next → Run ToolResult) (v : Value)
        → is_nullish context.idempotency_key ≡ false
        → d.input_schema.safe_parse input ≡ valid v
        → ((next : Next)
            → run next
              ≡ filtered (
                  confirmation_gate_middleware lib input context d
                    (compose lib d (idempotency_middleware lib true ∷ []) next)
                    (arrive w)))
        → Gated lib input context d
            (arrive w)
            (λ next. confirmation_gate_middleware lib input context d next (arrive w))
        → Secured run
    unfolding filtered compose
    Gated-Secured run v supplied parses e (ungated below g) =
        Protected-Secured run _ context (arrive w) (low_risk below refl) refl
          (λ next. e next ∙ ap filtered (g _))
          (idempotency_middleware-Protected lib input context d (arrive w) true v supplied parses)
    Gated-Secured run v supplied parses e (disabled f off g) =
        Protected-Secured run _ context (arrive (arrive w)) (gate_off off refl) refl
          (λ next. e next ∙ ap filtered (g _))
          (idempotency_middleware-Protected lib input context d (arrive (arrive w)) true v supplied
            parses)
    Gated-Secured run v supplied parses e (confirmed c s f h own seen g) =
        Protected-Secured run _ (record context { confirmation = string c }) (arrive (arrive w))
          (reasoned c s h own seen refl) refl (λ next. e next ∙ ap filtered (g _))
          (idempotency_middleware-Protected lib input (record context { confirmation = string c }) d
            (arrive (arrive w)) true v supplied parses)
    Gated-Secured run v supplied parses e (blocked reply risk bad g) =
        without (filtered (done reply (arrive (arrive w)))) (λ next. e next ∙ ap filtered (g _))
    Gated-Secured run v supplied parses e (broken_off x risk g) =
        without (filtered (throws x (arrive (arrive w)))) (λ next. e next ∙ ap filtered (g _))

  -- In any environment, where an agent calls a tool with an idempotency key and an input that the
  -- tool's schema accepts, the policy, the gate and the idempotency middleware, composed in the
  -- production order, let the handler run only if the agent's own active row lists the tool, the
  -- tool's risk is below high or its gate is off or the call came with a text whose visible part
  -- is a sound confirmation and is handed on, all else in the context as it was, and the call has
  -- claimed its key; else what the call comes to does not depend on the handler.
  pub guards-Secured :
      (v : Value)
      → ¬ IsUnnamed context.agent_id
      → is_nullish context.idempotency_key ≡ false
      → d.input_schema.safe_parse input ≡ valid v
      → Secured (λ next. compose lib d guards next input context w)
  unfolding compose filtered
  guards-Secured v named supplied parses = elim (agent_policy-Policed lib input context d w true) [
    | human empty g ↦ absurd (named empty)
    | denied_row row reply h bad only g ↦ without (done reply (arrive w)) (λ next. g _)
    | denied reply w' bad g ↦ without (done reply w') (λ next. g _)
    | permitted row h permit g ↦
        Gated-Secured row h permit _ v supplied parses (λ next. g _)
          (confirmation_gate-Gated lib input context d (arrive w))
  ]
