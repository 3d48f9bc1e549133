-- ===== src/ErrorHandler/Laws.antt =====
-- No error passes the error handler, and no message of the database reaches the agent.
use besterp.Prelude.{
  ◌≡◌, ◌≤◌, ◌&&◌, ◌+◌, refl, subst, some-eq_some, List, [], ◌∷◌, map, All, inl, inr, Bool, true,
  false, not, Option, none, some, arith, ◌==◌, Bool-cases, length,
}
use besterp.Text.{Text}
use besterp.Value.{Value}
use besterp.Support.{Support}
use besterp.Run.{Thrown, Run, World, done, throws}
use besterp.Tool.{ToolContext, ToolError, ToolResult, ToolDefinition, Next}
use besterp.Limits.{max_error_message_length}
use besterp.Surrogates.Laws.{IsUtf16, chars}
use besterp.AgentResult.{
  sanitize_agent_text, agent_text, map_option, sanitize_error, sanitize_agent_facing_result,
}
use besterp.AgentResult.Laws.{cap_agent_error_text-IsUtf16}
use besterp.ErrorHandler.{
  handle_error, handle_domain_error, handle_generic_error, handle_prisma_error, prisma_handler,
  duplicate_error, missing_error, concurrency_error, related_error, or_generic, of_code, caught,
  error_handler_middleware,
}

-- Well-formed UTF-16, of the length of a capped text.
abbrev pub IsCapped : Text → Type 0
IsCapped s = (u : IsUtf16 s) × (chars u ≤ max_error_message_length + 1)

abbrev has_error : Option ToolError → Bool
has_error none = false
has_error (some e) = true

abbrev is_failure : ToolResult → Bool
is_failure r = not r.success && has_error r.error

abbrev fails : Option ToolResult → Bool
fails none = true
fails (some r) = is_failure r

has_error-some : (o : Option ToolError) → has_error o ≡ true → (e : ToolError) × (o ≡ some e)
has_error-some none h = cc
has_error-some (some e) h = (e, refl)

is_failure-split :
    (r : ToolResult) → is_failure r ≡ true → (r.success ≡ false) × (has_error r.error ≡ true)
is_failure-split r h = (ground arith, ground arith)

module _ (lib : Support) (d : ToolDefinition) where
  -- Two errors that are no domain errors, with one code and one target, are mapped to one result:
  -- nothing of their messages reaches the agent.
  pub handle_error-secret :
      (e e' : Thrown)
      → e.is_domain ≡ false
      → e'.is_domain ≡ false
      → e.code ≡ e'.code
      → e.target ≡ e'.target
      → handle_error lib d e ≡ handle_error lib d e'
  unfolding handle_error
  handle_error-secret e e' h h' c t = rw (h, h', c, t) refl

  fails-prisma_handler :
      (code : Text) (target : Option Text) (entity plural : Text)
      → fails (prisma_handler lib code target entity plural d) ≡ true
  unfolding prisma_handler duplicate_error missing_error concurrency_error related_error
  fails-prisma_handler code target entity plural = ground arith

  or_generic-failure :
      (o : Option ToolResult) → fails o ≡ true → is_failure (or_generic lib d o) ≡ true
  unfolding or_generic handle_generic_error
  or_generic-failure none h = refl
  or_generic-failure (some r) h = h

  fails-handle_prisma_error :
      (code : Text) (target : Option Text) (entity plural : Text)
      → fails (handle_prisma_error lib code target entity plural d) ≡ true
  unfolding handle_prisma_error
  fails-handle_prisma_error code target entity plural =
      ground (arith, fails-prisma_handler code target entity plural)

  of_code-failure : (target code : Option Text) → is_failure (of_code lib d target code) ≡ true
  unfolding of_code handle_generic_error
  of_code-failure target none = refl
  of_code-failure target (some code) = elim (Bool-cases (length code == 0)) [
    | inl empty ↦ rw empty refl
    | inr given ↦ rw given (or_generic-failure _ (fails-handle_prisma_error code target _ _))
  ]

  handle_error-failure : (e : Thrown) → is_failure (handle_error lib d e) ≡ true
  unfolding handle_error handle_domain_error
  handle_error-failure e = elim (Bool-cases e.is_domain) [
    | inl domain ↦ rw domain refl
    | inr other ↦ rw other (of_code-failure e.target e.code)
  ]

  -- A failure whose code, message and suggestions are well-formed and bounded.
  pub record IsAgentFailure (r : ToolResult) : Type 0 where
    pub failed : r.success ≡ false
    pub error : ToolError
    pub here : r.error ≡ some error
    pub code : IsCapped error.code
    pub message : IsCapped error.message
    pub suggestions : (ts : List Text) → error.suggested_tools ≡ some ts → All IsCapped ts

  agent_text-IsCapped : (s : Text) → IsCapped (agent_text lib s)
  unfolding agent_text
  agent_text-IsCapped s = cap_agent_error_text-IsUtf16 lib (sanitize_agent_text lib s)

  map-IsCapped : (ts : List Text) → All IsCapped (map (agent_text lib) ts)
  map-IsCapped [] = tt
  map-IsCapped (t ∷ ts) = (agent_text-IsCapped t, map-IsCapped ts)

  suggestions-IsCapped :
      (o : Option (List Text)) (ts : List Text)
      → map_option lib (map (agent_text lib)) o ≡ some ts
      → All IsCapped ts
  unfolding map_option
  suggestions-IsCapped none ts h = cc
  suggestions-IsCapped (some us) ts h = subst (All IsCapped) (some-eq_some h) (map-IsCapped us)

  sanitized-IsAgentFailure :
      (r : ToolResult) (e : ToolError)
      → r.success ≡ false
      → r.error ≡ some e
      → IsAgentFailure (sanitize_agent_facing_result lib r)
  unfolding sanitize_agent_facing_result map_option
  sanitized-IsAgentFailure r e bad here = record {
    failed = bad;
    error = sanitize_error lib e;
    here = rw (bad, here) refl;
    code = agent_text-IsCapped e.code;
    message = agent_text-IsCapped e.message;
    suggestions = suggestions-IsCapped e.suggested_tools;
  }

  -- What the error handler makes of a run: a result stands, and an error becomes a failure.
  abbrev pub Handles : Run ToolResult → Run ToolResult → Type 0
  Handles (done r w) run = run ≡ done r w
  Handles (throws e w) run = (r : ToolResult) × (run ≡ done r w) × IsAgentFailure r

  caught-Handles : (run : Run ToolResult) → Handles run (caught lib d run)
  unfolding caught
  caught-Handles (done r w) = refl
  caught-Handles (throws e w) =
      let (bad, has) = is_failure-split (handle_error lib d e) (handle_error-failure e) in
      let (x, here) = has_error-some (handle_error lib d e).error has in
      (_, refl, sanitized-IsAgentFailure (handle_error lib d e) x bad here)

  -- What returns behind the error handler is returned as it is. What is thrown there comes back,
  -- with the state as it was, as a failure with an error whose code, message and suggested tools
  -- are each well-formed UTF-16 of at most 2001 characters.
  pub error_handler-Handles :
      (input : Value) (context : ToolContext) (next : Next) (w : World)
      → Handles (next input context w) (error_handler_middleware lib input context d next w)
  unfolding error_handler_middleware
  error_handler-Handles input context next w = caught-Handles (next input context w)
