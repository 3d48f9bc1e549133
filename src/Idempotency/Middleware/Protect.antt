-- ===== src/Idempotency/Middleware/Protect.antt =====
-- A key that was supplied is never ignored: the whole middleware, key check to outcome.
use besterp.Prelude.{◌≡◌, refl, sym, subst, Bool, true, false, [], ◌∷◌, arith}
use besterp.Text.{Text}
use besterp.Value.{Value, string, is_nullish}
use besterp.Support.{Support, Attempt, returns, fails}
use besterp.Run.{World, Run, done}
use besterp.Tool.{ToolResult, ToolContext, ToolDefinition, Next, valid}
use besterp.Idempotency.Key.{KeyCheck, accepted, refused, validate_idempotency_key}
use besterp.Idempotency.Key.Laws.{accepted_iff, refused-failure}
use besterp.Idempotency.Errors.{handle_unhashable_input, handle_record_unavailable}
use besterp.Idempotency.Middleware.{
  hash_parsed, hash_valid, compute_input_hash, claim_of, with_hash, with_key,
  idempotency_middleware,
}
use besterp.Idempotency.Middleware.Guard.{Guarded, run_claim-Guarded}

module _ (lib : Support) (input : Value) (context : ToolContext) (d : ToolDefinition)
    (w : World) where
  -- The run rejects the request without the handler, or it runs under a claim.
  pub data Protected (run : Next → Run ToolResult) : Type 0 where
    rejects :
        (reply : ToolResult)
        → reply.success ≡ false
        → ((next : Next) → run next ≡ done reply w)
        → Protected run
    claims :
        (key hash : Text)
        → context.idempotency_key ≡ string key
        → Guarded lib (claim_of lib key context d.name hash) input context run
        → Protected run

  unhashable-failure : (handle_unhashable_input d.name).success ≡ false
  unfolding handle_unhashable_input
  unhashable-failure = refl

  unavailable-failure : (handle_record_unavailable d.name).success ≡ false
  unfolding handle_record_unavailable
  unavailable-failure = refl

  with_hash-Protected :
      (key : Text) (v : Value) (a : Attempt Text)
      → context.idempotency_key ≡ string key
      → Protected (λ next. with_hash lib key input context d next (hash_parsed lib a) w)
  unfolding with_hash hash_parsed
  with_hash-Protected key v (returns hash) e =
      claims key hash e
        (run_claim-Guarded lib (claim_of lib key context d.name hash) input context w)
  with_hash-Protected key v (fails x) e =
      rejects (handle_unhashable_input d.name) unhashable-failure (λ next. refl)

  Protected-shift : (run run' : Next → Run ToolResult) → run ≡ run' → Protected run' → Protected run
  Protected-shift run run' e p = subst Protected (sym e) p

  with_key-Protected :
      (available : Bool) (k : KeyCheck) (v : Value)
      → validate_idempotency_key lib context.idempotency_key d.name ≡ k
      → is_nullish context.idempotency_key ≡ false
      → d.input_schema.safe_parse input ≡ valid v
      → Protected (λ next. with_key lib available input context d next k w)
  unfolding with_key compute_input_hash hash_valid
  with_key-Protected available (refused r) v e supplied parses =
      rejects r (refused-failure lib d.name context.idempotency_key r e) (λ next. refl)
  with_key-Protected available (accepted []) v e supplied parses =
      let (same, k) = (accepted_iff lib d.name context.idempotency_key [] supplied).0 e in
      absurd (omega (arith, k.nonempty))
  with_key-Protected false (accepted (x ∷ key)) v e supplied parses =
      rejects (handle_record_unavailable d.name) unavailable-failure (λ next. refl)
  with_key-Protected true (accepted (x ∷ key)) v e supplied parses =
      let (same, k) = (accepted_iff lib d.name context.idempotency_key (x ∷ key) supplied).0 e in
      subst
        (λ p. Protected (λ next. with_hash lib (x ∷ key) input context d next (hash_valid lib p) w))
        (sym parses) (with_hash-Protected (x ∷ key) v (lib.hash_input v) same)

  -- With a key supplied, and an input that the tool's schema accepts, the middleware rejects the
  -- request with nothing changed and without the handler, or runs it under a claim on that key.
  pub idempotency_middleware-Protected :
      (available : Bool) (v : Value)
      → is_nullish context.idempotency_key ≡ false
      → d.input_schema.safe_parse input ≡ valid v
      → Protected (λ next. idempotency_middleware lib available input context d next w)
  unfolding idempotency_middleware
  idempotency_middleware-Protected available v supplied parses =
      with_key-Protected available (validate_idempotency_key lib context.idempotency_key d.name) v
        refl supplied parses
