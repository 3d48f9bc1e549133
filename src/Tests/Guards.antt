-- ===== src/Tests/Guards.antt =====
-- The theorems on the gate, the policy and the identity at concrete calls.
use besterp.Prelude.{◌+◌, ◌≤◌, ◌≡◌, refl, inl, inr, ◌↔◌, true, List, [], ◌∷◌}
use besterp.Text.{Text, lit, text_eq, includes}
use besterp.Value.{Value, string, is_nullish}
use besterp.Run.{World, quiet}
use besterp.Support.{returns}
use besterp.Gate.{confirmation_gate_middleware}
use besterp.Gate.Laws.{Gated, confirmation_gate-Gated}
use besterp.Policy.{agent_policy_middleware, filter_suggestions_for_capabilities}
use besterp.Policy.Laws.{
  Policed, IsUnnamed, OnlyCallable, agent_policy-Policed, filter-OnlyCallable,
}
use besterp.Tenant.{validate_tenant_id}
use besterp.Tenant.Laws.{IsTenantId, validated_iff}
use besterp.Text.{trim}
use besterp.AgentResult.{cap_agent_error_text}
use besterp.AgentResult.Laws.{cap_agent_error_text-IsUtf16}
use besterp.Surrogates.Laws.{IsUtf16, chars}
use besterp.Limits.{max_error_message_length}
use besterp.Registry.Identity.{validate_context_identity}
use besterp.Registry.Identity.Laws.{Established, validate_context_identity-Established}
use besterp.Registry.Pipeline.{compose}
use besterp.Registry.Pipeline.Laws.{Secured, guards, guards-Secured}
use besterp.Tests.{plain_lib, tables, failed_result, create_party, agent_call, arguments}

abbrev world : World
world = quiet tables 5

confirmation_gate-Gated_example :
    Gated plain_lib arguments agent_call create_party world
      (λ next. confirmation_gate_middleware plain_lib arguments agent_call create_party next world)
confirmation_gate-Gated_example =
    confirmation_gate-Gated plain_lib arguments agent_call create_party world

agent_policy-Policed_example :
    Policed plain_lib arguments agent_call create_party world
      (λ next. agent_policy_middleware plain_lib true arguments agent_call create_party next world)
agent_policy-Policed_example =
    agent_policy-Policed plain_lib arguments agent_call create_party world true

abbrev capabilities : List Text
capabilities = lit "create_party" ∷ []

listed : includes (lit "create_party") capabilities ≡ true
unfolding includes text_eq
listed = refl

filter-OnlyCallable_example :
    OnlyCallable capabilities
      (filter_suggestions_for_capabilities failed_result capabilities (lit "create_party"))
filter-OnlyCallable_example =
    filter-OnlyCallable capabilities (lit "create_party") listed failed_result refl

named : ¬ IsUnnamed agent_call.agent_id
named (inl e) = cc
named (inr e) = cc

guards-Secured_example : Secured plain_lib arguments agent_call create_party world (λ next.
    compose plain_lib create_party
      (guards plain_lib arguments agent_call create_party world)
      next
      arguments
      agent_call
      world)
unfolding is_nullish
guards-Secured_example =
    guards-Secured plain_lib arguments agent_call create_party world arguments named refl refl

validate_context_identity-Established_example :
    Established plain_lib agent_call (validate_context_identity plain_lib agent_call)
validate_context_identity-Established_example =
    validate_context_identity-Established plain_lib agent_call

validated_iff_example :
    (validate_tenant_id plain_lib (string (lit " t1 ")) ≡ returns (lit "t1")) ↔ (
      (s : Text) × (Value.string (lit " t1 ") ≡ string s)
      × (trim s ≡ lit "t1")
      × IsTenantId (lit "t1"))
validated_iff_example = validated_iff plain_lib (string (lit " t1 ")) (lit "t1")

-- A high surrogate with no low one behind it.
abbrev torn : Text
torn = b'a' ∷ 0xd83d ∷ b'b' ∷ []

cap_agent_error_text-IsUtf16_example :
    (u : IsUtf16 (cap_agent_error_text plain_lib torn)) × (chars u ≤ max_error_message_length + 1)
cap_agent_error_text-IsUtf16_example = cap_agent_error_text-IsUtf16 plain_lib torn
