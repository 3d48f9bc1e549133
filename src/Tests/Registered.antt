-- ===== src/Tests/Registered.antt =====
-- The theorems on the registry at a registry of two tools.
use besterp.Prelude.{◌≡◌, refl, sym, ◌↔◌, true, false, [], ◌∷◌}
use besterp.Text.{lit, text_eq, includes, trim, is_space}
use besterp.Value.{string}
use besterp.Registry.Names.{
  is_snake_case, is_lower, is_alnum, starts_with, in_word, after_underscore,
}
use besterp.Registry.Names.Laws.{IsSnakeCase, is_snake_case_iff}
use besterp.Registry.Envelope.{promote_envelope_keys}
use besterp.Registry.Envelope.Laws.{Promoted, promote_envelope_keys-Promoted}
use besterp.Registry.Tools.{
  ToolRegistry, empty_registry, register, registered, find_entry, find_cached,
  envelope_key_collision,
}
use besterp.Registry.Tools.Laws.{
  some-none, IsWellFormed, Admits, with_tool, register_iff, register-IsWellFormed,
}
use besterp.Registry.Execute.{execute}
use besterp.Registry.Execute.Laws.{
  IsCoherent, IsCoherentElsewhere, empty_registry-IsCoherent, register-IsCoherent, Executed,
  execute-Executed,
}
use besterp.Tests.{plain_lib, create_party, archive_party, agent_call, arguments, succeed}

abbrev one_tool : ToolRegistry
one_tool = with_tool create_party [] empty_registry

abbrev two_tools : ToolRegistry
two_tools = with_tool archive_party [] one_tool

first_registered : register create_party [] empty_registry ≡ registered one_tool
unfolding register trim is_space starts_with is_snake_case is_lower is_alnum in_word
    after_underscore find_entry text_eq envelope_key_collision includes
first_registered = refl

second_registered : register archive_party [] one_tool ≡ registered two_tools
unfolding register trim is_space starts_with is_snake_case is_lower is_alnum in_word
    after_underscore find_entry text_eq envelope_key_collision includes
second_registered = refl

empty-IsWellFormed : IsWellFormed []
empty-IsWellFormed = record { distinct = tt; registrable = tt }

register_iff_example :
    (register archive_party [] one_tool ≡ registered two_tools)
    ↔ Admits archive_party [] one_tool two_tools
register_iff_example = register_iff archive_party [] one_tool two_tools

is_snake_case_iff_example :
    (is_snake_case (lit "create_party_2") ≡ true) ↔ IsSnakeCase (lit "create_party_2")
is_snake_case_iff_example = is_snake_case_iff (lit "create_party_2")

-- An underscore at the end, two in a row, a digit in front.
refuses_names :
    (is_snake_case (lit "create_") ≡ false)
    × (is_snake_case (lit "create__party") ≡ false)
    × (is_snake_case (lit "2_create") ≡ false)
unfolding is_snake_case is_lower is_alnum in_word after_underscore
refuses_names = (refl, refl, refl)

register-IsWellFormed_example : IsWellFormed one_tool.tools
register-IsWellFormed_example =
    register-IsWellFormed create_party [] empty_registry one_tool empty-IsWellFormed
      first_registered

one_tool-IsCoherent : IsCoherent plain_lib one_tool
one_tool-IsCoherent =
    register-IsCoherent plain_lib create_party [] empty_registry one_tool
      (λ name pipeline other h. empty_registry-IsCoherent plain_lib name pipeline h)
      first_registered

-- A registry with a pipeline of a tool that it does not have.
abbrev stale : ToolRegistry
stale = record one_tool {
  pipeline_cache = record { tool = lit "archive_party"; pipeline = succeed } ∷ [];
}

stale-registered : register archive_party [] stale ≡ registered (with_tool archive_party [] stale)
unfolding register trim is_space starts_with is_snake_case is_lower is_alnum in_word
    after_underscore find_entry text_eq envelope_key_collision includes
stale-registered = refl

stale-IsCoherentElsewhere : IsCoherentElsewhere plain_lib (lit "archive_party") stale
unfolding find_cached
stale-IsCoherentElsewhere name pipeline other h = absurd (some-none (sym (rw other at h)))

register-IsCoherent_example : IsCoherent plain_lib (with_tool archive_party [] stale)
register-IsCoherent_example =
    register-IsCoherent plain_lib archive_party [] stale (with_tool archive_party [] stale)
      stale-IsCoherentElsewhere stale-registered

execute-Executed_example :
    Executed plain_lib one_tool
      (string (lit "create_party"))
      arguments
      agent_call
      (execute plain_lib one_tool (string (lit "create_party")) arguments agent_call)
execute-Executed_example =
    execute-Executed plain_lib one_tool (string (lit "create_party")) arguments agent_call
      one_tool-IsCoherent

promote_envelope_keys-Promoted_example :
    Promoted agent_call arguments (promote_envelope_keys agent_call arguments)
promote_envelope_keys-Promoted_example = promote_envelope_keys-Promoted agent_call arguments
