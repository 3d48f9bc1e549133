-- ===== src/Registry/Tools.antt =====
-- The registered tools: `register`, `addGlobalMiddleware`, `get` and `names`, with the cache of the
-- composed pipelines. What the types of a definition rule out (a handler that is no function, an
-- unknown risk level, a schema without `safeParse` or whose errors carry no issues) is not tested.
pub mod Laws
use besterp.Prelude.{
  ◌+◌, not, Option, none, some, List, [], ◌∷◌, ◌++◌, map, ◌==◌, if◌then◌else◌, length,
}
use besterp.Text.{Text, lit, text_eq, trim, includes, decimal}
use besterp.Tool.{ToolDefinition, ToolMiddleware, Next, ZodSchemaLike, RiskLevel}
use besterp.Registry.Names.{is_snake_case, starts_with}
use besterp.Registry.Envelope.{envelope_keys}

pub record RegistryEntry : Type 0 where
  pub definition : ToolDefinition
  pub middlewares : List ToolMiddleware

pub record Cached : Type 0 where
  pub tool : Text
  pub pipeline : Next

-- A `Map` keeps the order in which its keys were set.
pub record ToolRegistry : Type 0 where
  pub tools : List RegistryEntry
  pub global_middlewares : List ToolMiddleware
  pub global_middleware_names : List Text
  pub pipeline_cache : List Cached

abbrev pub empty_registry : ToolRegistry
empty_registry = record {
  tools = [];
  global_middlewares = [];
  global_middleware_names = [];
  pipeline_cache = [];
}

unfoldable pub find_entry : Text → List RegistryEntry → Option RegistryEntry
find_entry name [] = none
find_entry name (e ∷ es) = if text_eq e.definition.name name then some e else find_entry name es

unfoldable pub find_cached : Text → List Cached → Option Next
find_cached name [] = none
find_cached name (c ∷ cs) = if text_eq c.tool name then some c.pipeline else find_cached name cs

unfoldable pub drop_cached : Text → List Cached → List Cached
drop_cached name [] = []
drop_cached name (c ∷ cs) =
    if text_eq c.tool name then drop_cached name cs else c ∷ drop_cached name cs

unfoldable pub get_tool : ToolRegistry → Text → Option RegistryEntry
unfolding find_entry
get_tool r name = find_entry name r.tools

unfoldable pub names : ToolRegistry → List Text
names r = map (λ e. e.definition.name) r.tools

-- The stage name that a middleware without one is given: `middleware-${n}`.
or_numbered : ToolRegistry → Option Text → Text
or_numbered r none = lit "middleware-" ++ decimal (length r.global_middleware_names + 1)
or_numbered r (some name) = name

unfoldable pub add_global_middleware : ToolMiddleware → Option Text → ToolRegistry → ToolRegistry
unfolding or_numbered
add_global_middleware m name r = record r {
  global_middlewares = r.global_middlewares ++ m ∷ [];
  global_middleware_names = r.global_middleware_names ++ or_numbered r name ∷ [];
  pipeline_cache = [];
}

-- The errors that `register` throws, and the registry it leaves.
pub data Registration : Type 0 where
  registered : ToolRegistry → Registration
  no_name no_description reserved_name not_snake_case already_registered : Registration
  declares_envelope_key : Text → Registration

-- The first envelope key that is among the declared fields.
first_declared : List Text → List Text → Option Text
first_declared declared [] = none
first_declared declared (k ∷ ks) =
    if includes k declared then some k else first_declared declared ks

unfoldable pub envelope_key_collision : ZodSchemaLike → Option Text
unfolding first_declared
envelope_key_collision schema = elim schema.shape [
  | none ↦ none
  | some declared ↦ first_declared declared envelope_keys
]

set_tool : ToolRegistry → ToolDefinition → List ToolMiddleware → Registration
set_tool r d ms = registered (record r {
  tools = r.tools ++ record { definition = d; middlewares = ms } ∷ [];
  pipeline_cache = drop_cached d.name r.pipeline_cache;
})

check_collision : ToolRegistry → ToolDefinition → List ToolMiddleware → Option Text → Registration
unfolding set_tool
check_collision r d ms none = set_tool r d ms
check_collision r d ms (some key) = declares_envelope_key key

check_new :
    ToolRegistry → ToolDefinition → List ToolMiddleware → Option RegistryEntry → Registration
unfolding check_collision
check_new r d ms (some e) = already_registered
check_new r d ms none = check_collision r d ms (envelope_key_collision d.input_schema)

unfoldable pub register : ToolDefinition → List ToolMiddleware → ToolRegistry → Registration
unfolding check_new
register d ms r =
    if length d.name == 0
    then no_name
    else if length (trim d.description) == 0
    then no_description
    else if starts_with d.name (lit "__")
    then reserved_name
    else if not (is_snake_case d.name)
    then not_snake_case
    else check_new r d ms (find_entry d.name r.tools)

-- A row of `getDiscoveryInfo`.
pub record DiscoveryRow : Type 0 where
  pub name : Text
  pub description : Text
  pub risk_level : RiskLevel
  pub entity : Option Text
  pub tags : Option (List Text)

discovery_row : RegistryEntry → DiscoveryRow
discovery_row e = record {
  name = e.definition.name;
  description = e.definition.description;
  risk_level = e.definition.risk_level;
  entity = e.definition.entity;
  tags = e.definition.tags;
}

unfoldable pub get_discovery_info : ToolRegistry → List DiscoveryRow
unfolding discovery_row
get_discovery_info r = map discovery_row r.tools
