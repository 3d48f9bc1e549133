-- ===== src/Errors.antt =====
-- packages/shared/src/errors.ts: the domain errors by their class, each a code with a message, the
-- tools that it suggests and its context.
use besterp.Prelude.{true, List, [], ◌∷◌, some, none}
use besterp.Text.{Text, lit}
use besterp.Value.{Value, Fields, object, string, field, end}
use besterp.Run.{Thrown}

-- A context with its fields in order.
abbrev pub fields : List (Text × Value) → Fields
fields [] = end
fields ((name, v) ∷ rest) = field name v (fields rest)

abbrev pub context : List (Text × Value) → Value
context entries = object (fields entries)

-- `{ field: name }`.
abbrev pub field_context : Text → List (Text × Value) → Value
field_context name more = context ((lit "field", string name) ∷ more)

abbrev pub domain_error : Text → Text → List Text → Value → Thrown
domain_error code message tools ctx = record {
  is_domain = true;
  code = some code;
  message = message;
  suggested_tools = tools;
  context = ctx;
  target = none;
}

abbrev pub missing_subtype_data : Text → List Text → Value → Thrown
missing_subtype_data = domain_error (lit "MISSING_SUBTYPE_DATA")

abbrev pub invalid_type_value : Text → List Text → Value → Thrown
invalid_type_value = domain_error (lit "INVALID_TYPE_VALUE")

abbrev pub duplicate_entity : Text → List Text → Value → Thrown
duplicate_entity = domain_error (lit "DUPLICATE_ENTITY")

abbrev pub entity_not_found : Text → List Text → Value → Thrown
entity_not_found = domain_error (lit "ENTITY_NOT_FOUND")

abbrev pub concurrency_conflict : Text → List Text → Value → Thrown
concurrency_conflict = domain_error (lit "CONCURRENCY_CONFLICT")
