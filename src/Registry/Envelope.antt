-- ===== src/Registry/Envelope.antt =====
-- `promoteEnvelopeKeys` and `stripEnvelopeKeys`: the arguments that the framework owns move from the
-- input to the context.
pub mod Laws
use besterp.Prelude.{Bool, true, false, not, ◌&&◌, Option, none, some, List, [], ◌∷◌, if◌then◌else◌}
use besterp.Text.{Text, lit}
use besterp.Value.{
  Value, Fields, undefined, null, string, object, get, has, omit, is_nullish, strict_eq, as_object,
}
use besterp.Tool.{ToolContext, ToolResult, failure}
use besterp.Idempotency.Errors.{idempotency_key_mismatch}

abbrev pub key_name : Text
key_name = lit "idempotencyKey"

abbrev pub confirmation_name : Text
confirmation_name = lit "confirmation"

abbrev pub envelope_keys : List Text
envelope_keys = key_name ∷ confirmation_name ∷ []

strip_fields : Fields → Fields
strip_fields fs =
    if not (has key_name fs) && not (has confirmation_name fs)
    then fs
    else omit confirmation_name (omit key_name fs)

unfoldable pub strip_envelope_keys : Value → Value
unfolding strip_fields
strip_envelope_keys (object fs) = object (strip_fields fs)
strip_envelope_keys v = v

-- A field of the raw arguments; there is none where they are no object.
unfoldable pub raw_field : Text → Option Fields → Value
raw_field name none = undefined
raw_field name (some fs) = get name fs

-- The context carries a key: any value but `undefined`, `null` and "".
unfoldable pub is_context_key : Value → Bool
is_context_key undefined = false
is_context_key null = false
is_context_key (string []) = false
is_context_key _ = true

pub data Promotion : Type 0 where
  promoted : ToolContext → Promotion
  conflict : ToolResult → Promotion

unfoldable pub conflict_error : ToolResult
conflict_error =
    failure idempotency_key_mismatch
      (lit
        "Two different idempotency keys were supplied (one in the request context, one in the tool arguments). Use a single idempotency key.")
      (lit "list_available_tools" ∷ []) undefined

promoted_context : ToolContext → Value → Value → ToolContext
promoted_context context key confirmation = record context {
  idempotency_key =
      if not (is_nullish key) && not (is_context_key context.idempotency_key)
      then key
      else context.idempotency_key;
  confirmation = if is_nullish confirmation then context.confirmation else confirmation;
}

promote : ToolContext → Value → Value → Promotion
unfolding promoted_context
promote context key confirmation =
    if not (is_nullish key)
      && is_context_key context.idempotency_key
      && not (strict_eq key context.idempotency_key)
    then conflict conflict_error
    else promoted (promoted_context context key confirmation)

unfoldable pub promote_envelope_keys : ToolContext → Value → Promotion
unfolding promote
promote_envelope_keys context raw =
    promote context (raw_field key_name (as_object raw))
      (raw_field confirmation_name (as_object raw))
