-- ===== src/Idempotency/Key.antt =====
-- `validateIdempotencyKey`, with SAFE_IDEMPOTENCY_KEY = /^[!-~]+$/.
pub mod Laws
use besterp.Prelude.{Bool, not, ◌&&◌, [], ◌∷◌, ltb, ◌==◌, if◌then◌else◌, length, all}
use besterp.Text.{Text, lit, between}
use besterp.Value.{Value, undefined, null, string}
use besterp.Support.{Support}
use besterp.Limits.{max_idempotency_key_length}
use besterp.Tool.{ToolResult, failure}
use besterp.Idempotency.Errors.{invalid_idempotency_key, redact_key, entry, plain_failure}

unfoldable pub safe_idempotency_key : Text → Bool
safe_idempotency_key key = not (length key == 0) && all (between b'!' b'~') key

pub data KeyCheck : Type 0 where
  accepted : Text → KeyCheck
  refused : ToolResult → KeyCheck

pub required_message : Text
required_message = lit "Idempotency key is required and must be a non-empty string."

pub too_long_message : Text
too_long_message = lit "Idempotency key exceeds maximum length of 500 characters."

pub unsafe_message : Text
unsafe_message =
    lit
      "The idempotency key contains invalid characters. Keys must be printable ASCII (no control characters, newlines, or non-ASCII bytes)."

module _ (lib : Support) where
  check_string : Text → Text → KeyCheck
  check_string key tool =
      if length key == 0
      then refused (plain_failure invalid_idempotency_key required_message tool)
      else if ltb max_idempotency_key_length (length key)
      then refused (plain_failure invalid_idempotency_key too_long_message tool)
      else if safe_idempotency_key key
      then accepted key
      else refused (
          failure invalid_idempotency_key unsafe_message (tool ∷ [])
            (entry (lit "keyPrefix") (string (redact_key lib key))))

  -- The empty key means that no key was supplied.
  unfoldable pub validate_idempotency_key : Value → Text → KeyCheck
  unfolding check_string
  validate_idempotency_key undefined tool = accepted []
  validate_idempotency_key null tool = accepted []
  validate_idempotency_key (string key) tool = check_string key tool
  validate_idempotency_key _ tool =
      refused (plain_failure invalid_idempotency_key required_message tool)
