-- ===== src/Identity.antt =====
-- packages/mcp-tools/src/identity.ts: the form in which an identity is stored.
use besterp.Prelude.{ℕ, ◌||◌, Option, none, some, ◌++◌, ltb, ◌==◌, if◌then◌else◌, length, take}
use besterp.Text.{Text}
use besterp.Text.{text_eq}
use besterp.Value.{Value, string}
use besterp.Support.{Support, Attempt, returns, fails}

abbrev pub identity_digest_length : ℕ
identity_digest_length = 24

module _ (lib : Support) where
  unfoldable pub identity_digest : Text → Text
  identity_digest value = take identity_digest_length (lib.sha256_hex value)

  stored_form : Text → Attempt Text → Option Text
  stored_form value (fails e) = none
  stored_form value (returns stripped) =
      let sanitized = lib.sanitize_keep_opaque stripped in
      if text_eq sanitized value then some value else some (sanitized ++ identity_digest value)

  unfoldable pub sanitize_durable_identity : Value → ℕ → Option Text
  unfolding stored_form
  sanitize_durable_identity (string value) max_length =
      if length value == 0 || ltb max_length (length value)
      then none
      else stored_form value (lib.strip_html_tags value)
  sanitize_durable_identity _ max_length = none
