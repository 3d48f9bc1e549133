-- ===== src/Tenant.antt =====
-- `validateTenantId` of packages/shared/src/tenant.ts and `isValidOptionalId` of
-- packages/shared/src/validation.ts: the formats of the ids that reach the database.
pub mod Laws
use besterp.Prelude.{
  ℕ, Bool, true, not, ◌&&◌, ◌||◌, none, some, [], ◌++◌, ltb, leb, ◌==◌, if◌then◌else◌, length, take,
  all,
}
use besterp.Text.{Text, lit, between, is_space, trim}
use besterp.Value.{Value, undefined, string}
use besterp.Limits.{max_tenant_id_length, max_user_id_length}
use besterp.Run.{Thrown}
use besterp.Support.{Support, Attempt, returns, fails}

-- TENANT_ID_PATTERN = /^[a-zA-Z0-9_-]+$/.
unfoldable pub is_tenant_char : ℕ → Bool
is_tenant_char c =
    between b'a' b'z' c || between b'A' b'Z' c || between b'0' b'9' c || c == b'_' || c == b'-'

unfoldable pub tenant_id_pattern : Text → Bool
tenant_id_pattern s = not (length s == 0) && all is_tenant_char s

abbrev pub invalid_tenant_id_error : Text → Thrown
invalid_tenant_id_error message = record {
  is_domain = true;
  code = some (lit "INVALID_TENANT_ID");
  message = message;
  suggested_tools = [];
  context = undefined;
  target = none;
}

module _ (lib : Support) where
  preview : Text → Text
  preview trimmed =
      lib.sanitize_log_message
        (if ltb 20 (length trimmed) then take 20 trimmed ++ lit "..." else trimmed)

  check_trimmed : Text → Attempt Text
  unfolding preview
  check_trimmed trimmed =
      if length trimmed == 0
      then fails (invalid_tenant_id_error (lit "Tenant ID must not consist solely of whitespace."))
      else if ltb max_tenant_id_length (length trimmed)
      then fails (invalid_tenant_id_error (lit "Tenant ID is too long (max 100 characters)."))
      else if not (tenant_id_pattern trimmed)
      then fails (
          invalid_tenant_id_error (
            lit "Invalid tenant ID: \""
            ++ preview trimmed
            ++ lit
                "\". Tenant IDs may only contain alphanumeric characters, hyphens, and underscores."))
      else returns trimmed

  unfoldable pub validate_tenant_id : Value → Attempt Text
  unfolding check_trimmed
  validate_tenant_id (string s) =
      if length s == 0
      then fails (invalid_tenant_id_error (lit "Tenant ID must be a non-empty string."))
      else check_trimmed (trim s)
  validate_tenant_id _ =
      fails (invalid_tenant_id_error (lit "Tenant ID must be a non-empty string."))

-- The characters that OPTIONAL_ID_PATTERN rules out.
unfoldable pub is_hidden_char : ℕ → Bool
is_hidden_char c =
    is_space c
    || between 0 0x1f c
    || between 0x7f 0x9f c
    || c == 0xad
    || c == 0x61c
    || between 0x200b 0x200f c
    || between 0x202a 0x202e c
    || between 0x2060 0x206f c
    || c == 0xfeff

unfoldable pub is_valid_optional_id : Text → Bool
is_valid_optional_id s =
    not (length s == 0) && leb (length s) max_user_id_length && all (λ c. not (is_hidden_char c)) s
