-- ===== src/Support.antt =====
-- What the framework takes from elsewhere: SHA-256 (node:crypto), and the other sanitizers of
-- packages/shared/src/sanitize.ts, the truncation (of which Truncate has the code), the canonical
-- input hash of packages/shared/src/crypto.ts, the plurals of packages/shared/src/pluralize.ts and the
-- rendering of Zod issues in registry/tool-registry.ts, which stand for any functions of their types
-- here.
use besterp.Prelude.{ℕ, ◌≡◌, refl, Bool, List}
use besterp.Text.{Text}
use besterp.Value.{Value}
use besterp.Run.{Thrown}
use besterp.Tool.{Issue}

pub data Attempt (A : Type 0) : Type 0 where
  returns : A → Attempt A
  fails : Thrown → Attempt A

pub record Support : Type 0 where
  pub sha256_hex : Text → Text
  pub hash_input : Value → Attempt Text
  pub sanitize_for_log_output : Text → Text
  pub sanitize_keep_opaque : Text → Text
  pub strip_html_tags : Text → Attempt Text
  pub redact_sensitive_field_values : Value → Value
  pub truncate_value : Value → Value
  pub is_truncation_marker : Value → Bool
  pub cap_string : Text → ℕ → Text
  pub sanitize_log_message : Text → Text
  pub to_lower_case : Text → Text
  pub pluralize : Text → Text
  -- The joined and the sanitized issues of a failed validation.
  pub issue_summary : List Issue → Text
  pub sanitize_issues : List Issue → Value

infixl 5 ◌>>=◌ ◌>>◌
abbrev pub ◌>>=◌ : {A B : Type 0} → Attempt A → (A → Attempt B) → Attempt B
returns a >>= f = f a
fails e >>= f = fails e

abbrev pub ◌>>◌ : {A B : Type 0} → Attempt A → Attempt B → Attempt B
a >> b = a >>= λ _. b

-- To go through a step that returned.
pub bind_cases {ℓ} :
    {A B : Type 0} {P : Type ℓ} (m : Attempt A) (f : A → Attempt B) (b : B)
    → (m >>= f) ≡ returns b
    → ((a : A) → m ≡ returns a → f a ≡ returns b → P)
    → P
bind_cases (returns a) f b h k = k a refl h
bind_cases (fails e) f b h k = absurd cc

pub returns-eq_returns : {A : Type 0} {a b : A} → returns a ≡ returns b → a ≡ b
returns-eq_returns h = cc
