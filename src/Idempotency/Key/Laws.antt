-- ===== src/Idempotency/Key/Laws.antt =====
-- Which idempotency keys are accepted.
use besterp.Prelude.{◌≤◌, ◌<◌, ◌≡◌, ap, ◌∙◌, subst, ◌↔◌, true, false, arith, length, all}
use besterp.Text.{Text, between}
use besterp.Value.{Value, undefined, null, boolean, number, string, array, object, is_nullish}
use besterp.Support.{Support}
use besterp.Limits.{max_idempotency_key_length}
use besterp.Tool.{ToolResult}
use besterp.Idempotency.Key.{
  accepted, refused, safe_idempotency_key, check_string, validate_idempotency_key,
}

-- Printable ASCII without the space, and of a length that the column allows.
pub record IsKey (key : Text) : Type 0 where
  pub nonempty : 0 < length key
  pub bounded : length key ≤ max_idempotency_key_length
  pub printable : all (between b'!' b'~') key ≡ true

module _ (lib : Support) (tool : Text) where
  check_string-IsKey : (s key : Text) → check_string lib s tool ≡ accepted key → (s ≡ key) × IsKey s
  unfolding check_string safe_idempotency_key
  check_string-IsKey s key e = ground arith

  IsKey-check_string : (s : Text) → IsKey s → check_string lib s tool ≡ accepted s
  unfolding check_string safe_idempotency_key
  IsKey-check_string s k = ground arith

  check_string_iff :
      (s key : Text)
      → (check_string lib s tool ≡ accepted key) ↔ ((string s ≡ string key) × IsKey key)
  check_string_iff s key = (
    λ e. let (same, k) = check_string-IsKey s key e in (ap string same, subst IsKey same k),
    λ (same, k).
        let eq : s ≡ key = cc same in
        ap (λ x. check_string lib x tool) eq ∙ IsKey-check_string key k,
  )

  -- A key that is supplied is accepted exactly if it is a string of 1 to 500 printable ASCII
  -- characters without the space.
  pub accepted_iff :
      (v : Value) (key : Text)
      → is_nullish v ≡ false
      → (validate_idempotency_key lib v tool ≡ accepted key) ↔ ((v ≡ string key) × IsKey key)
  unfolding validate_idempotency_key is_nullish
  accepted_iff undefined key h = cc
  accepted_iff null key h = cc
  accepted_iff (string s) key h = check_string_iff s key
  accepted_iff (boolean b) key h = (λ e. cc, λ e. cc (e.0))
  accepted_iff (number n) key h = (λ e. cc, λ e. cc (e.0))
  accepted_iff (array vs) key h = (λ e. cc, λ e. cc (e.0))
  accepted_iff (object fs) key h = (λ e. cc, λ e. cc (e.0))

  -- What is refused is reported as a failure.
  pub refused-failure :
      (v : Value) (r : ToolResult)
      → validate_idempotency_key lib v tool ≡ refused r
      → r.success ≡ false
  unfolding validate_idempotency_key check_string
  refused-failure undefined r e = cc
  refused-failure null r e = cc
  refused-failure (string s) r e = ground arith
  refused-failure (boolean b) r e = ground arith
  refused-failure (number n) r e = ground arith
  refused-failure (array vs) r e = ground arith
  refused-failure (object fs) r e = ground arith
