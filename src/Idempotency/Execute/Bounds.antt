-- ===== src/Idempotency/Execute/Bounds.antt =====
-- The size of the row that an execution leaves, with the truncation of middleware/truncate.ts.
use besterp.Prelude.{
  ℕ, ◌≤◌, ◌≡◌, refl, sym, subst, ◌≢◌, ◌⊎◌, inl, inr, Bool, true, false, none, arith, Bool-cases,
  length,
}
use besterp.Text.{Text, lit}
use besterp.Value.{Value, null, string, object, field, end, is_nullish}
use besterp.Support.{Support}
use besterp.Limits.{max_soft_failure_message_size, max_stored_payload_size}
use besterp.Store.{IdempotencyRecord}
use besterp.Tool.{ToolResult}
use besterp.Utf8.{encode}
use besterp.Utf8.Laws.{AreUnits}
use besterp.Json.{Json, stringify}
use besterp.Truncate.{cap_string}
use besterp.Truncate.Bound.{Capped, cap_string-Capped, normalize-AreUnits}
use besterp.Truncate.Stored.{truncate_value}
use besterp.Truncate.Small.{IsSmall, null-IsSmall, truncate_value-IsSmall}
use besterp.Idempotency.Execute.{
  durable_text, stored_error, error_message, error_code, stored_result, finish_record,
}

-- The parameters are those of truncate.ts, the sanitizer yields units of 16 bits, and JSON.parse reads
-- what JSON.stringify wrote.
pub record IsBacked (lib : Support) (js : Json) : Type 0 where
  pub caps : (s : Text) (n : ℕ) → lib.cap_string s n ≡ cap_string (string s) n
  pub truncates :
      (v : Value) → lib.truncate_value v ≡ truncate_value lib js v max_stored_payload_size
  pub units : (s : Text) → AreUnits (lib.sanitize_for_log_output s)
  pub reads : (v : Value) → js.parse (stringify js.number_text v) ≢ none

-- No error, or a message and a code of 4096 bytes at most each.
abbrev pub IsBoundedError : Value → Type 0
IsBoundedError e =
    (e ≡ null)
    ⊎ ((m c : Text) × (e
          ≡ object (field (lit "message") (string m) (field (lit "code") (string c) end)))
        × (length (encode m) ≤ max_soft_failure_message_size)
        × (length (encode c) ≤ max_soft_failure_message_size))

Capped-size : (s : Text) (n : ℕ) (r : Text) → Capped s n r → length (encode r) ≤ n
Capped-size s n r (inl (h, e)) = subst (λ t. length (encode t) ≤ n) (sym e) h
Capped-size s n r (inr (h, k, cut)) = k

module _ (lib : Support) (js : Json) (backed : IsBacked lib js) where
  durable_text-size :
      (s : Text) → length (encode (durable_text lib s)) ≤ max_soft_failure_message_size
  unfolding durable_text
  durable_text-size s =
      subst (λ t. length (encode t) ≤ max_soft_failure_message_size)
        (sym (backed.caps _ max_soft_failure_message_size))
        (Capped-size _ max_soft_failure_message_size _ (
          cap_string-Capped _ max_soft_failure_message_size
            (normalize-AreUnits _ (backed.units s))))

  stored_error-IsBoundedError :
      (soft : Bool) (r : ToolResult) → IsBoundedError (stored_error lib soft r)
  unfolding stored_error
  stored_error-IsBoundedError true r = inr (
    durable_text lib (error_message lib r.error),
    durable_text lib (error_code lib r.error),
    refl,
    durable_text-size _,
    durable_text-size _,
  )
  stored_error-IsBoundedError false r = inl refl

  stored_result-IsSmall : (v : Value) → IsSmall lib js max_stored_payload_size (stored_result lib v)
  unfolding stored_result
  stored_result-IsSmall v = elim (Bool-cases (is_nullish v)) [
    | inl nullish ↦ rw nullish (null-IsSmall lib js max_stored_payload_size (omega arith))
    | inr given ↦
        rw (given, backed.truncates (lib.redact_sensitive_field_values v))
          (truncate_value-IsSmall lib js _ max_stored_payload_size (omega arith) backed.reads)
  ]

  -- With the truncation of truncate.ts, a sanitizer that yields units of 16 bits, and a JSON.parse
  -- that reads what JSON.stringify wrote, the row that the outcome of an execution leaves has a
  -- result whose stored form has at most 65536 bytes of UTF-8, and no error or one whose message
  -- and code have at most 4096 bytes each.
  pub finish_record-IsBounded :
      (result : ToolResult) (soft : Bool) (now : ℕ) (r : IdempotencyRecord)
      → IsSmall lib js max_stored_payload_size (finish_record lib result soft now r).result
        × IsBoundedError (finish_record lib result soft now r).error
  unfolding finish_record
  finish_record-IsBounded result soft now r =
      (stored_result-IsSmall result.payload, stored_error-IsBoundedError soft result)
