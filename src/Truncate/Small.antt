-- ===== src/Truncate/Small.antt =====
-- The stored size of what `truncateValue` makes of a value.
use besterp.Prelude.{
  ℕ, ◌≤◌, ◌<◌, ◌≡◌, refl, sym, subst, ◌≢◌, ◌⊎◌, inl, inr, Bool, true, false, Option, none, some,
  List, arith, ltb, leb, if◌then◌else◌, Bool-cases, length,
}
use besterp.Text.{Text, text_eq}
use besterp.Value.{Value, undefined, null, boolean, number, string, array, object, get, strict_eq}
use besterp.Surrogates.{has_unpaired_surrogate, normalize_unpaired_surrogates}
use besterp.Support.{Support}
use besterp.Utf8.{encode}
use besterp.Json.{Json, stringify}
use besterp.Truncate.{at_least_one}
use besterp.Truncate.Stored.{
  minimal_truncation_marker, serialization_error, is_finite, stored_size, marker_with,
  marker_without, marker_for, truncation_marker, check_oversized, truncate_text, truncate_scalar,
  truncate_parsed, truncate_serialized, truncate_normalised, truncate_limited, truncate_value,
  is_truncation_marker,
}

module _ (lib : Support) (js : Json) where
  -- Of so many bytes at most.
  unfoldable pub IsSmall : ℕ → Value → Type 0
  IsSmall n v = stored_size lib js v ≤ n

  pub null-IsSmall : (n : ℕ) → 38 ≤ n → IsSmall n null
  unfolding IsSmall stored_size stringify encode has_unpaired_surrogate
  null-IsSmall n h = omega (arith, h)

  undefined-IsSmall : (n : ℕ) → 38 ≤ n → IsSmall n undefined
  unfolding IsSmall stored_size stringify encode has_unpaired_surrogate
  undefined-IsSmall n h = omega (arith, h)

  minimal-IsSmall : (n : ℕ) → 38 ≤ n → IsSmall n minimal_truncation_marker
  unfolding IsSmall stored_size stringify encode has_unpaired_surrogate
  minimal-IsSmall n h = omega (arith, h)

  error-IsSmall : (n : ℕ) → 38 ≤ n → IsSmall n serialization_error
  unfolding IsSmall stored_size stringify encode has_unpaired_surrogate
  error-IsSmall n h = omega (arith, h)

  marker_for-IsSmall :
      (size n : ℕ) (preview : Text) → 38 ≤ n → IsSmall n (marker_for lib js size n preview)
  unfolding IsSmall marker_for
  marker_for-IsSmall size n preview h =
      elim (Bool-cases (ltb n (stored_size lib js (marker_with lib js size preview)))) [
        | inr fits ↦ rw fits (ground (arith, fits))
        | inl large ↦ elim (Bool-cases (leb (stored_size lib js (marker_without lib js size)) n)) [
          | inl fits ↦ rw (large, fits) (ground (arith, fits))
          | inr none_fits ↦ rw (large, none_fits) (minimal-IsSmall n h)
        ]
      ]

  check_oversized-IsSmall :
      (encoded : List ℕ) (size n : ℕ) (v : Value)
      → 38 ≤ n
      → (size ≤ n → IsSmall n v)
      → IsSmall n (check_oversized lib js encoded size n v)
  unfolding IsSmall check_oversized truncation_marker
  check_oversized-IsSmall encoded size n v h small = elim (Bool-cases (ltb n size)) [
    | inl large ↦ rw large (marker_for-IsSmall (length encoded) n _ h)
    | inr fits ↦ rw fits (small (ground (arith, fits)))
  ]

  parsed-IsSmall :
      (serialized : Text) (n : ℕ) (o : Option Value)
      → 38 ≤ n
      → o ≢ none
      → IsSmall n (truncate_parsed lib js serialized n o)
  unfolding IsSmall truncate_parsed
  parsed-IsSmall serialized n none h read = absurd (read refl)
  parsed-IsSmall serialized n (some v) h read = check_oversized-IsSmall _ _ n v h (λ fits. fits)

  normalised-IsSmall :
      (n : ℕ) (o : Option Value)
      → 38 ≤ n
      → ((v : Value) → js.parse (stringify js.number_text v) ≢ none)
      → IsSmall n (truncate_normalised lib js n o)
  unfolding IsSmall truncate_normalised truncate_serialized
  normalised-IsSmall n none h reads = error-IsSmall n h
  normalised-IsSmall n (some v) h reads =
      check_oversized-IsSmall _ _ n _ h (λ fits. parsed-IsSmall _ n _ h (reads v))

  scalar-IsSmall :
      (n k : ℕ) (b : Bool)
      → 38 ≤ n
      → IsSmall n (truncate_scalar lib js (number k) (if b then number k else null) n)
  unfolding IsSmall truncate_scalar
  scalar-IsSmall n k true h = check_oversized-IsSmall _ _ n _ h (λ fits. fits)
  scalar-IsSmall n k false h = check_oversized-IsSmall _ _ n _ h (λ fits. null-IsSmall n h)

  limited-IsSmall :
      (v : Value) (n : ℕ)
      → 38 ≤ n
      → ((u : Value) → js.parse (stringify js.number_text u) ≢ none)
      → IsSmall n (truncate_limited lib js v n)
  unfolding IsSmall truncate_limited truncate_text truncate_scalar
  limited-IsSmall undefined n h reads = undefined-IsSmall n h
  limited-IsSmall null n h reads = null-IsSmall n h
  limited-IsSmall (boolean b) n h reads = check_oversized-IsSmall _ _ n _ h (λ fits. fits)
  limited-IsSmall (number k) n h reads = scalar-IsSmall n k (is_finite k) h
  limited-IsSmall (string s) n h reads = check_oversized-IsSmall _ _ n _ h (λ fits. fits)
  limited-IsSmall (array vs) n h reads = normalised-IsSmall n _ h reads
  limited-IsSmall (object fs) n h reads = normalised-IsSmall n _ h reads

  room : (n : ℕ) → 38 ≤ n → at_least_one n ≡ n
  room n h = ground arith

  -- Of a value of JSON, with a limit of at least 38 bytes and a JSON.parse that reads what
  -- JSON.stringify wrote, truncateValue makes a value whose stored form has at most so many bytes
  -- of UTF-8 as the limit says.
  pub truncate_value-IsSmall :
      (v : Value) (n : ℕ)
      → 38 ≤ n
      → ((u : Value) → js.parse (stringify js.number_text u) ≢ none)
      → IsSmall n (truncate_value lib js v n)
  unfolding truncate_value
  truncate_value-IsSmall v n h reads =
      subst (λ m. IsSmall n (truncate_limited lib js v m)) (sym (room n h))
        (limited-IsSmall v n h reads)

  marker_for-is_marker :
      (size n : ℕ) (preview : Text) → is_truncation_marker (marker_for lib js size n preview) ≡ true
  unfolding marker_for is_truncation_marker marker_with marker_without get text_eq strict_eq
  marker_for-is_marker size n preview =
      elim (Bool-cases (ltb n (stored_size lib js (marker_with lib js size preview)))) [
        | inr fits ↦ rw fits refl
        | inl large ↦ elim (Bool-cases (leb (stored_size lib js (marker_without lib js size)) n)) [
          | inl fits ↦ rw (large, fits) refl
          | inr none_fits ↦ rw (large, none_fits) refl
        ]
      ]

  -- Kept if its stored form fits, else replaced by a marker.
  abbrev pub IsTruncated : Text → ℕ → Value → Type 0
  IsTruncated s n r =
      ((stored_size lib js (string s) ≤ n) × (r ≡ string s))
      ⊎ ((n < stored_size lib js (string s)) × (is_truncation_marker r ≡ true))

  -- A string is kept by truncateValue, with its unpaired surrogates replaced, if its quoted form
  -- fits in the limit (1 at least), and else replaced by a value that isTruncationMarker
  -- recognizes.
  pub truncate_value-IsTruncated :
      (s : Text) (n : ℕ)
      → IsTruncated
          (normalize_unpaired_surrogates s)
          (at_least_one n)
          (truncate_value lib js (string s) n)
  unfolding truncate_value truncate_limited truncate_text check_oversized truncation_marker
  truncate_value-IsTruncated s n =
      elim (Bool-cases
        (ltb (at_least_one n) (stored_size lib js (string (normalize_unpaired_surrogates s))))) [
          | inl large ↦ rw large (inr (ground (arith, large), marker_for-is_marker _ _ _))
          | inr fits ↦ rw fits (inl (ground (arith, fits), refl))
        ]
