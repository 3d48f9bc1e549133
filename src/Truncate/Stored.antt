-- ===== src/Truncate/Stored.antt =====
-- `truncateValue` of truncate.ts, for the values of JSON: no bigint, symbol, function, Date, Map or Set,
-- and no value within itself.
use besterp.Prelude.{
  ℕ, zero, suc, ◌/◌, ◌%◌, ◌^◌, Bool, true, false, not, ◌&&◌, Option, none, some, List, ltb, leb,
  ◌==◌, if◌then◌else◌, length, take, and_then,
}
use besterp.Text.{Text, lit, text_eq}
use besterp.Value.{
  Value, undefined, null, boolean, number, string, array, object, Items, nil, cons, Fields, end,
  field, get, strict_eq,
}
use besterp.Surrogates.{normalize_unpaired_surrogates}
use besterp.Support.{Support}
use besterp.Limits.{truncate_preview_bytes, max_nesting_depth}
use besterp.Utf8.{encode}
use besterp.Json.{Json, stringify}
use besterp.Truncate.{safe_slice_utf8, at_least_one}

abbrev pub truncation_marker_key : Text
truncation_marker_key = lit "__besterp_trunc"

abbrev pub minimal_truncation_marker : Value
minimal_truncation_marker = object (field truncation_marker_key (boolean true) end)

-- `{ _error: "Failed to serialize value" }`.
abbrev pub serialization_error : Value
serialization_error = object (field (lit "_error") (string (lit "Failed to serialize value")) end)

-- What exceeds the depth throws.
abbrev pub within : ℕ → Option Value → Option Value
within depth v = if ltb max_nesting_depth depth then none else v

-- At the depth given; `out["__proto__"] = v` makes no field.
unfoldable mutual
  pub normalise_at : ℕ → Value → Option Value
  normalise_at depth undefined = some undefined
  normalise_at depth null = some null
  normalise_at depth (boolean b) = some (boolean b)
  normalise_at depth (number n) = some (number n)
  normalise_at depth (string s) = some (string (normalize_unpaired_surrogates s))
  normalise_at depth (array vs) = and_then (normalise_items (suc depth) vs) (λ us. some (array us))
  normalise_at depth (object fs) =
      and_then (normalise_fields (suc depth) fs) (λ gs. some (object gs))

  pub normalise_items : ℕ → Items → Option Items
  normalise_items depth nil = some nil
  normalise_items depth (cons v vs) =
      let rest = normalise_items depth vs in
      and_then (within depth (normalise_at depth v)) (λ u. and_then rest (λ us. some (cons u us)))

  pub normalise_fields : ℕ → Fields → Option Fields
  normalise_fields depth end = some end
  normalise_fields depth (field k v fs) =
      let rest = normalise_fields depth fs in
      and_then (within depth (normalise_at depth v))
        (λ u. and_then rest (λ gs. some (if text_eq k (lit "__proto__") then gs else field k u gs)))

unfoldable pub normalise_for_truncation : Value → Option Value
unfolding normalise_at
normalise_for_truncation v = within 0 (normalise_at 0 v)

-- The bits of a number that is an infinity or NaN.
abbrev pub is_finite : ℕ → Bool
is_finite n = ltb (n % 2 ^ 63) 0x7ff0000000000000

module _ (lib : Support) (js : Json) where
  -- The bytes of the stored form of a value.
  unfoldable pub stored_size : Value → ℕ
  stored_size v = length (encode (stringify js.number_text v))

  marker_fields : ℕ → Fields → Fields
  marker_fields size more = field truncation_marker_key (boolean true) (
      field (lit "_truncated") (boolean true)
        (field (lit "_originalSize") (number (js.whole_number size)) more))

  unfoldable pub marker_with : ℕ → Text → Value
  unfolding marker_fields
  marker_with size preview =
      object (marker_fields size (field (lit "_preview") (string preview) end))

  unfoldable pub marker_without : ℕ → Value
  unfolding marker_fields
  marker_without size = object (marker_fields size end)

  -- The loop that halves the preview; it ends for want of length.
  unfoldable pub shrink : ℕ → ℕ → ℕ → Text → Text
  unfolding stored_size marker_with
  shrink zero size limit preview = preview
  shrink (suc fuel) size limit preview =
      let shorter = shrink fuel size limit (take (length preview / 2) preview) in
      if ltb limit (stored_size (marker_with size preview)) && not (length preview == 0)
      then shorter
      else preview

  -- With the preview if it fits, else without, else the least marker.
  unfoldable pub marker_for : ℕ → ℕ → Text → Value
  unfolding stored_size marker_with marker_without
  marker_for size limit preview =
      if ltb limit (stored_size (marker_with size preview))
      then if leb (stored_size (marker_without size)) limit
        then marker_without size
        else minimal_truncation_marker
      else marker_with size preview

  unfoldable pub truncation_marker : List ℕ → ℕ → Value
  unfolding shrink marker_for safe_slice_utf8
  truncation_marker encoded limit =
      let preview = lib.sanitize_for_log_output (safe_slice_utf8 encoded truncate_preview_bytes) in
      marker_for (length encoded) limit (shrink (length preview) (length encoded) limit preview)

  -- The marker of a text whose stored form has the size given, or the value if it fits.
  unfoldable pub check_oversized : List ℕ → ℕ → ℕ → Value → Value
  unfolding truncation_marker
  check_oversized encoded size limit v =
      if ltb limit size then truncation_marker encoded limit else v

  unfoldable pub truncate_text : Text → ℕ → Value
  unfolding check_oversized stored_size
  truncate_text s limit = check_oversized (encode s) (stored_size (string s)) limit (string s)

  -- A boolean or a number, which is stored as the value given.
  unfoldable pub truncate_scalar : Value → Value → ℕ → Value
  unfolding check_oversized stored_size
  truncate_scalar v kept limit =
      check_oversized (encode (stringify js.number_text v)) (stored_size v) limit kept

  -- What was serialized is read again; its form may have changed.
  unfoldable pub truncate_parsed : Text → ℕ → Option Value → Value
  unfolding check_oversized stored_size
  truncate_parsed serialized limit none = string serialized
  truncate_parsed serialized limit (some v) =
      check_oversized (encode (stringify js.number_text v)) (stored_size v) limit v

  unfoldable pub truncate_serialized : Text → ℕ → Value
  unfolding check_oversized truncate_parsed
  truncate_serialized serialized limit =
      check_oversized (encode serialized) (length (encode serialized)) limit
        (truncate_parsed serialized limit (js.parse serialized))

  unfoldable pub truncate_normalised : ℕ → Option Value → Value
  unfolding truncate_serialized
  truncate_normalised limit none = serialization_error
  truncate_normalised limit (some v) = truncate_serialized (stringify js.number_text v) limit

  unfoldable pub truncate_limited : Value → ℕ → Value
  unfolding truncate_text truncate_scalar truncate_normalised normalise_for_truncation
  truncate_limited undefined limit = undefined
  truncate_limited null limit = null
  truncate_limited (string s) limit = truncate_text (normalize_unpaired_surrogates s) limit
  truncate_limited (boolean b) limit = truncate_scalar (boolean b) (boolean b) limit
  truncate_limited (number n) limit =
      truncate_scalar (number n) (if is_finite n then number n else null) limit
  truncate_limited v limit = truncate_normalised limit (normalise_for_truncation v)

  unfoldable pub truncate_value : Value → ℕ → Value
  unfolding truncate_limited
  truncate_value v max_size = truncate_limited v (at_least_one max_size)

-- `isTruncationMarker`.
unfoldable pub is_truncation_marker : Value → Bool
unfolding get strict_eq
is_truncation_marker (object fs) = strict_eq (get truncation_marker_key fs) (boolean true)
is_truncation_marker v = false
