-- ===== src/Tests/Truncated.antt =====
-- The truncation of texts and values, and the row that is stored with it.
use besterp.Prelude.{refl, ◌≢◌, true, [], ◌∷◌, map, ◌%◌, none, some, arith}
use besterp.Text.{Text, lit, decimal}
use besterp.Value.{Value, string, object, field, end}
use besterp.Surrogates.{normalize_unpaired_surrogates}
use besterp.Support.{Support}
use besterp.Limits.{max_stored_payload_size}
use besterp.Utf8.Laws.{AreUnits}
use besterp.Json.{Json, stringify}
use besterp.Truncate.{at_least_one, cap_string}
use besterp.Truncate.Bound.{Capped, cap_string-Capped}
use besterp.Truncate.Stored.{
  truncate_value, truncate_limited, truncate_text, truncate_scalar, truncate_normalised,
  truncate_serialized, truncate_parsed, check_oversized, truncation_marker,
}
use besterp.Truncate.Small.{
  IsSmall, IsTruncated, truncate_value-IsSmall, truncate_value-IsTruncated,
}
use besterp.Idempotency.Acquire.{fresh_record}
use besterp.Idempotency.Execute.{finish_record}
use besterp.Idempotency.Execute.Bounds.{IsBacked, IsBoundedError, finish_record-IsBounded}
use besterp.Tests.{plain_lib, call_claim, failed_result}

abbrev pub plain_json : Json
plain_json = record { number_text = decimal; whole_number = λ n. n; parse = λ s. some (string s) }

-- One, two, three and four bytes.
abbrev four_kinds : Text
four_kinds = b'a' ∷ 0xe9 ∷ 0x6f22 ∷ 0xd83d ∷ 0xde00 ∷ []

four_kinds-AreUnits : AreUnits four_kinds
four_kinds-AreUnits = (omega arith, (omega arith, (omega arith, (omega arith, (omega arith, tt)))))

cap_string-Capped_example : Capped four_kinds (at_least_one 5) (cap_string (string four_kinds) 5)
cap_string-Capped_example = cap_string-Capped four_kinds 5 four_kinds-AreUnits

reads_back : (u : Value) → plain_json.parse (stringify plain_json.number_text u) ≢ none
reads_back u e = cc

truncate_value-IsSmall_example :
    IsSmall plain_lib plain_json 40
      (truncate_value plain_lib plain_json (object (field (lit "text") (string four_kinds) end)) 40)
truncate_value-IsSmall_example =
    truncate_value-IsSmall plain_lib plain_json
      (object (field (lit "text") (string four_kinds) end)) 40 (omega arith) reads_back

truncate_value-IsTruncated_example :
    IsTruncated plain_lib plain_json
      (normalize_unpaired_surrogates four_kinds)
      (at_least_one 5)
      (truncate_value plain_lib plain_json (string four_kinds) 5)
truncate_value-IsTruncated_example = truncate_value-IsTruncated plain_lib plain_json four_kinds 5

abbrev units_of : Text → Text
units_of = map (λ c. c % 65536)

-- Support with the truncation of truncate.ts, and units of 16 bits.
abbrev backed_lib : Support
backed_lib = record plain_lib {
  sanitize_for_log_output = units_of;
  truncate_value = λ v.
      truncate_value (record plain_lib { sanitize_for_log_output = units_of }) plain_json v
        max_stored_payload_size;
  cap_string = λ s n. cap_string (string s) n;
}

units_of-AreUnits : (s : Text) → AreUnits (units_of s)
units_of-AreUnits [] = tt
units_of-AreUnits (c ∷ s) = (omega arith, units_of-AreUnits s)

backed : IsBacked backed_lib plain_json
unfolding truncate_value truncate_limited truncate_text truncate_scalar truncate_normalised
    truncate_serialized truncate_parsed check_oversized truncation_marker
backed = record {
  caps = λ s n. refl;
  truncates = λ v. refl;
  units = units_of-AreUnits;
  reads = reads_back;
}

finish_record-IsBounded_example :
    IsSmall backed_lib plain_json max_stored_payload_size
      (finish_record backed_lib failed_result true 9 (fresh_record 5 call_claim)).result
    × IsBoundedError
        (finish_record backed_lib failed_result true 9 (fresh_record 5 call_claim)).error
finish_record-IsBounded_example =
    finish_record-IsBounded backed_lib plain_json backed failed_result true 9
      (fresh_record 5 call_claim)
