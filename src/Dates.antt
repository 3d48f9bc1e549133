-- ===== src/Dates.antt =====
-- The ISO 8601 dates of packages/shared/src/validation.ts: the format, the calendar, and the instant.
pub mod Laws
use besterp.Prelude.{
  ℕ, suc, zero, ◌+◌, ◌*◌, ◌-◌, ◌%◌, Bool, true, false, not, ◌&&◌, ◌||◌, [], ◌∷◌, ◌++◌, Option, none,
  some, ltb, leb, ◌==◌, if◌then◌else◌, take, and_then,
}
use besterp.Text.{Text, lit, between, text_eq}
use besterp.Support.{Support, Attempt, returns, fails}
use besterp.Platform.{Platform}
use besterp.Value.{string}
use besterp.Limits.{max_date_string_length}
use besterp.Errors.{context, invalid_type_value}

abbrev digit : ℕ → Bool
digit = between b'0' b'9'

-- A two digit number within bounds, and what follows it.
two_digits : ℕ → ℕ → Text → Option (ℕ × Text)
two_digits lo hi (a ∷ b ∷ s) =
    let n = (a - b'0') * 10 + (b - b'0') in
    if digit a && digit b && leb lo n && leb n hi then some (n, s) else none
two_digits lo hi _ = none

four_digits : Text → Option (ℕ × Text)
unfolding two_digits
four_digits s =
    and_then (two_digits 0 99 s)
      (λ (high, s'). and_then (two_digits 0 99 s') (λ (low, s''). some (high * 100 + low, s'')))

skip : ℕ → Text → Option Text
skip c [] = none
skip c (d ∷ s) = if d == c then some s else none

-- `\d{4}-month-day` with both parts within their bounds, as the numbers and what follows them.
unfoldable pub leading_date : ℕ → ℕ → ℕ → ℕ → Text → Option (ℕ × ℕ × ℕ × Text)
unfolding four_digits two_digits skip
leading_date month_lo month_hi day_lo day_hi s = and_then (four_digits s) (λ (year, s1).
    and_then (skip b'-' s1) (λ s2. and_then (two_digits month_lo month_hi s2) (λ (month, s3).
      and_then (skip b'-' s3)
        (λ s4. and_then (two_digits day_lo day_hi s4) (λ (day, s5). some (year, month, day, s5))))))

-- `hh:mm` up to the hour given, and no more.
hour_minute : ℕ → Text → Bool
unfolding two_digits skip
hour_minute hours s = elim (two_digits 0 hours s) [
  | none ↦ false
  | some (h, s1) ↦ elim (skip b':' s1) [
    | none ↦ false
    | some s2 ↦ elim (two_digits 0 59 s2) [ none ↦ false | some (m, s3) ↦ text_eq s3 [] ]
  ]
]

-- `(Z|\+14:00|-12:00|\+(0\d|1[0-3]):[0-5]\d|-(0\d|1[0-1]):[0-5]\d)?` and no more.
zone : Text → Bool
unfolding hour_minute
zone [] = true
zone (c ∷ s) =
    c == b'Z' && text_eq s []
    || c == b'+' && (text_eq s (lit "14:00") || hour_minute 13 s)
    || c == b'-' && (text_eq s (lit "12:00") || hour_minute 11 s)

-- Up to `n` digits more of a fraction, then a zone.
fraction : ℕ → Text → Bool
unfolding zone
fraction zero s = zone s
fraction (suc n) [] = zone []
fraction (suc n) (c ∷ s) = let rest = fraction n s in if digit c then rest else zone (c ∷ s)

-- `(\.\d{1,6})?` and a zone.
after_seconds : Text → Bool
unfolding zone fraction
after_seconds [] = true
after_seconds (c ∷ []) = zone (c ∷ [])
after_seconds (c ∷ d ∷ s) = if c == b'.' then digit d && fraction 5 s else zone (c ∷ d ∷ s)

-- `hh:mm:ss`, a fraction and a zone.
time_of_day : Text → Bool
unfolding two_digits skip after_seconds
time_of_day s = elim (two_digits 0 23 s) [
  | none ↦ false
  | some (h, s1) ↦ elim (skip b':' s1) [
    | none ↦ false
    | some s2 ↦ elim (two_digits 0 59 s2) [
      | none ↦ false
      | some (m, s3) ↦ elim (skip b':' s3) [
        | none ↦ false
        | some s4 ↦ elim (two_digits 0 59 s4) [ none ↦ false | some (sec, s5) ↦ after_seconds s5 ]
      ]
    ]
  ]
]

-- What may follow the day: nothing, `Z`, or `T` and a time.
after_day : Text → Bool
unfolding time_of_day
after_day [] = true
after_day (c ∷ s) = c == b'Z' && text_eq s [] || c == b'T' && time_of_day s

-- ISO_DATE_REGEX, as the year, month and day of a text that it matches.
unfoldable pub iso_date : Text → Option (ℕ × ℕ × ℕ)
unfolding after_day
iso_date s =
    and_then (leading_date 1 12 1 31 s)
      (λ (year, month, day, rest). if after_day rest then some (year, month, day) else none)

-- `DAYS_IN_MONTH[month]`.
unfoldable pub days_in_month : ℕ → ℕ
days_in_month m =
    if m == 0
    then 0
    else if m == 2
    then 29
    else if m == 4 || m == 6 || m == 9 || m == 11
    then 30
    else 31

unfoldable pub is_leap : ℕ → Bool
is_leap y = y % 4 == 0 && not (y % 100 == 0) || y % 400 == 0

unfoldable pub is_real_calendar_date : ℕ → ℕ → ℕ → Bool
is_real_calendar_date year month day =
    if ltb month 1 || ltb 12 month
    then false
    else if ltb day 1 || ltb (days_in_month month) day
    then false
    else if month == 2 && day == 29
    then is_leap year
    else true

-- /T[0-9:]/ somewhere in the text.
has_time : Text → Bool
has_time (c ∷ d ∷ s) = c == b'T' && (digit d || d == b':') || has_time (d ∷ s)
has_time _ = false

-- /(Z|[+-]\d{2}:\d{2})$/.
ends_in_zone : Text → Bool
ends_in_zone [] = false
ends_in_zone (c ∷ s) = here c s || ends_in_zone s
  where
    here : ℕ → Text → Bool
    here c [] = c == b'Z'
    here c (h ∷ h' ∷ colon ∷ m ∷ m' ∷ []) =
        (c == b'+' || c == b'-') && digit h && digit h' && colon == b':' && digit m && digit m'
    here c _ = false

unfoldable pub normalize_iso_date_time_to_utc : Text → Text
unfolding has_time ends_in_zone
normalize_iso_date_time_to_utc s = if has_time s && not (ends_in_zone s) then s ++ lit "Z" else s

-- The calendar test of `isValidISODate`.
in_calendar : ℕ → ℕ → ℕ → Bool
in_calendar year month day =
    if ltb year 1700 || ltb 2200 year || ltb (days_in_month month) day
    then false
    else if month == 2 && day == 29
    then is_leap year
    else true

-- Both the format and the instant must be there.
valid_in_calendar : Option (ℕ × ℕ × ℕ) → Option ℕ → Bool
unfolding in_calendar
valid_in_calendar none instant = false
valid_in_calendar (some date) none = false
valid_in_calendar (some (year, month, day)) (some instant) = in_calendar year month day

module _ (lib : Support) (env : Platform) where
  unfoldable pub is_valid_iso_date : Text → Bool
  unfolding valid_in_calendar
  is_valid_iso_date s =
      valid_in_calendar (iso_date s) (env.date_parse (normalize_iso_date_time_to_utc s))

  invalid_date : Text → Attempt ℕ
  invalid_date s = fails (
      invalid_type_value (lit "Invalid ISO date string.") [] (
        context (
          (lit "received", string (take max_date_string_length (lib.sanitize_for_log_output s)))
          ∷ [])))

  instant_of : Text → Option ℕ → Attempt ℕ
  unfolding invalid_date
  instant_of s none = invalid_date s
  instant_of s (some instant) = returns instant

  parse_leading : Text → Option (ℕ × ℕ × ℕ × Text) → Attempt ℕ
  unfolding invalid_date instant_of
  parse_leading s none = instant_of s (env.date_parse (normalize_iso_date_time_to_utc s))
  parse_leading s (some (year, month, day, rest)) =
      if is_real_calendar_date year month day
      then instant_of s (env.date_parse (normalize_iso_date_time_to_utc s))
      else invalid_date s

  -- Any two digits stand for the month and the day of a leading date.
  unfoldable pub parse_iso_date_time_as_utc : Text → Attempt ℕ
  unfolding parse_leading
  parse_iso_date_time_as_utc s = parse_leading s (leading_date 0 99 0 99 s)
