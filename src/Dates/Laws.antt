-- ===== src/Dates/Laws.antt =====
-- The two validators of dates agree.
use besterp.Prelude.{
  ℕ, ◌≤◌, ◌≡◌, refl, ap, ◌∙◌, true, [], ◌∷◌, Option, none, some, arith, some-eq_some,
  and_then_cases,
}
use besterp.Text.{Text}
use besterp.Support.{Support, returns}
use besterp.Platform.{Platform}
use besterp.Dates.{
  two_digits, four_digits, skip, leading_date, iso_date, in_calendar, is_real_calendar_date,
  is_valid_iso_date, normalize_iso_date_time_to_utc, valid_in_calendar, instant_of, parse_leading,
  parse_iso_date_time_as_utc,
}

-- A number within bounds is the same number within wider ones, and lies within them.
two_digits-widen :
    (lo hi lo' hi' n : ℕ) (s r : Text)
    → lo' ≤ lo
    → hi ≤ hi'
    → two_digits lo hi s ≡ some (n, r)
    → (two_digits lo' hi' s ≡ some (n, r)) × (lo ≤ n) × (n ≤ hi)
unfolding two_digits
two_digits-widen lo hi lo' hi' n [] r hl hh e = cc
two_digits-widen lo hi lo' hi' n (a ∷ []) r hl hh e = cc
two_digits-widen lo hi lo' hi' n (a ∷ b ∷ s) r hl hh e = ground arith

-- A leading date within the bounds of the format is one for the calendar too.
leading-widen :
    (s r : Text) (y m d : ℕ)
    → leading_date 1 12 1 31 s ≡ some (y, m, d, r)
    → (leading_date 0 99 0 99 s ≡ some (y, m, d, r)) × (1 ≤ m) × (m ≤ 12) × (1 ≤ d) × (d ≤ 31)
unfolding leading_date
leading-widen s r y m d h = and_then_cases (four_digits s) _ _ h (λ (year, s1) e1 h1.
    and_then_cases (skip b'-' s1) _ _ h1 (λ s2 e2 h2.
      and_then_cases (two_digits 1 12 s2) _ _ h2 (λ (month, s3) e3 h3.
        and_then_cases (skip b'-' s3) _ _ h3 (λ s4 e4 h4.
          and_then_cases (two_digits 1 31 s4) _ _ h4 (λ (day, s5) e5 h5.
            let w3 = two_digits-widen 1 12 0 99 month s2 s3 (omega arith) (omega arith) e3 in
            let w5 = two_digits-widen 1 31 0 99 day s4 s5 (omega arith) (omega arith) e5 in
            let same = some-eq_some h5 in
            let month_eq = ap (λ t. t.1) same in
            let day_eq = ap (λ t. t.2) same in
            (
              rw (e1, e2, w3.0, e4, w5.0) h5,
              omega (arith, month_eq, w3.1),
              omega (arith, month_eq, w3.2),
              omega (arith, day_eq, w5.1),
              omega (arith, day_eq, w5.2),
            ))))))

iso-leading :
    (s : Text) (y m d : ℕ)
    → iso_date s ≡ some (y, m, d)
    → (r : Text) × (leading_date 1 12 1 31 s ≡ some (y, m, d, r))
unfolding iso_date
iso-leading s y m d h =
    and_then_cases (leading_date 1 12 1 31 s) _ _ h
      (λ (year, month, day, rest) e k. (rest, ground (arith, e)))

calendar-real :
    (y m d : ℕ)
    → 1 ≤ m
    → m ≤ 12
    → 1 ≤ d
    → in_calendar y m d ≡ true
    → is_real_calendar_date y m d ≡ true
unfolding in_calendar is_real_calendar_date
calendar-real y m d m_lo m_hi d_lo h = ground arith

module _ (lib : Support) (env : Platform) where
  leading-parses :
      (s r : Text) (y m d t : ℕ)
      → env.date_parse (normalize_iso_date_time_to_utc s) ≡ some t
      → leading_date 1 12 1 31 s ≡ some (y, m, d, r)
      → in_calendar y m d ≡ true
      → parse_iso_date_time_as_utc lib env s ≡ returns t
  unfolding parse_iso_date_time_as_utc parse_leading instant_of
  leading-parses s r y m d t instant lead h =
      let (wide, m_lo, m_hi, d_lo, d_hi) = leading-widen s r y m d lead in
      let real = calendar-real y m d m_lo m_hi d_lo h in
      ap (parse_leading lib env s) wide ∙ real_parses real
    where
      real_parses :
          is_real_calendar_date y m d ≡ true
          → parse_leading lib env s (some (y, m, d, r)) ≡ returns t
      real_parses real = rw (real, instant) refl

  -- A date that isValidISODate accepts is parsed by parseISODateTimeAsUTC without an error, to the
  -- instant of its normalized form.
  pub valid-parses :
      (s : Text)
      → is_valid_iso_date lib env s ≡ true
      → (t : ℕ) × (env.date_parse (normalize_iso_date_time_to_utc s) ≡ some t)
        × (parse_iso_date_time_as_utc lib env s ≡ returns t)
  unfolding is_valid_iso_date valid_in_calendar
  valid-parses s h = go (iso_date s) refl (env.date_parse (normalize_iso_date_time_to_utc s)) refl h
    where
      go :
          (o : Option (ℕ × ℕ × ℕ))
          → iso_date s ≡ o
          → (i : Option ℕ) → env.date_parse (normalize_iso_date_time_to_utc s) ≡ i
          → valid_in_calendar o i ≡ true
          → (t : ℕ) × (env.date_parse (normalize_iso_date_time_to_utc s) ≡ some t)
            × (parse_iso_date_time_as_utc lib env s ≡ returns t)
      go none eo i ei h = cc
      go (some date) eo none ei h = cc
      go (some (y, m, d)) eo (some t) ei h =
          let (r, lead) = iso-leading s y m d eo in (t, ei, leading-parses s r y m d t ei lead h)
