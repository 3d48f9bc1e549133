-- ===== src/Party/Contacts/Laws.antt =====
-- The phone number that is looked for is the phone number that is stored.
use besterp.Prelude.{
  ◌≡◌, refl, sym, ap, subst, ◌∙◌, true, false, [], ◌∷◌, Option, none, some, ◌==◌, arith,
  if◌then◌else◌, length, Bool-cases, inl, inr,
}
use besterp.Text.{Text, lit, trim_start, trim}
use besterp.Value.{Value, undefined, null, boolean, number, string, array, object}
use besterp.Support.{Support, returns, ◌>>=◌, bind_cases, returns-eq_returns}
use besterp.Platform.{Platform}
use besterp.Limits.{max_area_code_length, max_line_number_length}
use besterp.Directory.{TelecomNumber}
use besterp.Party.Fields.{
  country_code_regex, is_truthy, require_max_length, require_sanitized_string_field,
}
use besterp.Party.Contacts.Input.{
  TelecomNumberInput, contact_tool, check_country_code, country_code_field,
  validate_telecom_subtype,
}
use besterp.Party.Contacts.Sanitized.{
  default_phone_country_code, required_text, optional_text, check_nonempty, check_visible, stripped,
  code_or_default, sanitize_telecom_number,
}
use besterp.Party.Contacts.Duplicates.{
  PhoneKey, key_of, strip_text, checked_country_code, checked_phone,
}

nonempty_same : (t name s : Text) → check_nonempty name t ≡ returns s → t ≡ s
unfolding check_nonempty
nonempty_same t name s h = ground arith

empty_text : (s : Text) → (length s == 0) ≡ true → s ≡ []
empty_text [] h = refl
empty_text (c ∷ s) h = absurd (ground arith)

trim_empty : trim [] ≡ []
unfolding trim trim_start
trim_empty = refl

module _ (lib : Support) (env : Platform) where
  -- A required field is stripped alike.
  text-agrees :
      (v : Value) (name s a b : Text)
      → strip_text lib env v ≡ returns a
      → required_text v name ≡ returns s
      → lib.strip_html_tags s ≡ returns b
      → a ≡ b
  unfolding strip_text required_text check_nonempty
  text-agrees (string t) name s a b h k l =
      returns-eq_returns (sym h ∙ (ap lib.strip_html_tags (nonempty_same (trim t) name s k) ∙ l))
  text-agrees undefined name s a b h k l = cc
  text-agrees null name s a b h k l = cc
  text-agrees (boolean x) name s a b h k l = cc
  text-agrees (number n) name s a b h k l = cc
  text-agrees (array vs) name s a b h k l = cc
  text-agrees (object fs) name s a b h k l = cc

  -- A country code that is validated is not empty.
  validated-nonempty :
      (s : Text) → check_country_code lib env s ≡ returns tt → (length s == 0) ≡ false
  unfolding check_country_code country_code_regex require_max_length
  validated-nonempty [] h = cc
  validated-nonempty (c ∷ s) h = ground arith

  default-agrees :
      (a b : Text) (o : Option Text)
      → lib.strip_html_tags default_phone_country_code ≡ returns default_phone_country_code
      → returns default_phone_country_code ≡ returns a
      → none ≡ o
      → code_or_default lib o ≡ returns b
      → a ≡ b
  unfolding code_or_default
  default-agrees a b o d h k l =
      returns-eq_returns (sym h ∙ (sym d ∙ (ap (code_or_default lib) k ∙ l)))

  -- Of a code that is given, by its trimmed form.
  given_code-agrees :
      (t a b : Text) (o : Option Text)
      → lib.strip_html_tags [] ≡ returns []
      → lib.strip_html_tags default_phone_country_code ≡ returns default_phone_country_code
      → (lib.strip_html_tags t >>= check_country_code lib env) ≡ returns tt
      → lib.strip_html_tags t ≡ returns a
      → (if length t == 0 then none else some t) ≡ o
      → code_or_default lib o ≡ returns b
      → a ≡ b
  unfolding code_or_default
  given_code-agrees t a b o e d valid h k l =
      bind_cases (lib.strip_html_tags t) _ _ valid (λ v ev hv.
        let full =
          subst (λ x. (length x == 0) ≡ false) (returns-eq_returns (sym ev ∙ h))
            (validated-nonempty v hv) in
        elim (Bool-cases (length t == 0)) [
          | inl empty ↦
              let nothing =
                returns-eq_returns
                  (sym e ∙ (ap lib.strip_html_tags (sym (empty_text t empty)) ∙ h)) in
              cc (subst (λ x. (length x == 0) ≡ false) (sym nothing) full)
          | inr there ↦
              bind_cases (lib.strip_html_tags t) _ _ (ap (code_or_default lib) (rw there at k) ∙ l)
                (λ x ex hx.
                  let same = returns-eq_returns (sym ex ∙ h) in
                  let nonempty = subst (λ y. (length y == 0) ≡ false) (sym same) full in
                  sym same ∙ returns-eq_returns (rw nonempty at hx))
        ])

  code-agrees :
      (v : Value) (name a b : Text) (o : Option Text)
      → lib.strip_html_tags [] ≡ returns []
      → lib.strip_html_tags default_phone_country_code ≡ returns default_phone_country_code
      → country_code_field lib env v ≡ returns tt
      → checked_country_code lib env v ≡ returns a
      → optional_text v name ≡ returns o
      → code_or_default lib o ≡ returns b
      → a ≡ b
  unfolding country_code_field checked_country_code optional_text code_or_default is_truthy
  code-agrees (string s) name a b o e d valid h k l = elim (Bool-cases (length s == 0)) [
    | inl empty ↦
        default-agrees a b o d (rw empty at h)
          (subst (λ x. (if length x == 0 then none else some x) ≡ o)
            (ap trim (empty_text s empty) ∙ trim_empty) (returns-eq_returns k))
          l
    | inr given ↦
        given_code-agrees (trim s) a b o e d (rw given at valid) (rw given at h)
          (returns-eq_returns k) l
  ]
  code-agrees undefined name a b o e d valid h k l =
      default-agrees a b o d h (returns-eq_returns k) l
  code-agrees null name a b o e d valid h k l = default-agrees a b o d h (returns-eq_returns k) l
  code-agrees (boolean true) name a b o e d valid h k l = cc
  code-agrees (boolean false) name a b o e d valid h k l = cc
  code-agrees (number n) name a b o e d valid h k l = cc
  code-agrees (array vs) name a b o e d valid h k l = cc
  code-agrees (object fs) name a b o e d valid h k l = cc

  country_valid :
      (i : TelecomNumberInput)
      → validate_telecom_subtype lib env (some i) ≡ returns tt
      → country_code_field lib env i.country_code ≡ returns tt
  unfolding validate_telecom_subtype
  country_valid i h =
      bind_cases
        (require_sanitized_string_field lib i.area_code (lit "areaCode") max_area_code_length
          contact_tool)
        _ _ h
        (λ x ex hx.
          bind_cases
            (require_sanitized_string_field lib i.line_number (lit "lineNumber")
              max_line_number_length contact_tool)
            _ _ hx
            (λ y ey hy. bind_cases (country_code_field lib env i.country_code) _ _ hy (λ z ez hz.
              let e : country_code_field lib env i.country_code ≡ returns tt = ez in e)))

  checked_parts :
      (i : TelecomNumberInput) (k : PhoneKey)
      → checked_phone lib env i ≡ returns k
      → (strip_text lib env i.area_code ≡ returns k.area_code)
        × (strip_text lib env i.line_number ≡ returns k.line_number)
        × (checked_country_code lib env i.country_code ≡ returns k.country_code)
  unfolding checked_phone
  checked_parts i k h = bind_cases (strip_text lib env i.area_code) _ _ h (λ x ex hx.
      bind_cases (strip_text lib env i.line_number) _ _ hx (λ y ey hy.
        bind_cases (checked_country_code lib env i.country_code) _ _ hy (λ z ez hz.
          let same = returns-eq_returns hz in
          (
            ex ∙ ap (λ c. returns c.area_code) same,
            ey ∙ ap (λ c. returns c.line_number) same,
            ez ∙ ap (λ c. returns c.country_code) same,
          ))))

  sanitized_parts :
      (i : TelecomNumberInput) (n : TelecomNumber)
      → sanitize_telecom_number lib i ≡ returns n
      → ((s : Text) × (required_text i.area_code (lit "areaCode") ≡ returns s)
          × (lib.strip_html_tags s ≡ returns n.area_code))
        × ((t : Text) × (required_text i.line_number (lit "lineNumber") ≡ returns t)
            × (lib.strip_html_tags t ≡ returns n.line_number))
        × ((o : Option Text) × (optional_text i.country_code (lit "countryCode") ≡ returns o)
            × (code_or_default lib o ≡ returns n.country_code))
  unfolding sanitize_telecom_number
  sanitized_parts i n h = bind_cases (required_text i.area_code (lit "areaCode")) _ _ h (λ s es h1.
      bind_cases (required_text i.line_number (lit "lineNumber")) _ _ h1 (λ t et h2.
        bind_cases (optional_text i.country_code (lit "countryCode")) _ _ h2 (λ o eo h3.
          bind_cases (optional_text i.extension (lit "extension")) _ _ h3 (λ x ex h4.
            bind_cases (lib.strip_html_tags s) _ _ h4 (λ area ea h5.
              bind_cases (lib.strip_html_tags t) _ _ h5 (λ line el h6.
                bind_cases (check_visible (lit "areaCode") area) _ _ h6 (λ u1 e1 h7.
                  bind_cases (check_visible (lit "lineNumber") line) _ _ h7 (λ u2 e2 h8.
                    bind_cases (code_or_default lib o) _ _ h8 (λ code ec h9.
                      bind_cases (stripped lib x) _ _ h9 (λ extra ee h10.
                        let same = returns-eq_returns h10 in
                        (
                          (s, es, ea ∙ ap (λ c. returns c.area_code) same),
                          (t, et, el ∙ ap (λ c. returns c.line_number) same),
                          (o, eo, ec ∙ ap (λ c. returns c.country_code) same),
                        )))))))))))

  key_path :
      (n : TelecomNumber) (k : PhoneKey)
      → k.country_code ≡ n.country_code
      → k.area_code ≡ n.area_code
      → k.line_number ≡ n.line_number
      → key_of n ≡ k
  key_path n k c a l = cc

  -- For a phone number that was validated, where the removal of tags leaves the empty text and the
  -- default country code alone, the number that the duplicate check looks for is the one that is
  -- stored.
  pub checked-stored :
      (i : TelecomNumberInput) (k : PhoneKey) (n : TelecomNumber)
      → lib.strip_html_tags [] ≡ returns []
      → lib.strip_html_tags default_phone_country_code ≡ returns default_phone_country_code
      → validate_telecom_subtype lib env (some i) ≡ returns tt
      → checked_phone lib env i ≡ returns k
      → sanitize_telecom_number lib i ≡ returns n
      → key_of n ≡ k
  checked-stored i k n e d valid h g =
      let (area, line, code) = checked_parts i k h in
      let ((s, es, area'), (t, et, line'), (o, eo, code')) = sanitized_parts i n g in
      key_path n k
        (code-agrees i.country_code (lit "countryCode") k.country_code n.country_code o e d
          (country_valid i valid) code eo code')
        (text-agrees i.area_code (lit "areaCode") s k.area_code n.area_code area es area')
        (text-agrees i.line_number (lit "lineNumber") t k.line_number n.line_number line et line')
