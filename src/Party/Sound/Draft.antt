-- ===== src/Party/Sound/Draft.antt =====
-- What the validations of a new party establish of its draft.
use besterp.Prelude.{
  ℕ, ◌≤◌, ◌≡◌, refl, sym, ap, subst, ◌∙◌, true, false, Option, none, some, ◌==◌, arith, length,
  Bool-cases, inl, inr, is_some,
}
use besterp.Text.{Text, lit, text_eq, includes, trim}
use besterp.Text.Laws.{text_eq→≡, text_eq_refl}
use besterp.Value.{Value, undefined, null, boolean, number, string, array, object}
use besterp.Support.{Support, Attempt, returns, bind_cases, returns-eq_returns}
use besterp.Platform.{Platform}
use besterp.Limits.{max_party_name_length}
use besterp.Party.Fields.{require_max_length}
use besterp.Party.Subtypes.{
  PersonInput, OrganizationInput, person_type, organization_type, validate_create_party_subtype,
  require_stripped_max_length, check_name, name_field, description_field,
  validate_create_party_fields, validate_person_data, validate_organization_data, sanitize_person,
  sanitize_organization,
}
use besterp.Party.Draft.{
  CreatePartyInput, PartyDraft, validate_input, sanitize_create_party_input, check_visible,
  prepare_party, check_visible_name, sanitize_optional, strip_description, party_type_field,
}
use besterp.Party.Create.{party_types_with_subtype}
use besterp.Party.Sound.{just_one}

pub record IsDraft (d : PartyDraft) : Type 0 where
  pub one_subtype : just_one d.person d.organization ≡ true
  pub named : (length d.name == 0) ≡ false
  pub bounded : length d.name ≤ max_party_name_length

text_eq_swap : (s t : Text) → text_eq s t ≡ true → text_eq t s ≡ true
text_eq_swap s t h = rw (text_eq→≡ s t h) (text_eq_refl t)

person_eq : (t : Text) → text_eq person_type t ≡ true → text_eq t person_type ≡ true
person_eq t = text_eq_swap person_type t

organization_eq :
    (t : Text) → text_eq organization_type t ≡ true → text_eq t organization_type ≡ true
organization_eq t = text_eq_swap organization_type t

-- Of the two types, one datum is given.
subtype_one :
    (type : Text) (p : Option PersonInput) (o : Option OrganizationInput)
    → validate_create_party_subtype type p o ≡ returns tt
    → includes type party_types_with_subtype ≡ true
    → just_one p o ≡ true
unfolding validate_create_party_subtype includes
subtype_one type none none h k = ground (arith, person_eq type, organization_eq type)
subtype_one type none (some o) h k = refl
subtype_one type (some p) none h k = refl
subtype_one type (some p) (some o) h k = ground (arith, person_eq type, organization_eq type)

module _ (lib : Support) where
  capped-bounded :
      (s label : Text) (bound : ℕ)
      → require_stripped_max_length lib s label bound ≡ returns tt
      → (t : Text) × (lib.strip_html_tags s ≡ returns t) × (length t ≤ bound)
  unfolding require_stripped_max_length require_max_length
  capped-bounded s label bound h =
      bind_cases (lib.strip_html_tags s) _ _ h (λ t e k. (t, e, ground arith))

  check_name-bounded :
      (original s t : Text)
      → check_name lib original s ≡ returns t
      → (u : Text) × (lib.strip_html_tags t ≡ returns u) × (length u ≤ max_party_name_length)
  unfolding check_name
  check_name-bounded original s t h = elim (Bool-cases (length s == 0)) [
    | inl empty ↦ bind_cases (lib.strip_html_tags original) _ _ (rw empty at h) (λ u e k. absurd cc)
    | inr nonempty ↦
        bind_cases (require_stripped_max_length lib s (lit "Party name") max_party_name_length) _ _
          (rw nonempty at h)
          (λ u e k.
            subst
              (λ x.
                (u : Text) × (lib.strip_html_tags x ≡ returns u)
                × (length u ≤ max_party_name_length))
              (returns-eq_returns k) (capped-bounded s (lit "Party name") max_party_name_length e))
  ]

  name-bounded :
      (v : Value) (t : Text)
      → name_field lib v ≡ returns t
      → (s : Text) × (lib.strip_html_tags t ≡ returns s) × (length s ≤ max_party_name_length)
  unfolding name_field
  name-bounded (string s) t h = check_name-bounded s (trim s) t h
  name-bounded undefined t h = cc
  name-bounded null t h = cc
  name-bounded (boolean b) t h = cc
  name-bounded (number n) t h = cc
  name-bounded (array vs) t h = cc
  name-bounded (object fs) t h = cc

sanitize_optional-is_some :
    {A B : Type 0} (f : A → Attempt B) (a : Option A) (b : Option B)
    → sanitize_optional f a ≡ returns b
    → is_some b ≡ is_some a
unfolding sanitize_optional
sanitize_optional-is_some f none b h = ap is_some (sym (returns-eq_returns h))
sanitize_optional-is_some f (some a) b h =
    bind_cases (f a) _ _ h (λ x e k. ap is_some (sym (returns-eq_returns k)))

visible_nonempty : (name : Text) → check_visible_name name ≡ returns tt → (length name == 0) ≡ false
unfolding check_visible_name
visible_nonempty name h = ground arith

IsDraft-facts :
    (i : CreatePartyInput) (d : PartyDraft) (stripped : Attempt Text)
    → just_one i.person i.organization ≡ true
    → ((u : Text) × (stripped ≡ returns u) × (length u ≤ max_party_name_length))
    → stripped ≡ returns d.name
    → is_some d.person ≡ is_some i.person
    → is_some d.organization ≡ is_some i.organization
    → (length d.name == 0) ≡ false
    → IsDraft d
IsDraft-facts i d stripped one (u, e, bound) clean p o named = record {
  one_subtype = rw (p, o) one;
  named = named;
  bounded =
      subst (λ x. length x ≤ max_party_name_length) (returns-eq_returns (sym e ∙ clean)) bound;
}

module _ (lib : Support) (env : Platform) where
  -- What a validated input has: a name within the cap once it is stripped, and one subtype.
  validate_input-IsValid :
      (i : CreatePartyInput) (type name : Text) (description : Option Text)
      → validate_input lib env i ≡ returns (type, name, description)
      → includes (env.to_upper_case type) party_types_with_subtype ≡ true
      → (just_one i.person i.organization ≡ true)
        × ((u : Text) × (lib.strip_html_tags name ≡ returns u) × (length u ≤ max_party_name_length))
  unfolding validate_input validate_create_party_fields
  validate_input-IsValid i type name description h one =
      bind_cases (party_type_field i.party_type) _ _ h (λ type' e1 h1.
        bind_cases (validate_create_party_fields lib i.name i.description) _ _ h1
          (λ (name', description') e2 h2. bind_cases (name_field lib i.name) _ _ e2 (λ name'' e3 h3.
            bind_cases (description_field lib i.description) _ _ h3 (λ description'' e4 h4.
              bind_cases
                (validate_create_party_subtype (env.to_upper_case type') i.person i.organization) _
                _ h2
                (λ u5 e5 h5. bind_cases (validate_person_data lib env i.person) _ _ h5 (λ u6 e6 h6.
                  bind_cases (validate_organization_data lib env i.organization) _ _ h6 (λ u7 e7 h7.
                    let same = returns-eq_returns h7 in
                    let names = ap (λ x. x.0) (returns-eq_returns h4) ∙ ap (λ x. x.1) same in
                    (
                      subtype_one (env.to_upper_case type) i.person i.organization
                          (subst
                            (λ x.
                              validate_create_party_subtype (env.to_upper_case x) i.person
                                i.organization
                              ≡ returns tt)
                            (ap (λ x. x.0) same) e5)
                          one,
                      subst
                          (λ x.
                            (u : Text) × (lib.strip_html_tags x ≡ returns u)
                            × (length u ≤ max_party_name_length))
                          names (name-bounded lib i.name name'' e3),
                    ))))))))

  sanitized_draft :
      (i : CreatePartyInput) (tenant name : Text) (description : Option Text) (d : PartyDraft)
      → sanitize_create_party_input lib env i tenant name description ≡ returns d
      → (lib.strip_html_tags name ≡ returns d.name)
        × (is_some d.person ≡ is_some i.person)
        × (is_some d.organization ≡ is_some i.organization)
  unfolding sanitize_create_party_input
  sanitized_draft i tenant name description d h =
      bind_cases (sanitize_optional (sanitize_person lib env) i.person) _ _ h (λ p e1 h1.
        bind_cases (sanitize_optional (sanitize_organization lib env) i.organization) _ _ h1
          (λ o e2 h2. bind_cases (lib.strip_html_tags name) _ _ h2 (λ n e3 h3.
            bind_cases (strip_description lib env description) _ _ h3 (λ t e4 h4.
              let same = returns-eq_returns h4 in
              (
                e3 ∙ ap (λ x. returns x.name) same,
                ap (λ x. is_some x.person) (sym same)
                    ∙ sanitize_optional-is_some (sanitize_person lib env) i.person p e1,
                ap (λ x. is_some x.organization) (sym same)
                    ∙ sanitize_optional-is_some (sanitize_organization lib env) i.organization o e2,
              )))))

  -- A draft of one of the types with a subtype has the data of one subtype, and a name of 1 to 500
  -- code units.
  pub prepare_party-IsDraft :
      (i : CreatePartyInput) (tenant type : Text) (d : PartyDraft)
      → prepare_party lib env i tenant ≡ returns (type, d)
      → includes (env.to_upper_case type) party_types_with_subtype ≡ true
      → IsDraft d
  unfolding prepare_party check_visible check_visible_name
  prepare_party-IsDraft i tenant type d h one =
      bind_cases (validate_input lib env i) _ _ h (λ (type', name, description) e1 h1.
        bind_cases (sanitize_create_party_input lib env i tenant name description) _ _ h1
          (λ d' e2 h2. bind_cases (check_visible lib env d') _ _ h2 (λ u3 e3 h3.
            bind_cases (check_visible_name d'.name) _ _ e3 (λ u4 e4 h4.
              let pair = returns-eq_returns h3 in
              let type_eq = ap (λ x. x.0) pair in
              let valid = validate_input-IsValid i type' name description e1 (
                subst (λ x. includes (env.to_upper_case x) party_types_with_subtype ≡ true)
                  (sym type_eq) one) in
              let clean = sanitized_draft i tenant name description d' e2 in
              subst IsDraft (ap (λ x. x.1) pair) (
                IsDraft-facts i d' (lib.strip_html_tags name) valid.0 valid.1 clean.0 clean.1
                  clean.2 (visible_nonempty d'.name e4))))))
