-- ===== src/Tenant/Laws.antt =====
-- What a validated tenant id looks like.
use besterp.Prelude.{
  ℕ, suc, ◌≤◌, ◌<◌, ◌≡◌, refl, subst, sym, ◌↔◌, inl, inr, true, false, [], ◌∷◌, arith, ◌==◌,
  Bool-cases, length, all,
}
use besterp.Text.{Text, trim}
use besterp.Value.{Value, undefined, null, boolean, number, string, array, object}
use besterp.Limits.{max_tenant_id_length}
use besterp.Support.{Support, returns}
use besterp.Tenant.{is_tenant_char, tenant_id_pattern, check_trimmed, validate_tenant_id}

pub record IsTenantId (t : Text) : Type 0 where
  pub nonempty : 0 < length t
  pub bounded : length t ≤ max_tenant_id_length
  pub plain : all is_tenant_char t ≡ true

suc-nonzero : (n : ℕ) → (suc n == 0) ≡ false
suc-nonzero n = ground arith

module _ (lib : Support) where
  check_trimmed-IsTenantId : (s t : Text) → check_trimmed lib s ≡ returns t → (s ≡ t) × IsTenantId s
  unfolding check_trimmed tenant_id_pattern
  check_trimmed-IsTenantId s t e = ground arith

  IsTenantId-check_trimmed : (s : Text) → IsTenantId s → check_trimmed lib s ≡ returns s
  unfolding check_trimmed tenant_id_pattern
  IsTenantId-check_trimmed s h = ground arith

  pub validated-IsTenantId :
      (v : Value) (t : Text)
      → validate_tenant_id lib v ≡ returns t
      → (s : Text) × (v ≡ string s) × (trim s ≡ t) × IsTenantId t
  unfolding validate_tenant_id
  validated-IsTenantId (string s) t e = elim (Bool-cases (length s == 0)) [
    | inl empty ↦ cc (rw empty at e)
    | inr nonempty ↦
        let (same, h) = check_trimmed-IsTenantId (trim s) t (rw nonempty at e) in
        (s, refl, same, subst IsTenantId same h)
  ]
  validated-IsTenantId undefined t e = cc
  validated-IsTenantId null t e = cc
  validated-IsTenantId (boolean b) t e = cc
  validated-IsTenantId (number n) t e = cc
  validated-IsTenantId (array vs) t e = cc
  validated-IsTenantId (object fs) t e = cc

  IsTenantId-validated :
      (s t : Text) → trim s ≡ t → IsTenantId t → validate_tenant_id lib (string s) ≡ returns t
  unfolding validate_tenant_id trim
  IsTenantId-validated [] t e h = absurd (ground (arith, h.nonempty, rw (sym e) at h.nonempty))
  IsTenantId-validated (c ∷ s) t e h = rw (suc-nonzero (length s), e) (IsTenantId-check_trimmed t h)

  -- A tenant id is accepted, as the text t, exactly if it is a string whose trimmed form is t, and
  -- t has 1 to 100 characters, all of the tenant alphabet.
  pub validated_iff :
      (v : Value) (t : Text)
      → (validate_tenant_id lib v ≡ returns t)
        ↔ ((s : Text) × (v ≡ string s) × (trim s ≡ t) × IsTenantId t)
  validated_iff v t = (
    validated-IsTenantId v t,
    λ (s, e, p, h).
        subst (λ x. validate_tenant_id lib x ≡ returns t) (sym e) (IsTenantId-validated s t p h),
  )
