-- ===== src/Directory/Laws.antt =====
-- Lookups in the tables of parties.
use besterp.Prelude.{
  ◌≡◌, refl, sym, ap, subst, ◌∙◌, true, false, List, [], ◌∷◌, none, some, arith, if◌then◌else◌, All,
  Bool-cases, inl, inr,
}
use besterp.Text.{Text, text_eq}
use besterp.Text.Laws.{text_eq→≡, text_eq_refl}
use besterp.Directory.{
  TypeRow, PartyRow, RoleRow, find_party, has_party, find_type, find_active, holds, is_active,
}

-- With no active role found, none holds.
pub find_active-none :
    (party type : Text) (rs : List RoleRow)
    → find_active party type rs ≡ none
    → All (λ r. holds party type r ≡ false) rs
unfolding find_active
find_active-none party type [] h = tt
find_active-none party type (r ∷ rs) h = ground (arith, find_active-none party type rs)

pub find_type-type_id :
    (id : Text) (ts : List TypeRow) (t : TypeRow) → find_type id ts ≡ some t → t.type_id ≡ id
unfolding find_type
find_type-type_id id [] t h = cc
find_type-type_id id (x ∷ ts) t h = elim (Bool-cases (text_eq x.type_id id)) [
  | inl e ↦
      ap (λ o. elim o [ none ↦ id | some y ↦ y.type_id ]) (sym (rw e at h))
      ∙ text_eq→≡ x.type_id id e
  | inr e ↦ find_type-type_id id ts t (rw e at h)
]

held :
    (r : RoleRow) (party type : Text)
    → r.party_id ≡ party
    → r.role_type.type_id ≡ type
    → is_active r ≡ true
    → holds party type r ≡ true
unfolding holds
held r party type p t h = ground (
  arith,
  subst (λ x. text_eq r.party_id x ≡ true) p (text_eq_refl r.party_id),
  subst (λ x. text_eq r.role_type.type_id x ≡ true) t (text_eq_refl r.role_type.type_id),
)

-- An active role is found at the head.
pub find_active-cons :
    (r : RoleRow) (party type : Text) (rs : List RoleRow)
    → r.party_id ≡ party
    → r.role_type.type_id ≡ type
    → is_active r ≡ true
    → find_active party type (r ∷ rs) ≡ some r
unfolding find_active
find_active-cons r party type rs p t h =
    ap (λ b. if b then some r else find_active party type rs) (held r party type p t h)

pub find_party-has_party :
    (id tenant : Text) (ps : List PartyRow) (p : PartyRow)
    → find_party id tenant ps ≡ some p
    → has_party id ps ≡ true
unfolding find_party has_party
find_party-has_party id tenant [] p h = cc
find_party-has_party id tenant (x ∷ ps) p h = elim (Bool-cases (text_eq x.party_id id)) [
  | inl e ↦ rw e refl
  | inr e ↦ rw e (find_party-has_party id tenant ps p (rw e at h))
]
