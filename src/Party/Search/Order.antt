-- ===== src/Party/Search/Order.antt =====
-- The order of a search: the rows that match, once each, the latest first and then by their id.
use besterp.Prelude.{◌≡◌, inl, inr, true, false, List, [], ◌∷◌, arith, Bool-cases, All}
use mathlib.Core.List.{Perm}
use mathlib.Core.List.Perm
use besterp.Directory.{PartyRow}
use besterp.Platform.{Platform}
use besterp.Party.Search.{before, insert_ordered, order}
use besterp.Text.{Text}

module _ (env : Platform) where
  -- The order of texts by which the database sorts ids.
  pub record IsCollation : Type 0 where
    pub asymmetric : (a b : Text) → env.id_before a b ≡ true → env.id_before b a ≡ false
    pub transitive :
        (a b c : Text)
        → env.id_before b a ≡ false
        → env.id_before c b ≡ false
        → env.id_before c a ≡ false

  -- No row comes before an earlier one.
  abbrev pub IsOrdered : List PartyRow → Type 0
  IsOrdered [] = Unit
  IsOrdered (p ∷ ps) = All (λ q. before env q p ≡ false) ps × IsOrdered ps

  before_asymmetric :
      IsCollation → (p q : PartyRow) → before env q p ≡ true → before env p q ≡ false
  unfolding before
  before_asymmetric h p q b = ground (arith, h.asymmetric q.party_id p.party_id)

  before_transitive :
      IsCollation
      → (p q r : PartyRow) → before env q p ≡ false
      → before env r q ≡ false
      → before env r p ≡ false
  unfolding before
  before_transitive h p q r b c = ground (arith, h.transitive p.party_id q.party_id r.party_id)

  All_before :
      IsCollation
      → (p q : PartyRow) (rs : List PartyRow) → before env q p ≡ false
      → All (λ r. before env r q ≡ false) rs
      → All (λ r. before env r p ≡ false) rs
  All_before h p q [] b a = tt
  All_before h p q (r ∷ rs) b (c, a) = (before_transitive h p q r b c, All_before h p q rs b a)

  All-insert_ordered :
      (P : PartyRow → Type 0) (p : PartyRow) (qs : List PartyRow)
      → P p
      → All P qs
      → All P (insert_ordered env p qs)
  unfolding insert_ordered
  All-insert_ordered P p [] h a = (h, tt)
  All-insert_ordered P p (q ∷ qs) h (k, a) = elim (Bool-cases (before env q p)) [
    | inl e ↦ rw e (k, All-insert_ordered P p qs h a)
    | inr e ↦ rw e (h, (k, a))
  ]

  insert_ordered-IsOrdered :
      IsCollation
      → (p : PartyRow) (qs : List PartyRow) → IsOrdered qs
      → IsOrdered (insert_ordered env p qs)
  unfolding insert_ordered
  insert_ordered-IsOrdered h p [] o = (tt, tt)
  insert_ordered-IsOrdered h p (q ∷ qs) (a, o) = elim (Bool-cases (before env q p)) [
    | inl e ↦ rw e (
      All-insert_ordered (λ r. before env r q ≡ false) p qs (before_asymmetric h p q e) a,
      insert_ordered-IsOrdered h p qs o,
    )
    | inr e ↦ rw e ((e, All_before h p q qs e a), (a, o))
  ]

  pub order-IsOrdered : IsCollation → (ps : List PartyRow) → IsOrdered (order env ps)
  unfolding order
  order-IsOrdered h [] = tt
  order-IsOrdered h (p ∷ ps) = insert_ordered-IsOrdered h p (order env ps) (order-IsOrdered h ps)

  insert_ordered-perm :
      (p : PartyRow) (qs : List PartyRow) → Perm (insert_ordered env p qs) (p ∷ qs)
  unfolding insert_ordered
  insert_ordered-perm p [] = Perm.refl _
  insert_ordered-perm p (q ∷ qs) = elim (Bool-cases (before env q p)) [
    | inl e ↦ rw e (Perm.trans (Perm.cons q (insert_ordered-perm p qs)) (Perm.swap p q qs))
    | inr e ↦ rw e (Perm.refl _)
  ]

  pub order-perm : (ps : List PartyRow) → Perm (order env ps) ps
  unfolding order
  order-perm [] = Perm.refl _
  order-perm (p ∷ ps) =
      Perm.trans (insert_ordered-perm p (order env ps)) (Perm.cons p (order-perm ps))
