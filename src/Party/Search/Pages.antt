-- ===== src/Party/Search/Pages.antt =====
-- A page of the rows that match, what follows it, and when there is more.
use besterp.Prelude.{
  ℕ, suc, ◌+◌, ◌≤◌, ◌<◌, ◌≡◌, refl, sym, ap, ◌∙◌, true, false, List, [], ◌∷◌, ◌++◌, arith, length,
  take, drop, map, drop-drop, take-append-drop, take_all, length-drop-le,
}
use besterp.Directory.{PartyRow, Directory}
use besterp.Platform.{Platform}
use besterp.Limits.{max_search_offset}
use besterp.PrismaErrors.{compute_has_more}
use besterp.Party.Results.{PartyResult, include_party, to_party_result}
use besterp.Party.Search.Filters.{PartyWhere, whole, clamp}
use besterp.Party.Search.{insert_ordered, order, matching, find_page}

pub has_more_no :
    (offset limit total : ℕ)
    → total ≤ max_search_offset
    → compute_has_more offset limit total ≡ false
    → 0 < limit
    → total ≤ offset + limit
unfolding compute_has_more
has_more_no offset limit total h k l = ground arith

pub has_more_yes :
    (offset limit total : ℕ)
    → compute_has_more offset limit total ≡ true
    → (offset + limit < total) × (offset + limit ≤ max_search_offset)
unfolding compute_has_more
has_more_yes offset limit total k = ground arith

pub clamp_whole : (n lo hi : ℕ) → lo ≤ n → n ≤ hi → clamp (whole n) lo hi ≡ n
unfolding clamp
clamp_whole n lo hi h k = ground arith

module _ (env : Platform) where
  length-insert_ordered :
      (p : PartyRow) (ps : List PartyRow) → length (insert_ordered env p ps) ≡ suc (length ps)
  unfolding insert_ordered
  length-insert_ordered p [] = refl
  length-insert_ordered p (q ∷ qs) = ground (arith, length-insert_ordered p qs)

  pub length-order : (ps : List PartyRow) → length (order env ps) ≡ length ps
  unfolding order
  length-order [] = refl
  length-order (p ∷ ps) = length-insert_ordered p (order env ps) ∙ ap suc (length-order ps)

  -- The results of all rows that match, in their order.
  abbrev pub all_results : PartyWhere → Directory → List PartyResult
  all_results c t =
      map (to_party_result env) (map (include_party t.roles) (order env (matching env c t)))

  -- The results from an offset on.
  unfoldable pub results_from : PartyWhere → Directory → ℕ → List PartyResult
  results_from c t offset =
      map (to_party_result env)
        (map (include_party t.roles) (drop offset (order env (matching env c t))))

  unfoldable pub page_items : PartyWhere → Directory → ℕ → ℕ → List PartyResult
  page_items c t offset limit = map (to_party_result env) (find_page env c offset limit t)

  map-append : {A B : Type 0} (f : A → B) (xs ys : List A) → map f (xs ++ ys) ≡ map f xs ++ map f ys
  map-append f [] ys = refl
  map-append f (x ∷ xs) ys = ap (◌∷◌ (f x)) (map-append f xs ys)

  -- A page and what follows it are all from its offset on.
  pub page-append :
      (c : PartyWhere) (t : Directory) (offset limit : ℕ)
      → page_items c t offset limit ++ results_from c t (offset + limit) ≡ results_from c t offset
  unfolding page_items results_from find_page
  page-append c t offset limit =
      sym (map-append (to_party_result env) (map (include_party t.roles) front) _)
      ∙ ap (map (to_party_result env)) (
          sym (map-append (include_party t.roles) front (drop (offset + limit) rows))
          ∙ ap (map (include_party t.roles)) (
              ap (λ back. front ++ back) (sym (drop-drop offset limit (offset + limit) rows refl))
              ∙ take-append-drop limit (drop offset rows)))
    where
      rows : List PartyRow
      rows = order env (matching env c t)

      front : List PartyRow
      front = take limit (drop offset rows)

  -- The last page is all from its offset on.
  pub page_last :
      (c : PartyWhere) (t : Directory) (offset limit : ℕ)
      → length (matching env c t) ≤ offset + limit
      → page_items c t offset limit ≡ results_from c t offset
  unfolding page_items results_from find_page
  page_last c t offset limit h =
      ap (λ rows. map (to_party_result env) (map (include_party t.roles) rows))
        (take_all limit (drop offset (order env (matching env c t))) (
          length-drop-le offset limit (order env (matching env c t))
            (omega (arith, h, length-order (matching env c t)))))
