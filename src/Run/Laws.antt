-- ===== src/Run/Laws.antt =====
-- Postconditions of runs, and operations in a quiet environment.
use besterp.Prelude.{ℕ, ◌≡◌, refl, ap, Option, none, some}
use besterp.Store.{Store}
use besterp.Run.{
  World, Thrown, Run, done, throws, M, ◌>>=◌, try_catch, query, Commit, commit, reject, commit_in,
  conclude, arrive, fault,
}

-- The run returns, and its result and last state satisfy `P`.
abbrev pub Returns : {A : Type 0} → (A → World → Type 0) → Run A → Type 0
Returns P (done a w) = P a w
Returns P (throws e w) = ⊥

-- The run ends in a state where `P` holds of what it returned, or `Q` of what it threw.
abbrev pub Ends : {A : Type 0} → (A → World → Type 0) → (Thrown → World → Type 0) → Run A → Type 0
Ends P Q (done a w) = P a w
Ends P Q (throws e w) = Q e w

module _ {A : Type 0} (P : A → World → Type 0) where
  conclude-Ends :
      (w : World) (c : Commit A)
      → ((a : A) (s : Store) → c ≡ commit a s → P a (record w { store = s }))
      → Ends P (λ e w'. w' ≡ w) (conclude w c)
  conclude-Ends w (commit a s) h = h a s refl
  conclude-Ends w (reject e) h = refl

  -- A query ends with what it commits, or with an error and nothing committed.
  pub query-Ends :
      (op : ℕ → Store → Commit A) (w : World)
      → ((a : A) (s : Store)
          → op (arrive w).now (arrive w).store ≡ commit a s
          → P a (record (arrive w) { store = s }))
      → Ends P (λ e w'. w' ≡ arrive w) (query op w)
  unfolding query
  query-Ends op w h = go (fault w)
    where
      go : (o : Option Thrown) → Ends P (λ e w'. w' ≡ arrive w) (commit_in (arrive w) o op)
      go (some x) = refl
      go none = conclude-Ends (arrive w) (op (arrive w).now (arrive w).store) h

  pub query_commit-Ends :
      (f : ℕ → Store → A) (g : ℕ → Store → Store) (w : World)
      → P
          (f (arrive w).now (arrive w).store)
          (record (arrive w) { store = g (arrive w).now (arrive w).store })
      → Ends P (λ e w'. w' ≡ arrive w) (query (λ now s. commit (f now s) (g now s)) w)
  unfolding query
  query_commit-Ends f g w h = go (fault w)
    where
      go :
          (o : Option Thrown)
          → Ends P
              (λ e w'. w' ≡ arrive w)
              (commit_in (arrive w) o (λ now s. commit (f now s) (g now s)))
      go (some x) = refl
      go none = h

  pub catch-Returns :
      (r : Run A) (handle : Thrown → M A) {Q : Thrown → World → Type 0}
      → Ends P Q r
      → ((e : Thrown) (w : World) → Q e w → Returns P (handle e w))
      → Returns P (elim r [ done a w ↦ done a w | throws e w ↦ handle e w ])
  catch-Returns (done a w) handle h k = h
  catch-Returns (throws e w) handle h k = k e w h

  -- A run that returns has returned something.
  pub Returns→done : (r : Run A) → Returns P r → (a : A) × (w : World) × (r ≡ done a w) × P a w
  Returns→done (done a w) h = (a, w, refl, h)
  Returns→done (throws e w) h = absurd h

pub try_catch-done :
    {A : Type 0} (m : M A) (handle : Thrown → M A) (w : World) {a : A} {w' : World}
    → m w ≡ done a w'
    → try_catch m handle w ≡ done a w'
try_catch-done {A} m handle w e =
    ap {B = Run A} (elim [ done a w' ↦ done a w' | throws x w' ↦ handle x w' ]) e

pub bind-done :
    {A B : Type 0} (m : M A) (f : A → M B) (w : World) {a : A} {w' : World}
    → m w ≡ done a w'
    → (m >>= f) w ≡ f a w'
bind-done {A} {B} m f w e =
    ap {B = Run B} (elim [ done a w' ↦ f a w' | throws x w' ↦ throws x w' ]) e
