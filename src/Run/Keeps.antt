-- ===== src/Run/Keeps.antt =====
-- Invariants of the tables that asynchronous functions keep, whatever the environment does that keeps
-- them too.
use besterp.Prelude.{
  ℕ, ◌≡◌, refl, List, [], ◌∷◌, Option, none, some, All, Bool, true, false, if◌then◌else◌,
}
use besterp.Store.{Store}
use besterp.Run.{
  World, Event, Thrown, Run, done, throws, M, ◌>>=◌, pure, throw, try_catch, query, Commit, commit,
  reject, after_event, commit_in, conclude, arrive, fault,
}
use besterp.Run.Laws.{Ends}

-- What a commit leaves.
pub commit_store : {A : Type 0} {a b : A} {s t : Store} → commit a s ≡ commit b t → s ≡ t
commit_store h = cc

module _ (I : Store → Type 0) where
  -- The tables satisfy the invariant, and what happens around the run keeps it.
  abbrev pub Kept : World → Type 0
  Kept w = I w.store × All (λ v. (s : Store) → I s → I (v.interfere s)) w.events

  abbrev pub Keeps : {A : Type 0} → M A → Type 0
  Keeps m = (w : World) → Kept w → Ends (λ a. Kept) (λ e. Kept) (m w)

  abbrev pub KeepsRun : {A : Type 0} → Run A → Type 0
  KeepsRun r = Ends (λ a. Kept) (λ e. Kept) r

  after_event-Kept :
      (w : World) (vs : List Event)
      → Kept w
      → All (λ v. (s : Store) → I s → I (v.interfere s)) vs
      → Kept (after_event w vs)
  after_event-Kept w [] h k = h
  after_event-Kept w (v ∷ vs) h k = (k.0 w.store h.0, k.1)

  arrive-Kept : (w : World) → Kept w → Kept (arrive w)
  unfolding arrive
  arrive-Kept w h = after_event-Kept w w.events h h.1

  pub throw-Keeps : (A : Type 0) (e : Thrown) → Keeps {A = A} (throw e)
  throw-Keeps A e w h = h

  module _ {A : Type 0} where
    pub pure-Keeps : (a : A) → Keeps (pure a)
    pure-Keeps a w h = h

    conclude-Keeps :
        (w : World) (c : Commit A)
        → Kept w
        → ((a : A) (s : Store) → c ≡ commit a s → I s)
        → KeepsRun (conclude w c)
    conclude-Keeps w (commit a s) h k = (k a s refl, h.1)
    conclude-Keeps w (reject e) h k = h

    pub query-Keeps :
        (op : ℕ → Store → Commit A)
        → ((now : ℕ) (s : Store) (a : A) (s' : Store) → I s → op now s ≡ commit a s' → I s')
        → Keeps (query op)
    unfolding query
    query-Keeps op k w h = go (fault w)
      where
        go : (o : Option Thrown) → KeepsRun (commit_in (arrive w) o op)
        go (some e) = arrive-Kept w h
        go none =
            conclude-Keeps (arrive w) (op (arrive w).now (arrive w).store) (arrive-Kept w h)
              (λ a s e. k (arrive w).now (arrive w).store a s (arrive-Kept w h).0 e)

    pub if-Keeps :
        (b : Bool) (m n : M A)
        → (b ≡ true → Keeps m)
        → (b ≡ false → Keeps n)
        → Keeps (if b then m else n)
    if-Keeps true m n h k = h refl
    if-Keeps false m n h k = k refl

    pub catch-Keeps :
        (m : M A) (handle : Thrown → M A)
        → Keeps m
        → ((e : Thrown) → Keeps (handle e))
        → Keeps (try_catch m handle)
    catch-Keeps m handle h k w kept = go (m w) (h w kept)
      where
        go :
            (r : Run A)
            → KeepsRun r
            → KeepsRun (elim r [ done a w' ↦ done a w' | throws e w' ↦ handle e w' ])
        go (done a w') h' = h'
        go (throws e w') h' = k e w' h'

  pub bind-Keeps :
      {A B : Type 0} (m : M A) (f : A → M B) → Keeps m → ((a : A) → Keeps (f a)) → Keeps (m >>= f)
  bind-Keeps {A} {B} m f h k w kept = go (m w) (h w kept)
    where
      go :
          (r : Run A)
          → KeepsRun r
          → KeepsRun {A = B} (elim r [ done a w' ↦ f a w' | throws e w' ↦ throws e w' ])
      go (done a w') h' = k a w' h'
      go (throws e w') h' = h'
