-- ===== src/Run/Returned.antt =====
-- What a run that returned went through.
use besterp.Prelude.{ℕ, ◌≡◌, refl, sym, ◌∙◌, ap}
use besterp.Store.{Store}
use besterp.Run.{
  World, Thrown, Run, done, throws, M, ◌>>=◌, try_catch, throw, quiet, query, Commit, commit,
  reject, conclude, arrive, fault,
}

pub done_value : {A : Type 0} {a b : A} {w v : World} → done a w ≡ done b v → a ≡ b
done_value h = cc

pub done_world : {A : Type 0} {a b : A} {w v : World} → done a w ≡ done b v → w ≡ v
done_world h = cc

pub commit_value : {A : Type 0} {a b : A} {s t : Store} → commit a s ≡ commit b t → a ≡ b
commit_value h = cc

-- Both steps returned.
pub bind_returned {ℓ} :
    {A B : Type 0} {P : Type ℓ} (m : M A) (f : A → M B) (w : World) (b : B) (w' : World)
    → (m >>= f) w ≡ done b w'
    → ((a : A) (v : World) → m w ≡ done a v → f a v ≡ done b w' → P)
    → P
bind_returned {A} {B} {P} m f w b w' h k = go (m w) refl h
  where
    go :
        (r : Run A)
        → m w ≡ r
        → ◌≡◌ {A = Run B} (elim r [ done a v ↦ f a v | throws e v ↦ throws e v ]) (done b w')
        → P
    go (done a v) e h' = k a v e h'
    go (throws x v) e h' = absurd cc

-- Nothing was caught, where the handler throws.
pub catch_returned :
    {A : Type 0} (m : M A) (g : Thrown → Thrown) (w : World) (a : A) (w' : World)
    → try_catch m (λ e. throw (g e)) w ≡ done a w'
    → m w ≡ done a w'
catch_returned {A} m g w a w' h = go (m w) h
  where
    go :
        (r : Run A)
        → ◌≡◌ {A = Run A} (elim r [ done x v ↦ done x v | throws e v ↦ throws (g e) v ]) (done a w')
        → r ≡ done a w'
    go (done x v) h' = h'
    go (throws e v) h' = absurd cc

-- In a quiet environment a query is its commit.
pub query_returned {ℓ} :
    {A : Type 0} {P : Type ℓ} (op : ℕ → Store → Commit A) (s : Store) (now : ℕ) (a : A) (w : World)
    → query op (quiet s now) ≡ done a w
    → ((s' : Store) → op now s ≡ commit a s' → w ≡ quiet s' now → P)
    → P
unfolding query arrive fault
query_returned {A} {P} op s now a w h k = go (op now s) refl h
  where
    go : (c : Commit A) → op now s ≡ c → conclude (quiet s now) c ≡ done a w → P
    go (commit x s') e h' = k s' (e ∙ ap (λ y. commit y s') (done_value h')) (sym (done_world h'))
    go (reject x) e h' = absurd cc
