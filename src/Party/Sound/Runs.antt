-- ===== src/Party/Sound/Runs.antt =====
-- What the services share keeps any invariant of the tables.
use besterp.Prelude.{◌≡◌, refl, subst}
use besterp.Text.{Text}
use besterp.Value.{string}
use besterp.Store.{Store}
use besterp.Run.{M, ◌>>=◌, throw, commit}
use besterp.Run.Keeps.{Keeps, commit_store, throw-Keeps, query-Keeps, catch-Keeps}
use besterp.Support.{Support, Attempt, returns, fails}
use besterp.Platform.{Platform}
use besterp.PrismaErrors.{handle_transaction_error}
use besterp.Tenant.{validate_tenant_id}
use besterp.Party.Results.{mapped, attempt, read, tenant_scoped}

module _ (I : Store → Type 0) where
  module _ {A : Type 0} where
    pub mapped-Keeps :
        (env : Platform) (tool entity : Text) (m : M A)
        → Keeps I m
        → Keeps I (mapped env tool entity m)
    unfolding mapped
    mapped-Keeps env tool entity m h =
        catch-Keeps I m (λ e. throw (handle_transaction_error env tool tool entity e)) h
          (λ e. throw-Keeps I A (handle_transaction_error env tool tool entity e))

    pub read-Keeps : (f : Store → A) → Keeps I (read f)
    unfolding read
    read-Keeps f =
        query-Keeps I (λ now s. commit (f s) s) (λ now s a s' h e. subst I (commit_store e) h)

    pub attempt-Keeps : (a : Attempt A) → Keeps I (attempt a)
    attempt-Keeps (returns a) w h = h
    attempt-Keeps (fails e) w h = h

  -- After a validation, only what it returned matters.
  pub attempt-bind-Keeps :
      {A B : Type 0} (a : Attempt A) (f : A → M B)
      → ((x : A) → a ≡ returns x → Keeps I (f x))
      → Keeps I (attempt a >>= f)
  attempt-bind-Keeps (returns x) f h w kept = h x refl w kept
  attempt-bind-Keeps (fails e) f h w kept = kept

  pub tenant_scoped-Keeps : (lib : Support) (tenant : Text) → Keeps I (tenant_scoped lib tenant)
  unfolding tenant_scoped
  tenant_scoped-Keeps lib tenant = attempt-Keeps (validate_tenant_id lib (string tenant))
