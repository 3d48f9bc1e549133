-- ===== src/Party/Results/Laws.antt =====
-- What a validation or a mapped operation went through when it returned.
use besterp.Prelude.{◌≡◌, refl}
use besterp.Text.{Text}
use besterp.Run.{World, M, done, ◌>>=◌}
use besterp.Run.Returned.{catch_returned}
use besterp.Support.{Attempt, returns, fails}
use besterp.Platform.{Platform}
use besterp.PrismaErrors.{handle_transaction_error}
use besterp.Party.Results.{mapped, attempt}

-- A validation that returned left the world alone.
pub attempt_bind_returned {ℓ} :
    {A B : Type 0} {P : Type ℓ} (x : Attempt A) (f : A → M B) (w : World) (b : B) (w' : World)
    → (attempt x >>= f) w ≡ done b w'
    → ((a : A) → x ≡ returns a → f a w ≡ done b w' → P)
    → P
attempt_bind_returned (returns a) f w b w' h k = k a refl h
attempt_bind_returned (fails e) f w b w' h k = absurd cc

-- The mapping of errors changes nothing that is returned.
pub mapped_returned :
    {A : Type 0} (env : Platform) (tool entity : Text) (m : M A) (w : World) (a : A) (v : World)
    → mapped env tool entity m w ≡ done a v
    → m w ≡ done a v
unfolding mapped
mapped_returned env tool entity m w a v h =
    catch_returned m (handle_transaction_error env tool tool entity) w a v h
