-- ===== src/Run.antt =====
-- What an asynchronous function of the framework does to its surroundings. Each database operation
-- first meets an event of the environment: time that passes, what other requests commit to the
-- tables meanwhile, and the error that the operation fails with, if it fails. A list that has run
-- out stands for a quiet environment.
pub mod Laws
pub mod Keeps
pub mod Returned
use besterp.Prelude.{ℕ, ◌+◌, Bool, List, [], ◌∷◌, Option, none, some}
use besterp.Text.{Text}
use besterp.Value.{Value}
use besterp.Store.{Store}

-- A thrown value: whether it is a `DomainError`, its `code` if that is a string, its message, and
-- what the error handler reads of it. `target` is `meta.target`, validated and joined.
pub record Thrown : Type 0 where
  pub is_domain : Bool
  pub code : Option Text
  pub message : Text
  pub suggested_tools : List Text
  pub context : Value
  pub target : Option Text

pub record Event : Type 0 where
  pub elapsed : ℕ
  pub interfere : Store → Store
  pub fault : Option Thrown

pub record World : Type 0 where
  pub store : Store
  pub now : ℕ
  pub events : List Event

-- Nobody else works, and nothing fails.
abbrev pub quiet : Store → ℕ → World
quiet s now = record { store = s; now = now; events = [] }

pub data Run {ℓ} (A : Type ℓ) : Type ℓ where
  done : A → World → Run A
  throws : Thrown → World → Run A

abbrev pub M : Type 0 → Type 0
M A = World → Run A

infixl 5 ◌>>=◌ ◌>>◌
abbrev pub ◌>>=◌ : {A B : Type 0} → M A → (A → M B) → M B
◌>>=◌ m f w = elim (m w) [ done a w' ↦ f a w' | throws e w' ↦ throws e w' ]

abbrev pub ◌>>◌ : {A B : Type 0} → M A → M B → M B
m >> k = m >>= λ _. k

abbrev pub pure : {A : Type 0} → A → M A
pure a w = done a w

abbrev pub throw : {A : Type 0} → Thrown → M A
throw e w = throws e w

-- `try { … } catch (e) { … }`.
abbrev pub try_catch : {A : Type 0} → M A → (Thrown → M A) → M A
try_catch m handle w = elim (m w) [ done a w' ↦ done a w' | throws e w' ↦ handle e w' ]

-- The state in which the next database operation runs, and the error that it meets.
abbrev after_event : World → List Event → World
after_event w [] = w
after_event w (v ∷ vs) = record {
  store = v.interfere w.store;
  now = w.now + v.elapsed;
  events = vs;
}

unfoldable pub arrive : World → World
arrive w = after_event w w.events

abbrev fault_of : List Event → Option Thrown
fault_of [] = none
fault_of (v ∷ vs) = v.fault

unfoldable pub fault : World → Option Thrown
fault w = fault_of w.events

-- An operation of the database: a read, a write or a whole serializable transaction. It commits or
-- throws as one. What it throws by itself (a row that is not there) leaves the tables alone.
pub data Commit (A : Type 0) : Type 0 where
  commit : A → Store → Commit A
  reject : Thrown → Commit A

abbrev pub conclude : {A : Type 0} → World → Commit A → Run A
conclude w (commit a s) = done a (record w { store = s })
conclude w (reject e) = throws e w

abbrev commit_in : {A : Type 0} → World → Option Thrown → (ℕ → Store → Commit A) → Run A
commit_in w (some e) op = throws e w
commit_in w none op = conclude w (op w.now w.store)

unfoldable pub query : {A : Type 0} → (ℕ → Store → Commit A) → M A
query op w = commit_in (arrive w) (fault w) op

-- The clock, read outside any operation.
abbrev pub current_time : M ℕ
current_time w = done w.now w
