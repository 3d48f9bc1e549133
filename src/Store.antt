-- ===== src/Store.antt =====
-- The tables behind the tool framework (packages/database/prisma/schema.prisma) that its guards read
-- and write, with the Prisma operations on the idempotency table, whose rows are found by the
-- compound key (idempotencyKey, tenantId). `app` is the business data that is opaque here.
pub mod Laws
use besterp.Prelude.{ℕ, Bool, ◌&&◌, List, [], ◌∷◌, if◌then◌else◌, Option, none, some}
use besterp.Text.{Text, text_eq}
use besterp.Value.{Value}
use besterp.Directory.{Directory}

-- The enum, and any other string that a row could hold.
pub data Status : Type 0 where
  pending completed failed : Status
  unknown : Text → Status

-- A date is its milliseconds. `none` is a null date, and an `expiresAt` that is no valid date.
pub record IdempotencyRecord : Type 0 where
  pub idempotency_key : Text
  pub tool_name : Text
  pub tenant_id : Text
  pub user_id : Text
  pub agent_id : Option Text
  pub conversation_id : Option Text
  pub status : Status
  pub input_hash : Text
  pub result : Value
  pub error : Value
  pub created_at : Option ℕ
  pub completed_at : Option ℕ
  pub expires_at : Option ℕ

pub record Key : Type 0 where
  pub key : Text
  pub tenant : Text

abbrev pub Records : Type 0
Records = List IdempotencyRecord

unfoldable pub matches : Key → IdempotencyRecord → Bool
matches k r = text_eq r.idempotency_key k.key && text_eq r.tenant_id k.tenant

unfoldable pub find_unique : Key → Records → Option IdempotencyRecord
find_unique k [] = none
find_unique k (r ∷ rs) = if matches k r then some r else find_unique k rs

unfoldable pub delete : Key → Records → Records
delete k [] = []
delete k (r ∷ rs) = if matches k r then delete k rs else r ∷ delete k rs

unfoldable pub update : Key → (IdempotencyRecord → IdempotencyRecord) → Records → Records
update k f [] = []
update k f (r ∷ rs) = if matches k r then f r ∷ rs else r ∷ update k f rs

-- `capabilities` is a JSON column.
pub record AgentRow : Type 0 where
  pub agent_id : Text
  pub tenant_id : Text
  pub is_active : Bool
  pub capabilities : Value

pub record GateRow : Type 0 where
  pub tool_name : Text
  pub enabled : Bool

unfoldable pub find_agent : Text → Text → List AgentRow → Option AgentRow
find_agent a t [] = none
find_agent a t (r ∷ rs) =
    if text_eq r.agent_id a && text_eq r.tenant_id t then some r else find_agent a t rs

unfoldable pub find_gate : Text → List GateRow → Option GateRow
find_gate n [] = none
find_gate n (r ∷ rs) = if text_eq r.tool_name n then some r else find_gate n rs

pub record Store : Type 0 where
  pub records : Records
  pub agents : List AgentRow
  pub gates : List GateRow
  pub directory : Directory
  pub app : Value
