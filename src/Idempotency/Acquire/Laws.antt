-- ===== src/Idempotency/Acquire/Laws.antt =====
-- The transaction that claims a key: when it claims, and what it leaves in the table.
use besterp.Prelude.{
  ℕ, ◌+◌, ◌-◌, ◌≤◌, ◌<◌, ◌≡◌, refl, sym, ap, ◌∙◌, ◌≢◌, ◌⊎◌, inl, inr, true, Option, none, some, ◌∷◌,
  arith, Bool-cases, Option-cases,
}
use besterp.Text.{Text}
use besterp.Text.Laws.{text_eq→≡, text_eq_refl}
use besterp.Limits.{idempotency_ttl_ms, idempotency_stale_pending_threshold_ms}
use besterp.Store.{
  IdempotencyRecord, Key, Records, Status, pending, completed, failed, unknown, matches,
  find_unique, delete, update,
}
use besterp.Store.Laws.{key_of, find_unique-update, ≡→matches, matches→≡}
use besterp.Idempotency.Acquire.{
  Claim, Acquired, created_record, found_record, is_expired_record, same_agent, is_same_caller,
  can_claim_record, fresh_record, reset_record, take_over, acquire_pending, acquire_live,
  acquire_row, acquire_tx, is_stale,
}

-- The row was written by the same caller, for the same tool and the same input.
pub record IsOwner (c : Claim) (r : IdempotencyRecord) : Type 0 where
  pub hash : r.input_hash ≡ c.input_hash
  pub tool : r.tool_name ≡ c.tool
  pub user : r.user_id ≡ c.user
  pub agent : r.agent_id ≡ c.agent

pub same_agent→≡ : (a b : Option Text) → same_agent a b ≡ true → a ≡ b
unfolding same_agent
same_agent→≡ none none h = refl
same_agent→≡ none (some b) h = cc
same_agent→≡ (some a) none h = cc
same_agent→≡ (some a) (some b) h = ap some (text_eq→≡ a b h)

pub same_agent_refl : (a : Option Text) → same_agent a a ≡ true
unfolding same_agent
same_agent_refl none = refl
same_agent_refl (some a) = text_eq_refl a

pub can_claim→IsOwner :
    (c : Claim) (r : IdempotencyRecord) → can_claim_record r c ≡ true → IsOwner c r
unfolding can_claim_record is_same_caller
can_claim→IsOwner c r h = ground (
  arith,
  text_eq→≡ r.input_hash c.input_hash,
  text_eq→≡ r.tool_name c.tool,
  text_eq→≡ r.user_id c.user,
  same_agent→≡ r.agent_id c.agent,
)

pub IsOwner→can_claim :
    (c : Claim) (r : IdempotencyRecord) → IsOwner c r → can_claim_record r c ≡ true
unfolding can_claim_record is_same_caller
IsOwner→can_claim c r o = rw (
  o.hash,
  o.tool,
  o.user,
  o.agent,
  text_eq_refl c.input_hash,
  text_eq_refl c.tool,
  text_eq_refl c.user,
  same_agent_refl c.agent,
)

-- The time to live of the row is over.
abbrev pub IsExpired : ℕ → IdempotencyRecord → Type 0
IsExpired now r = (t : ℕ) × (r.expires_at ≡ some t) × (t ≤ now)

-- Nobody works on the row any more: its execution failed, or began too long ago, or at no known time.
abbrev pub IsAbandoned : ℕ → IdempotencyRecord → Type 0
IsAbandoned now r =
    (r.status ≡ failed)
    ⊎ ((r.status ≡ pending)
        × ((r.created_at ≡ none)
            ⊎ ((t : ℕ) × (r.created_at ≡ some t)
                × (idempotency_stale_pending_threshold_ms < now - t))))

pub is_expired→IsExpired :
    (now : ℕ) (r : IdempotencyRecord) → is_expired_record now r ≡ true → IsExpired now r
unfolding is_expired_record
is_expired→IsExpired now r h = elim (Option-cases r.expires_at) [
  | inl e ↦ ground arith
  | inr (t, e) ↦ (t, e, ground arith)
]

pub IsExpired→is_expired :
    (now : ℕ) (r : IdempotencyRecord) → IsExpired now r → is_expired_record now r ≡ true
unfolding is_expired_record
IsExpired→is_expired now r (t, e, h) = ground arith

-- The row that a claim leaves: pending, of this caller, tool and input, and as young as can be.
pub record IsClaimed (now : ℕ) (c : Claim) (r : IdempotencyRecord) : Type 0 where
  pub owner : IsOwner c r
  pub pending : r.status ≡ pending
  pub created : r.created_at ≡ some now
  pub expires : r.expires_at ≡ some (now + idempotency_ttl_ms)

pub fresh-IsClaimed : (now : ℕ) (c : Claim) → IsClaimed now c (fresh_record now c)
unfolding fresh_record
fresh-IsClaimed now c = ground arith

reset-IsClaimed :
    (now : ℕ) (c : Claim) (r : IdempotencyRecord)
    → IsOwner c r
    → IsClaimed now c (reset_record now c r)
unfolding reset_record
reset-IsClaimed now c r o = ground arith

-- The row with the key of the claim.
abbrev pub Claimed : ℕ → Claim → Records → Type 0
Claimed now c rs = (r : IdempotencyRecord) × (find_unique c.key rs ≡ some r) × IsClaimed now c r

fresh-key : (now : ℕ) (c : Claim) → key_of (fresh_record now c) ≡ c.key
unfolding fresh_record
fresh-key now c = refl

pub reset-key :
    (now : ℕ) (c : Claim) (r : IdempotencyRecord) → key_of (reset_record now c r) ≡ key_of r
unfolding reset_record
reset-key now c r = refl

pub fresh-Claimed : (now : ℕ) (c : Claim) (rs : Records) → Claimed now c (fresh_record now c ∷ rs)
unfolding find_unique
fresh-Claimed now c rs = (
  fresh_record now c,
  rw (≡→matches c.key (fresh_record now c) (fresh-key now c)),
  fresh-IsClaimed now c,
)

pub reset-Claimed :
    (now : ℕ) (c : Claim) (r : IdempotencyRecord) (rs : Records)
    → find_unique c.key rs ≡ some r
    → IsOwner c r
    → Claimed now c (update c.key (reset_record now c) rs)
reset-Claimed now c r rs found o = (
  reset_record now c r,
  find_unique-update c.key (reset_record now c) rs (reset-key now c) found,
  reset-IsClaimed now c r o,
)

-- What a transaction may do with a row that it found.
pub data Outcome (now : ℕ) (c : Claim) (r : IdempotencyRecord) (rs : Records)
    : Acquired × Records → Type 0 where
  replaced :
      IsExpired now r → Outcome now c r rs (created_record, fresh_record now c ∷ delete c.key rs)
  taken :
      ¬ IsExpired now r
      → IsOwner c r
      → IsAbandoned now r
      → Outcome now c r rs (created_record, update c.key (reset_record now c) rs)
  kept :
      ¬ IsExpired now r
      → ¬ (IsOwner c r × IsAbandoned now r)
      → Outcome now c r rs (found_record r, rs)

module _ (now : ℕ) (c : Claim) (r : IdempotencyRecord) (rs : Records)
    (live : ¬ IsExpired now r) where
  take_over-Outcome : IsAbandoned now r → Outcome now c r rs (take_over now c r rs)
  unfolding take_over
  take_over-Outcome left = elim (Bool-cases (can_claim_record r c)) [
    | inl e ↦ rw e (taken live (can_claim→IsOwner c r e) left)
    | inr e ↦ rw e (kept live (λ h. cc (e, IsOwner→can_claim c r h.0)))
  ]

  acquire_pending-Outcome :
      (o : Option ℕ)
      → r.created_at ≡ o
      → r.status ≡ pending
      → Outcome now c r rs (acquire_pending now c r o rs)
  unfolding acquire_pending
  acquire_pending-Outcome none e p = take_over-Outcome (inr (p, inl e))
  acquire_pending-Outcome (some t) e p = elim (Bool-cases (is_stale now t)) [
    | inl stale ↦ rw stale (take_over-Outcome (inr (p, inr (t, e, ground arith))))
    | inr young ↦ rw young (kept live (λ h. ground arith))
  ]

  acquire_live-Outcome :
      (s : Status) → r.status ≡ s → Outcome now c r rs (acquire_live now c r s rs)
  unfolding acquire_live
  acquire_live-Outcome failed e = take_over-Outcome (inl e)
  acquire_live-Outcome pending e = acquire_pending-Outcome r.created_at refl e
  acquire_live-Outcome completed e = kept live (λ h. ground arith)
  acquire_live-Outcome (unknown s) e = kept live (λ h. ground arith)

acquire_row-Outcome :
    (now : ℕ) (c : Claim) (r : IdempotencyRecord) (rs : Records)
    → Outcome now c r rs (acquire_row now c (some r) rs)
unfolding acquire_row
acquire_row-Outcome now c r rs = elim (Bool-cases (is_expired_record now r)) [
  | inl old ↦ rw old (replaced (is_expired→IsExpired now r old))
  | inr young ↦ rw young (
      acquire_live-Outcome now c r rs (λ h. cc (young, IsExpired→is_expired now r h)) r.status refl)
]

-- The transaction on a key with a row, and on a key without.
pub acquire_tx-Outcome :
    (now : ℕ) (c : Claim) (rs : Records) {r : IdempotencyRecord}
    → find_unique c.key rs ≡ some r
    → Outcome now c r rs (acquire_tx now c rs)
unfolding acquire_tx
acquire_tx-Outcome now c rs {r} found = rw found (acquire_row-Outcome now c r rs)

pub acquire_tx-none :
    (now : ℕ) (c : Claim) (rs : Records)
    → find_unique c.key rs ≡ none
    → acquire_tx now c rs ≡ (created_record, fresh_record now c ∷ rs)
unfolding acquire_tx
acquire_tx-none now c rs free = rw free

pub find_unique-fresh_ne :
    (now : ℕ) (c : Claim) (rs : Records) (k : Key)
    → c.key ≢ k
    → find_unique k (fresh_record now c ∷ rs) ≡ find_unique k rs
unfolding find_unique
find_unique-fresh_ne now c rs k ne = elim (Bool-cases (matches k (fresh_record now c))) [
  | inl e ↦ absurd (ne (sym (fresh-key now c) ∙ matches→≡ k (fresh_record now c) e))
  | inr e ↦ rw e
]
