-- ===== src/Idempotency/Acquire/Claims.antt =====
-- When a request gets the key, and what the table holds then.
use besterp.Prelude.{
  ℕ, ◌≡◌, refl, sym, ◌∙◌, subst, ◌≢◌, ◌↔◌, ◌⊎◌, inl, inr, true, false, none, some, Option-cases,
  some-eq_some,
}
use besterp.Store.{IdempotencyRecord, Key, Records, find_unique, delete}
use besterp.Store.Laws.{find_unique-delete_ne, find_unique-update_ne}
use besterp.Idempotency.Acquire.{
  Claim, Acquired, created_record, found_record, reset_record, acquire_tx,
}
use besterp.Idempotency.Acquire.Laws.{
  IsOwner, IsExpired, IsAbandoned, Claimed, Outcome, replaced, taken, kept, acquire_tx-Outcome,
  acquire_tx-none, fresh-Claimed, reset-Claimed, find_unique-fresh_ne, reset-key,
}

-- The key is free for the claim: it has no row, or one whose time is over, or one that is abandoned
-- and was written by the same caller, for the same tool and the same input.
abbrev pub IsFree : ℕ → Claim → Records → Type 0
IsFree now c rs =
    (find_unique c.key rs ≡ none)
    ⊎ ((r : IdempotencyRecord) × (find_unique c.key rs ≡ some r)
        × (IsExpired now r ⊎ (IsOwner c r × IsAbandoned now r)))

module _ (now : ℕ) (c : Claim) (rs : Records) where
  IsFree-kept :
      {r : IdempotencyRecord}
      → find_unique c.key rs ≡ some r
      → ¬ IsExpired now r
      → ¬ (IsOwner c r × IsAbandoned now r)
      → ¬ IsFree now c rs
  IsFree-kept found live other (inl e) = cc
  IsFree-kept {r} found live other (inr (r', e, inl old)) =
      live (subst (IsExpired now) (some-eq_some (sym e ∙ found)) old)
  IsFree-kept {r} found live other (inr (r', e, inr left)) =
      other (subst (λ x. IsOwner c x × IsAbandoned now x) (some-eq_some (sym e ∙ found)) left)

  Outcome-IsFree :
      {r : IdempotencyRecord} {o : Acquired × Records}
      → find_unique c.key rs ≡ some r
      → Outcome now c r rs o
      → (o.0.created ≡ true) ↔ IsFree now c rs
  Outcome-IsFree {r} found (replaced old) = (λ _. inr (r, found, inl old), λ _. refl)
  Outcome-IsFree {r} found (taken live own left) = (λ _. inr (r, found, inr (own, left)), λ _. refl)
  Outcome-IsFree {r} found (kept live other) =
      (λ h. cc, λ f. absurd (IsFree-kept found live other f))

  Outcome-Claimed :
      {r : IdempotencyRecord} {o : Acquired × Records}
      → find_unique c.key rs ≡ some r
      → Outcome now c r rs o
      → o.0.created ≡ true
      → Claimed now c o.1
  Outcome-Claimed found (replaced old) h = fresh-Claimed now c (delete c.key rs)
  Outcome-Claimed {r} found (taken live own left) h = reset-Claimed now c r rs found own
  Outcome-Claimed found (kept live other) h = cc

  Outcome-kept :
      {r : IdempotencyRecord} {o : Acquired × Records}
      → Outcome now c r rs o
      → o.0.created ≡ false
      → (o ≡ (found_record r, rs)) × ¬ IsExpired now r
  Outcome-kept (replaced old) h = cc
  Outcome-kept (taken live own left) h = cc
  Outcome-kept (kept live other) h = (refl, live)

  Outcome-created :
      {r : IdempotencyRecord} {o : Acquired × Records}
      → Outcome now c r rs o
      → o.0.created ≡ true
      → o.0 ≡ created_record
  Outcome-created (replaced old) h = refl
  Outcome-created (taken live own left) h = refl
  Outcome-created (kept live other) h = cc

  Outcome-frame :
      {r : IdempotencyRecord} {o : Acquired × Records} (k : Key)
      → c.key ≢ k
      → Outcome now c r rs o
      → find_unique k o.1 ≡ find_unique k rs
  Outcome-frame k ne (replaced old) =
      find_unique-fresh_ne now c (delete c.key rs) k ne ∙ find_unique-delete_ne c.key k rs ne
  Outcome-frame {r} k ne (taken live own left) =
      find_unique-update_ne c.key k (reset_record now c) rs (reset-key now c) ne
  Outcome-frame k ne (kept live other) = refl

-- What of the transaction holds whether or not the key has a row.
module _ (now : ℕ) (c : Claim) (rs : Records) where
  -- The transaction claims the key exactly if the key has no row, or one whose time is over, or
  -- one of the same request of the same caller that has failed or was abandoned.
  pub created_iff : ((acquire_tx now c rs).0.created ≡ true) ↔ IsFree now c rs
  created_iff = elim (Option-cases (find_unique c.key rs)) [
    | inl free ↦ rw (acquire_tx-none now c rs free) (λ _. inl free, λ _. refl)
    | inr (r, found) ↦ Outcome-IsFree now c rs found (acquire_tx-Outcome now c rs found)
  ]

  -- Where the transaction claims the key, the key's row is then pending, as old as the
  -- transaction, good for a day, and of this request.
  pub created-Claimed :
      (acquire_tx now c rs).0.created ≡ true → Claimed now c (acquire_tx now c rs).1
  created-Claimed h = elim (Option-cases (find_unique c.key rs)) [
    | inl free ↦ rw (acquire_tx-none now c rs free) (fresh-Claimed now c rs)
    | inr (r, found) ↦ Outcome-Claimed now c rs found (acquire_tx-Outcome now c rs found) h
  ]

  -- Where the transaction does not claim the key, it hands back the key's live row and leaves the
  -- table as it was.
  pub refused-kept :
      (acquire_tx now c rs).0.created ≡ false
      → (r : IdempotencyRecord) × (find_unique c.key rs ≡ some r)
        × (¬ IsExpired now r)
        × (acquire_tx now c rs ≡ (found_record r, rs))
  refused-kept h = elim (Option-cases (find_unique c.key rs)) [
    | inl free ↦ cc (rw (acquire_tx-none now c rs free) at h)
    | inr (r, found) ↦
        let (same, live) = Outcome-kept now c rs (acquire_tx-Outcome now c rs found) h in
        (r, found, live, same)
  ]

  -- The transaction leaves the row of every other key alone.
  pub acquire_tx-frame :
      (k : Key) → c.key ≢ k → find_unique k (acquire_tx now c rs).1 ≡ find_unique k rs
  acquire_tx-frame k ne = elim (Option-cases (find_unique c.key rs)) [
    | inl free ↦ rw (acquire_tx-none now c rs free) (find_unique-fresh_ne now c rs k ne)
    | inr (r, found) ↦ Outcome-frame now c rs k ne (acquire_tx-Outcome now c rs found)
  ]

  -- The row handed over is never of a request that got the key.
  pub created-existing :
      (acquire_tx now c rs).0.created ≡ true → (acquire_tx now c rs).0 ≡ created_record
  created-existing h = elim (Option-cases (find_unique c.key rs)) [
    | inl free ↦ rw (acquire_tx-none now c rs free)
    | inr (r, found) ↦ Outcome-created now c rs (acquire_tx-Outcome now c rs found) h
  ]
