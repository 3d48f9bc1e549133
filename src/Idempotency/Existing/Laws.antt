-- ===== src/Idempotency/Existing/Laws.antt =====
-- What a request is told of a key that has a row already.
use besterp.Prelude.{ℕ, ◌≡◌, inl, inr, true, arith, Bool-cases}
use besterp.Text.{text_eq}
use besterp.Text.Laws.{text_eq→≡, text_eq_refl}
use besterp.Support.{Support}
use besterp.Store.{IdempotencyRecord, Status, pending, completed, failed, unknown}
use besterp.Idempotency.Acquire.{Claim, is_same_caller}
use besterp.Idempotency.Acquire.Laws.{IsOwner, same_agent→≡, same_agent_refl}
use besterp.Idempotency.Errors.{caller_mismatch_error}
use besterp.Idempotency.Existing.{
  replay, existing_conflict, existing_by_status, handle_existing_record,
}

-- The row holds the outcome of this very request.
abbrev pub IsReplay : Claim → IdempotencyRecord → Type 0
IsReplay c r = IsOwner c r × (r.status ≡ completed)

module _ (lib : Support) (now : ℕ) (r : IdempotencyRecord) (c : Claim) where
  by_status-success :
      (s : Status)
      → (existing_by_status lib now r c s).success ≡ true
      → (s ≡ completed)
        × (r.input_hash ≡ c.input_hash)
        × (existing_by_status lib now r c s ≡ replay lib r c.tool)
  unfolding existing_by_status existing_conflict
  by_status-success completed h = ground (arith, text_eq→≡ r.input_hash c.input_hash)
  by_status-success pending h = ground arith
  by_status-success failed h = ground arith
  by_status-success (unknown s) h = cc

  -- What is reported of an existing row is a success only if the row is completed and has this
  -- request's tool, caller and input hash; the report is then its replay.
  pub success→IsReplay :
      (handle_existing_record lib now r c).success ≡ true
      → IsReplay c r × (handle_existing_record lib now r c ≡ replay lib r c.tool)
  unfolding handle_existing_record is_same_caller caller_mismatch_error
  success→IsReplay h = elim (Bool-cases (text_eq r.tool_name c.tool)) [
    | inr other ↦ cc (rw other at h)
    | inl tool ↦ elim (Bool-cases (is_same_caller r c.user c.agent)) [
      | inr other ↦ cc (rw (tool, other) at h)
      | inl caller ↦
          let (done, hash, same) = by_status-success r.status (rw (tool, caller) at h) in
          (
            (
              record {
                hash = hash;
                tool = text_eq→≡ r.tool_name c.tool tool;
                user = ground (arith, text_eq→≡ r.user_id c.user);
                agent = ground (arith, same_agent→≡ r.agent_id c.agent);
              },
              done,
            ),
            rw (tool, caller) same,
          )
    ]
  ]

  pub IsReplay→replay : IsReplay c r → handle_existing_record lib now r c ≡ replay lib r c.tool
  unfolding handle_existing_record is_same_caller existing_by_status
  IsReplay→replay (o, e) = ground (
    arith,
    o.hash,
    o.tool,
    o.user,
    o.agent,
    text_eq_refl c.input_hash,
    text_eq_refl c.tool,
    text_eq_refl c.user,
    same_agent_refl c.agent,
  )
