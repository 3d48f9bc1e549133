-- ===== src/Idempotency/Exclusion/Laws.antt =====
-- At most one handler runs for a key, over every interleaving.
use besterp.Prelude.{
  ℕ, ◌+◌, ◌≤◌, ◌≡◌, sym, ap, ◌∙◌, subst, ◌≢◌, inl, inr, true, some, List, [], ◌∷◌, arith,
  some-eq_some, All,
}
use besterp.Support.{Support}
use besterp.Limits.{idempotency_stale_pending_threshold_ms, idempotency_ttl_ms}
use besterp.Store.{IdempotencyRecord, Key, Records, pending, find_unique, delete, update}
use besterp.Store.Laws.{key_of, find_unique-update_ne, find_unique-delete_ne}
use besterp.Idempotency.Acquire.{Claim, acquire_tx}
use besterp.Idempotency.Acquire.Laws.{IsExpired, IsAbandoned}
use besterp.Idempotency.Acquire.Claims.{
  IsFree, created_iff, created-Claimed, refused-kept, acquire_tx-frame,
}
use besterp.Idempotency.Execute.{finish_record, mark_failed}
use besterp.Idempotency.Execute.Laws.{finish-key, mark_failed-key}
use besterp.Idempotency.Exclusion.{
  Running, Shared, Removes, here, there, IsTimely, Step, begins, turned_away, finishes, fails_over,
  gives_up, cleans, waits, Reach, start, next,
}

-- The row of a running request: pending, and as old as the request.
pub record Holds (rs : Records) (now : ℕ) (l : Running) : Type 0 where
  pub row : IdempotencyRecord
  pub found : find_unique l.claim.key rs ≡ some row
  pub pending : row.status ≡ pending
  pub created : row.created_at ≡ some l.started
  pub expires : row.expires_at ≡ some (l.started + idempotency_ttl_ms)
  pub begun : l.started ≤ now
  pub timely : IsTimely now l

abbrev pub Apart : Running → Running → Type 0
Apart l m = l.claim.key ≢ m.claim.key

-- No two running requests have one key.
abbrev pub Distinct : List Running → Type 0
Distinct [] = Unit
Distinct (l ∷ ls) = All (Apart l) ls × Distinct ls

pub record Inv (s : Shared) : Type 0 where
  pub holds : All (Holds s.records s.now) s.running
  pub distinct : Distinct s.running

young-live :
    (now started : ℕ) (r : IdempotencyRecord)
    → r.expires_at ≡ some (started + idempotency_ttl_ms)
    → now ≤ started + idempotency_stale_pending_threshold_ms
    → ¬ IsExpired now r
young-live now started r e t (u, e', old) = ground arith

young-busy :
    (now started : ℕ) (r : IdempotencyRecord)
    → r.status ≡ pending
    → r.created_at ≡ some started
    → now ≤ started + idempotency_stale_pending_threshold_ms
    → ¬ IsAbandoned now r
young-busy now started r p e t (inl f) = ground arith
young-busy now started r p e t (inr (_, inl f)) = ground arith
young-busy now started r p e t (inr (_, inr (u, e', old))) = ground arith

-- The row of a running request cannot be claimed.
Holds-busy :
    (rs : Records) (now : ℕ) (l : Running) (c : Claim)
    → Holds rs now l
    → c.key ≡ l.claim.key
    → ¬ IsFree now c rs
Holds-busy rs now l c h same free = busy (ap (λ k. find_unique k rs) same ∙ h.found) free
  where
    busy : find_unique c.key rs ≡ some h.row → ¬ IsFree now c rs
    busy e (inl idle) = cc
    busy e (inr (r, e', inl old)) =
        young-live now l.started h.row h.expires h.timely
          (subst (IsExpired now) (some-eq_some (sym e' ∙ e)) old)
    busy e (inr (r, e', inr (own, left))) =
        young-busy now l.started h.row h.pending h.created h.timely
          (subst (IsAbandoned now) (some-eq_some (sym e' ∙ e)) left)

-- A change of the table that leaves the rows of the requests alone.
Holds-frame :
    (rs rs' : Records) (now : ℕ) (ls : List Running)
    → All (λ l. find_unique l.claim.key rs' ≡ find_unique l.claim.key rs) ls
    → All (Holds rs now) ls
    → All (Holds rs' now) ls
Holds-frame rs rs' now [] f h = tt
Holds-frame rs rs' now (l ∷ ls) (e, f) (h, hs) = (
  record {
    row = h.row;
    found = e ∙ h.found;
    pending = h.pending;
    created = h.created;
    expires = h.expires;
    begun = h.begun;
    timely = h.timely;
  },
  Holds-frame rs rs' now ls f hs,
)

All-map :
    {P Q : Running → Type 0} (ls : List Running) → ((l : Running) → P l → Q l) → All P ls → All Q ls
All-map [] f h = tt
All-map (l ∷ ls) f (h, hs) = (f l h, All-map ls f hs)

module _ {l : Running} where
  Removes-All :
      (P : Running → Type 0) {ls ls' : List Running} → Removes l ls ls' → All P ls → All P ls'
  Removes-All P here (h, hs) = hs
  Removes-All P (there r) (h, hs) = (h, Removes-All P r hs)

  Removes-at : (P : Running → Type 0) {ls ls' : List Running} → Removes l ls ls' → All P ls → P l
  Removes-at P here (h, hs) = h
  Removes-at P (there r) (h, hs) = Removes-at P r hs

  Removes-Distinct :
      {ls ls' : List Running} → Removes l ls ls' → Distinct ls → Distinct ls' × All (Apart l) ls'
  Removes-Distinct here (a, d) = (d, a)
  Removes-Distinct (there {x = x} r) (a, d) =
      let (d', a') = Removes-Distinct r d in
      ((Removes-All (Apart x) r a, d'), (λ e. Removes-at (Apart x) r a (sym e), a'))

updated-Holds :
    (k : Key) (f : IdempotencyRecord → IdempotencyRecord) (rs : Records) (now : ℕ)
    (ls : List Running)
    → ((x : IdempotencyRecord) → key_of (f x) ≡ key_of x)
    → All (λ m. k ≢ m.claim.key) ls
    → All (Holds rs now) ls
    → All (Holds (update k f rs) now) ls
updated-Holds k f rs now ls same apart =
    Holds-frame rs (update k f rs) now ls
      (All-map ls (λ m ne. find_unique-update_ne k m.claim.key f rs same ne) apart)

begins-apart :
    (rs : Records) (now : ℕ) (c : Claim) (ls : List Running)
    → IsFree now c rs
    → All (Holds rs now) ls
    → All (λ l. c.key ≢ l.claim.key) ls
begins-apart rs now c ls free = All-map ls (λ l h same. Holds-busy rs now l c h same free)

begins-Inv :
    (s : Shared) (c : Claim)
    → (acquire_tx s.now c s.records).0.created ≡ true
    → Inv s
    → Inv (record s {
      records = (acquire_tx s.now c s.records).1;
      running = record { claim = c; started = s.now } ∷ s.running;
    })
begins-Inv s c won i =
    let (row, found, fresh) = created-Claimed s.now c s.records won in
    let apart =
      begins-apart s.records s.now c s.running ((created_iff s.now c s.records).0 won) i.holds in
    record {
      holds = (
        record {
          row = row;
          found = found;
          pending = fresh.pending;
          created = fresh.created;
          expires = fresh.expires;
          begun = omega arith;
          timely = omega arith;
        },
        Holds-frame s.records (acquire_tx s.now c s.records).1 s.now s.running
            (All-map s.running (λ l ne. acquire_tx-frame s.now c s.records l.claim.key ne) apart)
            i.holds,
      );
      distinct = (apart, i.distinct);
    }

ends-Inv :
    (s : Shared) (l : Running) (f : IdempotencyRecord → IdempotencyRecord) {rest : List Running}
    → ((x : IdempotencyRecord) → key_of (f x) ≡ key_of x)
    → Removes l s.running rest
    → Inv s
    → Inv (record s { records = update l.claim.key f s.records; running = rest })
ends-Inv s l f {rest} same out i =
    let (distinct, apart) = Removes-Distinct out i.distinct in
    record {
      holds =
          updated-Holds l.claim.key f s.records s.now rest same apart
            (Removes-All (Holds s.records s.now) out i.holds);
      distinct = distinct;
    }

waits-Holds :
    (rs : Records) (now n : ℕ) (ls : List Running)
    → All (IsTimely (now + n)) ls
    → All (Holds rs now) ls
    → All (Holds rs (now + n)) ls
waits-Holds rs now n [] t h = tt
waits-Holds rs now n (l ∷ ls) (t, ts) (h, hs) = (
  record {
    row = h.row;
    found = h.found;
    pending = h.pending;
    created = h.created;
    expires = h.expires;
    begun = omega (arith, h.begun);
    timely = t;
  },
  waits-Holds rs now n ls ts hs,
)

-- A row whose time is over is of no running request.
expired-apart :
    (rs : Records) (now : ℕ) (k : Key) (r : IdempotencyRecord) (ls : List Running)
    → find_unique k rs ≡ some r
    → IsExpired now r
    → All (Holds rs now) ls
    → All (λ l. k ≢ l.claim.key) ls
expired-apart rs now k r ls e old = All-map ls (λ l h same.
    young-live now l.started h.row h.expires h.timely (
      subst (IsExpired now) (some-eq_some (sym e ∙ ap (λ j. find_unique j rs) same ∙ h.found)) old))

module _ (lib : Support) where
  pub Step-Inv : {s t : Shared} → Step lib s t → Inv s → Inv t
  Step-Inv {s} (begins c won) i = begins-Inv s c won i
  Step-Inv {s} (turned_away c lost) i =
      let (r, e, live, same) = refused-kept s.now c s.records lost in
      record {
        holds = subst (λ rs. All (Holds rs s.now) s.running) (sym (ap (λ o. o.1) same)) i.holds;
        distinct = i.distinct;
      }
  Step-Inv {s} (finishes l r soft out) i =
      ends-Inv s l (finish_record lib r soft s.now) (finish-key lib r soft s.now) out i
  Step-Inv {s} (fails_over l out) i =
      ends-Inv s l (mark_failed lib s.now) (mark_failed-key lib s.now) out i
  Step-Inv {s} (gives_up l out) i = record {
    holds = Removes-All (Holds s.records s.now) out i.holds;
    distinct = (Removes-Distinct out i.distinct).0;
  }
  Step-Inv {s} (cleans k r e old) i = record {
    holds =
        Holds-frame s.records (delete k s.records) s.now s.running
          (All-map s.running (λ l ne. find_unique-delete_ne k l.claim.key s.records ne)
            (expired-apart s.records s.now k r s.running e old i.holds))
          i.holds;
    distinct = i.distinct;
  }
  Step-Inv {s} (waits n t) i = record {
    holds = waits-Holds s.records s.now n s.running t i.holds;
    distinct = i.distinct;
  }

  Reach-Inv : {s t : Shared} → Inv s → Reach lib s t → Inv t
  Reach-Inv i start = i
  Reach-Inv i (next r st) = Step-Inv st (Reach-Inv i r)

  -- From a state where nothing runs, over every interleaving of transactions, updates, cleanups
  -- and time in which no handler runs longer than the stale-pending threshold, no two running
  -- requests have one key, and each finds its own pending row.
  pub Reach-exclusive :
      {s t : Shared}
      → s.running ≡ []
      → Reach lib s t
      → Distinct t.running × All (Holds t.records t.now) t.running
  Reach-exclusive {s} {t} idle r =
      let i : Inv t =
        Reach-Inv
          (record {
            holds = subst (All (Holds s.records s.now)) (sym idle) tt;
            distinct = subst Distinct (sym idle) tt;
          })
          r in
      (i.distinct, i.holds)
