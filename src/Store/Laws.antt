-- ===== src/Store/Laws.antt =====
-- Lookups in the idempotency table after each write.
use besterp.Prelude.{
  ◌∙◌, true, false, [], ◌∷◌, ◌≡◌, refl, sym, ◌≢◌, arith, none, some, Bool-cases, inl, inr,
}
use besterp.Text.Laws.{text_eq→≡, text_eq_refl}
use besterp.Store.{IdempotencyRecord, Key, Records, matches, find_unique, delete, update}

abbrev pub key_of : IdempotencyRecord → Key
key_of r = record { key = r.idempotency_key; tenant = r.tenant_id }

pub matches→≡ : (k : Key) (r : IdempotencyRecord) → matches k r ≡ true → key_of r ≡ k
unfolding matches
matches→≡ k r h = ground (arith, text_eq→≡ r.idempotency_key k.key, text_eq→≡ r.tenant_id k.tenant)

pub ≡→matches : (k : Key) (r : IdempotencyRecord) → key_of r ≡ k → matches k r ≡ true
unfolding matches
≡→matches k r h = rw (← h) (rw (text_eq_refl r.idempotency_key) (text_eq_refl r.tenant_id))

pub find_unique-matches :
    (k : Key) (rs : Records) {r : IdempotencyRecord}
    → find_unique k rs ≡ some r
    → matches k r ≡ true
unfolding find_unique
find_unique-matches k [] h = cc
find_unique-matches k (x ∷ rs) {r} h = ground (arith, find_unique-matches k rs {r = r})

pub find_unique-delete : (k : Key) (rs : Records) → find_unique k (delete k rs) ≡ none
unfolding find_unique delete
find_unique-delete k [] = refl
find_unique-delete k (r ∷ rs) = ground (arith, find_unique-delete k rs)

-- A row is of one key.
matches_one : (k j : Key) (r : IdempotencyRecord) → k ≢ j → matches k r ≡ true → matches j r ≡ false
matches_one k j r ne h = elim (Bool-cases (matches j r)) [
  | inl e ↦ absurd (ne (sym (matches→≡ k r h) ∙ matches→≡ j r e))
  | inr e ↦ e
]

pub find_unique-delete_ne :
    (k j : Key) (rs : Records) → k ≢ j → find_unique j (delete k rs) ≡ find_unique j rs
unfolding find_unique delete
find_unique-delete_ne k j [] ne = refl
find_unique-delete_ne k j (r ∷ rs) ne =
    ground (arith, matches_one k j r ne, find_unique-delete_ne k j rs ne)

pub find_unique-update :
    (k : Key) (f : IdempotencyRecord → IdempotencyRecord) (rs : Records) {r : IdempotencyRecord}
    → ((x : IdempotencyRecord) → key_of (f x) ≡ key_of x)
    → find_unique k rs ≡ some r
    → find_unique k (update k f rs) ≡ some (f r)
unfolding find_unique update
find_unique-update k f [] same h = cc
find_unique-update k f (x ∷ rs) {r} same h = elim (Bool-cases (matches k x)) [
  | inl e ↦ ground (arith, ≡→matches k (f x) (same x ∙ matches→≡ k x e))
  | inr e ↦ ground (arith, find_unique-update k f rs {r = r} same)
]

pub find_unique-update_none :
    (k : Key) (f : IdempotencyRecord → IdempotencyRecord) (rs : Records)
    → find_unique k rs ≡ none
    → update k f rs ≡ rs
unfolding find_unique update
find_unique-update_none k f [] h = refl
find_unique-update_none k f (x ∷ rs) h = ground (arith, find_unique-update_none k f rs)

pub find_unique-update_ne :
    (k j : Key) (f : IdempotencyRecord → IdempotencyRecord) (rs : Records)
    → ((x : IdempotencyRecord) → key_of (f x) ≡ key_of x)
    → k ≢ j
    → find_unique j (update k f rs) ≡ find_unique j rs
unfolding find_unique update
find_unique-update_ne k j f [] same ne = refl
find_unique-update_ne k j f (x ∷ rs) same ne = elim (Bool-cases (matches k x)) [
  | inl e ↦ ground (
    arith,
    matches_one k j x ne e,
    matches_one k j (f x) ne (≡→matches k (f x) (same x ∙ matches→≡ k x e)),
  )
  | inr e ↦ ground (arith, find_unique-update_ne k j f rs same ne)
]
