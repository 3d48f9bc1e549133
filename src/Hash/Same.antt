-- ===== src/Hash/Same.antt =====
-- Values that differ in the order of their fields, and their hash.
use besterp.Prelude.{ℕ, suc, ◌≡◌, refl, ap, ◌∙◌, ◌≢◌, Option, none, some, arith}
use besterp.Text.{Text}
use besterp.Value.{Value, array, object, Items, nil, cons, Fields, end, field}
use besterp.Support.{Support, Attempt, returns, ◌>>=◌}
use besterp.Json.{Json}
use besterp.Hash.{
  Sorting, guarded, insert_key, sort_each, sort_keys_deep, sort_items, sorted_keys, plus, counted,
  count_keys, count_items, count_fields, hash_counted, hash_input,
}
use besterp.Hash.Order.{insert_key_comm}

-- One value with the fields of its objects in another order, at any depth.
mutual
  pub data SameValue : Value → Value → Type 0 where
    same : {v : Value} → SameValue v v
    arrays : {vs us : Items} → SameItems vs us → SameValue (array vs) (array us)
    objects : {fs gs : Fields} → SameFields fs gs → SameValue (object fs) (object gs)

  pub data SameItems : Items → Items → Type 0 where
    none_more : SameItems nil nil
    item :
        {v u : Value} {vs us : Items}
        → SameValue v u
        → SameItems vs us
        → SameItems (cons v vs) (cons u us)

  pub data SameFields : Fields → Fields → Type 0 where
    no_fields : SameFields end end
    kept :
        {k : Text} {v u : Value} {fs gs : Fields}
        → SameValue v u
        → SameFields fs gs
        → SameFields (field k v fs) (field k u gs)
    swapped :
        {k j : Text} {v u : Value} {fs : Fields}
        → k ≢ j
        → SameFields (field k v (field j u fs)) (field j u (field k v fs))
    after : {fs gs hs : Fields} → SameFields fs gs → SameFields gs hs → SameFields fs hs

plus_swap :
    (a b c : Option ℕ)
    → plus (some 1) (plus a (plus (some 1) (plus b c)))
      ≡ plus (some 1) (plus b (plus (some 1) (plus a c)))
plus_swap none none c = refl
plus_swap none (some b) none = refl
plus_swap none (some b) (some c) = refl
plus_swap (some a) none none = refl
plus_swap (some a) none (some c) = refl
plus_swap (some a) (some b) none = refl
plus_swap (some a) (some b) (some c) = ap some (omega arith)

mutual
  unfolding count_keys

  count_value-same : {v u : Value} → SameValue v u → (d : ℕ) → count_keys d v ≡ count_keys d u
  count_value-same same d = refl
  count_value-same (arrays h) d = ap (counted d) (count_items-same h (suc d))
  count_value-same (objects h) d = ap (counted d) (count_fields-same h (suc d))

  count_items-same :
      {vs us : Items} → SameItems vs us → (d : ℕ) → count_items d vs ≡ count_items d us
  count_items-same none_more d = refl
  count_items-same (item {u = u} {vs = vs} h hs) d =
      ap (λ n. plus (some 1) (plus n (count_items d vs))) (count_value-same h d)
      ∙ ap (λ n. plus (some 1) (plus (count_keys d u) n)) (count_items-same hs d)

  count_fields-same :
      {fs gs : Fields} → SameFields fs gs → (d : ℕ) → count_fields d fs ≡ count_fields d gs
  count_fields-same no_fields d = refl
  count_fields-same (kept {u = u} {fs = fs} h hs) d =
      ap (λ n. plus (some 1) (plus n (count_fields d fs))) (count_value-same h d)
      ∙ ap (λ n. plus (some 1) (plus (count_keys d u) n)) (count_fields-same hs d)
  count_fields-same (swapped {v = v} {u = u} {fs = fs} n) d =
      plus_swap (count_keys d v) (count_keys d u) (count_fields d fs)
  count_fields-same (after h g) d = count_fields-same h d ∙ count_fields-same g d

-- An item, then those behind it.
abbrev both : Sorting → (ℕ → Attempt (Items × ℕ)) → ℕ → Attempt (Items × ℕ)
both s t bytes = s bytes >>= λ (u, spent). t spent >>= λ (us, total). returns (cons u us, total)

abbrev arrayed : (ℕ → Attempt (Items × ℕ)) → Sorting
arrayed s bytes = s bytes >>= λ (us, total). returns (array us, total)

mutual
  unfolding sort_keys_deep

  sort_value-same :
      {v u : Value} → SameValue v u → (d : ℕ) → sort_keys_deep d v ≡ sort_keys_deep d u
  sort_value-same same d = refl
  sort_value-same (arrays h) d = ap (λ s. guarded d (arrayed s)) (sort_items-same h (suc d))
  sort_value-same (objects h) d = ap (λ l. guarded d (sort_each l end)) (sorted_keys-same h (suc d))

  sort_items-same : {vs us : Items} → SameItems vs us → (d : ℕ) → sort_items d vs ≡ sort_items d us
  sort_items-same none_more d = refl
  sort_items-same (item {v = v} {u = u} {vs = vs} {us = us} h hs) d =
      ap (λ s. both s (sort_items d vs)) (sort_value-same h d)
      ∙ ap (both (sort_keys_deep d u)) (sort_items-same hs d)

  sorted_keys-same :
      {fs gs : Fields} → SameFields fs gs → (d : ℕ) → sorted_keys d fs ≡ sorted_keys d gs
  sorted_keys-same no_fields d = refl
  sorted_keys-same (kept {k = k} {u = u} {fs = fs} h hs) d =
      ap (λ s. insert_key k s (sorted_keys d fs)) (sort_value-same h d)
      ∙ ap (insert_key k (sort_keys_deep d u)) (sorted_keys-same hs d)
  sorted_keys-same (swapped {k = k} {j = j} {v = v} {u = u} {fs = fs} n) d =
      insert_key_comm k j (sort_keys_deep d v) (sort_keys_deep d u) (sorted_keys d fs) n
  sorted_keys-same (after h g) d = sorted_keys-same h d ∙ sorted_keys-same g d

module _ (lib : Support) (js : Json) where
  -- With the same time taken, two values of JSON that differ only in the order of the fields of
  -- their objects, at any depth, have the same hash, or are refused with the same error.
  pub hash_input-same :
      (elapsed : ℕ) (v u : Value)
      → SameValue v u
      → hash_input lib js elapsed v ≡ hash_input lib js elapsed u
  unfolding hash_input
  hash_input-same elapsed v u h =
      ap (λ n. hash_counted lib js elapsed n (sort_keys_deep 0 v 0)) (count_value-same h 0)
      ∙ ap (λ (s : Sorting). hash_counted lib js elapsed (count_keys 0 u) (s 0))
          (sort_value-same h 0)
