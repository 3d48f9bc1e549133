-- ===== src/Hash.antt =====
-- `hashInput` of packages/shared/src/crypto.ts, for the values of JSON: the keys are counted, the value is
-- brought into its canonical form within a budget of bytes, and its JSON is hashed. A value is not within
-- itself. The time that it takes is an argument, in whole
-- milliseconds.
pub mod Order
pub mod Same
use besterp.Prelude.{
  ℕ, suc, ◌+◌, ◌-◌, ◌*◌, ◌%◌, ◌^◌, Bool, true, false, not, ◌&&◌, ◌||◌, Option, none, some, List, [],
  ◌∷◌, ◌++◌, ltb, ◌==◌, if◌then◌else◌, length,
}
use besterp.Text.{Text, lit, between, decimal}
use besterp.Value.{
  Value, undefined, null, boolean, number, string, array, object, Items, nil, cons, Fields, end,
  field,
}
use besterp.Run.{Thrown}
use besterp.Support.{Support, Attempt, returns, fails, ◌>>=◌}
use besterp.Limits.{max_nesting_depth}
use besterp.Errors.{field_context, invalid_type_value}
use besterp.Utf8.{encode}
use besterp.Json.{Json, stringify}

abbrev pub max_hash_keys : ℕ
max_hash_keys = 10_000

abbrev pub max_hash_total_bytes : ℕ
max_hash_total_bytes = 2_000_000

abbrev pub max_hash_string_bytes : ℕ
max_hash_string_bytes = 100_000

abbrev pub budget_ms : ℕ
budget_ms = 50

abbrev refusal : Text → List (Text × Value) → Thrown
refusal message more = invalid_type_value message [] (field_context (lit "input") more)

-- A context reports a number by its text here.
abbrev shown : ℕ → Value
shown n = string (decimal n)

unfoldable pub too_deep : Thrown
too_deep =
    refusal
      (lit
        "Input exceeds maximum nesting depth of 100. Refusing to hash to prevent stack overflow.")
      ((lit "depth", shown 101) ∷ (lit "maxDepth", shown max_nesting_depth) ∷ [])

unfoldable pub too_large : Thrown
too_large =
    refusal
      (lit
        "Input exceeds aggregate serialized size limit of 2000000 bytes. Refusing to hash to prevent denial of service.")
      ((lit "limit", shown max_hash_total_bytes) ∷ [])

unfoldable pub long_string : Thrown
long_string =
    refusal
      (lit
        "Input contains a string longer than 100000 bytes. Refusing to hash to prevent denial of service.")
      ((lit "limit", shown max_hash_string_bytes) ∷ [])

unfoldable pub too_many_keys : ℕ → Thrown
too_many_keys n =
    refusal
      (lit "Input has too many keys ("
        ++ decimal n
        ++ lit ", max 10000). Refusing to hash to prevent DoS.")
      ((lit "keyCount", shown n) ∷ (lit "maxKeys", shown max_hash_keys) ∷ [])

unfoldable pub too_slow : ℕ → Thrown
too_slow elapsed =
    refusal
      (lit "Hashing exceeded the CPU-time budget of 50ms ("
        ++ decimal elapsed
        ++ lit ".0ms). Refusing to hash to prevent denial of service.")
      ((lit "elapsedMs", shown elapsed) ∷ (lit "budgetMs", shown budget_ms) ∷ [])

-- `budget.bytes += size`.
unfoldable pub charge : ℕ → ℕ → Attempt ℕ
unfolding too_large
charge size bytes =
    if ltb max_hash_total_bytes (bytes + size) then fails too_large else returns (bytes + size)

unfoldable pub check_string_bounds : Text → ℕ → Attempt ℕ
unfolding charge long_string
check_string_bounds s bytes = charge (length (encode s)) bytes >>= λ total.
    if ltb max_hash_string_bytes (length (encode s)) then fails long_string else returns total

unfoldable pub charge_key_bytes : Text → ℕ → Attempt ℕ
unfolding charge
charge_key_bytes k bytes = charge (length (encode k) + 2) bytes

-- What brings a value into its canonical form, with the bytes that were charged before and after.
abbrev pub Sorting : Type 0
Sorting = ℕ → Attempt (Value × ℕ)

-- The order of `sort()`, by code units.
unfoldable pub text_before : Text → Text → Bool
text_before s [] = false
text_before [] (b ∷ t) = true
text_before (a ∷ s) (b ∷ t) = ltb a b || a == b && text_before s t

unfoldable pub insert_key : Text → Sorting → List (Text × Sorting) → List (Text × Sorting)
unfolding text_before
insert_key k a [] = (k, a) ∷ []
insert_key k a ((j, b) ∷ l) =
    let rest = insert_key k a l in if text_before j k then (j, b) ∷ rest else (k, a) ∷ (j, b) ∷ l

-- The number of a key that is an array index.
index_from : ℕ → Text → Option ℕ
index_from n [] = if ltb n 4294967295 then some n else none
index_from n (c ∷ s) =
    let rest = index_from (n * 10 + (c - b'0')) s in if between b'0' b'9' c then rest else none

unfoldable pub array_index : Text → Option ℕ
unfolding index_from
array_index [] = none
array_index (c ∷ s) = if c == b'0' && not (length s == 0) then none else index_from 0 (c ∷ s)

-- An object has its indices first, in their order, and then the other keys as they came.
unfoldable pub own_before : Text → Text → Bool
unfolding array_index
own_before j k = elim (array_index k) [
  | none ↦ elim (array_index j) [ none ↦ false | some m ↦ true ]
  | some n ↦ elim (array_index j) [ none ↦ false | some m ↦ ltb m n ]
]

unfoldable pub put : Text → Value → Fields → Fields
unfolding own_before
put k v end = field k v end
put k v (field j u fs) =
    let rest = put k v fs in if own_before k j then field k v (field j u fs) else field j u rest

-- The sorted keys in turn: a key is charged, then its value.
unfoldable pub sort_each : List (Text × Sorting) → Fields → ℕ → Attempt (Value × ℕ)
unfolding charge_key_bytes put
sort_each [] out bytes = returns (object out, bytes)
sort_each ((k, a) ∷ l) out bytes = charge_key_bytes k bytes >>= λ charged.
    a charged >>= λ (v, spent). sort_each l (put k v out) spent

-- Nothing is sorted below the depth.
abbrev pub guarded : ℕ → Sorting → Sorting
guarded depth a = if ltb max_nesting_depth depth then (λ bytes. fails too_deep) else a

abbrev is_finite : ℕ → Bool
is_finite n = ltb (n % 2 ^ 63) 0x7ff0000000000000

unfoldable mutual
  unfolding check_string_bounds insert_key sort_each too_deep

  pub sort_keys_deep : ℕ → Value → Sorting
  sort_keys_deep depth undefined = guarded depth (λ bytes. returns (null, bytes))
  sort_keys_deep depth null = guarded depth (λ bytes. returns (null, bytes))
  sort_keys_deep depth (boolean b) = guarded depth (λ bytes. returns (boolean b, bytes))
  sort_keys_deep depth (number n) =
      guarded depth (λ bytes. returns ((if is_finite n then number n else null), bytes))
  sort_keys_deep depth (string s) =
      guarded depth (λ bytes. check_string_bounds s bytes >>= λ total. returns (string s, total))
  sort_keys_deep depth (array vs) =
      guarded depth
        (λ bytes. sort_items (suc depth) vs bytes >>= λ (us, total). returns (array us, total))
  sort_keys_deep depth (object fs) =
      guarded depth (λ bytes. sort_each (sorted_keys (suc depth) fs) end bytes)

  pub sort_items : ℕ → Items → ℕ → Attempt (Items × ℕ)
  sort_items depth nil bytes = returns (nil, bytes)
  sort_items depth (cons v vs) bytes = sort_keys_deep depth v bytes >>= λ (u, spent).
      sort_items depth vs spent >>= λ (us, total). returns (cons u us, total)

  pub sorted_keys : ℕ → Fields → List (Text × Sorting)
  sorted_keys depth end = []
  sorted_keys depth (field k v fs) = insert_key k (sort_keys_deep depth v) (sorted_keys depth fs)

-- Of two counts, either of which may have met the depth.
abbrev pub plus : Option ℕ → Option ℕ → Option ℕ
plus none n = none
plus (some m) none = none
plus (some m) (some n) = some (m + n)

abbrev pub counted : ℕ → Option ℕ → Option ℕ
counted depth n = if ltb max_nesting_depth depth then none else n

unfoldable mutual
  pub count_keys : ℕ → Value → Option ℕ
  count_keys depth (array vs) = counted depth (count_items (suc depth) vs)
  count_keys depth (object fs) = counted depth (count_fields (suc depth) fs)
  count_keys depth undefined = some 0
  count_keys depth null = some 0
  count_keys depth (boolean b) = some 0
  count_keys depth (number n) = some 0
  count_keys depth (string s) = some 0

  pub count_items : ℕ → Items → Option ℕ
  count_items depth nil = some 0
  count_items depth (cons v vs) = plus (some 1) (plus (count_keys depth v) (count_items depth vs))

  pub count_fields : ℕ → Fields → Option ℕ
  count_fields depth end = some 0
  count_fields depth (field k v fs) =
      plus (some 1) (plus (count_keys depth v) (count_fields depth fs))

module _ (lib : Support) (js : Json) where
  unfoldable pub digest : ℕ → Value × ℕ → Attempt Text
  unfolding too_slow
  digest elapsed (canonical, bytes) =
      let serialized = stringify js.number_text canonical in
      if ltb budget_ms elapsed
      then fails (too_slow elapsed)
      else returns (lib.sha256_hex serialized)

  unfoldable pub hash_counted : ℕ → Option ℕ → Attempt (Value × ℕ) → Attempt Text
  unfolding digest too_many_keys too_deep
  hash_counted elapsed none sorting = fails too_deep
  hash_counted elapsed (some n) sorting =
      if ltb max_hash_keys n then fails (too_many_keys n) else sorting >>= digest elapsed

  unfoldable pub hash_input : ℕ → Value → Attempt Text
  unfolding hash_counted count_keys sort_keys_deep
  hash_input elapsed v = hash_counted elapsed (count_keys 0 v) (sort_keys_deep 0 v 0)
