-- ===== src/Hash/Order.antt =====
-- The order of keys.
use besterp.Prelude.{
  ℕ, ◌≡◌, refl, sym, ap, ◌≢◌, inl, inr, true, false, List, [], ◌∷◌, arith, ◌==◌, if◌then◌else◌,
  Bool-cases,
}
use besterp.Text.{Text}
use besterp.Hash.{Sorting, text_before, insert_key}

pub before_asymmetric : (s t : Text) → text_before s t ≡ true → text_before t s ≡ false
unfolding text_before
before_asymmetric s [] h = cc
before_asymmetric [] (b ∷ t) h = refl
before_asymmetric (a ∷ s) (b ∷ t) h = ground (arith, before_asymmetric s t)

cons_same : (a b : ℕ) (s t : Text) → a ≡ b → s ≡ t → ◌≡◌ {A = Text} (a ∷ s) (b ∷ t)
cons_same a b s t e q = cc

before_total_tail :
    (a b : ℕ) (s t : Text) → a ≡ b → text_before t s ≡ true → text_before (b ∷ t) (a ∷ s) ≡ true
unfolding text_before
before_total_tail a b s t e h = ground (arith, h)

pub before_total : (s t : Text) → s ≢ t → text_before s t ≡ false → text_before t s ≡ true
unfolding text_before
before_total [] [] n h = absurd (n refl)
before_total [] (b ∷ t) n h = cc
before_total (a ∷ s) [] n h = refl
before_total (a ∷ s) (b ∷ t) n h = elim (Bool-cases (a == b)) [
  | inl e ↦
      let same : a ≡ b = ground arith in
      before_total_tail a b s t same
        (before_total s t (λ q. n (cons_same a b s t same q)) (ground arith))
  | inr e ↦ ground (arith, h)
]

-- What does not come before the first of two comes before the second only if the first does.
pub before_between :
    (x j k : Text) → text_before x j ≡ false → text_before x k ≡ true → text_before j k ≡ true
unfolding text_before
before_between x j [] h g = cc
before_between x [] (c ∷ k) h g = refl
before_between [] (b ∷ j) (c ∷ k) h g = cc
before_between (a ∷ x) (b ∷ j) (c ∷ k) h g = ground (arith, before_between x j k)

sorted_pair :
    (k j : Text) (a b : Sorting) (l : List (Text × Sorting))
    → k ≢ j
    → (if text_before j k then (j, b) ∷ (k, a) ∷ l else (k, a) ∷ (j, b) ∷ l)
      ≡ (if text_before k j then (k, a) ∷ (j, b) ∷ l else (j, b) ∷ (k, a) ∷ l)
sorted_pair k j a b l n = elim (Bool-cases (text_before j k)) [
  | inl e ↦ rw (e, before_asymmetric j k e) refl
  | inr e ↦ rw (e, before_total j k (λ q. n (sym q)) e) refl
]

-- Two different keys may be inserted in either order.
pub insert_key_comm :
    (k j : Text) (a b : Sorting) (l : List (Text × Sorting))
    → k ≢ j
    → insert_key k a (insert_key j b l) ≡ insert_key j b (insert_key k a l)
unfolding insert_key
insert_key_comm k j a b [] n = sorted_pair k j a b [] n
insert_key_comm k j a b ((x, c) ∷ l) n = elim (Bool-cases (text_before x k)) [
  | inl xk ↦ elim (Bool-cases (text_before x j)) [
    | inl xj ↦ rw (xk, xj, xk) (ap (◌∷◌ (x, c)) (insert_key_comm k j a b l n))
    | inr xj ↦ rw (xj, xk, xj, before_between x j k xj xk) refl
  ]
  | inr xk ↦ elim (Bool-cases (text_before x j)) [
    | inl xj ↦ rw (xk, xj, xk, before_between x k j xk xj) refl
    | inr xj ↦ rw (xk, xj, xk) (sorted_pair k j a b ((x, c) ∷ l) n)
  ]
]
