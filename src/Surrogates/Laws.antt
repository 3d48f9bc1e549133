-- ===== src/Surrogates/Laws.antt =====
-- A normalized text is well-formed, and a well-formed one is left as it is.
use besterp.Prelude.{
  ℕ, suc, ◌≡◌, refl, ◌∙◌, subst, ◌↔◌, inl, inr, Bool, true, false, not, ◌||◌, [], ◌∷◌,
  if◌then◌else◌, Bool-cases,
}
use besterp.Text.{Text}
use besterp.Surrogates.{
  is_high_surrogate, is_low_surrogate, has_unpaired_surrogate, replaced,
  replace_unpaired_surrogates, normalize_unpaired_surrogates,
}

-- Well-formed UTF-16: every high surrogate is followed by a low one, and no low one stands alone.
pub data IsUtf16 : Text → Type 0 where
  done : IsUtf16 []
  plain :
      {c : ℕ} {s : Text}
      → is_high_surrogate c ≡ false
      → is_low_surrogate c ≡ false
      → IsUtf16 s
      → IsUtf16 (c ∷ s)
  pair :
      {c d : ℕ} {s : Text}
      → is_high_surrogate c ≡ true
      → is_low_surrogate d ≡ true
      → IsUtf16 s
      → IsUtf16 (c ∷ d ∷ s)

-- The number of characters of a well-formed text.
unfoldable pub chars : {s : Text} → IsUtf16 s → ℕ
chars done = 0
chars (plain h l u) = suc (chars u)
chars (pair h l u) = suc (chars u)

low-IsUtf16 :
    (c : ℕ) (s : Text)
    → is_high_surrogate c ≡ false
    → IsUtf16 s
    → IsUtf16 ((if is_low_surrogate c then 0xfffd else c) ∷ s)
low-IsUtf16 c s no_high u = elim (Bool-cases (is_low_surrogate c)) [
  | inl low ↦ rw low (plain refl refl u)
  | inr no_low ↦ rw no_low (plain no_high no_low u)
]

replaced-IsUtf16 : (c : ℕ) (s : Text) → IsUtf16 s → IsUtf16 (replaced c ∷ s)
unfolding replaced
replaced-IsUtf16 c s u = elim (Bool-cases (is_high_surrogate c)) [
  | inl high ↦ rw high (plain refl refl u)
  | inr no_high ↦ rw no_high (low-IsUtf16 c s no_high u)
]

replace-IsUtf16 : (s : Text) → IsUtf16 (replace_unpaired_surrogates s)
unfolding replace_unpaired_surrogates
replace-IsUtf16 [] = done
replace-IsUtf16 (c ∷ []) = replaced-IsUtf16 c [] done
replace-IsUtf16 (c ∷ d ∷ s) = elim (Bool-cases (is_high_surrogate c)) [
  | inr no_high ↦ rw no_high (low-IsUtf16 c _ no_high (replace-IsUtf16 (d ∷ s)))
  | inl high ↦ elim (Bool-cases (is_low_surrogate d)) [
    | inl low ↦ rw (high, low) (pair high low (replace-IsUtf16 s))
    | inr no_low ↦ rw (high, no_low) (plain refl refl (replace-IsUtf16 (d ∷ s)))
  ]
]

has_unpaired-plain :
    (c : ℕ) (s : Text)
    → is_high_surrogate c ≡ false
    → is_low_surrogate c ≡ false
    → has_unpaired_surrogate (c ∷ s) ≡ has_unpaired_surrogate s
unfolding has_unpaired_surrogate
has_unpaired-plain c [] h l = rw (h, l) refl
has_unpaired-plain c (d ∷ s) h l = rw (h, l) refl

has_unpaired-pair :
    (c d : ℕ) (s : Text)
    → is_high_surrogate c ≡ true
    → is_low_surrogate d ≡ true
    → has_unpaired_surrogate (c ∷ d ∷ s) ≡ has_unpaired_surrogate s
unfolding has_unpaired_surrogate
has_unpaired-pair c d s h l = rw (h, l) refl

IsUtf16-paired : {s : Text} → IsUtf16 s → has_unpaired_surrogate s ≡ false
unfolding has_unpaired_surrogate
IsUtf16-paired done = refl
IsUtf16-paired (plain {c = c} {s = s} h l u) = has_unpaired-plain c s h l ∙ IsUtf16-paired u
IsUtf16-paired (pair {c = c} {d = d} {s = s} h l u) = has_unpaired-pair c d s h l ∙ IsUtf16-paired u

neither : (a b : Bool) → (a || b) ≡ false → (a ≡ false) × (b ≡ false)
neither true b h = cc
neither false b h = (refl, h)

true-not : (b : Bool) → not b ≡ false → b ≡ true
true-not true h = refl
true-not false h = cc

paired-IsUtf16 : (s : Text) → has_unpaired_surrogate s ≡ false → IsUtf16 s
unfolding has_unpaired_surrogate
paired-IsUtf16 [] h = done
paired-IsUtf16 (c ∷ []) h =
    let (no_high, no_low) = neither (is_high_surrogate c) (is_low_surrogate c) h in
    plain no_high no_low done
paired-IsUtf16 (c ∷ d ∷ s) h = elim (Bool-cases (is_high_surrogate c)) [
  | inl high ↦
      let (low, rest) =
        neither (not (is_low_surrogate d)) (has_unpaired_surrogate s) (rw high at h) in
      pair high (true-not (is_low_surrogate d) low) (paired-IsUtf16 s rest)
  | inr no_high ↦
      let (no_low, rest) =
        neither (is_low_surrogate c) (has_unpaired_surrogate (d ∷ s)) (rw no_high at h) in
      plain no_high no_low (paired-IsUtf16 (d ∷ s) rest)
]

normalized-cases :
    (s : Text) (b : Bool)
    → has_unpaired_surrogate s ≡ b
    → IsUtf16 (if not b then s else replace_unpaired_surrogates s)
normalized-cases s true h = replace-IsUtf16 s
normalized-cases s false h = paired-IsUtf16 s h

-- A normalized text is well-formed UTF-16: every high surrogate is followed by a low one, and no
-- low one stands alone.
pub normalize-IsUtf16 : (s : Text) → IsUtf16 (normalize_unpaired_surrogates s)
unfolding normalize_unpaired_surrogates
normalize-IsUtf16 s = normalized-cases s (has_unpaired_surrogate s) refl

-- Normalization leaves a text as it is exactly if the text is well-formed UTF-16.
pub normalize_iff : (s : Text) → (normalize_unpaired_surrogates s ≡ s) ↔ IsUtf16 s
unfolding normalize_unpaired_surrogates
normalize_iff s = (λ e. subst IsUtf16 e (normalize-IsUtf16 s), λ u. rw (IsUtf16-paired u) refl)
