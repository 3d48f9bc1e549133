-- ===== src/Text/Laws.antt =====
-- Equality of texts, and trimming.
use mathlib.Core.List.{reverse, reverse-cons, reverse-reverse}
use besterp.Prelude.{
  ℕ, Bool, true, not, [], ◌∷◌, ◌++◌, ◌≡◌, refl, ◌↔◌, arith, all, suc, zero, ◌+◌, ◌%◌, ◌/◌, ◌<◌, ltb,
  Bool-cases, inl, inr,
}
use besterp.Text.{Text, is_space, text_eq, trim_start, trim, decimal_from, decimal}

pub text_eq_refl : (s : Text) → text_eq s s ≡ true
unfolding text_eq
text_eq_refl [] = refl
text_eq_refl (a ∷ s) = ground (arith, text_eq_refl s)

pub text_eq→≡ : (s t : Text) → text_eq s t ≡ true → s ≡ t
unfolding text_eq
text_eq→≡ [] [] h = refl
text_eq→≡ [] (b ∷ t) h = cc
text_eq→≡ (a ∷ s) [] h = cc
text_eq→≡ (a ∷ s) (b ∷ t) h = ground (arith, text_eq→≡ s t)

pub text_eq_iff : (s t : Text) → (text_eq s t ≡ true) ↔ (s ≡ t)
text_eq_iff s t = (text_eq→≡ s t, λ e. rw e (text_eq_refl t))

pub trim_start_idempotent : (s : Text) → trim_start (trim_start s) ≡ trim_start s
unfolding trim_start
trim_start_idempotent [] = refl
trim_start_idempotent (c ∷ s) = ground (arith, trim_start_idempotent s)

pub all-append :
    (p : ℕ → Bool) (s t : Text) → all p s ≡ true → all p t ≡ true → all p (s ++ t) ≡ true
all-append p [] t h k = k
all-append p (c ∷ s) t h k = ground (arith, all-append p s t)

all-reverse : (p : ℕ → Bool) (s : Text) → all p s ≡ true → all p (reverse s) ≡ true
all-reverse p [] h = refl
all-reverse p (c ∷ s) h =
    rw (reverse-cons c s)
      (all-append p (reverse s) (c ∷ []) (all-reverse p s (ground arith)) (ground arith))

-- No space.
abbrev pub is_solid : ℕ → Bool
is_solid c = not (is_space c)

trim_start_solid : (s : Text) → all is_solid s ≡ true → trim_start s ≡ s
unfolding trim_start
trim_start_solid [] h = refl
trim_start_solid (c ∷ s) h = ground arith

-- A text with no space is trimmed to itself.
pub trim_solid : (s : Text) → all is_solid s ≡ true → trim s ≡ s
unfolding trim
trim_solid s h =
    rw (trim_start_solid s h)
      (rw (trim_start_solid (reverse s) (all-reverse is_solid s h)) (reverse-reverse s))

all-cons : (p : ℕ → Bool) (c : ℕ) (s : Text) → p c ≡ true → all p s ≡ true → all p (c ∷ s) ≡ true
all-cons p c s h k = rw (h, k) refl

decimal_from-all :
    (p : ℕ → Bool) (fuel n : ℕ) (out : Text)
    → ((d : ℕ) → d < 10 → p (b'0' + d) ≡ true)
    → all p out ≡ true
    → all p (decimal_from fuel n out) ≡ true
unfolding decimal_from
decimal_from-all p zero n out digits h = h
decimal_from-all p (suc fuel) n out digits h = elim (Bool-cases (ltb n 10)) [
  | inl last ↦ rw last (all-cons p (b'0' + n % 10) out (digits (n % 10) (omega arith)) h)
  | inr more ↦ rw more (
      decimal_from-all p fuel (n / 10) ((b'0' + n % 10) ∷ out) digits
        (all-cons p (b'0' + n % 10) out (digits (n % 10) (omega arith)) h))
]

-- A number is written in digits.
pub decimal-all :
    (p : ℕ → Bool) (n : ℕ) → ((d : ℕ) → d < 10 → p (b'0' + d) ≡ true) → all p (decimal n) ≡ true
unfolding decimal
decimal-all p n digits = decimal_from-all p (suc n) n [] digits refl
