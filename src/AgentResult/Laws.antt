-- ===== src/AgentResult/Laws.antt =====
-- Capping a text for an agent: it stays short, and no surrogate pair is torn apart.
use besterp.Prelude.{
  leb→le, ℕ, zero, suc, ◌+◌, ◌≤◌, ◌≡◌, refl, sym, subst, inl, inr, true, false, [], ◌∷◌, ◌++◌,
  arith, leb, Bool-cases, length,
}
use besterp.Text.{Text, lit}
use besterp.Support.{Support}
use besterp.Limits.{max_error_message_length}
use besterp.Surrogates.{is_high_surrogate, is_low_surrogate, normalize_unpaired_surrogates}
use besterp.Surrogates.Laws.{IsUtf16, done, plain, pair, chars, normalize-IsUtf16}
use besterp.AgentResult.{cap_agent_error_text, cap_safe, take_chars, truncate_at_character_boundary}

take_chars-plain :
    (n c : ℕ) (s : Text)
    → is_high_surrogate c ≡ false
    → take_chars (suc n) (c ∷ s) ≡ c ∷ take_chars n s
unfolding take_chars
take_chars-plain zero c [] h = refl
take_chars-plain (suc n) c [] h = refl
take_chars-plain n c (d ∷ s) h = ground arith

take_chars-pair :
    (n c d : ℕ) (s : Text)
    → is_high_surrogate c ≡ true
    → is_low_surrogate d ≡ true
    → take_chars (suc n) (c ∷ d ∷ s) ≡ c ∷ d ∷ take_chars n s
unfolding take_chars
take_chars-pair n c d s h l = ground arith

-- Of a well-formed text `take_chars` keeps a well-formed one, of no more characters than asked for.
take_chars-IsUtf16 : (n : ℕ) {s : Text} → IsUtf16 s → (u : IsUtf16 (take_chars n s)) × (chars u ≤ n)
unfolding chars take_chars
take_chars-IsUtf16 zero u = (done, omega arith)
take_chars-IsUtf16 (suc n) done = (done, omega arith)
take_chars-IsUtf16 (suc n) (plain {c = c} {s = s} h l u) =
    let (v, le) = take_chars-IsUtf16 n u in
    subst (λ x. (u : IsUtf16 x) × (chars u ≤ suc n)) (sym (take_chars-plain n c s h))
      (plain h l v, omega arith)
take_chars-IsUtf16 (suc n) (pair {c = c} {d = d} {s = s} h l u) =
    let (v, le) = take_chars-IsUtf16 n u in
    subst (λ x. (u : IsUtf16 x) × (chars u ≤ suc n)) (sym (take_chars-pair n c d s h l))
      (pair h l v, omega arith)

chars-le : {s : Text} (u : IsUtf16 s) → chars u ≤ length s
unfolding chars
chars-le done = omega arith
chars-le (plain h l u) = omega (arith, chars-le u)
chars-le (pair h l u) = omega (arith, chars-le u)

-- A well-formed UTF-16 text that is cut at n stays well-formed and has at most n characters.
truncate-IsUtf16 :
    (n : ℕ) {s : Text}
    → IsUtf16 s
    → (u : IsUtf16 (truncate_at_character_boundary s n)) × (chars u ≤ n)
unfolding truncate_at_character_boundary
truncate-IsUtf16 n {s} u = elim (Bool-cases (leb (length s) n)) [
  | inl short ↦ rw short (u, omega (arith, chars-le u, leb→le (length s) n short))
  | inr long ↦ rw long (take_chars-IsUtf16 n u)
]

chars-append :
    (s t : Text) (u : IsUtf16 s) (v : IsUtf16 t)
    → (x : IsUtf16 (s ++ t)) × (chars x ≡ chars u + chars v)
unfolding chars
chars-append s t done v = (v, omega arith)
chars-append s t (plain {s = r} h l u) v =
    let (x, e) = chars-append r t u v in (plain h l x, omega (arith, e))
chars-append s t (pair {s = r} h l u) v =
    let (x, e) = chars-append r t u v in (pair h l x, omega (arith, e))

cap_safe-IsUtf16 :
    (lib : Support) (safe : Text)
    → IsUtf16 safe
    → (u : IsUtf16 (cap_safe lib safe)) × (chars u ≤ max_error_message_length + 1)
unfolding cap_safe chars
cap_safe-IsUtf16 lib safe u = elim (Bool-cases (leb (length safe) max_error_message_length)) [
  | inl short ↦
      rw short (u, omega (arith, chars-le u, leb→le (length safe) max_error_message_length short))
  | inr long ↦
      let (v, le) = truncate-IsUtf16 max_error_message_length u in
      let (x, e) =
        chars-append (truncate_at_character_boundary safe max_error_message_length) (lit "…") v
          (plain refl refl done) in
      rw long (x, omega (arith, le, e))
]

-- Every capped error text is well-formed UTF-16 of at most 2001 characters: the 2000 of the limit
-- and the ellipsis.
pub cap_agent_error_text-IsUtf16 :
    (lib : Support) (value : Text)
    → (u : IsUtf16 (cap_agent_error_text lib value)) × (chars u ≤ max_error_message_length + 1)
unfolding cap_agent_error_text
cap_agent_error_text-IsUtf16 lib value =
    cap_safe-IsUtf16 lib (normalize_unpaired_surrogates value) (normalize-IsUtf16 value)
