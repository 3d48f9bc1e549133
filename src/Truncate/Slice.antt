-- ===== src/Truncate/Slice.antt =====
-- Where `safeSliceUtf8` cuts the bytes of a text.
use besterp.Prelude.{
  ℕ, zero, suc, ◌+◌, ◌/◌, ◌%◌, ◌≤◌, ◌<◌, ◌≡◌, refl, sym, ap, ◌∙◌, subst, inl, inr, Bool, true, ◌&&◌,
  List, [], ◌∷◌, ◌++◌, arith, ltb, Bool-cases, take, All,
}
use besterp.Text.{Text}
use besterp.Surrogates.Laws.{IsUtf16, done, plain, pair}
use besterp.Utf8.{continuation, lead, trail, pair_code, pair_lead, pair_trail, scalars}
use besterp.Utf8.Laws.{AreUnits, scalars-unit, scalars-pair}
use besterp.Truncate.{byte_at, is_continuation, ends_at, slice_end}

-- The start of the bytes, or a place where a character may start.
abbrev pub CutAt : ℕ → List ℕ → Type 0
CutAt zero bs = Unit
CutAt (suc k) bs = ends_at (suc k) bs ≡ true

pub slice_end-CutAt : (k : ℕ) (bs : List ℕ) → CutAt (slice_end k bs) bs
unfolding slice_end
slice_end-CutAt zero bs = tt
slice_end-CutAt (suc k) bs = elim (Bool-cases (ends_at (suc k) bs)) [
  | inl here ↦ rw here here
  | inr within ↦ rw within (slice_end-CutAt k bs)
]

pub slice_end_le : (k : ℕ) (bs : List ℕ) → slice_end k bs ≤ k
unfolding slice_end
slice_end_le zero bs = omega arith
slice_end_le (suc k) bs = ground (arith, slice_end_le k bs)

masked : ℕ → Bool
masked zero = true
masked (suc n) = is_continuation (0x80 + n) && masked n

masked_sound : (n y : ℕ) → masked n ≡ true → y < n → is_continuation (0x80 + y) ≡ true
unfolding masked
masked_sound zero y h lt = absurd (omega arith)
masked_sound (suc n) y h lt = ground (arith, masked_sound n y)

all_masked : masked 64 ≡ true
unfolding masked
all_masked = refl

continuation_lem : (n : ℕ) → is_continuation (continuation n) ≡ true
continuation_lem n = masked_sound 64 (n % 64) all_masked (omega arith)

abbrev AreContinuations : List ℕ → Type 0
AreContinuations = All (λ b. is_continuation b ≡ true)

trail-AreContinuations : (c : ℕ) → AreContinuations (trail c)
unfolding trail
trail-AreContinuations c = elim (Bool-cases (ltb c 0x80)) [
  | inl one ↦ rw one tt
  | inr more ↦ elim (Bool-cases (ltb c 0x800)) [
    | inl two ↦ rw (more, two) (continuation_lem c, tt)
    | inr three ↦ rw (more, three) (continuation_lem (c / 64), (continuation_lem c, tt))
  ]
]

-- A cut behind the first byte of a character is behind all its bytes.
cut_char :
    (x : ℕ) (cs rest : List ℕ) (k : ℕ)
    → AreContinuations cs
    → ends_at (suc k) (x ∷ cs ++ rest) ≡ true
    → (k' : ℕ) × CutAt k' rest × (take (suc k) (x ∷ cs ++ rest) ≡ x ∷ cs ++ take k' rest)
unfolding ends_at byte_at
cut_char x [] rest zero a h = (zero, tt, refl)
cut_char x [] rest (suc k) a h = (suc k, h, refl)
cut_char x (c ∷ cs) rest zero (e, a) h = cc (rw e at h)
cut_char x (c ∷ cs) rest (suc k) (e, a) h =
    let (k', cut, same) = cut_char c cs rest k a h in (k', cut, ap (◌∷◌ x) same)

-- The text whose bytes the slice is, and the rest.
unfoldable pub Slice : Text → List ℕ → Type 0
Slice s bs = (p q : Text) × (s ≡ p ++ q) × IsUtf16 p × AreUnits p × (bs ≡ scalars p)

char-Slice :
    (x : ℕ) (cs rest pre : List ℕ) (s : Text) (k : ℕ)
    → AreContinuations cs
    → ends_at (suc k) (x ∷ cs ++ rest) ≡ true
    → ((k' : ℕ) → CutAt k' rest → Slice s (take k' rest))
    → ((p q : Text) → s ≡ p ++ q → IsUtf16 p → AreUnits p → Slice (pre ++ s) (x ∷ cs ++ scalars p))
    → Slice (pre ++ s) (take (suc k) (x ∷ cs ++ rest))
unfolding Slice
char-Slice x cs rest pre s k a h slices extend =
    let (k', cut, same) = cut_char x cs rest k a h in
    let (p, q, e, u, b, t) = slices k' cut in
    subst (λ bs. Slice (pre ++ s) bs) (sym (same ∙ ap (λ r. x ∷ cs ++ r) t)) (extend p q e u b)

-- A cut of the bytes of a text leaves the bytes of its start.
pub scalars-Slice :
    {s : Text}
    → IsUtf16 s
    → AreUnits s
    → (k : ℕ) → CutAt k (scalars s)
    → Slice s (take k (scalars s))
unfolding Slice scalars
scalars-Slice {s} u a zero h = ([], s, refl, done, tt, refl)
scalars-Slice done a (suc k) h = ([], [], refl, done, tt, refl)
scalars-Slice (plain {c = c} {s = s} high low u) a (suc k) h =
    subst (λ bs. Slice (c ∷ s) (take (suc k) bs)) (sym (scalars-unit c s high))
      (char-Slice (lead c) (trail c) (scalars s) (c ∷ []) s k (trail-AreContinuations c)
        (subst (λ bs. ends_at (suc k) bs ≡ true) (scalars-unit c s high) h) (scalars-Slice u a.1)
        (λ p q e v d.
          (c ∷ p, q, ap (◌∷◌ c) e, plain high low v, (a.0, d), sym (scalars-unit c p high))))
scalars-Slice (pair {c = c} {d = d} {s = s} high low u) a (suc k) h =
    subst (λ bs. Slice (c ∷ d ∷ s) (take (suc k) bs)) (sym (scalars-pair c d s high))
      (char-Slice (pair_lead (pair_code c d)) (pair_trail (pair_code c d)) (scalars s) (c ∷ d ∷ [])
        s k
        (
          continuation_lem (pair_code c d / 4096),
          (continuation_lem (pair_code c d / 64), (continuation_lem (pair_code c d), tt)),
        )
        (subst (λ bs. ends_at (suc k) bs ≡ true) (scalars-pair c d s high) h)
        (scalars-Slice u a.1.1)
        (λ p q e v r. (
          c ∷ d ∷ p,
          q,
          ap (λ t. c ∷ d ∷ t) e,
          pair high low v,
          (a.0, (a.1.0, r)),
          sym (scalars-pair c d p high),
        )))
