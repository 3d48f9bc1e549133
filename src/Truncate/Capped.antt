-- ===== src/Truncate/Capped.antt =====
-- The slice that `safeSliceUtf8` decodes, as a start of the text.
use besterp.Prelude.{
  ℕ, ◌+◌, ◌≤◌, ◌≡◌, refl, sym, ap, ◌∙◌, subst, ◌⊎◌, inl, inr, Bool, true, List, [], ◌∷◌, ◌++◌,
  arith, ltb, leb, if◌then◌else◌, length, take, all, length-take, length-append,
}
use besterp.Text.{Text, lit, decimal}
use besterp.Text.Laws.{all-append, decimal-all}
use besterp.Surrogates.Laws.{IsUtf16, done, plain, pair, normalize_iff}
use besterp.Utf8.{lead, trail, scalars, encode, decode}
use besterp.Utf8.Laws.{AreUnits, scalars-unit, scalars-append, decode-scalars}
use besterp.Truncate.{slice_end, safe_slice_utf8, truncation_note}
use besterp.Truncate.Slice.{slice_end-CutAt, slice_end_le, Slice, scalars-Slice}

pub encode-scalars : {s : Text} → IsUtf16 s → encode s ≡ scalars s
unfolding encode
encode-scalars {s} u = ap scalars ((normalize_iff s).1 u)

-- A well-formed text of so many bytes at most.
abbrev pub Fits : Text → ℕ → Type 0
Fits s n = IsUtf16 s × (length (scalars s) ≤ n)

-- A start of the text, or one without the byte order mark that it has.
abbrev pub IsStart : Text → Text → Type 0
IsStart s r = (p q : Text) × (s ≡ p ++ q) × ((r ≡ p) ⊎ (p ≡ 0xfeff ∷ r))

mark-Fits : {t : Text} (n : ℕ) → IsUtf16 (0xfeff ∷ t) → length (scalars (0xfeff ∷ t)) ≤ n → Fits t n
unfolding lead trail
mark-Fits {t} n (plain high low u) h = (u, omega (arith, h, ap length (scalars-unit 0xfeff t refl)))
mark-Fits n (pair high low u) h = cc

decoded-Fits :
    (p : Text) (n : ℕ)
    → IsUtf16 p
    → AreUnits p
    → length (scalars p) ≤ n
    → Fits (decode (scalars p)) n × ((decode (scalars p) ≡ p) ⊎ (p ≡ 0xfeff ∷ decode (scalars p)))
decoded-Fits p n u a h = elim (decode-scalars u a) [
  | inl e ↦ (subst (λ t. Fits t n) (sym e) (u, h), inl e)
  | inr (t, e, d) ↦ (
    subst (λ t. Fits t n) (sym d)
        (mark-Fits n (subst IsUtf16 e u) (subst (λ x. length (scalars x) ≤ n) e h)),
    inr (e ∙ ap (◌∷◌ 0xfeff) (sym d)),
  )
]

taken-Fits :
    (s : Text) (n k : ℕ) (bs : List ℕ)
    → k ≤ n
    → Slice s (take k bs)
    → Fits (decode (take k bs)) n × IsStart s (decode (take k bs))
unfolding Slice
taken-Fits s n k bs h (p, q, e, u, a, t) =
    subst (λ x. Fits (decode x) n × IsStart s (decode x)) (sym t)
      (let (fits, same) = decoded-Fits p n u a (omega (arith, h, length-take k bs, ap length t)) in
        (fits, (p, q, e, same)))

pub slice-Fits :
    (s : Text) (n : ℕ)
    → IsUtf16 s
    → AreUnits s
    → Fits (safe_slice_utf8 (scalars s) n) n × IsStart s (safe_slice_utf8 (scalars s) n)
unfolding safe_slice_utf8
slice-Fits s n u a =
    taken-Fits s n (slice_end limit bs) bs (omega (arith, slice_end_le limit bs, limit_le))
      (scalars-Slice u a (slice_end limit bs) (slice_end-CutAt limit bs))
  where
    bs : List ℕ
    bs = scalars s

    limit : ℕ
    limit = if leb n (length bs) then n else length bs

    limit_le : limit ≤ n
    limit_le = ground arith

append-IsUtf16 : {p q : Text} → IsUtf16 p → IsUtf16 q → IsUtf16 (p ++ q)
append-IsUtf16 done v = v
append-IsUtf16 (plain h l u) v = plain h l (append-IsUtf16 u v)
append-IsUtf16 (pair h l u) v = pair h l (append-IsUtf16 u v)

pub append-Fits :
    (p q : Text) (n : ℕ) → Fits p n → IsUtf16 q → Fits (p ++ q) (n + length (scalars q))
append-Fits p q n (u, h) v = (
  append-IsUtf16 u v,
  omega (arith, h, ap length (scalars-append u q), length-append (scalars p) (scalars q)),
)

below_surrogates : ℕ → Bool
below_surrogates c = ltb c 0xd800

below-IsUtf16 : (s : Text) → all below_surrogates s ≡ true → IsUtf16 s
unfolding below_surrogates
below-IsUtf16 [] h = done
below-IsUtf16 (c ∷ s) h =
    plain (ground (arith, h)) (ground (arith, h)) (below-IsUtf16 s (ground (arith, h)))

pub note-IsUtf16 : (n : ℕ) → IsUtf16 (truncation_note n)
unfolding below_surrogates
note-IsUtf16 n = below-IsUtf16 (truncation_note n) (
    all-append below_surrogates (decimal n) (lit " bytes]")
      (decimal-all below_surrogates n (λ d h. ground arith)) refl)
