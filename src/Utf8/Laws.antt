-- ===== src/Utf8/Laws.antt =====
-- The decoder on what the encoder writes.
use besterp.Prelude.{
  ℕ, suc, ◌+◌, ◌*◌, ◌/◌, ◌%◌, ◌≤◌, ◌<◌, ◌≡◌, refl, sym, ap, ◌∙◌, ◌⊎◌, inl, inr, true, false, ◌&&◌,
  List, [], ◌∷◌, ◌++◌, arith, ltb, ◌==◌, if◌then◌else◌, Bool-cases, All,
}
use besterp.Text.{Text}
use besterp.Surrogates.{is_high_surrogate, is_low_surrogate}
use besterp.Surrogates.Laws.{IsUtf16, done, plain, pair}
use besterp.Utf8.{
  lead, trail, pair_code, pair_lead, pair_trail, scalars, Pending, ready, needs, units, begin,
  go_on, step_needed, run, decode,
}

begin_two : (x : ℕ) → 2 ≤ x → x < 32 → begin (0xc0 + x) ≡ ([], needs 1 0x80 0xbf x)
unfolding begin
begin_two x lo hi = ground arith

begin_three :
    (x : ℕ)
    → x < 16
    → begin (0xe0 + x)
      ≡ ([], needs 2 (if x == 0 then 0xa0 else 0x80) (if x == 13 then 0x9f else 0xbf) x)
unfolding begin
begin_three x hi = ground arith

begin_four :
    (x : ℕ)
    → x < 5
    → begin (0xf0 + x)
      ≡ ([], needs 3 (if x == 0 then 0x90 else 0x80) (if x == 4 then 0x8f else 0xbf) x)
unfolding begin
begin_four x hi = ground arith

goes_on :
    (n lo hi bits y : ℕ)
    → lo ≤ 0x80 + y
    → 0x80 + y ≤ hi
    → step_needed (suc n) (needs (suc n) lo hi bits) (0x80 + y) ≡ go_on n (bits * 64 + y)
unfolding step_needed
goes_on n lo hi bits y p q = ground arith

run-cons :
    (st st' : Pending) (b : ℕ) (bs : List ℕ) (out : Text)
    → step_needed st.needed st b ≡ (out, st')
    → run st (b ∷ bs) ≡ out ++ run st' bs
unfolding run
run-cons st st' b bs out e = ap (λ (o, st''). o ++ run st'' bs) e

one_byte : (c : ℕ) (rest : List ℕ) → c < 0x80 → run ready (c ∷ rest) ≡ c ∷ run ready rest
unfolding step_needed begin
one_byte c rest h = run-cons ready ready c rest (c ∷ []) (ground (arith, h))

two_bytes :
    (x y : ℕ) (rest : List ℕ)
    → 2 ≤ x
    → x < 32
    → y < 64
    → run ready ((0xc0 + x) ∷ (0x80 + y) ∷ rest) ≡ units (x * 64 + y) ++ run ready rest
unfolding step_needed go_on
two_bytes x y rest lo hi h =
    run-cons ready (needs 1 0x80 0xbf x) (0xc0 + x) _ [] (begin_two x lo hi)
    ∙ run-cons (needs 1 0x80 0xbf x) ready (0x80 + y) rest _
        (goes_on 0 0x80 0xbf x y (omega arith) (omega arith))

three_bytes :
    (x y z : ℕ) (rest : List ℕ)
    → x < 16
    → (if x == 0 then 0xa0 else 0x80) ≤ 0x80 + y
    → 0x80 + y ≤ (if x == 13 then 0x9f else 0xbf)
    → z < 64
    → run ready ((0xe0 + x) ∷ (0x80 + y) ∷ (0x80 + z) ∷ rest)
      ≡ units ((x * 64 + y) * 64 + z) ++ run ready rest
unfolding step_needed go_on
three_bytes x y z rest hi p q h =
    run-cons ready (needs 2 (if x == 0 then 0xa0 else 0x80) (if x == 13 then 0x9f else 0xbf) x)
      (0xe0 + x) _ [] (begin_three x hi)
    ∙ run-cons _ (needs 1 0x80 0xbf (x * 64 + y)) (0x80 + y) _ [] (goes_on 1 _ _ x y p q)
    ∙ run-cons (needs 1 0x80 0xbf (x * 64 + y)) ready (0x80 + z) rest _
        (goes_on 0 0x80 0xbf (x * 64 + y) z (omega arith) (omega arith))

four_bytes :
    (x y z w : ℕ) (rest : List ℕ)
    → x < 5
    → (if x == 0 then 0x90 else 0x80) ≤ 0x80 + y
    → 0x80 + y ≤ (if x == 4 then 0x8f else 0xbf)
    → z < 64
    → w < 64
    → run ready ((0xf0 + x) ∷ (0x80 + y) ∷ (0x80 + z) ∷ (0x80 + w) ∷ rest)
      ≡ units (((x * 64 + y) * 64 + z) * 64 + w) ++ run ready rest
unfolding step_needed go_on
four_bytes x y z w rest hi p q h k =
    run-cons ready (needs 3 (if x == 0 then 0x90 else 0x80) (if x == 4 then 0x8f else 0xbf) x)
      (0xf0 + x) _ [] (begin_four x hi)
    ∙ run-cons _ (needs 2 0x80 0xbf (x * 64 + y)) (0x80 + y) _ [] (goes_on 2 _ _ x y p q)
    ∙ run-cons (needs 2 0x80 0xbf (x * 64 + y)) (needs 1 0x80 0xbf ((x * 64 + y) * 64 + z))
        (0x80 + z) _ [] (goes_on 1 0x80 0xbf (x * 64 + y) z (omega arith) (omega arith))
    ∙ run-cons (needs 1 0x80 0xbf ((x * 64 + y) * 64 + z)) ready (0x80 + w) rest _
        (goes_on 0 0x80 0xbf ((x * 64 + y) * 64 + z) w (omega arith) (omega arith))

unit_units : (c : ℕ) → c < 0x10000 → units c ≡ c ∷ []
unfolding units
unit_units c h = ground (arith, h)

pair_units :
    (c d : ℕ)
    → is_high_surrogate c ≡ true
    → is_low_surrogate d ≡ true
    → units (pair_code c d) ≡ c ∷ d ∷ []
unfolding units
pair_units c d h l = ground arith

-- A unit that is no surrogate is read as it was written.
run-unit :
    (c : ℕ) (rest : List ℕ)
    → is_high_surrogate c ≡ false
    → is_low_surrogate c ≡ false
    → c < 0x10000
    → run ready (lead c ∷ trail c ++ rest) ≡ c ∷ run ready rest
unfolding lead trail
run-unit c rest h l b = elim (Bool-cases (ltb c 0x80)) [
  | inl small ↦ rw small (one_byte c rest (ground arith))
  | inr large ↦ elim (Bool-cases (ltb c 0x800)) [
    | inl two ↦
        rw (large, two)
          (two_bytes (c / 64) (c % 64) rest (ground arith) (ground arith) (omega arith)
            ∙ ap (λ x. x ++ run ready rest) (ap units (omega arith) ∙ unit_units c b))
    | inr three ↦
        rw (large, three)
          (three_bytes (c / 4096) (c / 64 % 64) (c % 64) rest (omega arith) (ground arith)
              (ground arith) (omega arith)
            ∙ ap (λ x. x ++ run ready rest) (ap units (omega arith) ∙ unit_units c b))
  ]
]

run_code :
    (p : ℕ) (rest : List ℕ)
    → 0x10000 ≤ p
    → p < 0x110000
    → run ready (pair_lead p ∷ pair_trail p ++ rest) ≡ units p ++ run ready rest
run_code p rest lo hi =
    four_bytes (p / 262144) (p / 4096 % 64) (p / 64 % 64) (p % 64) rest (omega arith) (ground arith)
      (ground arith) (omega arith) (omega arith)
    ∙ ap (λ x. units x ++ run ready rest) (omega arith)

pair_code-lower : (c d : ℕ) → 0x10000 ≤ pair_code c d
pair_code-lower c d = omega arith

pair_code-upper :
    (c d : ℕ) → is_high_surrogate c ≡ true → is_low_surrogate d ≡ true → pair_code c d < 0x110000
pair_code-upper c d h l = ground arith

-- A pair of surrogates is read as it was written.
run-pair :
    (c d : ℕ) (rest : List ℕ)
    → is_high_surrogate c ≡ true
    → is_low_surrogate d ≡ true
    → run ready (pair_lead (pair_code c d) ∷ pair_trail (pair_code c d) ++ rest)
      ≡ c ∷ d ∷ run ready rest
run-pair c d rest h l =
    run_code (pair_code c d) rest (pair_code-lower c d) (pair_code-upper c d h l)
    ∙ ap (λ x. x ++ run ready rest) (pair_units c d h l)

append_nil : {A : Type 0} (xs : List A) → xs ++ [] ≡ xs
append_nil [] = refl
append_nil (x ∷ xs) = ap (◌∷◌ x) (append_nil xs)

append_assoc : {A : Type 0} (xs ys zs : List A) → (xs ++ ys) ++ zs ≡ xs ++ (ys ++ zs)
append_assoc [] ys zs = refl
append_assoc (x ∷ xs) ys zs = ap (◌∷◌ x) (append_assoc xs ys zs)

pub scalars-unit :
    (c : ℕ) (s : Text)
    → is_high_surrogate c ≡ false
    → scalars (c ∷ s) ≡ lead c ∷ trail c ++ scalars s
unfolding scalars
scalars-unit c [] h = ap (◌∷◌ (lead c)) (sym (append_nil (trail c)))
scalars-unit c (d ∷ s) h = rw h refl

pub scalars-pair :
    (c d : ℕ) (s : Text)
    → is_high_surrogate c ≡ true
    → scalars (c ∷ d ∷ s) ≡ pair_lead (pair_code c d) ∷ pair_trail (pair_code c d) ++ scalars s
unfolding scalars
scalars-pair c d s h = rw h refl

pub scalars-append : {p : Text} → IsUtf16 p → (q : Text) → scalars (p ++ q) ≡ scalars p ++ scalars q
unfolding scalars
scalars-append done q = refl
scalars-append (plain {c = c} {s = s} h l u) q =
    scalars-unit c (s ++ q) h
    ∙ ap (λ bs. lead c ∷ trail c ++ bs) (scalars-append u q)
    ∙ ap (◌∷◌ (lead c)) (sym (append_assoc (trail c) (scalars s) (scalars q)))
    ∙ ap (λ bs. bs ++ scalars q) (sym (scalars-unit c s h))
scalars-append (pair {c = c} {d = d} {s = s} h l u) q =
    scalars-pair c d (s ++ q) h
    ∙ ap (λ bs. pair_lead (pair_code c d) ∷ pair_trail (pair_code c d) ++ bs) (scalars-append u q)
    ∙ ap (λ bs. bs ++ scalars q) (sym (scalars-pair c d s h))

-- Every unit has 16 bits.
abbrev pub AreUnits : Text → Type 0
AreUnits = All (λ c. c < 0x10000)

run-scalars : {s : Text} → IsUtf16 s → AreUnits s → run ready (scalars s) ≡ s
unfolding scalars run
run-scalars done a = refl
run-scalars (plain {c = c} {s = s} h l u) (b, a) =
    ap (run ready) (scalars-unit c s h)
    ∙ run-unit c (scalars s) h l b
    ∙ ap (◌∷◌ c) (run-scalars u a)
run-scalars (pair {c = c} {d = d} {s = s} h l u) (b, (b', a)) =
    ap (run ready) (scalars-pair c d s h)
    ∙ run-pair c d (scalars s) h l
    ∙ ap (λ t. c ∷ d ∷ t) (run-scalars u a)

run-mark : (bs : List ℕ) → run ready (0xef ∷ 0xbb ∷ 0xbf ∷ bs) ≡ 0xfeff ∷ run ready bs
unfolding units
run-mark bs = three_bytes 15 0x3b 0x3f bs (omega arith) (omega arith) (omega arith) (omega arith)

all_three :
    (a b c : ℕ)
    → (a == 0xef && b == 0xbb && c == 0xbf) ≡ true
    → (a ≡ 0xef) × (b ≡ 0xbb) × (c ≡ 0xbf)
all_three a b c h = (ground arith, ground arith, ground arith)

decode_cases :
    (bs : List ℕ)
    → (decode bs ≡ run ready bs) ⊎ ((t : Text) × (run ready bs ≡ 0xfeff ∷ t) × (decode bs ≡ t))
unfolding decode
decode_cases [] = inl refl
decode_cases (a ∷ []) = inl refl
decode_cases (a ∷ b ∷ []) = inl refl
decode_cases (a ∷ b ∷ c ∷ bs) = elim (Bool-cases (a == 0xef && b == 0xbb && c == 0xbf)) [
  | inr unmarked ↦ inl (rw unmarked refl)
  | inl mark ↦
      let (ea, eb, ec) = all_three a b c mark in
      inr (run ready bs, rw (ea, eb, ec) (run-mark bs), rw mark refl)
]

-- What is decoded is the text that was encoded, but for a byte order mark at its start.
pub decode-scalars :
    {s : Text}
    → IsUtf16 s
    → AreUnits s
    → (decode (scalars s) ≡ s) ⊎ ((t : Text) × (s ≡ 0xfeff ∷ t) × (decode (scalars s) ≡ t))
decode-scalars {s} u a = elim (decode_cases (scalars s)) [
  | inl e ↦ inl (e ∙ run-scalars u a)
  | inr (t, e, d) ↦ inr (t, sym (run-scalars u a) ∙ e, d)
]
