-- ===== src/Registry/Names/Laws.antt =====
-- The format of tool names, against the regular expression read as a grammar.
use besterp.Prelude.{
  ==_iff, ℕ, ◌<◌, ◌≡◌, refl, ap, ◌∙◌, ◌↔◌, ◌⊎◌, inl, inr, Bool, true, false, ◌&&◌, ◌||◌, List, [],
  ◌∷◌, ◌++◌, arith, ◌==◌, length, all, All,
}
use besterp.Text.{Text}
use besterp.Registry.Names.{is_lower, is_alnum, in_word, after_underscore, is_snake_case}

-- Each word behind an underscore: the text of `(_[a-z0-9]+)*`.
pub suffixes : List Text → Text
suffixes [] = []
suffixes (w ∷ ws) = b'_' ∷ (w ++ suffixes ws)

-- `[a-z0-9]+`.
abbrev pub IsWord : Text → Type 0
IsWord w = (0 < length w) × (all is_alnum w ≡ true)

-- `[a-z][a-z0-9]*(_[a-z0-9]+)*`.
pub record IsSnakeCase (s : Text) : Type 0 where
  pub first : ℕ
  pub rest : Text
  pub words : List Text
  pub shape : s ≡ first ∷ (rest ++ suffixes words)
  pub lower : is_lower first ≡ true
  pub alnum : all is_alnum rest ≡ true
  pub each : All IsWord words

-- The part of a text before its first underscore, and the words after it.
abbrev Parts : Text → Type 0
Parts s =
    (w : Text) × (ws : List Text) × (s ≡ w ++ suffixes ws) × (all is_alnum w ≡ true) × All IsWord ws

more : (c : ℕ) (s : Text) → is_alnum c ≡ true → Parts s → Parts (c ∷ s)
more c s h (w, ws, e, a, each) = (c ∷ w, ws, ap (λ t. c ∷ t) e, rw (h, a) refl, each)

begins_word :
    (c d : ℕ) (s : Text) → (c == b'_') ≡ true → is_alnum d ≡ true → Parts s → Parts (c ∷ d ∷ s)
unfolding suffixes
begins_word c d s u h (w, ws, e, a, each) = (
  [],
  (d ∷ w) ∷ ws,
  rw ((==_iff c b'_').0 u, e) refl,
  refl,
  ((omega arith, rw (h, a) refl), each),
)

both : (a b : Bool) → (a && b) ≡ true → (a ≡ true) × (b ≡ true)
both true true h = (refl, refl)
both true false h = cc
both false b h = cc

either : (a b : Bool) → (a || b) ≡ true → (a ≡ true) ⊎ (b ≡ true)
either true b h = inl refl
either false b h = inr h

or-true : (b : Bool) → (b || true) ≡ true
or-true true = refl
or-true false = refl

false-true : false ≡ true → ⊥
false-true h = cc

in_word-Parts : (s : Text) → in_word s ≡ true → Parts s
unfolding in_word after_underscore suffixes
in_word-Parts [] h = ([], [], refl, refl, tt)
in_word-Parts (c ∷ []) h = elim (either (is_alnum c && true) ((c == b'_') && false) h) [
  | inl l ↦ more c [] (both (is_alnum c) true l).0 ([], [], refl, refl, tt)
  | inr r ↦ absurd (false-true (both (c == b'_') false r).1)
]
in_word-Parts (c ∷ d ∷ s) h =
    let word = is_alnum c && in_word (d ∷ s) in
    let underscore = (c == b'_') && (is_alnum d && in_word s) in
    elim (either word underscore h) [
      | inl l ↦
          let (a, rest) = both (is_alnum c) (in_word (d ∷ s)) l in
          more c (d ∷ s) a (in_word-Parts (d ∷ s) rest)
      | inr r ↦
          let (u, behind) = both (c == b'_') (is_alnum d && in_word s) r in
          let (a, rest) = both (is_alnum d) (in_word s) behind in
          begins_word c d s u a (in_word-Parts s rest)
    ]

in_word-append :
    (w tail : Text) → all is_alnum w ≡ true → in_word tail ≡ true → in_word (w ++ tail) ≡ true
unfolding in_word
in_word-append [] tail a h = h
in_word-append (c ∷ w) tail a h =
    let (first, rest) = both (is_alnum c) (all is_alnum w) a in
    rw (first, in_word-append w tail rest h) refl

suffixes-in_word : (ws : List Text) → All IsWord ws → in_word (suffixes ws) ≡ true
unfolding in_word after_underscore suffixes
suffixes-in_word [] each = refl
suffixes-in_word ([] ∷ ws) ((nonempty, a), each) = absurd (omega (arith, nonempty))
suffixes-in_word ((c ∷ w) ∷ ws) ((nonempty, a), each) =
    let (first, rest) = both (is_alnum c) (all is_alnum w) a in
    let tail = in_word-append w (suffixes ws) rest (suffixes-in_word ws each) in
    rw (first, tail) (or-true (is_alnum b'_' && true))

-- A tool name is accepted exactly if it is a lower-case letter, then letters and digits, then
-- non-empty words of letters and digits, each behind one underscore.
pub is_snake_case_iff : (s : Text) → (is_snake_case s ≡ true) ↔ IsSnakeCase s
unfolding is_snake_case
is_snake_case_iff s = (matched s, accepted)
  where
    matched : (s : Text) → is_snake_case s ≡ true → IsSnakeCase s
    matched [] h = cc
    matched (c ∷ s) h =
        let (lower, rest) = both (is_lower c) (in_word s) h in
        let (w, ws, e, a, each) = in_word-Parts s rest in
        record {
          first = c;
          rest = w;
          words = ws;
          shape = ap (λ t. c ∷ t) e;
          lower = lower;
          alnum = a;
          each = each;
        }

    accepted : IsSnakeCase s → is_snake_case s ≡ true
    accepted m =
        ap is_snake_case m.shape
        ∙ rw
            (
              m.lower,
              in_word-append m.rest (suffixes m.words) m.alnum (suffixes-in_word m.words m.each),
            )
            refl
