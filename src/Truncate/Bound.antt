-- ===== src/Truncate/Bound.antt =====
-- What `capString` makes of a text.
use besterp.Prelude.{
  ℕ, ◌-◌, ◌≤◌, ◌<◌, ◌≡◌, refl, ap, ◌⊎◌, inl, inr, ◌&&◌, [], ◌∷◌, ◌++◌, arith, leb, Bool-cases,
  length,
}
use besterp.Text.{Text}
use besterp.Surrogates.{
  is_high_surrogate, is_low_surrogate, replaced, replace_unpaired_surrogates,
  normalize_unpaired_surrogates, has_unpaired_surrogate,
}
use besterp.Surrogates.Laws.{IsUtf16, normalize-IsUtf16}
use besterp.Value.{string}
use besterp.Utf8.{encode}
use besterp.Utf8.Laws.{AreUnits}
use besterp.Truncate.{
  safe_slice_utf8, truncation_note, cut_text, cap_text, cap_string, at_least_one,
}
use besterp.Truncate.Capped.{encode-scalars, Fits, IsStart, slice-Fits, append-Fits, note-IsUtf16}

replaced-unit : (c : ℕ) → c < 0x10000 → replaced c < 0x10000
unfolding replaced
replaced-unit c h = ground arith

replace-AreUnits : (s : Text) → AreUnits s → AreUnits (replace_unpaired_surrogates s)
unfolding replace_unpaired_surrogates
replace-AreUnits [] a = tt
replace-AreUnits (c ∷ []) (h, a) = (replaced-unit c h, tt)
replace-AreUnits (c ∷ d ∷ s) (h, (k, a)) =
    elim (Bool-cases (is_high_surrogate c && is_low_surrogate d)) [
      | inl paired ↦ rw paired (h, (k, replace-AreUnits s a))
      | inr alone ↦ rw alone (replaced-unit c h, replace-AreUnits (d ∷ s) (k, a))
    ]

pub normalize-AreUnits : (s : Text) → AreUnits s → AreUnits (normalize_unpaired_surrogates s)
unfolding normalize_unpaired_surrogates
normalize-AreUnits s a = elim (Bool-cases (has_unpaired_surrogate s)) [
  | inl unpaired ↦ rw unpaired (replace-AreUnits s a)
  | inr paired ↦ rw paired a
]

-- What is kept of a text that is cut, and the note behind it.
abbrev pub IsCut : Text → Text → Type 0
IsCut s r =
    (start note : Text) × (r ≡ start ++ note)
    × IsStart (normalize_unpaired_surrogates s) start
    × ((note ≡ []) ⊎ (note ≡ truncation_note (length (encode s))))

abbrev pub Capped : Text → ℕ → Text → Type 0
Capped s n r =
    ((length (encode s) ≤ n) × (r ≡ s))
    ⊎ ((n < length (encode s)) × (length (encode r) ≤ n) × IsCut s r)

nothing_behind : (s : Text) → s ≡ s ++ []
nothing_behind [] = refl
nothing_behind (c ∷ s) = ap (◌∷◌ c) (nothing_behind s)

Fits-encode : (r : Text) (n : ℕ) → Fits r n → length (encode r) ≤ n
Fits-encode r n (u, h) = omega (arith, h, ap length (encode-scalars u))

slice_of :
    (s : Text) (n : ℕ)
    → AreUnits s
    → Fits (safe_slice_utf8 (encode s) n) n
      × IsStart (normalize_unpaired_surrogates s) (safe_slice_utf8 (encode s) n)
unfolding encode
slice_of s n a =
    slice-Fits (normalize_unpaired_surrogates s) n (normalize-IsUtf16 s) (normalize-AreUnits s a)

noted-Fits :
    (r note : Text) (n : ℕ)
    → IsUtf16 note
    → length (encode note) < n
    → Fits r (n - length (encode note))
    → length (encode (r ++ note)) ≤ n
noted-Fits r note n v room fits = Fits-encode (r ++ note) n (
    let (u, h) = append-Fits r note (n - length (encode note)) fits v in
    (u, omega (arith, h, room, ap length (encode-scalars v))))

cut_text-IsCut :
    (s : Text) (n : ℕ) → AreUnits s → (length (encode (cut_text s n)) ≤ n) × IsCut s (cut_text s n)
unfolding cut_text
cut_text-IsCut s n a =
    elim (Bool-cases (leb n (length (encode (truncation_note (length (encode s))))))) [
      | inl full ↦
          let (fits, start) = slice_of s n a in
          rw full (
            Fits-encode _ n fits,
            (safe_slice_utf8 (encode s) n, [], nothing_behind _, start, inl refl),
          )
      | inr room ↦
          let m = n - length (encode (truncation_note (length (encode s)))) in
          let (fits, start) = slice_of s m a in
          rw room (
            noted-Fits (safe_slice_utf8 (encode s) m) (truncation_note (length (encode s))) n
                (note-IsUtf16 _) (ground (arith, room)) fits,
            (
              safe_slice_utf8 (encode s) m,
              truncation_note (length (encode s)),
              refl,
              start,
              inr refl,
            ),
          )
    ]

pub cap_text-Capped : (s : Text) (n : ℕ) → AreUnits s → Capped s n (cap_text s n)
unfolding cap_text
cap_text-Capped s n a = elim (Bool-cases (leb (length (encode s)) n)) [
  | inl fits ↦ rw fits (inl (ground (arith, fits), refl))
  | inr long ↦
      let (short, cut) = cut_text-IsCut s n a in rw long (inr (ground (arith, long), short, cut))
]

-- Of a string of 16-bit units, capString returns the string itself if its UTF-8 bytes fit in the
-- limit (1 at least), and else a text of at most so many bytes, which is a start of the string
-- with its unpaired surrogates replaced, no character split, less a byte order mark at most, and
-- then nothing or the note of the original size.
pub cap_string-Capped :
    (s : Text) (n : ℕ) → AreUnits s → Capped s (at_least_one n) (cap_string (string s) n)
unfolding cap_string
cap_string-Capped s n a = cap_text-Capped s (at_least_one n) a
