-- ===== src/Surrogates.antt =====
-- packages/shared/src/sanitize.ts: `normalizeUnpairedSurrogates`, by which every stored and every
-- agent-facing text becomes well-formed UTF-16.
pub mod Laws
use besterp.Prelude.{ℕ, Bool, false, not, ◌&&◌, ◌||◌, [], ◌∷◌, if◌then◌else◌}
use besterp.Text.{Text, between}

abbrev pub is_high_surrogate : ℕ → Bool
is_high_surrogate code = between 0xd800 0xdbff code

abbrev pub is_low_surrogate : ℕ → Bool
is_low_surrogate code = between 0xdc00 0xdfff code

-- Behind the last unit, `charCodeAt` gives NaN, which is no surrogate.
unfoldable pub has_unpaired_surrogate : Text → Bool
has_unpaired_surrogate [] = false
has_unpaired_surrogate (c ∷ []) = is_high_surrogate c || is_low_surrogate c
has_unpaired_surrogate (c ∷ d ∷ s) =
    let behind_pair = has_unpaired_surrogate s in
    let behind = has_unpaired_surrogate (d ∷ s) in
    if is_high_surrogate c
    then not (is_low_surrogate d) || behind_pair
    else is_low_surrogate c || behind

-- U+FFFD in the place of a surrogate.
unfoldable pub replaced : ℕ → ℕ
replaced c = if is_high_surrogate c || is_low_surrogate c then 0xfffd else c

unfoldable pub replace_unpaired_surrogates : Text → Text
unfolding replaced
replace_unpaired_surrogates [] = []
replace_unpaired_surrogates (c ∷ []) = replaced c ∷ []
replace_unpaired_surrogates (c ∷ d ∷ s) =
    let pair = c ∷ d ∷ replace_unpaired_surrogates s in
    let one = replaced c ∷ replace_unpaired_surrogates (d ∷ s) in
    if is_high_surrogate c && is_low_surrogate d then pair else one

unfoldable pub normalize_unpaired_surrogates : Text → Text
normalize_unpaired_surrogates s =
    if not (has_unpaired_surrogate s) then s else replace_unpaired_surrogates s
