-- ===== src/Utf8.antt =====
-- TextEncoder and TextDecoder of the Encoding Standard: a text as its UTF-8 bytes, and back. The
-- decoder drops a byte order mark at the start and puts U+FFFD in the place of what is malformed.
pub mod Laws
use besterp.Prelude.{
  ℕ, zero, suc, ◌+◌, ◌-◌, ◌*◌, ◌/◌, ◌%◌, ◌&&◌, List, [], ◌∷◌, ◌++◌, ltb, ◌==◌, if◌then◌else◌,
}
use besterp.Text.{Text, between}
use besterp.Surrogates.{is_high_surrogate, normalize_unpaired_surrogates}

-- 10xxxxxx with the six bits given.
abbrev pub continuation : ℕ → ℕ
continuation n = 0x80 + n % 64

-- The first byte of a unit that is no surrogate.
unfoldable pub lead : ℕ → ℕ
lead c = if ltb c 0x80 then c else if ltb c 0x800 then 0xc0 + c / 64 else 0xe0 + c / 4096

-- The bytes after it.
unfoldable pub trail : ℕ → List ℕ
trail c =
    if ltb c 0x80
    then []
    else if ltb c 0x800
    then continuation c ∷ []
    else continuation (c / 64) ∷ continuation c ∷ []

-- The code point of a pair of surrogates.
abbrev pub pair_code : ℕ → ℕ → ℕ
pair_code high low = 0x10000 + (high - 0xd800) * 1024 + (low - 0xdc00)

abbrev pub pair_lead : ℕ → ℕ
pair_lead p = 0xf0 + p / 262144

abbrev pub pair_trail : ℕ → List ℕ
pair_trail p = continuation (p / 4096) ∷ continuation (p / 64) ∷ continuation p ∷ []

-- The bytes of a text where every surrogate is paired.
unfoldable pub scalars : Text → List ℕ
unfolding lead trail
scalars [] = []
scalars (c ∷ []) = lead c ∷ trail c
scalars (c ∷ d ∷ s) =
    let behind_pair = scalars s in
    let behind = scalars (d ∷ s) in
    if is_high_surrogate c
    then pair_lead (pair_code c d) ∷ pair_trail (pair_code c d) ++ behind_pair
    else lead c ∷ trail c ++ behind

-- `encode`, which reads an unpaired surrogate as U+FFFD.
unfoldable pub encode : Text → List ℕ
unfolding scalars normalize_unpaired_surrogates
encode s = scalars (normalize_unpaired_surrogates s)

-- The bytes that are still needed, the bounds of the next one, and the bits so far.
pub record Pending : Type 0 where
  pub needed : ℕ
  pub lower : ℕ
  pub upper : ℕ
  pub code : ℕ

abbrev pub ready : Pending
ready = record { needed = 0; lower = 0x80; upper = 0xbf; code = 0 }

abbrev pub needs : ℕ → ℕ → ℕ → ℕ → Pending
needs n lo hi bits = record { needed = n; lower = lo; upper = hi; code = bits }

-- A code point as units.
unfoldable pub units : ℕ → Text
units p =
    if ltb p 0x10000
    then p ∷ []
    else (0xd800 + (p - 0x10000) / 1024) ∷ (0xdc00 + (p - 0x10000) % 1024) ∷ []

-- A byte where a character starts.
unfoldable pub begin : ℕ → Text × Pending
begin b =
    if ltb b 0x80
    then (b ∷ [], ready)
    else if between 0xc2 0xdf b
    then ([], needs 1 0x80 0xbf (b - 0xc0))
    else if between 0xe0 0xef b
    then (
      [],
      needs 2 (if b == 0xe0 then 0xa0 else 0x80) (if b == 0xed then 0x9f else 0xbf) (b - 0xe0),
    )
    else if between 0xf0 0xf4 b
    then (
      [],
      needs 3 (if b == 0xf0 then 0x90 else 0x80) (if b == 0xf4 then 0x8f else 0xbf) (b - 0xf0),
    )
    else (0xfffd ∷ [], ready)

-- A byte within a character, of which so many are needed after it.
unfoldable pub go_on : ℕ → ℕ → Text × Pending
unfolding units
go_on zero p = (units p, ready)
go_on (suc n) p = ([], needs (suc n) 0x80 0xbf p)

-- A byte that does not go on starts anew.
unfoldable pub restart : Text × Pending → Text × Pending
restart (out, st) = (0xfffd ∷ out, st)

unfoldable pub step_needed : ℕ → Pending → ℕ → Text × Pending
unfolding begin go_on restart
step_needed zero st b = begin b
step_needed (suc n) st b =
    if between st.lower st.upper b then go_on n (st.code * 64 + (b - 0x80)) else restart (begin b)

-- What is missing at the end is one U+FFFD.
unfoldable pub finish : ℕ → Text
finish zero = []
finish (suc n) = 0xfffd ∷ []

unfoldable pub run : Pending → List ℕ → Text
unfolding step_needed finish
run st [] = finish st.needed
run st (b ∷ bs) = let (out, st') = step_needed st.needed st b in out ++ run st' bs

-- `decode`, which ignores a byte order mark.
unfoldable pub decode : List ℕ → Text
unfolding run
decode (a ∷ b ∷ c ∷ bs) =
    if a == 0xef && b == 0xbb && c == 0xbf then run ready bs else run ready (a ∷ b ∷ c ∷ bs)
decode bs = run ready bs
