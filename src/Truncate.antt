-- ===== src/Truncate.antt =====
-- packages/mcp-tools/src/middleware/truncate.ts: what bounds the size of a stored text.
pub mod Slice
pub mod Capped
pub mod Bound
pub mod Stored
pub mod Small
use besterp.Prelude.{
  ℕ, zero, suc, ◌-◌, Bool, true, not, Option, none, some, List, [], ◌∷◌, ◌++◌, leb, ◌==◌,
  if◌then◌else◌, length, take,
}
use Prim.Native.Nat.{bit_and}
use besterp.Text.{Text, lit, decimal}
use besterp.Value.{Value, string}
use besterp.Utf8.{encode, decode}

-- `encoded[index]`.
unfoldable pub byte_at : ℕ → List ℕ → Option ℕ
byte_at k [] = none
byte_at zero (b ∷ bs) = some b
byte_at (suc k) (b ∷ bs) = byte_at k bs

abbrev pub is_continuation : ℕ → Bool
is_continuation b = bit_and b 0xc0 == 0x80

-- Whether the first excluded byte, if there is one, starts a character.
unfoldable pub ends_at : ℕ → List ℕ → Bool
unfolding byte_at
ends_at k bs = elim (byte_at k bs) [ none ↦ true | some b ↦ not (is_continuation b) ]

-- The loop down to a boundary.
unfoldable pub slice_end : ℕ → List ℕ → ℕ
unfolding ends_at
slice_end zero bs = zero
slice_end (suc k) bs = let less = slice_end k bs in if ends_at (suc k) bs then suc k else less

unfoldable pub safe_slice_utf8 : List ℕ → ℕ → Text
unfolding slice_end decode
safe_slice_utf8 encoded byte_limit =
    let limit = if leb byte_limit (length encoded) then byte_limit else length encoded in
    decode (take (slice_end limit encoded) encoded)

-- `Math.max(1, size)`.
abbrev pub at_least_one : ℕ → ℕ
at_least_one n = if leb 1 n then n else 1

abbrev pub truncation_note : ℕ → Text
truncation_note size = lit "... [truncated, original was " ++ decimal size ++ lit " bytes]"

-- A text that exceeds the limit.
unfoldable pub cut_text : Text → ℕ → Text
unfolding safe_slice_utf8
cut_text s limit =
    let note = truncation_note (length (encode s)) in
    if leb limit (length (encode note))
    then safe_slice_utf8 (encode s) limit
    else safe_slice_utf8 (encode s) (limit - length (encode note)) ++ note

unfoldable pub cap_text : Text → ℕ → Text
unfolding cut_text
cap_text s limit = if leb (length (encode s)) limit then s else cut_text s limit

unfoldable pub cap_string : Value → ℕ → Text
unfolding cap_text safe_slice_utf8
cap_string (string s) max_bytes = cap_text s (at_least_one max_bytes)
cap_string v max_bytes =
    safe_slice_utf8 (encode (lit "Non-string value in error message (truncated)"))
      (at_least_one max_bytes)
