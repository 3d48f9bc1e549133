-- ===== src/Party/Fields/Laws.antt =====
-- What the validators of fields return.
use besterp.Prelude.{ℕ, zero, suc, ◌≡◌, refl, true, List, [], ◌∷◌, arith, all}
use besterp.Text.{Text, is_space}
use besterp.Text.Laws.{is_solid, trim_solid}
use besterp.Value.{Value, undefined, null, boolean, number, string, array, object}
use besterp.Support.{Support, returns}
use besterp.Party.Fields.{
  hex_digit, uuid_from, uuid_regex, require_string_field, require_trimmed, require_uuid, check_uuid,
}

hex-solid : (c : ℕ) → hex_digit c ≡ true → is_solid c ≡ true
unfolding is_space
hex-solid c h = ground arith

uuid_from-solid : (n : ℕ) (ns : List ℕ) (s : Text) → uuid_from n ns s ≡ true → all is_solid s ≡ true
unfolding uuid_from is_space
uuid_from-solid zero [] [] h = refl
uuid_from-solid zero [] (c ∷ s) h = cc
uuid_from-solid zero (n ∷ ns) [] h = refl
uuid_from-solid zero (n ∷ ns) (c ∷ s) h = ground (arith, uuid_from-solid n ns s)
uuid_from-solid (suc n) ns [] h = refl
uuid_from-solid (suc n) ns (c ∷ s) h = ground (arith, hex-solid c, uuid_from-solid n ns s)

-- What is left once it was trimmed does not depend on the tool.
pub require_string_field-tool :
    (v : Value) (name : Text) (bound : ℕ) (tool other t : Text)
    → require_string_field v name bound tool ≡ returns t
    → require_string_field v name bound other ≡ returns t
unfolding require_string_field require_trimmed
require_string_field-tool (string s) name bound tool other t h = ground arith
require_string_field-tool undefined name bound tool other t h = cc
require_string_field-tool null name bound tool other t h = cc
require_string_field-tool (boolean b) name bound tool other t h = cc
require_string_field-tool (number n) name bound tool other t h = cc
require_string_field-tool (array vs) name bound tool other t h = cc
require_string_field-tool (object fs) name bound tool other t h = cc

module _ (lib : Support) where
  -- An id in the form of the database is required to be itself.
  pub require_uuid-uuid :
      (id name : Text) (tools : List Text)
      → uuid_regex id ≡ true
      → lib.strip_html_tags id ≡ returns id
      → require_uuid lib (string id) name tools ≡ returns id
  unfolding require_uuid check_uuid uuid_regex
  require_uuid-uuid id name tools h k =
      rw (trim_solid id (uuid_from-solid 8 (4 ∷ 4 ∷ 4 ∷ 12 ∷ []) id h), k, h) refl
