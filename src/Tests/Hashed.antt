-- ===== src/Tests/Hashed.antt =====
-- An input with its keys in two orders.
use besterp.Prelude.{ap, ◌≡◌, ◌≢◌, true, false, ◌∷◌, []}
use besterp.Text.{Text, lit, text_eq}
use besterp.Value.{Value, number, string, array, object, field, end, cons, nil}
use besterp.Hash.{hash_input}
use besterp.Hash.Same.{objects, arrays, item, none_more, swapped, hash_input-same}
use besterp.Tests.{plain_lib}
use besterp.Tests.Truncated.{plain_json}

names_differ : ◌≢◌ {A = Text} (b'b' ∷ []) (b'a' ∷ [])
unfolding text_eq
names_differ e = let q : true ≡ false = ap (text_eq (b'b' ∷ [])) e in cc

abbrev one_order : Value
one_order =
    array
      (cons (object (field (b'b' ∷ []) (string (lit "x")) (field (b'a' ∷ []) (number 1) end))) nil)

abbrev other_order : Value
other_order =
    array
      (cons (object (field (b'a' ∷ []) (number 1) (field (b'b' ∷ []) (string (lit "x")) end))) nil)

hash_input-same_example :
    hash_input plain_lib plain_json 3 one_order ≡ hash_input plain_lib plain_json 3 other_order
hash_input-same_example =
    hash_input-same plain_lib plain_json 3 one_order other_order
      (arrays (item (objects (swapped names_differ)) none_more))
