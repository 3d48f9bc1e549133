-- ===== src/Value.antt =====
-- The values that the tool framework handles as `unknown`. A number is its IEEE 754 bit pattern, of
-- which the framework reads equality only. An object is its own enumerable fields, in order.
use besterp.Prelude.{
  ℕ, Bool, true, false, ◌&&◌, ◌||◌, List, [], ◌∷◌, ◌==◌, ltb, ◌%◌, ◌^◌, if◌then◌else◌, Option, none,
  some,
}
use besterp.Text.{Text, text_eq}

mutual
  pub data Value : Type 0 where
    undefined null : Value
    boolean : Bool → Value
    number : ℕ → Value
    string : Text → Value
    array : Items → Value
    object : Fields → Value

  pub data Items : Type 0 where
    nil : Items
    cons : Value → Items → Items

  pub data Fields : Type 0 where
    end : Fields
    field : Text → Value → Fields → Fields

-- `fields[name]`, where a field that is absent is `undefined`.
unfoldable pub get : Text → Fields → Value
get k end = undefined
get k (field j v fs) = if text_eq j k then v else get k fs

-- `name in fields`.
unfoldable pub has : Text → Fields → Bool
has k end = false
has k (field j v fs) = text_eq j k || has k fs

-- `const { [name]: _, ...rest } = fields`.
unfoldable pub omit : Text → Fields → Fields
omit k end = end
omit k (field j v fs) = if text_eq j k then omit k fs else field j v (omit k fs)

-- `value == null`.
unfoldable pub is_nullish : Value → Bool
is_nullish undefined = true
is_nullish null = true
is_nullish _ = false

-- NaN differs from itself, and 0 equals -0.
same_number : ℕ → ℕ → Bool
same_number a b =
    let magnitude = λ (x : ℕ). x % 2 ^ 63 in
    if ltb 0x7ff0000000000000 (magnitude a)
    then false
    else a == b || magnitude a == 0 && magnitude b == 0

-- `a === b`. Two arrays, and two objects, of separate requests are never one reference.
unfoldable pub strict_eq : Value → Value → Bool
unfolding same_number
strict_eq undefined undefined = true
strict_eq null null = true
strict_eq (boolean true) (boolean true) = true
strict_eq (boolean false) (boolean false) = true
strict_eq (number a) (number b) = same_number a b
strict_eq (string s) (string t) = text_eq s t
strict_eq _ _ = false

-- `raw.filter((entry): entry is string => typeof entry === "string")`.
unfoldable pub strings : Items → List Text
strings nil = []
strings (cons (string s) vs) = s ∷ strings vs
strings (cons _ vs) = strings vs

-- The fields of a value that is an object and no array.
unfoldable pub as_object : Value → Option Fields
as_object (object fs) = some fs
as_object _ = none

-- An array of strings.
unfoldable pub text_items : List Text → Items
text_items [] = nil
text_items (s ∷ ss) = cons (string s) (text_items ss)
