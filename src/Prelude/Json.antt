-- ===== src/Prelude/Json.antt =====
-- JavaScript values that reach the program from outside (`unknown` in the source), and the tests
-- that the source makes of them.
use Prim.Native.Nat.{ℕ}
use Prim.Native.String.{String}
use mathlib.Core.Bool.{Bool, true, false, not}
use mathlib.Core.Option.{Option, none, some}
use mathlib.Core.List.{List, [], ◌∷◌}
use planeo.Prelude.Tests.{if◌then◌else◌, ◌==◌}
use mathlib.Core.Path.{◌≡◌}
use planeo.Prelude.Text.{◌===◌, ===_iff}
use planeo.Prelude.Int.{ℤ, pos, negsuc}

-- A number is an integer, or one of the other values, which are told apart and nothing more.
pub data Number : Type 0 where
  whole : ℤ → Number
  fraction : ℕ → Number
  nan : Number

-- An object's fields are in the order of `Object.keys`; no key stands twice.
mutual
  pub data Json : Type 0 where
    undefined null : Json
    bool : Bool → Json
    num : Number → Json
    str : String → Json
    arr : Items → Json
    obj : Fields → Json

  pub data Items : Type 0 where
    nil : Items
    cons : Json → Items → Items

  pub data Fields : Type 0 where
    end : Fields
    field : String → Json → Fields → Fields

abbrev pub elems : Items → List Json
elems nil = []
elems (cons v vs) = v ∷ elems vs

abbrev pub props : Fields → List (String × Json)
props end = []
props (field k v fs) = (k, v) ∷ props fs

abbrev pub items : List Json → Items
items [] = nil
items (v ∷ vs) = cons v (items vs)

-- `object[key]`, with `undefined` for a key that is not there.
abbrev pub get : String → List (String × Json) → Json
get key [] = undefined
get key ((k, v) ∷ fs) = if k === key then v else get key fs

-- `body?.[key]` of a value that `request.json()` gave.
abbrev pub field_of : String → Json → Json
field_of key (obj fs) = get key (props fs)
field_of key _ = undefined

-- `value === "text"`
abbrev pub is_str : String → Json → Bool
is_str text (str s) = s === text
is_str text _ = false

abbrev pub keys : List (String × Json) → List String
keys [] = []
keys ((k, _) ∷ fs) = k ∷ keys fs

-- `value && typeof value === "object" && !Array.isArray(value)`
abbrev pub as_object : Json → Option (List (String × Json))
as_object (obj fs) = some (props fs)
as_object _ = none

abbrev pub as_array : Json → Option (List Json)
as_array (arr vs) = some (elems vs)
as_array _ = none

-- `typeof value === "string"`
abbrev pub as_string : Json → Option String
as_string (str s) = some s
as_string _ = none

abbrev pub is_string : Json → Bool
is_string (str _) = true
is_string _ = false

abbrev pub is_undefined : Json → Bool
is_undefined undefined = true
is_undefined _ = false

-- `Number.isInteger(value)`, with the integer.
abbrev pub as_integer : Json → Option ℤ
as_integer (num (whole z)) = some z
as_integer _ = none

-- `value === true`
abbrev pub is_true : Json → Bool
is_true (bool true) = true
is_true _ = false

-- The strings of an array, and `none` where the value is no array or holds something else.
abbrev pub strings : List Json → Option (List String)
strings [] = some []
strings (str s ∷ vs) = elim (strings vs) [ none ↦ none | some ss ↦ some (s ∷ ss) ]
strings (_ ∷ _) = none

-- `value ?? other`
abbrev pub or_else : Json → Json → Json
or_else undefined other = other
or_else null other = other
or_else value _ = value

-- `a === b` where both are no objects; two objects are never one here.
abbrev pub same_value : Json → Json → Bool
same_value undefined undefined = true
same_value null null = true
same_value (bool true) (bool b) = b
same_value (bool false) (bool b) = not b
same_value (num (whole (pos a))) (num (whole (pos b))) = a == b
same_value (num (whole (negsuc a))) (num (whole (negsuc b))) = a == b
same_value (num (fraction a)) (num (fraction b)) = a == b
same_value (str s) (str t) = s === t
same_value _ _ = false

-- A value is one text at most.
pub is_str_unique :
    (a b : String) (value : Json) → is_str a value ≡ true → is_str b value ≡ true → a ≡ b
is_str_unique a b undefined p q = cc
is_str_unique a b null p q = cc
is_str_unique a b (bool v) p q = cc
is_str_unique a b (num n) p q = cc
is_str_unique a b (str s) p q =
    let first = (===_iff s a).0 p in let second = (===_iff s b).0 q in cc
is_str_unique a b (arr vs) p q = cc
is_str_unique a b (obj fs) p q = cc
