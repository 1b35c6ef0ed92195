-- ===== src/Prelude/Text.antt =====
-- Text: JavaScript's `===` on strings, `includes` on lists of strings, and string lengths.
use Prim.Native.Nat.{ℕ, ◌+◌, ◌≤◌}
use Prim.Native.Char.{code}
use Prim.Native.String.{String}
use mathlib.Core.Path.{◌≡◌, refl}
use mathlib.Core.Logic.{◌↔◌, inl, inr}
use mathlib.Core.Bool.{Bool, true, false, ◌&&◌, ◌||◌, not}
use mathlib.Core.List.{List, [], ◌∷◌}
use native.Mathlib.Omega.{arith}
use text.Mathlib.Text.{◌==◌ as text_eq}
use text.Mathlib.TextEquality.{eq_iff}
use planeo.Prelude.Tests.{ltb, leb, ◌==◌, if◌then◌else◌, Bool-cases}
use planeo.Prelude.Lists.{
  any, filter, length, In, In-filter, all-In, length-filter, length-filter_kept,
}

infix 50 ◌===◌ ◌!==◌
abbrev pub ◌===◌ : String → String → Bool
◌===◌ = text_eq

abbrev pub ◌!==◌ : String → String → Bool
s !== t = not (s === t)

pub ===_iff : (s t : String) → ((s === t) ≡ true) ↔ (s ≡ t)
===_iff = eq_iff

-- `list.includes(value)`
abbrev pub includes : List String → String → Bool
includes xs v = any (λ x. x === v) xs

-- The code points of a text.
abbrev pub codes : String → List ℕ
codes String.[] = []
codes (String.◌∷◌ c s) = code c ∷ codes s

-- [a-zA-Z0-9_-]
abbrev pub is_key_char : ℕ → Bool
is_key_char c =
    leb b'a' c && leb c b'z'
    || leb b'A' c && leb c b'Z'
    || leb b'0' c && leb c b'9'
    || c == b'_'
    || c == b'-'

-- JavaScript's `length`: UTF-16 code units.
abbrev pub units : String → ℕ
units String.[] = 0
units (String.◌∷◌ c s) = (if ltb (code c) 65536 then 1 else 2) + units s

-- The characters that JavaScript's `\s` and `trim` take for white space.
unfoldable pub is_space : ℕ → Bool
is_space c =
    leb 9 c && leb c 13
    || c == 32
    || c == 160
    || c == 5760
    || leb 8192 c && leb c 8202
    || c == 8232
    || c == 8233
    || c == 8239
    || c == 8287
    || c == 12288
    || c == 65279

abbrev is_empty : String → Bool
is_empty String.[] = true
is_empty (String.◌∷◌ c s) = false

trim_start : String → String
trim_start String.[] = String.[]
trim_start (String.◌∷◌ c s) = if is_space (code c) then trim_start s else String.◌∷◌ c s

trim_end : String → String
trim_end String.[] = String.[]
trim_end (String.◌∷◌ c s) =
    let rest = trim_end s in
    if is_space (code c) && is_empty rest then String.[] else String.◌∷◌ c rest

-- `text.trim()`
unfoldable pub trim : String → String
unfolding trim_start trim_end is_space
trim s = trim_end (trim_start s)

-- `[...new Set(list)]`: the first occurrence of each text stays.
unfoldable pub unique : List String → List String
unique [] = []
unique (x ∷ xs) = x ∷ filter (λ y. y !== x) (unique xs)

-- No text stands twice.
abbrev pub Distinct : List String → Type 0
Distinct [] = Unit
Distinct (x ∷ xs) = (includes xs x ≡ false) × Distinct xs

pub includes_iff : (xs : List String) (v : String) → (includes xs v ≡ true) ↔ In v xs
includes_iff [] v = (λ e. cc, λ m. elim m [ ])
includes_iff (x ∷ xs) v = ground (arith, includes_iff xs v, eq_iff x v)

pub In-unique : (v : String) (xs : List String) → In v (unique xs) ↔ In v xs
unfolding unique
In-unique v [] = (λ m. m, λ m. m)
In-unique v (x ∷ xs) =
    ground (arith, In-unique v xs, In-filter (λ y. y !== x) v (unique xs), eq_iff v x)

filter-Distinct : (p : String → Bool) (xs : List String) → Distinct xs → Distinct (filter p xs)
filter-Distinct p [] h = tt
filter-Distinct p (x ∷ xs) h =
    ground (
      arith,
      filter-Distinct p xs,
      includes_iff (filter p xs) x,
      includes_iff xs x,
      In-filter p x xs,
    )

pub unique-Distinct : (xs : List String) → Distinct (unique xs)
unfolding unique
unique-Distinct [] = tt
unique-Distinct (x ∷ xs) = ground (
  arith,
  unique-Distinct xs,
  filter-Distinct (λ y. y !== x) (unique xs),
  includes_iff (filter (λ y. y !== x) (unique xs)) x,
  In-filter (λ y. y !== x) x (unique xs),
  eq_iff x x,
)

length-unique : (xs : List String) → length (unique xs) ≤ length xs
unfolding unique
length-unique [] = omega arith
length-unique (x ∷ xs) = omega (arith, length-unique xs, length-filter (λ y. y !== x) (unique xs))

-- `new Set(list).size === list.length`
pub length-unique-Distinct : (xs : List String) → length (unique xs) ≡ length xs → Distinct xs
unfolding unique
length-unique-Distinct [] e = tt
length-unique-Distinct (x ∷ xs) e =
    let shorter = length-filter (λ y. y !== x) (unique xs) in
    let most = length-unique xs in
    let others = length-filter_kept (λ y. y !== x) (unique xs) (omega (arith, shorter, most, e)) in
    let rest : length (unique xs) ≡ length xs = omega (arith, shorter, most, e) in
    (
      elim (Bool-cases (includes xs x)) [
        | inr new ↦ new
        | inl again ↦
            let m = (In-unique x xs).1 ((includes_iff xs x).0 again) in
            let differs = all-In (λ y. y !== x) x (unique xs) others m in
            absurd (ground (arith, differs, eq_iff x x))
      ],
      length-unique-Distinct xs rest,
    )

-- `===` on texts that are given as lists of code units.
unfoldable pub same_units : List ℕ → List ℕ → Bool
same_units [] [] = true
same_units (a ∷ r) (b ∷ s) = a == b && same_units r s
same_units _ _ = false

pub same_units_iff : (a b : List ℕ) → (same_units a b ≡ true) ↔ (a ≡ b)
unfolding same_units
same_units_iff [] [] = (λ _. refl, λ _. refl)
same_units_iff (a ∷ r) (b ∷ s) = ground (arith, same_units_iff r s)
same_units_iff [] (b ∷ s) = ground arith
same_units_iff (a ∷ r) [] = ground arith
