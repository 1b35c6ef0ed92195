-- ===== src/CustomFields/Definitions.antt =====
-- validateFieldDefinition of src/lib/custom-fields.ts: which definitions of a field are accepted.
use planeo.Prelude.{
  ℕ, String, ◌+◌, ◌≤◌, Bool, true, false, not, ◌&&◌, ◌||◌, Option, none, some, inl, inr, List, [],
  ◌∷◌, any, filter, find, includes, includes_iff, ◌===◌, ===_iff, ◌!==◌, ◌==◌, ltb, if◌then◌else◌,
  maybe, maybe_both, Result, ok, err, ◌≡◌, ◌≢◌, units, trim, length, length-filter, unique,
  Distinct, In, In-unique, Bool-cases, arith,
}
use planeo.Prelude.Json.{Json, as_array, as_string, get, strings, is_undefined}
use planeo.CustomFields.{
  CustomFieldType, single_select, multi_select, custom_field_types, type_name,
}

pub data DefinitionError : Type 0 where
  name_length description_length invalid_type invalid_options not_a_select : DefinitionError

pub record Definition : Type 0 where
  pub name : String
  pub description : Option String
  pub type : CustomFieldType
  pub options : List String

abbrev trimmed : Option String → Option String
trimmed none = none
trimmed (some s) = some (trim s)

abbrev or_empty : Option String → String
or_empty none = ""
or_empty (some s) = s

abbrev is_long : ℕ → Option String → Bool
is_long limit none = false
is_long limit (some s) = ltb limit (units s)

abbrev pub is_select : CustomFieldType → Bool
is_select single_select = true
is_select multi_select = true
is_select _ = false

abbrev pub bad_option : String → Bool
bad_option s = trim s === "" || ltb 100 (units s)

-- The options that are given, if they are a list of texts.
abbrev given_options : Json → Option (List String)
given_options value =
    if is_undefined value then some [] else maybe (as_array value) none (λ vs. strings vs)

-- Up to 100 texts that are not blank, none of them twice.
abbrev accept_options : List String → Option (List String)
accept_options options =
    if any bad_option options
      || not (length (unique options) == length options)
      || ltb 100 (length options)
    then none
    else some options

unfoldable pub read_options : Json → Option (List String)
read_options value = maybe (given_options value) none (λ options. accept_options options)

abbrev definition :
    String
    → Option String
    → Option CustomFieldType
    → Option (List String)
    → Result DefinitionError Definition
definition name description none options = err invalid_type
definition name description (some type) none = err invalid_options
definition name description (some type) (some options) =
    if not (is_select type) && not (length options == 0)
    then err not_a_select
    else ok (record { name = name; description = description; type = type; options = options })

-- The type of a name, if CUSTOM_FIELD_TYPES has it.
unfoldable pub chosen_type : Option String → Option CustomFieldType
chosen_type none = none
chosen_type (some s) = find (λ t. type_name t === s) custom_field_types

unfoldable pub validate_field_definition : List (String × Json) → Result DefinitionError Definition
validate_field_definition input =
    let name = or_empty (trimmed (as_string (get "name" input))) in
    let description = trimmed (as_string (get "description" input)) in
    let type = chosen_type (as_string (get "type" input)) in
    if name === "" || ltb 100 (units name)
    then err name_length
    else if is_long 500 description
    then err description_length
    else definition name description type (read_options (get "options" input))

length-filter_lt :
    (p : String → Bool) (a : String) (xs : List String)
    → In a xs
    → p a ≡ false
    → length (filter p xs) + 1 ≤ length xs
length-filter_lt p a [] m e = elim m [ ]
length-filter_lt p a (x ∷ xs) (inl same) e = rw (← same) (ground (arith, length-filter p xs))
length-filter_lt p a (x ∷ xs) (inr m) e = ground (arith, length-filter_lt p a xs m e)

length-unique : (xs : List String) → length (unique xs) ≤ length xs
unfolding unique
length-unique [] = omega arith
length-unique (x ∷ xs) = omega (arith, length-unique xs, length-filter (λ y. y !== x) (unique xs))

-- A list that loses nothing to `new Set` has no text twice.
unique-length-Distinct : (xs : List String) → length (unique xs) ≡ length xs → Distinct xs
unfolding unique
unique-length-Distinct [] e = tt
unique-length-Distinct (x ∷ xs) e =
    let shrinks = length-filter (λ y. y !== x) (unique xs) in
    let shorter = length-unique xs in
    (
      elim (Bool-cases (includes xs x)) [
        | inr fresh ↦ fresh
        | inl there ↦
            let m = (In-unique x xs).1 ((includes_iff xs x).0 there) in
            let lost =
              length-filter_lt (λ y. y !== x) x (unique xs) m (ground (arith, ===_iff x x)) in
            absurd (omega (arith, lost, shorter, e))
      ],
      unique-length-Distinct xs (omega (arith, shrinks, shorter, e)),
    )

accept_options-Distinct :
    (given options : List String)
    → accept_options given ≡ some options
    → Distinct options × (length options ≤ 100) × (any bad_option options ≡ false)
accept_options-Distinct given options e =
    let same : given ≡ options = ground arith in
    let e' = rw same at e in
    let (kept, few, good) : (length (unique options) ≡ length options)
        × (length options ≤ 100)
        × (any bad_option options ≡ false) =
      ground arith in
    (unique-length-Distinct options kept, few, good)

read_options-Distinct :
    (value : Json) (options : List String)
    → read_options value ≡ some options
    → Distinct options × (length options ≤ 100) × (any bad_option options ≡ false)
unfolding read_options
read_options-Distinct value options =
    maybe_both
      (λ o.
        o ≡ some options
        → Distinct options × (length options ≤ 100) × (any bad_option options ≡ false))
      (given_options value) (λ e. cc) (λ given _ e. accept_options-Distinct given options e)

definition-options :
    (name : String) (description : Option String) (type : Option CustomFieldType)
    (options : Option (List String)) (d : Definition)
    → definition name description type options ≡ ok d
    → (d.name ≡ name)
      × (options ≡ some d.options)
      × (is_select d.type || (length d.options == 0) ≡ true)
definition-options name description none options d e = cc
definition-options name description (some type) none d e = cc
definition-options name description (some type) (some options) d e = ground arith

-- A definition that is accepted has a name of 1 to 100 characters, and at most 100 options, none of
-- them blank and none twice; and it has none at all unless its type is one of the two selects.
pub validate_field_definition_sound :
    (input : List (String × Json)) (d : Definition)
    → validate_field_definition input ≡ ok d
    → (d.name ≢ "")
      × (units d.name ≤ 100)
      × Distinct d.options
      × (length d.options ≤ 100)
      × (any bad_option d.options ≡ false)
      × (is_select d.type || (length d.options == 0) ≡ true)
unfolding validate_field_definition
validate_field_definition_sound input d e =
    let name = or_empty (trimmed (as_string (get "name" input))) in
    let named : (name === "" ≡ false) × (units name ≤ 100) = ground arith in
    let description = trimmed (as_string (get "description" input)) in
    let type = chosen_type (as_string (get "type" input)) in
    let options = read_options (get "options" input) in
    let defined : definition name description type options ≡ ok d = ground arith in
    let (same, read, selects) = definition-options name description type options d defined in
    let (distinct, few, good) = read_options-Distinct (get "options" input) d.options read in
    (λ blank. ground (arith, ===_iff name ""), rw same named.1, distinct, few, good, selects)
