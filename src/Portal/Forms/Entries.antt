-- ===== src/Portal/Forms/Entries.antt =====
-- validatePortalSubmission of src/lib/service-requests.ts: what a value of a submission is, in terms of
-- what was submitted and of the field's settings.
use planeo.Prelude.{ℕ, ◌≤◌, ◌⊎◌, String, true, none, some, List, In, length, units, ◌≡◌, ◌≢◌}
use planeo.Prelude.Json.{
  Json, Items, undefined, null, str, arr, nil, elems, strings, get, keys, same_value,
}
use planeo.Portal.Forms.{
  attachment, PortalField, Validation, VisibleWhen, Runtime, Value, own, inherited, prototype_keys,
  supplied_value,
}

-- The field has no condition, or the field that it names was given the value that it asks for.
abbrev pub IsShown : List (String × Json) → PortalField → Type 0
IsShown supplied f =
    (f.visible_when ≡ none)
    ⊎ (c : VisibleWhen) × (f.visible_when ≡ some c)
      × (v : Json) × (supplied_value supplied c.field_key ≡ own v)
      × (same_value v c.equals ≡ true)

-- Where a value comes from: the submission, or else the field's default; but a key of Object.prototype
-- that the submission does not have gives what every object has.
abbrev pub IsFrom : List (String × Json) → PortalField → Value → Type 0
IsFrom supplied f value =
    ((v : Json) × (value ≡ own v) × In (f.key, v) supplied)
    ⊎ ((value ≡ own f.default_value)
        × ((get f.key supplied ≡ undefined) ⊎ (get f.key supplied ≡ null)))
    ⊎ ((value ≡ inherited f.key) × In f.key prototype_keys × ¬ In f.key (keys supplied))

abbrev pub IsFilled : Value → Type 0
IsFilled value =
    (value ≢ own undefined) × (value ≢ own null) × (value ≢ own (str "")) × (value ≢ own (arr nil))

abbrev pub IsUploads : Value → Type 0
IsUploads value =
    (files : Items) × (value ≡ own (arr files))
    × (length (elems files) ≤ 10)
    × ((texts : List String) × (strings (elems files) ≡ some texts))

-- A text has the lengths that are asked for, and matches the pattern if there is one.
pub record Fits (runtime : Runtime) (rules : Validation) (s : String) : Type 0 where
  pub long : (n : ℕ) → rules.min_length ≡ some n → n ≤ units s
  pub short : (n : ℕ) → rules.max_length ≡ some n → units s ≤ n
  pub matching : (p : String) → rules.pattern ≡ some p → p ≢ "" → runtime.test p s ≡ true

-- An attachment is of at most ten texts; another value fits the rules if it is a text, and is one of
-- the options if there are some.
pub record KeepsTo (runtime : Runtime) (f : PortalField) (value : Value) : Type 0 where
  pub uploads : f.kind ≡ attachment → IsUploads value
  pub fits :
      (rules : Validation) (s : String)
      → f.kind ≢ attachment
      → f.validation ≡ some rules
      → value ≡ own (str s)
      → Fits runtime rules s
  pub chosen :
      (options : List String)
      → f.kind ≢ attachment
      → f.options ≡ some options
      → (s : String) × (value ≡ own (str s)) × In s options
