-- ===== src/CustomFields.antt =====
-- src/lib/custom-fields.ts: the values that are written to an issue's custom fields, and the
-- definition of a field. Members, the parsing of a URL and the reading of a day are parameters.
pub mod Writes
pub mod Definitions
mod Tests
use Prim.Native.Nat.{compare}
use planeo.Prelude.{
  ℕ, String, ◌+◌, Bool, true, false, not, ◌&&◌, ◌||◌, Option, none, some, List, [], ◌∷◌, all, any,
  filter, find, includes, ◌===◌, ◌!==◌, ◌==◌, ltb, leb, if◌then◌else◌, Result, ok, err, ◌>>=◌, ◌>>◌,
  throw_if, ◌≡◌, codes, units, trim, length, unique,
}
use planeo.Prelude.Json.{
  Json, undefined, null, bool, num, str, arr, obj, Number, whole, fraction, nan, as_object,
  as_array, as_string, elems, get, keys, strings,
}

pub data CustomFieldType : Type 0 where
  text number date boolean single_select multi_select user url : CustomFieldType

abbrev pub type_name : CustomFieldType → String
type_name text = "TEXT"
type_name number = "NUMBER"
type_name date = "DATE"
type_name boolean = "BOOLEAN"
type_name single_select = "SINGLE_SELECT"
type_name multi_select = "MULTI_SELECT"
type_name user = "USER"
type_name url = "URL"

-- CUSTOM_FIELD_TYPES
abbrev pub custom_field_types : List CustomFieldType
custom_field_types = text ∷ number ∷ date ∷ boolean ∷ single_select ∷ multi_select ∷ user ∷ url ∷ []

pub record Field : Type 0 where
  pub id : String
  pub type : CustomFieldType
  pub options : Json
  pub default_value : Json
  pub archived : Bool

-- FieldConfiguration
pub record Configuration : Type 0 where
  pub field : Field
  pub required : Bool
  pub issue_type_ids : Json

-- The texts of a list, and no other of its values.
texts_of : List Json → List String
texts_of [] = []
texts_of (str s ∷ vs) = s ∷ texts_of vs
texts_of (_ ∷ vs) = texts_of vs

pub texts : Json → List String
unfolding texts_of
texts value = elim (as_array value) [ none ↦ [] | some vs ↦ texts_of vs ]

pub configured_for_issue_type : Configuration → String → Bool
configured_for_issue_type configuration issue_type_id =
    length (texts configuration.issue_type_ids) == 0
    || includes (texts configuration.issue_type_ids) issue_type_id

-- What is asked of the database, of the runtime's `URL` (protocol and text) and of `Date.parse`.
pub record World : Type 0 where
  pub is_member : String → Bool
  pub parse_url : String → Option (String × String)
  pub is_date : String → Bool

abbrev is_digit : ℕ → Bool
is_digit c = leb b'0' c && leb c b'9'

-- /^\d{4}-\d{2}-\d{2}$/
abbrev pub is_day : List ℕ → Bool
is_day (a ∷ b ∷ c ∷ d ∷ e ∷ f ∷ g ∷ h ∷ i ∷ j ∷ []) =
    all is_digit (a ∷ b ∷ c ∷ d ∷ f ∷ g ∷ i ∷ j ∷ []) && e == b'-' && h == b'-'
is_day _ = false

abbrev accept : Bool → Json → Option Json
accept true value = some value
accept false value = none

abbrev accept_url : Option (String × String) → Option Json
accept_url none = none
accept_url (some (protocol, href)) =
    accept (protocol === "http:" || protocol === "https:") (str href)

-- Every value of the list is an option, and none stands twice.
abbrev are_options : List String → List Json → Bool
are_options options values = elim (strings values) [
  | none ↦ false
  | some chosen ↦ all (includes options) chosen && (length (unique chosen) == length chosen)
]

-- `typeof value === "number" && Number.isFinite(value)`
abbrev is_finite : Json → Bool
is_finite (num nan) = false
is_finite (num _) = true
is_finite _ = false

abbrev is_boolean : Json → Bool
is_boolean (bool _) = true
is_boolean _ = false

-- `normalizeValue`: `none` where it throws.
pub normalize_value : World → Field → Json → Option Json
normalize_value world field value = elim field.type [
  | text ↦ elim (as_string value) [ none ↦ none | some s ↦ accept (leb (units s) 10000) value ]
  | number ↦ accept (is_finite value) value
  | boolean ↦ accept (is_boolean value) value
  | date ↦ elim (as_string value) [
    | none ↦ none
    | some s ↦ accept (is_day (codes s) && world.is_date s) value
  ]
  | url ↦ elim (as_string value) [
    | none ↦ none
    | some s ↦ if ltb 2048 (units s) then none else accept_url (world.parse_url s)
  ]
  | single_select ↦ elim (as_string value) [
    | none ↦ none
    | some s ↦ accept (includes (texts field.options) s) value
  ]
  | multi_select ↦ elim (as_array value) [
    | none ↦ none
    | some vs ↦ accept (are_options (texts field.options) vs) value
  ]
  | user ↦ elim (as_string value) [ none ↦ none | some s ↦ accept (world.is_member s) value ]
]

pub data WriteError : Type 0 where
  not_an_object : WriteError
  not_configured archived_field required_field mismatch : String → WriteError

abbrev pub blank : Json → Bool
blank undefined = true
blank null = true
blank (str s) = s === ""
blank (arr vs) = length (elems vs) == 0
blank _ = false

-- `values ?? {}`, where it may be undefined.
abbrev supplied_of : Json → Result WriteError (List (String × Json))
supplied_of undefined = ok []
supplied_of (obj fs) = elim (as_object (obj fs)) [
  | none ↦ err not_an_object
  | some fields ↦ ok fields
]
supplied_of _ = err not_an_object

unfoldable pub applicable : List Configuration → String → List Configuration
applicable configurations issue_type_id =
    filter (λ c. configured_for_issue_type c issue_type_id) configurations

-- The first loop: over the keys that were supplied.
unfoldable pub check_keys : List Configuration → List String → Result WriteError (Unit {0})
check_keys known [] = ok tt
check_keys known (id ∷ ids) = elim (find (λ c. c.field.id === id) known) [
  | none ↦ err (not_configured id)
  | some c ↦ if c.field.archived then err (archived_field id) else check_keys known ids
]

-- The value given for a field, or else its default.
abbrev pub raw_value : List (String × Json) → Field → Json
raw_value supplied field =
    if includes (keys supplied) field.id then get field.id supplied else field.default_value

abbrev written :
    String
    → Option Json
    → Result WriteError (List (String × Json))
    → Result WriteError (List (String × Json))
written id none rest = err (mismatch id)
written id (some value) rest = rest >>= λ values. ok ((id, value) ∷ values)

-- The second loop: over the fields. What a later field throws comes after what an earlier one does.
unfoldable pub normalize_all :
    World
    → Bool
    → List (String × Json)
    → List Configuration
    → Result WriteError (List (String × Json))
normalize_all world partial_write supplied [] = ok []
normalize_all world partial_write supplied (c ∷ configurations) =
    let rest = normalize_all world partial_write supplied configurations in
    let raw = raw_value supplied c.field in
    if blank raw
    then if not partial_write && c.required then err (required_field c.field.id) else rest
    else written c.field.id (normalize_value world c.field raw) rest

unfoldable pub validate_custom_field_writes :
    World → List Configuration → String → Json → Bool → Result WriteError (List (String × Json))
validate_custom_field_writes world configurations issue_type_id values partial_write =
    supplied_of values >>= λ supplied.
    check_keys (applicable configurations issue_type_id) (keys supplied)
    >> normalize_all world partial_write supplied (applicable configurations issue_type_id)
