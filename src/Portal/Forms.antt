-- ===== src/Portal/Forms.antt =====
-- src/lib/service-requests.ts: the form of a request type, and what a customer submits with it.
pub mod Entries
pub mod Rules
pub mod Submitted
mod Tests
use planeo.Prelude.{
  ℕ, zero, suc, ◌+◌, String, Bool, true, false, not, ◌&&◌, ◌||◌, Option, none, some, List, [], ◌∷◌,
  all, any, map, filter, length, includes, codes, units, trim, unique, is_key_char, ◌===◌, ◌==◌,
  ltb, leb, maybe, is_absent, if◌then◌else◌, Result, ok, err, throw_if, ◌>>=◌, ◌>>◌, traverse,
}
use planeo.Prelude.Int.{ℤ, pos, negsuc}
use planeo.Prelude.Json.{
  Json, undefined, null, bool, num, str, arr, obj, nil, cons, as_object, as_array, as_string,
  as_integer, is_undefined, is_true, strings, get, keys, or_else, field_of, same_value,
}

-- PORTAL_FIELD_KINDS
pub data FieldKind : Type 0 where
  summary description priority custom attachment : FieldKind

abbrev pub kind_name : FieldKind → String
kind_name summary = "summary"
kind_name description = "description"
kind_name priority = "priority"
kind_name custom = "custom"
kind_name attachment = "attachment"

abbrev kind_of : String → Option FieldKind
kind_of name =
    if name === "summary"
    then some summary
    else if name === "description"
    then some description
    else if name === "priority"
    then some priority
    else if name === "custom"
    then some custom
    else if name === "attachment"
    then some attachment
    else none

pub record Validation : Type 0 where
  pub min_length : Option ℕ
  pub max_length : Option ℕ
  pub pattern : Option String

pub record VisibleWhen : Type 0 where
  pub field_key : String
  pub equals : Json

pub record PortalField : Type 0 where
  pub key : String
  pub kind : FieldKind
  pub custom_field_id : Option String
  pub label : String
  pub help_text : Option String
  pub required : Bool
  pub default_value : Json
  pub options : Option (List String)
  pub validation : Option Validation
  pub visible_when : Option VisibleWhen

pub data FormError : Type 0 where
  no_schema too_many_fields repeated_key unknown_condition no_summary repeated_standard : FormError
  bad_field bad_name no_field_id bad_options unknown_rule bad_length : FormError
  unsafe_pattern bad_pattern bad_condition unavailable_field : FormError
  no_values unpublished_field no_consent : FormError
  is_required bad_uploads too_short too_long bad_value bad_option : String → FormError

-- The runtime's `slice` of a text from its start, and its regular expressions.
pub record Runtime : Type 0 where
  pub slice : String → ℕ → String
  pub is_regex : String → Bool
  pub test : String → String → Bool

abbrev is_lower : ℕ → Bool
is_lower c = leb b'a' c && leb c b'z'

-- /^[a-z][a-zA-Z0-9_-]{0,63}$/
abbrev is_field_key : List ℕ → Bool
is_field_key [] = false
is_field_key (c ∷ rest) = is_lower c && all is_key_char rest && leb (length rest) 63

abbrev trimmed_or_blank : Json → String
trimmed_or_blank value = maybe (as_string value) "" trim

abbrev is_option : String → Bool
is_option s = not (trim s === "") && leb (units s) 100

-- `none` for no options; whatever is neither that nor a good list is refused.
abbrev parse_options : Json → Result FormError (Option (List String))
parse_options undefined = ok none
parse_options value = maybe (as_array value) (err bad_options) (λ items.
    maybe (strings items) (err bad_options) (λ texts.
      throw_if
        (not (
          leb (length texts) 100 && all is_option texts && (length (unique texts) == length texts)))
        bad_options
      >> ok (some texts)))

abbrev length_of : ℕ → ℤ → Result FormError (Option ℕ)
length_of least (pos n) = if leb least n && leb n 10000 then ok (some n) else err bad_length
length_of least (negsuc n) = err bad_length

abbrev read_length : ℕ → Json → Result FormError (Option ℕ)
read_length least value =
    if is_undefined value
    then ok none
    else maybe (as_integer value) (err bad_length) (length_of least)

abbrev are_crossed : Option ℕ → Option ℕ → Bool
are_crossed (some low) (some high) = ltb high low
are_crossed _ _ = false

-- /[()|]|\\[1-9]/
abbrev is_unsafe : List ℕ → Bool
is_unsafe [] = false
is_unsafe (c ∷ []) = c == b'(' || c == b')' || c == b'|'
is_unsafe (c ∷ d ∷ rest) =
    c == b'('
    || c == b')'
    || c == b'|'
    || c == 92 && leb b'1' d && leb d b'9'
    || is_unsafe (d ∷ rest)

abbrev is_scalar : Json → Bool
is_scalar (str s) = true
is_scalar (bool b) = true
is_scalar (num n) = true
is_scalar _ = false

-- What every object has of Object.prototype, where it has no such key of its own.
abbrev pub prototype_keys : List String
prototype_keys =
    "constructor" ∷ "hasOwnProperty" ∷ "isPrototypeOf" ∷ "propertyIsEnumerable" ∷ "toLocaleString"
    ∷ "toString" ∷ "valueOf" ∷ "__proto__" ∷ "__defineGetter__" ∷ "__defineSetter__"
    ∷ "__lookupGetter__" ∷ "__lookupSetter__" ∷ []

-- A value of the submission, or the function or object that Object.prototype has under a key.
pub data Value : Type 0 where
  own : Json → Value
  inherited : String → Value

-- `supplied[key]`
abbrev pub supplied_value : List (String × Json) → String → Value
supplied_value supplied key =
    if not (includes (keys supplied) key) && includes prototype_keys key
    then inherited key
    else own (get key supplied)

-- `value === scalar`
abbrev pub equals_scalar : Value → Json → Bool
equals_scalar (own value) scalar = same_value value scalar
equals_scalar (inherited key) scalar = false

abbrev pub as_own_string : Value → Option String
as_own_string (own value) = as_string value
as_own_string (inherited key) = none

abbrev pub as_own_array : Value → Option (List Json)
as_own_array (own value) = as_array value
as_own_array (inherited key) = none

module _ (runtime : Runtime) where
  abbrev read_pattern : Json → Result FormError (Option String)
  read_pattern undefined = ok none
  read_pattern value = maybe (as_string value) (err unsafe_pattern) (λ text.
      throw_if (ltb 200 (units text) || is_unsafe (codes text)) unsafe_pattern
      >> (throw_if (not (runtime.is_regex text)) bad_pattern >> ok (some text)))

  abbrev parse_rules : List (String × Json) → Result FormError (Option Validation)
  parse_rules rules =
      throw_if
        (any (λ key. not (includes ("minLength" ∷ "maxLength" ∷ "pattern" ∷ []) key)) (keys rules))
        unknown_rule
      >> (read_length 0 (get "minLength" rules) >>= λ low.
          read_length 1 (get "maxLength" rules) >>= λ high.
          throw_if (are_crossed low high) bad_length
          >> (read_pattern (get "pattern" rules) >>= λ pattern.
              ok (some (record { min_length = low; max_length = high; pattern = pattern }))))

  -- Rules that are no object are left out.
  abbrev read_validation : Json → Result FormError (Option Validation)
  read_validation value = maybe (as_object value) (ok none) parse_rules

  abbrev condition_of : List (String × Json) → Result FormError (Option VisibleWhen)
  condition_of fields = maybe (as_string (get "fieldKey" fields)) (err bad_condition) (λ key.
      throw_if (not (is_scalar (get "equals" fields))) bad_condition
      >> ok (some (record { field_key = key; equals = get "equals" fields })))

  abbrev parse_condition : Json → Result FormError (Option VisibleWhen)
  parse_condition value = maybe (as_object value) (ok none) condition_of

  abbrev custom_id : FieldKind → Json → Option String
  custom_id custom value = as_string value
  custom_id kind value = none

  -- An id that is missing or empty.
  abbrev lacks_id : FieldKind → Json → Bool
  lacks_id custom value = maybe (as_string value) true (λ id. id === "")
  lacks_id kind value = false

  abbrev field_from : List (String × Json) → Result FormError PortalField
  field_from input =
      let key = trimmed_or_blank (get "key" input) in
      let label = trimmed_or_blank (get "label" input) in
      maybe (maybe (as_string (get "kind" input)) none kind_of) (err bad_name) (λ kind.
        throw_if (not (is_field_key (codes key)) || label === "" || ltb 100 (units label)) bad_name
        >> (throw_if (lacks_id kind (get "customFieldId" input)) no_field_id
            >> (parse_options (get "options" input) >>= λ options.
                read_validation (get "validation" input) >>= λ validation.
                parse_condition (get "visibleWhen" input) >>= λ visible_when. ok (record {
                  key = key;
                  kind = kind;
                  custom_field_id = custom_id kind (get "customFieldId" input);
                  label = label;
                  help_text =
                      maybe (as_string (get "helpText" input)) none
                        (λ s. some (runtime.slice (trim s) 500));
                  required = is_true (get "required" input);
                  default_value = get "defaultValue" input;
                  options = options;
                  validation = validation;
                  visible_when = visible_when;
                }))))

  -- `parseField`
  abbrev pub parse_field : Json → Result FormError PortalField
  parse_field value = maybe (as_object value) (err bad_field) field_from

  abbrev pub field_keys : List PortalField → List String
  field_keys fields = map (λ f. f.key) fields

  abbrev pub of_kind : FieldKind → PortalField → Bool
  of_kind kind f = kind_name f.kind === kind_name kind

  abbrev pub count_of : FieldKind → List PortalField → ℕ
  count_of kind fields = length (filter (of_kind kind) fields)

  -- A condition on a field that is not there.
  abbrev pub dangles : List String → PortalField → Bool
  dangles keys f = maybe f.visible_when false (λ c. not (includes keys c.field_key))

  abbrev pub check_schema : Bool → List PortalField → Result FormError (List PortalField)
  check_schema allow_incomplete fields =
      throw_if (not (length (unique (field_keys fields)) == length fields)) repeated_key
      >> (throw_if (any (dangles (field_keys fields)) fields) unknown_condition
          >> (throw_if (not allow_incomplete && (count_of summary fields == 0)) no_summary
              >> (throw_if
                    (ltb 1 (count_of summary fields)
                      || ltb 1 (count_of description fields)
                      || ltb 1 (count_of priority fields))
                    repeated_standard
                  >> ok fields)))

  -- `parsePortalSchema`
  unfoldable pub parse_portal_schema : Bool → Json → Result FormError (List PortalField)
  parse_portal_schema allow_incomplete value = maybe (as_object value) (err no_schema) (λ input.
      maybe (as_array (get "fields" input)) (err too_many_fields) (λ items.
        throw_if (ltb 50 (length items)) too_many_fields
        >> (traverse parse_field items >>= check_schema allow_incomplete)))

  abbrev pub is_visible : List (String × Json) → PortalField → Bool
  is_visible supplied f =
      maybe f.visible_when true (λ c. equals_scalar (supplied_value supplied c.field_key) c.equals)

  -- `supplied[field.key] ?? field.defaultValue`
  abbrev pub value_of : List (String × Json) → PortalField → Value
  value_of supplied f = elim (supplied_value supplied f.key) [
    | own value ↦ own (or_else value f.default_value)
    | inherited key ↦ inherited key
  ]

  abbrev pub is_missing : Value → Bool
  is_missing (own undefined) = true
  is_missing (own null) = true
  is_missing (own (str s)) = s === ""
  is_missing (own (arr nil)) = true
  is_missing _ = false

  abbrev pub are_uploads : Value → Bool
  are_uploads value =
      maybe (as_own_array value) false
        (λ items. leb (length items) 10 && not (is_absent (strings items)))

  abbrev pub is_shorter : Option ℕ → String → Bool
  is_shorter least s = maybe least false (λ n. ltb (units s) n)

  abbrev pub is_longer : Option ℕ → String → Bool
  is_longer most s = maybe most false (λ n. ltb n (units s))

  -- A pattern that is empty is none.
  abbrev pub fails : Option String → String → Bool
  fails pattern s = maybe pattern false (λ p. not (p === "") && not (runtime.test p s))

  abbrev pub check_rules : PortalField → Validation → String → Result FormError (Unit {0})
  check_rules f v s =
      throw_if (is_shorter v.min_length s) (too_short f.label)
      >> (throw_if (is_longer v.max_length s) (too_long f.label)
          >> throw_if (fails v.pattern s) (bad_value f.label))

  -- Rules are for texts.
  abbrev pub check_text : PortalField → Value → Result FormError (Unit {0})
  check_text f value =
      maybe (as_own_string value) (ok tt) (λ s. maybe f.validation (ok tt) (λ v. check_rules f v s))

  abbrev pub is_chosen : Option (List String) → Value → Bool
  is_chosen options value =
      maybe options true (λ texts. maybe (as_own_string value) false (includes texts))

  abbrev pub check_value : PortalField → Value → Result FormError (Unit {0})
  check_value f value =
      if of_kind attachment f
      then throw_if (not (are_uploads value)) (bad_uploads f.label)
      else check_text f value >> throw_if (not (is_chosen f.options value)) (bad_option f.label)

  -- The body of the loop: what the field adds to the values, if it adds something.
  abbrev pub submit_field : List (String × Json) → PortalField → Result FormError (Option Value)
  submit_field supplied f =
      let value = value_of supplied f in
      if not (is_visible supplied f)
      then ok none
      else if is_missing value
      then (if f.required then err (is_required f.label) else ok none)
      else check_value f value >> ok (some value)

  abbrev pub submit_fields :
      List (String × Json) → List PortalField → Result FormError (List (String × Value))
  submit_fields supplied [] = ok []
  submit_fields supplied (f ∷ fs) = submit_field supplied f >>= λ value.
      submit_fields supplied fs >>= λ rest. ok (maybe value rest (λ v. (f.key, v) ∷ rest))

  abbrev pub asks_consent : Option String → Bool
  asks_consent consent = maybe consent false (λ text. not (text === ""))

  abbrev pub allowed_keys : Option String → List PortalField → List String
  allowed_keys consent fields =
      if asks_consent consent then "consent" ∷ field_keys fields else field_keys fields

  abbrev pub submit :
      Option String
      → List PortalField
      → List (String × Json)
      → Result FormError (List PortalField × List (String × Value))
  submit consent fields supplied =
      throw_if (any (λ key. not (includes (allowed_keys consent fields) key)) (keys supplied))
        unpublished_field
      >> (submit_fields supplied fields >>= λ values.
          throw_if (asks_consent consent && not (is_true (get "consent" supplied))) no_consent
          >> ok (fields, values))

  -- `validatePortalSubmission`
  unfoldable pub validate_portal_submission :
      Json → Json → Option String → Result FormError (List PortalField × List (String × Value))
  validate_portal_submission schema values consent = parse_portal_schema false schema >>= λ fields.
      maybe (as_object values) (err no_values) (submit consent fields)

  abbrev reference_ids : List PortalField → List String
  reference_ids [] = []
  reference_ids (f ∷ fs) =
      let rest = reference_ids fs in
      maybe f.custom_field_id rest (λ id. if id === "" then rest else id ∷ rest)

  -- `assertPortalSchemaReferences`; `is_active` is whether the project has the field, unarchived.
  pub assert_portal_schema_references : (String → Bool) → Json → Result FormError (List PortalField)
  assert_portal_schema_references is_active schema = parse_portal_schema true schema >>= λ fields.
      throw_if (any (λ id. not (is_active id)) (reference_ids fields)) unavailable_field
      >> ok fields
