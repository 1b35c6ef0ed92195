-- ===== src/Sla/Rules.antt =====
-- validateConditions, matches and validateRules of ops/sla-engine.mjs.
use planeo.Prelude.{
  ℕ, String, Bool, true, false, not, ◌&&◌, ◌||◌, Option, none, some, List, [], ◌∷◌, all, any,
  length, map, includes, codes, units, unique, is_key_char, same_units, ◌===◌, ◌==◌, ltb, leb,
  maybe, if◌then◌else◌, Result, ok, err, throw_if, ◌>>=◌, ◌>>◌, traverse,
}
use planeo.Prelude.Json.{
  Json, undefined, null, bool, num, str, arr, obj, nil, cons, end, field, as_array, as_object,
  as_string, get, keys, or_else, field_of, same_value,
}
use planeo.Sla.{
  Condition, PauseReason, TimerRules, SlaError, too_many_conditions, bad_condition, bad_rules,
  bad_pauses, bad_reason, repeated_reason,
}

abbrev condition_fields : List String
condition_fields =
    "event" ∷ "statusId" ∷ "statusCategory" ∷ "requestTypeId" ∷ "priority" ∷ "organizationId"
    ∷ "label" ∷ []

-- What stands after "field:" in the name of a field.
abbrev pub custom_field : List ℕ → Option (List ℕ)
custom_field (a ∷ b ∷ c ∷ d ∷ e ∷ f ∷ rest) =
    if a == b'f' && b == b'i' && c == b'e' && d == b'l' && e == b'd' && f == b':'
    then some rest
    else none
custom_field _ = none

-- /^[a-zA-Z0-9_-]{1,…}$/
abbrev pub is_key : ℕ → List ℕ → Bool
is_key limit text = leb 1 (length text) && leb (length text) limit && all is_key_char text

abbrev is_condition_field : String → Bool
is_condition_field name =
    includes condition_fields name || maybe (custom_field (codes name)) false (is_key 100)

-- A text of at most 200, a number or a truth value.
abbrev is_comparable : Json → Bool
is_comparable (str s) = leb (units s) 200
is_comparable (num n) = true
is_comparable (bool b) = true
is_comparable undefined = false
is_comparable null = false
is_comparable (arr vs) = false
is_comparable (obj fs) = false

abbrev pub read_condition : Json → Result SlaError Condition
read_condition value = maybe (as_object value) (err bad_condition) (λ fields.
    throw_if (any (λ key. not (includes ("field" ∷ "equals" ∷ []) key)) (keys fields)) bad_condition
    >> maybe (as_string (get "field" fields)) (err bad_condition) (λ name.
      throw_if (not (is_condition_field name && is_comparable (get "equals" fields))) bad_condition
      >> ok (record { field = name; equals = get "equals" fields })))

-- `validateConditions`
unfoldable pub validate_conditions : Json → Result SlaError (List Condition)
validate_conditions value =
    maybe (as_array value) (err too_many_conditions) (λ items.
      throw_if (ltb 20 (length items)) too_many_conditions >> traverse read_condition items)

-- `payload.labels?.includes(value)`, where the labels are a list.
abbrev has_label : Json → Json → Bool
has_label labels value = maybe (as_array labels) false (any (λ label. same_value label value))

-- `payload.fields?.[id]`
abbrev field_with : List ℕ → List (String × Json) → Json
field_with id [] = undefined
field_with id ((key, value) ∷ fields) =
    if same_units (codes key) id then value else field_with id fields

abbrev pub meets : Json → Condition → Bool
meets payload c =
    if c.field === "label"
    then has_label (field_of "labels" payload) c.equals
    else maybe (custom_field (codes c.field)) (same_value (field_of c.field payload) c.equals)
        (λ id.
          same_value
            (maybe (as_object (field_of "fields" payload)) undefined
              (λ fields. field_with id fields))
            c.equals)

-- `matches`
unfoldable pub all_match : List Condition → Json → Bool
all_match conditions payload = all (meets payload) conditions

abbrev pub read_reason : Json → Result SlaError PauseReason
read_reason value = maybe (as_string (field_of "id" value)) (err bad_reason) (λ id.
    throw_if (not (is_key 50 (codes id))) bad_reason
    >> (validate_conditions (field_of "when" value) >>= λ conditions.
        ok (record { id = id; conditions = conditions })))

abbrev reason_ids : List PauseReason → List String
reason_ids reasons = map (λ r. r.id) reasons

abbrev pub read_pauses : Json → Result SlaError (List PauseReason)
read_pauses value = maybe (as_array value) (err bad_pauses) (λ items.
    throw_if (ltb 20 (length items)) bad_pauses
    >> (traverse read_reason items >>= λ reasons.
        throw_if (not (length (unique (reason_ids reasons)) == length reasons)) repeated_reason
        >> ok reasons))

-- A list of one comparison.
abbrev only : String → String → Json
only name value = arr (cons (obj (field "field" (str name) (field "equals" (str value) end))) nil)

abbrev default_stop : String → Json
default_stop metric =
    if metric === "RESPONSE" then only "event" "agent.replied" else only "statusCategory" "DONE"

abbrev rule_names : List String
rule_names = "start" ∷ "pause" ∷ "resume" ∷ "stop" ∷ "reset" ∷ "success" ∷ []

abbrev read_rules : String → List (String × Json) → Result SlaError TimerRules
read_rules metric input =
    let none_given = arr nil in
    throw_if (any (λ key. not (includes rule_names key)) (keys input)) bad_rules
    >> (read_pauses (or_else (get "pause" input) none_given) >>= λ pause.
        validate_conditions (or_else (get "start" input) none_given) >>= λ start.
        validate_conditions (or_else (get "resume" input) none_given) >>= λ resume.
        validate_conditions (or_else (get "stop" input) (default_stop metric)) >>= λ stop.
        validate_conditions (or_else (get "reset" input) (only "event" "request.reopened"))
        >>= λ reset. validate_conditions (or_else (get "success" input) none_given) >>= λ success.
            ok (record {
              start = start;
              pause = pause;
              resume = resume;
              stop = stop;
              reset = reset;
              success = success;
            }))

-- `validateRules`
unfoldable pub validate_rules : Json → String → Result SlaError TimerRules
validate_rules value metric =
    maybe (as_object (or_else value (obj end))) (err bad_rules) (read_rules metric)
