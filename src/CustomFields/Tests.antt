-- ===== src/CustomFields/Tests.antt =====
-- Definitions and writes of custom fields by src/lib/custom-fields.ts.
use planeo.Prelude.{
  String, true, false, none, some, inl, inr, List, [], ◌∷◌, ◌≡◌, ◌≢◌, refl, In, ok, find, ◌===◌,
  trim, unique,
}
use planeo.Prelude.Json.{Json, null, str, arr, obj, nil, cons, field, end}
use planeo.CustomFields.{
  Configuration, World, text, single_select, applicable, configured_for_issue_type, texts, texts_of,
  check_keys, normalize_all, normalize_value, raw_value, supplied_of, validate_custom_field_writes,
}
use planeo.CustomFields.Definitions.{
  Definition, validate_field_definition, chosen_type, read_options,
}
use planeo.CustomFields.Writes.{required_written, archived_required_refused}

abbrev world : World
world = record { is_member = λ id. true; parse_url = λ s. none; is_date = λ s. true }

abbrev severity : Configuration
severity = record {
  field = record {
    id = "severity";
    type = single_select;
    options = arr (cons (str "low") (cons (str "high") nil));
    default_value = str "low";
    archived = false;
  };
  required = true;
  issue_type_ids = arr nil;
}

abbrev retired : Configuration
retired = record {
  field = record {
    id = "retired";
    type = text;
    options = null;
    default_value = null;
    archived = true;
  };
  required = true;
  issue_type_ids = arr (cons (str "bug") nil);
}

abbrev both : List Configuration
both = severity ∷ retired ∷ []

abbrev given : Json
given = obj (field "severity" (str "high") end)

abbrev values : List (String × Json)
values = ("severity", str "high") ∷ []

accepted : validate_custom_field_writes world both "task" given false ≡ ok values
unfolding validate_custom_field_writes applicable configured_for_issue_type texts texts_of
    check_keys normalize_all normalize_value
accepted = refl

severity_applies : In severity (applicable both "task")
unfolding applicable configured_for_issue_type texts texts_of
severity_applies = inl refl

required_written_example :
    (supplied : List (String × Json)) × (v : Json) × (supplied_of given ≡ ok supplied)
    × (normalize_value world severity.field (raw_value supplied severity.field) ≡ some v)
    × In (severity.field.id, v) values
required_written_example =
    required_written world both "task" given false values accepted severity severity_applies refl

retired_applies : In retired (applicable both "bug")
unfolding applicable configured_for_issue_type texts texts_of
retired_applies = inr (inl refl)

retired_found : find (λ d. d.field.id === retired.field.id) (applicable both "bug") ≡ some retired
unfolding applicable configured_for_issue_type texts texts_of
retired_found = refl

archived_required_refused_example :
    validate_custom_field_writes world both "bug" given false ≢ ok values
archived_required_refused_example =
    archived_required_refused world both "bug" given retired values retired_applies retired_found
      refl refl refl

abbrev input : List (String × Json)
input =
    ("name", str " Severity ")
    ∷ ("type", str "SINGLE_SELECT")
    ∷ ("options", arr (cons (str "low") (cons (str "high") nil)))
    ∷ []

abbrev defined : Definition
defined = record {
  name = "Severity";
  description = none;
  type = single_select;
  options = "low" ∷ "high" ∷ [];
}

defines : validate_field_definition input ≡ ok defined
unfolding validate_field_definition chosen_type read_options trim unique
defines = refl
