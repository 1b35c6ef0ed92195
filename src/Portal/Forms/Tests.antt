-- ===== src/Portal/Forms/Tests.antt =====
-- Runs of validatePortalSubmission of src/lib/service-requests.ts.
use planeo.Prelude.{String, true, false, none, some, [], ◌∷◌, ok, err, ◌≡◌, refl, trim, unique, In}
use planeo.Prelude.Int.{pos}
use planeo.Prelude.Json.{Json, undefined, bool, num, whole, str, arr, obj, field, end, nil, cons}
use planeo.Portal.Forms.{
  PortalField, Value, own, inherited, Runtime, summary, priority, unpublished_field, too_short,
  parse_portal_schema, validate_portal_submission,
}
use planeo.Portal.Forms.Entries.{IsShown}
use planeo.Portal.Forms.Submitted.{validate_portal_submission-IsEntry, IsEntry, entry_keys}

abbrev runtime : Runtime
runtime = record { slice = λ s n. s; is_regex = λ s. true; test = λ p s. true }

abbrev title : Json
title = obj (
    field "key" (str "title") (
      field "kind" (str "summary") (
        field "label" (str " Title ") (
          field "required" (bool true)
            (field "validation" (obj (field "minLength" (num (whole (pos 3))) end)) end)))))

abbrev urgency : Json
urgency = obj (
    field "key" (str "urgency") (
      field "kind" (str "priority") (
        field "label" (str "Urgency")
          (field "options" (arr (cons (str "HIGH") (cons (str "LOW") nil))) end))))

abbrev schema : Json
schema = obj (field "fields" (arr (cons title (cons urgency nil))) end)

abbrev title_field : PortalField
title_field = record {
  key = "title";
  kind = summary;
  custom_field_id = none;
  label = "Title";
  help_text = none;
  required = true;
  default_value = undefined;
  options = none;
  validation = some (record { min_length = some 3; max_length = none; pattern = none });
  visible_when = none;
}

abbrev urgency_field : PortalField
urgency_field = record {
  key = "urgency";
  kind = priority;
  custom_field_id = none;
  label = "Urgency";
  help_text = none;
  required = false;
  default_value = undefined;
  options = some ("HIGH" ∷ "LOW" ∷ []);
  validation = none;
  visible_when = none;
}

submits :
    validate_portal_submission runtime schema (obj (field "title" (str "Printer") end)) none
    ≡ ok (title_field ∷ urgency_field ∷ [], ("title", own (str "Printer")) ∷ [])
unfolding validate_portal_submission parse_portal_schema trim unique
submits = refl

submits_too_short :
    validate_portal_submission runtime schema (obj (field "title" (str "No") end)) none
    ≡ err (too_short "Title")
unfolding validate_portal_submission parse_portal_schema trim unique
submits_too_short = refl

submits_other_field :
    validate_portal_submission runtime schema (obj (field "team" (str "No") end)) none
    ≡ err unpublished_field
unfolding validate_portal_submission parse_portal_schema trim unique
submits_other_field = refl

-- A required field that is called like a property of every object needs no value.
abbrev maker : Json
maker = obj (
    field "fields"
      (arr (
        cons title (
          cons
            (obj (
              field "key" (str "constructor") (
                field "kind" (str "priority")
                  (field "label" (str "Constructor") (field "required" (bool true) end)))))
            nil)))
      end)

abbrev maker_field : PortalField
maker_field = record urgency_field {
  key = "constructor";
  label = "Constructor";
  required = true;
  options = none;
}

submits_without_constructor :
    validate_portal_submission runtime maker (obj (field "title" (str "Printer") end)) none
    ≡ ok (
      title_field ∷ maker_field ∷ [],
      ("title", own (str "Printer")) ∷ ("constructor", inherited "constructor") ∷ [],
    )
unfolding validate_portal_submission parse_portal_schema trim unique
submits_without_constructor = refl

validate_portal_submission-IsEntry_example :
    ((entry : String × Value)
      → In entry (("title", own (str "Printer")) ∷ [])
      → IsEntry runtime (title_field ∷ urgency_field ∷ []) (("title", str "Printer") ∷ []) entry)
    × ((f : PortalField)
        → In f (title_field ∷ urgency_field ∷ [])
        → IsShown (("title", str "Printer") ∷ []) f
        → f.required ≡ true
        → In f.key (entry_keys (("title", own (str "Printer")) ∷ [])))
validate_portal_submission-IsEntry_example =
    validate_portal_submission-IsEntry runtime schema (obj (field "title" (str "Printer") end)) none
      (title_field ∷ urgency_field ∷ []) (("title", str "Printer") ∷ [])
      (("title", own (str "Printer")) ∷ []) submits refl
