-- ===== src/Workflow/Drafts.antt =====
-- validateWorkflowDraft of src/lib/workflow.ts: the transitions that replace those of a project.
pub mod Parts
pub mod Valid
mod Tests
use planeo.Prelude.{
  ℕ, ◌+◌, String, Bool, true, false, not, ◌&&◌, ◌||◌, Option, none, some, List, [], ◌∷◌, ◌++◌, all,
  any, filter, length, units, trim, unique, ltb, ◌===◌, ◌==◌, maybe, is_absent, if◌then◌else◌,
  Result, ok, err, throw_if, ◌>>=◌, ◌>>◌,
}
use planeo.Prelude.Json.{
  Json, undefined, null, bool, num, str, arr, obj, as_string, get, same_value,
}
use planeo.Workflow.{WorkflowRule, rules, strings}

-- `TransitionDraft`, as the request has it.
pub record TransitionDraft : Type 0 where
  pub from_status_id : Json
  pub to_status_id : Json
  pub name : Json
  pub conditions : Json
  pub validators : Json
  pub actions : Json

-- A draft with the name and the position that are set.
pub record ReadyDraft : Type 0 where
  pub draft : TransitionDraft
  pub title : String
  pub position : ℕ

pub data DraftError : Type 0 where
  too_many foreign_status bad_issue_type missing_field same_status : DraftError
  name_is_no_text long_name rule_without_type : DraftError

-- What the project has: statuses, types of issue, and custom fields that are not archived. A row of an
-- id is there once, so a count of rows is that of the ids that have one.
pub record DraftTables : Type 0 where
  pub has_status : String → Bool
  pub has_issue_type : String → Bool
  pub has_field : String → Bool

abbrev pub lacks_row : (String → Bool) → List String → Bool
lacks_row has ids = not (length (filter has (unique ids)) == length (unique ids))

-- `item.fromStatusId` and `item.toStatusId` of all, and none where one is no text.
abbrev pub status_ids : List TransitionDraft → Option (List String)
status_ids [] = some []
status_ids (item ∷ items) = maybe (as_string item.from_status_id) none (λ from.
    maybe (as_string item.to_status_id) none
      (λ to. maybe (status_ids items) none (λ rest. some (from ∷ to ∷ rest))))

abbrev pub rules_issue_types : List WorkflowRule → List String
rules_issue_types [] = []
rules_issue_types (rule ∷ list) =
    let rest = rules_issue_types list in
    if rule.type === "ISSUE_TYPE" then strings (get "issueTypeIds" rule.fields) ++ rest else rest

abbrev pub condition_issue_types : List TransitionDraft → List String
condition_issue_types [] = []
condition_issue_types (item ∷ items) =
    rules_issue_types (rules item.conditions) ++ condition_issue_types items

abbrev pub all_rules : TransitionDraft → List WorkflowRule
all_rules item = rules item.conditions ++ (rules item.validators ++ rules item.actions)

abbrev add_id : Option String → List String → List String
add_id none ids = ids
add_id (some id) ids = id ∷ ids

abbrev pub rule_fields : List WorkflowRule → List String
rule_fields [] = []
rule_fields (rule ∷ list) = add_id (as_string (get "fieldId" rule.fields)) (rule_fields list)

abbrev pub draft_fields : List TransitionDraft → List String
draft_fields [] = []
draft_fields (item ∷ items) = rule_fields (all_rules item) ++ draft_fields items

-- `item.name?.trim() || "Transition"`, which throws where there is a name that is no text.
abbrev pub title_of : Json → Result DraftError String
title_of undefined = ok "Transition"
title_of null = ok "Transition"
title_of (str s) = ok (if trim s === "" then "Transition" else trim s)
title_of _ = err name_is_no_text

-- `validateRules`, of rules that have a text for their type.
abbrev pub has_untyped : TransitionDraft → Bool
has_untyped item = any (λ (rule : WorkflowRule). rule.type === "") (all_rules item)

abbrev pub ready_draft : ℕ → TransitionDraft → Result DraftError ReadyDraft
ready_draft index item =
    throw_if (same_value item.from_status_id item.to_status_id) same_status
    >> (title_of item.name >>= λ title.
        throw_if (ltb 100 (units title)) long_name
        >> (throw_if (has_untyped item) rule_without_type
            >> ok (record { draft = item; title = title; position = index })))

-- The loop.
abbrev pub ready_drafts : ℕ → List TransitionDraft → Result DraftError (List ReadyDraft)
ready_drafts index [] = ok []
ready_drafts index (item ∷ items) =
    ready_draft index item >>= λ ready. ready_drafts (index + 1) items >>= λ rest. ok (ready ∷ rest)

-- `validateWorkflowDraft`
unfoldable pub validate_workflow_draft :
    DraftTables → List TransitionDraft → Result DraftError (List ReadyDraft)
validate_workflow_draft tables transitions =
    throw_if (ltb 200 (length transitions)) too_many
    >> maybe (status_ids transitions) (err foreign_status) (λ ids.
      throw_if (lacks_row tables.has_status ids) foreign_status
      >> (throw_if (lacks_row tables.has_issue_type (condition_issue_types transitions))
            bad_issue_type
          >> (throw_if (lacks_row tables.has_field (draft_fields transitions)) missing_field
              >> ready_drafts 0 transitions)))
