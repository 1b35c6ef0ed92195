-- ===== src/Workflow.antt =====
-- src/lib/workflow.ts: which transition an issue may take to another status, and what it still
-- lacks. The transitions are rows in the order of the query, by position and id; the comparison of
-- two values by JSON.stringify is the parameter `same_json`.
pub mod Conditions
pub mod Evaluate
pub mod Met
pub mod Satisfied
pub mod Moves
pub mod Rules
pub mod Drafts
mod Tests
use planeo.Prelude.{
  ℕ, String, Bool, true, false, not, ◌&&◌, ◌||◌, Option, none, some, List, [], ◌∷◌, ◌++◌, all, any,
  filter, find, includes, ◌===◌, ◌!==◌, ◌==◌, if◌then◌else◌, Result, ok, err, ◌≡◌, maybe,
}
use planeo.Prelude.Int.{ℤ, pos, negsuc}
use planeo.Prelude.Json.{
  Json, undefined, null, bool, num, str, arr, obj, Number, whole, fraction, nan, as_object,
  as_array, as_string, get,
}
use planeo.Permissions.{WorkspaceRole, ProjectRole, workspace_role_name, project_role_name}

-- WorkflowRule: an object with a text under `type`.
pub record WorkflowRule : Type 0 where
  pub type : String
  pub fields : List (String × Json)

abbrev pub as_rule : Json → Option WorkflowRule
as_rule item = elim (as_object item) [
  | none ↦ none
  | some fields ↦ elim (as_string (get "type" fields)) [
    | none ↦ none
    | some type ↦ some (record { type = type; fields = fields })
  ]
]

-- What is there, of a list of values that may be missing.
abbrev keep {ℓ} : {A : Type ℓ} → Option A → List A → List A
keep none xs = xs
keep (some x) xs = x ∷ xs

rules_of : List Json → List WorkflowRule
rules_of [] = []
rules_of (item ∷ items) = keep (as_rule item) (rules_of items)

-- `rules(value)`: whatever is no rule is left out.
pub rules : Json → List WorkflowRule
unfolding rules_of
rules value = elim (as_array value) [ none ↦ [] | some items ↦ rules_of items ]

strings_of : List Json → List String
strings_of [] = []
strings_of (item ∷ items) = keep (as_string item) (strings_of items)

-- `strings(value)`
pub strings : Json → List String
unfolding strings_of
strings value = elim (as_array value) [ none ↦ [] | some items ↦ strings_of items ]

pub record FieldValue : Type 0 where
  pub field_id : String
  pub value : Json

pub record Issue : Type 0 where
  pub assignee_id : Option String
  pub reporter_id : String
  pub issue_type_id : String
  pub resolution : Option String
  pub custom_field_values : List FieldValue

pub record Transition : Type 0 where
  pub id : String
  pub project_id : String
  pub from_status_id : String
  pub to_status_id : String
  pub enabled : Bool
  pub conditions : Json
  pub validators : Json
  pub actions : Json

pub record Request : Type 0 where
  pub project_id : String
  pub from_status_id : String
  pub to_status_id : String
  pub actor_id : String
  pub workspace_role : WorkspaceRole
  pub project_role : Option ProjectRole
  pub proposed : List (String × Json)

-- `id === value` where the one may be null, or the other may be no text.
abbrev pub is_id : Option String → String → Bool
is_id none value = false
is_id (some id) value = id === value

abbrev pub is_text : String → Json → Bool
is_text id value = is_id (as_string value) id

abbrev pub role_name : Request → String
role_name input =
    maybe input.project_role (workspace_role_name input.workspace_role) (λ r. project_role_name r)

abbrev nonzero : ℤ → Bool
nonzero (pos n) = not (n == 0)
nonzero (negsuc n) = true

-- A value that JavaScript takes for true.
abbrev pub truthy_json : Json → Bool
truthy_json undefined = false
truthy_json null = false
truthy_json (bool b) = b
truthy_json (num (whole z)) = nonzero z
truthy_json (num (fraction n)) = true
truthy_json (num nan) = false
truthy_json (str s) = s !== ""
truthy_json (arr _) = true
truthy_json (obj _) = true

abbrev pub truthy_text : Option String → Bool
truthy_text none = false
truthy_text (some s) = s !== ""

abbrev pub is_null : Json → Bool
is_null null = true
is_null _ = false

-- The arms of `matches` for one rule.
pub holds : (Json → Json → Bool) → Request → Issue → WorkflowRule → Bool
holds same_json input issue rule =
    if rule.type === "ROLE"
    then includes (strings (get "roles" rule.fields)) (role_name input)
    else if rule.type === "ASSIGNEE"
    then is_id issue.assignee_id input.actor_id
    else if rule.type === "REPORTER"
    then issue.reporter_id === input.actor_id
    else if rule.type === "ISSUE_TYPE"
    then includes (strings (get "issueTypeIds" rule.fields)) issue.issue_type_id
    else if rule.type === "FIELD_EQUALS"
    then any
        (λ v.
          is_text v.field_id (get "fieldId" rule.fields)
          && same_json v.value (get "value" rule.fields))
        issue.custom_field_values
    else false

abbrev pub matches : (Json → Json → Bool) → Request → Issue → List WorkflowRule → Bool
matches same_json input issue conditions = all (λ rule. holds same_json input issue rule) conditions

pub data ValidatorError : Type 0 where
  resolution_required : ValidatorError
  field_missing : WorkflowRule → ValidatorError

-- `present` of a required field.
pub present : Issue → List (String × Json) → WorkflowRule → Bool
present issue proposed rule =
    if is_text "assignee" (get "field" rule.fields)
    then not (is_null (get "assigneeId" proposed))
      && (truthy_json (get "assigneeId" proposed) || truthy_text issue.assignee_id)
    else any (λ v. is_text v.field_id (get "fieldId" rule.fields)) issue.custom_field_values

pub validator_error : Issue → List (String × Json) → WorkflowRule → List ValidatorError
validator_error issue proposed rule =
    if rule.type === "RESOLUTION"
      && not (truthy_json (get "resolution" proposed) || truthy_text issue.resolution)
    then resolution_required ∷ []
    else if (rule.type === "REQUIRED_FIELD") && not (present issue proposed rule)
    then field_missing rule ∷ []
    else []

pub validator_errors : Issue → List (String × Json) → List WorkflowRule → List ValidatorError
validator_errors issue proposed [] = []
validator_errors issue proposed (rule ∷ rest) =
    validator_error issue proposed rule ++ validator_errors issue proposed rest

pub data WorkflowError : Type 0 where
  no_transition : WorkflowError
  rejected : ValidatorError → List ValidatorError → WorkflowError

-- The rows that `count` and `findMany` look for.
abbrev pub governs : String → Transition → Bool
governs project_id t = t.project_id === project_id && t.enabled

abbrev pub candidate : Request → Transition → Bool
candidate input t =
    governs input.project_id t
    && (t.from_status_id === input.from_status_id)
    && (t.to_status_id === input.to_status_id)

abbrev pub available : (Json → Json → Bool) → Request → Issue → Transition → Bool
available same_json input issue t = matches same_json input issue (rules t.conditions)

abbrev execute :
    Transition
    → List ValidatorError
    → Result WorkflowError (Option (Transition × List WorkflowRule))
execute t [] = ok (some (t, rules t.actions))
execute t (e ∷ es) = err (rejected e es)

-- `evaluateTransition`, of an issue that is there: `none` where the project has no workflow.
unfoldable pub evaluate_transition :
    (Json → Json → Bool)
    → List Transition
    → Issue
    → Request
    → Result WorkflowError (Option (Transition × List WorkflowRule))
evaluate_transition same_json rows issue input =
    if any (governs input.project_id) rows
    then elim (find (available same_json input issue) (filter (candidate input) rows)) [
      | none ↦ err no_transition
      | some t ↦ execute t (validator_errors issue input.proposed (rules t.validators))
    ]
    else ok none
