-- ===== src/Workflow/Conditions.antt =====
-- The conditions and validators of src/lib/workflow.ts, described without the code that tests them.
use planeo.Prelude.{
  String, Bool, true, Option, none, some, inl, inr, ◌⊎◌, List, In, ◌===◌, ===_iff, ◌≡◌, ◌≢◌, ◌↔◌,
  refl, sym, ap, ◌∙◌, arith, Bool-cases, Option-cases,
}
use planeo.Prelude.Json.{Json, undefined, null, bool, num, str, arr, obj, get}
use planeo.Permissions.{project_role_name, workspace_role_name, ProjectRole}
use planeo.Workflow.{
  WorkflowRule, FieldValue, Issue, Transition, Request, rules, strings, is_text, is_id, role_name,
  truthy_json, truthy_text, is_null,
}

-- The name of the actor's role: that in the project, or else that in the workspace.
abbrev pub HasRole : Request → String → Type 0
HasRole input name =
    ((r : ProjectRole) × (input.project_role ≡ some r) × (name ≡ project_role_name r))
    ⊎ ((input.project_role ≡ none) × (name ≡ workspace_role_name input.workspace_role))

module _ (same_json : Json → Json → Bool) (input : Request) (issue : Issue) where
  -- A condition of one of the five kinds that holds.
  abbrev pub Meets : WorkflowRule → Type 0
  Meets rule =
      ((rule.type ≡ "ROLE")
        × ((name : String) × HasRole input name × In name (strings (get "roles" rule.fields))))
      ⊎ ((rule.type ≡ "ASSIGNEE") × (issue.assignee_id ≡ some input.actor_id))
      ⊎ ((rule.type ≡ "REPORTER") × (issue.reporter_id ≡ input.actor_id))
      ⊎ ((rule.type ≡ "ISSUE_TYPE")
          × In issue.issue_type_id (strings (get "issueTypeIds" rule.fields)))
      ⊎ ((rule.type ≡ "FIELD_EQUALS")
          × ((v : FieldValue) × In v issue.custom_field_values
              × (get "fieldId" rule.fields ≡ str v.field_id)
              × (same_json v.value (get "value" rule.fields) ≡ true)))

  -- A transition that the actor may take: an enabled one of the project, between the two statuses,
  -- all of whose conditions hold.
  pub record IsOpen (t : Transition) : Type 0 where
    pub of_project : t.project_id ≡ input.project_id
    pub enabled : t.enabled ≡ true
    pub from : t.from_status_id ≡ input.from_status_id
    pub to : t.to_status_id ≡ input.to_status_id
    pub met : (rule : WorkflowRule) → In rule (rules t.conditions) → Meets rule

module _ (issue : Issue) (proposed : List (String × Json)) where
  -- Text that is there and not empty.
  abbrev IsGiven : Option String → Type 0
  IsGiven text = (s : String) × (text ≡ some s) × (s ≢ "")

  abbrev pub HasField : WorkflowRule → Type 0
  HasField rule =
      ((get "field" rule.fields ≡ str "assignee")
        × (get "assigneeId" proposed ≢ null)
        × ((truthy_json (get "assigneeId" proposed) ≡ true) ⊎ IsGiven issue.assignee_id))
      ⊎ ((get "field" rule.fields ≢ str "assignee")
          × ((v : FieldValue) × In v issue.custom_field_values
              × (get "fieldId" rule.fields ≡ str v.field_id)))

  -- What a validator asks of the issue with the proposed values; other kinds ask for nothing.
  pub record IsSatisfied (rule : WorkflowRule) : Type 0 where
    pub resolved :
        rule.type ≡ "RESOLUTION"
        → (truthy_json (get "resolution" proposed) ≡ true) ⊎ IsGiven issue.resolution
    pub filled : rule.type ≡ "REQUIRED_FIELD" → HasField rule

pub is_text_iff : (id : String) (value : Json) → (is_text id value ≡ true) ↔ (value ≡ str id)
is_text_iff id (str s) = (λ e. ap str ((===_iff s id).0 e), λ e. (===_iff s id).1 cc)
is_text_iff id undefined = (λ e. absurd cc, λ e. absurd cc)
is_text_iff id null = (λ e. absurd cc, λ e. absurd cc)
is_text_iff id (bool _) = (λ e. absurd cc, λ e. absurd cc)
is_text_iff id (num _) = (λ e. absurd cc, λ e. absurd cc)
is_text_iff id (arr _) = (λ e. absurd cc, λ e. absurd cc)
is_text_iff id (obj _) = (λ e. absurd cc, λ e. absurd cc)

pub is_id_iff : (id : Option String) (value : String) → (is_id id value ≡ true) ↔ (id ≡ some value)
is_id_iff none value = (λ e. absurd cc, λ e. absurd cc)
is_id_iff (some id) value = (λ e. ap some ((===_iff id value).0 e), λ e. (===_iff id value).1 cc)

pub is_null_iff : (value : Json) → (is_null value ≡ true) ↔ (value ≡ null)
is_null_iff null = (λ e. refl, λ e. refl)
is_null_iff undefined = (λ e. absurd cc, λ e. absurd cc)
is_null_iff (str _) = (λ e. absurd cc, λ e. absurd cc)
is_null_iff (bool _) = (λ e. absurd cc, λ e. absurd cc)
is_null_iff (num _) = (λ e. absurd cc, λ e. absurd cc)
is_null_iff (arr _) = (λ e. absurd cc, λ e. absurd cc)
is_null_iff (obj _) = (λ e. absurd cc, λ e. absurd cc)

pub truthy_text_iff :
    (text : Option String) → (truthy_text text ≡ true) ↔ ((s : String) × (text ≡ some s) × (s ≢ ""))
truthy_text_iff none = (λ e. absurd cc, λ (s, e, n). absurd cc)
truthy_text_iff (some s) = (
  λ e. (s, refl, λ blank. let bad = (===_iff s "").1 blank in absurd (ground arith)),
  λ (t, same, given). elim (Bool-cases (s === "")) [
    | inr filled ↦ ground arith
    | inl blank ↦ let st : s ≡ t = cc in absurd (given (sym st ∙ (===_iff s "").0 blank))
  ],
)

pub role_name-HasRole : (input : Request) → HasRole input (role_name input)
role_name-HasRole input = elim (Option-cases input.project_role) [
  | inl nothing ↦ inr (nothing, rw nothing refl)
  | inr (r, given) ↦ inl (r, given, rw given refl)
]

pub HasRole-role_name :
    (input : Request) (name : String) → HasRole input name → name ≡ role_name input
HasRole-role_name input name (inl (r, given, same)) = rw given same
HasRole-role_name input name (inr (nothing, same)) = rw nothing same
