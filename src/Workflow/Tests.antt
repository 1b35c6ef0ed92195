-- ===== src/Workflow/Tests.antt =====
-- Runs of evaluateTransition of src/lib/workflow.ts.
use planeo.Prelude.{
  String, Bool, true, false, none, some, inl, inr, List, [], ◌∷◌, ◌≡◌, refl, ◌↔◌, In, ok, err,
  arith, ===_iff,
}
use planeo.Prelude.Json.{Json, str, arr, obj, nil, cons, field, end}
use planeo.Permissions.{WorkspaceRole}
use planeo.Workflow.{
  WorkflowRule, Issue, Transition, Request, rules, rules_of, strings, strings_of, holds, available,
  candidate, governs, present, validator_error, validator_errors, evaluate_transition,
  no_transition,
}
use planeo.Workflow.Evaluate.{evaluate_transition_refused}
use planeo.Workflow.Rules.{condition_kinds}

abbrev same_json : Json → Json → Bool
same_json a b = false

abbrev issue : Issue
issue = record {
  assignee_id = some "u";
  reporter_id = "v";
  issue_type_id = "task";
  resolution = none;
  custom_field_values = [];
}

abbrev typed : String → Json
typed type = obj (field "type" (str type) end)

abbrev needs_assignee : Json
needs_assignee = obj (field "type" (str "REQUIRED_FIELD") (field "field" (str "assignee") end))

-- For reporters alone, and then for the assignee, with two validators.
abbrev for_reporter : Transition
for_reporter = record {
  id = "t1";
  project_id = "p";
  from_status_id = "open";
  to_status_id = "done";
  enabled = true;
  conditions = arr (cons (typed "REPORTER") nil);
  validators = arr nil;
  actions = arr nil;
}

abbrev for_assignee : Transition
for_assignee = record for_reporter {
  id = "t2";
  conditions = arr (cons (typed "ASSIGNEE") nil);
  validators = arr (cons (typed "RESOLUTION") (cons needs_assignee nil));
}

abbrev rows : List Transition
rows = for_reporter ∷ for_assignee ∷ []

abbrev input : Request
input = record {
  project_id = "p";
  from_status_id = "open";
  to_status_id = "done";
  actor_id = "u";
  workspace_role = WorkspaceRole.member;
  project_role = none;
  proposed = ("resolution", str "fixed") ∷ [];
}

moves : evaluate_transition same_json rows issue input ≡ ok (some (for_assignee, []))
unfolding evaluate_transition rules rules_of strings strings_of holds validator_errors
    validator_error present
moves = refl

abbrev resolution_rule : WorkflowRule
resolution_rule = record { type = "RESOLUTION"; fields = ("type", str "RESOLUTION") ∷ [] }

abbrev assignee_rule : WorkflowRule
assignee_rule = record {
  type = "REQUIRED_FIELD";
  fields = ("type", str "REQUIRED_FIELD") ∷ ("field", str "assignee") ∷ [];
}

asks_resolution : In resolution_rule (rules for_assignee.validators)
unfolding rules rules_of
asks_resolution = inl refl

asks_assignee : In assignee_rule (rules for_assignee.validators)
unfolding rules rules_of
asks_assignee = inr (inl refl)

evaluate_transition_refused_example :
    (evaluate_transition same_json (for_reporter ∷ []) issue input ≡ err no_transition) ↔ (
      ((t : Transition) × In t (for_reporter ∷ []) × (governs input.project_id t ≡ true))
      × ((t : Transition)
          → In t (for_reporter ∷ [])
          → candidate input t ≡ true
          → available same_json input issue t ≡ false))
evaluate_transition_refused_example =
    evaluate_transition_refused same_json (for_reporter ∷ []) issue input

abbrev unknown : Transition
unknown = record for_reporter { conditions = arr (cons (typed "MOON") nil) }

abbrev moon : WorkflowRule
moon = record { type = "MOON"; fields = ("type", str "MOON") ∷ [] }

has_moon : In moon (rules unknown.conditions)
unfolding rules rules_of
has_moon = inl refl

moon_unknown : ¬ In moon.type condition_kinds
moon_unknown m = ground (
  arith,
  ===_iff "MOON" "ROLE",
  ===_iff "MOON" "ASSIGNEE",
  ===_iff "MOON" "REPORTER",
  ===_iff "MOON" "ISSUE_TYPE",
  ===_iff "MOON" "FIELD_EQUALS",
)
