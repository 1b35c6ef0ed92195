-- ===== src/Workflow/Rules.antt =====
-- The conditions and validators of src/lib/workflow.ts: what a kind of rule that the code does not
-- know does, and what the rule on the assignee ensures.
use planeo.Prelude.{
  String, Bool, true, false, ◌||◌, some, inl, inr, List, [], ◌∷◌, ◌++◌, ◌≡◌, refl, In, all-In,
  Bool-cases, arith, ===_iff, ok,
}
use planeo.Prelude.Json.{Json, get, as_string}
use planeo.Workflow.{
  WorkflowRule, Issue, Transition, Request, rules, holds, available, present, validator_error,
  validator_errors, truthy_json, truthy_text, evaluate_transition, is_null,
}
use planeo.Workflow.Evaluate.{chosen_iff}

-- The kinds that a condition can have, and those that a validator can have.
abbrev pub condition_kinds : List String
condition_kinds = "ROLE" ∷ "ASSIGNEE" ∷ "REPORTER" ∷ "ISSUE_TYPE" ∷ "FIELD_EQUALS" ∷ []

abbrev pub validator_kinds : List String
validator_kinds = "RESOLUTION" ∷ "REQUIRED_FIELD" ∷ []

holds_unknown :
    (same_json : Json → Json → Bool) (input : Request) (issue : Issue) (rule : WorkflowRule)
    → ¬ In rule.type condition_kinds
    → holds same_json input issue rule ≡ false
unfolding holds
holds_unknown same_json input issue rule unknown = ground (
  arith,
  ===_iff rule.type "ROLE",
  ===_iff rule.type "ASSIGNEE",
  ===_iff rule.type "REPORTER",
  ===_iff rule.type "ISSUE_TYPE",
  ===_iff rule.type "FIELD_EQUALS",
)

-- A transition with a condition of a kind that the code does not know is available to nobody.
pub unknown_condition :
    (same_json : Json → Json → Bool) (input : Request) (issue : Issue) (t : Transition)
    (rule : WorkflowRule)
    → In rule (rules t.conditions)
    → ¬ In rule.type condition_kinds
    → available same_json input issue t ≡ false
unknown_condition same_json input issue t rule m unknown =
    elim (Bool-cases (available same_json input issue t)) [
      | inr e ↦ e
      | inl e ↦
          let yes = all-In (λ r. holds same_json input issue r) rule (rules t.conditions) e m in
          let no = holds_unknown same_json input issue rule unknown in absurd (cc)
    ]

append-nil-left : {A : Type 0} (xs ys : List A) → xs ++ ys ≡ [] → (xs ≡ []) × (ys ≡ [])
append-nil-left [] ys e = (refl, e)
append-nil-left (x ∷ xs) ys e = cc

passed :
    (issue : Issue) (proposed : List (String × Json)) (list : List WorkflowRule)
    (rule : WorkflowRule)
    → validator_errors issue proposed list ≡ []
    → In rule list
    → validator_error issue proposed rule ≡ []
unfolding validator_errors
passed issue proposed [] rule e m = elim m [ ]
passed issue proposed (r ∷ list) rule e (inl same) = rw same ((append-nil-left _ _ e).0)
passed issue proposed (r ∷ list) rule e (inr m) =
    passed issue proposed list rule (append-nil-left (validator_error issue proposed r) _ e).1 m

module _ (same_json : Json → Json → Bool) (rows : List Transition) (issue : Issue) (input : Request)
    (t : Transition) (actions : List WorkflowRule) (rule : WorkflowRule)
    (moved : evaluate_transition same_json rows issue input ≡ ok (some (t, actions)))
    (asked : In rule (rules t.validators)) where
  no_objection : validator_error issue input.proposed rule ≡ []
  no_objection =
      let (_, _, clean, _) = (chosen_iff same_json rows issue input t actions).0 moved in
      passed issue input.proposed (rules t.validators) rule clean asked

  -- An issue that is moved by a transition with a rule on the resolution has one: it is proposed
  -- with the move, or the issue has it already.
  pub moved-resolution :
      rule.type ≡ "RESOLUTION"
      → truthy_json (get "resolution" input.proposed) || truthy_text issue.resolution ≡ true
  unfolding validator_error
  moved-resolution kind = ground (arith, ===_iff rule.type "RESOLUTION", no_objection)

  -- An issue that is moved by a transition that requires an assignee has one: the move does not
  -- take it away, and it is proposed with the move or the issue has it already.
  pub moved-assignee :
      rule.type ≡ "REQUIRED_FIELD"
      → as_string (get "field" rule.fields) ≡ some "assignee"
      → (is_null (get "assigneeId" input.proposed) ≡ false)
        × (truthy_json (get "assigneeId" input.proposed) || truthy_text issue.assignee_id ≡ true)
  unfolding validator_error present
  moved-assignee kind field = ground (
    arith,
    ===_iff rule.type "REQUIRED_FIELD",
    ===_iff rule.type "RESOLUTION",
    no_objection,
    ===_iff "assignee" "assignee",
  )
