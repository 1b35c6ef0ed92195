-- ===== src/Workflow/Drafts/Tests.antt =====
-- Runs of validateWorkflowDraft of src/lib/workflow.ts.
use planeo.Prelude.{
  ◌≤◌, List, [], ◌∷◌, map, length, In, ok, err, ◌≡◌, refl, trim, unique, ◌===◌, ◌||◌,
}
use planeo.Prelude.Json.{undefined, str, arr, obj, nil, cons, field, end}
use planeo.Workflow.{rules, rules_of, strings, strings_of}
use planeo.Workflow.Drafts.{
  TransitionDraft, ReadyDraft, DraftTables, foreign_status, same_status, rule_without_type,
  validate_workflow_draft,
}
use planeo.Workflow.Drafts.Valid.{
  AreNumbered, IsReady, IsOfProject, validate_workflow_draft-IsReady,
}

abbrev tables : DraftTables
tables = record {
  has_status = λ id. id === "open" || (id === "done");
  has_issue_type = λ id. id === "task";
  has_field = λ id. id === "team";
}

abbrev close : TransitionDraft
close = record {
  from_status_id = str "open";
  to_status_id = str "done";
  name = str " Close ";
  conditions = arr (
      cons
        (obj (
          field "type" (str "ISSUE_TYPE") (field "issueTypeIds" (arr (cons (str "task") nil)) end)))
        nil);
  validators =
      arr (cons (obj (field "type" (str "REQUIRED_FIELD") (field "fieldId" (str "team") end))) nil);
  actions = undefined;
}

abbrev back : TransitionDraft
back = record close {
  from_status_id = str "done";
  to_status_id = str "open";
  name = str " ";
  conditions = undefined;
  validators = undefined;
}

abbrev ready : List ReadyDraft
ready =
    record { draft = close; title = "Close"; position = 0 }
    ∷ record { draft = back; title = "Transition"; position = 1 }
    ∷ []

accepts : validate_workflow_draft tables (close ∷ back ∷ []) ≡ ok ready
unfolding validate_workflow_draft rules rules_of strings strings_of trim unique
accepts = refl

refuses_stranger :
    validate_workflow_draft tables (record close { to_status_id = str "gone" } ∷ [])
    ≡ err foreign_status
unfolding validate_workflow_draft rules rules_of strings strings_of trim unique
refuses_stranger = refl

refuses_standing :
    validate_workflow_draft tables (record close { to_status_id = str "open" } ∷ [])
    ≡ err same_status
unfolding validate_workflow_draft rules rules_of strings strings_of trim unique
refuses_standing = refl

refuses_blank_type :
    validate_workflow_draft tables
      (record back { actions = arr (cons (obj (field "type" (str "") end)) nil) } ∷ [])
    ≡ err rule_without_type
unfolding validate_workflow_draft rules rules_of strings strings_of trim unique
refuses_blank_type = refl

-- A condition without a type is left out before the rules are tested.
abbrev untyped : TransitionDraft
untyped = record back {
  conditions = arr (cons (obj (field "roles" (arr (cons (str "OWNER") nil)) end)) nil);
}

accepts_untyped :
    validate_workflow_draft tables (untyped ∷ [])
    ≡ ok (record { draft = untyped; title = "Transition"; position = 0 } ∷ [])
unfolding validate_workflow_draft rules rules_of strings strings_of trim unique
accepts_untyped = refl

validate_workflow_draft-IsReady_example :
    (length (close ∷ back ∷ []) ≤ 200)
    × (map (λ r. r.draft) ready ≡ close ∷ back ∷ [])
    × AreNumbered 0 ready
    × ((r : ReadyDraft) → In r ready → IsReady r)
    × ((item : TransitionDraft) → In item (close ∷ back ∷ []) → IsOfProject tables item)
validate_workflow_draft-IsReady_example =
    validate_workflow_draft-IsReady tables (close ∷ back ∷ []) ready accepts
