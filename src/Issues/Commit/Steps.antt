-- ===== src/Issues/Commit/Steps.antt =====
-- The steps of the transaction of PATCH of src/app/api/issues/[id]/route.ts, where it succeeds.
use planeo.Prelude.{
  String, Bool, true, false, Option, some, inl, inr, List, [], ◌∷◌, find, ◌===◌, ===_iff,
  maybe_both, throw_if_passed, ok, ◌≡◌, ◌≢◌, refl, ap, ◌∙◌, arith, Bool-cases, Option-cases,
  Result-cases,
}
use planeo.Prelude.Json.{Json}
use planeo.Permissions.{PolicyContext, ProjectRole}
use planeo.Workflow.{WorkflowRule, Transition}
use planeo.Issues.{Row, Store, update_row}
use planeo.Issues.Body.{Draft}
use planeo.Issues.Commit.{
  Project, over_limit, apply_draft, act, act_all, leaves_bad, bad_priority, actions_of, finish,
  custom_fields, action_fields, execution, commit_edit,
}

abbrev pub has_id : String → Row → Bool
has_id id row = row.id === id

module _ (id : String) (f : Row → Row) where
  pub find-update_row :
      (rows : List Row) (row : Row)
      → ((x : Row) → (f x).id ≡ x.id)
      → find (has_id id) rows ≡ some row
      → find (has_id id) (update_row id f rows) ≡ some (f row)
  find-update_row [] row same found = cc
  find-update_row (x ∷ rows) row same found = elim (Bool-cases (has_id id x)) [
    | inl hit ↦
        let is_row : x ≡ row = cc (rw hit at found) in
        let still : has_id id (f x) ≡ true = rw (same x) hit in
        rw (hit, still) (ap (λ y. some (f y)) is_row)
    | inr missed ↦ rw (missed, missed) (find-update_row rows row same (rw missed at found))
  ]

  pub find-update_row_other :
      (other : String) (rows : List Row)
      → ((x : Row) → (f x).id ≡ x.id)
      → other ≢ id
      → find (has_id other) (update_row id f rows) ≡ find (has_id other) rows
  find-update_row_other other [] same differ = refl
  find-update_row_other other (x ∷ rows) same differ = elim (Bool-cases (has_id id x)) [
    | inl hit ↦
        let away : has_id other x ≡ false =
          ground (arith, hit, differ, ===_iff x.id id, ===_iff x.id other) in
        let still : has_id other (f x) ≡ false = rw (same x) away in
        rw (hit, still, away) (find-update_row_other other rows same differ)
    | inr missed ↦ elim (Bool-cases (has_id other x)) [
      | inl there ↦ rw (missed, there) refl
      | inr away ↦ rw (missed, away) (find-update_row_other other rows same differ)
    ]
  ]

module _ (project : Project) (context : PolicyContext) (role : Option ProjectRole)
    (existing : Row) where
  -- The steps of a transaction that succeeds.
  pub record Committed (given : Json) (d : Draft) (store after : Store) : Type 0 where
    pub row : Row
    pub stored : find (has_id existing.id) store.issues ≡ some row
    pub done : Option (Transition × List WorkflowRule)
    pub executed : execution project context role existing row d store ≡ ok done
    pub values : List (String × Json)
    pub valid :
        custom_fields project context role existing given (
          action_fields project context role existing
            (actions_of project context role existing done)
            [])
        ≡ ok values
    pub within_limit : over_limit project context role existing d store ≡ false
    pub good_priority :
        leaves_bad project context role existing false
          (actions_of project context role existing done)
        ≡ false
    pub final : Draft
    pub moves : final.status ≡ d.status
    pub issues :
        after.issues
        ≡ update_row existing.id (apply_draft project context role existing final) store.issues

  act-status :
      (action : WorkflowRule) (d : Draft)
      → (act project context role existing action d).status ≡ d.status
  act-status action d = elim (Bool-cases (action.type === "ASSIGN")) [
    | inl assigns ↦ rw assigns refl
    | inr other ↦ elim (Bool-cases (action.type === "SET_PRIORITY")) [
      | inl sets ↦
          rw (other, sets)
            (maybe_both (λ (x : Draft). x.status ≡ d.status) _ refl (λ p given. refl))
      | inr neither ↦ rw (other, neither) refl
    ]
  ]

  act_all-status :
      (actions : List WorkflowRule) (d : Draft)
      → (act_all project context role existing actions d).status ≡ d.status
  act_all-status [] d = refl
  act_all-status (action ∷ actions) d =
      act_all-status actions (act project context role existing action d) ∙ act-status action d

  finish-issues :
      (given : Json) (d : Draft) (store after : Store) (row : Row)
      (done : Option (Transition × List WorkflowRule))
      → finish project context role existing given d store row done ≡ ok after
      → (over_limit project context role existing d store ≡ false)
        × ((values : List (String × Json)) × (custom_fields project context role existing given (
                action_fields project context role existing
                  (actions_of project context role existing done)
                  [])
              ≡ ok values))
        × (leaves_bad project context role existing false
              (actions_of project context role existing done)
            ≡ false)
        × (after.issues
            ≡ update_row existing.id
                (apply_draft project context role existing (
                  act_all project context role existing
                    (actions_of project context role existing done)
                    d))
                store.issues)
  finish-issues given d store after row done e =
      elim (Bool-cases (over_limit project context role existing d store)) [
        | inl over ↦ absurd (cc (rw over at e))
        | inr within ↦
            elim (Result-cases (
              custom_fields project context role existing given (
                action_fields project context role existing
                  (actions_of project context role existing done) []))) [
                    | inl (fault, invalid) ↦ absurd (cc (rw (within, invalid) at e))
                    | inr (values, valid) ↦
                        let (good, e1) =
                          throw_if_passed
                            (leaves_bad project context role existing false
                              (actions_of project context role existing done))
                            bad_priority _ (rw (within, valid) at e) in
                        (within, (values, valid), good, cc)
                  ]
      ]

  pub commit_edit-Committed :
      (given : Json) (d : Draft) (store after : Store)
      → commit_edit project context role existing given d store ≡ ok after
      → Committed given d store after
  unfolding commit_edit
  commit_edit-Committed given d store after e =
      elim (Option-cases (find (has_id existing.id) store.issues)) [
        | inl gone ↦ absurd (cc (rw (gone, commit_edit) at e))
        | inr (row, stored) ↦
            elim (Result-cases (execution project context role existing row d store)) [
              | inl (fault, refused) ↦ absurd (cc (rw (stored, refused, commit_edit) at e))
              | inr (done, executed) ↦
                  let (within, (values, valid), good, issues) =
                    finish-issues given d store after row done
                      (rw (stored, executed, commit_edit) at e) in
                  record {
                    row = row;
                    stored = stored;
                    done = done;
                    executed = executed;
                    values = values;
                    valid = valid;
                    within_limit = within;
                    good_priority = good;
                    final =
                        act_all project context role existing
                          (actions_of project context role existing done) d;
                    moves = act_all-status (actions_of project context role existing done) d;
                    issues = issues;
                  }
            ]
      ]
