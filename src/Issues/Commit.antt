-- ===== src/Issues/Commit.antt =====
-- The transaction of PATCH of src/app/api/issues/[id]/route.ts.
pub mod Steps
pub mod Limit
pub mod Stale
use planeo.Prelude.{
  ℕ, ◌+◌, String, Bool, true, false, not, ◌&&◌, ◌||◌, Option, none, some, List, [], ◌∷◌, ◌++◌, map,
  length, filter, any, find, ◌===◌, ◌!==◌, ◌==◌, ltb, leb, is_absent, maybe, if◌then◌else◌, Result,
  ok, err, throw_if, ◌>>=◌, ◌>>◌, ◌≡◌, trim,
}
use planeo.Prelude.Json.{
  Json, undefined, null, str, obj, Fields, field, end, num, whole, field_of, is_undefined,
  as_string, as_object, as_array, get, keys,
}
use planeo.Prelude.Int.{pos}
use planeo.Permissions.{PolicyContext, ProjectRole}
use planeo.Workflow
use planeo.Workflow.{
  WorkflowRule, WorkflowError, Transition, Request, FieldValue, evaluate_transition, strings,
}
use planeo.CustomFields.{World, Configuration, WriteError, validate_custom_field_writes}
use planeo.Issues.{
  Priority, urgent, high, medium, low, Row, Activity, Comment, status_changed, estimate_changed,
  History, assigned, mentioned, issue_updated, notify, webhook, automation, realtime, Job, FieldRow,
  Store, update_row,
}
use planeo.Issues.Body.{Status, Draft, priority_of}

pub data CommitError : Type 0 where
  workflow : WorkflowError → CommitError
  fields : WriteError → CommitError
  wip_limit issue_gone bad_priority : CommitError

-- What the transaction asks of the database and of its runtime: the rows of the workflow, the limit
-- of the column of a status, the configurations of the project's fields, the users whom a
-- description mentions, and `slice`.
pub record Project : Type 0 where
  pub id : String
  pub transitions : List Transition
  pub wip_limit : String → Option ℕ
  pub configurations : List Configuration
  pub world : World
  pub same_json : Json → Json → Bool
  pub mentions : String → List String
  pub slice : String → ℕ → String
  pub to_text : Json → String

module _ (project : Project) (context : PolicyContext) (role : Option ProjectRole)
    (existing : Row) where
  -- The status that the draft moves the issue to.
  abbrev pub target : Draft → Option String
  target d = maybe d.status none (λ s. if s.id === existing.status_id then none else some s.id)

  abbrev pub in_status : String → Row → Bool
  in_status status_id row =
      row.project_id === project.id && (row.status_id === status_id) && is_absent row.archived_at

  abbrev nullable : Option String → Json
  nullable none = null
  nullable (some s) = str s

  abbrev entry : {A : Type 0} → String → (A → Json) → Option A → List (String × Json)
  entry key json none = []
  entry key json (some a) = (key, json a) ∷ []

  abbrev priority_name : Priority → String
  priority_name urgent = "URGENT"
  priority_name high = "HIGH"
  priority_name medium = "MEDIUM"
  priority_name low = "LOW"

  abbrev nullable_date : Option ℕ → Json
  nullable_date none = null
  nullable_date (some date) = obj end

  abbrev nullable_number : Option ℕ → Json
  nullable_number none = null
  nullable_number (some n) = num (whole (pos n))

  -- `{ ...data }`
  abbrev proposed_of : Draft → List (String × Json)
  proposed_of d =
      entry "statusId" (λ (s : Status). str s.id) d.status
      ++ entry "completedAt" nullable_date d.completed_at
      ++ entry "resolution" nullable d.resolution
      ++ entry "summary" str d.summary
      ++ entry "description" str d.description
      ++ entry "priority" (λ p. str (priority_name p)) d.priority
      ++ entry "estimate" nullable_number d.estimate
      ++ entry "assigneeId" nullable d.assignee_id
      ++ entry "dueDate" nullable_date d.due_date
      ++ entry "hierarchyLevelId" nullable d.hierarchy_level_id

  abbrev field_values_of : List FieldRow → List FieldValue
  field_values_of rows =
      map (λ r. record { field_id = r.field_id; value = r.value })
        (filter (λ r. r.issue_id === existing.id) rows)

  abbrev request : Draft → String → Request
  request d status_id = record {
    project_id = project.id;
    from_status_id = existing.status_id;
    to_status_id = status_id;
    actor_id = context.user_id;
    workspace_role = context.role;
    project_role = role;
    proposed = proposed_of d;
  }

  abbrev workflow_issue : Row → List FieldRow → Workflow.Issue
  workflow_issue row rows = record {
    assignee_id = row.assignee_id;
    reporter_id = row.reporter_id;
    issue_type_id = row.issue_type_id;
    resolution = row.resolution;
    custom_field_values = field_values_of rows;
  }

  abbrev lift_workflow : {A : Type 0} → Result WorkflowError A → Result CommitError A
  lift_workflow (err fault) = err (workflow fault)
  lift_workflow (ok a) = ok a

  abbrev lift_fields : {A : Type 0} → Result WriteError A → Result CommitError A
  lift_fields (err fault) = err (fields fault)
  lift_fields (ok a) = ok a

  -- `execution`
  abbrev execution :
      Row → Draft → Store → Result CommitError (Option (Transition × List WorkflowRule))
  execution row d store = maybe (target d) (ok none) (λ status_id. lift_workflow (
      evaluate_transition project.same_json project.transitions
        (workflow_issue row store.field_values) (request d status_id)))

  abbrev pub full : Store → String → ℕ → Bool
  full store status_id limit =
      not (limit == 0) && leb limit (length (filter (in_status status_id) store.issues))

  abbrev pub over_limit : Draft → Store → Bool
  over_limit d store =
      maybe (target d) false
        (λ status_id. maybe (project.wip_limit status_id) false (full store status_id))

  -- ASSIGN and SET_PRIORITY of the loop over the actions. A priority that is no text is below.
  abbrev assignee_of : Draft → Option String → Option (Option String)
  assignee_of d none = d.assignee_id
  assignee_of d (some user_id) =
      if user_id === "ACTOR"
      then some (some context.user_id)
      else if user_id === "REPORTER"
      then some (some existing.reporter_id)
      else some (some user_id)

  abbrev act : WorkflowRule → Draft → Draft
  act action d =
      if action.type === "ASSIGN"
      then record d { assignee_id = assignee_of d (as_string (get "userId" action.fields)) }
      else if action.type === "SET_PRIORITY"
      then maybe (maybe (as_string (get "value" action.fields)) none priority_of) d
          (λ p. record d { priority = some p })
      else d
      -- Whether the priority that the loop leaves is one that the update refuses: a value that is no text

  -- but whose text is one of the four.
  abbrev keeps_bad : Json → Bool → Bool
  keeps_bad value bad =
      maybe (as_string value) (bad || not (is_absent (priority_of (project.to_text value))))
        (λ s. bad && is_absent (priority_of s))

  abbrev pub leaves_bad : Bool → List WorkflowRule → Bool
  leaves_bad bad [] = bad
  leaves_bad bad (action ∷ actions) =
      leaves_bad
        (if action.type === "SET_PRIORITY" then keeps_bad (get "value" action.fields) bad else bad)
        actions

  abbrev act_all : List WorkflowRule → Draft → Draft
  act_all [] d = d
  act_all (action ∷ actions) d = act_all actions (act action d)

  -- `actionFields`
  abbrev put : String → Json → List (String × Json) → List (String × Json)
  put key value [] = (key, value) ∷ []
  put key value ((k, v) ∷ entries) =
      let rest = put key value entries in
      if k === key then (key, value) ∷ entries else (k, v) ∷ rest

  abbrev put_all : List (String × Json) → List (String × Json) → List (String × Json)
  put_all entries [] = entries
  put_all entries ((k, v) ∷ more) = put_all (put k v entries) more

  abbrev action_fields : List WorkflowRule → List (String × Json) → List (String × Json)
  action_fields [] entries = entries
  action_fields (action ∷ actions) entries = action_fields actions (
      if action.type === "SET_FIELD"
      then maybe (as_string (get "fieldId" action.fields)) entries
          (λ id. put id (get "value" action.fields) entries)
      else entries)

  abbrev fields_of : List (String × Json) → Fields
  fields_of [] = end
  fields_of ((k, v) ∷ entries) = field k v (fields_of entries)

  -- `suppliedFields`, validated.
  abbrev custom_fields : Json → List (String × Json) → Result CommitError (List (String × Json))
  custom_fields given actions =
      if is_undefined given && length actions == 0
      then ok []
      else lift_fields (
          validate_custom_field_writes project.world project.configurations existing.issue_type_id
            (obj (fields_of (put_all (maybe (as_object given) [] (λ entries. entries)) actions)))
            true)

  abbrev pub apply_draft : Draft → Row → Row
  apply_draft d row = record row {
    status_id = maybe d.status row.status_id (λ s. s.id);
    completed_at = maybe d.completed_at row.completed_at (λ at. at);
    resolution = maybe d.resolution row.resolution (λ r. r);
    summary = maybe d.summary row.summary (λ s. s);
    description = maybe d.description row.description some;
    priority = maybe d.priority row.priority (λ p. p);
    estimate = maybe d.estimate row.estimate (λ n. n);
    assignee_id = maybe d.assignee_id row.assignee_id (λ id. id);
    due_date = maybe d.due_date row.due_date (λ date. date);
    hierarchy_level_id = maybe d.hierarchy_level_id row.hierarchy_level_id (λ id. id);
    version = row.version + 1;
  }

  -- `label.upsert`, and the issue's labels replaced.
  abbrev upsert_label : String → List (String × String) → List (String × String)
  upsert_label name labels =
      if any (λ l. l.0 === context.workspace_id && (l.1 === name)) labels
      then labels
      else (context.workspace_id, name) ∷ labels

  abbrev upsert_labels : List String → List (String × String) → List (String × String)
  upsert_labels [] labels = labels
  upsert_labels (name ∷ names) labels = upsert_labels names (upsert_label name labels)

  abbrev replace_labels : List String → List (String × String) → List (String × String)
  replace_labels names rows =
      map (λ name. (existing.id, name)) names ++ filter (λ r. r.0 !== existing.id) rows

  -- `customFieldValue.upsert`
  abbrev upsert_field : String → Json → List FieldRow → List FieldRow
  upsert_field field_id value rows =
      record { field_id = field_id; issue_id = existing.id; value = value }
      ∷ filter (λ r. not (r.field_id === field_id && (r.issue_id === existing.id))) rows

  abbrev upsert_fields : List (String × Json) → List FieldRow → List FieldRow
  upsert_fields [] rows = rows
  upsert_fields ((field_id, value) ∷ values) rows =
      upsert_fields values (upsert_field field_id value rows)

  abbrev comments_of : List WorkflowRule → List Comment
  comments_of [] = []
  comments_of (action ∷ actions) =
      let rest = comments_of actions in
      let text = maybe (as_string (get "text" action.fields)) "" trim in
      if action.type === "COMMENT" && text !== ""
      then record {
        issue_id = existing.id;
        author_id = context.user_id;
        body = project.slice text 20000;
      }
        ∷ rest
      else rest

  abbrev notices_of : List WorkflowRule → List Job
  notices_of [] = []
  notices_of (action ∷ actions) =
      let rest = notices_of actions in
      if action.type === "NOTIFY"
      then maybe (as_array (get "recipientIds" action.fields)) rest (λ vs.
        notify existing.id issue_updated (strings (get "recipientIds" action.fields)) ∷ rest)
      else rest

  abbrev history_of : Draft → Row → List History
  history_of d updated =
      if is_absent d.status && is_absent d.estimate
      then []
      else record {
        issue_id = existing.id;
        event = if is_absent d.status then estimate_changed else status_changed;
        status_id = updated.status_id;
        estimate = updated.estimate;
      }
        ∷ []

  abbrev new_assignee : Draft → List Job
  new_assignee d = maybe d.assignee_id [] (λ given. maybe given [] (λ id.
      if id === "" || maybe existing.assignee_id false (λ before. before === id)
      then []
      else notify existing.id assigned (id ∷ []) ∷ []))

  abbrev jobs_of : Draft → List String → List WorkflowRule → Row → List Job
  jobs_of d mentions actions updated =
      let moved = not (is_absent d.status) in
      new_assignee d
      ++ (notify existing.id mentioned mentions
          ∷ notify existing.id issue_updated existing.watchers
          ∷ notices_of actions)
      ++ (webhook existing.id updated.version
          ∷ automation moved existing.id updated.version
          ∷ realtime moved existing.id updated.version
          ∷ [])

  abbrev activity_of : Draft → Option (Transition × List WorkflowRule) → Activity
  activity_of d done = record {
    issue_id = existing.id;
    actor_id = context.user_id;
    action =
        if not (is_absent d.status) && length d.changed == 1
        then "issue.status_changed"
        else "issue.updated";
    changed = d.changed;
    transition_id = maybe done none (λ e. some (e.0).id);
  }

  abbrev pub write :
      Draft
      → List (String × Json)
      → Option (Transition × List WorkflowRule)
      → List WorkflowRule
      → List String
      → Row
      → Store
      → Store
  write d values done actions mentions row store =
      let updated = apply_draft d row in
      record {
        issues = update_row existing.id (apply_draft d) store.issues;
        labels = maybe d.label_names store.labels (λ names. upsert_labels names store.labels);
        issue_labels =
            maybe d.label_names store.issue_labels
              (λ names. replace_labels names store.issue_labels);
        field_values = upsert_fields values store.field_values;
        activities = activity_of d done ∷ store.activities;
        comments = comments_of actions ++ store.comments;
        histories = history_of d updated ++ store.histories;
        deletions = store.deletions;
        jobs = store.jobs ++ jobs_of d mentions actions updated;
      }

  abbrev pub actions_of : Option (Transition × List WorkflowRule) → List WorkflowRule
  actions_of none = []
  actions_of (some done) = done.1

  -- What follows the workflow's answer.
  abbrev pub finish :
      Json
      → Draft
      → Store
      → Row
      → Option (Transition × List WorkflowRule)
      → Result CommitError Store
  finish given d store row done =
      throw_if (over_limit d store) wip_limit
      >> (custom_fields given (action_fields (actions_of done) []) >>= λ values.
          throw_if (leaves_bad false (actions_of done)) bad_priority
          >> ok (
              write (act_all (actions_of done) d) values done (actions_of done)
                (maybe d.description [] project.mentions) row store))

  -- The update fails where the row is not there any more.
  unfoldable pub commit_edit : Json → Draft → Store → Result CommitError Store
  commit_edit given d store =
      maybe (find (λ row. row.id === existing.id) store.issues) (err issue_gone)
        (λ row. execution row d store >>= finish given d store row)
