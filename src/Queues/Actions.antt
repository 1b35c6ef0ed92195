-- ===== src/Queues/Actions.antt =====
-- applyQueueAction of src/lib/service-queues.ts: an action on rows of a snapshot.
pub mod Current
use planeo.Prelude.{
  ℕ, ◌+◌, String, Bool, true, false, not, ◌&&◌, ◌||◌, Option, none, some, List, [], ◌∷◌, ◌++◌, all,
  any, map, filter, find, length, includes, unique, ◌===◌, ◌!==◌, ◌==◌, ltb, leb, maybe, is_absent,
  if◌then◌else◌, Result, ok, err, throw_if, ◌>>=◌, ◌>>◌,
}
use planeo.Prelude.Json.{
  Json, undefined, null, bool, str, obj, Fields, field, end, as_object, as_array, as_string,
  strings, get, keys, is_true, is_undefined,
}
use planeo.Permissions.{PolicyContext}
use planeo.Workflow
use planeo.Workflow.{
  WorkflowError, WorkflowRule, Transition, Request, FieldValue, evaluate_transition,
}
use planeo.CustomFields.{WriteError, validate_custom_field_writes}
use planeo.Issues.{
  Row, Activity, History, status_changed, assigned, Job, notify, webhook, automation, realtime,
  FieldRow,
}
use planeo.Issues.Body.{Status, priority_of}
use planeo.Issues.Commit
use planeo.Identity.{AuditEvent}
use planeo.Queues
use planeo.Queues.{
  QueueError, QueueRuntime, Project, ServiceRequest, QueueIssue, Db, priorities, queue_project,
  own_role, is_open_row,
}
use planeo.Queues.Snapshots
use planeo.Queues.Snapshots.{QueueRow, read_queue_snapshot}

pub data ActionError : Type 0 where
  queue : QueueError → ActionError
  workflow : WorkflowError → ActionError
  fields : WriteError → ActionError
  bad_selection no_action unsupported_action bad_claim bad_priority bad_assignee : ActionError
  bad_reference no_agent no_status no_request_type bad_participants no_access : ActionError
  request_changed has_actions wip_limit refused : ActionError

abbrev pub of_queue : {A : Type 0} → Result QueueError A → Result ActionError A
of_queue (err fault) = err (queue fault)
of_queue (ok a) = ok a

abbrev of_workflow : {A : Type 0} → Result WorkflowError A → Result ActionError A
of_workflow (err fault) = err (workflow fault)
of_workflow (ok a) = ok a

abbrev of_fields : {A : Type 0} → Result WriteError A → Result ActionError A
of_fields (err fault) = err (fields fault)
of_fields (ok a) = ok a

pub record RequestType : Type 0 where
  pub id : String
  pub issue_type_id : String

-- What the transaction reads besides the issues: the agents, the statuses and the published request
-- types of the project, and the customers who have access to it now. `rules` has what the workflow
-- and the fields ask.
pub record Reads : Type 0 where
  pub is_agent : String → Bool
  pub project_status : String → Option Status
  pub request_type_of : String → Option RequestType
  pub is_customer : String → Bool
  pub rules : Commit.Project

-- The tables that are written; `participants` pairs a request with a customer.
pub record Tables : Type 0 where
  pub issues : List QueueIssue
  pub field_values : List FieldRow
  pub participants : List (String × String)
  pub activities : List Activity
  pub histories : List History
  pub jobs : List Job
  pub audits : List AuditEvent

-- The action, read.
pub record Action : Type 0 where
  pub claim : Bool
  pub assignee : Option (Option String)
  pub priority : Option planeo.Issues.Priority
  pub status : Option Status
  pub request_type : Option RequestType
  pub participants : Option (List String)
  pub names : List String

abbrev pub is_selected : List QueueRow → String → Bool
is_selected rows id = any (λ (row : QueueRow). row.id === id) rows

-- `ids`
abbrev pub read_ids : List QueueRow → Json → Result ActionError (List String)
read_ids rows value = maybe (maybe (as_array value) none strings) (err bad_selection) (λ ids.
    throw_if
      (length ids == 0
        || ltb 100 (length ids)
        || not (length (unique ids) == length ids)
        || not (all (is_selected rows) ids))
      bad_selection
    >> ok ids)

abbrev is_action : String → Bool
is_action key =
    includes
      ("claim" ∷ "assigneeId" ∷ "priority" ∷ "statusId" ∷ "requestTypeId" ∷ "participantIds" ∷ [])
      key

abbrev is_bad_claim : List (String × Json) → Bool
is_bad_claim action =
    not (is_undefined (get "claim" action)) && not (is_true (get "claim" action))
    || is_true (get "claim" action) && not (is_undefined (get "assigneeId" action))

-- `none` for no such key, `some none` for null.
abbrev action_assignee : Json → Result ActionError (Option (Option String))
action_assignee undefined = ok none
action_assignee null = ok (some none)
action_assignee (str id) = ok (some (some id))
action_assignee _ = err bad_assignee

abbrev is_reference : Json → Bool
is_reference value = is_undefined value || not (is_absent (as_string value))

-- The row of an id that is given and not empty; an id without a row is an error.
abbrev find_row :
    {A : Type 0} → (String → Option A) → ActionError → Json → Result ActionError (Option A)
find_row read fault undefined = ok none
find_row read fault value =
    maybe (as_string value) (err fault)
      (λ id. if id === "" then err fault else maybe (read id) (err fault) (λ a. ok (some a)))

-- A priority whose text is one of the four but that is no text itself is refused by the database.
abbrev action_priority : QueueRuntime → Json → Result ActionError (Option planeo.Issues.Priority)
action_priority runtime undefined = ok none
action_priority runtime value =
    throw_if (not (includes priorities (runtime.to_text value))) bad_priority
    >> maybe (maybe (as_string value) none priority_of) (err refused) (λ p. ok (some p))

abbrev read_participants : Reads → Json → Result ActionError (Option (List String))
read_participants reads undefined = ok none
read_participants reads value =
    maybe (maybe (as_array value) none strings) (err bad_participants) (λ ids.
      throw_if (ltb 50 (length ids) || not (length (unique ids) == length ids)) bad_participants
      >> (throw_if (not (length (filter reads.is_customer ids) == length ids)) no_access
          >> ok (some ids)))

-- The database refuses an assignee whose id is empty.
abbrev check_agent : Reads → Option (Option String) → Result ActionError (Unit {0})
check_agent reads (some (some id)) =
    throw_if (id === "") refused >> throw_if (not (reads.is_agent id)) no_agent
check_agent reads _ = ok tt

abbrev pub read_action :
    QueueRuntime → Reads → String → List (String × Json) → Result ActionError Action
read_action runtime reads user_id action =
    throw_if (length (keys action) == 0 || not (all is_action (keys action))) unsupported_action
    >> (throw_if (is_bad_claim action) bad_claim
        >> (action_priority runtime (get "priority" action) >>= λ priority.
            action_assignee (get "assigneeId" action) >>= λ given.
            throw_if
              (not (is_reference (get "statusId" action))
                || not (is_reference (get "requestTypeId" action)))
              bad_reference
            >> (let assignee =
                  if is_true (get "claim" action) then some (some user_id) else given in
                check_agent reads assignee
                >> (find_row reads.project_status no_status (get "statusId" action) >>= λ status.
                    find_row reads.request_type_of no_request_type (get "requestTypeId" action)
                    >>= λ request_type.
                        read_participants reads (get "participantIds" action) >>= λ participants.
                        ok (record {
                          claim = is_true (get "claim" action);
                          assignee = assignee;
                          priority = priority;
                          status = status;
                          request_type = request_type;
                          participants = participants;
                          names = keys action;
                        })))))

module _ (db : Db) (context : PolicyContext) (project : Project) (reads : Reads) (now : ℕ)
    (action : Action) where
  -- The status that the action moves an issue to.
  abbrev next_status : Row → Option Status
  next_status row = maybe action.status none (λ s. if s.id === row.status_id then none else some s)

  abbrev new_type : Row → Option String
  new_type row =
      maybe action.request_type none
        (λ t. if t.issue_type_id === row.issue_type_id then none else some t.issue_type_id)

  abbrev proposed_data : List (String × Json)
  proposed_data =
      ("version", obj end)
      ∷ (maybe action.assignee [] (λ a. ("assigneeId", maybe a null str) ∷ [])
          ++ maybe action.priority []
              (λ p. ("priority", str (Queues.priority_text db context p)) ∷ []))

  abbrev values_of : Row → List FieldRow → List FieldRow
  values_of row values = filter (λ v. v.issue_id === row.id) values

  abbrev transition :
      Row → Tables → Status → Result WorkflowError (Option (Transition × List WorkflowRule))
  transition row tables status =
      evaluate_transition (reads.rules).same_json (reads.rules).transitions
        (record {
          assignee_id = row.assignee_id;
          reporter_id = row.reporter_id;
          issue_type_id = row.issue_type_id;
          resolution = row.resolution;
          custom_field_values =
              map (λ v. record { field_id = v.field_id; value = v.value })
                (values_of row tables.field_values);
        })
        (record {
          project_id = project.id;
          from_status_id = row.status_id;
          to_status_id = status.id;
          actor_id = context.user_id;
          workspace_role = context.role;
          project_role = own_role context project;
          proposed = proposed_data;
        })

  abbrev count_actions : Option (Transition × List WorkflowRule) → ℕ
  count_actions execution = maybe execution 0 (λ e. length e.1)

  abbrev stands_in : String → QueueIssue → Bool
  stands_in status_id i =
      (i.row).project_id === project.id
      && ((i.row).status_id === status_id)
      && is_absent (i.row).archived_at

  abbrev is_full : Tables → String → Bool
  is_full tables status_id =
      maybe ((reads.rules).wip_limit status_id) false (λ limit.
        not (limit == 0) && leb limit (length (filter (stands_in status_id) tables.issues)))

  abbrev pub check_status : Row → Tables → Result ActionError (Unit {0})
  check_status row tables = maybe (next_status row) (ok tt) (λ status.
      of_workflow (transition row tables status) >>= λ execution.
      throw_if (ltb 0 (count_actions execution)) has_actions
      >> throw_if (is_full tables status.id) wip_limit)

  abbrev values_object : List FieldRow → Fields
  values_object [] = end
  values_object (v ∷ values) = field v.field_id v.value (values_object values)

  -- The values that the issue has must do for its new type.
  abbrev pub check_type : Row → Tables → Result ActionError (Unit {0})
  check_type row tables = maybe (new_type row) (ok tt) (λ issue_type_id.
      of_fields (
        validate_custom_field_writes (reads.rules).world (reads.rules).configurations issue_type_id
          (obj (values_object (values_of row tables.field_values))) false)
      >>= λ values. ok tt)

  abbrev completion : Status → Option ℕ
  completion status = if status.done then some now else none

  -- `data`
  abbrev pub triage_row : Row → Row
  triage_row row = record row {
    version = row.version + 1;
    assignee_id = maybe action.assignee row.assignee_id (λ a. a);
    priority = maybe action.priority row.priority (λ p. p);
    status_id = maybe (next_status row) row.status_id (λ s. s.id);
    completed_at = maybe (next_status row) row.completed_at completion;
    issue_type_id = maybe (new_type row) row.issue_type_id (λ id. id);
  }

  abbrev pub triage : QueueIssue → QueueIssue
  triage i = record i {
    row = triage_row i.row;
    request =
        maybe i.request none
          (λ r. some (maybe action.request_type r (λ t. record r { request_type_id = t.id })));
  }

  abbrev replace_participants : String → List (String × String) → List (String × String)
  replace_participants request_id rows =
      maybe action.participants rows
        (λ ids. map (λ id. (request_id, id)) ids ++ filter (λ p. p.0 !== request_id) rows)

  abbrev triage_notice : Row → List Job
  triage_notice row = maybe action.assignee [] (λ given. maybe given [] (λ id.
      if id === "" || maybe row.assignee_id false (λ before. before === id)
      then []
      else notify row.id assigned (id ∷ []) ∷ []))

  abbrev triage_history : Row → List History
  triage_history row = maybe (next_status row) [] (λ status.
      record {
        issue_id = row.id;
        event = status_changed;
        status_id = status.id;
        estimate = row.estimate;
      }
      ∷ [])

  abbrev triage_activity : Row → Activity
  triage_activity row = record {
    issue_id = row.id;
    actor_id = context.user_id;
    action = "issue.queue_triaged";
    changed = action.names;
    transition_id = none;
  }

  abbrev pub write_triage : QueueRow → Row → Tables → Tables
  write_triage r row tables = record tables {
    issues = map (λ (i : QueueIssue). if (i.row).id === row.id then triage i else i) tables.issues;
    participants = replace_participants r.request_id tables.participants;
    activities = triage_activity row ∷ tables.activities;
    histories = triage_history row ++ tables.histories;
    jobs =
        tables.jobs
        ++ triage_notice row
        ++ (realtime false row.id (r.version + 1)
            ∷ webhook row.id (r.version + 1)
            ∷ automation (not (is_absent (next_status row))) row.id (r.version + 1)
            ∷ []);
  }

  -- The issue of a row as it was in the snapshot.
  abbrev pub is_existing : QueueRow → QueueIssue → Bool
  is_existing r i =
      (i.row).id === r.id
      && is_open_row db context project.id i.row
      && ((i.row).version == r.version)

  abbrev pub is_taken : Row → Bool
  is_taken row = action.claim && not (is_absent row.assignee_id)

  abbrev pub triage_existing : QueueRow → Tables → Row → Result ActionError Tables
  triage_existing r tables row =
      throw_if (is_taken row) request_changed
      >> (check_status row tables >> (check_type row tables >> ok (write_triage r row tables)))

  -- The body of the loop.
  abbrev pub triage_one : List QueueRow → String → Tables → Result ActionError Tables
  triage_one rows id tables =
      maybe (find (λ (r : QueueRow). r.id === id) rows) (err request_changed) (λ r.
        maybe (find (is_existing r) tables.issues) (err request_changed)
          (λ i. triage_existing r tables i.row))

  abbrev pub triage_all : List QueueRow → List String → Tables → Result ActionError Tables
  triage_all rows [] tables = ok tables
  triage_all rows (id ∷ ids) tables = triage_one rows id tables >>= λ next. triage_all rows ids next

  abbrev audit_of : String → AuditEvent
  audit_of queue_id = record {
    workspace_id = context.workspace_id;
    actor_id = context.user_id;
    action = "service.queue.triaged";
    target_type = "serviceQueue";
    target_id = queue_id;
    metadata = obj end;
  }

  -- The transaction, after its reads.
  abbrev pub commit_action :
      String → List QueueRow → List String → Tables → Result ActionError (Tables × ℕ)
  commit_action queue_id rows ids tables = triage_all rows ids tables >>= λ done.
      ok (record done { audits = audit_of queue_id ∷ done.audits }, length ids)

-- `applyQueueAction`; it counts the requests that it updated.
unfoldable pub apply_queue_action :
    Db
    → QueueRuntime
    → (Project → Reads)
    → PolicyContext
    → ℕ
    → String
    → String
    → String
    → Json
    → Json
    → Snapshots.Store
    → Tables
    → Result ActionError (Tables × ℕ)
apply_queue_action db runtime reads context now key queue_id snapshot_id ids raw store tables =
    of_queue (queue_project db context key true) >>= λ edited.
    of_queue (read_queue_snapshot db runtime context now key queue_id snapshot_id store)
    >>= λ (rows, project, d). read_ids rows ids >>= λ chosen.
        maybe (as_object raw) (err no_action) (read_action runtime (reads project) context.user_id)
        >>= λ action.
            commit_action db context project (reads project) now action queue_id rows chosen tables
