-- ===== src/Queues/Tests.antt =====
-- Runs of src/lib/service-queues.ts: a request is triaged_tables from a snapshot.
use planeo.Prelude.{
  String, true, false, ◌===◌, none, some, [], ◌∷◌, inl, ok, err, ◌≡◌, refl, unique,
}
use planeo.Prelude.Json.{null, num, bool, str, arr, obj, nil, cons, field, end, undefined}
use planeo.Permissions.{
  WorkspaceRole, PolicyContext, PolicyDb, candidates, project_grants, explain_project_permission,
  require_project_permission,
}
use planeo.Permissions.Visibility.{IssueRow, SecurityDb, issue_security_where}
use planeo.Issues.{high, Row, assigned, notify, realtime, webhook, automation}
use planeo.Queues.{
  dates_crossed, QueueDefinition, QueueRuntime, Queue, team, Project, QueueIssue, Db,
  parse_queue_definition, queue_project,
}
use planeo.Queues.Snapshots.{QueueRow, Snapshot, Store, read_queue_snapshot}
use planeo.Queues.Actions.{Reads, Tables, apply_queue_action, request_changed}
use planeo.Queues.Actions.Current.{Triaged, apply_queue_action-Triaged}

abbrev runtime : QueueRuntime
runtime = record {
  to_text = λ v. elim v as (λ _. String) [
    | undefined ↦ "undefined"
    | null ↦ "null"
    | bool b ↦ "true"
    | num n ↦ "1"
    | str s ↦ s
    | arr vs ↦ ""
    | obj fs ↦ "[object Object]"
  ];
  parse_date = λ s. some (5, s);
}

abbrev pub help : Project
help = record {
  id = "p";
  key = "HELP";
  workspace_id = "acme";
  archived = false;
  public_to_all = true;
  service = true;
  members = [];
}

abbrev pub policy : PolicyDb
policy = record {
  find_project = λ id workspace_id. some (record { id = id; permission_scheme_version = none });
  member_role = λ project_id user_id. none;
  member_groups = λ project_id user_id. [];
}

abbrev pub security : SecurityDb
security = record { groups = λ context ids. []; memberships = λ context ids. [] }

abbrev pub joined_row : Row → IssueRow
joined_row row = record {
  id = row.id;
  workspace_id = row.workspace_id;
  project_id = row.project_id;
  archived = false;
  people = record { reporter_id = row.reporter_id; assignee_id = row.assignee_id };
  level = none;
}

abbrev database : Db
database = record {
  projects = help ∷ [];
  policy = policy;
  security = security;
  selects = λ branch row. true;
  joined_row = joined_row;
  has_status = λ project_id id. true;
  has_request_type = λ project_id id. true;
  has_member = λ project_id id. true;
  has_organization = λ project_id id. true;
  is_label = λ workspace_id id. true;
  to_upper = λ s. s;
}

abbrev pub ada : PolicyContext
ada = record { role = WorkspaceRole.owner; user_id = "ada"; workspace_id = "acme" }

abbrev printer : Row
printer = record {
  id = "i1";
  workspace_id = "acme";
  project_id = "p";
  issue_type_id = "task";
  reporter_id = "bob";
  summary = "Printer";
  description = none;
  resolution = none;
  priority = high;
  estimate = none;
  assignee_id = none;
  status_id = "todo";
  due_date = none;
  completed_at = none;
  hierarchy_level_id = none;
  watchers = [];
  version = 3;
  archived_at = none;
}

abbrev issue : QueueIssue
issue = record {
  row = printer;
  number = 1;
  status_name = "To do";
  assignee_name = none;
  created_at = 100;
  updated_at = 100;
  label_ids = [];
  request = none;
}

abbrev queue : Queue
queue = record {
  id = "q";
  project_id = "p";
  visibility = team;
  owner_id = "bob";
  definition = obj end;
  version = 1;
}

abbrev definition : QueueDefinition
definition = record {
  filters = [];
  columns = "summary" ∷ "status" ∷ "priority" ∷ "assignee" ∷ "slaState" ∷ [];
  grouping = "none";
  sort = "createdAt";
  direction = str "asc";
}

parsed : parse_queue_definition runtime (obj end) ≡ ok definition
unfolding parse_queue_definition unique
parsed = refl

-- A start after the end.
parsed_crossed :
    parse_queue_definition runtime (
      obj (
        field "filters"
          (obj (field "from" (str "2026-02-01") (field "to" (str "2026-01-31") end)))
          end))
    ≡ err dates_crossed
unfolding parse_queue_definition unique
parsed_crossed = refl

abbrev row : QueueRow
row = record {
  id = "i1";
  request_id = "r1";
  version = 3;
  summary = "Printer";
  number = 1;
  status = "To do";
  status_id = "todo";
  priority = high;
  assignee = "Unassigned";
  assignee_id = none;
  request_type = "Help";
  organization = "None";
  created_at = 100;
  updated_at = 100;
  sla_state = "NONE";
  sla_goal = [];
  sla_remaining = [];
  customer_response = none;
}

abbrev snapshot : Snapshot
snapshot = record {
  id = "s";
  queue_id = "q";
  queue_version = 1;
  user_id = "ada";
  rows = row ∷ [];
  expires_at = 1000;
}

abbrev store : Store
store = record {
  queues = queue ∷ [];
  issues = issue ∷ [];
  latest_cycles = λ ids. [];
  snapshots = snapshot ∷ [];
}

snapshot_read :
    read_queue_snapshot database runtime ada 500 "HELP" "q" "s" store
    ≡ ok (row ∷ [], help, definition)
unfolding read_queue_snapshot queue_project parse_queue_definition unique require_project_permission
    explain_project_permission project_grants candidates issue_security_where
snapshot_read = refl

abbrev reads : Project → Reads
reads project = record {
  is_agent = λ id. id === "ada";
  project_status = λ id. none;
  request_type_of = λ id. none;
  is_customer = λ id. true;
  rules = record {
    id = "p";
    transitions = [];
    wip_limit = λ id. none;
    configurations = [];
    world = record { is_member = λ id. true; parse_url = λ s. none; is_date = λ s. true };
    same_json = λ a b. false;
    mentions = λ text. [];
    to_text = λ value. "";
    slice = λ text n. text;
  };
}

abbrev tables : Tables
tables = record {
  issues = issue ∷ [];
  field_values = [];
  participants = [];
  activities = [];
  histories = [];
  jobs = [];
  audits = [];
}

abbrev triaged_tables : Tables
triaged_tables = record {
  issues = record issue { row = record printer { version = 4; assignee_id = some "ada" } } ∷ [];
  field_values = [];
  participants = [];
  activities =
      record {
        issue_id = "i1";
        actor_id = "ada";
        action = "issue.queue_triaged";
        changed = "claim" ∷ [];
        transition_id = none;
      }
      ∷ [];
  histories = [];
  jobs =
      notify "i1" assigned ("ada" ∷ [])
      ∷ realtime false "i1" 4
      ∷ webhook "i1" 4
      ∷ automation false "i1" 4
      ∷ [];
  audits =
      record {
        workspace_id = "acme";
        actor_id = "ada";
        action = "service.queue.triaged";
        target_type = "serviceQueue";
        target_id = "q";
        metadata = obj end;
      }
      ∷ [];
}

claim_made :
    apply_queue_action database runtime reads ada 500 "HELP" "q" "s"
      (arr (cons (str "i1") nil))
      (obj (field "claim" (bool true) end))
      store
      tables
    ≡ ok (triaged_tables, 1)
unfolding apply_queue_action read_queue_snapshot queue_project parse_queue_definition unique
    require_project_permission explain_project_permission project_grants candidates
    issue_security_where
claim_made = refl

apply_queue_action-Triaged_example :
    Triaged database runtime reads ada 500 "HELP" "q" "s"
      (("claim", bool true) ∷ [])
      store
      tables
      "i1"
apply_queue_action-Triaged_example =
    apply_queue_action-Triaged database runtime reads ada 500 "HELP" "q" "s"
      (arr (cons (str "i1") nil)) (obj (field "claim" (bool true) end)) store tables triaged_tables
      1 ("i1" ∷ []) (("claim", bool true) ∷ []) "i1" claim_made refl refl (inl refl)

-- The issue was changed after the snapshot was read.
claim_stale :
    apply_queue_action database runtime reads ada 500 "HELP" "q" "s"
      (arr (cons (str "i1") nil))
      (obj (field "claim" (bool true) end))
      store
      (record tables { issues = record issue { row = record printer { version = 4 } } ∷ [] })
    ≡ err request_changed
unfolding apply_queue_action read_queue_snapshot queue_project parse_queue_definition unique
    require_project_permission explain_project_permission project_grants candidates
    issue_security_where
claim_stale = refl
