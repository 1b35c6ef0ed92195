-- ===== src/Issues/Create/Tests.antt =====
-- Runs of src/app/api/issues/route.ts.
use planeo.Prelude.{true, false, none, some, [], ◌∷◌, ◌===◌, ok, err, ◌≡◌, refl, trim, arith}
use planeo.Prelude.Json.{str, obj, null, field, end}
use planeo.Permissions.{
  candidates, project_grants, explain_project_permission, require_project_permission,
}
use planeo.Permissions.Visibility.{issue_security_where}
use planeo.Identity.ProjectMembers.Tests.{web, ada, directory}
use planeo.Queues.Tests.{policy, security, joined_row}
use planeo.CustomFields.{validate_custom_field_writes, applicable, normalize_all, check_keys}
use planeo.Issues.{
  high, low, Row, Store, created, assigned, mentioned, notify, created_webhook, created_automation,
  created_realtime,
}
use planeo.Issues.Create.{
  CreateSite, Setup, Board, bump, bad_summary, bad_level, create_issue, list_issues,
}
use planeo.Issues.Create.Numbers.{IsPlaced, create_issue-IsPlaced}

abbrev setup : Setup
setup = record {
  statuses = record { id = "todo"; done = false } ∷ [];
  types = record { id = "task"; for_epics = false } ∷ [];
  default_priority = low;
  configurations = [];
  world = record { is_member = λ id. true; parse_url = λ s. none; is_date = λ s. true };
}

abbrev site : CreateSite
site = record {
  projects = web ∷ [];
  setup = λ id. setup;
  policy = policy;
  security = security;
  selects = λ branch row. true;
  joined = joined_row;
  has_level = λ workspace_id id. true;
  mentioned_users = λ project text. [];
  contains = λ text part. text === part;
  to_upper = λ s. s;
}

abbrev empty : Store
empty = record {
  issues = [];
  labels = [];
  issue_labels = [];
  field_values = [];
  activities = [];
  comments = [];
  histories = [];
  deletions = [];
  jobs = [];
}

-- The project has numbered four issues, and keeps one of them.
abbrev board : Board
board = record {
  store = empty;
  sequence = λ id. 4;
  numbers = record { project_id = "p"; issue_id = "i3"; number = 3 } ∷ [];
  parents = [];
  request_types = [];
}

abbrev row : Row
row = record {
  id = "i5";
  workspace_id = "acme";
  project_id = "p";
  issue_type_id = "task";
  reporter_id = "ada";
  summary = "Fix";
  description = some "";
  resolution = none;
  priority = high;
  estimate = none;
  assignee_id = some "ada";
  status_id = "todo";
  due_date = none;
  completed_at = none;
  hierarchy_level_id = none;
  watchers = [];
  version = 1;
  archived_at = none;
}

abbrev after : Board
after = record {
  store = record empty {
    issues = row ∷ [];
    activities =
        record {
          issue_id = "i5";
          actor_id = "ada";
          action = "issue.created";
          changed = [];
          transition_id = none;
        }
        ∷ [];
    histories =
        record { issue_id = "i5"; event = created; status_id = "todo"; estimate = none } ∷ [];
    jobs =
        created_webhook "i5"
        ∷ created_automation "i5"
        ∷ created_realtime "i5"
        ∷ notify "i5" assigned ("ada" ∷ [])
        ∷ notify "i5" mentioned []
        ∷ [];
  };
  sequence = bump "p" (λ id. 4);
  numbers = record { project_id = "p"; issue_id = "i5"; number = 5 } ∷ board.numbers;
  parents = [];
  request_types = [];
}

issue_created :
    create_issue site ada directory "i5"
      (obj (
        field "title"
          (str " Fix ")
          (field "priority" (str "HIGH") (field "assigneeId" (str "ada") end))))
      board
    ≡ ok (after, row)
unfolding create_issue trim require_project_permission explain_project_permission project_grants
    candidates validate_custom_field_writes check_keys normalize_all applicable
issue_created = refl

create_issue-IsPlaced_example : IsPlaced board after row
create_issue-IsPlaced_example =
    create_issue-IsPlaced site ada directory "i5"
      (obj (
        field "title" (str " Fix ")
          (field "priority" (str "HIGH") (field "assigneeId" (str "ada") end))))
      board after row issue_created (omega arith, refl, tt)

-- A planning level is for epics, and null is no way to ask for none.
issue_level :
    create_issue site ada directory "i5"
      (obj (field "title" (str "Fix") (field "hierarchyLevelId" null end)))
      board
    ≡ err bad_level
unfolding create_issue trim require_project_permission explain_project_permission project_grants
    candidates
issue_level = refl

issue_blank :
    create_issue site ada directory "i5" (obj (field "title" (str " ") end)) board ≡ err bad_summary
unfolding create_issue trim
issue_blank = refl

issues_listed :
    list_issues site ada directory (λ rows. rows) none (some " Fix ") none after ≡ ok (row ∷ [])
unfolding list_issues trim require_project_permission explain_project_permission project_grants
    candidates issue_security_where
issues_listed = refl

numbers_found :
    list_issues site ada directory (λ rows. rows) none (some "web-5") none after ≡ ok (row ∷ [])
unfolding list_issues trim require_project_permission explain_project_permission project_grants
    candidates issue_security_where
numbers_found = refl
