-- ===== src/Issues/Tests.antt =====
-- Runs of PATCH of src/app/api/issues/[id]/route.ts.
use planeo.Prelude.{
  ◌≤◌, String, true, false, ◌&&◌, none, some, [], ◌∷◌, length, filter, ◌===◌, if◌then◌else◌, ok,
  ◌≡◌, refl, arith, trim, unique,
}
use planeo.Prelude.Int.{pos}
use planeo.Prelude.Json.{
  Json, undefined, num, whole, str, arr, obj, nil, cons, field, end, field_of, is_undefined,
}
use planeo.Permissions.{PolicyContext, member}
use planeo.Workflow.{evaluate_transition}
use planeo.CustomFields.{World}
use planeo.Issues.{high, low, Row, Store}
use planeo.Issues.Body.{Status, Lookup, Draft, empty_draft, is_empty_draft, read_body}
use planeo.Issues.Body.Bounds.{Within, read_body-Within}
use planeo.Issues.Commit.{Project, in_status, write, commit_edit}
use planeo.Issues.Commit.Limit.{Unique, commit_edit_within_limit}
use planeo.Issues.Commit.Stale.{reversion}
use planeo.Issues.Patch.{EditAccess, patch_issue}
use planeo.Issues.Patch.Versions.{NextVersion, patch_issue-NextVersion, patch_issue-reversion}

abbrev upper : String → String
upper s = if s === "low" then "LOW" else s

abbrev done_status : Status
done_status = record { id = "done"; done = true }

abbrev lookup : Lookup
lookup = record {
  find_status = λ name. if name === "Done" then some done_status else none;
  is_project_member = λ id. id === "ada";
  find_level = λ id. none;
  type_kind = λ id. none;
  to_upper = upper;
  parse_noon = λ s. none;
}

-- A new title, a priority, an estimate and labels, one of them twice.
abbrev edit : Json
edit = obj (
    field "title" (str " Fix it ") (
      field "priority" (str "low") (
        field "estimate" (num (whole (pos 5)))
          (field "labels" (arr (cons (str "ui") (cons (str " ui") nil))) end))))

abbrev edited : Draft
edited = record empty_draft {
  summary = some "Fix it";
  priority = some low;
  estimate = some (some 5);
  label_names = some ("ui" ∷ []);
  changed = "labels" ∷ "estimate" ∷ "priority" ∷ "title" ∷ [];
}

edit_read : read_body lookup 7000 "task" edit ≡ ok edited
unfolding read_body trim unique
edit_read = refl

read_body-Within_example :
    Within lookup edited
    × ((is_empty_draft lookup 7000 "task" edited && is_undefined (field_of "customFields" edit))
        ≡ false)
read_body-Within_example = read_body-Within lookup 7000 "task" edit edited edit_read

abbrev issue : String → String → Row
issue id status_id = record {
  id = id;
  workspace_id = "acme";
  project_id = "p";
  issue_type_id = "task";
  reporter_id = "ada";
  summary = "Fix";
  description = none;
  resolution = none;
  priority = high;
  estimate = none;
  assignee_id = none;
  status_id = status_id;
  due_date = none;
  completed_at = none;
  hierarchy_level_id = none;
  watchers = [];
  version = 3;
  archived_at = none;
}

abbrev store : Store
store = record {
  issues = issue "i1" "todo" ∷ issue "i2" "done" ∷ [];
  labels = [];
  issue_labels = [];
  field_values = [];
  activities = [];
  comments = [];
  histories = [];
  deletions = [];
  jobs = [];
}

abbrev world : World
world = record { is_member = λ id. true; parse_url = λ s. none; is_date = λ s. true }

-- A project without a workflow, in which two issues may be done.
abbrev project : Project
project = record {
  id = "p";
  transitions = [];
  wip_limit = λ id. some 2;
  configurations = [];
  world = world;
  same_json = λ a b. false;
  mentions = λ text. [];
  to_text = λ value. "";
  slice = λ text n. text;
}

abbrev access : EditAccess
access = record {
  can_view = λ context id. true;
  may_edit = λ context id. true;
  find_project = λ context id. some project;
  role_in = λ project_id user_id. none;
  lookup = λ context project_id. lookup;
}

abbrev ada : PolicyContext
ada = record { role = member; user_id = "ada"; workspace_id = "acme" }

abbrev finished : Draft
finished = record empty_draft {
  status = some done_status;
  completed_at = some (some 7000);
  changed = "status" ∷ [];
}

abbrev first : Row
first = issue "i1" "todo"

-- The store after the first issue is done.
abbrev after : Store
after = write project ada none first finished [] none [] [] first store

moved : commit_edit project ada none first undefined finished store ≡ ok after
unfolding commit_edit evaluate_transition
moved = refl

store-Unique : Unique store.issues
store-Unique = (refl, (refl, tt))

two_allowed : project.wip_limit "done" ≡ some 2
two_allowed = refl

commit_edit_within_limit_example :
    length (filter (in_status project ada none first "done") after.issues) ≤ 2
commit_edit_within_limit_example =
    commit_edit_within_limit project ada none first undefined finished store after "done" 2
      store-Unique refl two_allowed (λ e. omega (arith, e)) moved

abbrev finishing : Json
finishing = obj (field "status" (str "Done") (field "version" (num (whole (pos 3))) end))

patched : patch_issue access (some ada) 7000 "i1" finishing store store ≡ ok after
unfolding patch_issue read_body commit_edit evaluate_transition
patched = refl

patch_issue-NextVersion_example : NextVersion access ada 7000 "i1" finishing store after
patch_issue-NextVersion_example =
    patch_issue-NextVersion access ada 7000 "i1" finishing store store after patched

-- Another request has made version 8 of the issue in the meantime.
patch_issue-reversion_example :
    (final : Store) × (patch_issue access
        (some ada)
        7000
        "i1"
        finishing
        store
        (reversion "i1" 8 store)
      ≡ ok final)
patch_issue-reversion_example =
    patch_issue-reversion access ada 7000 "i1" finishing store store after 8 patched
