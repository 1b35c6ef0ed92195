-- ===== src/Issues.antt =====
-- DELETE and PATCH of src/app/api/issues/[id]/route.ts: an issue is archived or edited. `Store`
-- holds the tables that they write, and the jobs that they leave for the workers.
pub mod Body
pub mod Commit
pub mod Patch
pub mod Create
mod Tests
use planeo.Prelude.{
  ℕ, suc, ◌+◌, String, Bool, true, false, not, ◌&&◌, ◌||◌, Option, none, some, List, [], ◌∷◌, map,
  length, filter, find, ◌===◌, ◌!==◌, is_absent, if◌then◌else◌, Result, ok, err, ◌≡◌,
}
use planeo.Prelude.Json.{Json}
use planeo.Permissions.{WorkspaceRole, ProjectRole, PolicyContext}

pub data Priority : Type 0 where
  urgent high medium low : Priority

pub record Row : Type 0 where
  pub id : String
  pub workspace_id : String
  pub project_id : String
  pub issue_type_id : String
  pub reporter_id : String
  pub summary : String
  pub description : Option String
  pub resolution : Option String
  pub priority : Priority
  pub estimate : Option ℕ
  pub assignee_id : Option String
  pub status_id : String
  pub due_date : Option ℕ
  pub completed_at : Option ℕ
  pub hierarchy_level_id : Option String
  pub watchers : List String
  pub version : ℕ
  pub archived_at : Option ℕ

pub record Activity : Type 0 where
  pub issue_id : String
  pub actor_id : String
  pub action : String
  pub changed : List String
  pub transition_id : Option String

pub record Comment : Type 0 where
  pub issue_id : String
  pub author_id : String
  pub body : String

pub data HistoryEvent : Type 0 where
  status_changed estimate_changed created : HistoryEvent

pub record History : Type 0 where
  pub issue_id : String
  pub event : HistoryEvent
  pub status_id : String
  pub estimate : Option ℕ

pub data Notice : Type 0 where
  assigned mentioned issue_updated : Notice

-- What is left for the workers: notifications to some users, and the webhook, the automation and
-- the realtime message of a version of an issue, which may have been a transition, or of a new issue.
pub data Job : Type 0 where
  notify : String → Notice → List String → Job
  webhook : String → ℕ → Job
  automation realtime : Bool → String → ℕ → Job
  created_webhook created_automation created_realtime : String → Job

pub record FieldRow : Type 0 where
  pub field_id : String
  pub issue_id : String
  pub value : Json

pub record Deletion : Type 0 where
  pub workspace_id : String
  pub actor_id : String
  pub issue_id : String

-- `issue_labels` has the labels of each issue by their names.
pub record Store : Type 0 where
  pub issues : List Row
  pub labels : List (String × String)
  pub issue_labels : List (String × String)
  pub field_values : List FieldRow
  pub activities : List Activity
  pub comments : List Comment
  pub histories : List History
  pub deletions : List Deletion
  pub jobs : List Job

-- `findFirst({ where: { id, workspaceId, archivedAt: null } })`
abbrev pub is_active : String → String → Row → Bool
is_active workspace_id id row =
    row.id === id && (row.workspace_id === workspace_id) && is_absent row.archived_at

-- `issue.update({ where: { id }, … })`
abbrev pub update_row : String → (Row → Row) → List Row → List Row
update_row id f rows = map (λ row. if row.id === id then f row else row) rows

pub data DeleteError : Type 0 where
  authentication_required issue_not_found administration_required : DeleteError

abbrev is_project_admin : Option ProjectRole → Bool
is_project_admin none = false
is_project_admin (some ProjectRole.admin) = true
is_project_admin (some ProjectRole.member) = false
is_project_admin (some ProjectRole.viewer) = false

abbrev pub administers : PolicyContext → Option ProjectRole → Bool
administers context role = elim context.role [
  | WorkspaceRole.owner ↦ true
  | WorkspaceRole.admin ↦ true
  | WorkspaceRole.member ↦ is_project_admin role
  | WorkspaceRole.viewer ↦ is_project_admin role
]

abbrev archive : ℕ → Row → Row
archive now row = record row { archived_at = some now; version = row.version + 1 }

abbrev archive_issue : PolicyContext → ℕ → String → Store → Store
archive_issue context now id store = record store {
  issues = update_row id (archive now) store.issues;
  deletions =
      record { workspace_id = context.workspace_id; actor_id = context.user_id; issue_id = id }
      ∷ store.deletions;
}

-- `DELETE`; `role_in` is the user's role in a project.
pub delete_issue :
    (String → Option ProjectRole)
    → Option PolicyContext
    → ℕ
    → String
    → Store
    → Result DeleteError Store
delete_issue role_in none now id store = err authentication_required
delete_issue role_in (some context) now id store =
    elim (find (is_active context.workspace_id id) store.issues) [
      | none ↦ err issue_not_found
      | some row ↦
          if administers context (role_in row.project_id)
          then ok (archive_issue context now id store)
          else err administration_required
    ]
