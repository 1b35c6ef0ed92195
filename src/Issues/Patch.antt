-- ===== src/Issues/Patch.antt =====
-- PATCH of src/app/api/issues/[id]/route.ts as a whole: the rows are read in one state, and the
-- transaction runs in another, which other requests may have changed.
pub mod Versions
use planeo.Prelude.{
  ℕ, String, Bool, true, false, not, ◌&&◌, Option, none, some, List, find, ◌==◌, maybe,
  if◌then◌else◌, Result, ok, err, throw_if, ◌>>=◌, ◌>>◌, ◌≡◌,
}
use planeo.Prelude.Int.{ℤ, pos, negsuc}
use planeo.Prelude.Json.{Json, field_of, is_undefined, as_integer}
use planeo.Permissions.{PolicyContext, ProjectRole}
use planeo.Issues.{Row, Store, is_active}
use planeo.Issues.Body.{BodyError, Lookup, Draft, read_body}
use planeo.Issues.Commit.{CommitError, Project, commit_edit}

pub data PatchError : Type 0 where
  authentication_required issue_not_found project_not_found stale_version : PatchError
  unreadable : BodyError → PatchError
  failed : CommitError → PatchError

-- What the handler asks before it reads the body; a project is none where it is not accessible.
pub record EditAccess : Type 0 where
  pub can_view : PolicyContext → String → Bool
  pub may_edit : PolicyContext → String → Bool
  pub find_project : PolicyContext → String → Option Project
  pub role_in : String → String → Option ProjectRole
  pub lookup : PolicyContext → String → Lookup

abbrev is_version : ℕ → ℤ → Bool
is_version version (pos n) = n == version
is_version version (negsuc n) = false

-- The body names no version, or that of the row that was read.
abbrev pub names_version : Json → ℕ → Bool
names_version body version =
    if is_undefined (field_of "version" body)
    then true
    else maybe (as_integer (field_of "version" body)) false (is_version version)

abbrev lift_body : {A : Type 0} → Result BodyError A → Result PatchError A
lift_body (err fault) = err (unreadable fault)
lift_body (ok a) = ok a

abbrev pub lift_commit : {A : Type 0} → Result CommitError A → Result PatchError A
lift_commit (err fault) = err (failed fault)
lift_commit (ok a) = ok a

module _ (access : EditAccess) (context : PolicyContext) (now : ℕ) (body : Json) where
  -- The part of the handler before the transaction.
  abbrev pub checked : Project → Row → Result PatchError Draft
  checked project row =
      throw_if (not (access.may_edit context project.id)) issue_not_found
      >> (throw_if (not (names_version body row.version)) stale_version
          >> lift_body
              (read_body (access.lookup context row.project_id) now row.issue_type_id body))

  abbrev pub run_on : Store → Row → Result PatchError Store
  run_on current row =
      throw_if (not (access.can_view context row.id)) issue_not_found
      >> maybe (access.find_project context row.project_id) (err project_not_found) (λ project.
        checked project row >>= λ d. lift_commit (
          commit_edit project context (access.role_in project.id context.user_id) row
            (field_of "customFields" body) d current))

-- `PATCH`
unfoldable pub patch_issue :
    EditAccess → Option PolicyContext → ℕ → String → Json → Store → Store → Result PatchError Store
patch_issue access none now id body seen current = err authentication_required
patch_issue access (some context) now id body seen current =
    maybe (find (is_active context.workspace_id id) seen.issues) (err issue_not_found)
      (run_on access context now body current)
