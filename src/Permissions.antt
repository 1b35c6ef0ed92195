-- ===== src/Permissions.antt =====
-- src/lib/permissions.ts: project capabilities, the grants that give them, and the decision.
-- What the database answers is the parameter `PolicyDb`.
pub mod Validation
pub mod Security
pub mod Decision
pub mod Visibility
mod Tests
use Prim.Native.String
use planeo.Prelude.{
  ℕ, String, Bool, true, false, ◌||◌, Option, none, some, List, [], ◌∷◌, ◌++◌, map, includes, ◌===◌,
  ◌!==◌, find, ◌≡◌, refl,
}

pub data ProjectPermission : Type 0 where
  project_admin issue_view issue_create issue_edit issue_security sprint_manage : ProjectPermission
  release_manage export_run automation_manage integration_manage : ProjectPermission

-- PROJECT_PERMISSIONS
abbrev pub project_permissions : List ProjectPermission
project_permissions =
    project_admin ∷ issue_view ∷ issue_create ∷ issue_edit ∷ issue_security ∷ sprint_manage
    ∷ release_manage ∷ export_run ∷ automation_manage ∷ integration_manage ∷ []

abbrev pub permission_name : ProjectPermission → String
permission_name project_admin = "project.admin"
permission_name issue_view = "issue.view"
permission_name issue_create = "issue.create"
permission_name issue_edit = "issue.edit"
permission_name issue_security = "issue.security"
permission_name sprint_manage = "sprint.manage"
permission_name release_manage = "release.manage"
permission_name export_run = "export.run"
permission_name automation_manage = "automation.manage"
permission_name integration_manage = "integration.manage"

pub data WorkspaceRole : Type 0 where
  owner admin member viewer : WorkspaceRole

pub data ProjectRole : Type 0 where
  admin member viewer : ProjectRole

abbrev pub workspace_role_name : WorkspaceRole → String
workspace_role_name owner = "OWNER"
workspace_role_name WorkspaceRole.admin = "ADMIN"
workspace_role_name WorkspaceRole.member = "MEMBER"
workspace_role_name WorkspaceRole.viewer = "VIEWER"

abbrev pub project_role_name : ProjectRole → String
project_role_name ProjectRole.admin = "ADMIN"
project_role_name ProjectRole.member = "MEMBER"
project_role_name ProjectRole.viewer = "VIEWER"

-- A `PermissionMap` gives the grants of an action, `none` where the key is missing.
abbrev pub PermissionMap : Type 0
PermissionMap = ProjectPermission → Option (List String)

abbrev owners : List String
owners = "WORKSPACE:OWNER" ∷ "WORKSPACE:ADMIN" ∷ []

abbrev owners_and_leads : List String
owners_and_leads = "WORKSPACE:OWNER" ∷ "WORKSPACE:ADMIN" ∷ "PROJECT:ADMIN" ∷ []

abbrev contributors : List String
contributors =
    "WORKSPACE:OWNER" ∷ "WORKSPACE:ADMIN" ∷ "WORKSPACE:MEMBER" ∷ "PROJECT:ADMIN" ∷ "PROJECT:MEMBER"
    ∷ []

-- The grants of a project that no scheme version is assigned to.
abbrev pub legacy : ProjectPermission → List String
legacy project_admin = owners_and_leads
legacy issue_view =
    "WORKSPACE:OWNER" ∷ "WORKSPACE:ADMIN" ∷ "WORKSPACE:MEMBER" ∷ "WORKSPACE:VIEWER"
    ∷ "PROJECT:ADMIN" ∷ "PROJECT:MEMBER" ∷ "PROJECT:VIEWER" ∷ []
legacy issue_create = contributors
legacy issue_edit = contributors
legacy issue_security = owners_and_leads
legacy sprint_manage = contributors
legacy release_manage = owners_and_leads
legacy export_run =
    "WORKSPACE:OWNER" ∷ "WORKSPACE:ADMIN" ∷ "WORKSPACE:MEMBER" ∷ "PROJECT:ADMIN" ∷ "PROJECT:MEMBER"
    ∷ "PROJECT:VIEWER" ∷ []
legacy automation_manage = owners
legacy integration_manage = owners

-- PolicyContext
pub record PolicyContext : Type 0 where
  pub role : WorkspaceRole
  pub user_id : String
  pub workspace_id : String

pub record SchemeVersion : Type 0 where
  pub id : String
  pub permissions : PermissionMap

pub record Project : Type 0 where
  pub id : String
  pub permission_scheme_version : Option SchemeVersion

-- The reads of the database: the project that is not archived in the workspace, the user's role in
-- a project, and the groups mapped to a project that have the user as an active member.
pub record PolicyDb : Type 0 where
  pub find_project : String → String → Option Project
  pub member_role : String → String → Option ProjectRole
  pub member_groups : String → String → List String

pub record Principal : Type 0 where
  pub project_role : Option ProjectRole
  pub group_ids : List String

-- `actor(projectId, userId)`
abbrev pub actor : PolicyDb → String → String → Principal
actor db project_id user_id = record {
  project_role = db.member_role project_id user_id;
  group_ids = db.member_groups project_id user_id;
}

abbrev pub user_grant : String → String
user_grant id = String.◌++◌ "USER:" id

abbrev pub group_grant : String → String
group_grant id = String.◌++◌ "GROUP:" id

abbrev pub workspace_grant : WorkspaceRole → String
workspace_grant r = String.◌++◌ "WORKSPACE:" (workspace_role_name r)

abbrev pub project_grant : ProjectRole → String
project_grant r = String.◌++◌ "PROJECT:" (project_role_name r)

abbrev role_candidates : Option ProjectRole → List String
role_candidates none = []
role_candidates (some r) = project_grant r ∷ []

unfoldable pub candidates : PolicyContext → Principal → List String
candidates context principal =
    user_grant context.user_id
    ∷ workspace_grant context.role
    ∷ (role_candidates principal.project_role ++ map group_grant principal.group_ids)

-- `project.permissionSchemeVersion ? (permissions[permission] ?? []) : legacy[permission]`
unfoldable pub project_grants : Project → ProjectPermission → List String
project_grants project permission = elim project.permission_scheme_version [
  | none ↦ legacy permission
  | some version ↦ elim (version.permissions permission) [ none ↦ [] | some grants ↦ grants ]
]

pub record Explanation : Type 0 where
  pub allowed : Bool
  pub reason : String
  pub matched_grant : Option String

-- `Boolean(matchedGrant)`: the empty text is false.
abbrev pub truthy : Option String → Bool
truthy none = false
truthy (some s) = s !== ""

abbrev explain_match : Option String → Explanation
explain_match matched =
    let allowed = truthy matched in
    record {
      allowed = allowed;
      reason = elim allowed [ true ↦ "grant_matched" | false ↦ "deny_by_default" ];
      matched_grant = matched;
    }

unfoldable pub explain_project_permission :
    PolicyDb → PolicyContext → String → ProjectPermission → Explanation
explain_project_permission db context project_id permission =
    elim (db.find_project project_id context.workspace_id) [
      | none ↦ record { allowed = false; reason = "project_not_found"; matched_grant = none }
      | some project ↦
          let grants = project_grants project permission in
          explain_match (
            find (λ value. includes grants value)
              (candidates context (actor db project_id context.user_id)))
    ]

unfoldable pub require_project_permission :
    PolicyDb → PolicyContext → String → ProjectPermission → Bool
require_project_permission db context project_id permission =
    (explain_project_permission db context project_id permission).allowed
