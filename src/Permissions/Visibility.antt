-- ===== src/Permissions/Visibility.antt =====
-- issueSecurityWhere and canViewIssue of src/lib/permissions.ts. The branches of the query are data;
-- what a branch selects is the database client's business and stands in `BranchLaws`.
pub mod Recipients
mod Tests
use planeo.Prelude.{
  String, Bool, true, false, not, ◌&&◌, ◌||◌, Option, none, some, List, [], ◌∷◌, ◌++◌, map, ◌≡◌,
  refl, ◌⊎◌, inl, inr, In, In-append, In-any, any-In, any, includes, includes_iff, ◌===◌, ===_iff,
  Option-cases, Bool-cases, arith,
}
use planeo.Permissions.{
  WorkspaceRole, ProjectRole, workspace_role_name, project_role_name, PolicyContext,
}
use planeo.Permissions.Security.{
  SecurityGrants, SecurityActor, IssuePeople, lists, lists_role, is_id, matches_issue_security,
}

-- A key of the grants that a branch looks into.
pub data GrantsKey : Type 0 where
  user_ids workspace_roles group_ids project_roles : GrantsKey

-- One branch of the OR.
pub data Branch : Type 0 where
  no_level : Branch
  reporter_is assignee_is : String → Branch
  level_lists : GrantsKey → String → Branch
  project_level_lists : String → String → Branch

-- The rows that the branches look at; `level` is the security level's grants.
pub record IssueRow : Type 0 where
  pub id : String
  pub workspace_id : String
  pub project_id : String
  pub archived : Bool
  pub people : IssuePeople
  pub level : Option SecurityGrants

pub record Membership : Type 0 where
  pub project_id : String
  pub role : ProjectRole

-- The reads: the groups of the user that are mapped in the workspace, and the user's memberships,
-- both for the projects given, or for all where none is.
pub record SecurityDb : Type 0 where
  pub groups : PolicyContext → List String → List String
  pub memberships : PolicyContext → List String → List Membership

abbrev group_branch : String → Branch
group_branch id = level_lists group_ids id

abbrev role_branch : Membership → Branch
role_branch item = project_level_lists item.project_id (project_role_name item.role)

unfoldable pub issue_security_where : SecurityDb → PolicyContext → List String → List Branch
issue_security_where db context project_ids =
    no_level
    ∷ reporter_is context.user_id
    ∷ assignee_is context.user_id
    ∷ level_lists user_ids context.user_id
    ∷ level_lists workspace_roles (workspace_role_name context.role)
    ∷ (map group_branch (db.groups context project_ids)
        ++ map role_branch (db.memberships context project_ids))

abbrev pub key_of : GrantsKey → SecurityGrants → Option (List String)
key_of user_ids g = g.user_ids
key_of workspace_roles g = g.workspace_roles
key_of group_ids g = g.group_ids
key_of project_roles g = g.project_roles

-- `securityLevel: { is: { grants: { path: [key], array_contains: [value] } } }`
abbrev pub level_has : GrantsKey → String → Option SecurityGrants → Bool
level_has key value none = false
level_has key value (some g) = lists (key_of key g) value

abbrev pub is_none : Option SecurityGrants → Bool
is_none none = true
is_none (some _) = false

-- What the database client documents of the filters that the branches use.
pub record BranchLaws (selects : Branch → IssueRow → Bool) : Type 0 where
  pub selects-no_level : (row : IssueRow) → selects no_level row ≡ is_none row.level
  pub selects-reporter :
      (id : String) (row : IssueRow)
      → selects (reporter_is id) row ≡ (row.people.reporter_id === id)
  pub selects-assignee :
      (id : String) (row : IssueRow)
      → selects (assignee_is id) row ≡ is_id row.people.assignee_id id
  pub selects-level :
      (key : GrantsKey) (value : String) (row : IssueRow)
      → selects (level_lists key value) row ≡ level_has key value row.level
  pub selects-project_level :
      (project_id value : String) (row : IssueRow)
      → selects (project_level_lists project_id value) row
        ≡ (row.project_id === project_id && level_has project_roles value row.level)

-- `OR`: some branch selects the row.
abbrev pub selected : (Branch → IssueRow → Bool) → List Branch → IssueRow → Bool
selected selects branches row = any (λ b. selects b row) branches

-- `canViewIssue`: the query of `findFirst` finds a row.
pub can_view_issue :
    (Branch → IssueRow → Bool) → SecurityDb → PolicyContext → List IssueRow → String → Bool
can_view_issue selects db context rows issue_id =
    any
      (λ row.
        row.id === issue_id
        && (row.workspace_id === context.workspace_id)
        && not row.archived
        && selected selects (issue_security_where db context []) row)
      rows
