-- ===== src/Permissions/Visibility/Tests.antt =====
-- Runs of issueSecurityWhere of src/lib/permissions.ts, over a database client for its branches.
use planeo.Prelude.{Bool, false, ◌&&◌, ◌||◌, none, some, [], ◌∷◌, ◌≡◌, refl, inl, In, any, ◌===◌}
use planeo.Permissions.{WorkspaceRole, ProjectRole, workspace_role_name, PolicyContext}
use planeo.Permissions.Security.{SecurityGrants, SecurityActor, is_id}
use planeo.Permissions.Visibility.{
  Branch, no_level, reporter_is, assignee_is, level_lists, project_level_lists, user_ids,
  workspace_roles, group_ids, project_roles, IssueRow, Membership, SecurityDb, issue_security_where,
  level_has, is_none, BranchLaws, selected,
}
use planeo.Permissions.Visibility.Recipients.{role_sees, issue_security_where_lem}

-- A client that answers each branch as documented.
abbrev client : Branch → IssueRow → Bool
client no_level row = is_none row.level
client (reporter_is id) row = row.people.reporter_id === id
client (assignee_is id) row = is_id row.people.assignee_id id
client (level_lists key value) row = level_has key value row.level
client (project_level_lists id value) row =
    row.project_id === id && level_has project_roles value row.level

client_laws : BranchLaws client
client_laws = record {
  selects-no_level = λ _. refl;
  selects-reporter = λ _ _. refl;
  selects-assignee = λ _ _. refl;
  selects-level = λ _ _ _. refl;
  selects-project_level = λ _ _ _. refl;
}

abbrev context : PolicyContext
context = record { role = WorkspaceRole.member; user_id = "u"; workspace_id = "w" }

abbrev membership : Membership
membership = record { project_id = "p"; role = ProjectRole.admin }

abbrev database : SecurityDb
database = record { groups = λ _ _. "g" ∷ []; memberships = λ _ _. membership ∷ [] }

-- A level for the project's administrators.
abbrev level : SecurityGrants
level = record {
  reporter = false;
  assignee = false;
  workspace_roles = none;
  project_roles = some ("ADMIN" ∷ []);
  group_ids = some [];
  user_ids = none;
}

abbrev row : IssueRow
row = record {
  id = "i";
  workspace_id = "w";
  project_id = "p";
  archived = false;
  people = record { reporter_id = "v"; assignee_id = none };
  level = some level;
}

abbrev actor : SecurityActor
actor = record {
  user_id = "u";
  workspace_role = WorkspaceRole.member;
  project_role = some ProjectRole.admin;
  group_ids = "g" ∷ [];
}

role_known :
    (r : ProjectRole)
    → actor.project_role ≡ some r
    → (m : Membership) × In m (database.memberships context [])
      × (m.project_id ≡ row.project_id)
      × (m.role ≡ r)
role_known r e = (membership, inl refl, refl, cc)

issue_security_where_lem_example :
    selected client (issue_security_where database context []) row
    ≡ is_none row.level
      || (row.people.reporter_id === context.user_id)
      || is_id row.people.assignee_id context.user_id
      || level_has user_ids context.user_id row.level
      || level_has workspace_roles (workspace_role_name context.role) row.level
      || any (λ id. level_has group_ids id row.level) (database.groups context [])
      || any (role_sees row) (database.memberships context [])
issue_security_where_lem_example =
    issue_security_where_lem client client_laws database context [] row
