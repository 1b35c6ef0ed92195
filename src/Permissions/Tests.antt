-- ===== src/Permissions/Tests.antt =====
-- Decisions of explainProjectPermission of src/lib/permissions.ts, and a level that nobody matches.
use planeo.Prelude.{
  String, true, false, none, some, [], ◌∷◌, ◌≡◌, refl, inl, inr, ok, ◌↔◌, In, ◌===◌,
}
use planeo.Prelude.Json.{obj, arr, nil, field, end}
use planeo.Permissions.{
  release_manage, WorkspaceRole, ProjectRole, PolicyContext, PolicyDb, Project, SchemeVersion,
  actor, project_grants, require_project_permission,
}
use planeo.Permissions.Decision.{Holds, require_project_permission_iff}
use planeo.Permissions.Security.{
  SecurityGrants, SecurityActor, IssuePeople, validate_security_grants, matches_issue_security,
}
use planeo.Permissions.Security.Empty.{empty_list_locks_out}

abbrev context : PolicyContext
context = record { role = WorkspaceRole.member; user_id = "u"; workspace_id = "w" }

abbrev version : SchemeVersion
version = record { id = "s"; permissions = λ _. some ("GROUP:g" ∷ "USER:v" ∷ []) }

abbrev governed : Project
governed = record { id = "p"; permission_scheme_version = some version }

abbrev plain : Project
plain = record { id = "q"; permission_scheme_version = none }

abbrev database : PolicyDb
database = record {
  find_project = λ id workspace. elim (id === "p") [ true ↦ some governed | false ↦ some plain ];
  member_role = λ _ _. some ProjectRole.viewer;
  member_groups = λ _ _. "g" ∷ [];
}

require_project_permission_iff_example :
    (require_project_permission database context "p" release_manage ≡ true) ↔ (
      (project : Project) × (database.find_project "p" context.workspace_id ≡ some project)
      × ((g : String) × In g (project_grants project release_manage)
          × Holds context (actor database "p" context.user_id) g))
require_project_permission_iff_example =
    require_project_permission_iff database context "p" release_manage

empty_list_locks_out_example :
    (grants : SecurityGrants) × (validate_security_grants (obj (field "groupIds" (arr nil) end))
      ≡ ok grants)
    × ((actor : SecurityActor) (issue : IssuePeople)
        → matches_issue_security (some grants) actor issue ≡ false)
empty_list_locks_out_example = empty_list_locks_out "groupIds" (inr (inr (inl refl)))
