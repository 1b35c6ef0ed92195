-- ===== src/Permissions/Security/Empty.antt =====
-- Security levels that validateSecurityGrants lets pass although nobody matches them.
use planeo.Prelude.{
  String, false, Option, none, some, List, [], ◌∷◌, ◌≡◌, refl, inl, inr, In, any, ok, arith, unique,
}
use planeo.Prelude.Json.{obj, arr, nil, field, end}
use planeo.Permissions.{ProjectRole}
use planeo.Permissions.Security.{
  SecurityGrants, SecurityActor, IssuePeople, validate_security_grants, matches_issue_security,
  lists_role, lists,
}

abbrev pub list_keys : List String
list_keys = "workspaceRoles" ∷ "projectRoles" ∷ "groupIds" ∷ "userIds" ∷ []

any-none : (ids : List String) → any (λ id. lists none id) ids ≡ false
any-none [] = refl
any-none (id ∷ ids) = any-none ids

any_empty : (ids : List String) → any (λ id. lists (some []) id) ids ≡ false
any_empty [] = refl
any_empty (id ∷ ids) = any_empty ids

role_none : (r : Option ProjectRole) → lists_role none r ≡ false
role_none none = refl
role_none (some r) = refl

role_empty : (r : Option ProjectRole) → lists_role (some []) r ≡ false
role_empty none = refl
role_empty (some r) = refl

-- No actor matches an issue with these grants.
abbrev LocksOut : SecurityGrants → Type 0
LocksOut grants =
    (actor : SecurityActor) (issue : IssuePeople)
    → matches_issue_security (some grants) actor issue ≡ false

abbrev workspace_roles_only : SecurityGrants
workspace_roles_only = record {
  reporter = false;
  assignee = false;
  workspace_roles = some [];
  project_roles = none;
  group_ids = none;
  user_ids = none;
}

abbrev project_roles_only : SecurityGrants
project_roles_only = record {
  reporter = false;
  assignee = false;
  workspace_roles = none;
  project_roles = some [];
  group_ids = none;
  user_ids = none;
}

abbrev group_ids_only : SecurityGrants
group_ids_only = record {
  reporter = false;
  assignee = false;
  workspace_roles = none;
  project_roles = none;
  group_ids = some [];
  user_ids = none;
}

abbrev user_ids_only : SecurityGrants
user_ids_only = record {
  reporter = false;
  assignee = false;
  workspace_roles = none;
  project_roles = none;
  group_ids = none;
  user_ids = some [];
}

workspace_roles_LocksOut : LocksOut workspace_roles_only
unfolding matches_issue_security
workspace_roles_LocksOut actor issue = ground (
  arith,
  any-none actor.group_ids,
  any_empty actor.group_ids,
  role_none actor.project_role,
  role_empty actor.project_role,
)

project_roles_LocksOut : LocksOut project_roles_only
unfolding matches_issue_security
project_roles_LocksOut actor issue = ground (
  arith,
  any-none actor.group_ids,
  any_empty actor.group_ids,
  role_none actor.project_role,
  role_empty actor.project_role,
)

group_ids_LocksOut : LocksOut group_ids_only
unfolding matches_issue_security
group_ids_LocksOut actor issue = ground (
  arith,
  any-none actor.group_ids,
  any_empty actor.group_ids,
  role_none actor.project_role,
  role_empty actor.project_role,
)

user_ids_LocksOut : LocksOut user_ids_only
unfolding matches_issue_security
user_ids_LocksOut actor issue = ground (
  arith,
  any-none actor.group_ids,
  any_empty actor.group_ids,
  role_none actor.project_role,
  role_empty actor.project_role,
)

-- A level that grants nothing but one empty list passes validation, and then no actor matches an
-- issue of that level, whoever its reporter and assignee are.
pub empty_list_locks_out :
    (key : String)
    → In key list_keys
    → (grants : SecurityGrants) × (validate_security_grants (obj (field key (arr nil) end))
        ≡ ok grants)
      × ((actor : SecurityActor) (issue : IssuePeople)
          → matches_issue_security (some grants) actor issue ≡ false)
unfolding validate_security_grants unique
empty_list_locks_out key (inl e) = rw e (workspace_roles_only, refl, workspace_roles_LocksOut)
empty_list_locks_out key (inr (inl e)) = rw e (project_roles_only, refl, project_roles_LocksOut)
empty_list_locks_out key (inr (inr (inl e))) = rw e (group_ids_only, refl, group_ids_LocksOut)
empty_list_locks_out key (inr (inr (inr (inl e)))) = rw e (user_ids_only, refl, user_ids_LocksOut)
empty_list_locks_out key (inr (inr (inr (inr e)))) = elim e [ ]
