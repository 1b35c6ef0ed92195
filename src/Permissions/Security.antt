-- ===== src/Permissions/Security.antt =====
-- Issue security of src/lib/permissions.ts: the grants of a security level, and whom they match.
pub mod Empty
use planeo.Prelude.{
  ℕ, String, Bool, true, false, not, ◌&&◌, ◌||◌, Option, none, some, List, [], ◌∷◌, ◌≡◌, refl, ap,
  ◌⊎◌, inl, inr, ◌↔◌, In, any, all, includes, unique, ◌===◌, Result, ok, err, ◌>>=◌, ◌>>◌, throw_if,
  if◌then◌else◌,
}
use planeo.Prelude.Json.{Json, as_object, as_array, strings, get, is_true, is_undefined}
use planeo.Permissions.{WorkspaceRole, ProjectRole, workspace_role_name, project_role_name}

-- SecurityGrants; `none` where the key is missing.
pub record SecurityGrants : Type 0 where
  pub reporter : Bool
  pub assignee : Bool
  pub workspace_roles : Option (List String)
  pub project_roles : Option (List String)
  pub group_ids : Option (List String)
  pub user_ids : Option (List String)

pub record SecurityActor : Type 0 where
  pub user_id : String
  pub workspace_role : WorkspaceRole
  pub project_role : Option ProjectRole
  pub group_ids : List String

pub record IssuePeople : Type 0 where
  pub reporter_id : String
  pub assignee_id : Option String

-- `list?.includes(value)`
abbrev pub lists : Option (List String) → String → Bool
lists none value = false
lists (some xs) value = includes xs value

-- `id === value` for an id that may be null.
abbrev pub is_id : Option String → String → Bool
is_id none value = false
is_id (some id) value = id === value

abbrev pub lists_role : Option (List String) → Option ProjectRole → Bool
lists_role roles none = false
lists_role roles (some r) = lists roles (project_role_name r)

unfoldable pub matches_issue_security : Option SecurityGrants → SecurityActor → IssuePeople → Bool
matches_issue_security none actor issue = true
matches_issue_security (some grants) actor issue =
    grants.reporter && (issue.reporter_id === actor.user_id)
    || (grants.assignee && is_id issue.assignee_id actor.user_id)
    || lists grants.user_ids actor.user_id
    || lists grants.workspace_roles (workspace_role_name actor.workspace_role)
    || lists_role grants.project_roles actor.project_role
    || any (λ id. lists grants.group_ids id) actor.group_ids

pub data SecurityError : Type 0 where
  grants_required no_principal : SecurityError
  invalid_role ids_required : String → SecurityError

abbrev workspace_roles : List String
workspace_roles = "OWNER" ∷ "ADMIN" ∷ "MEMBER" ∷ "VIEWER" ∷ []

abbrev project_roles : List String
project_roles = "ADMIN" ∷ "MEMBER" ∷ "VIEWER" ∷ []

-- An optional list of texts that must all be allowed.
read_list : (String → Bool) → SecurityError → Json → Result SecurityError (Option (List String))
read_list allowed error value = if is_undefined value then ok none else elim (as_array value) [
  | none ↦ err error
  | some values ↦ elim (strings values) [
    | none ↦ err error
    | some texts ↦ if all allowed texts then ok (some (unique texts)) else err error
  ]
]

abbrev is_given : Option (List String) → Bool
is_given none = false
is_given (some _) = true

-- `Object.keys(result).length` is not 0.
abbrev has_keys : SecurityGrants → Bool
has_keys g =
    g.reporter
    || g.assignee
    || is_given g.workspace_roles
    || is_given g.project_roles
    || is_given g.group_ids
    || is_given g.user_ids

pub validate_security_grants : Json → Result SecurityError SecurityGrants
unfolding read_list
validate_security_grants value = elim (as_object value) [
  | none ↦ err grants_required
  | some input ↦ do
    ws ←
        read_list (includes workspace_roles) (invalid_role "workspaceRoles")
          (get "workspaceRoles" input)
    ps ← read_list (includes project_roles) (invalid_role "projectRoles") (get "projectRoles" input)
    gs ← read_list (λ _. true) (ids_required "groupIds") (get "groupIds" input)
    us ← read_list (λ _. true) (ids_required "userIds") (get "userIds" input)
    let result : SecurityGrants = record {
      reporter = is_true (get "reporter" input);
      assignee = is_true (get "assignee" input);
      workspace_roles = ws;
      project_roles = ps;
      group_ids = gs;
      user_ids = us;
    }
    throw_if (not (has_keys result)) no_principal
    ok result
]
