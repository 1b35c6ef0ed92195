-- ===== src/Identity/Members.antt =====
-- PATCH of src/app/api/workspace/members/[userId]/route.ts: another member's role, deactivation,
-- reactivation and removal.
mod Counts
pub mod Owners
pub mod TakenOut
mod Tests
use planeo.Prelude.{
  ℕ, String, Bool, true, false, not, ◌&&◌, ◌||◌, Option, none, some, List, [], ◌∷◌, map, length,
  filter, find, ◌===◌, leb, is_absent, if◌then◌else◌, Result, ok, err, throw_if, ◌>>◌, ◌≡◌, any,
}
use planeo.Prelude.Json.{Json, str, obj, field, end, field_of, is_str, is_undefined}
use planeo.Permissions.{
  WorkspaceRole, owner, admin, member, viewer, workspace_role_name, PolicyContext,
}
use planeo.Identity.{
  Member, ProjectMember, Session, AuditEvent, Directory, is_member_of, revoke_sessions,
}

pub data MemberError : Type 0 where
  authentication_required administration_required member_not_found owners_only : MemberError
  own_access last_owner invalid_role no_supported_change : MemberError

-- The status of the response.
abbrev pub status : MemberError → ℕ
status authentication_required = 401
status administration_required = 403
status member_not_found = 404
status owners_only = 403
status own_access = 400
status last_owner = 400
status invalid_role = 400
status no_supported_change = 400

pub data Outcome : Type 0 where
  updated removed : Outcome

abbrev pub is_owner : WorkspaceRole → Bool
is_owner owner = true
is_owner _ = false

abbrev pub is_admin : WorkspaceRole → Bool
is_admin WorkspaceRole.admin = true
is_admin _ = false

-- `roles.includes(body.role)`, with the role.
abbrev pub role_of : Json → Option WorkspaceRole
role_of value =
    if is_str "OWNER" value
    then some owner
    else if is_str "ADMIN" value
    then some WorkspaceRole.admin
    else if is_str "MEMBER" value
    then some WorkspaceRole.member
    else if is_str "VIEWER" value
    then some WorkspaceRole.viewer
    else none

-- The body takes the member out, or sets another role than `role`.
abbrev pub takes_away : Json → WorkspaceRole → Bool
takes_away body role =
    is_str "deactivate" (field_of "action" body)
    || is_str "remove" (field_of "action" body)
    || not (is_undefined (field_of "role" body))
      && not (is_str (workspace_role_name role) (field_of "role" body))

abbrev pub is_active_owner : String → Member → Bool
is_active_owner workspace_id m =
    m.workspace_id === workspace_id && is_owner m.role && is_absent m.deactivated_at

abbrev pub active_owners : String → List Member → ℕ
active_owners workspace_id members = length (filter (is_active_owner workspace_id) members)

abbrev pub update : (Member → Bool) → (Member → Member) → List Member → List Member
update p f members = map (λ m. if p m then f m else m) members

abbrev pub set_role : WorkspaceRole → Member → Member
set_role role m = record m { role = role }

abbrev pub set_deactivated : Option ℕ → Member → Member
set_deactivated at m = record m { deactivated_at = at }

abbrev is_open_in : String → String → Session → Bool
is_open_in workspace_id user_id s =
    s.workspace_id === workspace_id && (s.user_id === user_id) && is_absent s.revoked_at

module _ (context : PolicyContext) (now : ℕ) (user_id : String) where
  abbrev pub is_target : Member → Bool
  is_target = is_member_of context.workspace_id user_id

  -- `audit`
  abbrev audit : String → Json → Directory → Directory
  audit action metadata directory = record directory {
    audits =
        record {
          workspace_id = context.workspace_id;
          actor_id = context.user_id;
          action = action;
          target_type = "user";
          target_id = user_id;
          metadata = metadata;
        }
        ∷ directory.audits;
  }

  abbrev pub change_role : WorkspaceRole → Directory → Directory
  change_role role directory =
      audit "workspace.member_role_changed"
        (obj (field "role" (str (workspace_role_name role)) end))
        (record directory { members = update is_target (set_role role) directory.members })

  abbrev pub deactivate : Directory → Directory
  deactivate directory = audit "workspace.member_deactivate" (obj end) (record directory {
    members = update is_target (set_deactivated (some now)) directory.members;
    sessions = revoke_sessions (is_open_in context.workspace_id user_id) now directory.sessions;
  })

  abbrev pub reactivate : Directory → Directory
  reactivate directory =
      audit "workspace.member_reactivate" (obj end)
        (record directory { members = update is_target (set_deactivated none) directory.members })

  abbrev is_target_project : ProjectMember → Bool
  is_target_project m = m.user_id === user_id && (m.workspace_id === context.workspace_id)

  abbrev pub remove : Directory → Directory
  remove directory = audit "workspace.member_removed" (obj end) (record directory {
    project_members = filter (λ m. not (is_target_project m)) directory.project_members;
    members = filter (λ m. not (is_target m)) directory.members;
    sessions = revoke_sessions (is_open_in context.workspace_id user_id) now directory.sessions;
  })

  -- What follows the guards.
  abbrev pub change : Member → Json → Directory → Result MemberError (Directory × Outcome)
  change target body directory =
      if not (is_undefined (field_of "role" body))
      then elim (role_of (field_of "role" body)) [
        | none ↦ err invalid_role
        | some role ↦
            throw_if (not (is_owner context.role) && (is_owner target.role || is_owner role))
              owners_only
            >> ok (change_role role directory, updated)
      ]
      else if is_str "deactivate" (field_of "action" body)
      then ok (deactivate directory, updated)
      else if is_str "reactivate" (field_of "action" body)
      then ok (reactivate directory, updated)
      else if is_str "remove" (field_of "action" body)
      then ok (remove directory, removed)
      else err no_supported_change

  abbrev pub guarded : Json → Directory → Option Member → Result MemberError (Directory × Outcome)
  guarded body directory none = err member_not_found
  guarded body directory (some target) =
      throw_if (not (is_owner context.role) && is_owner target.role) owners_only
      >> (throw_if (user_id === context.user_id && takes_away body context.role) own_access
          >> (throw_if
                (is_owner target.role
                  && takes_away body owner
                  && leb (active_owners context.workspace_id directory.members) 1)
                last_owner
              >> change target body directory))

-- `PATCH`
pub patch_member :
    Option PolicyContext → ℕ → String → Json → Directory → Result MemberError (Directory × Outcome)
patch_member none now user_id body directory = err authentication_required
patch_member (some context) now user_id body directory =
    if not (is_owner context.role) && not (is_admin context.role)
    then err administration_required
    else guarded context now user_id body directory
        (find (is_member_of context.workspace_id user_id) directory.members)
