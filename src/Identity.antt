-- ===== src/Identity.antt =====
-- Who may act: sessions, members and invitations, in src/lib/auth.ts and the handlers below
-- src/app/api/auth, src/app/api/workspace/members and src/app/api/invitations. `Directory` holds
-- the tables that they read and write; times are milliseconds.
pub mod Passwords
pub mod Sessions
pub mod Members
pub mod Invitations
pub mod Organizations
pub mod Login
pub mod Resets
pub mod ProjectMembers
pub mod Scim
use planeo.Prelude.{
  ℕ, String, Bool, Option, some, List, [], ◌∷◌, ◌&&◌, ◌===◌, is_absent, map, if◌then◌else◌,
}
use planeo.Prelude.Json.{Json}
use planeo.Permissions.{WorkspaceRole, ProjectRole}

pub record User : Type 0 where
  pub id : String
  pub email : String
  pub name : String
  pub password_hash : Option (List ℕ)

pub record Member : Type 0 where
  pub workspace_id : String
  pub user_id : String
  pub role : WorkspaceRole
  pub deactivated_at : Option ℕ

-- A member of a project; `workspace_id` is the workspace of the project.
pub record ProjectMember : Type 0 where
  pub workspace_id : String
  pub project_id : String
  pub user_id : String
  pub role : ProjectRole

pub record Session : Type 0 where
  pub id : String
  pub user_id : String
  pub workspace_id : String
  pub expires_at : ℕ
  pub revoked_at : Option ℕ

pub data InvitationStatus : Type 0 where
  pending accepted revoked expired : InvitationStatus

pub record Invitation : Type 0 where
  pub id : String
  pub token_hash : String
  pub workspace_id : String
  pub project_id : Option String
  pub email : String
  pub workspace_role : WorkspaceRole
  pub project_role : ProjectRole
  pub status : InvitationStatus
  pub expires_at : ℕ

pub record AuditEvent : Type 0 where
  pub workspace_id : String
  pub actor_id : String
  pub action : String
  pub target_type : String
  pub target_id : String
  pub metadata : Json

pub record Directory : Type 0 where
  pub users : List User
  pub members : List Member
  pub project_members : List ProjectMember
  pub sessions : List Session
  pub invitations : List Invitation
  pub audits : List AuditEvent

-- The key of a member, `workspaceId_userId`.
abbrev pub is_member_of : String → String → Member → Bool
is_member_of workspace_id user_id m = m.workspace_id === workspace_id && (m.user_id === user_id)

-- `updateMany({ where: …, data: { revokedAt: now } })`
abbrev pub revoke : (Session → Bool) → ℕ → Session → Session
revoke p now s = if p s then record s { revoked_at = some now } else s

abbrev pub revoke_sessions : (Session → Bool) → ℕ → List Session → List Session
revoke_sessions p now sessions = map (revoke p now) sessions

-- `{ userId, revokedAt: null }`
abbrev pub is_open_of : String → Session → Bool
is_open_of user_id s = s.user_id === user_id && is_absent s.revoked_at
