-- ===== src/Identity/ProjectMembers.antt =====
-- POST and PATCH of src/app/api/projects/[key]/members/route.ts, with getProjectForContext of
-- src/lib/issue-query.ts: the members of a project. Digests and mail are given.
pub mod Tests
use planeo.Prelude.{
  ℕ, ◌+◌, String, Bool, true, false, not, ◌&&◌, ◌||◌, Option, none, some, List, [], ◌∷◌, all, any,
  map, find, filter, ltb, codes, is_space, trim, ◌===◌, ◌==◌, maybe, is_absent, if◌then◌else◌,
  Result, ok, err, throw_if, ◌>>=◌, ◌>>◌,
}
use planeo.Prelude.Json.{Json, str, obj, field, end, field_of, is_str, as_string}
use planeo.Permissions.{WorkspaceRole, ProjectRole, project_role_name, PolicyContext}
use planeo.Identity.{
  User, Member, ProjectMember, Invitation, pending, InvitationStatus, AuditEvent, Directory,
}
use planeo.Identity.Invitations.{is_pending}
use planeo.Queues.{Project}

pub data ProjectMemberError : Type 0 where
  not_signed_in no_project no_project_admin bad_email no_member_or_role own_administration :
      ProjectMemberError
  no_project_member : ProjectMemberError

-- The status of the response.
abbrev pub member_status : ProjectMemberError → ℕ
member_status not_signed_in = 401
member_status no_project = 404
member_status no_project_admin = 403
member_status bad_email = 400
member_status no_member_or_role = 400
member_status own_administration = 400
member_status no_project_member = 404

-- What a request is answered with.
pub data Answer : Type 0 where
  added invited changed : String → ProjectRole → Answer

-- The token that is drawn with its digest, the ids of new rows, and the runtime's case maps.
pub record Draws : Type 0 where
  pub token_hash : String
  pub invitation_id : String
  pub to_upper : String → String
  pub to_lower : String → String

-- `roles.includes(body.role)`, with the role.
abbrev project_role_of : Json → Option ProjectRole
project_role_of value =
    if is_str "ADMIN" value
    then some ProjectRole.admin
    else if is_str "MEMBER" value
    then some ProjectRole.member
    else if is_str "VIEWER" value
    then some ProjectRole.viewer
    else none

abbrev pub runs_workspace : WorkspaceRole → Bool
runs_workspace WorkspaceRole.owner = true
runs_workspace WorkspaceRole.admin = true
runs_workspace _ = false

abbrev runs_project : ProjectRole → Bool
runs_project ProjectRole.admin = true
runs_project _ = false

-- A dot, and a character after it.
abbrev has_dot : List ℕ → Bool
has_dot (c ∷ d ∷ rest) = c == b'.' || has_dot (d ∷ rest)
has_dot _ = false

-- The domain: a character, and a dot later.
abbrev is_domain : List ℕ → Bool
is_domain (c ∷ rest) = has_dot rest
is_domain [] = false

abbrev has_at : List ℕ → Bool
has_at (c ∷ rest) = c == b'@' && is_domain rest || has_at rest
has_at [] = false

-- /^\S+@\S+\.\S+$/
abbrev is_email : List ℕ → Bool
is_email (c ∷ rest) = all (λ d. not (is_space d)) (c ∷ rest) && has_at rest
is_email [] = false

-- The key of a member of a project, `projectId_userId`.
abbrev pub is_in_project : String → String → ProjectMember → Bool
is_in_project project_id user_id m = m.project_id === project_id && (m.user_id === user_id)

module _ (context : PolicyContext) (to_upper : String → String) (directory : Directory) where
  -- The row that `getProjectForContext` finds.
  abbrev is_accessible_project : String → Project → Bool
  is_accessible_project key p =
      p.workspace_id === context.workspace_id
      && (p.key === to_upper key)
      && not p.archived
      && (runs_workspace context.role
          || p.public_to_all
          || any (is_in_project p.id context.user_id) directory.project_members)

  -- `getProjectForContext`
  abbrev pub get_project_for_context : List Project → String → Option Project
  get_project_for_context projects key = find (is_accessible_project key) projects

module _ (context : PolicyContext) (draws : Draws) (directory : Directory) where
  abbrev can_manage : Project → Bool
  can_manage p =
      runs_workspace context.role
      || maybe (find (is_in_project p.id context.user_id) directory.project_members) false
          (λ m. runs_project m.role)

  -- `managementContext`, for a user who is signed in.
  abbrev management_context : List Project → String → Result ProjectMemberError Project
  management_context projects key =
      maybe (get_project_for_context context draws.to_upper directory projects key) (err no_project)
        (λ p. throw_if (not (can_manage p)) no_project_admin >> ok p)

  abbrev member_event : String → String → Json → AuditEvent
  member_event action user_id metadata = record {
    workspace_id = context.workspace_id;
    actor_id = context.user_id;
    action = action;
    target_type = "user";
    target_id = user_id;
    metadata = metadata;
  }

  abbrev role_data : Project → ProjectRole → Json
  role_data p role =
      obj (field "projectId" (str p.id) (field "role" (str (project_role_name role)) end))

  abbrev set_project_role : Project → String → ProjectRole → ProjectMember → ProjectMember
  set_project_role p user_id role m =
      if is_in_project p.id user_id m then record m { role = role } else m

  -- `projectMember.upsert`
  abbrev upsert_member : Project → String → ProjectRole → List ProjectMember
  upsert_member p user_id role =
      if any (is_in_project p.id user_id) directory.project_members
      then map (set_project_role p user_id role) directory.project_members
      else record {
        workspace_id = p.workspace_id;
        project_id = p.id;
        user_id = user_id;
        role = role;
      }
        ∷ directory.project_members

  abbrev add_member : Project → ProjectRole → Member → Directory
  add_member p role m = record directory {
    project_members = upsert_member p m.user_id role;
    audits = member_event "project.member_added" m.user_id (role_data p role) ∷ directory.audits;
  }

  abbrev has_address : String → String → Bool
  has_address email user_id = any (λ u. u.id === user_id && (u.email === email)) directory.users

  -- The active member of the workspace with the email.
  abbrev is_active_with : String → Member → Bool
  is_active_with email m =
      m.workspace_id === context.workspace_id
      && is_absent m.deactivated_at
      && has_address email m.user_id

  abbrev is_invitation_for : Project → String → Invitation → Bool
  is_invitation_for p email i =
      i.workspace_id === context.workspace_id
      && maybe i.project_id false (λ id. id === p.id)
      && (i.email === email)
      && is_pending i.status

  abbrev invitation_life : ℕ
  invitation_life = 604800000

  abbrev renew_invitation : ℕ → ProjectRole → String → Invitation → Invitation
  renew_invitation now role id i =
      if i.id === id
      then record i {
        project_role = role;
        token_hash = draws.token_hash;
        expires_at = now + invitation_life;
      }
      else i

  abbrev new_invitation : ℕ → Project → ProjectRole → String → Invitation
  new_invitation now p role email = record {
    id = draws.invitation_id;
    token_hash = draws.token_hash;
    workspace_id = context.workspace_id;
    project_id = some p.id;
    email = email;
    workspace_role = WorkspaceRole.member;
    project_role = role;
    status = pending;
    expires_at = now + invitation_life;
  }

  abbrev invitation_event : Project → ProjectRole → String → String → AuditEvent
  invitation_event p role email id = record {
    workspace_id = context.workspace_id;
    actor_id = context.user_id;
    action = "project.invitation_created";
    target_type = "invitation";
    target_id = id;
    metadata = obj (
        field "projectId" (str p.id)
          (field "email" (str email) (field "role" (str (project_role_name role)) end)));
  }

  -- The pending invitation of the email is renewed, or one is made.
  abbrev invite : ℕ → Project → ProjectRole → String → Directory
  invite now p role email =
      maybe (find (is_invitation_for p email) directory.invitations)
        (record directory {
          invitations = new_invitation now p role email ∷ directory.invitations;
          audits = invitation_event p role email draws.invitation_id ∷ directory.audits;
        })
        (λ i. record directory {
          invitations = map (renew_invitation now role i.id) directory.invitations;
          audits = invitation_event p role email i.id ∷ directory.audits;
        })

  abbrev email_of : Json → String
  email_of body = maybe (as_string (field_of "email" body)) "" (λ s. draws.to_lower (trim s))

  abbrev add_or_invite :
      ℕ → Project → ProjectRole → String → Result ProjectMemberError (Directory × Answer)
  add_or_invite now p role email =
      throw_if (not (is_email (codes email))) bad_email
      >> ok (
          maybe (find (is_active_with email) directory.members)
            (invite now p role email, invited email role)
            (λ m. (add_member p role m, added m.user_id role)))

  abbrev change_member :
      Project → String → ProjectRole → Result ProjectMemberError (Directory × Answer)
  change_member p user_id role =
      throw_if (user_id === context.user_id && not (runs_project role)) own_administration
      >> (throw_if (not (any (is_in_project p.id user_id) directory.project_members))
            no_project_member
          >> ok (
            record directory {
              project_members = map (set_project_role p user_id role) directory.project_members;
              audits =
                  member_event "project.member_role_changed" user_id (role_data p role)
                  ∷ directory.audits;
            },
            changed user_id role,
          ))

-- What `GET` answers with; the rows are in the database's order.
pub record Listing : Type 0 where
  pub members : List (User × ProjectRole)
  pub pending_invitations : List Invitation
  pub available_members : List User

-- The user of a row, for which the table has one.
abbrev user_with : List User → String → Option User
user_with users id = find (λ u. u.id === id) users

abbrev list_members : List User → List ProjectMember → List (User × ProjectRole)
list_members users [] = []
list_members users (m ∷ members) =
    let rest = list_members users members in
    maybe (user_with users m.user_id) rest (λ u. (u, m.role) ∷ rest)

abbrev list_users : List User → List Member → List User
list_users users [] = []
list_users users (m ∷ members) =
    let rest = list_users users members in maybe (user_with users m.user_id) rest (λ u. u ∷ rest)

abbrev is_open_invitation : PolicyContext → ℕ → Project → Invitation → Bool
is_open_invitation context now p i =
    i.workspace_id === context.workspace_id
    && maybe i.project_id false (λ id. id === p.id)
    && is_pending i.status
    && ltb now i.expires_at

-- An active member of the workspace who is not in the project.
abbrev is_available : PolicyContext → Project → Directory → Member → Bool
is_available context p directory m =
    m.workspace_id === context.workspace_id
    && is_absent m.deactivated_at
    && not (any (is_in_project p.id m.user_id) directory.project_members)

abbrev listing_of : PolicyContext → ℕ → Project → Directory → Listing
listing_of context now p directory = record {
  members =
      list_members directory.users (filter (λ m. m.project_id === p.id) directory.project_members);
  pending_invitations = filter (is_open_invitation context now p) directory.invitations;
  available_members =
      list_users directory.users (filter (is_available context p directory) directory.members);
}

-- `GET`
unfoldable pub get_project_members :
    Option PolicyContext
    → Draws
    → ℕ
    → List Project
    → String
    → Directory
    → Result ProjectMemberError Listing
get_project_members none draws now projects key directory = err not_signed_in
get_project_members (some context) draws now projects key directory =
    management_context context draws directory projects key >>= λ p.
    ok (listing_of context now p directory)

-- `POST`; an unknown role counts as that of a member.
unfoldable pub post_project_member :
    Option PolicyContext
    → Draws
    → ℕ
    → List Project
    → String
    → Json
    → Directory
    → Result ProjectMemberError (Directory × Answer)
post_project_member none draws now projects key body directory = err not_signed_in
post_project_member (some context) draws now projects key body directory =
    management_context context draws directory projects key >>= λ p.
    add_or_invite context draws directory now p
      (maybe (project_role_of (field_of "role" body)) ProjectRole.member (λ role. role))
      (email_of context draws directory body)

-- `PATCH`
unfoldable pub patch_project_member :
    Option PolicyContext
    → Draws
    → List Project
    → String
    → Json
    → Directory
    → Result ProjectMemberError (Directory × Answer)
patch_project_member none draws projects key body directory = err not_signed_in
patch_project_member (some context) draws projects key body directory =
    management_context context draws directory projects key >>= λ p.
    maybe (project_role_of (field_of "role" body)) (err no_member_or_role) (λ role.
      maybe (as_string (field_of "userId" body)) (err no_member_or_role) (λ user_id.
        throw_if (user_id === "") no_member_or_role
        >> change_member context draws directory p user_id role))
