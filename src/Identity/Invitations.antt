-- ===== src/Identity/Invitations.antt =====
-- GET and POST of src/app/api/invitations/[token]/route.ts: an invitation is shown and accepted.
pub mod SingleUse
pub mod Joining
pub mod Manage
mod Tests
use planeo.Prelude.{
  ℕ, String, Bool, true, false, not, ◌&&◌, ◌||◌, Option, none, some, List, [], ◌∷◌, ◌++◌, map,
  length, filter, find, any, ◌===◌, ◌==◌, leb, ltb, is_absent, maybe, if◌then◌else◌, Result, ok,
  err, throw_if, ◌>>=◌, ◌>>◌, ◌≡◌, codes, units, trim,
}
use planeo.Prelude.Json.{Json, null, str, obj, field, end, field_of, as_string}
use planeo.Permissions.{WorkspaceRole, ProjectRole}
use planeo.Identity.{
  User, Member, ProjectMember, InvitationStatus, pending, accepted, Invitation, AuditEvent,
  Directory, is_member_of,
}
use planeo.Identity.Passwords.{Hashing, verify_password, hash_password, is_blank}
use planeo.Identity.Sessions.{Coding, Environment, AuthError, Cookie, create_session}
use planeo.Identity.Members.{update}

pub data InvitationError : Type 0 where
  password_length invalid_invitation expired wrong_password : InvitationError
  other_sign_in name_required already_used : InvitationError
  sign_in_failed : AuthError → InvitationError

-- The status of the response; an error that is thrown is 500.
abbrev pub status : InvitationError → ℕ
status password_length = 400
status invalid_invitation = 404
status expired = 410
status wrong_password = 401
status other_sign_in = 400
status name_required = 400
status already_used = 409
status (sign_in_failed _) = 500

abbrev pub is_pending : InvitationStatus → Bool
is_pending pending = true
is_pending _ = false

abbrev pub has_token : String → Invitation → Bool
has_token token_hash i = i.token_hash === token_hash

abbrev has_email : String → User → Bool
has_email email u = u.email === email

-- `typeof body?.[key] === "string" ? body[key] : ""`
abbrev pub text_field : String → Json → String
text_field key body = maybe (as_string (field_of key body)) "" (λ s. s)

abbrev usable : ℕ → Invitation → Result InvitationError Invitation
usable now i =
    throw_if (not (is_pending i.status)) invalid_invitation
    >> (throw_if (leb i.expires_at now) expired >> ok i)

-- The invitation of the token, which is pending and has not expired.
abbrev pub open_invitation :
    (String → String) → ℕ → String → Directory → Result InvitationError Invitation
open_invitation digest now token directory =
    maybe (find (has_token (digest token)) directory.invitations) (err invalid_invitation)
      (usable now)

pub record InvitationView : Type 0 where
  pub email : String
  pub workspace_id : String
  pub project_id : Option String
  pub role : ProjectRole
  pub expires_at : ℕ
  pub requires_name : Bool

-- `GET`; the names of the workspace and of the project are looked up by the ids given here.
pub show_invitation :
    (String → String) → ℕ → String → Directory → Result InvitationError InvitationView
show_invitation digest now token directory = open_invitation digest now token directory >>= λ i.
    ok (record {
      email = i.email;
      workspace_id = i.workspace_id;
      project_id = i.project_id;
      role = i.project_role;
      expires_at = i.expires_at;
      requires_name = is_absent (find (has_email i.email) directory.users);
    })

-- `claimed`: the rows of the update, and whether exactly one was updated.
abbrev pub claimable : String → ℕ → Invitation → Bool
claimable id now i = i.id === id && is_pending i.status && ltb now i.expires_at

abbrev pub claim_one : String → ℕ → Invitation → Invitation
claim_one id now i = if claimable id now i then record i { status = accepted } else i

abbrev pub claim : String → ℕ → List Invitation → List Invitation
claim id now invitations = map (claim_one id now) invitations

abbrev pub join : String → WorkspaceRole → Member → Member
join user_id role m = record m { role = role; deactivated_at = none }

-- `workspaceMember.upsert`; the members of a workspace are in the order in which they joined.
abbrev pub join_workspace : Invitation → String → List Member → List Member
join_workspace i user_id members =
    if any (is_member_of i.workspace_id user_id) members
    then update (is_member_of i.workspace_id user_id) (join user_id i.workspace_role) members
    else members
      ++ record {
        workspace_id = i.workspace_id;
        user_id = user_id;
        role = i.workspace_role;
        deactivated_at = none;
      }
        ∷ []

abbrev is_project_member_of : String → String → ProjectMember → Bool
is_project_member_of project_id user_id m = m.project_id === project_id && (m.user_id === user_id)

-- `projectMember.upsert`, where the invitation names a project.
abbrev join_project : Invitation → String → List ProjectMember → List ProjectMember
join_project i user_id members = elim i.project_id [
  | none ↦ members
  | some project_id ↦
      if project_id === ""
      then members
      else if any (is_project_member_of project_id user_id) members
      then map
          (λ m.
            if is_project_member_of project_id user_id m
            then record m { role = i.project_role }
            else m)
          members
      else record {
        workspace_id = i.workspace_id;
        project_id = project_id;
        user_id = user_id;
        role = i.project_role;
      }
        ∷ members
]

abbrev project_metadata : Option String → Json
project_metadata none = null
project_metadata (some project_id) = str project_id

-- The new rows have the ids `user_id` and `session_id`; `salt` is random.
pub record Fresh : Type 0 where
  pub user_id : String
  pub session_id : String
  pub salt : List ℕ

module _ (digest : String → String) (hashing : Hashing) (coding : Coding) (env : Environment)
    (lifetime now : ℕ) (fresh : Fresh) where
  -- The user who accepts: the account of the email, once its password is verified, or none.
  abbrev account : String → String → Option User → Result InvitationError (Option User)
  account name password none =
      throw_if (name === "" || ltb 120 (units name)) name_required >> ok none
  account name password (some u) = maybe u.password_hash (err other_sign_in) (λ hash.
      if is_blank hash
      then err other_sign_in
      else throw_if (not (verify_password hashing (codes password) hash)) wrong_password
        >> ok (some u))

  abbrev new_user : Invitation → String → String → User
  new_user i name password = record {
    id = fresh.user_id;
    email = i.email;
    name = name;
    password_hash = some (hash_password hashing fresh.salt (codes password));
  }

  abbrev pub joined : Invitation → User → List User → Directory → Directory
  joined i u users directory = record {
    users = users;
    members = join_workspace i u.id directory.members;
    project_members = join_project i u.id directory.project_members;
    sessions = directory.sessions;
    invitations = claim i.id now directory.invitations;
    audits =
        record {
          workspace_id = i.workspace_id;
          actor_id = u.id;
          action = "invitation.accepted";
          target_type = "invitation";
          target_id = i.id;
          metadata = obj (field "projectId" (project_metadata i.project_id) end);
        }
        ∷ directory.audits;
  }

  -- The transaction, on the rows as they are when it runs.
  abbrev pub accept :
      Invitation
      → String
      → String
      → Option User
      → Directory
      → Result InvitationError (Directory × User)
  accept i name password found directory =
      if length (filter (claimable i.id now) directory.invitations) == 1
      then elim found [
        | none ↦
            let u = new_user i name password in ok (joined i u (u ∷ directory.users) directory, u)
        | some u ↦ ok (joined i u directory.users directory, u)
      ]
      else err already_used

  -- What is read and tested before the transaction.
  abbrev pub prepare : String → Json → Directory → Result InvitationError (Invitation × Option User)
  prepare token body seen =
      let password = text_field "password" body in
      throw_if (ltb (units password) 10 || ltb 200 (units password)) password_length
      >> (open_invitation digest now token seen >>= λ i.
          account (trim (text_field "name" body)) password (find (has_email i.email) seen.users)
          >>= λ found. ok (i, found))

  abbrev sign_in :
      Invitation → User → Directory → Directory × Result InvitationError (User × Cookie)
  sign_in i u directory =
      elim (create_session coding env fresh.session_id now lifetime u.id i.workspace_id directory) [
        | err fault ↦ (directory, err (sign_in_failed fault))
        | ok result ↦ (result.0, ok (u, result.1))
      ]

  -- `POST`: the rows are read in `seen`, and the transaction runs on `directory`, which another
  -- request may have changed. The rows are kept where the request fails after the transaction.
  pub post_invitation :
      String → Json → Directory → Directory → Directory × Result InvitationError (User × Cookie)
  post_invitation token body seen directory = elim (prepare token body seen) [
    | err fault ↦ (directory, err fault)
    | ok read ↦
        elim (accept read.0 (trim (text_field "name" body)) (text_field "password" body) read.1
          directory) [ err fault ↦ (directory, err fault) | ok made ↦ sign_in read.0 made.1 made.0 ]
  ]
