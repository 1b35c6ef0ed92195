-- ===== src/Identity/Invitations/Tests.antt =====
-- Runs of POST of src/app/api/invitations/[token]/route.ts.
use planeo.Prelude.{String, none, some, [], ◌∷◌, ◌≡◌, refl, ok, err, codes, same_units, arith}
use planeo.Prelude.Json.{Json, null, str, obj, field, end}
use planeo.Permissions.{ProjectRole, owner, member}
use planeo.Identity.{User, Invitation, pending, accepted, Directory}
use planeo.Identity.Passwords.{split_units, hash_password, verify_password}
use planeo.Identity.Passwords.Tests.{hashing}
use planeo.Identity.Sessions.{create_session, secret, get_auth_context}
use planeo.Identity.Sessions.Tests.{coding, coding-CodingLaws, env, session, cookie}
use planeo.Identity.Invitations.{InvitationError, Fresh, post_invitation}
use planeo.Identity.Invitations.SingleUse.{post_invitation_once}
use planeo.Identity.Invitations.Joining.{get_auth_context-post_invitation}

abbrev digest : String → String
digest token = token

abbrev ada : User
ada = record {
  id = "ada";
  email = "ada@acme.org";
  name = "Ada";
  password_hash = some (hash_password hashing (7 ∷ 9 ∷ []) (codes "correct horse"));
}

abbrev invitation : Invitation
invitation = record {
  id = "i1";
  token_hash = "t";
  workspace_id = "acme";
  project_id = none;
  email = "ada@acme.org";
  workspace_role = member;
  project_role = ProjectRole.member;
  status = pending;
  expires_at = 90000;
}

-- Ada is the owner of the workspace already.
abbrev directory : Directory
directory = record {
  users = ada ∷ [];
  members =
      record { workspace_id = "acme"; user_id = "ada"; role = owner; deactivated_at = none } ∷ [];
  project_members = [];
  sessions = [];
  invitations = invitation ∷ [];
  audits = [];
}

abbrev body : Json
body = obj (field "password" (str "correct horse") end)

abbrev fresh : Fresh
fresh = record { user_id = "u2"; session_id = "s1"; salt = 3 ∷ [] }

abbrev after : Directory
after = record {
  users = ada ∷ [];
  members =
      record { workspace_id = "acme"; user_id = "ada"; role = member; deactivated_at = none } ∷ [];
  project_members = [];
  sessions = session ∷ [];
  invitations = record invitation { status = accepted } ∷ [];
  audits =
      record {
        workspace_id = "acme";
        actor_id = "ada";
        action = "invitation.accepted";
        target_type = "invitation";
        target_id = "i1";
        metadata = obj (field "projectId" null end);
      }
      ∷ [];
}

posted :
    post_invitation digest hashing coding env 600 5000 fresh "t" body directory directory
    ≡ (after, ok (ada, cookie))
unfolding post_invitation create_session secret verify_password hash_password split_units same_units
posted = refl

-- The owner's role is the invitation's from then on.
get_auth_context-post_invitation_example :
    get_auth_context coding env 9000 (some cookie.value) after
    ≡ ok (some (record { role = member; user_id = "ada"; workspace_id = "acme" }))
get_auth_context-post_invitation_example =
    get_auth_context-post_invitation digest hashing coding env 600 5000 9000 fresh "t" body
      directory directory after ada cookie invitation coding-CodingLaws refl (omega arith) refl
      posted

-- The second of two requests that have read the same rows.
post_invitation_once_example :
    (fault : InvitationError) × (post_invitation digest hashing coding env 600 5001 fresh "t" body
        directory after
      ≡ (after, err fault))
post_invitation_once_example =
    post_invitation_once digest hashing coding env 600 5000 5001 fresh fresh "t" "t" body body
      directory directory directory after after ada cookie invitation invitation (omega arith)
      posted refl refl refl refl
