-- ===== src/Identity/ProjectMembers/Tests.antt =====
-- Runs of src/app/api/projects/[key]/members/route.ts.
use planeo.Prelude.{String, true, false, none, some, [], ◌∷◌, ok, err, ◌≡◌, refl, trim, is_space}
use planeo.Prelude.Json.{str, obj, field, end}
use planeo.Permissions.{WorkspaceRole, ProjectRole, PolicyContext}
use planeo.Identity.{User, Member, ProjectMember, Directory}
use planeo.Queues.{Project}
use planeo.Identity.ProjectMembers.{
  Draws, bad_email, own_administration, no_project_admin, post_project_member, patch_project_member,
  get_project_members,
}

abbrev draws : Draws
draws = record { token_hash = "h"; invitation_id = "i"; to_upper = λ s. s; to_lower = λ s. s }

abbrev pub web : Project
web = record {
  id = "p";
  key = "WEB";
  workspace_id = "acme";
  archived = false;
  public_to_all = true;
  service = false;
  members = [];
}

abbrev pub ada : PolicyContext
ada = record { role = WorkspaceRole.member; user_id = "ada"; workspace_id = "acme" }

abbrev user : String → String → User
user id email = record { id = id; email = email; name = id; password_hash = none }

abbrev workspace_member : String → Member
workspace_member id = record {
  workspace_id = "acme";
  user_id = id;
  role = WorkspaceRole.member;
  deactivated_at = none;
}

abbrev project_admin : ProjectMember
project_admin = record {
  workspace_id = "acme";
  project_id = "p";
  user_id = "ada";
  role = ProjectRole.admin;
}

abbrev pub directory : Directory
directory = record {
  users = user "ada" "ada@acme.org" ∷ user "bob" "bob@acme.org" ∷ [];
  members = workspace_member "ada" ∷ workspace_member "bob" ∷ [];
  project_members = project_admin ∷ [];
  sessions = [];
  invitations = [];
  audits = [];
}

listed :
    get_project_members (some ada) draws 5 (web ∷ []) "WEB" directory
    ≡ ok (record {
      members = (user "ada" "ada@acme.org", ProjectRole.admin) ∷ [];
      pending_invitations = [];
      available_members = user "bob" "bob@acme.org" ∷ [];
    })
unfolding get_project_members
listed = refl

posted_bad_email :
    post_project_member
      (some ada)
      draws
      5
      (web ∷ [])
      "WEB"
      (obj (field "email" (str "bob@acme") end))
      directory
    ≡ err bad_email
unfolding post_project_member trim is_space
posted_bad_email = refl

posted_no_admin :
    post_project_member
      (some (record ada { user_id = "bob" }))
      draws
      5
      (web ∷ [])
      "WEB"
      (obj (field "email" (str "bob@acme.org") end))
      directory
    ≡ err no_project_admin
unfolding post_project_member
posted_no_admin = refl

patched_own :
    patch_project_member
      (some ada)
      draws
      (web ∷ [])
      "WEB"
      (obj (field "userId" (str "ada") (field "role" (str "VIEWER") end)))
      directory
    ≡ err own_administration
unfolding patch_project_member
patched_own = refl
