-- ===== src/Identity/Members/Tests.antt =====
-- Runs of PATCH of src/app/api/workspace/members/[userId]/route.ts.
use planeo.Prelude.{◌≤◌, String, none, some, [], ◌∷◌, ◌≡◌, refl, ok, same_units, arith}
use planeo.Prelude.Json.{Json, str, obj, field, end}
use planeo.Permissions.{WorkspaceRole, owner, member, PolicyContext}
use planeo.Identity.{Member, AuditEvent, Directory}
use planeo.Identity.Sessions.{get_auth_context, read_claims, context_for, secret}
use planeo.Identity.Sessions.Tests.{coding, env, session, cookie}
use planeo.Identity.Passwords.{split_units}
use planeo.Identity.Members.{updated, removed, active_owners, patch_member}
use planeo.Identity.Members.Counts.{Keyed}
use planeo.Identity.Members.Owners.{active_owners-patch_member}

abbrev person : String → WorkspaceRole → Member
person user_id role = record {
  workspace_id = "acme";
  user_id = user_id;
  role = role;
  deactivated_at = none;
}

abbrev directory : Directory
directory = record {
  users = [];
  members =
      person "ada" owner
      ∷ person "bob" owner
      ∷ person "cy" member
      ∷ person "dee" WorkspaceRole.admin
      ∷ [];
  project_members = [];
  sessions = [];
  invitations = [];
  audits = [];
}

directory-Keyed : Keyed directory.members
directory-Keyed = (refl, (refl, (refl, (refl, tt))))

abbrev ada : PolicyContext
ada = record { role = owner; user_id = "ada"; workspace_id = "acme" }

abbrev dee : PolicyContext
dee = record { role = WorkspaceRole.admin; user_id = "dee"; workspace_id = "acme" }

abbrev demotion : Json
demotion = obj (field "role" (str "MEMBER") end)

abbrev removal : Json
removal = obj (field "action" (str "remove") end)

abbrev event : String → String → String → Json → AuditEvent
event actor_id action target_id metadata = record {
  workspace_id = "acme";
  actor_id = actor_id;
  action = action;
  target_type = "user";
  target_id = target_id;
  metadata = metadata;
}

-- The owner Ada demotes the owner Bob.
abbrev demoted : Directory
demoted = record directory {
  members =
      person "ada" owner
      ∷ person "bob" member
      ∷ person "cy" member
      ∷ person "dee" WorkspaceRole.admin
      ∷ [];
  audits = event "ada" "workspace.member_role_changed" "bob" demotion ∷ [];
}

demotion_made : patch_member (some ada) 7000 "bob" demotion directory ≡ ok (demoted, updated)
unfolding patch_member
demotion_made = refl

active_owners-patch_member_example : 1 ≤ active_owners "acme" demoted.members
active_owners-patch_member_example =
    active_owners-patch_member ada 7000 "bob" demotion directory demoted updated directory-Keyed
      (omega arith) demotion_made

-- The administrator Dee removes Cy.
abbrev without_cy : Directory
without_cy = record directory {
  members = person "ada" owner ∷ person "bob" owner ∷ person "dee" WorkspaceRole.admin ∷ [];
  audits = event "dee" "workspace.member_removed" "cy" (obj end) ∷ [];
}

removal_made : patch_member (some dee) 7000 "cy" removal directory ≡ ok (without_cy, removed)
unfolding patch_member
removal_made = refl

-- Ada is signed in when she removes Cy, and stays so.
abbrev signed_in : Directory
signed_in = record directory { sessions = session ∷ [] }

abbrev signed_in_alone : Directory
signed_in_alone = record signed_in {
  members = person "ada" owner ∷ person "bob" owner ∷ person "dee" WorkspaceRole.admin ∷ [];
  audits = event "ada" "workspace.member_removed" "cy" (obj end) ∷ [];
}

abbrev cy : String
cy = "cy"

removed_beside : patch_member (some ada) 7000 cy removal signed_in ≡ ok (signed_in_alone, removed)
unfolding patch_member
removed_beside = refl

stays : get_auth_context coding env 9000 (some cookie.value) signed_in_alone ≡ ok (some ada)
unfolding get_auth_context read_claims split_units secret context_for same_units
stays = refl
