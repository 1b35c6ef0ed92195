-- ===== src/Identity/Scim/Tests.antt =====
-- Runs of src/lib/scim.ts.
use planeo.Prelude.{
  true, false, none, some, [], ◌∷◌, ok, err, codes, ◌≡◌, refl, trim, is_space, same_units,
}
use planeo.Permissions.{WorkspaceRole}
use planeo.Identity.{Member, Session, Directory}
use planeo.Identity.Scim.{ScimStore, invalid_filter, parse_scim_filter, set_scim_active}

filter_parsed :
    parse_scim_filter (some "userName EQ \"ada\"") (codes "userName" ∷ [])
    ≡ ok (some (codes "userName", codes "ada"))
unfolding parse_scim_filter trim is_space same_units
filter_parsed = refl

filter_refused : parse_scim_filter (some "id eq \"\"") (codes "id" ∷ []) ≡ err invalid_filter
unfolding parse_scim_filter trim is_space same_units
filter_refused = refl

abbrev session : Session
session = record {
  id = "s";
  user_id = "ada";
  workspace_id = "acme";
  expires_at = 900;
  revoked_at = none;
}

abbrev ada : Member
ada = record {
  workspace_id = "acme";
  user_id = "ada";
  role = WorkspaceRole.member;
  deactivated_at = none;
}

abbrev directory : Directory
directory = record {
  users = [];
  members = ada ∷ [];
  project_members = [];
  sessions = session ∷ [];
  invitations = [];
  audits = [];
}

abbrev store : ScimStore
store = record {
  identities =
      record { id = "i"; organization_id = "o"; user_id = "ada"; active = true; version = 1 } ∷ [];
  seats = [];
  workspaces = ("acme", "o") ∷ [];
  directory = directory;
}

deactivated :
    set_scim_active 500 false "o" "i" store
    ≡ some (record store {
      identities =
          record { id = "i"; organization_id = "o"; user_id = "ada"; active = false; version = 2 }
          ∷ [];
      directory = record directory {
        members = record ada { deactivated_at = some 500 } ∷ [];
        sessions = record session { revoked_at = some 500 } ∷ [];
      };
    })
unfolding set_scim_active
deactivated = refl
