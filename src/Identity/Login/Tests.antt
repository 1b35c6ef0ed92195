-- ===== src/Identity/Login/Tests.antt =====
-- Runs of POST of src/app/api/auth/login/route.ts.
use planeo.Prelude.{
  true, false, none, some, [], ◌∷◌, ◌===◌, ◌≡◌, refl, ok, codes, same_units, trim, arith,
}
use planeo.Prelude.Json.{Json, str, obj, field, end}
use planeo.Permissions.{owner, member}
use planeo.Identity.{User, Member, Directory}
use planeo.Identity.Passwords.{split_units, hash_password, verify_password}
use planeo.Identity.Passwords.Tests.{hashing}
use planeo.Identity.Sessions.{create_session, secret, get_auth_context}
use planeo.Identity.Sessions.Tests.{coding, coding-CodingLaws, env, session, cookie}
use planeo.Identity.Organizations.{Organization}
use planeo.Identity.Login.{Site, audited, log_in}
use planeo.Identity.Login.Entry.{Entered, log_in-Entered, get_auth_context-log_in}

abbrev ten_minutes : Organization
ten_minutes = record {
  id = "o";
  enforce_sso = false;
  allow_local_login = true;
  session_lifetime_minutes = 10;
  members = [];
}

abbrev site : Site
site = record {
  to_lower = λ s. s;
  is_demo_email = λ s. s === "demo@planeo.co";
  in_production = true;
  organization_of = λ id. some ten_minutes;
}

abbrev ada : User
ada = record {
  id = "ada";
  email = "ada@acme.org";
  name = "Ada";
  password_hash = some (hash_password hashing (7 ∷ 9 ∷ []) (codes "correct horse"));
}

-- Ada's first membership is deactivated, and her second is not.
abbrev first : Member
first = record { workspace_id = "acme"; user_id = "ada"; role = owner; deactivated_at = some 4000 }

abbrev second : Member
second = record { workspace_id = "globex"; user_id = "ada"; role = member; deactivated_at = none }

abbrev directory : Directory
directory = record {
  users = ada ∷ [];
  members = first ∷ second ∷ [];
  project_members = [];
  sessions = [];
  invitations = [];
  audits = [];
}

abbrev body : Json
body = obj (field "email" (str "ada@acme.org") (field "password" (str "correct horse") end))

abbrev after : Directory
after =
    audited site hashing coding env "s1" 5000 "identity.login" (obj end) ada first
      (record directory { sessions = session ∷ [] })

entered : log_in site hashing coding env "s1" 5000 body directory ≡ (after, ok (ada, cookie))
unfolding log_in create_session secret verify_password hash_password split_units same_units trim
entered = refl

log_in-Entered_example : Entered site hashing coding env "s1" 5000 body directory after ada cookie
log_in-Entered_example =
    log_in-Entered site hashing coding env "s1" 5000 body directory after ada cookie entered

get_auth_context-log_in_example :
    get_auth_context coding env 9000 (some cookie.value) after ≡ ok none
get_auth_context-log_in_example =
    get_auth_context-log_in site hashing coding env "s1" 5000 9000 body directory after ada cookie
      first entered refl refl coding-CodingLaws refl (omega arith)
