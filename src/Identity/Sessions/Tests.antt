-- ===== src/Identity/Sessions/Tests.antt =====
-- Runs of src/lib/auth.ts.
use planeo.Prelude.{
  ◌+◌, String, true, none, some, [], ◌∷◌, ◌≡◌, refl, length, ok, if◌then◌else◌, same_units, codes,
  arith,
}
use planeo.Permissions.{admin, PolicyContext}
use planeo.Identity.{Session, Member, Directory}
use planeo.Identity.Passwords.{split_units}
use planeo.Identity.Sessions.{
  SessionClaims, Environment, Coding, CodingLaws, Cookie, secret, new_session, claims_of,
  create_session, read_claims, context_for, get_auth_context, clear_session, revoke_all_sessions,
}
use planeo.Identity.Sessions.Lockout.{Admitted, get_auth_context_sound}

abbrev pub session : Session
session = new_session "s1" "ada" "acme" 605000

abbrev pub claims : SessionClaims
claims = claims_of session

-- A coding of the claims of one session.
abbrev pub coding : Coding
coding = record {
  hmac = λ key value. (length key + length value + 65) ∷ [];
  encode = λ c. codes "s1ada";
  decode = λ text. if same_units text (codes "s1ada") then some claims else none;
}

pub coding-CodingLaws : CodingLaws coding claims
unfolding same_units
coding-CodingLaws = record {
  decode-encode = refl;
  encode-free = refl;
  encode-filled = refl;
  hmac-free = λ key value. ground arith;
  hmac-filled = λ key value. refl;
}

abbrev pub env : Environment
env = record {
  session_secret = some (codes "0123456789abcdef0123456789abcdef");
  node_env = some "production";
  session_cookie_secure = none;
}

abbrev ada : Member
ada = record { workspace_id = "acme"; user_id = "ada"; role = admin; deactivated_at = none }

abbrev pub directory : Directory
directory = record {
  users = [];
  members = ada ∷ [];
  project_members = [];
  sessions = [];
  invitations = [];
  audits = [];
}

abbrev pub signed_in : Directory
signed_in = record directory { sessions = session ∷ [] }

abbrev pub cookie : Cookie
cookie = record { value = codes "s1ada.f"; secure = true; max_age = 600 }

abbrev pub ada_context : PolicyContext
ada_context = record { role = admin; user_id = "ada"; workspace_id = "acme" }

created : create_session coding env "s1" 5000 600 "ada" "acme" directory ≡ ok (signed_in, cookie)
unfolding create_session secret same_units
created = refl

admitted : get_auth_context coding env 9000 (some cookie.value) signed_in ≡ ok (some ada_context)
unfolding get_auth_context read_claims split_units secret context_for same_units
admitted = refl

-- Cleared two seconds later, and revoked with the rest.
abbrev signed_out : Directory
signed_out = record directory { sessions = record session { revoked_at = some 7000 } ∷ [] }

abbrev no_cookie : Cookie
no_cookie = record { value = []; secure = true; max_age = 0 }

cleared : clear_session coding env 7000 (some cookie.value) signed_in ≡ ok (signed_out, no_cookie)
unfolding clear_session read_claims split_units secret same_units
cleared = refl

abbrev pub bob : String
bob = "bob"

kept :
    get_auth_context coding env 9000 (some cookie.value) (revoke_all_sessions 7000 bob signed_in)
    ≡ ok (some ada_context)
unfolding get_auth_context read_claims split_units secret context_for revoke_all_sessions same_units
kept = refl

get_auth_context_sound_example : Admitted coding env 9000 cookie.value signed_in ada_context
get_auth_context_sound_example =
    get_auth_context_sound coding env 9000 cookie.value signed_in ada_context admitted
