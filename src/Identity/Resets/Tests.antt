-- ===== src/Identity/Resets/Tests.antt =====
-- Runs of POST of src/app/api/auth/password-reset/confirm/route.ts.
use planeo.Prelude.{
  String, false, none, some, inl, inr, [], ◌∷◌, ◌≡◌, ◌≢◌, refl, ok, err, codes, arith,
}
use planeo.Prelude.Json.{Json, str, obj, field, end}
use planeo.Permissions.{member}
use planeo.Identity.{User, Session}
use planeo.Identity.Passwords.{hash_password}
use planeo.Identity.Passwords.Tests.{hashing}
use planeo.Identity.Sessions.{revoke_all_sessions}
use planeo.Identity.Resets.{
  PasswordResetToken, Store, is_usable, confirm, invalid_input, already_used,
}
use planeo.Identity.Resets.Spent.{confirm_ends}

abbrev digest : String → String
digest token = token

abbrev ada : User
ada = record { id = "ada"; email = "ada@acme.org"; name = "Ada"; password_hash = none }

abbrev token : PasswordResetToken
token = record { id = "r1"; user_id = "ada"; token_hash = "t"; expires_at = 90; used_at = none }

-- Another token of the user, and a session.
abbrev spare : PasswordResetToken
spare = record { id = "r2"; user_id = "ada"; token_hash = "u"; expires_at = 95; used_at = none }

abbrev session : Session
session = record {
  id = "s1";
  user_id = "ada";
  workspace_id = "acme";
  expires_at = 500;
  revoked_at = none;
}

abbrev store : Store
store = record {
  directory = record {
    users = ada ∷ [];
    members =
        record { workspace_id = "acme"; user_id = "ada"; role = member; deactivated_at = none }
        ∷ [];
    project_members = [];
    sessions = session ∷ [];
    invitations = [];
    audits = [];
  };
  tokens = token ∷ spare ∷ [];
}

abbrev body : String → Json
body password = obj (field "token" (str "t") (field "password" (str password) end))

abbrev after : Store
after = record {
  directory = record store.directory {
    users =
        record ada {
          password_hash = some (hash_password hashing (3 ∷ []) (codes "Correct horse 1"));
        }
        ∷ [];
    sessions = record session { revoked_at = some 21 } ∷ [];
    audits =
        record {
          workspace_id = "acme";
          actor_id = "ada";
          action = "identity.password_reset";
          target_type = "user";
          target_id = "ada";
          metadata = obj end;
        }
        ∷ [];
  };
  tokens = record token { used_at = some 20 } ∷ record spare { used_at = some 20 } ∷ [];
}

confirmed : confirm digest hashing 20 21 (3 ∷ []) (body "Correct horse 1") store store ≡ ok after
unfolding confirm revoke_all_sessions
confirmed = refl

no_digit :
    confirm digest hashing 20 21 (3 ∷ []) (body "Correct horse") store store ≡ err invalid_input
unfolding confirm revoke_all_sessions
no_digit = refl

-- The second of two requests that have read the token at once.
taken_already :
    confirm digest hashing 30 31 (3 ∷ []) (body "Correct horse 1") store after ≡ err already_used
unfolding confirm revoke_all_sessions
taken_already = refl

confirm_ends_example :
    (is_usable 25 (record spare { used_at = some 20 }) ≡ false)
    × ((record session { revoked_at = some 21 }).revoked_at ≢ none)
confirm_ends_example =
    confirm_ends digest hashing 20 21 25 (3 ∷ []) (body "Correct horse 1") store store after token
      (record spare { used_at = some 20 }) (record session { revoked_at = some 21 }) confirmed refl
      (omega arith) (inr (inl refl)) refl (inl refl) refl
