-- ===== src/Identity/Login.antt =====
-- POST of src/app/api/auth/login/route.ts.
pub mod Entry
mod Tests
use planeo.Prelude.{
  ℕ, String, Bool, true, false, not, ◌&&◌, ◌||◌, Option, none, some, List, [], ◌∷◌, find, ◌===◌,
  maybe, if◌then◌else◌, Result, ok, err, throw_if, ◌>>=◌, ◌>>◌, ◌≡◌, codes, trim,
}
use planeo.Prelude.Json.{Json, str, obj, field, end, field_of, as_string}
use planeo.Identity.{User, Member, AuditEvent, Directory}
use planeo.Identity.Passwords.{Hashing, verify_password, is_blank}
use planeo.Identity.Sessions.{Coding, Environment, AuthError, Cookie, create_session}
use planeo.Identity.Organizations.{
  Organization, can_use_local_login, effective_session_lifetime_seconds,
}

pub data LoginError : Type 0 where
  missing_credentials wrong_credentials sso_required : LoginError
  sign_in_failed : AuthError → LoginError

-- `toLowerCase`, `endsWith` of the demonstration's domain, and the organization of a workspace.
pub record Site : Type 0 where
  pub to_lower : String → String
  pub is_demo_email : String → Bool
  pub in_production : Bool
  pub organization_of : String → Option Organization

abbrev owns_email : String → User → Bool
owns_email email u = u.email === email

-- A user's memberships, in the order of `joinedAt`, which is that of the list.
abbrev pub is_membership_of : String → Member → Bool
is_membership_of user_id m = m.user_id === user_id

module _ (site : Site) (hashing : Hashing) (coding : Coding) (env : Environment)
    (session_id : String) (now : ℕ) where
  abbrev pub right_password : User → String → Bool
  right_password u password =
      maybe u.password_hash false
        (λ hash. not (is_blank hash) && verify_password hashing (codes password) hash)

  abbrev pub authenticate : String → String → Directory → Result LoginError (User × Member)
  authenticate email password directory =
      maybe (find (owns_email email) directory.users) (err wrong_credentials) (λ u.
        throw_if (not (right_password u password)) wrong_credentials
        >> maybe (find (is_membership_of u.id) directory.members) (err wrong_credentials)
            (λ m. ok (u, m)))

  abbrev pub audited : String → Json → User → Member → Directory → Directory
  audited action metadata u m directory = record directory {
    audits =
        record {
          workspace_id = m.workspace_id;
          actor_id = u.id;
          action = action;
          target_type = "user";
          target_id = u.id;
          metadata = metadata;
        }
        ∷ directory.audits;
  }

  -- `createSession` and the audit after it.
  abbrev pub enter : User → Member → Directory → Directory × Result LoginError (User × Cookie)
  enter u m directory =
      elim (create_session coding env session_id now
        (effective_session_lifetime_seconds (site.organization_of m.workspace_id)) u.id
        m.workspace_id directory) [
          | err fault ↦ (directory, err (sign_in_failed fault))
          | ok (created, cookie) ↦ (audited "identity.login" (obj end) u m created, ok (u, cookie))
        ]

  abbrev pub admit_user : User → Member → Directory → Directory × Result LoginError (User × Cookie)
  admit_user u m directory =
      if can_use_local_login (site.organization_of m.workspace_id) u.id
      then enter u m directory
      else (
        audited "identity.local_login.blocked" (obj (field "reason" (str "sso_enforced") end)) u m
            directory,
        err sso_required,
      )

  abbrev pub log_in_as : String → String → Directory → Directory × Result LoginError (User × Cookie)
  log_in_as email password directory =
      if site.in_production && site.is_demo_email email && (password === "planeo-demo")
      then (directory, err wrong_credentials)
      else elim (authenticate email password directory) [
        | err fault ↦ (directory, err fault)
        | ok (u, m) ↦ admit_user u m directory
      ]

  -- `POST`
  unfoldable pub log_in : Json → Directory → Directory × Result LoginError (User × Cookie)
  log_in body directory =
      maybe (as_string (field_of "email" body)) (directory, err missing_credentials)
        (λ email.
          maybe (as_string (field_of "password" body)) (directory, err missing_credentials)
            (λ password. log_in_as (site.to_lower (trim email)) password directory))
