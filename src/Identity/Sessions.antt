-- ===== src/Identity/Sessions.antt =====
-- createSession, clearSession, getAuthContext and revokeAllSessions of src/lib/auth.ts. The HMAC and
-- the coding of the claims are Node's, with what is relied on in `CodingLaws`.
pub mod Lockout
pub mod Tests
use planeo.Prelude.{
  ℕ, ◌+◌, ◌*◌, ◌<◌, ◌≤◌, String, Bool, true, false, not, ◌&&◌, ◌||◌, Option, none, some, inl, inr,
  List, [], ◌∷◌, ◌++◌, ◌≡◌, refl, length, find, In, Result, ok, err, ◌>>=◌, if◌then◌else◌, ◌===◌,
  ===_iff, leb, ltb, same_units, same_units_iff, codes, maybe, is_absent, arith, find_sound,
  Bool-cases, Option-cases,
}
use planeo.Permissions.{WorkspaceRole, PolicyContext}
use planeo.Identity.{Session, Member, Directory, is_member_of, is_open_of, revoke_sessions}
use planeo.Identity.Passwords.{split_units, split_units-append, split_units-free, free_of, is_blank}

pub record SessionClaims : Type 0 where
  pub session_id : String
  pub user_id : String
  pub workspace_id : String
  pub expires_at : ℕ

-- The variables of the environment that are read.
pub record Environment : Type 0 where
  pub session_secret : Option (List ℕ)
  pub node_env : Option String
  pub session_cookie_secure : Option String

pub record Coding : Type 0 where
  pub hmac : List ℕ → List ℕ → List ℕ
  pub encode : SessionClaims → List ℕ
  pub decode : List ℕ → Option SessionClaims

-- What is documented of them, the reading back for the claims of one session.
pub record CodingLaws (coding : Coding) (claims : SessionClaims) : Type 0 where
  pub decode-encode : coding.decode (coding.encode claims) ≡ some claims
  pub encode-free : free_of b'.' (coding.encode claims) ≡ true
  pub encode-filled : is_blank (coding.encode claims) ≡ false
  pub hmac-free : (key value : List ℕ) → free_of b'.' (coding.hmac key value) ≡ true
  pub hmac-filled : (key value : List ℕ) → is_blank (coding.hmac key value) ≡ false

abbrev is_text : Option String → String → Bool
is_text none value = false
is_text (some s) value = s === value

-- `secureSessionCookie`
abbrev pub secure_session_cookie : Environment → Bool
secure_session_cookie env =
    is_text env.session_cookie_secure "true"
    || not (is_text env.session_cookie_secure "false") && is_text env.node_env "production"

pub data AuthError : Type 0 where
  secret_too_short development_secret : AuthError

-- `secret`
unfoldable pub secret : Environment → Result AuthError (List ℕ)
secret env = elim env.session_secret [
  | none ↦ err secret_too_short
  | some value ↦
      if ltb (length value) 32
      then err secret_too_short
      else if is_text env.node_env "production"
          && same_units value (codes "docker-development-secret-change-before-production")
      then err development_secret
      else ok value
]

-- The cookie that a response sets.
pub record Cookie : Type 0 where
  pub value : List ℕ
  pub secure : Bool
  pub max_age : ℕ

abbrev pub new_session : String → String → String → ℕ → Session
new_session id user_id workspace_id expires_at = record {
  id = id;
  user_id = user_id;
  workspace_id = workspace_id;
  expires_at = expires_at;
  revoked_at = none;
}

abbrev pub claims_of : Session → SessionClaims
claims_of s = record {
  session_id = s.id;
  user_id = s.user_id;
  workspace_id = s.workspace_id;
  expires_at = s.expires_at;
}

module _ (coding : Coding) (env : Environment) where
  -- `sign`
  abbrev sign : List ℕ → Result AuthError (List ℕ)
  sign value = secret env >>= λ key. ok (coding.hmac key value)

  -- `createSession`; `id` is the new row's, and `lifetime` the seconds that the organization sets.
  unfoldable pub create_session :
      String → ℕ → ℕ → String → String → Directory → Result AuthError (Directory × Cookie)
  create_session id now lifetime user_id workspace_id directory =
      let session = new_session id user_id workspace_id (now + lifetime * 1000) in
      let encoded = coding.encode (claims_of session) in
      sign encoded >>= λ signature. ok (
        record directory { sessions = session ∷ directory.sessions },
        record {
          value = encoded ++ b'.' ∷ signature;
          secure = secure_session_cookie env;
          max_age = lifetime;
        },
      )

  -- Claims that are complete and have not expired.
  abbrev pub is_live : ℕ → SessionClaims → Bool
  is_live now claims = not (
      claims.session_id === ""
      || claims.user_id === ""
      || claims.workspace_id === ""
      || leb claims.expires_at now)

  abbrev live : ℕ → Option SessionClaims → Option SessionClaims
  live now none = none
  live now (some claims) = if is_live now claims then some claims else none

  -- The two parts of the cookie, and none of what may follow them.
  abbrev read_parts : ℕ → List (List ℕ) → Result AuthError (Option SessionClaims)
  read_parts now (encoded ∷ signature ∷ _) =
      if is_blank encoded || is_blank signature
      then ok none
      else sign encoded >>= λ expected.
          ok (if same_units signature expected then live now (coding.decode encoded) else none)
  read_parts now _ = ok none

  -- `readClaims`
  unfoldable pub read_claims : ℕ → Option (List ℕ) → Result AuthError (Option SessionClaims)
  read_claims now none = ok none
  read_claims now (some value) = read_parts now (split_units b'.' value)

  -- The row that `findFirst` finds for the claims.
  abbrev pub backs : ℕ → SessionClaims → Session → Bool
  backs now claims s =
      s.id === claims.session_id
      && (s.user_id === claims.user_id)
      && (s.workspace_id === claims.workspace_id)
      && is_absent s.revoked_at
      && ltb now s.expires_at

  abbrev context_of : SessionClaims → Member → PolicyContext
  context_of claims m = record { role = m.role; user_id = m.user_id; workspace_id = m.workspace_id }

  abbrev pub admit : Option Member → SessionClaims → Option PolicyContext
  admit none claims = none
  admit (some m) claims = if is_absent m.deactivated_at then some (context_of claims m) else none

  unfoldable pub context_for : ℕ → Directory → SessionClaims → Option PolicyContext
  context_for now directory claims =
      maybe (find (backs now claims) directory.sessions) none (λ _.
        admit (find (is_member_of claims.workspace_id claims.user_id) directory.members) claims)

  abbrev resolve : ℕ → Directory → Option SessionClaims → Option PolicyContext
  resolve now directory none = none
  resolve now directory (some claims) = context_for now directory claims

  -- `getAuthContext`
  unfoldable pub get_auth_context :
      ℕ → Option (List ℕ) → Directory → Result AuthError (Option PolicyContext)
  get_auth_context now cookie directory =
      read_claims now cookie >>= λ claims. ok (resolve now directory claims)

  abbrev is_session_of : SessionClaims → Session → Bool
  is_session_of claims s = s.id === claims.session_id && (s.user_id === claims.user_id)

  -- `clearSession`: the row is revoked; the cookie that it sets is empty and expires at once.
  pub clear_session : ℕ → Option (List ℕ) → Directory → Result AuthError (Directory × Cookie)
  clear_session now cookie directory = read_claims now cookie >>= λ found. ok (
    elim found [
      | none ↦ directory
      | some claims ↦ record directory {
        sessions = revoke_sessions (is_session_of claims) now directory.sessions;
      }
    ],
    record { value = []; secure = secure_session_cookie env; max_age = 0 },
  )

-- `revokeAllSessions`
unfoldable pub revoke_all_sessions : ℕ → String → Directory → Directory
revoke_all_sessions now user_id directory = record directory {
  sessions = revoke_sessions (is_open_of user_id) now directory.sessions;
}
