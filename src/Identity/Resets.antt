-- ===== src/Identity/Resets.antt =====
-- POST of src/app/api/auth/password-reset/confirm/route.ts: a password is replaced.
pub mod Spent
mod Tests
use planeo.Prelude.{
  ℕ, String, Bool, true, false, not, ◌&&◌, ◌||◌, Option, none, some, List, [], ◌∷◌, map, length,
  filter, find, any, ◌===◌, ◌==◌, leb, ltb, is_absent, maybe, if◌then◌else◌, Result, ok, err,
  throw_if, ◌>>=◌, ◌>>◌, ◌≡◌, codes, units,
}
use planeo.Prelude.Json.{Json, end, obj}
use planeo.Identity.{User, Member, Directory}
use planeo.Identity.Passwords.{Hashing, hash_password}
use planeo.Identity.Sessions.{revoke_all_sessions}
use planeo.Identity.Invitations.{text_field}

pub record PasswordResetToken : Type 0 where
  pub id : String
  pub user_id : String
  pub token_hash : String
  pub expires_at : ℕ
  pub used_at : Option ℕ

pub record Store : Type 0 where
  pub directory : Directory
  pub tokens : List PasswordResetToken

pub data ResetError : Type 0 where
  invalid_input invalid_token already_used : ResetError

-- The status of the response.
abbrev pub status : ResetError → ℕ
status invalid_input = 400
status invalid_token = 400
status already_used = 409

-- A character class of one range.
abbrev has_between : ℕ → ℕ → String → Bool
has_between low high text = any (λ c. leb low c && leb c high) (codes text)

abbrev pub is_acceptable : String → String → Bool
is_acceptable token password = not (
    token === ""
    || ltb (units password) 12
    || not (has_between b'a' b'z' password)
    || not (has_between b'A' b'Z' password)
    || not (has_between b'0' b'9' password))

abbrev pub has_digest : String → PasswordResetToken → Bool
has_digest token_hash t = t.token_hash === token_hash

-- `usedAt: null, expiresAt: { gt: now }`
abbrev pub is_usable : ℕ → PasswordResetToken → Bool
is_usable now t = is_absent t.used_at && ltb now t.expires_at

abbrev usable_token : ℕ → PasswordResetToken → Result ResetError PasswordResetToken
usable_token now t = if is_usable now t then ok t else err invalid_token

-- The first update of the transaction takes the token, and the second what is left of the user's.
abbrev pub is_claim_of : PasswordResetToken → ℕ → PasswordResetToken → Bool
is_claim_of r now t = t.id === r.id && is_usable now t

abbrev pub is_other : PasswordResetToken → PasswordResetToken → Bool
is_other r t = t.user_id === r.user_id && not (t.id === r.id) && is_absent t.used_at

abbrev pub use_if : (PasswordResetToken → Bool) → ℕ → PasswordResetToken → PasswordResetToken
use_if p now t = if p t then record t { used_at = some now } else t

abbrev pub spend : PasswordResetToken → ℕ → PasswordResetToken → PasswordResetToken
spend r now t = use_if (is_other r) now (use_if (is_claim_of r now) now t)

abbrev pub set_password : String → List ℕ → User → User
set_password user_id password_hash u =
    if u.id === user_id then record u { password_hash = some password_hash } else u

-- The audit entry is that of the first membership that was read.
abbrev pub audit_reset : String → Option Member → Directory → Directory
audit_reset user_id none directory = directory
audit_reset user_id (some m) directory = record directory {
  audits =
      record {
        workspace_id = m.workspace_id;
        actor_id = user_id;
        action = "identity.password_reset";
        target_type = "user";
        target_id = user_id;
        metadata = obj end;
      }
      ∷ directory.audits;
}

abbrev pub first_membership : String → Directory → Option Member
first_membership user_id directory = find (λ m. m.user_id === user_id) directory.members

module _ (digest : String → String) (hashing : Hashing) where
  -- The handler up to the transaction; `seen` is what it reads.
  abbrev pub read_token : ℕ → Json → Store → Result ResetError PasswordResetToken
  read_token now body seen =
      throw_if (not (is_acceptable (text_field "token" body) (text_field "password" body)))
        invalid_input
      >> maybe (find (has_digest (digest (text_field "token" body))) seen.tokens)
          (err invalid_token) (usable_token now)

  -- The transaction, which changes nothing where the token is not claimed.
  abbrev pub reset :
      ℕ → List ℕ → String → Store → PasswordResetToken → Store → Result ResetError Store
  reset now salt password seen r store =
      if length (filter (is_claim_of r now) store.tokens) == 1
      then ok (record {
        tokens = map (spend r now) store.tokens;
        directory =
            audit_reset r.user_id (first_membership r.user_id seen.directory)
              (record store.directory {
                users =
                    map (set_password r.user_id (hash_password hashing salt (codes password)))
                      store.directory.users;
              });
      })
      else err already_used

  -- `POST`: the sessions end after the transaction, at `ended`.
  unfoldable pub confirm : ℕ → ℕ → List ℕ → Json → Store → Store → Result ResetError Store
  confirm now ended salt body seen store = read_token now body seen >>= λ r.
      reset now salt (text_field "password" body) seen r store >>= λ made.
      ok (record made { directory = revoke_all_sessions ended r.user_id made.directory })
