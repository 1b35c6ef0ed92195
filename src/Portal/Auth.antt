-- ===== src/Portal/Auth.antt =====
-- src/lib/portal-auth.ts: the sessions and the single-use tokens of customers, and what a customer may
-- see. The HMAC, the digest and the coding of the claims are Node's.
pub mod Ended
mod Tests
use planeo.Prelude.{
  ℕ, ◌+◌, ◌*◌, String, Bool, true, false, not, ◌&&◌, ◌||◌, Option, none, some, List, [], ◌∷◌, ◌++◌,
  all, any, map, filter, find, length, codes, same_units, is_key_char, leb, ltb, ◌===◌, ◌==◌, maybe,
  is_absent, if◌then◌else◌, Result, ok, err, ◌>>=◌,
}
use planeo.Identity.Passwords.{split_units, is_blank}
use planeo.Identity.Sessions.{Environment, Cookie, secure_session_cookie}
use planeo.Queues.{Project}

pub record PortalClaims : Type 0 where
  pub session_id : String
  pub customer_id : String
  pub workspace_id : String
  pub expires_at : ℕ

pub record PortalCoding : Type 0 where
  pub hmac : List ℕ → List ℕ → List ℕ
  pub encode : PortalClaims → List ℕ
  pub decode : List ℕ → Option PortalClaims

pub record Customer : Type 0 where
  pub id : String
  pub workspace_id : String
  pub email : String
  pub name : String
  pub locale : String
  pub email_notifications : Bool
  pub issue_reporter_user_id : String
  pub verified_at : Option ℕ
  pub deactivated_at : Option ℕ

pub record PortalSession : Type 0 where
  pub id : String
  pub customer_id : String
  pub workspace_id : String
  pub expires_at : ℕ
  pub revoked_at : Option ℕ

-- `purpose` is the name of a PortalTokenPurpose.
pub record PortalToken : Type 0 where
  pub id : String
  pub customer_id : String
  pub purpose : String
  pub token_hash : String
  pub expires_at : ℕ
  pub used_at : Option ℕ

-- An organization of customers that is let into a project, with the workspaces of both.
pub record OrganizationAccess : Type 0 where
  pub organization_id : String
  pub organization_workspace_id : String
  pub project_id : String
  pub project_workspace_id : String
  pub enabled : Bool

pub record OrganizationCustomer : Type 0 where
  pub organization_id : String
  pub customer_id : String
  pub active : Bool

pub record ProjectCustomer : Type 0 where
  pub project_id : String
  pub customer_id : String
  pub enabled : Bool

pub record PortalStore : Type 0 where
  pub customers : List Customer
  pub sessions : List PortalSession
  pub tokens : List PortalToken
  pub accesses : List OrganizationAccess
  pub organization_customers : List OrganizationCustomer
  pub project_customers : List ProjectCustomer

pub data PortalError : Type 0 where
  short_secret : PortalError

-- `securePortalCookie`, which reads what `secureSessionCookie` of src/lib/auth.ts reads.
abbrev secure_portal_cookie : Environment → Bool
secure_portal_cookie = secure_session_cookie

-- `secret`; the development's secret is refused by src/lib/auth.ts only.
abbrev portal_secret : Environment → Result PortalError (List ℕ)
portal_secret env =
    maybe env.session_secret (err short_secret)
      (λ value. if ltb (length value) 32 then err short_secret else ok value)

abbrev session_seconds : ℕ
session_seconds = 604800

abbrev new_portal_session : String → ℕ → String → String → PortalSession
new_portal_session id now customer_id workspace_id = record {
  id = id;
  customer_id = customer_id;
  workspace_id = workspace_id;
  expires_at = now + session_seconds * 1000;
  revoked_at = none;
}

abbrev portal_claims_of : PortalSession → PortalClaims
portal_claims_of s = record {
  session_id = s.id;
  customer_id = s.customer_id;
  workspace_id = s.workspace_id;
  expires_at = s.expires_at;
}

-- Claims that are complete and have not expired.
abbrev pub is_live_claim : ℕ → PortalClaims → Bool
is_live_claim now c =
    not (c.session_id === "" || c.customer_id === "" || c.workspace_id === "")
    && ltb now c.expires_at

module _ (coding : PortalCoding) (env : Environment) where
  -- `sign`
  abbrev portal_sign : List ℕ → Result PortalError (List ℕ)
  portal_sign value = portal_secret env >>= λ key. ok (coding.hmac key (codes "portal:" ++ value))

  -- `createPortalSession`: the row stays where the signature throws.
  unfoldable pub create_portal_session :
      String → ℕ → String → String → PortalStore → PortalStore × Result PortalError Cookie
  create_portal_session id now customer_id workspace_id store =
      let session = new_portal_session id now customer_id workspace_id in
      let encoded = coding.encode (portal_claims_of session) in
      (
        record store { sessions = session ∷ store.sessions },
        portal_sign encoded >>= λ signature. ok (record {
          value = encoded ++ b'.' ∷ signature;
          secure = secure_portal_cookie env;
          max_age = session_seconds;
        }),
      )

  abbrev pub keep_live : ℕ → Option PortalClaims → Option PortalClaims
  keep_live now claims = maybe claims none (λ c. if is_live_claim now c then some c else none)

  abbrev signed_parts : List (List ℕ) → Result PortalError (Option PortalClaims)
  signed_parts (encoded ∷ signature ∷ _) =
      if is_blank encoded || is_blank signature
      then ok none
      else portal_sign encoded >>= λ expected.
          ok (if same_units signature expected then coding.decode encoded else none)
  signed_parts _ = ok none

  -- The claims of a cookie whose signature is right, and none otherwise.
  abbrev pub signed_claims : Option (List ℕ) → Result PortalError (Option PortalClaims)
  signed_claims cookie = maybe cookie (ok none) (λ value. signed_parts (split_units b'.' value))

  -- `readClaims`
  abbrev pub read_portal_claims : ℕ → Option (List ℕ) → Result PortalError (Option PortalClaims)
  read_portal_claims now cookie = signed_claims cookie >>= λ claims. ok (keep_live now claims)

  abbrev pub is_session_of_claims : PortalClaims → PortalSession → Bool
  is_session_of_claims c s = s.id === c.session_id && (s.customer_id === c.customer_id)

  abbrev pub revoke_portal : PortalClaims → ℕ → PortalSession → PortalSession
  revoke_portal c now s = if is_session_of_claims c s then record s { revoked_at = some now } else s

  abbrev pub end_portal_sessions : ℕ → Option PortalClaims → PortalStore → PortalStore
  end_portal_sessions now claims store =
      maybe claims store (λ c. record store { sessions = map (revoke_portal c now) store.sessions })

  -- `clearPortalSession`; the cookie that it sets is empty and expires at once.
  unfoldable pub clear_portal_session :
      ℕ → Option (List ℕ) → PortalStore → Result PortalError (PortalStore × Cookie)
  clear_portal_session now cookie store = read_portal_claims now cookie >>= λ claims. ok (
    end_portal_sessions now claims store,
    record { value = []; secure = secure_portal_cookie env; max_age = 0 },
  )

  abbrev pub is_open_session : ℕ → PortalClaims → PortalSession → Bool
  is_open_session now c s =
      is_session_of_claims c s && is_absent s.revoked_at && ltb now s.expires_at

  abbrev pub is_admitted : ℕ → PortalClaims → PortalStore → Customer → Bool
  is_admitted now c store x =
      x.id === c.customer_id
      && (x.workspace_id === c.workspace_id)
      && not (is_absent x.verified_at)
      && is_absent x.deactivated_at
      && any (is_open_session now c) store.sessions

  abbrev is_active_in : PortalStore → String → String → Bool
  is_active_in store customer_id organization_id =
      any
        (λ m. m.organization_id === organization_id && (m.customer_id === customer_id) && m.active)
        store.organization_customers

  abbrev opens : PortalStore → Customer → OrganizationAccess → Bool
  opens store x a =
      a.enabled
      && (a.project_workspace_id === x.workspace_id)
      && (a.organization_workspace_id === x.workspace_id)
      && is_active_in store x.id a.organization_id

  -- The customer, and the projects that organizations open.
  abbrev pub portal_context_of : PortalStore → Customer → Customer × List (String × String)
  portal_context_of store x =
      (x, map (λ a. (a.organization_id, a.project_id)) (filter (opens store x) store.accesses))

  abbrev pub admit_customer :
      ℕ → PortalStore → Option PortalClaims → Option (Customer × List (String × String))
  admit_customer now store claims = maybe claims none (λ c.
      maybe (find (is_admitted now c store) store.customers) none
        (λ x. some (portal_context_of store x)))

  -- `getPortalContext`
  unfoldable pub get_portal_context :
      ℕ
      → Option (List ℕ)
      → PortalStore
      → Result PortalError (Option (Customer × List (String × String)))
  get_portal_context now cookie store =
      read_portal_claims now cookie >>= λ claims. ok (admit_customer now store claims)

-- `issuePortalToken`: `id` and `token_hash` are the new row's.
unfoldable pub issue_portal_token :
    String → String → ℕ → String → String → ℕ → PortalStore → PortalStore
issue_portal_token id token_hash now customer_id purpose lifetime_minutes store = record store {
  tokens =
      record {
        id = id;
        customer_id = customer_id;
        purpose = purpose;
        token_hash = token_hash;
        expires_at = now + lifetime_minutes * 60000;
        used_at = none;
      }
      ∷ store.tokens;
}

-- /^[A-Za-z0-9_-]{40,60}$/
abbrev is_token_text : List ℕ → Bool
is_token_text token = all is_key_char token && leb 40 (length token) && leb (length token) 60

abbrev has_active : List Customer → String → Bool
has_active customers id = any (λ x. x.id === id && is_absent x.deactivated_at) customers

-- The row that is read.
abbrev pub is_usable_token : ℕ → String → String → List Customer → PortalToken → Bool
is_usable_token now hash purpose customers t =
    t.token_hash === hash
    && (t.purpose === purpose)
    && is_absent t.used_at
    && ltb now t.expires_at
    && has_active customers t.customer_id

abbrev pub is_unused : String → PortalToken → Bool
is_unused id t = t.id === id && is_absent t.used_at

abbrev pub spend_token : String → ℕ → PortalToken → PortalToken
spend_token id now t = if is_unused id t then record t { used_at = some now } else t

-- `consumePortalToken`: the row is read from `seen`, and the update is made in `store`.
unfoldable pub consume_portal_token :
    (List ℕ → String)
    → ℕ
    → List ℕ
    → String
    → PortalStore
    → PortalStore
    → PortalStore × Option Customer
consume_portal_token digest now token purpose seen store =
    if not (is_token_text token)
    then (store, none)
    else maybe (find (is_usable_token now (digest token) purpose seen.customers) seen.tokens)
        (store, none)
        (λ t. (
          record store { tokens = map (spend_token t.id now) store.tokens },
          if length (filter (is_unused t.id) store.tokens) == 1
              then find (λ x. x.id === t.customer_id) seen.customers
              else none,
        ))

-- A request of the portal, with what its issue shows.
pub record PortalRequest : Type 0 where
  pub workspace_id : String
  pub project : Project
  pub has_security_level : Bool
  pub issue_archived : Bool
  pub customer_reporter_id : String
  pub sharing : String
  pub participants : List String
  pub customer_organization_id : Option String

module _ (store : PortalStore) (customer : Customer)
    (organization_projects : List (String × String)) where
  abbrev belongs : String → Bool
  belongs organization_id =
      any
        (λ m. m.organization_id === organization_id && (m.customer_id === customer.id) && m.active)
        store.organization_customers

  -- `portalProjectWhere`
  unfoldable pub matches_portal_project : Project → Bool
  matches_portal_project p =
      p.workspace_id === customer.workspace_id
      && p.service
      && not p.archived
      && (any (λ c. c.project_id === p.id && (c.customer_id === customer.id) && c.enabled)
            store.project_customers
          || any (λ a. a.project_id === p.id && a.enabled && belongs a.organization_id)
              store.accesses)

  -- The branch of an organization's project.
  abbrev is_shared_with : PortalRequest → String × String → Bool
  is_shared_with r (organization_id, project_id) =
      r.sharing === "ORGANIZATION"
      && ((r.project).id === project_id)
      && maybe r.customer_organization_id false (λ id. id === organization_id)
      && belongs organization_id
      && any
          (λ a. a.organization_id === organization_id && (a.project_id === project_id) && a.enabled)
          store.accesses

  -- `portalRequestWhere`
  unfoldable pub matches_portal_request : PortalRequest → Bool
  matches_portal_request r =
      r.workspace_id === customer.workspace_id
      && matches_portal_project r.project
      && not r.has_security_level
      && not r.issue_archived
      && (r.customer_reporter_id === customer.id
          || (r.sharing === "PARTICIPANTS" || (r.sharing === "ORGANIZATION"))
            && any (λ id. id === customer.id) r.participants
          || any (is_shared_with r) organization_projects)
