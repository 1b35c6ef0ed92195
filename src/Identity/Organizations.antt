-- ===== src/Identity/Organizations.antt =====
-- src/lib/enterprise-organization.ts: the organization of a workspace, its domains, and what it
-- allows. The texts of the DNS records and the digest are given.
pub mod Domains
mod Tests
use planeo.Prelude.{
  ℕ, ◌*◌, String, Bool, true, false, not, ◌&&◌, ◌||◌, Option, none, some, List, [], ◌∷◌, map,
  length, filter, any, find, ◌===◌, ◌==◌, leb, ltb, is_absent, maybe, if◌then◌else◌, ◌≡◌, trim,
}

pub data OrganizationRole : Type 0 where
  owner admin member : OrganizationRole

pub record OrganizationMember : Type 0 where
  pub user_id : String
  pub role : OrganizationRole
  pub break_glass : Bool
  pub recovery_confirmed_at : Option ℕ
  pub deactivated_at : Option ℕ

pub record Organization : Type 0 where
  pub id : String
  pub enforce_sso : Bool
  pub allow_local_login : Bool
  pub session_lifetime_minutes : ℕ
  pub members : List OrganizationMember

abbrev find_member : String → Organization → Option OrganizationMember
find_member user_id o = find (λ m. m.user_id === user_id) o.members

abbrev manages : OrganizationRole → Bool
manages owner = true
manages admin = true
manages member = false

abbrev active_admin : OrganizationMember → Option OrganizationMember
active_admin m = if is_absent m.deactivated_at && manages m.role then some m else none

-- `organizationAdmin`, for the organization of the workspace, if it has one.
pub organization_admin : Option Organization → String → Option (String × OrganizationMember)
organization_admin none user_id = none
organization_admin (some o) user_id =
    maybe (maybe (find_member user_id o) none active_admin) none (λ m. some (o.id, m))

abbrev pub may_break_glass : OrganizationMember → Bool
may_break_glass m =
    m.break_glass && not (is_absent m.recovery_confirmed_at) && is_absent m.deactivated_at

-- `canUseLocalLogin`
abbrev pub can_use_local_login : Option Organization → String → Bool
can_use_local_login none user_id = true
can_use_local_login (some o) user_id =
    if not o.enforce_sso || o.allow_local_login
    then true
    else maybe (find_member user_id o) false may_break_glass

-- `effectiveSessionLifetimeSeconds`
abbrev pub effective_session_lifetime_seconds : Option Organization → ℕ
effective_session_lifetime_seconds o = maybe o 10080 (λ x. x.session_lifetime_minutes) * 60

pub data DomainStatus : Type 0 where
  pending verified revoked : DomainStatus

pub record Domain : Type 0 where
  pub id : String
  pub domain : String
  pub challenge_hash : String
  pub challenge_expires_at : ℕ
  pub status : DomainStatus
  pub verified_at : Option ℕ
  pub verified_challenge_hash : Option String

abbrev pub is_pending : DomainStatus → Bool
is_pending pending = true
is_pending _ = false

-- The rows of the update.
abbrev pub claimed : ℕ → Domain → Domain → Bool
claimed now d row =
    row.id === d.id
    && is_pending row.status
    && (row.challenge_hash === d.challenge_hash)
    && ltb now row.challenge_expires_at

abbrev pub verify_row : ℕ → Domain → Domain → Domain
verify_row now d row =
    if claimed now d row
    then record row {
      status = verified;
      verified_at = some now;
      verified_challenge_hash = some d.challenge_hash;
    }
    else row

-- `verifyDomainChallenge`: the domain was read before, `records` are the texts that the lookup
-- found, and none where it failed.
unfoldable pub verify_domain_challenge :
    (String → String) → ℕ → List String → Domain → List Domain → List Domain × Bool
verify_domain_challenge digest now records d domains =
    if not (is_pending d.status) || leb d.challenge_expires_at now
    then (domains, false)
    else if any (λ value. digest (trim value) === d.challenge_hash) records
    then (map (verify_row now d) domains, length (filter (claimed now d) domains) == 1)
    else (domains, false)
