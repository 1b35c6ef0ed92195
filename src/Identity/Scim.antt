-- ===== src/Identity/Scim.antt =====
-- authenticateScim, parseScimFilter, normalizeScimEmail and setScimActive of src/lib/scim.ts: a
-- directory service provisions users. The digest is given as `digest`.
mod Tests
use planeo.Prelude.{
  ℕ, ◌+◌, String, Bool, true, false, not, ◌&&◌, ◌||◌, Option, none, some, List, [], ◌∷◌, all, any,
  map, find, filter, length, includes, codes, units, is_space, is_key_char, trim, same_units, ◌===◌,
  ◌!==◌, ◌==◌, ltb, leb, maybe, is_absent, if◌then◌else◌, Result, ok, err, throw_if, ◌>>=◌, ◌>>◌,
}
use planeo.Prelude.Json.{Json, as_string}
use planeo.Identity.{Member, Session, Directory, revoke_sessions}

pub data ScimError : Type 0 where
  too_many bearer_required bearer_invalid scope_required invalid_filter : ScimError

-- The status that the handlers answer with.
abbrev pub scim_status : ScimError → ℕ
scim_status too_many = 429
scim_status bearer_required = 401
scim_status bearer_invalid = 401
scim_status scope_required = 403
scim_status invalid_filter = 400

pub record ScimToken : Type 0 where
  pub id : String
  pub prefix : List ℕ
  pub secret_hash : String
  pub organization_id : String
  pub organization_slug : String
  pub scopes : List String
  pub revoked_at : Option ℕ
  pub expires_at : Option ℕ
  pub last_used_at : Option ℕ

-- What follows a prefix.
abbrev after_prefix : List ℕ → List ℕ → Option (List ℕ)
after_prefix [] text = some text
after_prefix (a ∷ prefix) [] = none
after_prefix (a ∷ prefix) (b ∷ text) =
    let rest = after_prefix prefix text in if a == b then rest else none

-- [a-f0-9]
abbrev is_hex_digit : ℕ → Bool
is_hex_digit c = leb b'a' c && leb c b'f' || leb b'0' c && leb c b'9'

-- `([a-f0-9]{n})`, with what follows.
abbrev take_hex : ℕ → List ℕ → Option (List ℕ × List ℕ)
take_hex ℕ.zero text = some ([], text)
take_hex (ℕ.suc n) [] = none
take_hex (ℕ.suc n) (c ∷ text) =
    let rest = take_hex n text in
    if is_hex_digit c then maybe rest none (λ (hex, left). some (c ∷ hex, left)) else none

-- /^\.[A-Za-z0-9_-]{20,}$/
abbrev is_tail : List ℕ → Bool
is_tail (c ∷ rest) = c == b'.' && all is_key_char rest && leb 20 (length rest)
is_tail [] = false

-- The prefix of a secret that has the form of one.
abbrev read_prefix : List ℕ → Option (List ℕ)
read_prefix secret =
    maybe (after_prefix (codes "scim_") secret) none (λ rest.
      maybe (take_hex 12 rest) none (λ (hex, left). if is_tail left then some hex else none))

-- The token of the Authorization header, or nothing.
abbrev bearer : List ℕ → List ℕ
bearer header = maybe (after_prefix (codes "Bearer ") header) [] (λ secret. secret)

abbrev is_organization : String → ScimToken → Bool
is_organization identifier t =
    t.organization_id === identifier || (t.organization_slug === identifier)

abbrev is_valid_now : ℕ → ScimToken → Bool
is_valid_now now t = is_absent t.revoked_at && maybe t.expires_at true (λ at. ltb now at)

abbrev stamp : ℕ → String → ScimToken → ScimToken
stamp now id t = if t.id === id then record t { last_used_at = some now } else t

abbrev lacks_scope : Option String → ScimToken → Bool
lacks_scope scope t = maybe scope false (λ s. not (includes t.scopes s))

-- `authenticateScim`: `is_allowed` is the answer of the rate limit.
unfoldable pub authenticate_scim :
    (List ℕ → String)
    → Bool
    → ℕ
    → List ℕ
    → String
    → Option String
    → List ScimToken
    → Result ScimError (List ScimToken × ScimToken)
authenticate_scim digest is_allowed now header identifier scope tokens =
    throw_if (not is_allowed) too_many
    >> maybe (read_prefix (bearer header)) (err bearer_required) (λ prefix.
      maybe (find (λ t. same_units t.prefix prefix) tokens) (err bearer_invalid) (λ t.
        throw_if
          (not (is_organization identifier t)
            || not (is_valid_now now t)
            || (t.secret_hash !== digest (bearer header)))
          bearer_invalid
        >> (throw_if (lacks_scope scope t) scope_required >> ok (map (stamp now t.id) tokens, t))))

abbrev is_latin_letter : ℕ → Bool
is_latin_letter c = leb b'a' c && leb c b'z' || leb b'A' c && leb c b'Z'

-- [A-Za-z0-9.]
abbrev is_attribute_char : ℕ → Bool
is_attribute_char c = is_latin_letter c || leb b'0' c && leb c b'9' || c == b'.'

-- The longest beginning whose characters pass a test, and the rest.
abbrev break_while : (ℕ → Bool) → List ℕ → List ℕ × List ℕ
break_while p [] = ([], [])
break_while p (c ∷ text) =
    let (run, rest) = break_while p text in if p c then (c ∷ run, rest) else ([], c ∷ text)

-- `\s+`
abbrev skip_spaces : List ℕ → Option (List ℕ)
skip_spaces text =
    let (spaces, rest) = break_while is_space text in if length spaces == 0 then none else some rest

-- `eq`, in either case.
abbrev skip_eq : List ℕ → Option (List ℕ)
skip_eq (a ∷ b ∷ rest) =
    if (a == b'e' || a == b'E') && (b == b'q' || b == b'Q') then some rest else none
skip_eq _ = none

abbrev wide : ℕ → ℕ
wide c = if ltb c 65536 then 1 else 2

abbrev count_units : List ℕ → ℕ
count_units [] = 0
count_units (c ∷ text) = wide c + count_units text

-- `"([^"\\]{1,500})"$`
abbrev quoted_text : List ℕ → Option (List ℕ)
quoted_text [] = none
quoted_text (c ∷ text) =
    let (value, rest) = break_while (λ d. not (d == 34 || d == 92)) text in
    if (c == 34)
      && leb 1 (count_units value)
      && leb (count_units value) 500
      && same_units rest (34 ∷ [])
    then some value
    else none

-- The value of a filter whose attribute was read.
abbrev filter_text : List ℕ → Option (List ℕ)
filter_text rest =
    maybe (skip_spaces rest) none
      (λ r. maybe (skip_eq r) none (λ s. maybe (skip_spaces s) none quoted_text))

abbrev starts_well : List ℕ → Bool
starts_well [] = false
starts_well (c ∷ name) = is_latin_letter c

-- `parseScimFilter`: the attribute and the value, by their characters.
unfoldable pub parse_scim_filter :
    Option String → List (List ℕ) → Result ScimError (Option (List ℕ × List ℕ))
parse_scim_filter none allowed = ok none
parse_scim_filter (some value) allowed =
    let (name, rest) = break_while is_attribute_char (codes (trim value)) in
    if value === ""
    then ok none
    else maybe (filter_text rest) (err invalid_filter) (λ text.
      throw_if (not (starts_well name) || not (any (same_units name) allowed)) invalid_filter
      >> ok (some (name, text)))

-- No white space, and no second @.
abbrev is_part_char : ℕ → Bool
is_part_char c = not (is_space c) && not (c == b'@')

-- A dot between two characters at least.
abbrev has_inner_dot : List ℕ → Bool
has_inner_dot (c ∷ d ∷ e ∷ rest) = d == b'.' || has_inner_dot (d ∷ e ∷ rest)
has_inner_dot _ = false

-- /^[^\s@]+@[^\s@]+\.[^\s@]+$/
abbrev is_address : List ℕ → Bool
is_address text =
    let (name, rest) = break_while is_part_char text in
    leb 1 (length name)
    && maybe (after_prefix (b'@' ∷ []) rest) false
        (λ domain. all is_part_char domain && has_inner_dot domain)

-- `normalizeScimEmail`
pub normalize_scim_email : (String → String) → Json → Option String
normalize_scim_email to_lower value =
    let email = maybe (as_string value) "" (λ s. to_lower (trim s)) in
    if is_address (codes email) && leb (units email) 320 then some email else none

pub record ScimIdentity : Type 0 where
  pub id : String
  pub organization_id : String
  pub user_id : String
  pub active : Bool
  pub version : ℕ

-- A member of an organization.
pub record OrganizationSeat : Type 0 where
  pub organization_id : String
  pub user_id : String
  pub deactivated_at : Option ℕ

-- `workspaces` pairs a workspace with its organization.
pub record ScimStore : Type 0 where
  pub identities : List ScimIdentity
  pub seats : List OrganizationSeat
  pub workspaces : List (String × String)
  pub directory : Directory

module _ (now : ℕ) (active : Bool) where
  abbrev deactivation : Option ℕ
  deactivation = if active then none else some now

  abbrev set_active : String → ScimIdentity → ScimIdentity
  set_active id x = if x.id === id then record x { active = active; version = x.version + 1 } else x

  abbrev set_seat : ScimIdentity → OrganizationSeat → OrganizationSeat
  set_seat identity s =
      if s.organization_id === identity.organization_id && (s.user_id === identity.user_id)
      then record s { deactivated_at = deactivation }
      else s

  -- `workspaceIds`
  abbrev workspace_ids : String → List (String × String) → List String
  workspace_ids organization_id workspaces =
      map (λ w. w.0) (filter (λ w. w.1 === organization_id) workspaces)

  abbrev set_member : String → List String → Member → Member
  set_member user_id ids m =
      if m.user_id === user_id && includes ids m.workspace_id
      then record m { deactivated_at = deactivation }
      else m

  abbrev is_open_among : String → List String → Session → Bool
  is_open_among user_id ids s =
      s.user_id === user_id && includes ids s.workspace_id && is_absent s.revoked_at

  abbrev end_sessions : String → List String → List Session → List Session
  end_sessions user_id ids sessions =
      if active then sessions else revoke_sessions (is_open_among user_id ids) now sessions

  -- `setScimActive`: `none` where the organization lacks the identity.
  unfoldable pub set_scim_active : String → String → ScimStore → Option ScimStore
  set_scim_active organization_id identity_id store =
      maybe
        (find (λ x. x.id === identity_id && (x.organization_id === organization_id))
          store.identities)
        none
        (λ identity.
          let ids = workspace_ids organization_id store.workspaces in
          some (record store {
            identities = map (set_active identity.id) store.identities;
            seats = map (set_seat identity) store.seats;
            directory = record store.directory {
              members = map (set_member identity.user_id ids) (store.directory).members;
              sessions = end_sessions identity.user_id ids (store.directory).sessions;
            };
          }))
