-- ===== src/Portal/Auth/Tests.antt =====
-- Runs of src/lib/portal-auth.ts.
use planeo.Prelude.{
  ℕ, true, none, some, [], ◌∷◌, ok, ◌≡◌, refl, length, codes, same_units, if◌then◌else◌, List, ◌+◌,
}
use planeo.Identity.Passwords.{split_units}
use planeo.Identity.Sessions.Tests.{env}
use planeo.Portal.Auth.{
  PortalClaims, PortalCoding, Customer, PortalSession, PortalToken, PortalStore,
  create_portal_session, clear_portal_session, get_portal_context, issue_portal_token,
  consume_portal_token,
}
use planeo.Portal.Auth.Ended.{consume_portal_token_once}

abbrev claims : PortalClaims
claims = record {
  session_id = "s";
  customer_id = "cleo";
  workspace_id = "acme";
  expires_at = 604800500;
}

abbrev coding : PortalCoding
coding = record {
  hmac = λ key value. (length key + length value + 65) ∷ [];
  encode = λ c. codes "cleo";
  decode = λ text. if same_units text (codes "cleo") then some claims else none;
}

abbrev cleo : Customer
cleo = record {
  id = "cleo";
  workspace_id = "acme";
  email = "cleo@example.org";
  name = "Cleo";
  locale = "en";
  email_notifications = true;
  issue_reporter_user_id = "portal";
  verified_at = some 1;
  deactivated_at = none;
}

abbrev session : PortalSession
session = record {
  id = "s";
  customer_id = "cleo";
  workspace_id = "acme";
  expires_at = 604800500;
  revoked_at = none;
}

abbrev token_text : List ℕ
token_text = codes "abcdefghijklmnopqrstuvwxyz0123456789-_ABCDE"

abbrev token : PortalToken
token = record {
  id = "t";
  customer_id = "cleo";
  purpose = "LOGIN";
  token_hash = "h";
  expires_at = 60500;
  used_at = none;
}

abbrev start : PortalStore
start = record {
  customers = cleo ∷ [];
  sessions = [];
  tokens = [];
  accesses = [];
  organization_customers = [];
  project_customers = [];
}

abbrev signed_in : PortalStore
signed_in = record start { sessions = session ∷ [] }

abbrev cookie : List ℕ
cookie = codes "cleo.l"

created :
    create_portal_session coding env "s" 500 "cleo" "acme" start
    ≡ (signed_in, ok (record { value = cookie; secure = true; max_age = 604800 }))
unfolding create_portal_session
created = refl

let_in : get_portal_context coding env 600 (some cookie) signed_in ≡ ok (some (cleo, []))
unfolding get_portal_context split_units same_units
let_in = refl

abbrev signed_out : PortalStore
signed_out = record start { sessions = record session { revoked_at = some 700 } ∷ [] }

cleared :
    clear_portal_session coding env 700 (some cookie) signed_in
    ≡ ok (signed_out, record { value = []; secure = true; max_age = 0 })
unfolding clear_portal_session split_units same_units
cleared = refl

abbrev given : PortalStore
given = record start { tokens = token ∷ [] }

issued : issue_portal_token "t" "h" 500 "cleo" "LOGIN" 1 start ≡ given
unfolding issue_portal_token
issued = refl

abbrev spent : PortalStore
spent = record start { tokens = record token { used_at = some 600 } ∷ [] }

consumed :
    consume_portal_token (λ text. "h") 600 token_text "LOGIN" given given ≡ (spent, some cleo)
unfolding consume_portal_token
consumed = refl

consume_portal_token_once_example :
    (consume_portal_token (λ text. "h") 900 token_text "LOGIN" spent spent ≡ (spent, none))
    × ((consume_portal_token (λ text. "h") 600 token_text "LOGIN" given spent).1 ≡ none)
consume_portal_token_once_example =
    consume_portal_token_once (λ text. "h") 600 900 token_text "LOGIN" "LOGIN" given given spent
      cleo (refl, tt) refl consumed
