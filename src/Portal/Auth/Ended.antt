-- ===== src/Portal/Auth/Ended.antt =====
-- clearPortalSession and consumePortalToken of src/lib/portal-auth.ts: what they end.
use planeo.Prelude.{
  ℕ, ◌≤◌, String, Bool, true, false, Option, none, some, inl, inr, List, [], ◌∷◌, any, map, find,
  find_sound, In-any, filter, length, ◌===◌, ===_iff, ok, ◌≡◌, refl, sym, subst, ap, ◌∙◌, arith,
  Bool-cases, Option-cases, Result-cases,
}
use planeo.Identity.Sessions.{Environment, Cookie}
use planeo.Portal.Auth.{
  PortalClaims, PortalCoding, Customer, PortalSession, PortalToken, PortalStore, is_live_claim,
  keep_live, signed_claims, revoke_portal, end_portal_sessions, clear_portal_session,
  is_open_session, is_admitted, admit_customer, get_portal_context, is_token_text, is_usable_token,
  is_unused, spend_token, consume_portal_token,
}

find_of_none :
    {A : Type 0} (p : A → Bool) (xs : List A) → ((x : A) → p x ≡ false) → find p xs ≡ none
find_of_none p [] h = refl
find_of_none p (x ∷ xs) h = rw (h x) (find_of_none p xs h)

module _ (coding : PortalCoding) (env : Environment) where
  any-revoke_portal :
      (c : PortalClaims) (now later : ℕ) (sessions : List PortalSession)
      → any (is_open_session coding env later c) (map (revoke_portal coding env c now) sessions)
        ≡ false
  any-revoke_portal c now later [] = refl
  any-revoke_portal c now later (s ∷ sessions) =
      ground (arith, any-revoke_portal c now later sessions)

  admit_customer_ended :
      (now later : ℕ) (claims : Option PortalClaims) (store : PortalStore)
      → now ≤ later
      → admit_customer coding env later
          (end_portal_sessions coding env now (keep_live coding env now claims) store)
          (keep_live coding env later claims)
        ≡ none
  admit_customer_ended now later none store le = refl
  admit_customer_ended now later (some c) store le = elim (Bool-cases (is_live_claim now c)) [
    | inr dead ↦ let still : is_live_claim later c ≡ false = ground arith in rw (dead, still) refl
    | inl live ↦ elim (Bool-cases (is_live_claim later c)) [
      | inr dead ↦ rw (live, dead) refl
      | inl alive ↦
          let ended : PortalStore = record store {
            sessions = map (revoke_portal coding env c now) store.sessions;
          } in
          let closed = any-revoke_portal c now later store.sessions in
          let nobody =
            find_of_none (is_admitted coding env later c ended) store.customers
              (λ x. ground (arith, closed)) in
          rw (live, alive, nobody) refl
    ]
  ]

  -- After a customer signs out, the cookie that was used lets nobody in any more.
  pub get_portal_context-clear_portal_session :
      (now later : ℕ) (cookie : Option (List ℕ)) (store after : PortalStore) (sent : Cookie)
      → clear_portal_session coding env now cookie store ≡ ok (after, sent)
      → now ≤ later
      → get_portal_context coding env later cookie after ≡ ok none
  unfolding clear_portal_session get_portal_context
  get_portal_context-clear_portal_session now later cookie store after sent e le =
      elim (Result-cases (signed_claims coding env cookie)) [
        | inl (fault, refused) ↦ absurd (cc (rw refused at e))
        | inr (claims, read) ↦
            let e1 = rw read at e in
            let made : end_portal_sessions coding env now (keep_live coding env now claims) store
                ≡ after =
              cc in
            let ended : admit_customer coding env later after (keep_live coding env later claims)
                ≡ none =
              subst
                (λ (s : PortalStore).
                  admit_customer coding env later s (keep_live coding env later claims) ≡ none)
                made (admit_customer_ended now later claims store le) in
            rw (read, ended) refl
      ]

-- The unique key of the table of tokens.
abbrev pub KeyedByHash : List PortalToken → Type 0
KeyedByHash [] = Unit
KeyedByHash (t ∷ tokens) =
    (any (λ other. other.token_hash === t.token_hash) tokens ≡ false) × KeyedByHash tokens

spend_token-hash :
    (id : String) (now : ℕ) (t : PortalToken) → (spend_token id now t).token_hash ≡ t.token_hash
spend_token-hash id now t = ground arith

-- No row has the hash.
find_of_other :
    (hash id purpose : String) (now later : ℕ) (customers : List Customer)
    (tokens : List PortalToken)
    → any (λ other. other.token_hash === hash) tokens ≡ false
    → find (is_usable_token later hash purpose customers) (map (spend_token id now) tokens) ≡ none
find_of_other hash id purpose now later customers [] h = refl
find_of_other hash id purpose now later customers (t ∷ tokens) h =
    ground
      (arith, spend_token-hash id now t, find_of_other hash id purpose now later customers tokens)

find_of_spent :
    (hash purpose again : String) (now later : ℕ) (customers others : List Customer)
    (tokens : List PortalToken) (t : PortalToken)
    → KeyedByHash tokens
    → find (is_usable_token now hash purpose customers) tokens ≡ some t
    → find (is_usable_token later hash again others) (map (spend_token t.id now) tokens) ≡ none
find_of_spent hash purpose again now later customers others [] t keyed e = refl
find_of_spent hash purpose again now later customers others (x ∷ tokens) t keyed e =
    elim (Bool-cases (is_usable_token now hash purpose customers x)) [
      | inl hit ↦
          let same : x ≡ t = cc (rw hit at e) in
          let named : x.token_hash ≡ hash = (===_iff x.token_hash hash).0 (ground arith) in
          let rest = find_of_other hash t.id again now later others tokens (
            subst (λ h. any (λ (other : PortalToken). other.token_hash === h) tokens ≡ false) named
              keyed.0) in
          let own : (x.id === t.id) ≡ true =
            (===_iff x.id t.id).1 (ap (λ (y : PortalToken). y.id) same) in
          let spent : is_usable_token later hash again others (spend_token t.id now x) ≡ false =
            ground arith in
          rw spent rest
      | inr missed ↦
          let found : find (is_usable_token now hash purpose customers) tokens ≡ some t =
            cc (rw missed at e) in
          let rest =
            find_of_spent hash purpose again now later customers others tokens t keyed.1 found in
          let (usable, m) = find_sound (is_usable_token now hash purpose customers) tokens found in
          let named : t.token_hash ≡ hash = (===_iff t.token_hash hash).0 (ground arith) in
          let other : (x.token_hash === hash) ≡ false = elim (Bool-cases (x.token_hash === hash)) [
            | inr differs ↦ differs
            | inl same ↦
                let equal = named ∙ sym ((===_iff x.token_hash hash).0 same) in
                let seen =
                  In-any (λ (y : PortalToken). y.token_hash === x.token_hash) t tokens m
                    ((===_iff t.token_hash x.token_hash).1 equal) in
                absurd (cc)
          ] in
          let kept : is_usable_token later hash again others (spend_token t.id now x) ≡ false =
            ground (arith, spend_token-hash t.id now x) in
          rw kept rest
    ]

none_unused :
    (id : String) (now : ℕ) (tokens : List PortalToken)
    → length (filter (is_unused id) (map (spend_token id now) tokens)) ≡ 0
none_unused id now [] = refl
none_unused id now (t ∷ tokens) = ground (arith, none_unused id now tokens)

-- A token that was consumed once is worth nothing any more: neither to a request that reads the
-- tokens afterwards, for whatever purpose, nor to one that read them before.
pub consume_portal_token_once :
    (digest : List ℕ → String) (now later : ℕ) (token : List ℕ) (purpose again : String)
    (seen store after : PortalStore) (customer : Customer)
    → KeyedByHash store.tokens
    → seen.tokens ≡ store.tokens
    → consume_portal_token digest now token purpose seen store ≡ (after, some customer)
    → (consume_portal_token digest later token again after after ≡ (after, none))
      × ((consume_portal_token digest now token purpose seen after).1 ≡ none)
unfolding consume_portal_token
consume_portal_token_once digest now later token purpose again seen store after customer keyed read
      e =
    elim (Bool-cases (is_token_text token)) [
      | inr bad ↦ absurd (cc (rw bad at e))
      | inl good ↦
          elim (Option-cases
            (find (is_usable_token now (digest token) purpose seen.customers) seen.tokens)) [
              | inl missing ↦ absurd (cc (rw (good, missing) at e))
              | inr (t, found) ↦
                  let made : map (spend_token t.id now) store.tokens ≡ after.tokens =
                    ap (λ (r : PortalStore × Option Customer). (r.0).tokens)
                      (rw (good, found) at e) in
                  let known : find (is_usable_token now (digest token) purpose seen.customers)
                        store.tokens
                      ≡ some t =
                    subst
                      (λ (ts : List PortalToken).
                        find (is_usable_token now (digest token) purpose seen.customers) ts
                        ≡ some t)
                      read found in
                  let gone : find (is_usable_token later (digest token) again after.customers)
                        after.tokens
                      ≡ none =
                    subst
                      (λ (ts : List PortalToken).
                        find (is_usable_token later (digest token) again after.customers) ts ≡ none)
                      made
                      (find_of_spent (digest token) purpose again now later seen.customers
                        after.customers store.tokens t keyed known) in
                  let left : length (filter (is_unused t.id) after.tokens) ≡ 0 =
                    subst (λ (ts : List PortalToken). length (filter (is_unused t.id) ts) ≡ 0) made
                      (none_unused t.id now store.tokens) in
                  (rw (good, gone) refl, rw (good, found, left) refl)
            ]
    ]
