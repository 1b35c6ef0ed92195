-- ===== src/Identity/Resets/Spent.antt =====
-- POST of src/app/api/auth/password-reset/confirm/route.ts: what a reset leaves of the user's
-- tokens and sessions.
use planeo.Prelude.{
  ℕ, ◌≤◌, String, Bool, true, false, Option, none, some, inl, inr, List, [], ◌∷◌, map, length,
  filter, find, ===_iff, ◌==◌, In, ok, >>=-eq-ok, ◌≡◌, ◌≢◌, not, throw_if_passed, refl, arith,
  Bool-cases, subst, sym, ap, ◌∙◌, codes,
}
use planeo.Prelude.Json.{Json}
use planeo.Identity.{Session, Member, Directory, is_open_of, revoke_sessions}
use planeo.Identity.Passwords.{Hashing, hash_password}
use planeo.Identity.Sessions.{revoke_all_sessions}
use planeo.Identity.Sessions.Lockout.{revoke_sessions_spares}
use planeo.Identity.Invitations.{text_field}
use planeo.Identity.Resets.{
  PasswordResetToken, Store, is_usable, is_other, is_claim_of, use_if, spend, read_token, reset,
  confirm, invalid_input, is_acceptable, has_digest, audit_reset, first_membership, set_password,
}

hit-use_if :
    (p : PasswordResetToken → Bool) (now later : ℕ) (t : PasswordResetToken)
    → p t ≡ true
    → is_usable later (use_if p now t) ≡ false
hit-use_if p now later t hit = ground (arith, hit)

missed-use_if :
    (p : PasswordResetToken → Bool) (now : ℕ) (t : PasswordResetToken)
    → p t ≡ false
    → use_if p now t ≡ t
missed-use_if p now t missed = rw missed refl

-- A token of the user that neither update takes has expired or has been used.
left_unusable :
    (r t : PasswordResetToken) (now later : ℕ)
    → now ≤ later
    → t.user_id ≡ r.user_id
    → is_claim_of r now t ≡ false
    → is_other r t ≡ false
    → is_usable later t ≡ false
left_unusable r t now later order owned missed same =
    ground (arith, ===_iff t.user_id r.user_id, ===_iff t.id r.id)

used_if_unusable :
    (p : PasswordResetToken → Bool) (now later : ℕ) (t : PasswordResetToken)
    → is_usable later t ≡ false
    → is_usable later (use_if p now t) ≡ false
used_if_unusable p now later t spent = elim (Bool-cases (p t)) [
  | inl hit ↦ hit-use_if p now later t hit
  | inr missed ↦ rw missed spent
]

spend_unusable :
    (r t : PasswordResetToken) (now later : ℕ)
    → now ≤ later
    → t.user_id ≡ r.user_id
    → is_usable later (spend r now t) ≡ false
spend_unusable r t now later order owned = elim (Bool-cases (is_claim_of r now t)) [
  | inl hit ↦
      used_if_unusable (is_other r) now later (use_if (is_claim_of r now) now t)
        (hit-use_if (is_claim_of r now) now later t hit)
  | inr missed ↦
      subst (λ x. is_usable later (use_if (is_other r) now x) ≡ false)
        (sym (missed-use_if (is_claim_of r now) now t missed))
        (elim (Bool-cases (is_other r t)) [
          | inl other ↦ hit-use_if (is_other r) now later t other
          | inr same ↦
              used_if_unusable (is_other r) now later t
                (left_unusable r t now later order owned missed same)
        ])
]

use_if-user_id :
    (p : PasswordResetToken → Bool) (now : ℕ) (t : PasswordResetToken)
    → (use_if p now t).user_id ≡ t.user_id
use_if-user_id p now t = ground (arith, Bool-cases (p t))

all_spent :
    (r t : PasswordResetToken) (now later : ℕ) (tokens : List PasswordResetToken)
    → now ≤ later
    → In t (map (spend r now) tokens)
    → t.user_id ≡ r.user_id
    → is_usable later t ≡ false
all_spent r t now later [] order m owned = elim m [ ]
all_spent r t now later (x ∷ tokens) order m owned = elim m [
  | inl same ↦
      let kept : (spend r now x).user_id ≡ x.user_id =
        use_if-user_id (is_other r) now (use_if (is_claim_of r now) now x)
        ∙ use_if-user_id (is_claim_of r now) now x in
      subst (λ y. is_usable later y ≡ false) (sym same) (spend_unusable r x now later order (cc))
  | inr rest ↦ all_spent r t now later tokens order rest owned
]

module _ (digest : String → String) (hashing : Hashing) where
  -- The steps of a reset that succeeds.
  pub record Confirmed (now ended : ℕ) (salt : List ℕ) (body : Json) (seen store after : Store)
      : Type 0 where
    pub token : PasswordResetToken
    pub token_read : read_token digest hashing now body seen ≡ ok token
    pub tokens_after : after.tokens ≡ map (spend token now) store.tokens
    pub sessions_after :
        after.directory.sessions
        ≡ revoke_sessions (is_open_of token.user_id) ended store.directory.sessions

  audit_reset-sessions :
      (user_id : String) (found : Option Member) (directory : Directory)
      → (audit_reset user_id found directory).sessions ≡ directory.sessions
  audit_reset-sessions user_id none directory = refl
  audit_reset-sessions user_id (some m) directory = refl

  reset-kept :
      (now : ℕ) (salt : List ℕ) (password : String) (r : PasswordResetToken)
      (seen store made : Store)
      → reset digest hashing now salt password seen r store ≡ ok made
      → (made.tokens ≡ map (spend r now) store.tokens)
        × (made.directory.sessions ≡ store.directory.sessions)
  reset-kept now salt password r seen store made e =
      let audited =
        audit_reset-sessions r.user_id (first_membership r.user_id seen.directory)
          (record store.directory {
            users =
                map (set_password r.user_id (hash_password hashing salt (codes password)))
                  store.directory.users;
          }) in
      elim (Bool-cases (length (filter (is_claim_of r now) store.tokens) == 1)) [
        | inl one ↦ let e1 = rw one at e in (cc, cc)
        | inr other ↦ absurd (cc (rw other at e))
      ]

  pub confirm-Confirmed :
      (now ended : ℕ) (salt : List ℕ) (body : Json) (seen store after : Store)
      → confirm digest hashing now ended salt body seen store ≡ ok after
      → Confirmed now ended salt body seen store after
  unfolding confirm revoke_all_sessions
  confirm-Confirmed now ended salt body seen store after e =
      let (r, read, e1) = >>=-eq-ok (read_token digest hashing now body seen) _ e in
      let (made, done, e2) =
        >>=-eq-ok (reset digest hashing now salt (text_field "password" body) seen r store) _ e1 in
      let (tokens, sessions) =
        reset-kept now salt (text_field "password" body) r seen store made done in
      let open_after : after.directory.sessions
          ≡ revoke_sessions (is_open_of r.user_id) ended made.directory.sessions =
        cc in
      record {
        token = r;
        token_read = read;
        tokens_after = cc;
        sessions_after =
            open_after ∙ ap (λ x. revoke_sessions (is_open_of r.user_id) ended x) sessions;
      }

  read_token-found :
      (now : ℕ) (body : Json) (seen : Store) (r t : PasswordResetToken)
      → read_token digest hashing now body seen ≡ ok r
      → find (has_digest (digest (text_field "token" body))) seen.tokens ≡ some t
      → r ≡ t
  read_token-found now body seen r t read found =
      let (_, e) =
        throw_if_passed (not (is_acceptable (text_field "token" body) (text_field "password" body)))
          invalid_input _ read in
      elim (Bool-cases (is_usable now t)) [
        | inl usable ↦ cc (rw (found, usable) at e)
        | inr spent ↦ absurd (cc (rw (found, spent) at e))
      ]

  -- After a reset, no token of the user can be used at any later time, and each session of the
  -- user has been revoked.
  pub confirm_ends :
      (now ended later : ℕ) (salt : List ℕ) (body : Json) (seen store after : Store)
      (r t : PasswordResetToken) (s : Session)
      → confirm digest hashing now ended salt body seen store ≡ ok after
      → find (has_digest (digest (text_field "token" body))) seen.tokens ≡ some r
      → now ≤ later
      → In t after.tokens
      → t.user_id ≡ r.user_id
      → In s after.directory.sessions
      → s.user_id ≡ r.user_id
      → (is_usable later t ≡ false) × (s.revoked_at ≢ none)
  confirm_ends now ended later salt body seen store after r t s e found order kept owned stored
        signed =
      let confirmed = confirm-Confirmed now ended salt body seen store after e in
      let same = read_token-found now body seen confirmed.token r confirmed.token_read found in
      (
        all_spent confirmed.token t now later store.tokens order
            (subst (λ x. In t x) confirmed.tokens_after kept)
            (owned ∙ ap (λ x. x.user_id) (sym same)),
        λ unrevoked.
            let spared =
              revoke_sessions_spares (is_open_of confirmed.token.user_id) ended s
                store.directory.sessions (subst (λ x. In s x) confirmed.sessions_after stored)
                unrevoked in
            let named : s.user_id ≡ confirmed.token.user_id =
              signed ∙ ap (λ x. x.user_id) (sym same) in
            ground (arith, unrevoked, ===_iff s.user_id confirmed.token.user_id),
      )
