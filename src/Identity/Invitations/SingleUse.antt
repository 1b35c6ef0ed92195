-- ===== src/Identity/Invitations/SingleUse.antt =====
-- POST of src/app/api/invitations/[token]/route.ts: the transaction claims an invitation once.
use planeo.Prelude.{
  ℕ, ◌≤◌, String, false, Option, none, some, inl, inr, List, [], ◌∷◌, length, filter, find, ◌||◌,
  ◌==◌, ltb, Result, ok, err, ◌>>=◌, >>=-eq-ok, Result-cases, throw_if_passed, ◌≡◌, refl, ap, ◌∙◌,
  subst, arith, Bool-cases, trim, units,
}
use planeo.Prelude.Json.{Json}
use planeo.Identity.{User, Invitation, Directory}
use planeo.Identity.Passwords.{Hashing}
use planeo.Identity.Sessions.{Coding, Environment, AuthError, Cookie, create_session, secret}
use planeo.Identity.Invitations.{
  InvitationError, password_length, already_used, open_invitation, claimable, claim, claim_one,
  account, has_email, accept, prepare, sign_in, text_field, Fresh, post_invitation,
}

claimable-claim_one :
    (id : String) (now later : ℕ) (i : Invitation)
    → now ≤ later
    → claimable id later (claim_one id now i) ≡ false
claimable-claim_one id now later i order = elim (Bool-cases (claimable id now i)) [
  | inl hit ↦ ground (arith, hit)
  | inr missed ↦ ground (arith, missed)
]

-- The rows that are claimed are not claimable at any later time.
claimable-claim :
    (id : String) (now later : ℕ) (invitations : List Invitation)
    → now ≤ later
    → length (filter (claimable id later) (claim id now invitations)) ≡ 0
claimable-claim id now later [] order = refl
claimable-claim id now later (i ∷ invitations) order =
    let gone = claimable-claim_one id now later i order in
    rw gone (claimable-claim id now later invitations order)

create_session-invitations :
    (coding : Coding) (env : Environment) (id : String) (now lifetime : ℕ)
    (user_id workspace_id : String) (directory after : Directory) (cookie : Cookie)
    → create_session coding env id now lifetime user_id workspace_id directory ≡ ok (after, cookie)
    → after.invitations ≡ directory.invitations
unfolding create_session
create_session-invitations coding env id now lifetime user_id workspace_id directory after cookie
      e =
    elim (Result-cases (secret env)) [
      | inl (fault, unknown) ↦ absurd (cc (rw unknown at e))
      | inr (key, known) ↦ cc (rw known at e)
    ]

module _ (digest : String → String) (hashing : Hashing) (coding : Coding) (env : Environment)
    (lifetime : ℕ) where
  -- The steps of a request that succeeds.
  pub record Posted (now : ℕ) (fresh : Fresh) (token : String) (body : Json)
      (seen directory after : Directory) (user : User) (cookie : Cookie) : Type 0 where
    pub invitation : Invitation
    pub found : Option User
    pub prepared :
        prepare digest hashing coding env lifetime now fresh token body seen
        ≡ ok (invitation, found)
    pub made : Directory
    pub accepted_by :
        accept digest hashing coding env lifetime now fresh invitation
          (trim (text_field "name" body))
          (text_field "password" body)
          found
          directory
        ≡ ok (made, user)
    pub signed_in :
        create_session coding env fresh.session_id now lifetime user.id invitation.workspace_id made
        ≡ ok (after, cookie)

  pub post_invitation-Posted :
      (now : ℕ) (fresh : Fresh) (token : String) (body : Json) (seen directory after : Directory)
      (user : User) (cookie : Cookie)
      → post_invitation digest hashing coding env lifetime now fresh token body seen directory
        ≡ (after, ok (user, cookie))
      → Posted now fresh token body seen directory after user cookie
  unfolding post_invitation
  post_invitation-Posted now fresh token body seen directory after user cookie e =
      elim (Result-cases (prepare digest hashing coding env lifetime now fresh token body seen)) [
        | inl (fault, refused) ↦ absurd (cc (rw (refused, post_invitation) at e))
        | inr ((i, found), prepared) ↦
            let e1 = rw (prepared, post_invitation) at e in
            elim (Result-cases (
              accept digest hashing coding env lifetime now fresh i (trim (text_field "name" body))
                (text_field "password" body) found directory)) [
                  | inl (fault, refused) ↦ absurd (cc (rw refused at e1))
                  | inr ((made, u), taken) ↦
                      let e2 = rw taken at e1 in
                      elim (Result-cases (
                        create_session coding env fresh.session_id now lifetime u.id i.workspace_id
                          made)) [
                            | inl (fault, refused) ↦ absurd (cc (rw (refused, sign_in) at e2))
                            | inr ((final, sent), signed) ↦
                                let e3 = rw (signed, sign_in) at e2 in
                                let same : u ≡ user = cc in
                                let ended : ◌≡◌ {A = Result AuthError (Directory × Cookie)}
                                    (ok (final, sent)) (ok (after, cookie)) =
                                  cc in
                                record {
                                  invitation = i;
                                  found = found;
                                  prepared = prepared;
                                  made = made;
                                  accepted_by = taken ∙ ap (λ x. ok (made, x)) same;
                                  signed_in =
                                      subst
                                        (λ x.
                                          create_session coding env fresh.session_id now lifetime
                                            x.id i.workspace_id made
                                          ≡ ok (after, cookie))
                                        same (signed ∙ ended);
                                }
                          ]
                ]
      ]

  accept-invitations :
      (now : ℕ) (fresh : Fresh) (i : Invitation) (name password : String) (found : Option User)
      (directory made : Directory) (user : User)
      → accept digest hashing coding env lifetime now fresh i name password found directory
        ≡ ok (made, user)
      → made.invitations ≡ claim i.id now directory.invitations
  accept-invitations now fresh i name password none directory made user e =
      elim (Bool-cases (length (filter (claimable i.id now) directory.invitations) == 1)) [
        | inl one ↦ cc (rw one at e)
        | inr other ↦ absurd (cc (rw other at e))
      ]
  accept-invitations now fresh i name password (some u) directory made user e =
      elim (Bool-cases (length (filter (claimable i.id now) directory.invitations) == 1)) [
        | inl one ↦ cc (rw one at e)
        | inr other ↦ absurd (cc (rw other at e))
      ]

  accept_refused :
      (now : ℕ) (fresh : Fresh) (i : Invitation) (name password : String) (found : Option User)
      (directory : Directory)
      → length (filter (claimable i.id now) directory.invitations) ≡ 0
      → accept digest hashing coding env lifetime now fresh i name password found directory
        ≡ err already_used
  accept_refused now fresh i name password found directory none_left = rw none_left refl

  pub prepare-open_invitation :
      (now : ℕ) (fresh : Fresh) (token : String) (body : Json) (seen : Directory) (i : Invitation)
      (found : Option User)
      → prepare digest hashing coding env lifetime now fresh token body seen ≡ ok (i, found)
      → open_invitation digest now token seen ≡ ok i
  prepare-open_invitation now fresh token body seen i found e =
      let password = text_field "password" body in
      let (_, e1) =
        throw_if_passed (ltb (units password) 10 || ltb 200 (units password)) password_length
          (open_invitation digest now token seen >>= λ j.
            account digest hashing coding env lifetime now fresh (trim (text_field "name" body))
              password (find (has_email j.email) seen.users)
            >>= λ u. ok (j, u))
          e in
      let (j, read, e2) = >>=-eq-ok (open_invitation digest now token seen) _ e1 in
      let (u, known, e3) =
        >>=-eq-ok
          (account digest hashing coding env lifetime now fresh (trim (text_field "name" body))
            password (find (has_email j.email) seen.users))
          _ e2 in
      cc

  -- The claim, of which the transaction's later steps change nothing.
  Posted-claimed :
      (now : ℕ) (fresh : Fresh) (token : String) (body : Json) (seen directory after : Directory)
      (user : User) (cookie : Cookie)
      (posted : Posted now fresh token body seen directory after user cookie)
      → after.invitations ≡ claim posted.invitation.id now directory.invitations
  Posted-claimed now fresh token body seen directory after user cookie posted =
      let stored : after.invitations ≡ posted.made.invitations =
        create_session-invitations coding env fresh.session_id now lifetime user.id
          posted.invitation.workspace_id posted.made after cookie posted.signed_in in
      stored
      ∙ accept-invitations now fresh posted.invitation _ _ posted.found directory posted.made user
          posted.accepted_by

  -- An invitation is used once: after a request has accepted it, a request that still read it as
  -- pending, then or later, is refused and changes nothing.
  pub post_invitation_once :
      (now later : ℕ) (fresh fresh_later : Fresh) (token token_later : String)
      (body body_later : Json) (seen seen_later directory after current : Directory) (user : User)
      (cookie : Cookie) (i j : Invitation)
      → now ≤ later
      → post_invitation digest hashing coding env lifetime now fresh token body seen directory
        ≡ (after, ok (user, cookie))
      → open_invitation digest now token seen ≡ ok i
      → open_invitation digest later token_later seen_later ≡ ok j
      → j.id ≡ i.id
      → current.invitations ≡ after.invitations
      → (fault : InvitationError) × (post_invitation digest hashing coding env lifetime later
            fresh_later token_later body_later seen_later current
          ≡ (current, err fault))
  unfolding post_invitation
  post_invitation_once now later fresh fresh_later token token_later body body_later seen seen_later
        directory after current user cookie i j order e first second same unchanged =
      let posted = post_invitation-Posted now fresh token body seen directory after user cookie e in
      let opened =
        prepare-open_invitation now fresh token body seen posted.invitation posted.found
          posted.prepared in
      let named : posted.invitation ≡ i = cc in
      let claimed =
        unchanged ∙ Posted-claimed now fresh token body seen directory after user cookie posted in
      elim (Result-cases (
        prepare digest hashing coding env lifetime later fresh_later token_later body_later
          seen_later)) [
            | inl (fault, refused) ↦ (fault, rw (refused, post_invitation) refl)
            | inr ((k, found), prepared) ↦
                let opened_later =
                  prepare-open_invitation later fresh_later token_later body_later seen_later k
                    found prepared in
                let alike : k ≡ j = cc in
                let one : k.id ≡ posted.invitation.id = cc in
                let gone : length (filter (claimable k.id later) current.invitations) ≡ 0 =
                  rw (claimed, one)
                    (claimable-claim posted.invitation.id now later directory.invitations order) in
                (
                  already_used,
                  rw
                      (
                        prepared,
                        accept_refused later fresh_later k (trim (text_field "name" body_later))
                            (text_field "password" body_later) found current gone,
                        post_invitation,
                      )
                      refl,
                )
          ]
