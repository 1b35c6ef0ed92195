-- ===== src/Identity/Login/Entry.antt =====
-- Whom POST of src/app/api/auth/login/route.ts lets in.
use planeo.Prelude.{
  ℕ, ◌+◌, ◌*◌, ◌<◌, String, true, false, ◌&&◌, ◌||◌, none, some, inl, inr, List, [], ◌∷◌, find,
  find_sound, In, ◌===◌, ===_iff, is_absent, ok, Result-cases, ◌≡◌, ap, ◌∙◌, subst, arith,
  Bool-cases, Option-cases, trim,
}
use planeo.Prelude.Json.{Json, field_of, as_string}
use planeo.Identity.{User, Member, Directory, is_member_of}
use planeo.Identity.Passwords.{Hashing}
use planeo.Identity.Sessions.{
  Coding, CodingLaws, Environment, Cookie, claims_of, new_session, create_session, get_auth_context,
}
use planeo.Identity.Sessions.Lockout.{get_auth_context-created, get_auth_context-agrees}
use planeo.Identity.Organizations.{can_use_local_login, effective_session_lifetime_seconds}
use planeo.Identity.Login.{
  Site, is_membership_of, owns_email, right_password, authenticate, enter, log_in_as, log_in,
}

module _ (site : Site) (hashing : Hashing) (coding : Coding) (env : Environment)
    (session_id : String) (now : ℕ) where
  abbrev lifetime : Member → ℕ
  lifetime m = effective_session_lifetime_seconds (site.organization_of m.workspace_id)

  -- What a user who is let in has shown.
  pub record Entered (body : Json) (directory after : Directory) (user : User) (cookie : Cookie)
      : Type 0 where
    pub email : String
    pub password : String
    pub email_given : as_string (field_of "email" body) ≡ some email
    pub password_given : as_string (field_of "password" body) ≡ some password
    pub user_stored : In user directory.users
    pub user_named : user.email ≡ site.to_lower (trim email)
    pub verified : right_password site hashing coding env session_id now user password ≡ true
    pub member : Member
    pub membership : find (is_membership_of user.id) directory.members ≡ some member
    pub allowed : can_use_local_login (site.organization_of member.workspace_id) user.id ≡ true
    pub created : Directory
    pub session_created :
        create_session coding env session_id now
          (lifetime member)
          user.id
          member.workspace_id
          directory
        ≡ ok (created, cookie)
    pub stored : (after.sessions ≡ created.sessions) × (after.members ≡ created.members)

  authenticate-ok :
      (email password : String) (directory : Directory) (u : User) (m : Member)
      → authenticate site hashing coding env session_id now email password directory ≡ ok (u, m)
      → (find (owns_email email) directory.users ≡ some u)
        × (right_password site hashing coding env session_id now u password ≡ true)
        × (find (is_membership_of u.id) directory.members ≡ some m)
  authenticate-ok email password directory u m e =
      elim (Option-cases (find (owns_email email) directory.users)) [
        | inl unknown ↦ absurd (cc (rw unknown at e))
        | inr (x, known) ↦
            elim (Bool-cases (right_password site hashing coding env session_id now x password)) [
              | inr wrong ↦ absurd (cc (rw (known, wrong) at e))
              | inl right ↦ elim (Option-cases (find (is_membership_of x.id) directory.members)) [
                | inl alone ↦ absurd (cc (rw (known, right, alone) at e))
                | inr (y, joined) ↦
                    let e1 = rw (known, right, joined) at e in
                    let same_user : x ≡ u = cc in
                    let same_member : y ≡ m = cc in
                    (
                      known ∙ ap some same_user,
                      subst
                          (λ v.
                            right_password site hashing coding env session_id now v password ≡ true)
                          same_user right,
                      subst (λ v. find (is_membership_of v.id) directory.members ≡ some m) same_user
                          (joined ∙ ap some same_member),
                    )
              ]
            ]
      ]

  enter-ok :
      (u user : User) (m : Member) (directory after : Directory) (cookie : Cookie)
      → enter site hashing coding env session_id now u m directory ≡ (after, ok (user, cookie))
      → (u ≡ user)
        × ((created : Directory) × (create_session coding env session_id now
                (lifetime m)
                u.id
                m.workspace_id
                directory
              ≡ ok (created, cookie))
            × (after.sessions ≡ created.sessions)
            × (after.members ≡ created.members))
  enter-ok u user m directory after cookie e =
      elim (Result-cases
        (create_session coding env session_id now (lifetime m) u.id m.workspace_id directory)) [
          | inl (fault, failed) ↦ absurd (cc (rw (failed, enter) at e))
          | inr ((created, sent), signed) ↦
              let e1 = rw (signed, enter) at e in
              let same : sent ≡ cookie = cc in
              (cc, (created, signed ∙ ap (λ x. ok (created, x)) same, cc, cc))
        ]

  log_in_as-entered :
      (email password : String) (directory after : Directory) (user : User) (cookie : Cookie)
      → log_in_as site hashing coding env session_id now email password directory
        ≡ (after, ok (user, cookie))
      → (m : Member) × (authenticate site hashing coding env session_id now email password directory
          ≡ ok (user, m))
        × (can_use_local_login (site.organization_of m.workspace_id) user.id ≡ true)
        × (enter site hashing coding env session_id now user m directory
            ≡ (after, ok (user, cookie)))
  log_in_as-entered email password directory after user cookie e =
      elim (Bool-cases
        (site.in_production && site.is_demo_email email && (password === "planeo-demo"))) [
          | inl demo ↦ absurd (cc (rw demo at e))
          | inr other ↦
              elim (Result-cases
                (authenticate site hashing coding env session_id now email password directory)) [
                  | inl (fault, refused) ↦ absurd (cc (rw (other, refused) at e))
                  | inr ((u, m), known) ↦
                      elim (Bool-cases
                        (can_use_local_login (site.organization_of m.workspace_id) u.id)) [
                          | inr blocked ↦ absurd (cc (rw (other, known, blocked) at e))
                          | inl allowed ↦
                              let e1 : enter site hashing coding env session_id now u m directory
                                  ≡ (after, ok (user, cookie)) =
                                rw (other, known, allowed) at e in
                              let same = (enter-ok u user m directory after cookie e1).0 in
                              (
                                m,
                                known ∙ ap (λ x. ok (x, m)) same,
                                rw⁻¹ same allowed,
                                subst
                                    (λ x.
                                      enter site hashing coding env session_id now x m directory
                                      ≡ (after, ok (user, cookie)))
                                    same e1,
                              )
                        ]
                ]
        ]

  -- Whoever the login lets in has given an email and a password of which the password is verified
  -- against the stored hash of the email's user, has a membership, and may use the local login of
  -- its workspace; a session of that user and workspace is stored.
  pub log_in-Entered :
      (body : Json) (directory after : Directory) (user : User) (cookie : Cookie)
      → log_in site hashing coding env session_id now body directory ≡ (after, ok (user, cookie))
      → Entered body directory after user cookie
  unfolding log_in
  log_in-Entered body directory after user cookie e =
      elim (Option-cases (as_string (field_of "email" body))) [
        | inl missing ↦ absurd (cc (rw (missing, log_in) at e))
        | inr (email, given) ↦ elim (Option-cases (as_string (field_of "password" body))) [
          | inl missing ↦ absurd (cc (rw (given, missing, log_in) at e))
          | inr (password, typed) ↦
              let (m, known, allowed, entered) =
                log_in_as-entered (site.to_lower (trim email)) password directory after user cookie
                  (rw (given, typed, log_in) at e) in
              let (found, verified, membership) =
                authenticate-ok (site.to_lower (trim email)) password directory user m known in
              let (has, stored) =
                find_sound (owns_email (site.to_lower (trim email))) directory.users found in
              let (_, (created, signed, sessions, members)) =
                enter-ok user user m directory after cookie entered in
              record {
                email = email;
                password = password;
                email_given = given;
                password_given = typed;
                user_stored = stored;
                user_named = (===_iff user.email (site.to_lower (trim email))).0 has;
                verified = verified;
                member = m;
                membership = membership;
                allowed = allowed;
                created = created;
                session_created = signed;
                stored = (sessions, members);
              }
        ]
      ]

find-member_of :
    (user_id : String) (members : List Member) (m : Member)
    → find (is_membership_of user_id) members ≡ some m
    → find (is_member_of m.workspace_id user_id) members ≡ some m
find-member_of user_id [] m found = cc
find-member_of user_id (x ∷ members) m found = elim (Bool-cases (is_membership_of user_id x)) [
  | inl hit ↦
      let same : x ≡ m = cc (rw hit at found) in
      let keyed : is_member_of m.workspace_id user_id x ≡ true =
        rw (ap (λ y. y.workspace_id) same)
          (ground (arith, hit, ===_iff m.workspace_id m.workspace_id)) in
      rw keyed (ap some same)
  | inr missed ↦
      let away : is_member_of m.workspace_id user_id x ≡ false = ground (arith, missed) in
      rw away (find-member_of user_id members m (rw missed at found))
]

-- A user whose first membership is deactivated is let in by the login, but by no request with the
-- cookie that it sets, while the session lasts, whatever other memberships the user has, where the
-- ids are not empty and the claims are read back from their coding.
pub get_auth_context-log_in :
    (site : Site) (hashing : Hashing) (coding : Coding) (env : Environment) (session_id : String)
    (now later : ℕ) (body : Json) (directory after : Directory) (user : User) (cookie : Cookie)
    (member : Member)
    → log_in site hashing coding env session_id now body directory ≡ (after, ok (user, cookie))
    → find (is_membership_of user.id) directory.members ≡ some member
    → is_absent member.deactivated_at ≡ false
    → CodingLaws coding (
        claims_of (
          new_session session_id user.id member.workspace_id
            (now + lifetime site hashing coding env session_id now member * 1000)))
    → (session_id === "" || user.id === "" || member.workspace_id === "") ≡ false
    → later < now + lifetime site hashing coding env session_id now member * 1000
    → get_auth_context coding env later (some cookie.value) after ≡ ok none
get_auth_context-log_in site hashing coding env session_id now later body directory after user
      cookie member e first gone laws named order =
    let entered =
      log_in-Entered site hashing coding env session_id now body directory after user cookie e in
    let (sessions, members) = entered.stored in
    let membership = entered.membership in
    let same : entered.member ≡ member = cc in
    let created =
      subst
        (λ m.
          create_session coding env session_id now
            (lifetime site hashing coding env session_id now m) user.id m.workspace_id directory
          ≡ ok (entered.created, cookie))
        same entered.session_created in
    let admitted =
      get_auth_context-created coding env session_id now
        (lifetime site hashing coding env session_id now member) later user.id member.workspace_id
        directory entered.created cookie laws named order created in
    let keyed = find-member_of user.id directory.members member first in
    let refused = rw (keyed, gone) at admitted in
    get_auth_context-agrees coding env later (some cookie.value) entered.created after sessions
      members
    ∙ refused
