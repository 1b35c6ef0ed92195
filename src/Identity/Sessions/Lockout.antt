-- ===== src/Identity/Sessions/Lockout.antt =====
-- Sessions of src/lib/auth.ts: what lets a request in, and what shuts it out.
use planeo.Prelude.{
  ℕ, ◌+◌, ◌*◌, ◌<◌, ◌≤◌, String, Bool, true, false, ◌||◌, Option, none, some, inl, inr, List, [],
  ◌∷◌, ◌++◌, ◌≡◌, ◌≢◌, refl, ap, ◌∙◌, subst, find, find_sound, In, ok, >>=-eq-ok, Result-cases,
  if◌then◌else◌, ◌===◌, ===_iff, same_units, same_units_iff, arith, Bool-cases, Option-cases,
}
use planeo.Permissions.{PolicyContext}
use planeo.Identity.{Session, Member, Directory, is_member_of, is_open_of, revoke_sessions}
use planeo.Identity.Passwords.{split_units, split_units-append, split_units-free, is_blank}
use planeo.Identity.Sessions.{
  admit, SessionClaims, Environment, Coding, CodingLaws, Cookie, secret, new_session, claims_of,
  create_session, is_live, live, read_parts, read_claims, backs, context_of, context_for, resolve,
  get_auth_context, clear_session, is_session_of, revoke_all_sessions,
}

-- A session that is still open after a revocation was not one that is revoked.
pub revoke_sessions_spares :
    (p : Session → Bool) (revoked_at : ℕ) (s : Session) (sessions : List Session)
    → In s (revoke_sessions p revoked_at sessions)
    → s.revoked_at ≡ none
    → p s ≡ false
revoke_sessions_spares p revoked_at s [] m unrevoked = elim m [ ]
revoke_sessions_spares p revoked_at s (x ∷ sessions) m unrevoked = elim m [
  | inl same ↦ elim (Bool-cases (p x)) [
    | inl hit ↦ absurd (ground (arith, hit))
    | inr missed ↦ rw same (ground (arith, missed))
  ]
  | inr rest ↦ revoke_sessions_spares p revoked_at s sessions rest unrevoked
]

module _ (coding : Coding) (env : Environment) where
  -- What has let a request in.
  pub record Admitted (now : ℕ) (value : List ℕ) (directory : Directory) (context : PolicyContext)
      : Type 0 where
    pub encoded : List ℕ
    pub key : List ℕ
    pub extra : List (List ℕ)
    pub secret_known : secret env ≡ ok key
    pub signed : split_units b'.' value ≡ encoded ∷ coding.hmac key encoded ∷ extra
    pub claims : SessionClaims
    pub decoded : coding.decode encoded ≡ some claims
    pub claims_read : read_claims coding env now (some value) ≡ ok (some claims)
    pub session : Session
    pub session_stored : In session directory.sessions
    pub session_named :
        (session.id ≡ claims.session_id)
        × (session.user_id ≡ claims.user_id)
        × (session.workspace_id ≡ claims.workspace_id)
    pub claims_name :
        (claims.user_id ≡ context.user_id) × (claims.workspace_id ≡ context.workspace_id)
    pub session_open : (session.revoked_at ≡ none) × (now < session.expires_at)
    pub member : Member
    pub member_stored : In member directory.members
    pub member_active : member.deactivated_at ≡ none
    pub member_acts :
        (member.user_id ≡ context.user_id)
        × (member.workspace_id ≡ context.workspace_id)
        × (member.role ≡ context.role)

  live-signed :
      (now : ℕ) (signature expected : List ℕ) (found : Option SessionClaims)
      (claims : SessionClaims)
      → (if same_units signature expected then live coding env now found else none) ≡ some claims
      → (signature ≡ expected) × (found ≡ some claims)
  live-signed now signature expected none claims e =
      ground (arith, same_units_iff signature expected)
  live-signed now signature expected (some c) claims e =
      ground (arith, same_units_iff signature expected)

  read_parts-signed :
      (now : ℕ) (parts : List (List ℕ)) (claims : SessionClaims)
      → read_parts coding env now parts ≡ ok (some claims)
      → (encoded key : List ℕ) × (extra : List (List ℕ)) × (secret env ≡ ok key)
        × (parts ≡ encoded ∷ coding.hmac key encoded ∷ extra)
        × (coding.decode encoded ≡ some claims)
  read_parts-signed now [] claims e = cc
  read_parts-signed now (a ∷ []) claims e = cc
  read_parts-signed now (encoded ∷ signature ∷ extra) claims e =
      elim (Bool-cases (is_blank encoded || is_blank signature)) [
        | inl empty ↦ absurd (cc (rw empty at e))
        | inr filled ↦ elim (Result-cases (secret env)) [
          | inl (fault, unknown) ↦ absurd (cc (rw (filled, unknown) at e))
          | inr (key, known) ↦
              let (genuine, decoded) =
                live-signed now signature (coding.hmac key encoded) (coding.decode encoded) claims
                  (cc (rw (filled, known) at e)) in
              (encoded, key, extra, known, rw genuine refl, decoded)
        ]
      ]

  read_parts_earlier :
      (now later : ℕ) (parts : List (List ℕ)) (claims : SessionClaims)
      → now ≤ later
      → read_parts coding env later parts ≡ ok (some claims)
      → read_parts coding env now parts ≡ ok (some claims)
  read_parts_earlier now later [] claims order e = cc
  read_parts_earlier now later (a ∷ []) claims order e = cc
  read_parts_earlier now later (encoded ∷ signature ∷ extra) claims order e =
      ground (arith, Result-cases (secret env), Option-cases (coding.decode encoded))

  context_for-Admitted :
      (now : ℕ) (directory : Directory) (claims : SessionClaims) (context : PolicyContext)
      → context_for coding env now directory claims ≡ some context
      → (session : Session) × (member : Member) × (find
            (backs coding env now claims)
            directory.sessions
          ≡ some session)
        × (find (is_member_of claims.workspace_id claims.user_id) directory.members ≡ some member)
        × (member.deactivated_at ≡ none)
        × (context ≡ context_of coding env claims member)
  unfolding context_for
  context_for-Admitted now directory claims context e =
      elim (Option-cases (find (backs coding env now claims) directory.sessions)) [
        | inl missing ↦ absurd (cc (rw (missing, context_for) at e))
        | inr (session, found) ↦
            elim (Option-cases
              (find (is_member_of claims.workspace_id claims.user_id) directory.members)) [
                | inl unknown ↦ absurd (cc (rw (found, unknown, context_for) at e))
                | inr (member, known) ↦ (session, member, found, known, ground arith, ground arith)
              ]
      ]

  resolve-some :
      (now : ℕ) (directory : Directory) (found : Option SessionClaims) (context : PolicyContext)
      → resolve coding env now directory found ≡ some context
      → (claims : SessionClaims) × (found ≡ some claims)
        × (context_for coding env now directory claims ≡ some context)
  resolve-some now directory none context e = cc
  resolve-some now directory (some claims) context e = (claims, refl, e)

  -- A request is let in only if its cookie carries claims that the server signed with its secret,
  -- the claims name a stored session that is not revoked and not expired, and the user is an active
  -- member of the session's workspace; the request then acts in the role that the member has now.
  pub get_auth_context_sound :
      (now : ℕ) (value : List ℕ) (directory : Directory) (context : PolicyContext)
      → get_auth_context coding env now (some value) directory ≡ ok (some context)
      → Admitted now value directory context
  unfolding get_auth_context read_claims
  get_auth_context_sound now value directory context e =
      let (found, read, resolved) = >>=-eq-ok (read_claims coding env now (some value)) _ e in
      let (claims, same, admitted) = resolve-some now directory found context cc in
      let (encoded, key, extra, known, parts, decoded) =
        read_parts-signed now (split_units b'.' value) claims (read ∙ ap ok same) in
      let (session, member, found_session, found_member, active, acts) =
        context_for-Admitted now directory claims context admitted in
      let (backed, stored) =
        find_sound (backs coding env now claims) directory.sessions found_session in
      let (keyed, listed) =
        find_sound (is_member_of claims.workspace_id claims.user_id) directory.members
          found_member in
      let named : (session.id ≡ claims.session_id)
          × (session.user_id ≡ claims.user_id)
          × (session.workspace_id ≡ claims.workspace_id) =
        ground (
          arith,
          ===_iff session.id claims.session_id,
          ===_iff session.user_id claims.user_id,
          ===_iff session.workspace_id claims.workspace_id,
        ) in
      let member_named : (member.user_id ≡ claims.user_id)
          × (member.workspace_id ≡ claims.workspace_id) =
        ground (
          arith,
          ===_iff member.user_id claims.user_id,
          ===_iff member.workspace_id claims.workspace_id,
        ) in
      record {
        encoded = encoded;
        key = key;
        extra = extra;
        secret_known = known;
        signed = parts;
        claims = claims;
        decoded = decoded;
        claims_read = read ∙ ap ok same;
        session = session;
        session_stored = stored;
        session_named = named;
        claims_name = (cc, cc);
        session_open = ground (arith, Option-cases session.revoked_at);
        member = member;
        member_stored = listed;
        member_active = active;
        member_acts = (cc, cc, cc);
      }

  -- Claims that are read now were read at every earlier time.
  read_claims_earlier :
      (now later : ℕ) (value : List ℕ) (claims : SessionClaims)
      → now ≤ later
      → read_claims coding env later (some value) ≡ ok (some claims)
      → read_claims coding env now (some value) ≡ ok (some claims)
  unfolding read_claims
  read_claims_earlier now later value claims order e =
      read_parts_earlier now later (split_units b'.' value) claims order e

  -- After a session is cleared, its cookie lets no request in, then or later.
  pub get_auth_context-clear_session :
      (now later : ℕ) (value : List ℕ) (directory cleared : Directory) (cookie : Cookie)
      (context : PolicyContext)
      → now ≤ later
      → clear_session coding env now (some value) directory ≡ ok (cleared, cookie)
      → get_auth_context coding env later (some value) cleared ≢ ok (some context)
  unfolding clear_session
  get_auth_context-clear_session now later value directory cleared cookie context order e admitted =
      let proof = get_auth_context_sound later value cleared context admitted in
      let before = read_claims_earlier now later value proof.claims order proof.claims_read in
      let (named, owned, _) = proof.session_named in
      let found : is_session_of coding env proof.claims proof.session ≡ true = ground (
        arith,
        ===_iff proof.session.id proof.claims.session_id,
        ===_iff proof.session.user_id proof.claims.user_id,
      ) in
      let after : cleared.sessions
          ≡ revoke_sessions (is_session_of coding env proof.claims) now directory.sessions =
        cc (rw before at e) in
      let spared =
        revoke_sessions_spares (is_session_of coding env proof.claims) now proof.session
          directory.sessions (subst (In proof.session) after proof.session_stored)
          proof.session_open.0 in
      cc

  -- After a user's sessions are revoked, whatever cookie a request carries, it is not let in as
  -- that user.
  pub get_auth_context-revoke_all_sessions :
      (revoked_at now : ℕ) (value : List ℕ) (user_id : String) (directory : Directory)
      (context : PolicyContext)
      → get_auth_context coding env now
          (some value)
          (revoke_all_sessions revoked_at user_id directory)
        ≡ ok (some context)
      → context.user_id ≢ user_id
  unfolding revoke_all_sessions
  get_auth_context-revoke_all_sessions revoked_at now value user_id directory context admitted
        same =
      let proof = get_auth_context_sound now value _ context admitted in
      let spared =
        revoke_sessions_spares (is_open_of user_id) revoked_at proof.session directory.sessions
          proof.session_stored proof.session_open.0 in
      let (_, owned, _) = proof.session_named in
      let (acting, _) = proof.claims_name in
      let mine : (proof.session.user_id === user_id) ≡ true =
        (===_iff proof.session.user_id user_id).1 cc in
      cc (rw (mine, proof.session_open.0) at spared)

  resolve-agrees :
      (now : ℕ) (found : Option SessionClaims) (before after : Directory)
      → after.sessions ≡ before.sessions
      → after.members ≡ before.members
      → resolve coding env now after found ≡ resolve coding env now before found
  unfolding context_for
  resolve-agrees now none before after sessions members = refl
  resolve-agrees now (some claims) before after sessions members = rw (sessions, members) refl

  -- Nothing else of the directory is looked at.
  pub get_auth_context-agrees :
      (now : ℕ) (cookie : Option (List ℕ)) (before after : Directory)
      → after.sessions ≡ before.sessions
      → after.members ≡ before.members
      → get_auth_context coding env now cookie after ≡ get_auth_context coding env now cookie before
  unfolding get_auth_context
  get_auth_context-agrees now cookie before after sessions members =
      elim (Result-cases (read_claims coding env now cookie)) [
        | inl (fault, failed) ↦ rw failed refl
        | inr (found, read) ↦
            rw read (ap ok (resolve-agrees now found before after sessions members))
      ]

  -- What the cookie of a new session gives: the user's membership decides.
  pub get_auth_context-created :
      (id : String) (now lifetime later : ℕ) (user_id workspace_id : String)
      (directory created : Directory) (cookie : Cookie)
      → CodingLaws coding (claims_of (new_session id user_id workspace_id (now + lifetime * 1000)))
      → (id === "" || user_id === "" || workspace_id === "") ≡ false
      → later < now + lifetime * 1000
      → create_session coding env id now lifetime user_id workspace_id directory
        ≡ ok (created, cookie)
      → get_auth_context coding env later (some cookie.value) created
        ≡ ok (
            admit coding env
              (find (is_member_of workspace_id user_id) directory.members)
              (claims_of (new_session id user_id workspace_id (now + lifetime * 1000))))
  unfolding create_session get_auth_context read_claims context_for
  get_auth_context-created id now lifetime later user_id workspace_id directory created cookie laws
        named order e =
      elim (Result-cases (secret env)) [
        | inl (fault, unknown) ↦ absurd (cc (rw unknown at e))
        | inr (key, known) ↦
            let claims = claims_of (new_session id user_id workspace_id (now + lifetime * 1000)) in
            let encoded = coding.encode claims in
            let sent : cookie.value ≡ encoded ++ b'.' ∷ coding.hmac key encoded =
              cc (rw known at e) in
            let stored : created.sessions
                ≡ new_session id user_id workspace_id (now + lifetime * 1000) ∷ directory.sessions =
              cc (rw known at e) in
            let parts : split_units b'.' cookie.value ≡ encoded ∷ coding.hmac key encoded ∷ [] =
              ap (split_units b'.') sent
              ∙ split_units-append b'.' encoded (coding.hmac key encoded) (laws.encode-free)
              ∙ ap (λ rest. encoded ∷ rest)
                  (split_units-free b'.' (coding.hmac key encoded) (laws.hmac-free key encoded)) in
            let genuine =
              (same_units_iff (coding.hmac key encoded) (coding.hmac key encoded)).1 refl in
            let unexpired : is_live coding env later claims ≡ true = ground arith in
            let read : read_parts coding env later (split_units b'.' cookie.value)
                ≡ ok (some claims) =
              rw
                (
                  parts,
                  laws.encode-filled,
                  laws.hmac-filled key encoded,
                  known,
                  genuine,
                  laws.decode-encode,
                  unexpired,
                )
                refl in
            let kept : created.members ≡ directory.members = cc (rw known at e) in
            let backed : backs coding env later claims
                  (new_session id user_id workspace_id (now + lifetime * 1000))
                ≡ true =
              ground (
                arith,
                ===_iff id id,
                ===_iff user_id user_id,
                ===_iff workspace_id workspace_id,
              ) in
            rw (read, stored, backed, kept) refl
      ]

  -- While its lifetime lasts, the cookie of a new session lets the user in, in the role of the
  -- user's membership, where the ids are not empty, the membership is not deactivated, and the
  -- claims are read back from their coding.
  pub get_auth_context-create_session :
      (id : String) (now lifetime later : ℕ) (user_id workspace_id : String)
      (directory created : Directory) (cookie : Cookie) (member : Member)
      → CodingLaws coding (claims_of (new_session id user_id workspace_id (now + lifetime * 1000)))
      → (id === "" || user_id === "" || workspace_id === "") ≡ false
      → later < now + lifetime * 1000
      → find (is_member_of workspace_id user_id) directory.members ≡ some member
      → member.deactivated_at ≡ none
      → create_session coding env id now lifetime user_id workspace_id directory
        ≡ ok (created, cookie)
      → get_auth_context coding env later (some cookie.value) created
        ≡ ok (some (record { role = member.role; user_id = user_id; workspace_id = workspace_id }))
  get_auth_context-create_session id now lifetime later user_id workspace_id directory created
        cookie member laws named order found active e =
      let (keyed, _) = find_sound (is_member_of workspace_id user_id) directory.members found in
      let claims = claims_of (new_session id user_id workspace_id (now + lifetime * 1000)) in
      let admitted : admit coding env (find (is_member_of workspace_id user_id) directory.members)
            claims
          ≡ some (record { role = member.role; user_id = user_id; workspace_id = workspace_id }) =
        rw (found, active)
          (ground (
            arith,
            keyed,
            ===_iff member.user_id user_id,
            ===_iff member.workspace_id workspace_id,
          )) in
      get_auth_context-created id now lifetime later user_id workspace_id directory created cookie
        laws named order e
      ∙ ap ok admitted
