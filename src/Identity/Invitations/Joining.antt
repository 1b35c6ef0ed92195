-- ===== src/Identity/Invitations/Joining.antt =====
-- POST of src/app/api/invitations/[token]/route.ts and the sessions of src/lib/auth.ts: who accepts an
-- invitation is let in with the role of the invitation.
use planeo.Prelude.{
  ℕ, ◌+◌, ◌*◌, ◌<◌, String, Bool, true, false, ◌||◌, Option, none, some, inl, inr, List, [], ◌∷◌,
  ◌++◌, length, filter, find, any, ◌===◌, ===_iff, ◌==◌, ok, ◌≡◌, refl, ap, ◌∙◌, subst, arith,
  Bool-cases,
}
use planeo.Prelude.Json.{Json}
use planeo.Permissions.{WorkspaceRole}
use planeo.Identity.{User, Member, Invitation, Directory, is_member_of}
use planeo.Identity.Passwords.{Hashing}
use planeo.Identity.Members.{update}
use planeo.Identity.Sessions.{
  Coding, CodingLaws, Environment, Cookie, create_session, get_auth_context, claims_of, new_session,
}
use planeo.Identity.Sessions.Lockout.{get_auth_context-create_session}
use planeo.Identity.Invitations.{
  open_invitation, claimable, accept, join, join_workspace, Fresh, post_invitation,
}
use planeo.Identity.Invitations.SingleUse.{post_invitation-Posted, prepare-open_invitation}

module _ (workspace_id user_id : String) (role : WorkspaceRole) where
  abbrev mine : Member → Bool
  mine = is_member_of workspace_id user_id

  find-update-join :
      (members : List Member)
      → any mine members ≡ true
      → (m : Member) × (find mine (update mine (join user_id role) members) ≡ some m)
        × (m.role ≡ role)
        × (m.deactivated_at ≡ none)
  find-update-join [] h = cc
  find-update-join (x ∷ members) h = elim (Bool-cases (mine x)) [
    | inl hit ↦ (join user_id role x, rw (hit, hit) refl, refl, refl)
    | inr missed ↦
        let (m, found, given, active) = find-update-join members (ground (arith, missed)) in
        (m, rw (missed, missed) found, given, active)
  ]

find_last :
    (p : Member → Bool) (members : List Member) (m : Member)
    → any p members ≡ false
    → p m ≡ true
    → find p (members ++ m ∷ []) ≡ some m
find_last p [] m none_of hit = rw hit refl
find_last p (x ∷ members) m none_of hit = elim (Bool-cases (p x)) [
  | inl found ↦ absurd (ground arith)
  | inr missed ↦ let rest = find_last p members m (ground arith) hit in rw missed rest
]

find-join_workspace :
    (i : Invitation) (user_id : String) (members : List Member)
    → (m : Member) × (find (is_member_of i.workspace_id user_id) (join_workspace i user_id members)
        ≡ some m)
      × (m.role ≡ i.workspace_role)
      × (m.deactivated_at ≡ none)
find-join_workspace i user_id members =
    elim (Bool-cases (any (is_member_of i.workspace_id user_id) members)) [
      | inl known ↦
          rw known (find-update-join i.workspace_id user_id i.workspace_role members known)
      | inr unknown ↦
          let here = (===_iff i.workspace_id i.workspace_id).1 refl in
          let mine_too = (===_iff user_id user_id).1 refl in
          let new : Member = record {
            workspace_id = i.workspace_id;
            user_id = user_id;
            role = i.workspace_role;
            deactivated_at = none;
          } in
          let last =
            find_last (is_member_of i.workspace_id user_id) members new unknown (ground arith) in
          rw unknown (new, last, refl, refl)
    ]

module _ (digest : String → String) (hashing : Hashing) (coding : Coding) (env : Environment)
    (lifetime : ℕ) where
  accept-members :
      (now : ℕ) (fresh : Fresh) (i : Invitation) (name password : String) (found : Option User)
      (directory made : Directory) (user : User)
      → accept digest hashing coding env lifetime now fresh i name password found directory
        ≡ ok (made, user)
      → made.members ≡ join_workspace i user.id directory.members
  accept-members now fresh i name password none directory made user e =
      elim (Bool-cases (length (filter (claimable i.id now) directory.invitations) == 1)) [
        | inl one ↦ cc (rw one at e)
        | inr other ↦ absurd (cc (rw other at e))
      ]
  accept-members now fresh i name password (some u) directory made user e =
      elim (Bool-cases (length (filter (claimable i.id now) directory.invitations) == 1)) [
        | inl one ↦ cc (rw one at e)
        | inr other ↦ absurd (cc (rw other at e))
      ]

  -- Who accepts an invitation is let in by the cookie that the response sets, while the session
  -- lasts, in the invitation's workspace and in the invitation's workspace role, whatever role the
  -- user had there before, where the ids are not empty and the claims are read back from their coding.
  pub get_auth_context-post_invitation :
      (now later : ℕ) (fresh : Fresh) (token : String) (body : Json)
      (seen directory after : Directory) (user : User) (cookie : Cookie) (i : Invitation)
      → CodingLaws coding
          (claims_of (new_session fresh.session_id user.id i.workspace_id (now + lifetime * 1000)))
      → (fresh.session_id === "" || user.id === "" || i.workspace_id === "") ≡ false
      → later < now + lifetime * 1000
      → open_invitation digest now token seen ≡ ok i
      → post_invitation digest hashing coding env lifetime now fresh token body seen directory
        ≡ (after, ok (user, cookie))
      → get_auth_context coding env later (some cookie.value) after
        ≡ ok (
            some (record {
              role = i.workspace_role;
              user_id = user.id;
              workspace_id = i.workspace_id;
            }))
  get_auth_context-post_invitation now later fresh token body seen directory after user cookie i
        laws named order read e =
      let posted =
        post_invitation-Posted digest hashing coding env lifetime now fresh token body seen
          directory after user cookie e in
      let opened =
        prepare-open_invitation digest hashing coding env lifetime now fresh token body seen
          posted.invitation posted.found posted.prepared in
      let same : posted.invitation ≡ i = cc in
      let signed =
        subst
          (λ j.
            create_session coding env fresh.session_id now lifetime user.id j.workspace_id
              posted.made
            ≡ ok (after, cookie))
          same posted.signed_in in
      let (m, found, given, active) = find-join_workspace i user.id directory.members in
      let members =
        accept-members now fresh posted.invitation _ _ posted.found directory posted.made user
          posted.accepted_by
        ∙ ap (λ j. join_workspace j user.id directory.members) same in
      let listed = ap (find (is_member_of i.workspace_id user.id)) members ∙ found in
      get_auth_context-create_session coding env fresh.session_id now lifetime later user.id
        i.workspace_id posted.made after cookie m laws named order listed active signed
      ∙ ap (λ r. ok (some (record { role = r; user_id = user.id; workspace_id = i.workspace_id })))
          given
