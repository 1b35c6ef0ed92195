-- ===== src/Identity/Invitations/Manage.antt =====
-- PATCH of src/app/api/workspace/invitations/[id]/route.ts: an invitation is revoked or sent again.
use planeo.Prelude.{
  ℕ, ◌+◌, String, Bool, true, false, ◌&&◌, Option, some, inl, inr, List, [], ◌∷◌, map, find, ◌===◌,
  maybe, if◌then◌else◌, Result, ok, err, ◌≡◌, refl, ap, ◌∙◌, ===_iff, Bool-cases, Option-cases,
  arith,
}
use planeo.Prelude.Json.{Json, obj, end, field_of, is_str}
use planeo.Permissions.{WorkspaceRole, PolicyContext}
use planeo.Identity.{revoked, Invitation, AuditEvent, Directory}
use planeo.Identity.Invitations.{invalid_invitation, is_pending, has_token, open_invitation}

pub data ManageError : Type 0 where
  unauthenticated no_administrator invitation_not_found invalid_action : ManageError

-- The status of the response.
abbrev pub status_of : ManageError → ℕ
status_of unauthenticated = 401
status_of no_administrator = 403
status_of invitation_not_found = 404
status_of invalid_action = 400

-- What the mail that is queued is made of; the link of the mail has the new token.
pub record InvitationMail : Type 0 where
  pub workspace_id : String
  pub recipient : String
  pub token : String
  pub token_hash : String
  pub correlation_id : String

abbrev administers_workspace : WorkspaceRole → Bool
administers_workspace WorkspaceRole.owner = true
administers_workspace WorkspaceRole.admin = true
administers_workspace WorkspaceRole.member = false
administers_workspace WorkspaceRole.viewer = false

-- The `where` of the row that is read.
abbrev is_pending_in : String → String → Invitation → Bool
is_pending_in id workspace_id i =
    i.id === id && (i.workspace_id === workspace_id) && is_pending i.status

abbrev set_revoked : String → Invitation → Invitation
set_revoked id i = if i.id === id then record i { status = revoked } else i

abbrev set_token : String → String → ℕ → Invitation → Invitation
set_token id token_hash expires_at i =
    if i.id === id then record i { token_hash = token_hash; expires_at = expires_at } else i

abbrev managed_event : PolicyContext → String → String → AuditEvent
managed_event context action id = record {
  workspace_id = context.workspace_id;
  actor_id = context.user_id;
  action = action;
  target_type = "invitation";
  target_id = id;
  metadata = obj end;
}

abbrev seven_days : ℕ
seven_days = 604800000

module _ (digest : String → String) where
  abbrev revoke_invitation : PolicyContext → String → Directory → Directory
  revoke_invitation context id directory = record directory {
    invitations = map (set_revoked id) directory.invitations;
    audits = managed_event context "workspace.invitation_revoked" id ∷ directory.audits;
  }

  abbrev resend_invitation : PolicyContext → ℕ → String → String → Directory → Directory
  resend_invitation context now token id directory = record directory {
    invitations = map (set_token id (digest token) (now + seven_days)) directory.invitations;
    audits = managed_event context "workspace.invitation_resent" id ∷ directory.audits;
  }

  abbrev mail_for : PolicyContext → String → Invitation → InvitationMail
  mail_for context token i = record {
    workspace_id = context.workspace_id;
    recipient = i.email;
    token = token;
    token_hash = digest token;
    correlation_id = i.id;
  }

  abbrev run_action :
      PolicyContext
      → ℕ
      → String
      → String
      → Json
      → Directory
      → Invitation
      → Result ManageError (Directory × List InvitationMail)
  run_action context now token id body directory i =
      if is_str "revoke" (field_of "action" body)
      then ok (revoke_invitation context id directory, [])
      else if is_str "resend" (field_of "action" body)
      then ok (resend_invitation context now token id directory, mail_for context token i ∷ [])
      else err invalid_action

  abbrev manage_as :
      PolicyContext
      → ℕ
      → String
      → String
      → Json
      → Directory
      → Result ManageError (Directory × List InvitationMail)
  manage_as context now token id body directory =
      if administers_workspace context.role
      then maybe (find (is_pending_in id context.workspace_id) directory.invitations)
          (err invitation_not_found) (run_action context now token id body directory)
      else err no_administrator

  -- `PATCH`; `token` is random.
  unfoldable pub patch_invitation :
      Option PolicyContext
      → ℕ
      → String
      → String
      → Json
      → Directory
      → Result ManageError (Directory × List InvitationMail)
  patch_invitation context now token id body directory =
      maybe context (err unauthenticated) (λ c. manage_as c now token id body directory)

set_revoked-token_hash :
    (id : String) (x : Invitation) → (set_revoked id x).token_hash ≡ x.token_hash
set_revoked-token_hash id x = ground (arith, Bool-cases (x.id === id))

set_revoked-closed :
    (id : String) (x : Invitation) → x.id ≡ id → is_pending (set_revoked id x).status ≡ false
set_revoked-closed id x same = ground (arith, (===_iff x.id id).1 same)

-- The row that a token finds is found after the revocation too, and is closed.
revoked_closed :
    (token_hash id : String) (i : Invitation) (invitations : List Invitation)
    → find (has_token token_hash) invitations ≡ some i
    → i.id ≡ id
    → (j : Invitation) × (find (has_token token_hash) (map (set_revoked id) invitations) ≡ some j)
      × (is_pending j.status ≡ false)
revoked_closed token_hash id i [] e same = cc
revoked_closed token_hash id i (x ∷ xs) e same = elim (Bool-cases (x.token_hash === token_hash)) [
  | inl hit ↦
      let found : x ≡ i = cc (rw hit at e) in
      (
        set_revoked id x,
        rw (set_revoked-token_hash id x, hit) refl,
        set_revoked-closed id x (ap (λ y. y.id) found ∙ same),
      )
  | inr missed ↦
      let (j, kept, closed) = revoked_closed token_hash id i xs (rw missed at e) same in
      (j, rw (set_revoked-token_hash id x, missed) kept, closed)
]

-- After an invitation is revoked, the token that found it opens no invitation.
revoked_never_opens :
    (digest : String → String) (context : PolicyContext) (now later : ℕ) (fresh id token : String)
    (body : Json) (directory after : Directory) (mails : List InvitationMail) (i : Invitation)
    → patch_invitation digest (some context) now fresh id body directory ≡ ok (after, mails)
    → is_str "revoke" (field_of "action" body) ≡ true
    → find (has_token (digest token)) directory.invitations ≡ some i
    → i.id ≡ id
    → open_invitation digest later token after ≡ err invalid_invitation
unfolding patch_invitation
revoked_never_opens digest context now later fresh id token body directory after mails i e asked
      found same =
    let (j, kept, closed) = revoked_closed (digest token) id i directory.invitations found same in
    elim (Bool-cases (administers_workspace context.role)) [
      | inr refused ↦ absurd (cc (rw (refused, patch_invitation) at e))
      | inl allowed ↦
          elim (Option-cases (find (is_pending_in id context.workspace_id) directory.invitations)) [
            | inl missing ↦ absurd (cc (rw (allowed, missing, patch_invitation) at e))
            | inr (r, read) ↦
                let e1 = rw (allowed, read, asked, patch_invitation) at e in
                let left : after.invitations ≡ map (set_revoked id) directory.invitations = cc in
                rw (left, kept, closed) refl
          ]
    ]
