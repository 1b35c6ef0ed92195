-- ===== src/Identity/Members/TakenOut.antt =====
-- A member whom PATCH of src/app/api/workspace/members/[userId]/route.ts takes out, and the sessions
-- of src/lib/auth.ts.
use planeo.Prelude.{
  ℕ, String, List, true, ◌||◌, some, none, inl, inr, ◌≡◌, ◌≢◌, ◌∙◌, ap, subst, In, ok, ===_iff,
  Bool-cases, arith,
}
use planeo.Prelude.Json.{Json, field_of, is_str, is_undefined, is_str_unique}
use planeo.Permissions.{PolicyContext}
use planeo.Identity.{Session, Directory, revoke_sessions}
use planeo.Identity.Sessions.{Coding, Environment, get_auth_context}
use planeo.Identity.Sessions.Lockout.{get_auth_context_sound, revoke_sessions_spares}
use planeo.Identity.Members.{Outcome, is_open_in, patch_member}
use planeo.Identity.Members.Owners.{change_cases, patch_member-Passed}

not_reactivated :
    (action : Json)
    → (is_str "deactivate" action || is_str "remove" action) ≡ true
    → is_str "reactivate" action ≡ true
    → ⊥
not_reactivated action out back = elim (Bool-cases (is_str "deactivate" action)) [
  | inl first ↦ absurd (
      ground (
        arith,
        is_str_unique "reactivate" "deactivate" action back first,
        ===_iff "reactivate" "deactivate",
      ))
  | inr other ↦ absurd (
      ground (
        arith,
        is_str_unique "reactivate" "remove" action back (ground arith),
        ===_iff "reactivate" "remove",
      ))
]

module _ (context : PolicyContext) (now : ℕ) (user_id : String) (body : Json)
    (directory : Directory) where
  abbrev revoked_in : List Session
  revoked_in = revoke_sessions (is_open_in context.workspace_id user_id) now directory.sessions

  -- The body names no role, and asks to deactivate or to remove.
  abbrev pub TakesOut : Type 0
  TakesOut =
      (is_undefined (field_of "role" body) ≡ true)
      × ((is_str "deactivate" (field_of "action" body) || is_str "remove" (field_of "action" body))
          ≡ true)

  taken_sessions :
      (after : Directory) (outcome : Outcome)
      → TakesOut
      → patch_member (some context) now user_id body directory ≡ ok (after, outcome)
      → after.sessions ≡ revoked_in
  taken_sessions after outcome taken e =
      let passed = patch_member-Passed context now user_id body directory after outcome e in
      elim (change_cases context now user_id body directory passed.target after outcome
        passed.changed) [
          | inl changed ↦ absurd (let given = changed.given in cc)
          | inr (inl (asked, made)) ↦ ap (λ d. d.sessions) made
          | inr (inr (inl (asked, made))) ↦
              absurd (not_reactivated (field_of "action" body) taken.1 asked.1)
          | inr (inr (inr (asked, made))) ↦ ap (λ d. d.sessions) made
        ]

  session_taken :
      (s : Session)
      → In s revoked_in
      → s.revoked_at ≡ none
      → s.user_id ≡ user_id
      → s.workspace_id ≡ context.workspace_id
      → ⊥
  session_taken s stored unrevoked owned here =
      let spared =
        revoke_sessions_spares (is_open_in context.workspace_id user_id) now s directory.sessions
          stored unrevoked in
      let mine = (===_iff s.user_id user_id).1 owned in
      let placed = (===_iff s.workspace_id context.workspace_id).1 here in
      cc (rw (placed, mine, unrevoked) at spared)

  -- After a member is deactivated or removed, no request is let in as that user in that workspace,
  -- whatever cookie it carries.
  pub get_auth_context-patch_member :
      (coding : Coding) (env : Environment) (later : ℕ) (value : List ℕ) (after : Directory)
      (outcome : Outcome) (admitted : PolicyContext)
      → TakesOut
      → patch_member (some context) now user_id body directory ≡ ok (after, outcome)
      → get_auth_context coding env later (some value) after ≡ ok (some admitted)
      → admitted.workspace_id ≡ context.workspace_id
      → admitted.user_id ≢ user_id
  get_auth_context-patch_member coding env later value after outcome admitted taken e let_in here
        same =
      let proof = get_auth_context_sound coding env later value after admitted let_in in
      let (_, owned, placed) = proof.session_named in
      let (acting, working) = proof.claims_name in
      session_taken proof.session
        (subst (In proof.session) (taken_sessions after outcome taken e) proof.session_stored)
        proof.session_open.0 (owned ∙ acting ∙ same) (placed ∙ working ∙ here)
