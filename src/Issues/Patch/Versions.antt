-- ===== src/Issues/Patch/Versions.antt =====
-- The versions of issues under PATCH of src/app/api/issues/[id]/route.ts.
use planeo.Prelude.{
  ℕ, ◌+◌, String, true, false, not, some, inl, inr, find, find_sound, ===_iff, Result, ok, err,
  >>=-eq-ok, throw_if_passed, ◌≡◌, ◌≢◌, refl, ap, subst, ◌∙◌, arith, Option-cases,
}
use planeo.Prelude.Json.{Json, field_of}
use planeo.Permissions.{PolicyContext}
use planeo.Issues.{Row, Store, is_active, update_row}
use planeo.Issues.Body.{Draft}
use planeo.Issues.Commit.{CommitError, Project, apply_draft, commit_edit}
use planeo.Issues.Commit.Steps.{
  has_id, find-update_row, find-update_row_other, commit_edit-Committed,
}
use planeo.Issues.Commit.Stale.{reversion, commit_edit-reversion}
use planeo.Issues.Patch.{
  EditAccess, checked, run_on, patch_issue, lift_commit, names_version, issue_not_found,
  stale_version,
}

module _ (access : EditAccess) (context : PolicyContext) (now : ℕ) (id : String) (body : Json) where
  -- The steps of a request that succeeds.
  pub record Patched (seen current after : Store) : Type 0 where
    pub existing : Row
    pub read : find (is_active context.workspace_id id) seen.issues ≡ some existing
    pub project : Project
    pub draft : Draft
    pub viewed : not (access.can_view context existing.id) ≡ false
    pub opened : access.find_project context existing.project_id ≡ some project
    pub drafted : checked access context now body project existing ≡ ok draft
    pub same_version : names_version body existing.version ≡ true
    pub committed :
        commit_edit project context
          (access.role_in project.id context.user_id)
          existing
          (field_of "customFields" body)
          draft
          current
        ≡ ok after

  lift_commit-ok :
      (r : Result CommitError Store) (after : Store) → lift_commit r ≡ ok after → r ≡ ok after
  lift_commit-ok (err fault) after e = cc
  lift_commit-ok (ok a) after e = cc

  run_on-Patched :
      (seen current after : Store) (row : Row)
      → find (is_active context.workspace_id id) seen.issues ≡ some row
      → run_on access context now body current row ≡ ok after
      → Patched seen current after
  run_on-Patched seen current after row found e =
      let (viewed, e1) =
        throw_if_passed (not (access.can_view context row.id)) issue_not_found _ e in
      elim (Option-cases (access.find_project context row.project_id)) [
        | inl closed ↦ absurd (cc (rw closed at e1))
        | inr (project, opened) ↦
            let (d, read, e2) =
              >>=-eq-ok (checked access context now body project row) _ (rw opened at e1) in
            let (_, e3) =
              throw_if_passed (not (access.may_edit context project.id)) issue_not_found _ read in
            let (current_version, _) =
              throw_if_passed (not (names_version body row.version)) stale_version _ e3 in
            record {
              existing = row;
              read = found;
              project = project;
              draft = d;
              viewed = viewed;
              opened = opened;
              drafted = read;
              same_version = ground (arith, current_version);
              committed = lift_commit-ok _ after e2;
            }
      ]

  pub patch_issue-Patched :
      (seen current after : Store)
      → patch_issue access (some context) now id body seen current ≡ ok after
      → Patched seen current after
  unfolding patch_issue
  patch_issue-Patched seen current after e =
      elim (Option-cases (find (is_active context.workspace_id id) seen.issues)) [
        | inl missing ↦ absurd (cc (rw (missing, patch_issue) at e))
        | inr (row, found) ↦
            run_on-Patched seen current after row found (rw (found, patch_issue) at e)
      ]

  -- What an accepted request does to the versions of the issues.
  pub record NextVersion (before after : Store) : Type 0 where
    pub row : Row
    pub stored : find (has_id id) before.issues ≡ some row
    pub updated : Row
    pub kept : find (has_id id) after.issues ≡ some updated
    pub next : updated.version ≡ row.version + 1
    pub others :
        (other : String)
        → other ≢ id
        → find (has_id other) after.issues ≡ find (has_id other) before.issues

  -- An accepted request counts the version of its issue up by one, and leaves every other issue as
  -- it is.
  pub patch_issue-NextVersion :
      (seen current after : Store)
      → patch_issue access (some context) now id body seen current ≡ ok after
      → NextVersion current after
  patch_issue-NextVersion seen current after e =
      let patched = patch_issue-Patched seen current after e in
      let existing = patched.existing in
      let role = access.role_in patched.project.id context.user_id in
      let done =
        commit_edit-Committed patched.project context role existing (field_of "customFields" body)
          patched.draft current after patched.committed in
      let (active, _) = find_sound (is_active context.workspace_id id) seen.issues patched.read in
      let named : existing.id ≡ id = ground (arith, active, ===_iff existing.id id) in
      let f = apply_draft patched.project context role existing done.final in
      let stored = subst (λ x. find (has_id x) current.issues ≡ some done.row) named done.stored in
      let issues = subst (λ x. after.issues ≡ update_row x f current.issues) named done.issues in
      record {
        row = done.row;
        stored = stored;
        updated = f done.row;
        kept =
            ap (find (has_id id)) issues
            ∙ find-update_row id f current.issues done.row (λ x. refl) stored;
        next = refl;
        others = λ other differ.
            ap (find (has_id other)) issues
            ∙ find-update_row_other id f other current.issues (λ x. refl) differ;
      }

  -- A request that succeeds also succeeds where the stored issue has any other version by the time
  -- its transaction runs: the version is compared with the row that was read before.
  pub patch_issue-reversion :
      (seen current after : Store) (version : ℕ)
      → patch_issue access (some context) now id body seen current ≡ ok after
      → (final : Store) × (patch_issue access
            (some context)
            now
            id
            body
            seen
            (reversion id version current)
          ≡ ok final)
  unfolding patch_issue
  patch_issue-reversion seen current after version e =
      let patched = patch_issue-Patched seen current after e in
      let existing = patched.existing in
      let role = access.role_in patched.project.id context.user_id in
      let (active, _) = find_sound (is_active context.workspace_id id) seen.issues patched.read in
      let named : existing.id ≡ id = ground (arith, active, ===_iff existing.id id) in
      let (final, committed) =
        commit_edit-reversion patched.project context role existing (field_of "customFields" body)
          patched.draft current after version patched.committed in
      let made =
        subst
          (λ x.
            commit_edit patched.project context role existing (field_of "customFields" body)
              patched.draft (reversion x version current)
            ≡ ok final)
          named committed in
      let read = patched.read in
      let viewed = patched.viewed in
      let opened = patched.opened in
      let drafted = patched.drafted in (final, rw (read, viewed, opened, drafted, made) refl)
