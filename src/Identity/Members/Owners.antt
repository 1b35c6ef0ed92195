-- ===== src/Identity/Members/Owners.antt =====
-- The owners of a workspace under PATCH of src/app/api/workspace/members/[userId]/route.ts.
use planeo.Prelude.{
  ℕ, ◌≤◌, String, true, false, not, ◌&&◌, ◌||◌, none, some, inl, inr, List, filter, find, ◌===◌,
  leb, ok, if_err_passed, throw_if_passed, ◌≡◌, subst, sym, refl, arith, ◌⊎◌, Bool-cases,
  Option-cases,
}
use planeo.Prelude.Json.{Json, field_of, is_str, is_undefined}
use planeo.Permissions.{WorkspaceRole, owner, PolicyContext}
use planeo.Identity.{Member, Directory}
use planeo.Identity.Members.Counts.{
  Keyed, update-Keyed, filter-Keyed, filter-update, filter-remove, count-update, count-update_one,
  count-remove_one,
}
use planeo.Identity.Members.{
  administration_required, owners_only, Outcome, is_owner, is_admin, role_of, takes_away,
  is_active_owner, active_owners, update, set_role, set_deactivated, is_target, change_role,
  deactivate, reactivate, remove, updated, change, guarded, patch_member,
}

-- The change that was made.
pub record RoleChanged (context : PolicyContext) (now : ℕ) (user_id : String) (target : Member)
    (body : Json) (directory after : Directory) : Type 0 where
  pub role : WorkspaceRole
  pub given : is_undefined (field_of "role" body) ≡ false
  pub chosen : role_of (field_of "role" body) ≡ some role
  pub may_give : (not (is_owner context.role) && (is_owner target.role || is_owner role)) ≡ false
  pub made : after ≡ change_role context now user_id role directory

module _ (context : PolicyContext) (now : ℕ) (user_id : String) (body : Json)
    (directory : Directory) where
  -- What a change that is made has passed.
  pub record Passed (after : Directory) (outcome : Outcome) : Type 0 where
    pub target : Member
    pub found : find (is_target context now user_id) directory.members ≡ some target
    pub administers : (is_owner context.role || is_admin context.role) ≡ true
    pub may_touch : (not (is_owner context.role) && is_owner target.role) ≡ false
    pub not_own : (user_id === context.user_id && takes_away body context.role) ≡ false
    pub owners_left :
        (is_owner target.role
          && takes_away body owner
          && leb (active_owners context.workspace_id directory.members) 1)
        ≡ false
    pub changed : change context now user_id target body directory ≡ ok (after, outcome)

  pub patch_member-Passed :
      (after : Directory) (outcome : Outcome)
      → patch_member (some context) now user_id body directory ≡ ok (after, outcome)
      → Passed after outcome
  unfolding patch_member
  patch_member-Passed after outcome e =
      elim (Option-cases (find (is_target context now user_id) directory.members)) [
        | inl missing ↦ absurd (ground (arith, missing))
        | inr (member, known) ↦
            let (administers, e1) =
              if_err_passed (not (is_owner context.role) && not (is_admin context.role))
                administration_required
                (guarded context now user_id body directory
                  (find (is_target context now user_id) directory.members))
                e in
            let e2 : guarded context now user_id body directory (some member)
                ≡ ok (after, outcome) =
              rw known at e1 in
            let (may_touch, e3) = throw_if_passed _ _ _ e2 in
            let (not_own, e4) = throw_if_passed _ _ _ e3 in
            let (owners_left, e5) = throw_if_passed _ _ _ e4 in
            record {
              target = member;
              found = known;
              administers = ground arith;
              may_touch = may_touch;
              not_own = not_own;
              owners_left = owners_left;
              changed = e5;
            }
      ]

  abbrev pub Asks : String → Type 0
  Asks action =
      (is_undefined (field_of "role" body) ≡ true) × (is_str action (field_of "action" body) ≡ true)

  abbrev pub Changes : Member → Directory → Type 0
  Changes target after =
      RoleChanged context now user_id target body directory after
      ⊎ (Asks "deactivate" × (after ≡ deactivate context now user_id directory))
      ⊎ (Asks "reactivate" × (after ≡ reactivate context now user_id directory))
      ⊎ (Asks "remove" × (after ≡ remove context now user_id directory))

  pub change_cases :
      (target : Member) (after : Directory) (outcome : Outcome)
      → change context now user_id target body directory ≡ ok (after, outcome)
      → Changes target after
  change_cases target after outcome e = elim (Bool-cases (is_undefined (field_of "role" body))) [
    | inr given ↦ elim (Option-cases (role_of (field_of "role" body))) [
      | inl unknown ↦ absurd (cc (rw (given, unknown) at e))
      | inr (role, chosen) ↦
          let passed =
            throw_if_passed _ owners_only
              (ok (change_role context now user_id role directory, updated))
              (rw (given, chosen) at e) in
          inl
            (record { role = role; given = given; chosen = chosen; may_give = passed.0; made = cc })
    ]
    | inl missing ↦ elim (Bool-cases (is_str "deactivate" (field_of "action" body))) [
      | inl asked ↦ inr (inl ((missing, asked), cc (rw (missing, asked) at e)))
      | inr no_first ↦ elim (Bool-cases (is_str "reactivate" (field_of "action" body))) [
        | inl asked ↦ inr (inr (inl ((missing, asked), cc (rw (missing, no_first, asked) at e))))
        | inr no_second ↦ elim (Bool-cases (is_str "remove" (field_of "action" body))) [
          | inl asked ↦
              inr (inr (inr ((missing, asked), cc (rw (missing, no_first, no_second, asked) at e))))
          | inr no_third ↦ absurd (cc (rw (missing, no_first, no_second, no_third) at e))
        ]
      ]
    ]
  ]

  module _ (target : Member)
      (found : find (is_target context now user_id) directory.members ≡ some target)
      (unique : Keyed directory.members) where
    abbrev count : List Member → ℕ
    count = active_owners context.workspace_id

    -- The target is no owner, or another owner is left.
    abbrev Spare : Type 0
    Spare = (is_owner target.role ≡ false) ⊎ (2 ≤ count directory.members)

    count-update_spare :
        (f : Member → Member)
        → 1 ≤ count directory.members
        → Spare
        → 1 ≤ count (update (is_target context now user_id) f directory.members)
    count-update_spare f some_owner spare = elim spare [
      | inl other ↦ omega (
        arith,
        some_owner,
        count-update context.workspace_id user_id (is_active_owner context.workspace_id) f
            directory.members target unique found (λ q. absurd (ground (arith, q))),
      )
      | inr two ↦ omega (
        arith,
        two,
        count-update_one context.workspace_id user_id (is_active_owner context.workspace_id) f
            directory.members unique,
      )
    ]

    count-update_kept :
        (f : Member → Member)
        → 1 ≤ count directory.members
        → (is_active_owner context.workspace_id target ≡ true
            → is_active_owner context.workspace_id (f target) ≡ true)
        → 1 ≤ count (update (is_target context now user_id) f directory.members)
    count-update_kept f some_owner kept = omega (
      arith,
      some_owner,
      count-update context.workspace_id user_id (is_active_owner context.workspace_id) f
          directory.members target unique found kept,
    )

    count-remove_spare :
        1 ≤ count directory.members
        → Spare
        → 1 ≤ count (filter (λ m. not (is_target context now user_id m)) directory.members)
    count-remove_spare some_owner spare = elim spare [
      | inl other ↦
          let same =
            filter-remove context.workspace_id user_id (is_active_owner context.workspace_id)
              directory.members target unique found (ground (arith, other)) in
          rw same some_owner
      | inr two ↦ omega (
        arith,
        two,
        count-remove_one context.workspace_id user_id (is_active_owner context.workspace_id)
            directory.members unique,
      )
    ]

  taken_spare :
      (after : Directory) (outcome : Outcome) (passed : Passed after outcome)
      → takes_away body owner ≡ true
      → (is_owner passed.target.role ≡ false)
        ⊎ (2 ≤ active_owners context.workspace_id directory.members)
  taken_spare after outcome passed taken =
      let left = passed.owners_left in
      elim (Bool-cases (is_owner passed.target.role)) [
        | inr other ↦ inl other
        | inl owns ↦ inr (ground (arith, left))
      ]

  role_named :
      (target : Member) (after : Directory)
      (changed : RoleChanged context now user_id target body directory after)
      → takes_away body owner ≡ false
      → changed.role ≡ owner
  role_named target after changed kept =
      let named : is_str "OWNER" (field_of "role" body) ≡ true =
        ground (arith, kept, changed.given) in
      let chosen = changed.chosen in cc (rw named at chosen)

  role_changed :
      (after : Directory) (outcome : Outcome) (passed : Passed after outcome)
      (changed : RoleChanged context now user_id passed.target body directory after)
      → Keyed directory.members
      → 1 ≤ active_owners context.workspace_id directory.members
      → 1
        ≤ active_owners context.workspace_id
            (update (is_target context now user_id) (set_role changed.role) directory.members)
  role_changed after outcome passed changed unique some_owner =
      elim (Bool-cases (takes_away body owner)) [
        | inl taken ↦
            count-update_spare passed.target passed.found unique (set_role changed.role) some_owner
              (taken_spare after outcome passed taken)
        | inr kept ↦
            let same = role_named passed.target after changed kept in
            count-update_kept passed.target passed.found unique (set_role changed.role) some_owner
              (λ q. ground (arith, q, same))
      ]

  owner_left :
      (after : Directory) (outcome : Outcome) (passed : Passed after outcome)
      → Keyed directory.members
      → 1 ≤ active_owners context.workspace_id directory.members
      → Changes passed.target after
      → 1 ≤ active_owners context.workspace_id after.members
  owner_left after outcome passed unique some_owner (inl changed) =
      subst (λ d. 1 ≤ active_owners context.workspace_id d.members) (sym changed.made)
        (role_changed after outcome passed changed unique some_owner)
  owner_left after outcome passed unique some_owner (inr (inl (asked, made))) =
      subst (λ d. 1 ≤ active_owners context.workspace_id d.members) (sym made)
        (count-update_spare passed.target passed.found unique (set_deactivated (some now))
          some_owner (taken_spare after outcome passed (ground (arith, asked))))
  owner_left after outcome passed unique some_owner (inr (inr (inl (asked, made)))) =
      subst (λ d. 1 ≤ active_owners context.workspace_id d.members) (sym made)
        (count-update_kept passed.target passed.found unique (set_deactivated none) some_owner
          (λ q. ground (arith, q)))
  owner_left after outcome passed unique some_owner (inr (inr (inr (asked, made)))) =
      subst (λ d. 1 ≤ active_owners context.workspace_id d.members) (sym made)
        (count-remove_spare passed.target passed.found unique some_owner
          (taken_spare after outcome passed (ground (arith, asked))))

  -- A change of a member leaves the workspace an active owner, where it has one and no two rows
  -- have one key.
  pub active_owners-patch_member :
      (after : Directory) (outcome : Outcome)
      → Keyed directory.members
      → 1 ≤ active_owners context.workspace_id directory.members
      → patch_member (some context) now user_id body directory ≡ ok (after, outcome)
      → 1 ≤ active_owners context.workspace_id after.members
  active_owners-patch_member after outcome unique some_owner e =
      let passed = patch_member-Passed after outcome e in
      owner_left after outcome passed unique some_owner
        (change_cases passed.target after outcome passed.changed)

  -- A change that somebody who is no owner makes leaves the owners' rows as they are: nobody becomes
  -- an owner, and no owner is changed, where no two rows have one key.
  pub owners-patch_member :
      (after : Directory) (outcome : Outcome)
      → Keyed directory.members
      → is_owner context.role ≡ false
      → patch_member (some context) now user_id body directory ≡ ok (after, outcome)
      → filter (λ m. is_owner m.role) after.members
        ≡ filter (λ m. is_owner m.role) directory.members
  owners-patch_member after outcome unique no_owner e =
      let passed = patch_member-Passed after outcome e in
      let other : is_owner passed.target.role ≡ false =
        let touch = passed.may_touch in ground (arith, touch) in
      let updated_same : (f : Member → Member)
          → is_owner (f passed.target).role ≡ false
          → filter (λ m. is_owner m.role)
              (update (is_target context now user_id) f directory.members)
            ≡ filter (λ m. is_owner m.role) directory.members =
        λ f still.
          filter-update context.workspace_id user_id (λ m. is_owner m.role) f directory.members
            passed.target unique passed.found other still in
      elim (change_cases passed.target after outcome passed.changed) [
        | inl changed ↦ rw changed.made (
            updated_same (set_role changed.role)
              (let give = changed.may_give in ground (arith, give)))
        | inr (inl (asked, made)) ↦ rw made (updated_same (set_deactivated (some now)) other)
        | inr (inr (inl (asked, made))) ↦ rw made (updated_same (set_deactivated none) other)
        | inr (inr (inr (asked, made))) ↦ rw made (
            filter-remove context.workspace_id user_id (λ m. is_owner m.role) directory.members
              passed.target unique passed.found other)
      ]

  pub patch_member-Keyed :
      (after : Directory) (outcome : Outcome)
      → Keyed directory.members
      → patch_member (some context) now user_id body directory ≡ ok (after, outcome)
      → Keyed after.members
  patch_member-Keyed after outcome unique e =
      let passed = patch_member-Passed after outcome e in
      elim (change_cases passed.target after outcome passed.changed) [
        | inl changed ↦ rw changed.made (
            update-Keyed (is_target context now user_id) (set_role changed.role) directory.members
              (λ m. (refl, refl)) unique)
        | inr (inl (asked, made)) ↦ rw made (
            update-Keyed (is_target context now user_id) (set_deactivated (some now))
              directory.members (λ m. (refl, refl)) unique)
        | inr (inr (inl (asked, made))) ↦ rw made (
            update-Keyed (is_target context now user_id) (set_deactivated none) directory.members
              (λ m. (refl, refl)) unique)
        | inr (inr (inr (asked, made))) ↦
            rw made
              (filter-Keyed (λ m. not (is_target context now user_id m)) directory.members unique)
      ]
