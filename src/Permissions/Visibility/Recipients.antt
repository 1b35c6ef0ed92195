-- ===== src/Permissions/Visibility/Recipients.antt =====
-- What the query of issueSecurityWhere selects, and that it selects whatever
-- matchesIssueSecurity admits.
use planeo.Prelude.{
  String, Bool, true, ◌&&◌, ◌||◌, some, List, map, ◌≡◌, inl, inr, In, In-any, any-In, any,
  any-append, any-map, ◌===◌, ===_iff, Option-cases, arith,
}
use planeo.Permissions.{ProjectRole, workspace_role_name, project_role_name, PolicyContext}
use planeo.Permissions.Security.{
  SecurityGrants, SecurityActor, lists, lists_role, is_id, matches_issue_security,
}
use planeo.Permissions.Visibility.{
  user_ids, workspace_roles, group_ids, project_roles, Branch, IssueRow, Membership, SecurityDb,
  issue_security_where, level_has, is_none, BranchLaws, selected, group_branch, role_branch,
}

-- Whom a membership lets see the row.
abbrev pub role_sees : IssueRow → Membership → Bool
role_sees row m =
    row.project_id === m.project_id && level_has project_roles (project_role_name m.role) row.level

module _ (selects : Branch → IssueRow → Bool) (laws : BranchLaws selects) (db : SecurityDb)
    (context : PolicyContext) (project_ids : List String) (row : IssueRow) where
  -- The query selects a row exactly if it has no security level, or the user is its reporter or
  -- its assignee (whatever the level grants), or the level lists the user, the workspace role, one
  -- of the user's groups, or the user's role in the row's own project.
  pub issue_security_where_lem :
      selected selects (issue_security_where db context project_ids) row
      ≡ is_none row.level
        || (row.people.reporter_id === context.user_id)
        || is_id row.people.assignee_id context.user_id
        || level_has user_ids context.user_id row.level
        || level_has workspace_roles (workspace_role_name context.role) row.level
        || any (λ id. level_has group_ids id row.level) (db.groups context project_ids)
        || any (role_sees row) (db.memberships context project_ids)
  unfolding issue_security_where
  issue_security_where_lem = ground (
    arith,
    laws.selects-no_level row,
    laws.selects-reporter context.user_id row,
    laws.selects-assignee context.user_id row,
    laws.selects-level user_ids context.user_id row,
    laws.selects-level workspace_roles (workspace_role_name context.role) row,
    any-append (λ b. selects b row) (map group_branch (db.groups context project_ids))
        (map role_branch (db.memberships context project_ids)),
    any-map (λ b. selects b row) (λ id. level_has group_ids id row.level) group_branch
        (λ id. laws.selects-level group_ids id row) (db.groups context project_ids),
    any-map (λ b. selects b row) (role_sees row) role_branch
        (λ m. laws.selects-project_level m.project_id (project_role_name m.role) row)
        (db.memberships context project_ids),
  )

  module _ (actor : SecurityActor) (same_user : actor.user_id ≡ context.user_id)
      (same_role : actor.workspace_role ≡ context.role)
      (groups : (id : String) → In id actor.group_ids → In id (db.groups context project_ids))
      (role : (r : ProjectRole)
        → actor.project_role ≡ some r
        → (m : Membership) × In m (db.memberships context project_ids)
          × (m.project_id ≡ row.project_id)
          × (m.role ≡ r)) where
    group_lets_see :
        (g : SecurityGrants)
        → any (λ id. lists g.group_ids id) actor.group_ids ≡ true
        → any (λ id. lists g.group_ids id) (db.groups context project_ids) ≡ true
    group_lets_see g h =
        let (id, m, e) = any-In (λ id. lists g.group_ids id) actor.group_ids h in
        In-any (λ id. lists g.group_ids id) id (db.groups context project_ids) (groups id m) e

    role_lets_see :
        (g : SecurityGrants)
        → row.level ≡ some g
        → lists_role g.project_roles actor.project_role ≡ true
        → any (role_sees row) (db.memberships context project_ids) ≡ true
    role_lets_see g e h = elim (Option-cases actor.project_role) [
      | inl missing ↦ absurd (cc (rw missing at h))
      | inr (r, held) ↦
          let (m, listed, here, same) = role r held in
          In-any (role_sees row) m (db.memberships context project_ids) listed
            (ground (arith, ===_iff row.project_id m.project_id))
    ]

    -- Whoever matchesIssueSecurity admits (the recipients of a notification) can see the issue by
    -- the query, if the query's reads know the actor's groups and the role in the issue's project.
    pub recipients_see :
        matches_issue_security row.level actor row.people ≡ true
        → selected selects (issue_security_where db context project_ids) row ≡ true
    unfolding matches_issue_security
    recipients_see h = rw issue_security_where_lem (elim (Option-cases row.level) [
      | inl open_issue ↦ rw open_issue
      | inr (g, e) ↦ rw e (ground (arith, group_lets_see g, role_lets_see g e))
    ])
