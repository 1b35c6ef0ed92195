-- ===== src/Permissions/Decision.antt =====
-- When explainProjectPermission allows: the grants of the action meet those that the actor holds.
use Prim.Native.Char.{code}
use text.Mathlib.TextLemmas.{cons-append, cons-ne-nil}
use planeo.Prelude.{
  ℕ, String, Bool, true, false, Option, none, some, List, [], ◌∷◌, ◌++◌, ◌∙◌, map, includes,
  includes_iff, find, ◌≡◌, ◌≢◌, refl, ap, subst, ◌⊎◌, inl, inr, ◌↔◌, In, In-append, find_sound,
  find-none, Bool-cases, Option-cases, arith, leb, all, all-In, ◌||◌, ◌==◌, ===_iff, ◌===◌,
}
use planeo.Permissions.{
  ProjectPermission, project_admin, issue_view, issue_create, issue_edit, issue_security,
  sprint_manage, release_manage, export_run, automation_manage, integration_manage, WorkspaceRole,
  ProjectRole, PolicyContext, PolicyDb, Project, Principal, actor, user_grant, group_grant,
  workspace_grant, project_grant, candidates, truthy, project_grants, legacy,
  explain_project_permission, require_project_permission, role_candidates,
}

-- The grants that a principal holds, said without the list that the code builds.
abbrev pub Holds : PolicyContext → Principal → String → Type 0
Holds context principal g =
    (g ≡ user_grant context.user_id)
    ⊎ (g ≡ workspace_grant context.role)
    ⊎ ((r : ProjectRole) × (principal.project_role ≡ some r) × (g ≡ project_grant r))
    ⊎ ((id : String) × In id principal.group_ids × (g ≡ group_grant id))

In-map-group_grant :
    (g : String) (ids : List String)
    → In g (map group_grant ids) ↔ ((id : String) × In id ids × (g ≡ group_grant id))
In-map-group_grant g [] = (λ m. elim m [ ], λ h. elim (h.1) [ ])
In-map-group_grant g (id ∷ ids) = (
  λ m. elim m [
    | inl e ↦ (id, inl refl, e)
    | inr later ↦ let (j, k, e) = (In-map-group_grant g ids).0 later in (j, inr k, e)
  ],
  λ (j, m, e). elim m [
    | inl same ↦ inl (cc)
    | inr later ↦ inr ((In-map-group_grant g ids).1 (j, later, e))
  ],
)

In-role_candidates :
    (g : String) (o : Option ProjectRole)
    → In g (role_candidates o) ↔ ((r : ProjectRole) × (o ≡ some r) × (g ≡ project_grant r))
In-role_candidates g none = (λ m. elim m [ ], λ (r, e, _). cc)
In-role_candidates g (some r) = (
  λ m. elim m [ inl e ↦ (r, refl, e) | inr later ↦ elim later [ ] ],
  λ (q, e, same). let e' : q ≡ r = cc in inl (cc),
)

candidates_iff :
    (context : PolicyContext) (principal : Principal) (g : String)
    → In g (candidates context principal) ↔ Holds context principal g
unfolding candidates
candidates_iff context principal g = ground (
  arith,
  In-append g (role_candidates principal.project_role) (map group_grant principal.group_ids),
  In-role_candidates g principal.project_role,
  In-map-group_grant g principal.group_ids,
)

user-ne-empty : (id : String) → user_grant id ≢ ""
user-ne-empty id e = cons-ne-nil _ _ (rw cons-append at e)

group-ne-empty : (id : String) → group_grant id ≢ ""
group-ne-empty id e = cons-ne-nil _ _ (rw cons-append at e)

abbrev head_code : String → ℕ
head_code String.[] = 0
head_code (String.◌∷◌ c s) = code c

head_code-user : (id : String) → head_code (user_grant id) ≡ b'U'
head_code-user id = rw cons-append

head_code-group : (id : String) → head_code (group_grant id) ≡ b'G'
head_code-group id = rw cons-append

legacy_head : String → Bool
legacy_head g = head_code g == b'W' || head_code g == b'P'

all-legacy_head : (p : ProjectPermission) → all legacy_head (legacy p) ≡ true
unfolding legacy_head
all-legacy_head project_admin = refl
all-legacy_head _ = refl

-- No legacy grant names a user or a group.
legacy-user : (p : ProjectPermission) (id : String) → includes (legacy p) (user_grant id) ≡ false
unfolding legacy_head
legacy-user p id = elim (Bool-cases (includes (legacy p) (user_grant id))) [
  | inr e ↦ e
  | inl e ↦
      let found = all-In legacy_head _ (legacy p) (all-legacy_head p) ((includes_iff _ _).0 e) in
      absurd (ground (arith, head_code-user id))
]

legacy-group : (p : ProjectPermission) (id : String) → includes (legacy p) (group_grant id) ≡ false
unfolding legacy_head
legacy-group p id = elim (Bool-cases (includes (legacy p) (group_grant id))) [
  | inr e ↦ e
  | inl e ↦
      let found = all-In legacy_head _ (legacy p) (all-legacy_head p) ((includes_iff _ _).0 e) in
      absurd (ground (arith, head_code-group id))
]

find-groups :
    (p : ProjectPermission) (ids : List String)
    → find (λ value. includes (legacy p) value) (map group_grant ids) ≡ none
find-groups p [] = refl
find-groups p (id ∷ ids) = rw (legacy-group p id) (find-groups p ids)

workspace-ne-empty : (r : WorkspaceRole) → (workspace_grant r === "") ≡ false
workspace-ne-empty WorkspaceRole.owner = refl
workspace-ne-empty _ = refl

project-ne-empty : (r : ProjectRole) → (project_grant r === "") ≡ false
project-ne-empty ProjectRole.admin = refl
project-ne-empty _ = refl

-- No grant that an actor can hold is the empty text, so `Boolean(matchedGrant)` says whether one
-- was found.
Holds-ne-empty :
    (context : PolicyContext) (principal : Principal) (g : String)
    → Holds context principal g
    → (g === "") ≡ false
Holds-ne-empty context principal g h = elim h [
  | inl e ↦ ground (arith, ===_iff g "", user-ne-empty context.user_id)
  | inr (inl e) ↦ rw e (workspace-ne-empty context.role)
  | inr (inr (inl (r, _, e))) ↦ rw e (project-ne-empty r)
  | inr (inr (inr (id, _, e))) ↦ ground (arith, ===_iff g "", group-ne-empty id)
]

module _ (context : PolicyContext) (principal : Principal) (grants : List String) where
  truthy-find_iff :
      (truthy (find (λ value. includes grants value) (candidates context principal)) ≡ true)
      ↔ ((g : String) × In g grants × Holds context principal g)
  truthy-find_iff = (
    λ t.
        elim (Option-cases (find (λ value. includes grants value) (candidates context principal))) [
          | inl e ↦ absurd (cc (rw e at t))
          | inr (g, e) ↦
              let (granted, listed) = find_sound _ (candidates context principal) e in
              (g, (includes_iff grants g).0 granted, (candidates_iff context principal g).0 listed)
        ],
    λ (g, granted, held).
        elim (Option-cases (find (λ value. includes grants value) (candidates context principal))) [
          | inl e ↦
              let no_grant =
                find-none _ (candidates context principal) g e
                  ((candidates_iff context principal g).1 held) in
              absurd (cc (no_grant, (includes_iff grants g).1 granted))
          | inr (f, e) ↦
              let (_, listed) = find_sound _ (candidates context principal) e in
              rw e (
                rw (
                  Holds-ne-empty context principal f
                    ((candidates_iff context principal f).0 listed)))
        ],
  )

module _ (db : PolicyDb) (context : PolicyContext) (project_id : String) where
  require-found :
      (permission : ProjectPermission) (project : Project)
      → db.find_project project_id context.workspace_id ≡ some project
      → require_project_permission db context project_id permission
        ≡ truthy (
            find
              (λ value. includes (project_grants project permission) value)
              (candidates context (actor db project_id context.user_id)))
  unfolding require_project_permission explain_project_permission
  require-found permission project e =
      rw (e, require_project_permission, explain_project_permission)

  require-missing :
      (permission : ProjectPermission)
      → db.find_project project_id context.workspace_id ≡ none
      → require_project_permission db context project_id permission ≡ false
  unfolding require_project_permission explain_project_permission
  require-missing permission e = rw (e, require_project_permission, explain_project_permission)

-- An action on a project is allowed exactly when the project is found in the workspace and some
-- grant that its scheme version, or else the legacy table, lists for the action is one that the
-- actor holds: as the user, by the workspace role, by the role in the project or through a group.
pub require_project_permission_iff :
    (db : PolicyDb) (context : PolicyContext) (project_id : String) (permission : ProjectPermission)
    → (require_project_permission db context project_id permission ≡ true) ↔ (
        (project : Project) × (db.find_project project_id context.workspace_id ≡ some project)
        × ((g : String) × In g (project_grants project permission)
            × Holds context (actor db project_id context.user_id) g))
require_project_permission_iff db context project_id permission =
    elim (Option-cases (db.find_project project_id context.workspace_id)) [
      | inl e ↦ (
        λ t. absurd (cc (require-missing db context project_id permission e)),
        λ (project, found, _). absurd (cc),
      )
      | inr (project, e) ↦
          let (to, from) =
            truthy-find_iff context (actor db project_id context.user_id)
              (project_grants project permission) in
          (
            λ t. (
              project,
              e,
              to (rw (require-found db context project_id permission project e) at t),
            ),
            λ (other, found, held).
                let same : other ≡ project = cc in
                rw (require-found db context project_id permission project e) (
                  from (
                    subst
                      (λ p.
                        (g : String) × In g (project_grants p permission)
                        × Holds context (actor db project_id context.user_id) g)
                      same held)),
          )
    ]

-- The strength of a role: what the legacy table grants depends on nothing else.
abbrev pub workspace_rank : WorkspaceRole → ℕ
workspace_rank WorkspaceRole.viewer = 0
workspace_rank WorkspaceRole.member = 1
workspace_rank WorkspaceRole.admin = 2
workspace_rank WorkspaceRole.owner = 3

abbrev pub project_rank : Option ProjectRole → ℕ
project_rank none = 0
project_rank (some ProjectRole.viewer) = 1
project_rank (some ProjectRole.member) = 2
project_rank (some ProjectRole.admin) = 3

-- Least workspace rank, and least project rank, that each action asks for.
abbrev pub legacy_ranks : ProjectPermission → ℕ × ℕ
legacy_ranks project_admin = (2, 3)
legacy_ranks issue_view = (0, 1)
legacy_ranks issue_create = (1, 2)
legacy_ranks issue_edit = (1, 2)
legacy_ranks issue_security = (2, 3)
legacy_ranks sprint_manage = (1, 2)
legacy_ranks release_manage = (2, 3)
legacy_ranks export_run = (1, 1)
legacy_ranks automation_manage = (2, 4)
legacy_ranks integration_manage = (2, 4)

abbrev pub legacy_allows : ProjectPermission → WorkspaceRole → Option ProjectRole → Bool
legacy_allows p w r =
    leb (legacy_ranks p).0 (workspace_rank w) || leb (legacy_ranks p).1 (project_rank r)

legacy_workspace :
    (p : ProjectPermission) (w : WorkspaceRole)
    → includes (legacy p) (workspace_grant w) ≡ leb (legacy_ranks p).0 (workspace_rank w)
legacy_workspace project_admin WorkspaceRole.owner = refl
legacy_workspace _ WorkspaceRole.owner = refl
legacy_workspace project_admin WorkspaceRole.admin = refl
legacy_workspace _ WorkspaceRole.admin = refl
legacy_workspace project_admin WorkspaceRole.member = refl
legacy_workspace _ WorkspaceRole.member = refl
legacy_workspace project_admin WorkspaceRole.viewer = refl
legacy_workspace _ WorkspaceRole.viewer = refl

legacy_project :
    (p : ProjectPermission) (r : ProjectRole)
    → includes (legacy p) (project_grant r) ≡ leb (legacy_ranks p).1 (project_rank (some r))
legacy_project project_admin ProjectRole.admin = refl
legacy_project _ ProjectRole.admin = refl
legacy_project project_admin ProjectRole.member = refl
legacy_project _ ProjectRole.member = refl
legacy_project project_admin ProjectRole.viewer = refl
legacy_project _ ProjectRole.viewer = refl

no_project_role : (p : ProjectPermission) → leb (legacy_ranks p).1 0 ≡ false
no_project_role project_admin = refl
no_project_role _ = refl

legacy_roles :
    (p : ProjectPermission) (r : Option ProjectRole) (ids : List String)
    → truthy (find (λ value. includes (legacy p) value) (role_candidates r ++ map group_grant ids))
      ≡ leb (legacy_ranks p).1 (project_rank r)
legacy_roles p none ids = rw (find-groups p ids, no_project_role p)
legacy_roles p (some r) ids =
    rw (find-groups p ids) (ground (arith, legacy_project p r, project-ne-empty r))

legacy-find :
    (p : ProjectPermission) (w : WorkspaceRole) (r : Option ProjectRole) (ids : List String)
    → truthy (
        find
          (λ value. includes (legacy p) value)
          (workspace_grant w ∷ (role_candidates r ++ map group_grant ids)))
      ≡ legacy_allows p w r
legacy-find p w r ids =
    ground (arith, legacy_workspace p w, workspace-ne-empty w, legacy_roles p r ids)

project_grants-legacy :
    (project : Project) (permission : ProjectPermission)
    → project.permission_scheme_version ≡ none
    → project_grants project permission ≡ legacy permission
unfolding project_grants
project_grants-legacy project permission e = rw (e, project_grants)

-- In a project with no scheme version the decision depends on the two roles alone: each action has
-- a least workspace rank and a least project rank, and either of them is enough. Groups and the
-- user's own id give nothing.
pub legacy_decision :
    (db : PolicyDb) (context : PolicyContext) (project_id : String) (permission : ProjectPermission)
    (project : Project)
    → db.find_project project_id context.workspace_id ≡ some project
    → project.permission_scheme_version ≡ none
    → require_project_permission db context project_id permission
      ≡ legacy_allows permission context.role (db.member_role project_id context.user_id)
unfolding candidates
legacy_decision db context project_id permission project found unassigned =
    require-found db context project_id permission project found
    ∙ ap
        (λ grants. truthy (
          find (λ value. includes grants value)
            (candidates context (actor db project_id context.user_id))))
        (project_grants-legacy project permission unassigned)
    ∙ rw (legacy-user permission context.user_id) (
        legacy-find permission context.role (db.member_role project_id context.user_id)
          (db.member_groups project_id context.user_id))
