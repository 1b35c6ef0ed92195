-- ===== src/Hierarchy/Reparent.antt =====
-- What reparentIssue changes, and that it never closes a cycle of parents.
use planeo.Prelude.{
  ℕ, String, true, false, Option, none, some, inl, inr, List, [], ◌∷◌, map, ◌≡◌, refl, ◌===◌,
  ===_iff, includes, any, Bool-cases, Option-cases, arith, ok, ◌⊎◌, Distinct, if◌then◌else◌,
  >>=-eq-ok,
}
use planeo.Chain.{Reach, Acyclic, moved-Acyclic}
use planeo.Hierarchy.{
  Issue, Entry, find_active, parent_of, enough, Access, Move, Store, positive, present,
  check_parent, current, move_issue, commit, plan_move, reparent_issue, option_id,
}
use planeo.Hierarchy.Walk.{walk_clear}

-- What the checks before the transaction have established.
pub record Planned (access : Access) (issues : List Issue) (input : Move) (child : Issue)
    (parent : Option Issue) (version : ℕ) : Type 0 where
  pub version_given : positive input.version ≡ some version
  pub child_found : find_active issues input.issue_id ≡ some child
  pub child_seen : access.can_view input.issue_id ≡ true
  pub child_edited : access.may_edit child.project_id ≡ true
  pub parent_checked :
      ((parent ≡ none) × (present input.parent_id ≡ none))
      ⊎ ((id : String) × (p : Issue) × (parent ≡ some p)
          × (present input.parent_id ≡ some id)
          × (find_active issues id ≡ some p)
          × (access.can_view id ≡ true)
          × (access.may_edit p.project_id ≡ true)
          × (check_parent access issues child p ≡ ok tt))

plan_move-Planned :
    (access : Access) (issues : List Issue) (input : Move) {child : Issue} {parent : Option Issue}
    {version : ℕ}
    → plan_move access issues input ≡ ok (child, parent, version)
    → Planned access issues input child parent version
unfolding plan_move
plan_move-Planned access issues input e = elim (Option-cases (present input.parent_id)) [
  | inl cleared ↦ record {
    version_given = ground arith;
    child_found = ground arith;
    child_seen = ground arith;
    child_edited = ground arith;
    parent_checked = inl (ground arith, cleared);
  }
  | inr (id, given) ↦ elim (Option-cases (find_active issues id)) [
    | inl missing ↦ absurd (ground arith)
    | inr (p, found) ↦ record {
      version_given = ground arith;
      child_found = ground arith;
      child_seen = ground arith;
      child_edited = ground arith;
      parent_checked =
          inr (id, p, ground arith, given, found, ground arith, ground arith, ground arith);
    }
  ]
]

-- The stored ids.
abbrev pub ids : List Issue → List String
ids issues = map (λ i. i.id) issues

module _ (child : Issue) (version : ℕ) (to : Option String) where
  abbrev moved : Issue → Issue
  moved = move_issue child version to

  parent_of-map_other :
      (issues : List Issue) (x : String)
      → includes (ids issues) child.id ≡ false
      → parent_of (map moved issues) x ≡ parent_of issues x
  unfolding parent_of
  parent_of-map_other [] x h = refl
  parent_of-map_other (i ∷ issues) x h = ground (arith, parent_of-map_other issues x)

  current-In :
      (issues : List Issue)
      → any (current child version) issues ≡ true
      → includes (ids issues) child.id ≡ true
  current-In [] h = cc
  current-In (i ∷ issues) h = ground (arith, current-In issues)

  -- The transaction gives the child its new parent, and leaves every other issue's parent alone.
  parent_of-map :
      (issues : List Issue) (x : String)
      → Distinct (ids issues)
      → any (current child version) issues ≡ true
      → parent_of (map moved issues) x ≡ (if x === child.id then present to else parent_of issues x)
  unfolding parent_of
  parent_of-map [] x d h = cc
  parent_of-map (i ∷ issues) x d h = elim (Bool-cases (current child version i)) [
    | inl this ↦ ground (
      arith,
      ===_iff i.id x,
      ===_iff x child.id,
      ===_iff i.id child.id,
      parent_of-map_other issues x,
    )
    | inr other ↦ ground (
      arith,
      ===_iff i.id x,
      ===_iff x child.id,
      ===_iff i.id child.id,
      current-In issues,
      parent_of-map issues x,
    )
  ]

-- The entry that records a move.
abbrev pub entry : String → String → Issue → Option String → Entry
entry actor_id action child to = record {
  actor_id = actor_id;
  action = action;
  issue_id = child.id;
  from_parent = child.parent_id;
  to_parent = to;
}

-- The child, the checked parent and what the transaction makes of the store.
pub record Moved (access : Access) (input : Move) (before after : Store) : Type 0 where
  pub child : Issue
  pub parent : Option Issue
  pub version : ℕ
  pub planned : Planned access before.issues input child parent version
  pub unchanged_since : any (current child version) before.issues ≡ true
  pub issues : after.issues ≡ map (moved child version (option_id parent)) before.issues
  pub activity :
      after.activities
      ≡ entry access.user_id "issue.reparented" child (option_id parent) ∷ before.activities
  pub audit :
      after.audits
      ≡ entry access.user_id "hierarchy.parent_changed" child (option_id parent) ∷ before.audits

-- A move that succeeds has passed every check against the rows that were read; the child's row is
-- as it was read, and it alone changes: it gets the checked parent, or none where none was given,
-- and the next version; and one entry that tells both parents goes to the activity and to the audit.
pub reparent_issue-Moved :
    (access : Access) (input : Move) (store after : Store)
    → reparent_issue access store.issues input store ≡ ok after
    → Moved access input store after
unfolding reparent_issue commit
reparent_issue-Moved access input store after e =
    let (planned, p, c) = >>=-eq-ok (plan_move access store.issues input) _ e in
    record {
      child = planned.0;
      parent = planned.1;
      version = planned.2;
      planned = plan_move-Planned access store.issues input p;
      unchanged_since = ground arith;
      issues = ground arith;
      activity = ground arith;
      audit = ground arith;
    }

check_parent-clear :
    (access : Access) (issues : List Issue) (child parent : Issue)
    → check_parent access issues child parent ≡ ok tt
    → (q : String) → present (some parent.id) ≡ some q
    → ¬ Reach (parent_of issues) q child.id
unfolding check_parent
check_parent-clear access issues child parent e q given =
    walk_clear (enough issues) issues child.id q [] (ground arith)

-- If no issue is its own ancestor, then none is after a move whose checks and transaction see the
-- same issues, with ids that are distinct.
pub reparent_issue-Acyclic :
    (access : Access) (input : Move) (store after : Store)
    → reparent_issue access store.issues input store ≡ ok after
    → Distinct (ids store.issues)
    → Acyclic (parent_of store.issues)
    → Acyclic (parent_of after.issues)
reparent_issue-Acyclic access input store after e distinct acyclic =
    let m = reparent_issue-Moved access input store after e in
    rw m.issues (
      moved-Acyclic (parent_of store.issues) _ m.child.id (present (option_id m.parent))
        (λ x.
          parent_of-map m.child m.version (option_id m.parent) store.issues x distinct
            m.unchanged_since)
        acyclic
        (λ q given. elim m.planned.parent_checked [
          | inl (absent, _) ↦ absurd (cc (rw absent at given))
          | inr (id, p, chosen, _, _, _, _, checked) ↦
              check_parent-clear access store.issues m.child p checked q (rw chosen at given)
        ]))
