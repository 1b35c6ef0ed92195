-- ===== src/Hierarchy/Tests.antt =====
-- Runs of the moves of src/lib/hierarchy.ts.
use planeo.Prelude.{
  ℕ, String, true, false, Option, none, some, List, [], ◌∷◌, ◌≡◌, ◌≢◌, refl, ok, ===_iff, arith,
  subst, sym, ◌∙◌,
}
use planeo.Prelude.Int.{pos}
use planeo.Prelude.Json.{whole}
use planeo.Chain.{Reach, here, step, Acyclic}
use planeo.Hierarchy.{
  Issue, Store, Access, Move, reparent_issue, plan_move, commit, check_parent, walk, parent_of,
  find_issue, find_active,
}
use planeo.Hierarchy.Reparent.{reparent_issue-Acyclic}

abbrev epic : String → Issue
epic id = record {
  id = id;
  project_id = "p";
  parent_id = none;
  version = 1;
  archived = false;
  level_position = some 1;
  kind = "EPIC";
}

abbrev story : Option String → ℕ → Issue
story parent version = record {
  id = "c";
  project_id = "p";
  parent_id = parent;
  version = version;
  archived = false;
  level_position = some 5;
  kind = "STORY";
}

abbrev store : Store
store = record {
  issues = epic "a" ∷ epic "b" ∷ story (some "a") 4 ∷ [];
  activities = [];
  audits = [];
}

abbrev access : Access
access = record { user_id = "u"; can_view = λ _. true; may_edit = λ _. true }

abbrev input : Move
input = record { issue_id = "c"; parent_id = some "b"; version = whole (pos 4) }

abbrev after : Store
after = record {
  issues = epic "a" ∷ epic "b" ∷ story (some "b") 5 ∷ [];
  activities =
      record {
        actor_id = "u";
        action = "issue.reparented";
        issue_id = "c";
        from_parent = some "a";
        to_parent = some "b";
      }
      ∷ [];
  audits =
      record {
        actor_id = "u";
        action = "hierarchy.parent_changed";
        issue_id = "c";
        from_parent = some "a";
        to_parent = some "b";
      }
      ∷ [];
}

moves : reparent_issue access store.issues input store ≡ ok after
unfolding reparent_issue plan_move commit check_parent walk parent_of find_issue find_active
moves = refl

only_parent : (x z : String) → parent_of store.issues x ≡ some z → (x ≡ "c") × (z ≡ "a")
unfolding parent_of find_issue
only_parent x z e = ground (arith, ===_iff "a" x, ===_iff "b" x, ===_iff "c" x)

abbrev root : String
root = "a"

names_differ : root ≢ "c"
names_differ e = absurd (ground (arith, ===_iff "a" "c"))

above_epic : (y : String) → Reach (parent_of store.issues) "a" y → y ≡ "a"
above_epic y here = refl
above_epic y (step {z} first rest) = absurd (names_differ (only_parent "a" z first).0)

store-Acyclic : Acyclic (parent_of store.issues)
store-Acyclic x z e r =
    let (child, parent) = only_parent x z e in
    names_differ
      (sym (above_epic x (subst (λ y. Reach (parent_of store.issues) y x) parent r)) ∙ child)

reparent_issue-Acyclic_example : Acyclic (parent_of after.issues)
reparent_issue-Acyclic_example =
    reparent_issue-Acyclic access input store after moves (refl, (refl, (refl, tt))) store-Acyclic

-- Two issues that are each other's parent, and a third below them.
abbrev tangled : List Issue
tangled =
    record (epic "a") { parent_id = some "b" }
    ∷ record (epic "b") { parent_id = some "a" }
    ∷ story (some "a") 1
    ∷ []
