-- ===== src/Goals/Tests.antt =====
-- Runs of src/lib/goals.ts.
use planeo.Prelude.{
  String, false, none, some, inl, inr, List, [], ◌∷◌, ◌===◌, ◌≡◌, refl, ok, Bool-cases,
}
use planeo.Permissions.{PolicyContext, member}
use planeo.Chain.{Acyclic}
use planeo.Goals.{Goal, workspace, work, climb, validate_goal_parent}
use planeo.Goals.Parents.{parent_of}

abbrev goal : String → Goal
goal id = record {
  id = id;
  workspace_id = "acme";
  owner_id = "ada";
  visibility = workspace;
  progress_method = work;
  current_value = 0;
  target_value = 100;
  parent_id = none;
  archived = false;
}

abbrev goals : List Goal
goals = goal "growth" ∷ goal "sales" ∷ []

abbrev ada : PolicyContext
ada = record { role = member; user_id = "ada"; workspace_id = "acme" }

accepted : validate_goal_parent ada goals "sales" (some "growth") ≡ ok tt
unfolding validate_goal_parent climb
accepted = refl

no_parents : (x : String) → parent_of goals x ≡ none
no_parents x = elim (Bool-cases ("growth" === x)) [
  | inl first ↦ rw first refl
  | inr other ↦ elim (Bool-cases ("sales" === x)) [
    | inl second ↦ rw (other, second) refl
    | inr neither ↦ rw (other, neither) refl
  ]
]

goals-Acyclic : Acyclic (parent_of goals)
goals-Acyclic x z e r = let alone = no_parents x in cc
