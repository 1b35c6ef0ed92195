-- ===== src/Goals/Parents.antt =====
-- validateGoalParent of src/lib/goals.ts keeps the goals free of cycles.
use planeo.Prelude.{
  ℕ, suc, zero, String, true, false, Option, none, some, inl, inr, List, [], ◌∷◌, any, ◌===◌,
  ===_iff, includes, maybe, ok, ◌≡◌, refl, ap, sym, subst, arith, Bool-cases, Option-cases,
}
use planeo.Permissions.{PolicyContext}
use planeo.Chain.{Reach, here, step, Acyclic, moved-Acyclic}
use planeo.Goals.{Goal, find_goal, goal_where, cursor_of, climb, validate_goal_parent, set_parent}

-- The parent of a goal, as the loop's test reads it.
abbrev pub parent_of : List Goal → String → Option String
parent_of goals id = maybe (find_goal goals id) none (λ g. cursor_of g.parent_id)

climb-apart :
    (context : PolicyContext) (goals : List Goal) (rounds : ℕ) (seen : List String)
    (goal_id cursor : String)
    → climb context goals rounds seen (some cursor) ≡ ok tt
    → includes seen goal_id ≡ true
    → ¬ Reach (parent_of goals) cursor goal_id
unfolding climb
climb-apart context goals zero seen goal_id cursor e passed r = cc
climb-apart context goals (suc rounds) seen goal_id cursor e passed here = cc (rw passed at e)
climb-apart context goals (suc rounds) seen goal_id cursor e passed (step {z} first rest) =
    elim (Bool-cases (includes seen cursor)) [
      | inl again ↦ absurd (cc (rw again at e))
      | inr new ↦ elim (Option-cases (find_goal goals cursor)) [
        | inl missing ↦ absurd (cc (rw (new, missing) at e))
        | inr (g, found) ↦ elim (Bool-cases (goal_where context g)) [
          | inr hidden ↦ absurd (cc (rw (new, found, hidden) at e))
          | inl visible ↦
              let parent : cursor_of g.parent_id ≡ some z = rw found at first in
              let next : climb context goals rounds (cursor ∷ seen) (cursor_of g.parent_id)
                  ≡ ok tt =
                rw (new, found, visible) at e in
              let onward =
                subst (λ c. climb context goals rounds (cursor ∷ seen) c ≡ ok tt) parent next in
              climb-apart context goals rounds (cursor ∷ seen) goal_id z onward
                (ground (arith, passed)) rest
        ]
      ]
    ]

find_goal-set_parent_other :
    (id x : String) (p : Option String) (goals : List Goal)
    → (x === id) ≡ false
    → find_goal (set_parent id p goals) x ≡ find_goal goals x
find_goal-set_parent_other id x p [] other = refl
find_goal-set_parent_other id x p (g ∷ goals) other =
    let rest = find_goal-set_parent_other id x p goals other in
    elim (Bool-cases (g.id === id)) [
      | inl hit ↦
          let away : (g.id === x) ≡ false =
            ground (arith, hit, other, ===_iff g.id id, ===_iff g.id x, ===_iff x id) in
          rw (hit, away) rest
      | inr missed ↦ elim (Bool-cases (g.id === x)) [
        | inl there ↦ rw (missed, there) refl
        | inr away ↦ rw (missed, away) rest
      ]
    ]

parent_of-set_parent :
    (id : String) (p : Option String) (goals : List Goal)
    → any (λ g. g.id === id) goals ≡ true
    → parent_of (set_parent id p goals) id ≡ cursor_of p
parent_of-set_parent id p [] h = cc
parent_of-set_parent id p (g ∷ goals) h = elim (Bool-cases (g.id === id)) [
  | inl hit ↦ rw (hit, hit) refl
  | inr missed ↦ rw (missed, missed) (parent_of-set_parent id p goals (ground (arith, missed)))
]

-- Where the goals have no cycle and a goal's new parent is accepted, they have none with it.
pub validate_goal_parent-Acyclic :
    (context : PolicyContext) (goals : List Goal) (goal_id : String) (parent_id : Option String)
    → Acyclic (parent_of goals)
    → any (λ g. g.id === goal_id) goals ≡ true
    → validate_goal_parent context goals goal_id parent_id ≡ ok tt
    → Acyclic (parent_of (set_parent goal_id parent_id goals))
unfolding validate_goal_parent
validate_goal_parent-Acyclic context goals goal_id parent_id acyclic stored e =
    moved-Acyclic (parent_of goals) (parent_of (set_parent goal_id parent_id goals)) goal_id
      (cursor_of parent_id)
      (λ x. elim (Bool-cases (x === goal_id)) [
        | inl same ↦ rw same (
            subst (λ y. parent_of (set_parent goal_id parent_id goals) y ≡ cursor_of parent_id)
              (sym ((===_iff x goal_id).0 same))
              (parent_of-set_parent goal_id parent_id goals stored))
        | inr other ↦ rw other (
            ap (λ o. maybe o none (λ g. cursor_of g.parent_id))
              (find_goal-set_parent_other goal_id x parent_id goals other))
      ])
      acyclic
      (λ q given.
        let started = subst (λ c. climb context goals 100 (goal_id ∷ []) c ≡ ok tt) given e in
        climb-apart context goals 100 (goal_id ∷ []) goal_id q started
          (ground (arith, ===_iff goal_id goal_id)))
