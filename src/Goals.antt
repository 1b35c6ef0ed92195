-- ===== src/Goals.antt =====
-- src/lib/goals.ts: goals and their parents. A goal's id is the key of its table.
pub mod Parents
pub mod Progress
mod Tests
use planeo.Prelude.{
  ℕ, suc, zero, ◌+◌, ◌*◌, ◌/◌, String, Bool, true, false, not, ◌&&◌, ◌||◌, Option, none, some, List,
  [], ◌∷◌, map, length, take, filter, any, find, ◌===◌, ◌==◌, min, includes, is_absent, maybe,
  if◌then◌else◌, Result, ok, err, throw_if, ◌>>=◌, ◌>>◌, ◌≡◌,
}
use planeo.Permissions.{PolicyContext, WorkspaceRole}

pub data Visibility : Type 0 where
  workspace private : Visibility

pub data Method : Type 0 where
  manual work : Method

pub data LinkType : Type 0 where
  issue release project plan : LinkType

pub record Goal : Type 0 where
  pub id : String
  pub workspace_id : String
  pub owner_id : String
  pub visibility : Visibility
  pub progress_method : Method
  pub current_value : ℕ
  pub target_value : ℕ
  pub parent_id : Option String
  pub archived : Bool

pub record GoalLink : Type 0 where
  pub goal_id : String
  pub target_type : LinkType
  pub target_id : String

pub data GoalError : Type 0 where
  goal_not_found invalid_parent cycle too_deep not_owner unavailable : GoalError

abbrev is_public : Visibility → Bool
is_public workspace = true
is_public private = false

-- `goalWhere`
abbrev pub goal_where : PolicyContext → Goal → Bool
goal_where context g =
    g.workspace_id === context.workspace_id
    && not g.archived
    && (is_public g.visibility || g.owner_id === context.user_id)

abbrev pub find_goal : List Goal → String → Option Goal
find_goal goals id = find (λ g. g.id === id) goals

abbrev pub where_visible : PolicyContext → Goal → Option Goal
where_visible context g = if goal_where context g then some g else none

-- `visibleGoal`
pub visible_goal : PolicyContext → List Goal → String → Result GoalError Goal
visible_goal context goals id =
    maybe (maybe (find_goal goals id) none (where_visible context)) (err goal_not_found) ok

-- `manualGoalProgress`, of the exact quotient: `Math.round` takes the nearest number, and the
-- greater one of two.
pub manual_goal_progress : ℕ → ℕ → ℕ
manual_goal_progress current_value target_value =
    min 100 ((current_value * 200 + target_value) / (target_value * 2))

-- An id that is null or empty is false.
abbrev pub cursor_of : Option String → Option String
cursor_of none = none
cursor_of (some id) = if id === "" then none else some id

-- The loop of validateGoalParent, with the rounds that are left.
pub climb :
    PolicyContext → List Goal → ℕ → List String → Option String → Result GoalError (Unit {0})
climb context goals rounds seen none = ok tt
climb context goals zero seen (some cursor) = err too_deep
climb context goals (suc rounds) seen (some cursor) =
    let rest = λ (g : Goal). climb context goals rounds (cursor ∷ seen) (cursor_of g.parent_id) in
    if includes seen cursor
    then err cycle
    else maybe (maybe (find_goal goals cursor) none (where_visible context)) (err invalid_parent)
        rest

-- `validateGoalParent`
pub validate_goal_parent :
    PolicyContext → List Goal → String → Option String → Result GoalError (Unit {0})
validate_goal_parent context goals goal_id parent_id =
    climb context goals 100 (goal_id ∷ []) (cursor_of parent_id)

-- `data: { parentId }` of the goal with the id.
abbrev pub set_parent : String → Option String → List Goal → List Goal
set_parent id parent_id goals =
    map (λ g. if g.id === id then record g { parent_id = parent_id } else g) goals

-- The audit entry `goal.link_created`.
pub record LinkEvent : Type 0 where
  pub actor_id : String
  pub link : GoalLink

module _ (context : PolicyContext) (available : LinkType → String → Bool) (goals : List Goal) where
  -- `visibleGoalLinks`: those whose target `authorizedTarget` finds, of the first 500.
  pub visible_goal_links : List GoalLink → String → Result GoalError (List GoalLink)
  visible_goal_links links goal_id = visible_goal context goals goal_id >>= λ g. ok (
      filter (λ l. available l.target_type l.target_id)
        (take 500 (filter (λ l. l.goal_id === g.id) links)))

  abbrev may_manage : WorkspaceRole → Bool
  may_manage WorkspaceRole.owner = true
  may_manage WorkspaceRole.admin = true
  may_manage WorkspaceRole.member = false
  may_manage WorkspaceRole.viewer = false

  -- `addGoalLink`, of a target type that is one of GOAL_LINK_TYPES.
  pub add_goal_link :
      LinkType
      → String
      → String
      → List GoalLink
      → List LinkEvent
      → Result GoalError (List GoalLink × List LinkEvent)
  add_goal_link target_type target_id goal_id links events =
      let link : GoalLink = record {
        goal_id = goal_id;
        target_type = target_type;
        target_id = target_id;
      } in
      visible_goal context goals goal_id >>= λ g.
      throw_if (not (g.owner_id === context.user_id) && not (may_manage context.role)) not_owner
      >> (throw_if (not (available target_type target_id)) unavailable
          >> ok (link ∷ links, record { actor_id = context.user_id; link = link } ∷ events))

pub record Work : Type 0 where
  pub completed : Bool

pub record Summary : Type 0 where
  pub progress : ℕ
  pub visible_linked_work : ℕ
  pub completed_linked_work : ℕ

abbrev pub progress_by : Method → Goal → List Work → Summary
progress_by manual g issues = record {
  progress = manual_goal_progress g.current_value g.target_value;
  visible_linked_work = 0;
  completed_linked_work = 0;
}
progress_by work g issues =
    let total = length issues in
    let completed = length (filter (λ i. i.completed) issues) in
    record {
      progress = if total == 0 then 0 else (completed * 200 + total) / (total * 2);
      visible_linked_work = total;
      completed_linked_work = completed;
    }

-- The end of goalProgress: `issues` are the linked issues that the user may see.
pub goal_progress : Goal → List Work → Summary
goal_progress g issues = progress_by g.progress_method g issues
