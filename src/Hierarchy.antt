-- ===== src/Hierarchy.antt =====
-- src/lib/hierarchy.ts: levels, and moving an issue below another parent. The issues are those of
-- the actor's workspace; who may see an issue and edit in a project is a parameter.
pub mod Walk
pub mod Reparent
mod Tests
use Prim.Native.Char.{code}
use Prim.Native.String
use planeo.Prelude.{
  ℕ, zero, suc, String, ◌+◌, Bool, true, false, not, ◌&&◌, ◌||◌, Option, none, some, List, [], ◌∷◌,
  map, ◌≡◌, refl, Result, ok, err, ◌>>=◌, ◌>>◌, throw_if, if◌then◌else◌, ◌===◌, ◌!==◌, ◌==◌, ltb,
  leb, find, includes, length, any, all, filter, codes, units, trim,
}
use planeo.Prelude.Int.{ℤ, pos}
use planeo.Prelude.Json.{Json, Number, whole, as_string, get}

-- HierarchyError, by its message; `status` is below. `unfinished` is of the model alone: the walk's
-- fuel ran out, which it never does.
pub data HierarchyError : Type 0 where
  name_length color_format version_required not_found own_parent not_higher : HierarchyError
  would_cycle existing_cycle changed unfinished : HierarchyError

abbrev pub status : HierarchyError → ℕ
status name_length = 400
status color_format = 400
status version_required = 400
status not_found = 404
status _ = 409

pub record Level : Type 0 where
  pub name : String
  pub color : String

abbrev is_hex : ℕ → Bool
is_hex c = leb b'0' c && leb c b'9' || leb b'a' c && leb c b'f'

-- /^#[0-9a-f]{6}$/
abbrev is_color : List ℕ → Bool
is_color [] = false
is_color (c ∷ rest) = c == b'#' && (length rest == 6) && all is_hex rest

abbrev text_or_empty : Json → String
text_or_empty value = elim (as_string value) [ none ↦ "" | some s ↦ s ]

-- `to_lower` is JavaScript's `toLowerCase`.
pub validate_hierarchy_level :
    (String → String) → List (String × Json) → Result HierarchyError Level
validate_hierarchy_level to_lower input =
    let name = trim (text_or_empty (get "name" input)) in
    let color : String = elim (as_string (get "color" input)) [ none ↦ "" | some s ↦ to_lower s ] in
    do
      throw_if (name === "" || ltb 50 (units name)) name_length
      throw_if (not (is_color (codes color))) color_format
      ok (record { name = name; color = color })

pub record Issue : Type 0 where
  pub id : String
  pub project_id : String
  pub parent_id : Option String
  pub version : ℕ
  pub archived : Bool
  pub level_position : Option ℕ
  pub kind : String

-- An entry of the issue's activity and of the audit log: who, what, from which parent to which.
pub record Entry : Type 0 where
  pub actor_id : String
  pub action : String
  pub issue_id : String
  pub from_parent : Option String
  pub to_parent : Option String

pub record Store : Type 0 where
  pub issues : List Issue
  pub activities : List Entry
  pub audits : List Entry

-- `findFirst({ where: { id, workspaceId } })`
pub find_issue : List Issue → String → Option Issue
find_issue issues id = find (λ i. i.id === id) issues

-- The same with `archivedAt: null`.
pub find_active : List Issue → String → Option Issue
find_active issues id = find (λ i. i.id === id && not i.archived) issues

-- An id that is null or empty is false.
abbrev pub present : Option String → Option String
present none = none
present (some id) = if id === "" then none else some id

-- `next?.parentId ?? null`, as the loop's test reads it.
pub parent_of : List Issue → String → Option String
unfolding find_issue
parent_of issues id = elim (find_issue issues id) [ none ↦ none | some i ↦ present i.parent_id ]

abbrev pub rank : Issue → Option ℕ
rank issue = elim issue.level_position [
  | some position ↦ some position
  | none ↦ if issue.kind === "EPIC" then some 10000 else none
]

-- `childRank === null || parentRank === null || parentRank >= childRank`
abbrev pub not_below : Option ℕ → Option ℕ → Bool
not_below none parent_rank = true
not_below (some c) none = true
not_below (some c) (some p) = leb c p

pub data Walked : Type 0 where
  clear meets_child meets_itself out_of_fuel : Walked

-- The loop over the ancestors; `seen` is the set of ids that were passed.
pub walk : ℕ → List Issue → String → Option String → List String → Walked
walk zero issues child cursor seen = out_of_fuel
walk (suc fuel) issues child none seen = clear
walk (suc fuel) issues child (some id) seen =
    let rest = walk fuel issues child (parent_of issues id) (id ∷ seen) in
    if id === child then meets_child else if includes seen id then meets_itself else rest

-- One round for each issue, one for an id that no issue has, and one for the end.
abbrev pub enough : List Issue → ℕ
enough issues = length issues + 2

pub record Access : Type 0 where
  pub user_id : String
  pub can_view : String → Bool
  pub may_edit : String → Bool

pub record Move : Type 0 where
  pub issue_id : String
  pub parent_id : Option String
  pub version : Number

-- `Number.isInteger(version) && version >= 1`
abbrev pub positive : Number → Option ℕ
positive (whole (pos n)) = if leb 1 n then some n else none
positive _ = none

abbrev check_walk : Walked → Result HierarchyError (Unit {0})
check_walk clear = ok tt
check_walk meets_child = err would_cycle
check_walk meets_itself = err existing_cycle
check_walk out_of_fuel = err unfinished

-- The checks of a new parent.
pub check_parent : Access → List Issue → Issue → Issue → Result HierarchyError (Unit {0})
check_parent access issues child parent = do
  throw_if (parent.id === child.id) own_parent
  throw_if (not_below (rank child) (rank parent)) not_higher
  check_walk (walk (enough issues) issues child.id (present (some parent.id)) [])

abbrev pub option_id : Option Issue → Option String
option_id none = none
option_id (some i) = some i.id

abbrev same_parent : Option String → Option String → Bool
same_parent none none = true
same_parent (some a) (some b) = a === b
same_parent _ _ = false

-- The row that `updateMany` finds by id, version and parent.
abbrev pub current : Issue → ℕ → Issue → Bool
current child version i =
    i.id === child.id && (i.version == version) && same_parent i.parent_id child.parent_id

abbrev move_issue : Issue → ℕ → Option String → Issue → Issue
move_issue child version to i =
    if current child version i then record i { parent_id = to; version = i.version + 1 } else i

-- The transaction: the issue must still be as it was read.
pub commit : Access → Issue → ℕ → Option String → Store → Result HierarchyError Store
commit access child version to store =
    if any (current child version) store.issues
    then ok (record {
      issues = map (move_issue child version to) store.issues;
      activities =
          record {
            actor_id = access.user_id;
            action = "issue.reparented";
            issue_id = child.id;
            from_parent = child.parent_id;
            to_parent = to;
          }
          ∷ store.activities;
      audits =
          record {
            actor_id = access.user_id;
            action = "hierarchy.parent_changed";
            issue_id = child.id;
            from_parent = child.parent_id;
            to_parent = to;
          }
          ∷ store.audits;
    })
    else err changed

-- The reads and checks before the transaction: the child, and the parent if one is given.
pub plan_move : Access → List Issue → Move → Result HierarchyError (Issue × Option Issue × ℕ)
plan_move access issues input = elim (positive input.version) [
  | none ↦ err version_required
  | some version ↦ elim (find_active issues input.issue_id) [
    | none ↦ err not_found
    | some child ↦
        if not (access.can_view input.issue_id)
        then err not_found
        else elim (present input.parent_id) [
          | none ↦ do
            throw_if (not (access.may_edit child.project_id)) not_found
            ok (child, none, version)
          | some parent_id ↦ elim (find_active issues parent_id) [
            | none ↦ err not_found
            | some parent ↦ do
              throw_if (not (access.can_view parent_id)) not_found
              throw_if (not (access.may_edit child.project_id)) not_found
              throw_if (not (access.may_edit parent.project_id)) not_found
              check_parent access issues child parent
              ok (child, some parent, version)
          ]
        ]
  ]
]

-- `reparentIssue`: the checks run on what the database holds first, the transaction on what it
-- holds then.
pub reparent_issue : Access → List Issue → Move → Store → Result HierarchyError Store
reparent_issue access issues input store = do
  (child, parent, version) ← plan_move access issues input
  commit access child version (option_id parent) store
