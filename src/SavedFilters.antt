-- ===== src/SavedFilters.antt =====
-- src/lib/saved-filter.ts and the handlers of src/app/api/saved-filters: the searches that users
-- keep. A signed-in user is the context that getAuthContext gives.
pub mod Entries
pub mod Requests
mod Tests
use Prim.Native.Char.{code}
use planeo.Prelude.{
  ℕ, ◌+◌, ◌-◌, ◌/◌, ◌%◌, String, Bool, true, false, not, ◌&&◌, ◌||◌, Option, none, some, List, [],
  ◌∷◌, any, filter, find, map, includes, units, trim, ltb, ◌==◌, ◌===◌, maybe, is_absent,
  if◌then◌else◌, Result, ok, err, throw_if, ◌>>=◌, ◌>>◌,
}
use planeo.Prelude.Json.{
  Json, undefined, null, bool, num, str, arr, obj, as_object, get, field_of, keys, is_undefined,
}
use planeo.Permissions.{PolicyContext}
use planeo.Queues.{Project, is_accessible}
use planeo.AdvancedQuery.{CaseMaps}
use planeo.AdvancedQuery.Parser.{parse_advanced_query}

-- `allowed`
abbrev pub query_keys : List String
query_keys =
    "q" ∷ "query" ∷ "queryVersion" ∷ "project" ∷ "type" ∷ "status" ∷ "assignee" ∷ "reporter"
    ∷ "priority" ∷ "label" ∷ "sprint" ∷ "release" ∷ "requestType" ∷ "from" ∷ "to" ∷ "sort" ∷ []

-- `SavedQuery`: the keys that are set, with their values.
abbrev pub SavedQuery : Type 0
SavedQuery = List (String × String)

-- `query[key]`, empty where the key is not set: the source only asks whether there is something.
abbrev pub query_value : String → SavedQuery → String
query_value key [] = ""
query_value key ((k, v) ∷ q) = let rest = query_value key q in if k === key then v else rest

-- `query[key] = value`
abbrev pub set_value : String → String → SavedQuery → SavedQuery
set_value key value [] = (key, value) ∷ []
set_value key value ((k, v) ∷ q) =
    let rest = set_value key value q in if k === key then (k, value) ∷ q else (k, v) ∷ rest

-- The UTF-16 code units of a text.
abbrev pub code_units : String → List ℕ
code_units String.[] = []
code_units (String.◌∷◌ c s) =
    let rest = code_units s in
    if ltb (code c) 65536
    then code c ∷ rest
    else (55296 + (code c - 65536) / 1024) ∷ (56320 + (code c - 65536) % 1024) ∷ rest

-- One item of the loop of normalizeSavedQuery: none where the query is refused, and `some none`
-- where the key is left out.
abbrev pub read_item : Json → Option (Option String)
read_item undefined = some none
read_item (str s) =
    if s === "" then some none else if ltb 200 (units s) then none else some (some (trim s))
read_item _ = none

abbrev pub keep_item : String → Option String → SavedQuery → SavedQuery
keep_item key none q = q
keep_item key (some v) q = (key, v) ∷ q

abbrev pub read_items : List String → List (String × Json) → Option SavedQuery
read_items [] source = some []
read_items (key ∷ ks) source =
    maybe (read_item (get key source)) none
      (λ item. maybe (read_items ks source) none (λ rest. some (keep_item key item rest)))

-- The tests of `query` and `queryVersion`.
abbrev pub version_query : CaseMaps → SavedQuery → Option SavedQuery
version_query maps q =
    if query_value "query" q === ""
    then some q
    else if not (query_value "queryVersion" q === "") && not (query_value "queryVersion" q === "1")
    then none
    else elim (parse_advanced_query maps (code_units (query_value "query" q))) [
      | err _ ↦ none
      | ok _ ↦ some (set_value "queryVersion" "1" q)
    ]

-- `normalizeSavedQuery`
unfoldable pub normalize_saved_query : CaseMaps → Json → Option SavedQuery
normalize_saved_query maps value = maybe (as_object value) none (λ source.
    maybe (read_items query_keys source) none (λ q.
      if any (λ key. not (includes query_keys key)) (keys source)
      then none
      else version_query maps q))

-- A row that belongs to a project: a type of issue, a status, a sprint or a type of request.
pub record Placed : Type 0 where
  pub id : String
  pub project_id : String

-- `labels` are with their workspace; `members` are workspaces with a user of theirs.
pub record FilterDb : Type 0 where
  pub projects : List Project
  pub issue_types : List Placed
  pub statuses : List Placed
  pub sprints : List Placed
  pub request_types : List Placed
  pub labels : List (String × String)
  pub members : List (String × String)

pub record SavedFilter : Type 0 where
  pub id : String
  pub workspace_id : String
  pub owner_id : String
  pub name : String
  pub query : SavedQuery
  pub shared : Bool
  pub updated_at : ℕ

-- The runtime's case maps, and the database's order by owner and name.
pub record FilterMeans : Type 0 where
  pub maps : CaseMaps
  pub to_upper : String → String
  pub precedes : SavedFilter → SavedFilter → Bool

pub data FilterError : Type 0 where
  signed_out bad_filter bad_reference taken_name no_filter : FilterError
  bad_filter_name bad_query bad_sharing no_changes : FilterError

abbrev filter_priorities : List String
filter_priorities = "URGENT" ∷ "HIGH" ∷ "MEDIUM" ∷ "LOW" ∷ []

abbrev filter_sorts : List String
filter_sorts = "updated" ∷ "created" ∷ "priority" ∷ "due" ∷ "rank" ∷ []

module _ (means : FilterMeans) (db : FilterDb) (context : PolicyContext) where
  abbrev named_project : SavedQuery → Option Project
  named_project q =
      find (λ p. is_accessible context p && (p.key === means.to_upper (query_value "project" q)))
        db.projects

  -- A row of a project that the user may see.
  abbrev in_open_project : Placed → Bool
  in_open_project r = any (λ p. p.id === r.project_id && is_accessible context p) db.projects

  -- `projectScope`
  abbrev in_scope : Option Project → Placed → Bool
  in_scope none r = in_open_project r
  in_scope (some p) r = r.project_id === p.id

  -- `id ? count : 1`
  abbrev counts : (Placed → Bool) → String → List Placed → Bool
  counts scope id rows = id === "" || any (λ r. r.id === id && scope r) rows

  -- Of pairs with their workspace first.
  abbrev counts_here : String → List (String × String) → Bool
  counts_here id rows = id === "" || any (λ r. r.0 === context.workspace_id && (r.1 === id)) rows

  abbrev checks : Option Project → SavedQuery → Bool
  checks project q =
      counts (in_scope project) (query_value "type" q) db.issue_types
      && counts (in_scope project) (query_value "status" q) db.statuses
      && counts_here (query_value "assignee" q) db.members
      && counts_here (query_value "reporter" q) db.members
      && counts_here (query_value "label" q) db.labels
      && counts in_open_project (query_value "sprint" q) db.sprints
      && counts in_open_project (query_value "requestType" q) db.request_types
      && (query_value "priority" q === ""
          || includes filter_priorities (means.to_upper (query_value "priority" q)))
      && (query_value "sort" q === "" || includes filter_sorts (query_value "sort" q))

  -- `validateSavedQuery`
  unfoldable pub validate_saved_query : SavedQuery → Bool
  validate_saved_query q =
      if query_value "project" q === ""
      then checks none q
      else maybe (named_project q) false (λ p. checks (some p) q)
