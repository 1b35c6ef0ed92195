-- ===== src/Queues.antt =====
-- src/lib/service-queues.ts: the queues of a service project, what a queue selects, the snapshots of
-- it that an agent takes, and the action that is applied to rows of a snapshot.
pub mod Snapshots
pub mod Actions
pub mod Tests
use planeo.Prelude.{
  ℕ, ◌+◌, String, Bool, true, false, not, ◌&&◌, ◌||◌, Option, none, some, List, [], ◌∷◌, all, any,
  map, filter, find, length, includes, codes, units, unique, ◌===◌, ◌!==◌, ◌==◌, ltb, leb, maybe,
  is_absent, if◌then◌else◌, Result, ok, err, throw_if, ◌>>=◌, ◌>>◌,
}
use planeo.Prelude.Json.{
  Json, null, str, arr, Fields, end, Items, nil, cons, obj, as_object, as_array, strings, get, keys,
  or_else,
}
use planeo.Permissions.{
  WorkspaceRole, ProjectRole, PolicyContext, PolicyDb, ProjectPermission, issue_view, issue_edit,
  require_project_permission,
}
use planeo.Permissions.Visibility.{Branch, IssueRow, SecurityDb, issue_security_where, selected}
use planeo.Issues.{Row, Priority, urgent, high, medium, low}

pub data QueueError : Type 0 where
  no_definition unsupported_setting bad_filters bad_filter_value bad_date dates_crossed : QueueError
  bad_columns bad_ordering queue_not_found unavailable_value : QueueError
  too_many_snapshots too_many_requests snapshot_expired data_changed : QueueError

-- `direction` is the value itself, which need not be a text.
pub record QueueDefinition : Type 0 where
  pub filters : List (String × String)
  pub columns : List String
  pub grouping : String
  pub sort : String
  pub direction : Json

-- QUEUE_COLUMNS
abbrev pub queue_columns : List String
queue_columns =
    "summary" ∷ "status" ∷ "priority" ∷ "assignee" ∷ "requestType" ∷ "organization" ∷ "createdAt"
    ∷ "updatedAt" ∷ "slaState" ∷ "slaGoal" ∷ "slaRemaining" ∷ "customerResponse" ∷ []

-- FILTERS
abbrev filter_names : List String
filter_names =
    "status" ∷ "requestType" ∷ "priority" ∷ "assignee" ∷ "organization" ∷ "label" ∷ "slaState"
    ∷ "from" ∷ "to" ∷ []

-- SLA_STATES
abbrev sla_states : List String
sla_states = "NONE" ∷ "RUNNING" ∷ "PAUSED" ∷ "AT_RISK" ∷ "BREACHED" ∷ "MET" ∷ []

abbrev pub priorities : List String
priorities = "URGENT" ∷ "HIGH" ∷ "MEDIUM" ∷ "LOW" ∷ []

abbrev default_columns : Json
default_columns = arr (
    cons (str "summary") (
      cons (str "status")
        (cons (str "priority") (cons (str "assignee") (cons (str "slaState") nil)))))

-- The runtime's `String(value)`, and `Date.parse` of a text with the day of `toISOString`.
pub record QueueRuntime : Type 0 where
  pub to_text : Json → String
  pub parse_date : String → Option (ℕ × String)

abbrev pub filter_value : String → List (String × String) → Option String
filter_value key [] = none
filter_value key ((k, v) ∷ entries) = if k === key then some v else filter_value key entries

-- `!value || list.includes(value)`, of a value that is not empty.
abbrev is_given_of : List String → Option String → Bool
is_given_of texts value = maybe value true (includes texts)

abbrev read_filter : String × Json → Option (String × String)
read_filter (key, str s) =
    if includes filter_names key && leb (units s) 100 then some (key, s) else none
read_filter _ = none

abbrev read_filters : List (String × Json) → Result QueueError (List (String × String))
read_filters [] = ok []
read_filters (entry ∷ entries) =
    maybe (read_filter entry) (err bad_filters)
      (λ filtered. read_filters entries >>= λ rest. ok (filtered ∷ rest))

-- `a > b` on texts.
abbrev exceeds : List ℕ → List ℕ → Bool
exceeds (a ∷ r) (b ∷ s) = ltb b a || a == b && exceeds r s
exceeds [] s = false
exceeds (a ∷ r) [] = true

abbrev days_crossed : Option String → Option String → Bool
days_crossed (some from) (some to) = exceeds (codes from) (codes to)
days_crossed _ _ = false

abbrev is_decimal : ℕ → Bool
is_decimal c = leb b'0' c && leb c b'9'

-- /^\d{4}-\d{2}-\d{2}$/
abbrev is_day_text : List ℕ → Bool
is_day_text (a ∷ b ∷ c ∷ d ∷ e ∷ f ∷ g ∷ h ∷ i ∷ j ∷ []) =
    all is_decimal (a ∷ b ∷ c ∷ d ∷ f ∷ g ∷ i ∷ j ∷ []) && (e == b'-') && (h == b'-')
is_day_text _ = false

abbrev is_column : String → Bool
is_column key = includes queue_columns key

abbrev check_columns : List Json → Result QueueError (List String)
check_columns items = maybe (strings items) (err bad_columns) (λ texts.
    throw_if
      (length texts == 0
        || ltb (length queue_columns) (length texts)
        || not (length (unique texts) == length texts)
        || not (all is_column texts))
      bad_columns
    >> ok texts)

abbrev read_columns : Json → Result QueueError (List String)
read_columns value = maybe (as_array value) (err bad_columns) check_columns

abbrev groupings : List String
groupings =
    "none" ∷ "status" ∷ "priority" ∷ "assignee" ∷ "requestType" ∷ "organization" ∷ "slaState" ∷ []

abbrev sorts : List String
sorts = "createdAt" ∷ "updatedAt" ∷ "priority" ∷ "summary" ∷ []

module _ (runtime : QueueRuntime) where
  abbrev pub is_real_day : String → Bool
  is_real_day s =
      is_day_text (codes s) && maybe (runtime.parse_date s) false (λ parsed. parsed.1 === s)

  abbrev is_good_day : Option String → Bool
  is_good_day value = maybe value true is_real_day

  -- The filters without those that are empty, checked.
  abbrev pub check_filters : List (String × String) → Result QueueError (List (String × String))
  check_filters given =
      let filters = filter (λ entry. entry.1 !== "") given in
      throw_if
        (not (is_given_of priorities (filter_value "priority" filters))
          || not (is_given_of sla_states (filter_value "slaState" filters)))
        bad_filter_value
      >> (throw_if
            (not (is_good_day (filter_value "from" filters))
              || not (is_good_day (filter_value "to" filters)))
            bad_date
          >> (throw_if (days_crossed (filter_value "from" filters) (filter_value "to" filters))
                dates_crossed
              >> ok filters))

  abbrev pub read_ordering :
      List (String × Json)
      → List (String × String)
      → List String
      → Result QueueError QueueDefinition
  read_ordering input filters columns =
      let grouping = runtime.to_text (or_else (get "grouping" input) (str "none")) in
      let sort = runtime.to_text (or_else (get "sort" input) (str "createdAt")) in
      let direction = or_else (get "direction" input) (str "asc") in
      throw_if
        (not (includes groupings grouping)
          || not (includes sorts sort)
          || not (includes ("asc" ∷ "desc" ∷ []) (runtime.to_text direction)))
        bad_ordering
      >> ok (record {
        filters = filters;
        columns = columns;
        grouping = grouping;
        sort = sort;
        direction = direction;
      })

  abbrev is_setting : String → Bool
  is_setting key = includes ("filters" ∷ "columns" ∷ "grouping" ∷ "sort" ∷ "direction" ∷ []) key

  -- `parseQueueDefinition`
  unfoldable pub parse_queue_definition : Json → Result QueueError QueueDefinition
  parse_queue_definition value = maybe (as_object value) (err no_definition) (λ input.
      throw_if (not (all is_setting (keys input))) unsupported_setting
      >> (maybe (as_object (or_else (get "filters" input) (obj end))) (err bad_filters) read_filters
          >>= λ given. check_filters given >>= λ filters.
              read_columns (or_else (get "columns" input) default_columns) >>= λ columns.
              read_ordering input filters columns))

pub data Sharing : Type 0 where
  team personal : Sharing

pub record Queue : Type 0 where
  pub id : String
  pub project_id : String
  pub visibility : Sharing
  pub owner_id : String
  pub definition : Json
  pub version : ℕ

-- A project of the database, and whether it is archived and public and a service project.
pub record Project : Type 0 where
  pub id : String
  pub key : String
  pub workspace_id : String
  pub archived : Bool
  pub public_to_all : Bool
  pub service : Bool
  pub members : List (String × ProjectRole)

-- An issue with what the queues read of its service request, if it is one; `customer_comment` is the
-- time of the newest comment of a customer.
pub record ServiceRequest : Type 0 where
  pub id : String
  pub workspace_id : String
  pub project_id : String
  pub request_type_id : String
  pub organization_id : Option String
  pub sla_state : String
  pub request_type_name : String
  pub organization_name : Option String
  pub customer_comment : Option ℕ

pub record QueueIssue : Type 0 where
  pub row : Row
  pub number : ℕ
  pub status_name : String
  pub assignee_name : Option String
  pub created_at : ℕ
  pub updated_at : ℕ
  pub label_ids : List String
  pub request : Option ServiceRequest

-- The database's reads: the rows of a filter count as `unavailable_value` where the project lacks them.
pub record Db : Type 0 where
  pub projects : List Project
  pub policy : PolicyDb
  pub security : SecurityDb
  pub selects : Branch → IssueRow → Bool
  pub joined_row : Row → IssueRow
  pub has_status : String → String → Bool
  pub has_request_type : String → String → Bool
  pub has_member : String → String → Bool
  pub has_organization : String → String → Bool
  pub is_label : String → String → Bool
  pub to_upper : String → String

abbrev views_only : WorkspaceRole → Bool
views_only WorkspaceRole.viewer = true
views_only _ = false

abbrev is_project_viewer : ProjectRole → Bool
is_project_viewer ProjectRole.viewer = true
is_project_viewer _ = false

abbrev is_workspace_admin : WorkspaceRole → Bool
is_workspace_admin WorkspaceRole.owner = true
is_workspace_admin WorkspaceRole.admin = true
is_workspace_admin _ = false

-- `visibleQueues`
abbrev pub is_visible_queue : String → Queue → Bool
is_visible_queue user_id q = elim q.visibility [ team ↦ true | personal ↦ q.owner_id === user_id ]

module _ (context : PolicyContext) where
  abbrev pub own_role : Project → Option ProjectRole
  own_role p = maybe (find (λ m. m.0 === context.user_id) p.members) none (λ m. some m.1)

  -- `accessibleProjectWhere`
  abbrev pub is_accessible : Project → Bool
  is_accessible p =
      p.workspace_id === context.workspace_id
      && not p.archived
      && (is_workspace_admin context.role || p.public_to_all || not (is_absent (own_role p)))

module _ (db : Db) (context : PolicyContext) where
  abbrev is_keyed : String → Project → Bool
  is_keyed key p = is_accessible context p && (p.key === db.to_upper key) && p.service

  abbrev needed : Bool → ProjectPermission
  needed edit = if edit then issue_edit else issue_view

  abbrev admits : Bool → Project → Bool
  admits edit p =
      not (views_only context.role)
      && not (maybe (own_role context p) false is_project_viewer)
      && require_project_permission db.policy context p.id (needed edit)

  -- `queueProject`
  unfoldable pub queue_project : String → Bool → Result QueueError Project
  queue_project key edit =
      maybe (find (is_keyed key) db.projects) (err queue_not_found)
        (λ p. throw_if (not (admits edit p)) queue_not_found >> ok p)

  abbrev pub is_secure : String → Row → Bool
  is_secure project_id row =
      selected db.selects (issue_security_where db.security context (project_id ∷ []))
        (db.joined_row row)

  abbrev pub is_open_row : String → Row → Bool
  is_open_row project_id row =
      row.workspace_id === context.workspace_id
      && (row.project_id === project_id)
      && is_absent row.archived_at
      && is_secure project_id row

  abbrev has_open_label : String → List QueueIssue → String → Bool
  has_open_label project_id issues id =
      db.is_label context.workspace_id id
      && any
          (λ i.
            includes i.label_ids id
            && (i.row.project_id === project_id)
            && is_absent i.row.archived_at
            && is_secure project_id i.row)
          issues

  -- `checks`: each value of a filter is one of the project.
  abbrev are_available : String → List QueueIssue → List (String × String) → Bool
  are_available project_id issues f =
      maybe (filter_value "status" f) true (db.has_status project_id)
      && maybe (filter_value "requestType" f) true (db.has_request_type project_id)
      && maybe (filter_value "assignee" f) true
          (λ id. id === "unassigned" || db.has_member project_id id)
      && maybe (filter_value "organization" f) true (db.has_organization project_id)
      && maybe (filter_value "label" f) true (has_open_label project_id issues)

  abbrev pub priority_text : Priority → String
  priority_text urgent = "URGENT"
  priority_text high = "HIGH"
  priority_text medium = "MEDIUM"
  priority_text low = "LOW"

  abbrev is_assigned : Row → String → Bool
  is_assigned row id =
      if id === "unassigned"
      then is_absent row.assignee_id
      else maybe row.assignee_id false (λ user_id. user_id === id)

  abbrev is_request : String → List (String × String) → ServiceRequest → Bool
  is_request project_id f r =
      r.workspace_id === context.workspace_id
      && (r.project_id === project_id)
      && maybe (filter_value "requestType" f) true (λ id. r.request_type_id === id)
      && maybe (filter_value "organization" f) true
          (λ id. maybe r.organization_id false (λ o. o === id))
      && maybe (filter_value "slaState" f) true (λ state. r.sla_state === state)

  module _ (runtime : QueueRuntime) where
    abbrev moment : String → ℕ
    moment s = maybe (runtime.parse_date s) 0 (λ parsed. parsed.0)

    -- The clause that `queueFilter` returns, on an issue.
    unfoldable pub matches_queue : String → List (String × String) → QueueIssue → Bool
    matches_queue project_id f i =
        is_open_row project_id i.row
        && maybe (filter_value "status" f) true (λ id. i.row.status_id === id)
        && maybe (filter_value "priority" f) true (λ p. priority_text i.row.priority === p)
        && maybe (filter_value "assignee" f) true (is_assigned i.row)
        && maybe (filter_value "label" f) true (includes i.label_ids)
        && maybe (filter_value "from" f) true (λ day. leb (moment day) i.created_at)
        && maybe (filter_value "to" f) true (λ day. ltb i.created_at (moment day + 86400000))
        && maybe i.request false (is_request project_id f)

    -- `queueFilter`
    unfoldable pub queue_filter :
        String → QueueDefinition → List QueueIssue → Result QueueError (QueueIssue → Bool)
    queue_filter project_id d issues =
        throw_if (not (are_available project_id issues d.filters)) unavailable_value
        >> ok (matches_queue project_id d.filters)
