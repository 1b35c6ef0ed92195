-- ===== src/Issues/Create.antt =====
-- GET and POST of src/app/api/issues/route.ts: the issues of a project are listed, and one is made.
pub mod Numbers
mod Tests
use planeo.Prelude.{
  ℕ, ◌+◌, ◌*◌, ◌-◌, String, Bool, true, false, not, ◌&&◌, ◌||◌, Option, none, some, List, [], ◌∷◌,
  ◌++◌, all, any, map, filter, find, length, codes, units, trim, leb, ltb, ◌===◌, ◌==◌, maybe,
  is_absent, if◌then◌else◌, Result, ok, err, throw_if, ◌>>=◌, ◌>>◌,
}
use Prim.Native.String
use planeo.Prelude.Json.{Json, as_object, as_string, get, is_undefined}
use planeo.Permissions.{
  PolicyContext, PolicyDb, issue_view, issue_create, require_project_permission,
}
use planeo.Permissions.Visibility.{Branch, IssueRow, SecurityDb, issue_security_where, selected}
use planeo.CustomFields.{World, Configuration, WriteError, validate_custom_field_writes}
use planeo.Identity.{User, Directory}
use planeo.Identity.ProjectMembers.{get_project_for_context, is_in_project}
use planeo.Issues.{
  Priority, Row, Activity, History, created, assigned, mentioned, Job, notify, created_webhook,
  created_automation, created_realtime, FieldRow, Store,
}
use planeo.Issues.Body.{Status, priority_of}
use planeo.Queues.{Project}

-- The database or the runtime throws `thrown`, which the handler passes on.
pub data CreateError : Type 0 where
  signed_out bad_summary project_missing bad_level thrown : CreateError
  refused_fields : WriteError → CreateError

pub record IssueType : Type 0 where
  pub id : String
  pub for_epics : Bool

-- What a project holds, the statuses and the types in the order of their positions.
pub record Setup : Type 0 where
  pub statuses : List Status
  pub types : List IssueType
  pub default_priority : Priority
  pub configurations : List Configuration
  pub world : World

-- `has_level` is for the levels of a workspace that are not archived, and `mentioned_users` for the
-- users whom a description mentions and who may see the project.
pub record CreateSite : Type 0 where
  pub projects : List Project
  pub setup : String → Setup
  pub policy : PolicyDb
  pub security : SecurityDb
  pub selects : Branch → IssueRow → Bool
  pub joined : Row → IssueRow
  pub has_level : String → String → Bool
  pub mentioned_users : Project → String → List String
  pub contains : String → String → Bool
  pub to_upper : String → String

-- A number that a project has given to an issue.
pub record Numbered : Type 0 where
  pub project_id : String
  pub issue_id : String
  pub number : ℕ

-- The tables, with the projects' counters; `parents` and `request_types` are the columns of an issue
-- that the list reads, by its id.
pub record Board : Type 0 where
  pub store : Store
  pub sequence : String → ℕ
  pub numbers : List Numbered
  pub parents : List (String × String)
  pub request_types : List (String × String)

-- What the body asks for, read before the transaction.
pub record NewIssue : Type 0 where
  pub title : String
  pub description : String
  pub status : Status
  pub issue_type : IssueType
  pub assignee_id : Option String
  pub level_id : Option String
  pub priority : Priority
  pub mentions : List String
  pub given_fields : Json

abbrev pub text_or : String → Json → String
text_or other value = maybe (as_string value) other (λ s. s)

abbrev pub new_title : Json → Result CreateError String
new_title value =
    maybe (as_string value) (err bad_summary)
      (λ s. throw_if (trim s === "" || ltb 200 (units (trim s))) bad_summary >> ok (trim s))

abbrev first_of : {A : Type 0} → List A → Result CreateError A
first_of [] = err thrown
first_of (a ∷ rest) = ok a

abbrev type_of : Setup → Json → Result CreateError IssueType
type_of setup value =
    maybe (as_string value) (first_of setup.types)
      (λ id. maybe (find (λ t. t.id === id) setup.types) (err thrown) ok)

-- A user of the project by the id, or by the first part of an address.
abbrev is_assignable : Directory → String → String → User → Bool
is_assignable directory project_id id u =
    (u.id === id || (u.email === String.◌++◌ id "@planeo.co"))
    && any (is_in_project project_id u.id) directory.project_members

abbrev assignee_for : Directory → String → Json → Option String
assignee_for directory project_id value = maybe (as_string value) none (λ id.
    maybe (find (is_assignable directory project_id id) directory.users) none (λ u. some u.id))

abbrev level_for : CreateSite → String → Json → Option String
level_for site workspace_id value =
    maybe (as_string value) none (λ id. if site.has_level workspace_id id then some id else none)

abbrev priority_for : CreateSite → Setup → Json → Priority
priority_for site setup value =
    maybe (as_string value) setup.default_priority
      (λ s. maybe (priority_of (site.to_upper s)) setup.default_priority (λ p. p))

abbrev is_digit_code : ℕ → Bool
is_digit_code c = leb b'0' c && leb c b'9'

abbrev decimal_value : ℕ → List ℕ → ℕ
decimal_value n [] = n
decimal_value n (c ∷ digits) = decimal_value (n * 10 + (c - b'0')) digits

abbrev is_letter_of : ℕ → ℕ → Bool
is_letter_of small c = c == small || c + 32 == small

-- /^WEB-(\d+)$/i, with the number.
abbrev web_number : List ℕ → Option ℕ
web_number (w ∷ e ∷ b ∷ d ∷ digit ∷ digits) =
    if is_letter_of b'w' w
      && is_letter_of b'e' e
      && is_letter_of b'b' b
      && (d == b'-')
      && all is_digit_code (digit ∷ digits)
    then some (decimal_value 0 (digit ∷ digits))
    else none
web_number _ = none

-- `issueSequence: { increment: 1 }`
abbrev pub bump : String → (String → ℕ) → String → ℕ
bump project_id sequence id = if id === project_id then sequence id + 1 else sequence id

module _ (site : CreateSite) (context : PolicyContext) (directory : Directory) where
  abbrev pub project_for : String → Option Project
  project_for key = get_project_for_context context site.to_upper directory site.projects key

  abbrev has_number : Board → String → ℕ → Bool
  has_number board id number = any (λ n. n.issue_id === id && (n.number == number)) board.numbers

  -- An empty text asks for nothing.
  abbrev is_searched : Board → Option String → Row → Bool
  is_searched board query row = maybe query true (λ q.
      q === ""
      || site.contains row.summary q
      || maybe (web_number (codes q)) false (has_number board row.id))

  abbrev is_of_type : Board → Option String → Row → Bool
  is_of_type board type_id row =
      maybe type_id true
        (λ t. t === "" || any (λ r. r.0 === row.id && (r.1 === t)) board.request_types)

  -- The `where` of the list.
  abbrev is_listed : Project → Board → Option String → Option String → Row → Bool
  is_listed p board query type_id row =
      row.workspace_id === p.workspace_id
      && (row.project_id === p.id)
      && not (any (λ link. link.0 === row.id) board.parents)
      && is_absent row.archived_at
      && selected site.selects (issue_security_where site.security context (p.id ∷ []))
          (site.joined row)
      && is_searched board query row
      && is_of_type board type_id row

  abbrev trimmed_param : Option String → Option String
  trimmed_param value = maybe value none (λ s. some (trim s))

  -- `GET`, for a user who is signed in; `order` is the database's.
  pub list_issues :
      (List Row → List Row)
      → Option String
      → Option String
      → Option String
      → Board
      → Result CreateError (List Row)
  list_issues order key query type_id board =
      maybe (project_for (maybe key "WEB" (λ k. k))) (err thrown) (λ p.
        if require_project_permission site.policy context p.id issue_view
        then ok (
            order (
              filter (is_listed p board (trimmed_param query) (trimmed_param type_id))
                (board.store).issues))
        else ok [])

  -- The reads and the tests of the body, for the project of the issue.
  abbrev pub read_request : Project → List (String × Json) → String → Result CreateError NewIssue
  read_request p body title =
      let setup = site.setup p.id in
      let description = maybe (as_string (get "description" body)) "" trim in
      let level = level_for site p.workspace_id (get "hierarchyLevelId" body) in
      first_of setup.statuses >>= λ status. type_of setup (get "issueTypeId" body) >>= λ issue_type.
      throw_if (not (any (λ u. u.id === context.user_id) directory.users)) thrown
      >> (throw_if
            (not (is_undefined (get "hierarchyLevelId" body))
              && (is_absent level || not issue_type.for_epics))
            bad_level
          >> ok (record {
            title = title;
            description = description;
            status = status;
            issue_type = issue_type;
            assignee_id = assignee_for directory p.id (get "assigneeId" body);
            level_id = level;
            priority = priority_for site setup (get "priority" body);
            mentions = site.mentioned_users p description;
            given_fields = get "customFields" body;
          }))

  abbrev pub new_row : Project → String → NewIssue → Row
  new_row p id r = record {
    id = id;
    workspace_id = p.workspace_id;
    project_id = p.id;
    issue_type_id = (r.issue_type).id;
    reporter_id = context.user_id;
    summary = r.title;
    description = some r.description;
    resolution = none;
    priority = r.priority;
    estimate = none;
    assignee_id = r.assignee_id;
    status_id = (r.status).id;
    due_date = none;
    completed_at = none;
    hierarchy_level_id = r.level_id;
    watchers = [];
    version = 1;
    archived_at = none;
  }

  abbrev new_values : String → List (String × Json) → List FieldRow
  new_values id values = map (λ v. record { field_id = v.0; issue_id = id; value = v.1 }) values

  abbrev jobs_for : String → NewIssue → List Job
  jobs_for id r =
      created_webhook id
      ∷ created_automation id
      ∷ created_realtime id
      ∷ (maybe r.assignee_id [] (λ user_id. notify id assigned (user_id ∷ []) ∷ [])
          ++ notify id mentioned r.mentions ∷ [])

  abbrev add_to_store : Project → String → NewIssue → List (String × Json) → Store → Store
  add_to_store p id r values store = record store {
    issues = new_row p id r ∷ store.issues;
    field_values = new_values id values ++ store.field_values;
    activities =
        record {
          issue_id = id;
          actor_id = context.user_id;
          action = "issue.created";
          changed = [];
          transition_id = none;
        }
        ∷ store.activities;
    histories =
        record { issue_id = id; event = created; status_id = (r.status).id; estimate = none }
        ∷ store.histories;
    jobs = store.jobs ++ jobs_for id r;
  }

  abbrev pub insert_issue : Project → String → NewIssue → List (String × Json) → Board → Board
  insert_issue p id r values board = record board {
    store = add_to_store p id r values board.store;
    sequence = bump p.id board.sequence;
    numbers =
        record { project_id = p.id; issue_id = id; number = bump p.id board.sequence p.id }
        ∷ board.numbers;
  }

  abbrev lift_write : {A : Type 0} → Result WriteError A → Result CreateError A
  lift_write (err fault) = err (refused_fields fault)
  lift_write (ok a) = ok a

  abbrev pub written_fields : Project → NewIssue → Result CreateError (List (String × Json))
  written_fields p r = lift_write (
      validate_custom_field_writes (site.setup p.id).world (site.setup p.id).configurations
        (r.issue_type).id r.given_fields false)

  -- The transaction; `id` is the new row's.
  abbrev pub commit_issue : Project → String → NewIssue → Board → Result CreateError (Board × Row)
  commit_issue p id r board =
      written_fields p r >>= λ values. ok (insert_issue p id r values board, new_row p id r)

  -- `POST`, for a user who is signed in.
  unfoldable pub create_issue : String → Json → Board → Result CreateError (Board × Row)
  create_issue id value board = maybe (as_object value) (err bad_summary) (λ body.
      new_title (get "title" body) >>= λ title.
      maybe (project_for (text_or "WEB" (get "projectKey" body))) (err thrown) (λ p.
        throw_if (not (require_project_permission site.policy context p.id issue_create))
          project_missing
        >> (read_request p body title >>= λ r. commit_issue p id r board)))

-- The two handlers.
pub get_issues :
    CreateSite
    → Option PolicyContext
    → Directory
    → (List Row → List Row)
    → Option String
    → Option String
    → Option String
    → Board
    → Result CreateError (List Row)
get_issues site none directory order key query type_id board = err signed_out
get_issues site (some context) directory order key query type_id board =
    list_issues site context directory order key query type_id board

pub post_issue :
    CreateSite
    → Option PolicyContext
    → Directory
    → String
    → Json
    → Board
    → Result CreateError (Board × Row)
post_issue site none directory id body board = err signed_out
post_issue site (some context) directory id body board =
    create_issue site context directory id body board
