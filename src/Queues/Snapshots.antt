-- ===== src/Queues/Snapshots.antt =====
-- createQueueSnapshot, readQueueSnapshot and queueMetrics of src/lib/service-queues.ts.
pub mod Fresh
use planeo.Prelude.{
  ℕ, ◌+◌, ◌-◌, ◌*◌, ◌/◌, String, Bool, true, false, not, ◌&&◌, ◌||◌, Option, none, some, List, [],
  ◌∷◌, any, map, filter, find, length, includes, take, ◌===◌, ◌==◌, ltb, leb, maybe, is_absent,
  if◌then◌else◌, Result, ok, err, throw_if, ◌>>=◌, ◌>>◌,
}
use planeo.Prelude.Json.{Json}
use planeo.Permissions.{PolicyContext}
use planeo.Issues.{Row, Priority}
use planeo.Queues.{
  QueueError, queue_not_found, too_many_snapshots, too_many_requests, snapshot_expired,
  data_changed, QueueDefinition, QueueRuntime, Queue, Project, ServiceRequest, QueueIssue, Db,
  is_visible_queue, queue_project, queue_filter, is_open_row, parse_queue_definition,
}

-- The texts of `slaGoal` and `slaRemaining` are left as the lists that are joined_row, and times as
-- numbers.
pub record QueueRow : Type 0 where
  pub id : String
  pub request_id : String
  pub version : ℕ
  pub summary : String
  pub number : ℕ
  pub status : String
  pub status_id : String
  pub priority : Priority
  pub assignee : String
  pub assignee_id : Option String
  pub request_type : String
  pub organization : String
  pub created_at : ℕ
  pub updated_at : ℕ
  pub sla_state : String
  pub sla_goal : List String
  pub sla_remaining : List (String × ℕ)
  pub customer_response : Option ℕ

pub record GoalCycle : Type 0 where
  pub request_id : String
  pub metric : String
  pub elapsed_ms : ℕ
  pub target_minutes : ℕ
  pub goal_name : String

pub record Snapshot : Type 0 where
  pub id : String
  pub queue_id : String
  pub queue_version : ℕ
  pub user_id : String
  pub rows : List QueueRow
  pub expires_at : ℕ

-- The tables; `latest_cycles` are the cycles of some requests, the newest of each request and metric.
pub record Store : Type 0 where
  pub queues : List Queue
  pub issues : List QueueIssue
  pub latest_cycles : List String → List GoalCycle
  pub snapshots : List Snapshot

abbrev pub is_queue : String → Project → String → Queue → Bool
is_queue user_id project queue_id q =
    q.id === queue_id && (q.project_id === project.id) && is_visible_queue user_id q

abbrev is_snapshot_of : String → String → Snapshot → Bool
is_snapshot_of queue_id user_id s = s.queue_id === queue_id && (s.user_id === user_id)

-- `Math.ceil(Math.max(0, next_status * 60000 - elapsed) / 60000)`
abbrev pub remaining_minutes : GoalCycle → ℕ
remaining_minutes c = (c.target_minutes * 60000 - c.elapsed_ms + 59999) / 60000

abbrev targets_of : List GoalCycle → ServiceRequest → List GoalCycle
targets_of cycles r = filter (λ c. c.request_id === r.id) cycles

abbrev row_of : List GoalCycle → QueueIssue → ServiceRequest → QueueRow
row_of cycles i r = record {
  id = (i.row).id;
  request_id = r.id;
  version = (i.row).version;
  summary = (i.row).summary;
  number = i.number;
  status = i.status_name;
  status_id = (i.row).status_id;
  priority = (i.row).priority;
  assignee = maybe i.assignee_name "Unassigned" (λ name. name);
  assignee_id = (i.row).assignee_id;
  request_type = r.request_type_name;
  organization = maybe r.organization_name "None" (λ name. name);
  created_at = i.created_at;
  updated_at = i.updated_at;
  sla_state = r.sla_state;
  sla_goal = map (λ c. c.goal_name) (targets_of cycles r);
  sla_remaining = map (λ c. (c.metric, remaining_minutes c)) (targets_of cycles r);
  customer_response = r.customer_comment;
}

-- The issues that a queue selects have a service request.
abbrev rows_of : List GoalCycle → List QueueIssue → List QueueRow
rows_of cycles [] = []
rows_of cycles (i ∷ issues) =
    let rest = rows_of cycles issues in maybe i.request rest (λ r. row_of cycles i r ∷ rest)

abbrev request_ids : List QueueIssue → List String
request_ids [] = []
request_ids (i ∷ issues) = let rest = request_ids issues in maybe i.request rest (λ r. r.id ∷ rest)

module _ (db : Db) (runtime : QueueRuntime) (context : PolicyContext) (now : ℕ) where
  abbrev is_active_snapshot : String → Snapshot → Bool
  is_active_snapshot queue_id s = is_snapshot_of queue_id context.user_id s && ltb now s.expires_at

  abbrev has_expired : String → Snapshot → Bool
  has_expired queue_id s = is_snapshot_of queue_id context.user_id s && ltb s.expires_at now

  -- The transaction, on the issues that the queue selects in their order.
  abbrev take_snapshot :
      String → Queue → List QueueIssue → Store → Result QueueError (Store × Snapshot)
  take_snapshot id queue issues store =
      throw_if (leb 30 (length (filter (is_active_snapshot queue.id) store.snapshots)))
        too_many_snapshots
      >> (throw_if (ltb 2000 (length issues)) too_many_requests
          >> (let snapshot : Snapshot = record {
            id = id;
            queue_id = queue.id;
            queue_version = queue.version;
            user_id = context.user_id;
            rows = rows_of (store.latest_cycles (request_ids issues)) issues;
            expires_at = now + 5 * 60000;
          } in
              ok (
                record store {
                  snapshots = snapshot ∷ filter (λ s. not (has_expired queue.id s)) store.snapshots;
                },
                snapshot,
              )))

  -- `createQueueSnapshot`; `id` is the new row's, and `order` is the database's ordering by a column.
  pub create_queue_snapshot :
      (String → Json → List QueueIssue → List QueueIssue)
      → String
      → String
      → String
      → Store
      → Result QueueError (Store × Snapshot)
  create_queue_snapshot order id key queue_id store =
      queue_project db context key false >>= λ project.
      maybe (find (is_queue context.user_id project queue_id) store.queues) (err queue_not_found)
        (λ queue. parse_queue_definition runtime queue.definition >>= λ d.
          queue_filter db context runtime project.id d store.issues >>= λ selects.
          take_snapshot id queue
            (take 2001 (order d.sort d.direction (filter selects store.issues))) store)

  abbrev pub is_current : Project → QueueRow → QueueIssue → Bool
  is_current project row i = (i.row).id === row.id && is_open_row db context project.id i.row

  -- `versions.get(row.id) !== row.version`
  abbrev pub is_stale : Project → List QueueIssue → QueueRow → Bool
  is_stale project issues row =
      maybe (find (is_current project row) issues) true (λ i. not ((i.row).version == row.version))

  abbrev pub is_asked : String → String → Snapshot → Bool
  is_asked queue_id snapshot_id s =
      s.id === snapshot_id && is_snapshot_of queue_id context.user_id s && ltb now s.expires_at

  -- What is done with a snapshot and its queue.
  abbrev pub read_rows :
      Project
      → Store
      → Queue
      → Snapshot
      → Result QueueError (List QueueRow × Project × QueueDefinition)
  read_rows project store queue snapshot =
      throw_if
        (not (snapshot.queue_version == queue.version)
          || any (is_stale project store.issues) snapshot.rows)
        data_changed
      >> (parse_queue_definition runtime queue.definition >>= λ d. ok (snapshot.rows, project, d))

  -- `readQueueSnapshot`
  unfoldable pub read_queue_snapshot :
      String
      → String
      → String
      → Store
      → Result QueueError (List QueueRow × Project × QueueDefinition)
  read_queue_snapshot key queue_id snapshot_id store =
      queue_project db context key false >>= λ project.
      maybe (find (is_queue context.user_id project queue_id) store.queues) (err snapshot_expired)
        (λ queue.
          maybe (find (is_asked queue_id snapshot_id) store.snapshots) (err snapshot_expired)
            (read_rows project store queue))

-- `queueMetrics`
pub record Metrics : Type 0 where
  pub total : ℕ
  pub unassigned : ℕ
  pub aging : ℕ
  pub sla_risk : ℕ
  pub recent_customer_responses : ℕ
  pub workload : List (String × ℕ)

abbrev count_one : String → List (String × ℕ) → List (String × ℕ)
count_one name [] = (name, 1) ∷ []
count_one name ((k, n) ∷ entries) =
    let rest = count_one name entries in if k === name then (k, n + 1) ∷ entries else (k, n) ∷ rest

abbrev workload_of : List (String × ℕ) → List QueueRow → List (String × ℕ)
workload_of workload [] = workload
workload_of workload (row ∷ rows) = workload_of (count_one row.assignee workload) rows

-- An empty id counts as none.
abbrev is_unassigned : QueueRow → Bool
is_unassigned row = maybe row.assignee_id true (λ id. id === "")

abbrev is_at_risk : QueueRow → Bool
is_at_risk row = includes ("AT_RISK" ∷ "BREACHED" ∷ []) row.sla_state

abbrev is_aging : ℕ → QueueRow → Bool
is_aging now row = ltb (row.created_at + 7 * 86400000) now

abbrev is_recent : ℕ → QueueRow → Bool
is_recent now row = maybe row.customer_response false (λ at. ltb now (at + 86400000))

pub queue_metrics : List QueueRow → ℕ → Metrics
queue_metrics rows now = record {
  total = length rows;
  unassigned = length (filter is_unassigned rows);
  aging = length (filter (is_aging now) rows);
  sla_risk = length (filter is_at_risk rows);
  recent_customer_responses = length (filter (is_recent now) rows);
  workload = workload_of [] rows;
}
