-- ===== src/Retention.antt =====
-- src/lib/retention.ts: the rows that a retention policy may delete, the legal holds that keep them,
-- and the jobs that delete them.
pub mod Holds
mod Tests
use planeo.Prelude.{
  ℕ, ◌+◌, String, Bool, true, false, not, ◌&&◌, ◌||◌, Option, none, some, List, [], ◌∷◌, ◌++◌, any,
  map, filter, find, length, includes, unique, leb, ltb, ◌===◌, maybe, is_absent, if◌then◌else◌,
  Result, ok, err,
}

-- RETENTION_CLASSES
pub data RetentionClass : Type 0 where
  issues comments attachments notifications realtime_events integration_deliveries : RetentionClass
  automation_history audit_events : RetentionClass

abbrev pub class_name : RetentionClass → String
class_name issues = "ISSUES"
class_name comments = "COMMENTS"
class_name attachments = "ATTACHMENTS"
class_name notifications = "NOTIFICATIONS"
class_name realtime_events = "REALTIME_EVENTS"
class_name integration_deliveries = "INTEGRATION_DELIVERIES"
class_name automation_history = "AUTOMATION_HISTORY"
class_name audit_events = "AUDIT_EVENTS"

abbrev pub same_class : RetentionClass → RetentionClass → Bool
same_class a b = class_name a === class_name b

-- `validRetentionDays`, of an integer.
pub valid_retention_days : RetentionClass → ℕ → Bool
valid_retention_days audit_events days = leb 180 days && leb days 3650
valid_retention_days _ days = leb 1 days && leb days 3650

-- A row of the table of a class, with the columns that are read: `stamped_at` is the time that is
-- compared with the cutoff (archivedAt, deletedAt, createdAt or updatedAt), `issue_id` the issue
-- or the resource of the row, and `user_id` its reporter, author, recipient or actor.
pub record RetainedRow : Type 0 where
  pub id : String
  pub organization_id : String
  pub workspace_id : String
  pub project_id : Option String
  pub issue_id : Option String
  pub user_id : Option String
  pub stamped_at : Option ℕ
  pub issue_archived : Bool
  pub about_issue : Bool
  pub object_key : String
  pub sequence : ℕ
  pub event_hash : String

pub record Candidate : Type 0 where
  pub id : String
  pub workspace_id : String
  pub project_id : Option String
  pub issue_id : Option String
  pub user_id : Option String

-- `scopeType`, with `scopeId`, which the handler that makes holds asks for but for an organization.
pub data HoldScope : Type 0 where
  organization : HoldScope
  workspace project issue user : String → HoldScope

pub record LegalHold : Type 0 where
  pub organization_id : String
  pub scope : HoldScope
  pub starts_at : ℕ
  pub ends_at : Option ℕ
  pub released_at : Option ℕ

-- `activeHolds`
abbrev pub is_active_hold : String → ℕ → LegalHold → Bool
is_active_hold organization_id now h =
    h.organization_id === organization_id
    && is_absent h.released_at
    && leb h.starts_at now
    && maybe h.ends_at true (λ at. ltb now at)

abbrev is_the_id : Option String → String → Bool
is_the_id value id = maybe value false (λ v. v === id)

abbrev pub holds_candidate : Candidate → LegalHold → Bool
holds_candidate c h = elim h.scope [
  | organization ↦ true
  | workspace id ↦ c.workspace_id === id
  | project id ↦ is_the_id c.project_id id
  | issue id ↦ is_the_id c.issue_id id
  | user id ↦ is_the_id c.user_id id
]

-- `held`
abbrev pub held : Candidate → List LegalHold → Bool
held c holds = any (holds_candidate c) holds

-- What is put into the candidate of a row.
abbrev pub candidate_of : RetentionClass → RetainedRow → Candidate
candidate_of class r =
    let base : Candidate = record {
      id = r.id;
      workspace_id = r.workspace_id;
      project_id = r.project_id;
      issue_id = none;
      user_id = none;
    } in
    elim class [
      | issues ↦ record base { issue_id = some r.id; user_id = r.user_id }
      | comments ↦ record base { issue_id = r.issue_id; user_id = r.user_id }
      | attachments ↦ record base { issue_id = r.issue_id }
      | notifications ↦ record base { issue_id = r.issue_id; user_id = r.user_id }
      | realtime_events ↦ record base { issue_id = if r.about_issue then r.issue_id else none }
      | integration_deliveries ↦ base
      | automation_history ↦ base
      | audit_events ↦ record base { project_id = none; user_id = r.user_id }
    ]

-- The `where` of the class.
abbrev pub is_due : RetentionClass → String → ℕ → RetainedRow → Bool
is_due class organization_id cutoff r =
    r.organization_id === organization_id
    && maybe r.stamped_at false (λ at. ltb at cutoff)
    && elim class [ attachments ↦ r.issue_archived | _ ↦ true ]

-- `sort`, by what precedes what.
abbrev pub insert_by : (String → String → Bool) → Candidate → List Candidate → List Candidate
insert_by precedes c [] = c ∷ []
insert_by precedes c (d ∷ cs) =
    let rest = insert_by precedes c cs in if precedes d.id c.id then d ∷ rest else c ∷ d ∷ cs

abbrev pub sort_by : (String → String → Bool) → List Candidate → List Candidate
sort_by precedes [] = []
sort_by precedes (c ∷ cs) = insert_by precedes c (sort_by precedes cs)

pub record Anchor : Type 0 where
  pub workspace_id : String
  pub sequence : ℕ
  pub event_hash : String
  pub anchored_at : ℕ

pub data JobStatus : Type 0 where
  previewed approved running completed failed : JobStatus

pub record Evidence : Type 0 where
  pub job_id : String
  pub preview_hash : String
  pub candidate_count : ℕ
  pub eligible_at_execution : ℕ
  pub deleted_count : ℕ
  pub completed_at : ℕ

pub record DeletionJob : Type 0 where
  pub id : String
  pub organization_id : String
  pub class : RetentionClass
  pub cutoff : ℕ
  pub status : JobStatus
  pub candidate_ids : List String
  pub preview_hash : String
  pub approved_at : Option ℕ
  pub attempts : ℕ
  pub evidence : Option (Evidence × String)

pub record Archive : Type 0 where
  pub rows : RetentionClass → List RetainedRow
  pub holds : List LegalHold
  pub anchors : List Anchor
  pub jobs : List DeletionJob

pub data RetentionError : Type 0 where
  job_missing approved_job_required storage_failed user_is_held : RetentionError

-- `localeCompare`, the digests, whether the storage deletes an object, and the database's order of
-- the audit events, by their workspaces and their sequence.
pub record Means : Type 0 where
  pub precedes : String → String → Bool
  pub preview_digest : String → RetentionClass → ℕ → List String → String
  pub evidence_digest : Evidence → String
  pub deletes_object : String → Bool
  pub in_sequence : List RetainedRow → List RetainedRow

abbrev pub active_holds : String → ℕ → Archive → List LegalHold
active_holds organization_id now archive = filter (is_active_hold organization_id now) archive.holds

module _ (means : Means) where
  abbrev pub due_candidates : String → RetentionClass → ℕ → Archive → List Candidate
  due_candidates organization_id class cutoff archive =
      map (candidate_of class) (filter (is_due class organization_id cutoff) (archive.rows class))

  -- `discoverRetention`
  unfoldable pub discover_retention : String → RetentionClass → ℕ → ℕ → Archive → List Candidate
  discover_retention organization_id class cutoff now archive = sort_by means.precedes (
      filter (λ c. not (held c (active_holds organization_id now archive)))
        (due_candidates organization_id class cutoff archive))

  abbrev pub ids_of : List Candidate → List String
  ids_of cs = map (λ c. c.id) cs

  -- `previewDeletion`, with the new job.
  unfoldable pub preview_deletion :
      String → String → RetentionClass → ℕ → ℕ → Archive → Archive × DeletionJob
  preview_deletion id organization_id class cutoff now archive =
      let ids = ids_of (discover_retention organization_id class cutoff now archive) in
      let job : DeletionJob = record {
        id = id;
        organization_id = organization_id;
        class = class;
        cutoff = cutoff;
        status = previewed;
        candidate_ids = ids;
        preview_hash = means.preview_digest organization_id class cutoff ids;
        approved_at = none;
        attempts = 0;
        evidence = none;
      } in
      (record archive { jobs = job ∷ archive.jobs }, job)

  -- The loop over the attachments: the ids of those that it deletes, and whether the storage failed.
  abbrev pub delete_objects : List RetainedRow → List String × Bool
  delete_objects [] = ([], false)
  delete_objects (r ∷ rows) =
      let rest = delete_objects rows in
      if means.deletes_object r.object_key then (r.id ∷ rest.0, rest.1) else ([], true)

  -- The first events of a workspace, up to one that stays.
  abbrev pub deletable : List String → List RetainedRow → List RetainedRow
  deletable ids [] = []
  deletable ids (r ∷ rows) =
      let rest = deletable ids rows in if includes ids r.id then r ∷ rest else []

  abbrev pub chain_of : String → String → List RetainedRow → List RetainedRow
  chain_of organization_id workspace_id rows =
      filter (λ r. r.organization_id === organization_id && (r.workspace_id === workspace_id))
        (means.in_sequence rows)

  abbrev workspaces_of : List RetainedRow → List String
  workspaces_of rows = unique (map (λ r. r.workspace_id) rows)

  abbrev pub deletable_events :
      String → List String → List RetainedRow → List String → List RetainedRow
  deletable_events organization_id ids rows [] = []
  deletable_events organization_id ids rows (w ∷ workspaces) =
      deletable ids (chain_of organization_id w rows)
      ++ deletable_events organization_id ids rows workspaces

  abbrev last_of : RetainedRow → List RetainedRow → RetainedRow
  last_of r [] = r
  last_of r (s ∷ rows) = last_of s rows

  abbrev put_anchor : ℕ → RetainedRow → List Anchor → List Anchor
  put_anchor now last anchors =
      record {
        workspace_id = last.workspace_id;
        sequence = last.sequence;
        event_hash = last.event_hash;
        anchored_at = now;
      }
      ∷ filter (λ a. not (a.workspace_id === last.workspace_id)) anchors

  abbrev anchor_chain : ℕ → List RetainedRow → List Anchor → List Anchor
  anchor_chain now [] anchors = anchors
  anchor_chain now (r ∷ rows) anchors = put_anchor now (last_of r rows) anchors

  abbrev anchor_all :
      ℕ → String → List String → List RetainedRow → List String → List Anchor → List Anchor
  anchor_all now organization_id ids rows [] anchors = anchors
  anchor_all now organization_id ids rows (w ∷ workspaces) anchors =
      anchor_all now organization_id ids rows workspaces
        (anchor_chain now (deletable ids (chain_of organization_id w rows)) anchors)

  abbrev pub rows_with : List String → List RetainedRow → List RetainedRow
  rows_with ids rows = filter (λ r. includes ids r.id) rows

  -- The ids that a job of the class deletes, and whether it fails.
  abbrev pub deleted_ids :
      String → RetentionClass → List String → List RetainedRow → List String × Bool
  deleted_ids organization_id class ids rows = elim class [
    | attachments ↦ delete_objects (rows_with ids rows)
    | audit_events ↦
        (map (λ r. r.id) (deletable_events organization_id ids rows (workspaces_of rows)), false)
    | _ ↦ (ids, false)
  ]

  abbrev pub without : List String → List RetainedRow → List RetainedRow
  without ids rows = filter (λ r. not (includes ids r.id)) rows

  -- What hangs on issues is deleted with them, as prisma/schema.prisma says.
  abbrev pub without_issues : List String → List RetainedRow → List RetainedRow
  without_issues ids rows = filter (λ r. not (maybe r.issue_id false (includes ids))) rows

  abbrev hangs_on_issue : RetentionClass → Bool
  hangs_on_issue class = elim class [
    | comments ↦ true
    | attachments ↦ true
    | notifications ↦ true
    | _ ↦ false
  ]

  abbrev pub rows_after :
      RetentionClass
      → List String
      → (RetentionClass → List RetainedRow)
      → RetentionClass
      → List RetainedRow
  rows_after class ids rows other =
      if same_class class other
      then without ids (rows other)
      else if same_class class issues && hangs_on_issue other
      then without_issues ids (rows other)
      else rows other

  abbrev set_job : String → (DeletionJob → DeletionJob) → List DeletionJob → List DeletionJob
  set_job id f jobs = map (λ j. if j.id === id then f j else j) jobs

  abbrev finish_job : ℕ → ℕ → ℕ → DeletionJob → DeletionJob
  finish_job now eligible deleted j =
      let evidence : Evidence = record {
        job_id = j.id;
        preview_hash = j.preview_hash;
        candidate_count = length j.candidate_ids;
        eligible_at_execution = eligible;
        deleted_count = deleted;
        completed_at = now;
      } in
      record j {
        status = completed;
        attempts = j.attempts + 1;
        evidence = some (evidence, means.evidence_digest evidence);
      }

  abbrev fail_job : DeletionJob → DeletionJob
  fail_job j = record j { status = failed; attempts = j.attempts + 1 }

  -- The ids of the preview that may still be deleted.
  abbrev pub eligible_ids : ℕ → Archive → DeletionJob → List String
  eligible_ids now archive job =
      let allowed =
        ids_of (discover_retention job.organization_id job.class job.cutoff now archive) in
      filter (includes allowed) job.candidate_ids

  abbrev audit_anchors : ℕ → DeletionJob → List String → Archive → List Anchor
  audit_anchors now job ids archive =
      let rows = archive.rows audit_events in
      if same_class job.class audit_events
      then anchor_all now job.organization_id ids rows (workspaces_of rows) archive.anchors
      else archive.anchors

  -- What a job that may run does.
  abbrev pub run_deletion : ℕ → Archive → DeletionJob → Archive × Result RetentionError JobStatus
  run_deletion now archive job =
      let ids = eligible_ids now archive job in
      let (deleted, storage_fails) =
        deleted_ids job.organization_id job.class ids (archive.rows job.class) in
      let count = length (rows_with deleted (archive.rows job.class)) in
      (
        record archive {
          rows = rows_after job.class deleted archive.rows;
          anchors = audit_anchors now job ids archive;
          jobs =
              set_job job.id (if storage_fails then fail_job else finish_job now (length ids) count)
                archive.jobs;
        },
        if storage_fails then err storage_failed else ok completed,
      )

  abbrev pub is_runnable : JobStatus → Bool
  is_runnable approved = true
  is_runnable running = true
  is_runnable failed = true
  is_runnable _ = false

  abbrev pub is_completed : JobStatus → Bool
  is_completed completed = true
  is_completed _ = false

  abbrev pub run_job : ℕ → Archive → DeletionJob → Archive × Result RetentionError JobStatus
  run_job now archive job =
      if is_completed job.status
      then (archive, ok completed)
      else if is_absent job.approved_at || not (is_runnable job.status)
      then (archive, err approved_job_required)
      else run_deletion now archive job

  -- `executeDeletion`
  unfoldable pub execute_deletion : ℕ → String → Archive → Archive × Result RetentionError JobStatus
  execute_deletion now id archive =
      maybe (find (λ j. j.id === id) archive.jobs) (archive, err job_missing) (run_job now archive)

-- A user, with what is anonymized.
pub record RetainedUser : Type 0 where
  pub id : String
  pub email : String
  pub name : String
  pub avatar_url : Option String
  pub email_notifications : Bool
  pub in_app_notifications : Bool

abbrev holds_user : String → LegalHold → Bool
holds_user user_id h = elim h.scope [ organization ↦ true | user id ↦ id === user_id | _ ↦ false ]

-- `anonymizeUser`; `address` is made of the digest of the organization and the user.
pub anonymize_user :
    (String → String → String)
    → String
    → String
    → ℕ
    → Archive
    → List RetainedUser
    → Result RetentionError (List RetainedUser)
anonymize_user address organization_id user_id now archive users =
    if any (holds_user user_id) (active_holds organization_id now archive)
    then err user_is_held
    else ok (
        map
          (λ u.
            if u.id === user_id
            then record u {
              email = address organization_id user_id;
              name = "Deleted user";
              avatar_url = none;
              email_notifications = false;
              in_app_notifications = false;
            }
            else u)
          users)
