-- ===== src/Queues/Actions/Current.antt =====
-- applyQueueAction of src/lib/service-queues.ts: what the requests were that it updated.
use planeo.Prelude.{
  ℕ, String, true, false, not, ◌||◌, none, some, inl, inr, List, [], ◌∷◌, all, map, find, Distinct,
  includes_iff, In, find_sound, ok, err, Result, throw_if_passed, ◌>>=◌, >>=-eq-ok, length, unique,
  length-unique-Distinct, ltb, ◌==◌, ==_iff, ◌===◌, ===_iff, ◌≡◌, ◌≢◌, sym, ap, subst, ◌∙◌, maybe,
  if◌then◌else◌, arith, Bool-cases, Option-cases,
}
use planeo.Prelude.Json.{Json, as_array, strings, as_object}
use planeo.Issues.{Row}
use planeo.Permissions.{PolicyContext}
use planeo.Queues.{
  QueueError, QueueDefinition, queue_project, QueueIssue, Project, QueueRuntime, Db, is_open_row,
}
use planeo.Queues.Snapshots.{QueueRow, Store, read_queue_snapshot}
use planeo.Queues.Actions.{
  ActionError, request_changed, bad_selection, no_action, is_selected, apply_queue_action, of_queue,
  read_ids, read_action, commit_action, Reads, Tables, Action, triage, is_existing, is_taken,
  check_status, check_type, write_triage, triage_one, triage_all,
}

module _ (db : Db) (context : PolicyContext) (project : Project) (reads : Reads) (now : ℕ)
    (action : Action) (rows : List QueueRow) where
  -- The issue of a request is open to the agent, is at the version of the row that the snapshot has of
  -- this request, and has no assignee where the action claims it.
  pub record IsCurrent (issues : List QueueIssue) (id : String) : Type 0 where
    pub row : QueueRow
    pub issue : QueueIssue
    pub listed : In row rows
    pub row_id : row.id ≡ id
    pub stored : In issue issues
    pub same_id : (issue.row).id ≡ id
    pub same_version : (issue.row).version ≡ row.version
    pub open_to_agent : is_open_row db context project.id issue.row ≡ true
    pub not_taken : is_taken db context project reads now action issue.row ≡ false

  -- An update leaves the issues that have another id.
  In-write :
      (r : QueueRow) (row : Row) (tables : Tables) (issues : List QueueIssue) (i : QueueIssue)
      → ((i.row).id ≢ row.id)
      → In i (
          map
            (λ (i : QueueIssue).
              if (i.row).id === row.id then triage db context project reads now action i else i)
            issues)
      → In i issues
  In-write r row tables [] i other m = m
  In-write r row tables (x ∷ issues) i other (inr m) = inr (In-write r row tables issues i other m)
  In-write r row tables (x ∷ issues) i other (inl same) =
      elim (Bool-cases ((x.row).id === row.id)) [
        | inr differs ↦ inl (cc (rw differs at same))
        | inl hit ↦
            let made : i ≡ triage db context project reads now action x = cc (rw hit at same) in
            absurd
              (other (ap (λ (y : QueueIssue). (y.row).id) made ∙ (===_iff (x.row).id row.id).0 hit))
      ]

  abbrev Steps : Tables → Tables → String → Type 0
  Steps tables next id =
      IsCurrent tables.issues id
      × ((i : QueueIssue) → (i.row).id ≢ id → In i next.issues → In i tables.issues)

  triage_one-Steps :
      (id : String) (tables next : Tables)
      → triage_one db context project reads now action rows id tables ≡ ok next
      → Steps tables next id
  triage_one-Steps id tables next e =
      elim (Option-cases (find (λ (r : QueueRow). r.id === id) rows)) [
        | inl missing ↦ absurd (cc (rw missing at e))
        | inr (r, listed) ↦
            let e1 = rw listed at e in
            elim (Option-cases
              (find (is_existing db context project reads now action r) tables.issues)) [
                | inl missing ↦ absurd (cc (rw missing at e1))
                | inr (i, known) ↦
                    let e2 = rw known at e1 in
                    let (in_rows, m_row) =
                      (find_sound (λ (r : QueueRow). r.id === id) rows listed) in
                    let (existing, m) =
                      find_sound (is_existing db context project reads now action r) tables.issues
                        known in
                    let (free, e3) =
                      throw_if_passed (is_taken db context project reads now action i.row)
                        request_changed _ e2 in
                    let (u, allowed, e4) =
                      >>=-eq-ok (check_status db context project reads now action i.row tables) _
                        e3 in
                    let (v, typed, e5) =
                      >>=-eq-ok (check_type db context project reads now action i.row tables) _
                        e4 in
                    let made : write_triage db context project reads now action r i.row tables
                        ≡ next =
                      cc in
                    let same : (i.row).id ≡ id =
                      ground (arith, ===_iff (i.row).id r.id, ===_iff r.id id) in
                    (
                      record {
                        row = r;
                        issue = i;
                        listed = m_row;
                        row_id = (===_iff r.id id).0 in_rows;
                        stored = m;
                        same_id = same;
                        same_version = ground (arith, ==_iff (i.row).version r.version);
                        open_to_agent = ground arith;
                        not_taken = free;
                      },
                      λ j other mj.
                          In-write r i.row tables tables.issues j (λ equal. other (equal ∙ same))
                            (subst (λ (t : Tables). In j t.issues) (sym made) mj),
                    )
              ]
      ]

  -- What holds of the requests that are left after a step held before it.
  IsCurrent-back :
      (tables next : Tables) (id other : String)
      → ((i : QueueIssue) → (i.row).id ≢ id → In i next.issues → In i tables.issues)
      → other ≢ id
      → IsCurrent next.issues other
      → IsCurrent tables.issues other
  IsCurrent-back tables next id other kept differs c = record {
    row = c.row;
    issue = c.issue;
    listed = c.listed;
    row_id = c.row_id;
    stored = kept c.issue (λ same. differs (sym c.same_id ∙ same)) c.stored;
    same_id = c.same_id;
    same_version = c.same_version;
    open_to_agent = c.open_to_agent;
    not_taken = c.not_taken;
  }

  triage_all-IsCurrent :
      (ids : List String) (tables done : Tables) (id : String)
      → triage_all db context project reads now action rows ids tables ≡ ok done
      → Distinct ids
      → In id ids
      → IsCurrent tables.issues id
  triage_all-IsCurrent [] tables done id e unique m = absurd (elim m [ ])
  triage_all-IsCurrent (x ∷ ids) tables done id e unique m =
      let (next, one, e1) =
        >>=-eq-ok (triage_one db context project reads now action rows x tables) _ e in
      let (current, kept) = triage_one-Steps x tables next one in
      elim m [
        | inl same ↦ subst (λ y. IsCurrent tables.issues y) (sym same) current
        | inr later ↦
            IsCurrent-back tables next x id kept
              (λ same.
                absurd (ground (arith, includes_iff ids x, subst (λ y. In y ids) same later)))
              (triage_all-IsCurrent ids next done id e1 unique.1 later)
      ]

-- What an action that is done has read: the rows of the snapshot, and the action.
pub record Triaged (db : Db) (runtime : QueueRuntime) (reads : Project → Reads)
    (context : PolicyContext) (now : ℕ) (key queue_id snapshot_id : String)
    (fields : List (String × Json)) (store : Store) (tables : Tables) (id : String) : Type 0 where
  pub rows : List QueueRow
  pub project : Project
  pub definition : QueueDefinition
  pub action : Action
  pub read :
      read_queue_snapshot db runtime context now key queue_id snapshot_id store
      ≡ ok (rows, project, definition)
  pub given : read_action runtime (reads project) context.user_id fields ≡ ok action
  pub current : IsCurrent db context project (reads project) now action rows tables.issues id

read_ids-Distinct :
    (rows : List QueueRow) (ids : Json) (picked chosen : List String)
    → read_ids rows ids ≡ ok picked
    → maybe (as_array ids) none strings ≡ some chosen
    → (picked ≡ chosen) × Distinct chosen
read_ids-Distinct rows ids picked chosen e texts =
    let e1 = rw texts at e in
    let (good, e2) =
      throw_if_passed
        (length chosen == 0
          || ltb 100 (length chosen)
          || not (length (unique chosen) == length chosen)
          || not (all (is_selected rows) chosen))
        bad_selection _ e1 in
    let same : length (unique chosen) ≡ length chosen =
      ground (arith, ==_iff (length (unique chosen)) (length chosen)) in
    (cc, length-unique-Distinct chosen same)

of_queue-ok : {A : Type 0} (step : Result QueueError A) (a : A) → of_queue step ≡ ok a → step ≡ ok a
of_queue-ok (err fault) a e = absurd cc
of_queue-ok (ok b) a e = let same : b ≡ a = cc in ap ok same

module _ (db : Db) (runtime : QueueRuntime) (reads : Project → Reads) (context : PolicyContext)
    (now : ℕ) (key queue_id snapshot_id : String) (fields : List (String × Json)) (store : Store)
    (tables : Tables) where
  -- The rest of applyQueueAction, once the snapshot is read.
  abbrev act_on :
      Json → Json → List QueueRow × Project × QueueDefinition → Result ActionError (Tables × ℕ)
  act_on ids raw read = read_ids read.0 ids >>= λ chosen.
      maybe (as_object raw) (err no_action) (read_action runtime (reads read.1) context.user_id)
      >>= λ action.
          commit_action db context read.1 (reads read.1) now action queue_id read.0 chosen tables

  act_on-Triaged :
      (ids raw : Json) (rows : List QueueRow) (project : Project) (d : QueueDefinition)
      (after : Tables) (count : ℕ) (chosen : List String) (id : String)
      → read_queue_snapshot db runtime context now key queue_id snapshot_id store
        ≡ ok (rows, project, d)
      → act_on ids raw (rows, project, d) ≡ ok (after, count)
      → maybe (as_array ids) none strings ≡ some chosen
      → as_object raw ≡ some fields
      → In id chosen
      → Triaged db runtime reads context now key queue_id snapshot_id fields store tables id
  act_on-Triaged ids raw rows project d after count chosen id read e texts object m =
      let (picked, chose, e1) = >>=-eq-ok (read_ids rows ids) _ e in
      let (same, unique) = read_ids-Distinct rows ids picked chosen chose texts in
      let (action, given, e2) =
        >>=-eq-ok (read_action runtime (reads project) context.user_id fields) _
          (rw object at e1) in
      let (done, triaged, e3) =
        >>=-eq-ok (triage_all db context project (reads project) now action rows picked tables) _
          e2 in
      record {
        rows = rows;
        project = project;
        definition = d;
        action = action;
        read = read;
        given = given;
        current =
            triage_all-IsCurrent db context project (reads project) now action rows chosen tables
              done id
              (subst
                (λ xs.
                  triage_all db context project (reads project) now action rows xs tables ≡ ok done)
                same triaged)
              unique m;
      }

-- Where an action on a snapshot is done, each request that was chosen is an issue that stood, when
-- the transaction began, at the version of its row in the snapshot, open to the agent, and without an
-- assignee where the action claims it.
pub apply_queue_action-Triaged :
    (db : Db) (runtime : QueueRuntime) (reads : Project → Reads) (context : PolicyContext) (now : ℕ)
    (key queue_id snapshot_id : String) (ids raw : Json) (store : Store) (tables after : Tables)
    (count : ℕ) (chosen : List String) (fields : List (String × Json)) (id : String)
    → apply_queue_action db runtime reads context now key queue_id snapshot_id ids raw store tables
      ≡ ok (after, count)
    → maybe (as_array ids) none strings ≡ some chosen
    → as_object raw ≡ some fields
    → In id chosen
    → Triaged db runtime reads context now key queue_id snapshot_id fields store tables id
unfolding apply_queue_action
apply_queue_action-Triaged db runtime reads context now key queue_id snapshot_id ids raw store
      tables after count chosen fields id e texts object m =
    let (edited, may_edit, e1) = >>=-eq-ok (of_queue (queue_project db context key true)) _ e in
    let (read, taken, e2) =
      >>=-eq-ok
        (of_queue (read_queue_snapshot db runtime context now key queue_id snapshot_id store))
        (act_on db runtime reads context now key queue_id snapshot_id fields store tables ids raw)
        e1 in
    act_on-Triaged db runtime reads context now key queue_id snapshot_id fields store tables ids raw
      read.0 read.1 read.2 after count chosen id (of_queue-ok _ read taken) e2 texts object m
