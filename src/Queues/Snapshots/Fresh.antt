-- ===== src/Queues/Snapshots/Fresh.antt =====
-- readQueueSnapshot of src/lib/service-queues.ts: what the rows that are read stand for.
use planeo.Prelude.{
  ℕ, String, true, false, not, ◌||◌, inl, inr, List, find, any, In, In-any, find_sound, ok,
  throw_if_passed, >>=-eq-ok, ◌==◌, ==_iff, ===_iff, ◌≡◌, sym, subst, arith, Bool-cases,
  Option-cases,
}
use planeo.Permissions.{PolicyContext}
use planeo.Queues.{
  QueueDefinition, QueueIssue, Queue, Project, QueueRuntime, Db, data_changed, is_open_row,
  queue_project, parse_queue_definition,
}
use planeo.Queues.Snapshots.{
  QueueRow, Snapshot, Store, is_queue, is_asked, is_current, is_stale, read_rows,
  read_queue_snapshot,
}

module _ (db : Db) (runtime : QueueRuntime) (context : PolicyContext) (now : ℕ) where
  -- An issue that is open to the agent, at the version of the row.
  pub record IsFresh (project : Project) (issues : List QueueIssue) (row : QueueRow) : Type 0 where
    pub issue : QueueIssue
    pub stored : In issue issues
    pub same_id : (issue.row).id ≡ row.id
    pub same_version : (issue.row).version ≡ row.version
    pub open_to_agent : is_open_row db context project.id issue.row ≡ true

  not_stale-IsFresh :
      (project : Project) (issues : List QueueIssue) (row : QueueRow)
      → is_stale db runtime context now project issues row ≡ false
      → IsFresh project issues row
  not_stale-IsFresh project issues row e =
      elim (Option-cases (find (is_current db runtime context now project row) issues)) [
        | inl missing ↦ absurd (cc (rw missing at e))
        | inr (i, known) ↦
            let (current, m) =
              find_sound (is_current db runtime context now project row) issues known in
            let same : not ((i.row).version == row.version) ≡ false = rw known at e in
            record {
              issue = i;
              stored = m;
              same_id = ground (arith, ===_iff (i.row).id row.id);
              same_version = ground (arith, ==_iff (i.row).version row.version);
              open_to_agent = ground arith;
            }
      ]

  read_rows-IsFresh :
      (project made : Project) (store : Store) (queue : Queue) (snapshot : Snapshot)
      (rows : List QueueRow) (d : QueueDefinition) (row : QueueRow)
      → read_rows db runtime context now project store queue snapshot ≡ ok (rows, made, d)
      → In row rows
      → IsFresh made store.issues row
  read_rows-IsFresh project made store queue snapshot rows d row e m =
      let (kept, e1) =
        throw_if_passed
          (not (snapshot.queue_version == queue.version)
            || any (is_stale db runtime context now project store.issues) snapshot.rows)
          data_changed _ e in
      let (parsed, read, e2) = >>=-eq-ok (parse_queue_definition runtime queue.definition) _ e1 in
      let same_rows : snapshot.rows ≡ rows = cc in
      let same_project : project ≡ made = cc in
      let fresh : is_stale db runtime context now project store.issues row ≡ false =
        elim (Bool-cases (is_stale db runtime context now project store.issues row)) [
          | inr current ↦ current
          | inl stale ↦
              let found =
                In-any (is_stale db runtime context now project store.issues) row snapshot.rows
                  (subst (In row) (sym same_rows) m) stale in
              absurd (ground arith)
        ] in
      subst (λ p. IsFresh p store.issues row) same_project
        (not_stale-IsFresh project store.issues row fresh)

  -- Each row of a snapshot that is read is of an issue of the project that the agent may see now, and
  -- the issue is at the version that it had when the snapshot was taken.
  pub read_queue_snapshot-IsFresh :
      (key queue_id snapshot_id : String) (store : Store) (rows : List QueueRow) (project : Project)
      (d : QueueDefinition) (row : QueueRow)
      → read_queue_snapshot db runtime context now key queue_id snapshot_id store
        ≡ ok (rows, project, d)
      → In row rows
      → IsFresh project store.issues row
  unfolding read_queue_snapshot
  read_queue_snapshot-IsFresh key queue_id snapshot_id store rows project d row e m =
      let (p, admitted, e1) = >>=-eq-ok (queue_project db context key false) _ e in
      elim (Option-cases (find (is_queue context.user_id p queue_id) store.queues)) [
        | inl missing ↦ absurd (cc (rw missing at e1))
        | inr (queue, known) ↦
            let e2 = rw known at e1 in
            elim (Option-cases
              (find (is_asked db runtime context now queue_id snapshot_id) store.snapshots)) [
                | inl none_asked ↦ absurd (cc (rw none_asked at e2))
                | inr (snapshot, asked) ↦
                    read_rows-IsFresh p project store queue snapshot rows d row (rw asked at e2) m
              ]
      ]
