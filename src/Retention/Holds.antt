-- ===== src/Retention/Holds.antt =====
-- executeDeletion of src/lib/retention.ts: what a job may delete.
use planeo.Prelude.{
  ℕ, String, Bool, true, false, not, ◌||◌, some, inl, inr, ◌⊎◌, List, [], ◌∷◌, map, filter, find,
  includes, includes_iff, In, In-filter, In-append, ◌===◌, ===_iff, is_absent, ◌≡◌, refl, sym, ap,
  subst, ◌∙◌, arith, Bool-cases,
}
use planeo.Retention.{
  is_completed, is_runnable, RetentionClass, issues, comments, attachments, notifications,
  realtime_events, integration_deliveries, automation_history, audit_events, class_name, same_class,
  RetainedRow, Candidate, held, candidate_of, is_due, insert_by, sort_by, DeletionJob, Archive,
  Means, active_holds, due_candidates, discover_retention, ids_of, delete_objects, deletable,
  deletable_events, deleted_ids, rows_with, chain_of, without, eligible_ids, run_deletion, run_job,
  execute_deletion,
}

In-insert_by :
    (precedes : String → String → Bool) (c d : Candidate) (cs : List Candidate)
    → In d (insert_by precedes c cs)
    → (d ≡ c) ⊎ In d cs
In-insert_by precedes c d [] m = m
In-insert_by precedes c d (e ∷ cs) m = elim (Bool-cases (precedes e.id c.id)) [
  | inr later ↦ (rw later at m)
  | inl before ↦
      let m1 : (d ≡ e) ⊎ In d (insert_by precedes c cs) = rw before at m in
      elim m1 [
        | inl same ↦ inr (inl same)
        | inr rest ↦ elim (In-insert_by precedes c d cs rest) [
          | inl same ↦ inl same
          | inr there ↦ inr (inr there)
        ]
      ]
]

In-sort_by :
    (precedes : String → String → Bool) (d : Candidate) (cs : List Candidate)
    → In d (sort_by precedes cs)
    → In d cs
In-sort_by precedes d [] m = m
In-sort_by precedes d (c ∷ cs) m = elim (In-insert_by precedes c d (sort_by precedes cs) m) [
  | inl same ↦ inl same
  | inr rest ↦ inr (In-sort_by precedes d cs rest)
]

In-map :
    {A B : Type 0} (f : A → B) (b : B) (xs : List A)
    → In b (map f xs)
    → (a : A) × In a xs × (b ≡ f a)
In-map f b [] m = elim m [ ]
In-map f b (x ∷ xs) m = elim m [
  | inl same ↦ (x, inl refl, same)
  | inr rest ↦ let (a, there, same) = In-map f b xs rest in (a, inr there, same)
]

In-deletable :
    (means : Means) (ids : List String) (r : RetainedRow) (rows : List RetainedRow)
    → In r (deletable means ids rows)
    → includes ids r.id ≡ true
In-deletable means ids r [] m = absurd (elim m [ ])
In-deletable means ids r (x ∷ rows) m = elim (Bool-cases (includes ids x.id)) [
  | inr stays ↦ let none_of : In r [] = rw stays at m in absurd (elim none_of [ ])
  | inl gone ↦
      let m1 : (r ≡ x) ⊎ In r (deletable means ids rows) = rw gone at m in
      elim m1 [
        | inl same ↦ subst (λ (y : RetainedRow). includes ids y.id ≡ true) (sym same) gone
        | inr rest ↦ In-deletable means ids r rows rest
      ]
]

module _ (means : Means) (organization_id : String) (ids : List String) where
  In-deletable_events :
      (r : RetainedRow) (rows : List RetainedRow) (workspaces : List String)
      → In r (deletable_events means organization_id ids rows workspaces)
      → includes ids r.id ≡ true
  In-deletable_events r rows [] m = absurd (elim m [ ])
  In-deletable_events r rows (w ∷ workspaces) m =
      elim ((In-append r (deletable means ids (chain_of means organization_id w rows))
          (deletable_events means organization_id ids rows workspaces)).0
        m) [
          | inl here ↦ In-deletable means ids r (chain_of means organization_id w rows) here
          | inr there ↦ In-deletable_events r rows workspaces there
        ]

  In-delete_objects :
      (id : String) (rows : List RetainedRow)
      → In id (delete_objects means rows).0
      → (r : RetainedRow) × In r rows × (id ≡ r.id)
  In-delete_objects id [] m = absurd (elim m [ ])
  In-delete_objects id (r ∷ rows) m = elim (Bool-cases (means.deletes_object r.object_key)) [
    | inr fails ↦ let none_of : In id [] = rw fails at m in absurd (elim none_of [ ])
    | inl done ↦
        let m1 : (id ≡ r.id) ⊎ In id (delete_objects means rows).0 = rw done at m in
        elim m1 [
          | inl same ↦ (r, inl refl, same)
          | inr rest ↦ let (s, there, same) = In-delete_objects id rows rest in (s, inr there, same)
        ]
  ]

  -- Whatever a job deletes is among the ids that it may delete.
  deleted_ids-includes :
      (class : RetentionClass) (id : String) (rows : List RetainedRow)
      → In id (deleted_ids means organization_id class ids rows).0
      → includes ids id ≡ true
  deleted_ids-includes attachments id rows m =
      let (r, there, same) = In-delete_objects id (rows_with means ids rows) m in
      let kept = ((In-filter (λ (x : RetainedRow). includes ids x.id) r rows).0 there).1 in
      subst (λ x. includes ids x ≡ true) (sym same) kept
  deleted_ids-includes audit_events id rows m =
      let (r, there, same) = In-map (λ (x : RetainedRow). x.id) id _ m in
      subst (λ x. includes ids x ≡ true) (sym same) (In-deletable_events r rows _ there)
  deleted_ids-includes issues id rows m = (includes_iff ids id).1 m
  deleted_ids-includes comments id rows m = (includes_iff ids id).1 m
  deleted_ids-includes notifications id rows m = (includes_iff ids id).1 m
  deleted_ids-includes realtime_events id rows m = (includes_iff ids id).1 m
  deleted_ids-includes integration_deliveries id rows m = (includes_iff ids id).1 m
  deleted_ids-includes automation_history id rows m = (includes_iff ids id).1 m

candidate_of-id : (class : RetentionClass) (r : RetainedRow) → (candidate_of class r).id ≡ r.id
candidate_of-id issues r = refl
candidate_of-id comments r = refl
candidate_of-id attachments r = refl
candidate_of-id notifications r = refl
candidate_of-id realtime_events r = refl
candidate_of-id integration_deliveries r = refl
candidate_of-id automation_history r = refl
candidate_of-id audit_events r = refl

-- The job was approved, its preview has the row, and a row of that id is due and under no hold.
pub record MayGo (now : ℕ) (archive : Archive) (job : DeletionJob) (row : RetainedRow)
    : Type 0 where
  pub previewed_id : In row.id job.candidate_ids
  pub approved : is_absent job.approved_at ≡ false
  pub source : RetainedRow
  pub stored : In source (archive.rows job.class)
  pub same_row : row.id ≡ source.id
  pub due : is_due job.class job.organization_id job.cutoff source ≡ true
  pub free :
      held (candidate_of job.class source) (active_holds job.organization_id now archive) ≡ false

module _ (means : Means) (now : ℕ) (archive : Archive) (job : DeletionJob) (row : RetainedRow) where
  eligible-MayGo :
      is_absent job.approved_at ≡ false
      → includes (eligible_ids means now archive job) row.id ≡ true
      → MayGo now archive job row
  unfolding discover_retention
  eligible-MayGo approved listed =
      let organization_id = job.organization_id in
      let allowed =
        ids_of means (discover_retention means organization_id job.class job.cutoff now archive) in
      let (shown, still) =
        (In-filter (includes allowed) row.id job.candidate_ids).0
          ((includes_iff (eligible_ids means now archive job) row.id).0 listed) in
      let (c, found, named) =
        In-map (λ (x : Candidate). x.id) row.id
          (discover_retention means organization_id job.class job.cutoff now archive)
          ((includes_iff allowed row.id).0 still) in
      let unheld : Candidate → Bool =
        λ x. not (held x (active_holds organization_id now archive)) in
      let (due_one, free) =
        (In-filter unheld c (due_candidates means organization_id job.class job.cutoff archive)).0 (
          In-sort_by means.precedes c
            (filter unheld (due_candidates means organization_id job.class job.cutoff archive))
            found) in
      let (r, there, same) =
        In-map (candidate_of job.class) c
          (filter (is_due job.class organization_id job.cutoff) (archive.rows job.class)) due_one in
      let (stored, due) =
        (In-filter (is_due job.class organization_id job.cutoff) r (archive.rows job.class)).0
          there in
      record {
        previewed_id = shown;
        approved = approved;
        source = r;
        stored = stored;
        same_row = named ∙ ap (λ (x : Candidate). x.id) same ∙ candidate_of-id job.class r;
        due = due;
        free =
            subst (λ x. held x (active_holds organization_id now archive) ≡ false) same
              (ground arith);
      }

  run_deletion-MayGo :
      is_absent job.approved_at ≡ false
      → In row (archive.rows job.class)
      → In row ((run_deletion means now archive job).0.rows job.class) ⊎ MayGo now archive job row
  run_deletion-MayGo approved m =
      let ids = eligible_ids means now archive job in
      let deleted =
        (deleted_ids means job.organization_id job.class ids (archive.rows job.class)).0 in
      let own : same_class job.class job.class ≡ true =
        (===_iff (class_name job.class) (class_name job.class)).1 refl in
      elim (Bool-cases (includes deleted row.id)) [
        | inr kept ↦
            let stays : In row (without means deleted (archive.rows job.class)) =
              (In-filter (λ (r : RetainedRow). not (includes deleted r.id)) row
                  (archive.rows job.class)).1
                (m, ground arith) in
            inl (rw own stays)
        | inl gone ↦ inr (
            eligible-MayGo approved (
              deleted_ids-includes means job.organization_id ids job.class row.id
                (archive.rows job.class) ((includes_iff deleted row.id).0 gone)))
      ]

  run_job-MayGo :
      In row (archive.rows job.class)
      → In row ((run_job means now archive job).0.rows job.class) ⊎ MayGo now archive job row
  run_job-MayGo m = elim (Bool-cases (is_completed means job.status)) [
    | inl done ↦ rw done (inl m)
    | inr open_one ↦
        elim (Bool-cases (is_absent job.approved_at || not (is_runnable means job.status))) [
          | inl barred ↦ rw (open_one, barred) (inl m)
          | inr free ↦ rw (open_one, free) (run_deletion-MayGo (ground arith) m)
        ]
  ]

-- A job deletes a row of its class only where it was approved, the row is in its preview, and at the
-- time of the execution a row of that id is due and under no active hold.
pub execute_deletion-MayGo :
    (means : Means) (now : ℕ) (id : String) (archive : Archive) (job : DeletionJob)
    (row : RetainedRow)
    → find (λ (j : DeletionJob). j.id === id) archive.jobs ≡ some job
    → In row (archive.rows job.class)
    → In row ((execute_deletion means now id archive).0.rows job.class) ⊎ MayGo now archive job row
unfolding execute_deletion
execute_deletion-MayGo means now id archive job row found m =
    rw found (run_job-MayGo means now archive job row m)
