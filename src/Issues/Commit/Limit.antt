-- ===== src/Issues/Commit/Limit.antt =====
-- The work-in-progress limit of a column, which PATCH of src/app/api/issues/[id]/route.ts tests.
use planeo.Prelude.{
  ℕ, ◌+◌, ◌≤◌, String, Bool, true, false, Option, some, inl, inr, List, [], ◌∷◌, length, filter,
  any, ===_iff, ==_iff, ok, ◌≡◌, ◌≢◌, refl, subst, sym, arith, Bool-cases,
}
use planeo.Prelude.Json.{Json}
use planeo.Permissions.{PolicyContext, ProjectRole}
use planeo.Issues.{Row, Store, update_row}
use planeo.Issues.Body.{Draft}
use planeo.Issues.Commit.{Project, target, in_status, full, apply_draft, commit_edit}
use planeo.Issues.Commit.Steps.{has_id, commit_edit-Committed}

-- No id stands twice.
abbrev pub Unique : List Row → Type 0
Unique [] = Unit
Unique (row ∷ rows) = (any (has_id row.id) rows ≡ false) × Unique rows

module _ (id : String) (f : Row → Row) where
  update_row_none : (rows : List Row) → any (has_id id) rows ≡ false → update_row id f rows ≡ rows
  update_row_none [] h = refl
  update_row_none (x ∷ rows) h = ground (arith, update_row_none rows)

  rest_none :
      (x : Row) (rows : List Row)
      → Unique (x ∷ rows)
      → has_id id x ≡ true
      → any (has_id id) rows ≡ false
  rest_none x rows h hit =
      let same : x.id ≡ id = (===_iff x.id id).0 hit in let alone = h.0 in rw same at alone

  length-update_row :
      (p : Row → Bool) (rows : List Row)
      → Unique rows
      → length (filter p (update_row id f rows)) ≤ length (filter p rows) + 1
  length-update_row p [] h = ground arith
  length-update_row p (x ∷ rows) h = elim (Bool-cases (has_id id x)) [
    | inl hit ↦
        let rest = update_row_none rows (rest_none x rows h hit) in rw (hit, rest) (ground arith)
    | inr missed ↦ ground (arith, length-update_row p rows h.1)
  ]

-- After a move that is accepted, the status has no more issues than its column's limit, where the
-- limit is not 0 and no two issues have one id.
pub commit_edit_within_limit :
    (project : Project) (context : PolicyContext) (role : Option ProjectRole) (existing : Row)
    (given : Json) (d : Draft) (store after : Store) (status_id : String) (limit : ℕ)
    → Unique store.issues
    → target project context role existing d ≡ some status_id
    → project.wip_limit status_id ≡ some limit
    → limit ≢ 0
    → commit_edit project context role existing given d store ≡ ok after
    → length (filter (in_status project context role existing status_id) after.issues) ≤ limit
commit_edit_within_limit project context role existing given d store after status_id limit unique
      moves limited positive e =
    let done = commit_edit-Committed project context role existing given d store after e in
    let within = done.within_limit in
    let room : full project context role existing store status_id limit ≡ false =
      rw (moves, limited) at within in
    let grown =
      length-update_row existing.id (apply_draft project context role existing done.final)
        (in_status project context role existing status_id) store.issues unique in
    let counted =
      subst
        (λ rows.
          length (filter (in_status project context role existing status_id) rows)
          ≤ length (filter (in_status project context role existing status_id) store.issues) + 1)
        (sym done.issues) grown in
    ground (arith, room, counted, positive, ==_iff limit 0)
