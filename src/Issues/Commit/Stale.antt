-- ===== src/Issues/Commit/Stale.antt =====
-- The transaction of PATCH of src/app/api/issues/[id]/route.ts does not look at the version of the
-- row that it updates.
use planeo.Prelude.{
  ℕ, String, Bool, not, ◌&&◌, Option, inl, inr, List, [], ◌∷◌, length, filter, ◌==◌, leb, maybe, ok,
  ◌≡◌, refl, ap, ◌∙◌, arith, Bool-cases, Option-cases,
}
use planeo.Prelude.Json.{Json}
use planeo.Permissions.{PolicyContext, ProjectRole}
use planeo.Issues.{Row, Store, update_row}
use planeo.Issues.Body.{Draft}
use planeo.Issues.Commit.{
  Project, target, in_status, full, over_limit, write, act_all, actions_of, execution, commit_edit,
}
use planeo.Issues.Commit.Steps.{has_id, find-update_row, commit_edit-Committed}

abbrev pub set_version : ℕ → Row → Row
set_version version row = record row { version = version }

-- The same rows, but for the version of one issue.
abbrev pub reversion : String → ℕ → Store → Store
reversion id version store = record store {
  issues = update_row id (set_version version) store.issues;
}

length-filter-update_row :
    (id : String) (version : ℕ) (p : Row → Bool) (rows : List Row)
    → ((row : Row) → p (set_version version row) ≡ p row)
    → length (filter p (update_row id (set_version version) rows)) ≡ length (filter p rows)
length-filter-update_row id version p [] same = refl
length-filter-update_row id version p (x ∷ rows) same =
    let rest = length-filter-update_row id version p rows same in
    elim (Bool-cases (has_id id x)) [
      | inl hit ↦ let alike = same x in rw hit (ground (arith, alike, rest, Bool-cases (p x)))
      | inr missed ↦ rw missed (ground (arith, rest, Bool-cases (p x)))
    ]

module _ (project : Project) (context : PolicyContext) (role : Option ProjectRole)
    (existing : Row) where
  full-reversion :
      (version : ℕ) (store : Store) (status_id : String) (limit : ℕ)
      → full project context role existing (reversion existing.id version store) status_id limit
        ≡ full project context role existing store status_id limit
  full-reversion version store status_id limit =
      ap (λ n. not (limit == 0) && leb limit n)
        (length-filter-update_row existing.id version
          (in_status project context role existing status_id) store.issues (λ row. refl))

  over_limit-reversion :
      (version : ℕ) (d : Draft) (store : Store)
      → over_limit project context role existing d (reversion existing.id version store)
        ≡ over_limit project context role existing d store
  over_limit-reversion version d store =
      elim (Option-cases (target project context role existing d)) [
        | inl stays ↦ rw stays refl
        | inr (status_id, moves) ↦ elim (Option-cases (project.wip_limit status_id)) [
          | inl unlimited ↦ rw (moves, unlimited) refl
          | inr (limit, limited) ↦
              rw (moves, limited) (full-reversion version store status_id limit)
        ]
      ]

  pub commit_edit-reversion :
      (given : Json) (d : Draft) (store after : Store) (version : ℕ)
      → commit_edit project context role existing given d store ≡ ok after
      → (final : Store) × (commit_edit project context role existing given d
            (reversion existing.id version store)
          ≡ ok final)
  unfolding commit_edit
  commit_edit-reversion given d store after version e =
      let done = commit_edit-Committed project context role existing given d store after e in
      let stored =
        find-update_row existing.id (set_version version) store.issues done.row (λ row. refl)
          done.stored in
      let executed : execution project context role existing (set_version version done.row) d
            (reversion existing.id version store)
          ≡ ok done.done =
        done.executed in
      let within = over_limit-reversion version d store ∙ done.within_limit in
      let valid = done.valid in
      let good = done.good_priority in
      (
        write project context role existing
            (act_all project context role existing
              (actions_of project context role existing done.done) d)
            done.values done.done (actions_of project context role existing done.done)
            (maybe d.description [] project.mentions) (set_version version done.row)
            (reversion existing.id version store),
        rw (stored, executed, within, valid, good) refl,
      )
