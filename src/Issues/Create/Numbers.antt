-- ===== src/Issues/Create/Numbers.antt =====
-- POST of src/app/api/issues/route.ts: the numbers that the issues of a project have.
use planeo.Prelude.{
  ℕ, ◌+◌, ◌≤◌, String, Bool, false, ◌&&◌, inl, inr, List, [], ◌∷◌, any, ◌===◌, ◌==◌, ==_iff,
  ===_iff, not, ok, throw_if_passed, >>=-eq-ok, ◌≡◌, refl, subst, ap, arith, Bool-cases,
  Option-cases,
}
use planeo.Prelude.Json.{Json, as_object, get}
use planeo.Permissions.{PolicyContext, issue_create, require_project_permission}
use planeo.Identity.{Directory}
use planeo.Queues.{Project}
use planeo.Issues.{Row}
use planeo.Issues.Create.{
  CreateSite, Board, Numbered, NewIssue, project_missing, bump, commit_issue, insert_issue,
  create_issue, project_for, written_fields, new_row, new_title, read_request, text_or,
}

-- The number of another entry of the project.
abbrev is_same : Numbered → Numbered → Bool
is_same n m = n.project_id === m.project_id && (n.number == m.number)

-- No number is above the counter of its project, and none is given twice.
abbrev pub IsNumbered : (String → ℕ) → List Numbered → Type 0
IsNumbered sequence [] = Unit
IsNumbered sequence (n ∷ numbers) =
    (n.number ≤ sequence n.project_id)
    × (any (is_same n) numbers ≡ false)
    × IsNumbered sequence numbers

bump-le :
    (project_id id : String) (sequence : String → ℕ) → sequence id ≤ bump project_id sequence id
bump-le project_id id sequence = ground arith

IsNumbered-bump :
    (project_id : String) (sequence : String → ℕ) (numbers : List Numbered)
    → IsNumbered sequence numbers
    → IsNumbered (bump project_id sequence) numbers
IsNumbered-bump project_id sequence [] h = tt
IsNumbered-bump project_id sequence (n ∷ numbers) h = (
  omega (arith, h.0, bump-le project_id n.project_id sequence),
  h.1,
  IsNumbered-bump project_id sequence numbers h.2,
)

above-fresh :
    (new : Numbered) (sequence : String → ℕ) (numbers : List Numbered)
    → IsNumbered sequence numbers
    → new.number ≡ sequence new.project_id + 1
    → any (is_same new) numbers ≡ false
above-fresh new sequence [] h e = refl
above-fresh new sequence (n ∷ numbers) h e =
    let rest = above-fresh new sequence numbers h.2 e in
    elim (Bool-cases (new.project_id === n.project_id)) [
      | inr other ↦ ground arith
      | inl here ↦
          let same = ap sequence ((===_iff new.project_id n.project_id).0 here) in
          ground (arith, ==_iff new.number n.number, h.0, same)
    ]

-- What a new issue is numbered, and that it is stored.
pub record IsPlaced (board after : Board) (row : Row) : Type 0 where
  pub numbered : IsNumbered after.sequence after.numbers
  pub entry : Numbered
  pub first_entry : entry ∷ board.numbers ≡ after.numbers
  pub of_issue : entry.issue_id ≡ row.id
  pub of_project : entry.project_id ≡ row.project_id
  pub next_number : entry.number ≡ board.sequence row.project_id + 1
  pub stored : row ∷ (board.store).issues ≡ (after.store).issues

module _ (site : CreateSite) (context : PolicyContext) (directory : Directory) where
  insert_issue-IsNumbered :
      (p : Project) (id : String) (r : NewIssue) (values : List (String × Json)) (board : Board)
      → IsNumbered board.sequence board.numbers
      → IsNumbered
          (insert_issue site context directory p id r values board).sequence
          (insert_issue site context directory p id r values board).numbers
  insert_issue-IsNumbered p id r values board h =
      let next : bump p.id board.sequence p.id ≡ board.sequence p.id + 1 =
        ground (arith, ===_iff p.id p.id) in
      let new : Numbered = record {
        project_id = p.id;
        issue_id = id;
        number = bump p.id board.sequence p.id;
      } in
      (
        omega arith,
        above-fresh new board.sequence board.numbers h next,
        IsNumbered-bump p.id board.sequence board.numbers h,
      )

  commit_issue-IsPlaced :
      (p : Project) (id : String) (r : NewIssue) (board after : Board) (row : Row)
      → commit_issue site context directory p id r board ≡ ok (after, row)
      → IsNumbered board.sequence board.numbers
      → IsPlaced board after row
  commit_issue-IsPlaced p id r board after row e h =
      let (values, written, e1) = >>=-eq-ok (written_fields site context directory p r) _ e in
      let made : ◌≡◌ {A = Board × Row}
          (
            insert_issue site context directory p id r values board,
            new_row site context directory p id r,
          )
          (after, row) =
        cc in
      let next : bump p.id board.sequence p.id ≡ board.sequence p.id + 1 =
        ground (arith, ===_iff p.id p.id) in
      subst (λ (x : Board × Row). IsPlaced board x.0 x.1) made
        (record {
          numbered = insert_issue-IsNumbered p id r values board h;
          entry = record {
            project_id = p.id;
            issue_id = id;
            number = bump p.id board.sequence p.id;
          };
          first_entry = refl;
          of_issue = refl;
          of_project = refl;
          next_number = next;
          stored = refl;
        })

  -- An issue that is made has the number after the counter of its project, and the numbers of a
  -- project stay different, none above its counter.
  pub create_issue-IsPlaced :
      (id : String) (value : Json) (board after : Board) (row : Row)
      → create_issue site context directory id value board ≡ ok (after, row)
      → IsNumbered board.sequence board.numbers
      → IsPlaced board after row
  unfolding create_issue
  create_issue-IsPlaced id value board after row e h = elim (Option-cases (as_object value)) [
    | inl other ↦ absurd (cc (rw other at e))
    | inr (body, known) ↦
        let e1 = rw known at e in
        let (title, read, e2) = >>=-eq-ok (new_title (get "title" body)) _ e1 in
        elim (Option-cases
          (project_for site context directory (text_or "WEB" (get "projectKey" body)))) [
            | inl missing ↦ absurd (cc (rw missing at e2))
            | inr (p, found) ↦
                let e3 = rw found at e2 in
                let (allowed, e4) =
                  throw_if_passed
                    (not (require_project_permission site.policy context p.id issue_create))
                    project_missing _ e3 in
                let (r, asked, e5) =
                  >>=-eq-ok (read_request site context directory p body title) _ e4 in
                commit_issue-IsPlaced p id r board after row e5 h
          ]
  ]
