-- ===== src/Goals/Progress.antt =====
-- The progress of a goal in src/lib/goals.ts.
use planeo.Prelude.{
  ℕ, ◌+◌, ◌*◌, ◌/◌, ◌≤◌, ◌<◌, false, List, length, filter, length-filter, ◌==◌, ==_iff, if_with,
  ◌≡◌, arith,
}
use native.Mathlib.Nat.{div-lt_iff_lt-mul, min-le_left}
use planeo.Goals.{
  Goal, Work, Summary, Method, manual, work, progress_by, manual_goal_progress, goal_progress,
}

rounded_share :
    (part total : ℕ)
    → part ≤ total
    → (total == 0) ≡ false
    → (part * 200 + total) / (total * 2) ≤ 100
rounded_share part total within some_work =
    let positive : 0 < total = ground (arith, some_work, ==_iff total 0) in
    let below : (part * 200 + total) / (total * 2) < 101 =
      (div-lt_iff_lt-mul {k = total * 2} {x = part * 200 + total} {y = 101}
          (omega (arith, positive))).1
        (omega (arith, within, positive)) in
    omega (arith, below)

manual_bound :
    (current_value target_value : ℕ) → manual_goal_progress current_value target_value ≤ 100
unfolding manual_goal_progress
manual_bound current_value target_value =
    omega (arith, min-le_left 100 ((current_value * 200 + target_value) / (target_value * 2)))

abbrev Bounded : Summary → Type 0
Bounded s = (s.progress ≤ 100) × (s.completed_linked_work ≤ s.visible_linked_work)

progress_by-Bounded :
    (method : Method) (g : Goal) (issues : List Work) → Bounded (progress_by method g issues)
progress_by-Bounded manual g issues = (manual_bound g.current_value g.target_value, omega arith)
progress_by-Bounded work g issues =
    let fewer = length-filter (λ (i : Work). i.completed) issues in
    (
      if_with (λ n. n ≤ 100) (length issues == 0) (λ none_linked. omega arith)
          (rounded_share (length (filter (λ (i : Work). i.completed) issues)) (length issues)
            fewer),
      fewer,
    )

-- The progress of a goal is at most 100, and no more work is completed than is linked.
pub goal_progress_bound :
    (g : Goal) (issues : List Work)
    → ((goal_progress g issues).progress ≤ 100)
      × ((goal_progress g issues).completed_linked_work
          ≤ (goal_progress g issues).visible_linked_work)
unfolding goal_progress
goal_progress_bound g issues = progress_by-Bounded g.progress_method g issues
