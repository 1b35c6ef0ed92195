-- ===== src/Workflow/Evaluate.antt =====
-- evaluateTransition of src/lib/workflow.ts: which transition is taken, and when none is.
use planeo.Prelude.{
  Bool, true, false, Option, none, some, inl, inr, List, [], ◌∷◌, ◌≡◌, ◌≢◌, refl, sym, ap, subst,
  ◌∙◌, ◌↔◌, any, filter, find, find_sound, find-none, In, In-filter, In-any, any-In, Bool-cases,
  Option-cases, arith, ok, err,
}
use planeo.Prelude.Json.{Json}
use planeo.Workflow.{
  WorkflowRule, Issue, Transition, Request, rules, available, candidate, governs, validator_errors,
  ValidatorError, execute, evaluate_transition, no_transition,
}

execute_iff :
    (u t : Transition) (es : List ValidatorError) (actions : List WorkflowRule)
    → (execute u es ≡ ok (some (t, actions))) ↔ ((u ≡ t) × (es ≡ []) × (actions ≡ rules t.actions))
execute_iff u t [] actions = ground arith
execute_iff u t (x ∷ es) actions = (λ e. cc, λ (_, e, _). cc)

execute-ne-none : (u : Transition) (es : List ValidatorError) → execute u es ≢ ok none
execute-ne-none u [] e = cc
execute-ne-none u (x ∷ es) e = cc

execute-ne-refused : (u : Transition) (es : List ValidatorError) → execute u es ≢ err no_transition
execute-ne-refused u [] e = cc
execute-ne-refused u (x ∷ es) e = cc

any-false :
    {A : Type 0} (p : A → Bool) (xs : List A) → any p xs ≡ false → (a : A) → In a xs → p a ≡ false
any-false p [] h a m = elim m [ ]
any-false p (x ∷ xs) h a (inl e) = rw e (ground arith)
any-false p (x ∷ xs) h a (inr m) = any-false p xs (ground arith) a m

none_any :
    {A : Type 0} (p : A → Bool) (xs : List A) → ((a : A) → In a xs → p a ≡ false) → any p xs ≡ false
none_any p [] h = refl
none_any p (x ∷ xs) h = ground (arith, h x (inl refl), none_any p xs (λ a m. h a (inr m)))

module _ (same_json : Json → Json → Bool) (rows : List Transition) (issue : Issue)
    (input : Request) where
  -- The candidate that `find` chooses.
  abbrev pub chosen : Option Transition
  chosen = find (available same_json input issue) (filter (candidate input) rows)

  chosen-candidate :
      (t : Transition)
      → chosen ≡ some t
      → In t rows × (candidate input t ≡ true) × (available same_json input issue t ≡ true)
  chosen-candidate t e =
      let (fits, m) =
        find_sound (available same_json input issue) (filter (candidate input) rows) e in
      let (listed, c) = (In-filter (candidate input) t rows).0 m in (listed, c, fits)

  chosen-governed : (t : Transition) → chosen ≡ some t → any (governs input.project_id) rows ≡ true
  chosen-governed t e =
      let (listed, c, _) = chosen-candidate t e in
      In-any (governs input.project_id) t rows listed (ground arith)

  evaluate_free :
      any (governs input.project_id) rows ≡ false
      → evaluate_transition same_json rows issue input ≡ ok none
  unfolding evaluate_transition
  evaluate_free e = rw (e, evaluate_transition)

  evaluate_missing :
      any (governs input.project_id) rows ≡ true
      → chosen ≡ none
      → evaluate_transition same_json rows issue input ≡ err no_transition
  unfolding evaluate_transition
  evaluate_missing e missing = rw (e, missing, evaluate_transition)

  abbrev objections : Transition → List ValidatorError
  objections t = validator_errors issue input.proposed (rules t.validators)

  evaluate_found :
      (t : Transition)
      → chosen ≡ some t
      → evaluate_transition same_json rows issue input ≡ execute t (objections t)
  unfolding evaluate_transition
  evaluate_found t found = rw (chosen-governed t found, found, evaluate_transition)

  -- The transition that is taken, and its actions, by the code's own search and tests.
  pub chosen_iff :
      (t : Transition) (actions : List WorkflowRule)
      → (evaluate_transition same_json rows issue input ≡ ok (some (t, actions))) ↔ (
          (chosen ≡ some t)
          × (In t rows × (candidate input t ≡ true) × (available same_json input issue t ≡ true))
          × (validator_errors issue input.proposed (rules t.validators) ≡ [])
          × (actions ≡ rules t.actions))
  chosen_iff t actions = (
    λ e. elim (Bool-cases (any (governs input.project_id) rows)) [
      | inr free ↦ let answer = evaluate_free free in absurd (cc)
      | inl governed ↦ elim (Option-cases chosen) [
        | inl missing ↦ let answer = evaluate_missing governed missing in absurd (cc)
        | inr (u, found) ↦
            let (same, passed, own) =
              (execute_iff u t (objections u) actions).0 (sym (evaluate_found u found) ∙ e) in
            let first = found ∙ ap some same in
            (first, chosen-candidate t first, subst (λ x. objections x ≡ []) same passed, own)
      ]
    ],
    λ (found, _, passed, own).
        evaluate_found t found ∙ (execute_iff t t (objections t) actions).1 (refl, passed, own),
  )

  -- The project has no enabled transition exactly if the move is left to the project: the code
  -- answers that there is nothing to execute.
  pub evaluate_transition_free :
      (evaluate_transition same_json rows issue input ≡ ok none)
      ↔ ((t : Transition) → In t rows → governs input.project_id t ≡ false)
  evaluate_transition_free = (
    λ e t m. elim (Bool-cases (any (governs input.project_id) rows)) [
      | inr free ↦ any-false (governs input.project_id) rows free t m
      | inl governed ↦ elim (Option-cases chosen) [
        | inl missing ↦ let answer = evaluate_missing governed missing in absurd (cc)
        | inr (u, found) ↦
            absurd (execute-ne-none u (objections u) (sym (evaluate_found u found) ∙ e))
      ]
    ],
    λ h. evaluate_free (none_any (governs input.project_id) rows h),
  )

  -- The move is refused for want of a transition exactly if the project has an enabled transition
  -- and none of the candidates for the two statuses is available to the actor.
  pub evaluate_transition_refused :
      (evaluate_transition same_json rows issue input ≡ err no_transition) ↔ (
        ((t : Transition) × In t rows × (governs input.project_id t ≡ true))
        × ((t : Transition)
            → In t rows
            → candidate input t ≡ true
            → available same_json input issue t ≡ false))
  evaluate_transition_refused = (
    λ e. elim (Bool-cases (any (governs input.project_id) rows)) [
      | inr free ↦ let answer = evaluate_free free in absurd (cc)
      | inl governed ↦ elim (Option-cases chosen) [
        | inl missing ↦ (
          any-In (governs input.project_id) rows governed,
          λ t m c.
              find-none (available same_json input issue) (filter (candidate input) rows) t missing
                ((In-filter (candidate input) t rows).1 (m, c)),
        )
        | inr (u, found) ↦
            absurd (execute-ne-refused u (objections u) (sym (evaluate_found u found) ∙ e))
      ]
    ],
    λ ((t, m, g), h). elim (Option-cases chosen) [
      | inl missing ↦ evaluate_missing (In-any (governs input.project_id) t rows m g) missing
      | inr (u, found) ↦
          let (listed, c, fits) = chosen-candidate u found in
          let unfit = h u listed c in absurd (cc)
    ],
  )
