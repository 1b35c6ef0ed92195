-- ===== src/Workflow/Satisfied.antt =====
-- The tests of src/lib/workflow.ts on validators, equal to what Conditions describes.
use planeo.Prelude.{
  String, true, not, ◌&&◌, ◌||◌, some, inl, inr, ◌⊎◌, List, [], ◌∷◌, ◌++◌, any, In, any-In, In-any,
  ◌===◌, ===_iff, ◌≡◌, ◌≢◌, ◌↔◌, refl, sym, subst, arith, Bool-cases,
}
use planeo.Prelude.Json.{Json, get}
use planeo.Workflow.{
  WorkflowRule, FieldValue, Issue, is_text, truthy_json, truthy_text, is_null, present,
  validator_error, validator_errors,
}
use planeo.Workflow.Conditions.{HasField, IsSatisfied, is_text_iff, is_null_iff, truthy_text_iff}

append-nil-both : {A : Type 0} (xs ys : List A) → xs ++ ys ≡ [] → (xs ≡ []) × (ys ≡ [])
append-nil-both [] ys e = (refl, e)
append-nil-both (x ∷ xs) ys e = absurd cc

module _ (issue : Issue) (proposed : List (String × Json)) where
  present_iff :
      (rule : WorkflowRule) → (present issue proposed rule ≡ true) ↔ HasField issue proposed rule
  unfolding present
  present_iff rule =
      let field_text = is_text_iff "assignee" (get "field" rule.fields) in
      let nulled = is_null_iff (get "assigneeId" proposed) in
      let had = truthy_text_iff issue.assignee_id in
      let named = λ (v : FieldValue). is_text v.field_id (get "fieldId" rule.fields) in
      elim (Bool-cases (is_text "assignee" (get "field" rule.fields))) [
        | inl asked ↦ (
          λ e.
              let e1 : not (is_null (get "assigneeId" proposed))
                    && (truthy_json (get "assigneeId" proposed) || truthy_text issue.assignee_id)
                  ≡ true =
                rw asked at e in
              inl (
                field_text.0 asked,
                λ gone. let bad = nulled.1 gone in absurd (ground arith),
                elim (Bool-cases (truthy_json (get "assigneeId" proposed))) [
                  | inl given ↦ inl given
                  | inr missing ↦ inr (had.0 (ground arith))
                ],
              ),
          elim [
            | inl (_, kept, given) ↦ elim (Bool-cases (is_null (get "assigneeId" proposed))) [
              | inl gone ↦ absurd (kept (nulled.0 gone))
              | inr there ↦ elim given [
                | inl now_given ↦ rw asked (ground arith)
                | inr before ↦ let truthy = had.1 before in rw asked (ground arith)
              ]
            ]
            | inr (other, _) ↦ absurd (other (field_text.0 asked))
          ],
        )
        | inr other ↦ (
          λ e.
              let e1 : any named issue.custom_field_values ≡ true = rw other at e in
              let (v, m, same) = any-In named issue.custom_field_values e1 in
              inr (
                λ asked. let bad = field_text.1 asked in absurd cc,
                (v, m, (is_text_iff v.field_id (get "fieldId" rule.fields)).0 same),
              ),
          elim [
            | inl (asked, _, _) ↦ let bad = field_text.1 asked in absurd cc
            | inr (_, (v, m, same)) ↦ rw other (
                In-any named v issue.custom_field_values m
                  ((is_text_iff v.field_id (get "fieldId" rule.fields)).1 same))
          ],
        )
      ]

  resolution_iff :
      (truthy_json (get "resolution" proposed) || truthy_text issue.resolution ≡ true) ↔ (
        (truthy_json (get "resolution" proposed) ≡ true)
        ⊎ ((s : String) × (issue.resolution ≡ some s) × (s ≢ "")))
  resolution_iff = (
    λ e. elim (Bool-cases (truthy_json (get "resolution" proposed))) [
      | inl given ↦ inl given
      | inr missing ↦ inr ((truthy_text_iff issue.resolution).0 (ground arith))
    ],
    elim [
      | inl given ↦ ground arith
      | inr before ↦ let truthy = (truthy_text_iff issue.resolution).1 before in ground arith
    ],
  )

  validator_error-IsSatisfied :
      (rule : WorkflowRule)
      → validator_error issue proposed rule ≡ []
      → IsSatisfied issue proposed rule
  unfolding validator_error present
  validator_error-IsSatisfied rule e = record {
    resolved = λ type.
        let given = truthy_json (get "resolution" proposed) || truthy_text issue.resolution in
        elim (Bool-cases given) [
          | inl good ↦ resolution_iff.0 good
          | inr bad ↦ absurd (cc (rw (type, bad) at e))
        ];
    filled = λ type. elim (Bool-cases (present issue proposed rule)) [
      | inl good ↦ (present_iff rule).0 good
      | inr bad ↦ absurd (cc (rw (type, bad) at e))
    ];
  }

  IsSatisfied-validator_error :
      (rule : WorkflowRule)
      → IsSatisfied issue proposed rule
      → validator_error issue proposed rule ≡ []
  unfolding validator_error present
  IsSatisfied-validator_error rule good = elim (Bool-cases (rule.type === "RESOLUTION")) [
    | inl a ↦
        let type = (===_iff rule.type "RESOLUTION").0 a in
        let given = resolution_iff.1 (good.resolved type) in rw (type, given) refl
    | inr a ↦ elim (Bool-cases (rule.type === "REQUIRED_FIELD")) [
      | inl b ↦
          let type = (===_iff rule.type "REQUIRED_FIELD").0 b in
          let there = (present_iff rule).1 (good.filled type) in rw (type, there) refl
      | inr b ↦ rw (a, b) refl
    ]
  ]

  pub validator_errors_iff :
      (list : List WorkflowRule)
      → (validator_errors issue proposed list ≡ [])
        ↔ ((rule : WorkflowRule) → In rule list → IsSatisfied issue proposed rule)
  unfolding validator_errors
  validator_errors_iff [] = (λ e rule m. absurd (elim m [ ]), λ h. refl)
  validator_errors_iff (x ∷ list) = (
    λ e rule m.
        let (own, rest) =
          append-nil-both (validator_error issue proposed x) (validator_errors issue proposed list)
            e in
        elim m [
          | inl same ↦
              subst (IsSatisfied issue proposed) (sym same) (validator_error-IsSatisfied x own)
          | inr later ↦ (validator_errors_iff list).0 rest rule later
        ],
    λ h.
        let own = IsSatisfied-validator_error x (h x (inl refl)) in
        let rest = (validator_errors_iff list).1 (λ rule m. h rule (inr m)) in rw (own, rest) refl,
  )
