-- ===== src/Workflow/Met.antt =====
-- The tests of src/lib/workflow.ts on conditions, equal to what Conditions describes.
use planeo.Prelude.{
  Bool, true, false, ◌&&◌, inl, inr, any, includes, includes_iff, any-In, In-any, all-In, all_of_In,
  ◌===◌, ===_iff, ◌≡◌, ◌↔◌, sym, arith, Bool-cases,
}
use planeo.Prelude.Json.{Json, get}
use planeo.Workflow.{
  WorkflowRule, FieldValue, Issue, Transition, Request, rules, strings, is_text, is_id, role_name,
  holds, candidate, available,
}
use planeo.Workflow.Conditions.{
  Meets, IsOpen, is_text_iff, is_id_iff, role_name-HasRole, HasRole-role_name,
}

module _ (same_json : Json → Json → Bool) (input : Request) (issue : Issue) where
  abbrev has_value : WorkflowRule → FieldValue → Bool
  has_value rule v =
      is_text v.field_id (get "fieldId" rule.fields) && same_json v.value (get "value" rule.fields)

  holds-Meets :
      (rule : WorkflowRule)
      → holds same_json input issue rule ≡ true
      → Meets same_json input issue rule
  unfolding holds
  holds-Meets rule e = elim (Bool-cases (rule.type === "ROLE")) [
    | inl a ↦
        let e1 : includes (strings (get "roles" rule.fields)) (role_name input) ≡ true =
          rw a at e in
        inl (
          (===_iff rule.type "ROLE").0 a,
          (
            role_name input,
            role_name-HasRole input,
            (includes_iff (strings (get "roles" rule.fields)) (role_name input)).0 e1,
          ),
        )
    | inr a ↦ elim (Bool-cases (rule.type === "ASSIGNEE")) [
      | inl b ↦
          let e1 : is_id issue.assignee_id input.actor_id ≡ true = rw (a, b) at e in
          inr (
            inl (
              (===_iff rule.type "ASSIGNEE").0 b,
              (is_id_iff issue.assignee_id input.actor_id).0 e1,
            ))
      | inr b ↦ elim (Bool-cases (rule.type === "REPORTER")) [
        | inl c ↦
            let e1 : (issue.reporter_id === input.actor_id) ≡ true = rw (a, b, c) at e in
            inr (
              inr (
                inl (
                  (===_iff rule.type "REPORTER").0 c,
                  (===_iff issue.reporter_id input.actor_id).0 e1,
                )))
        | inr c ↦ elim (Bool-cases (rule.type === "ISSUE_TYPE")) [
          | inl d ↦
              let ids = strings (get "issueTypeIds" rule.fields) in
              let e1 : includes ids issue.issue_type_id ≡ true = rw (a, b, c, d) at e in
              inr (
                inr (
                  inr (
                    inl (
                      (===_iff rule.type "ISSUE_TYPE").0 d,
                      (includes_iff ids issue.issue_type_id).0 e1,
                    ))))
          | inr d ↦ elim (Bool-cases (rule.type === "FIELD_EQUALS")) [
            | inl f ↦
                let e1 : any (has_value rule) issue.custom_field_values ≡ true =
                  rw (a, b, c, d, f) at e in
                let (v, m, both) = any-In (has_value rule) issue.custom_field_values e1 in
                let here : is_text v.field_id (get "fieldId" rule.fields) ≡ true = ground arith in
                inr (
                  inr (
                    inr (
                      inr (
                        (===_iff rule.type "FIELD_EQUALS").0 f,
                        (
                          v,
                          m,
                          (is_text_iff v.field_id (get "fieldId" rule.fields)).0 here,
                          ground arith,
                        ),
                      ))))
            | inr f ↦ absurd (let e1 : false ≡ true = rw (a, b, c, d, f) at e in cc)
          ]
        ]
      ]
    ]
  ]

  Meets-holds :
      (rule : WorkflowRule)
      → Meets same_json input issue rule
      → holds same_json input issue rule ≡ true
  unfolding holds
  Meets-holds rule (inl (type, (name, has, m))) =
      let there = (includes_iff (strings (get "roles" rule.fields)) name).1 m in
      rw (type, sym (HasRole-role_name input name has)) there
  Meets-holds rule (inr (inl (type, same))) =
      rw type ((is_id_iff issue.assignee_id input.actor_id).1 same)
  Meets-holds rule (inr (inr (inl (type, same)))) =
      rw type ((===_iff issue.reporter_id input.actor_id).1 same)
  Meets-holds rule (inr (inr (inr (inl (type, m))))) =
      rw type ((includes_iff (strings (get "issueTypeIds" rule.fields)) issue.issue_type_id).1 m)
  Meets-holds rule (inr (inr (inr (inr (type, (v, m, named, same)))))) =
      let here = (is_text_iff v.field_id (get "fieldId" rule.fields)).1 named in
      rw type (In-any (has_value rule) v issue.custom_field_values m (ground arith))

  pub candidate_iff :
      (t : Transition)
      → ((candidate input t ≡ true) × (available same_json input issue t ≡ true))
        ↔ IsOpen same_json input issue t
  candidate_iff t = (
    λ (c, fits). record {
      of_project = (===_iff t.project_id input.project_id).0 (ground arith);
      enabled = ground arith;
      from = (===_iff t.from_status_id input.from_status_id).0 (ground arith);
      to = (===_iff t.to_status_id input.to_status_id).0 (ground arith);
      met = λ rule m.
          holds-Meets rule
            (all-In (λ r. holds same_json input issue r) rule (rules t.conditions) fits m);
    },
    λ open_one.
        let a = (===_iff t.project_id input.project_id).1 open_one.of_project in
        let b = open_one.enabled in
        let c = (===_iff t.from_status_id input.from_status_id).1 open_one.from in
        let d = (===_iff t.to_status_id input.to_status_id).1 open_one.to in
        (
          ground arith,
          all_of_In (λ r. holds same_json input issue r) (rules t.conditions)
              (λ rule m. Meets-holds rule (open_one.met rule m)),
        ),
  )
