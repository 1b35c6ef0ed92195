-- ===== src/Workflow/Drafts/Parts.antt =====
-- validateWorkflowDraft of src/lib/workflow.ts: what is collected from the parts of a draft.
use planeo.Prelude.{
  inl, inr, ◌⊎◌, ◌++◌, String, some, List, [], ◌∷◌, In, In-append, ◌===◌, ===_iff, ◌≡◌, refl, sym,
  ap, subst, ◌∙◌, Bool-cases, Option-cases,
}
use planeo.Prelude.Json.{
  Json, undefined, null, bool, num, str, arr, obj, as_string, as_object, as_array, get,
}
use planeo.Workflow.{WorkflowRule, as_rule, rules_of, rules, strings}
use planeo.Workflow.Drafts.{
  TransitionDraft, status_ids, condition_issue_types, all_rules, rules_issue_types, rule_fields,
  draft_fields,
}

-- An element of an array is an object with the fields given and a text for its type. Whatever else the
-- array has is no rule to the code, which leaves it untested.
abbrev pub HasRule : Json → List (String × Json) → String → Type 0
HasRule value fields type =
    (list : List Json) × (item : Json) × (as_array value ≡ some list)
    × In item list
    × (as_object item ≡ some fields)
    × (get "type" fields ≡ str type)

abbrev pub IsPartOf : TransitionDraft → Json → Type 0
IsPartOf item value = (value ≡ item.conditions) ⊎ (value ≡ item.validators) ⊎ (value ≡ item.actions)

abbrev pub rule_from : List (String × Json) → String → WorkflowRule
rule_from fields type = record { type = type; fields = fields }

as_rule-rule_from :
    (item : Json) (fields : List (String × Json)) (type : String)
    → as_object item ≡ some fields
    → get "type" fields ≡ str type
    → as_rule item ≡ some (rule_from fields type)
as_rule-rule_from item fields type object text =
    let named = ap as_string text in rw (object, named, as_rule) refl

In-rules_of :
    (list : List Json) (item : Json) (fields : List (String × Json)) (type : String)
    → In item list
    → as_rule item ≡ some (rule_from fields type)
    → In (rule_from fields type) (rules_of list)
unfolding rules_of
In-rules_of [] item fields type m read = absurd (elim m [ ])
In-rules_of (x ∷ list) item fields type (inl same) read =
    let here : as_rule x ≡ some (rule_from fields type) = ap as_rule (sym same) ∙ read in
    rw here (inl refl)
In-rules_of (x ∷ list) item fields type (inr m) read =
    let rest = In-rules_of list item fields type m read in
    elim (Option-cases (as_rule x)) [
      | inl nothing ↦ rw nothing rest
      | inr (first, there) ↦ rw there (inr rest)
    ]

pub HasRule-rules :
    (value : Json) (fields : List (String × Json)) (type : String)
    → HasRule value fields type
    → In (rule_from fields type) (rules value)
unfolding rules
HasRule-rules value fields type (list, item, array, m, object, text) =
    let all_of : rules_of list ≡ rules value = rw (array, rules) refl in
    subst (λ xs. In (rule_from fields type) xs) all_of
      (In-rules_of list item fields type m (as_rule-rule_from item fields type object text))

pub HasRule-all_rules :
    (item : TransitionDraft) (value : Json) (fields : List (String × Json)) (type : String)
    → IsPartOf item value
    → HasRule value fields type
    → In (rule_from fields type) (all_rules item)
HasRule-all_rules item value fields type part has =
    let m = HasRule-rules value fields type has in
    let rule = rule_from fields type in
    let later = rules item.validators ++ rules item.actions in
    elim part [
      | inl conditions ↦
          (In-append rule (rules item.conditions) later).1
            (inl (subst (λ v. In rule (rules v)) conditions m))
      | inr (inl validators) ↦ (In-append rule (rules item.conditions) later).1 (
          inr (
            (In-append rule (rules item.validators) (rules item.actions)).1
              (inl (subst (λ v. In rule (rules v)) validators m))))
      | inr (inr actions) ↦ (In-append rule (rules item.conditions) later).1 (
          inr (
            (In-append rule (rules item.validators) (rules item.actions)).1
              (inr (subst (λ v. In rule (rules v)) actions m))))
    ]

pub In-rules_issue_types :
    (list : List WorkflowRule) (rule : WorkflowRule) (id : String)
    → In rule list
    → rule.type ≡ "ISSUE_TYPE"
    → In id (strings (get "issueTypeIds" rule.fields))
    → In id (rules_issue_types list)
In-rules_issue_types [] rule id m type n = absurd (elim m [ ])
In-rules_issue_types (x ∷ list) rule id (inl same) type n =
    let x_type : x.type ≡ "ISSUE_TYPE" = ap (λ (w : WorkflowRule). w.type) (sym same) ∙ type in
    let x_ids =
      subst (λ (w : WorkflowRule). In id (strings (get "issueTypeIds" w.fields))) same n in
    rw ((===_iff x.type "ISSUE_TYPE").1 x_type) (
      (In-append id (strings (get "issueTypeIds" x.fields)) (rules_issue_types list)).1 (inl x_ids))
In-rules_issue_types (x ∷ list) rule id (inr m) type n =
    let rest = In-rules_issue_types list rule id m type n in
    elim (Bool-cases (x.type === "ISSUE_TYPE")) [
      | inr other ↦ rw other rest
      | inl here ↦ rw here (
          (In-append id (strings (get "issueTypeIds" x.fields)) (rules_issue_types list)).1
            (inr rest))
    ]

pub In-condition_issue_types :
    (items : List TransitionDraft) (item : TransitionDraft) (id : String)
    → In item items
    → In id (rules_issue_types (rules item.conditions))
    → In id (condition_issue_types items)
In-condition_issue_types [] item id m n = absurd (elim m [ ])
In-condition_issue_types (x ∷ items) item id (inl same) n =
    (In-append id (rules_issue_types (rules x.conditions)) (condition_issue_types items)).1
      (inl (subst (λ (t : TransitionDraft). In id (rules_issue_types (rules t.conditions))) same n))
In-condition_issue_types (x ∷ items) item id (inr m) n =
    (In-append id (rules_issue_types (rules x.conditions)) (condition_issue_types items)).1
      (inr (In-condition_issue_types items item id m n))

as_string-str : (value : Json) (s : String) → as_string value ≡ some s → value ≡ str s
as_string-str (str t) s e = cc
as_string-str undefined s e = cc
as_string-str null s e = cc
as_string-str (bool _) s e = cc
as_string-str (num _) s e = cc
as_string-str (arr _) s e = cc
as_string-str (obj _) s e = cc

pub In-status_ids :
    (items : List TransitionDraft) (ids : List String) (item : TransitionDraft)
    → status_ids items ≡ some ids
    → In item items
    → ((s : String) × (item.from_status_id ≡ str s) × In s ids)
      × ((s : String) × (item.to_status_id ≡ str s) × In s ids)
In-status_ids [] ids item e m = absurd (elim m [ ])
In-status_ids (x ∷ items) ids item e m = elim (Option-cases (as_string x.from_status_id)) [
  | inl bad ↦ absurd (cc (rw bad at e))
  | inr (from, e1) ↦ elim (Option-cases (as_string x.to_status_id)) [
    | inl bad ↦ absurd (cc (rw (e1, bad) at e))
    | inr (to, e2) ↦ elim (Option-cases (status_ids items)) [
      | inl bad ↦ absurd (cc (rw (e1, e2, bad) at e))
      | inr (rest, e3) ↦
          let made : some (from ∷ to ∷ rest) ≡ some ids = rw (e1, e2, e3) at e in
          let same : from ∷ to ∷ rest ≡ ids = cc in
          elim m [
            | inl here ↦ (
              (
                from,
                ap (λ (t : TransitionDraft). t.from_status_id) here
                    ∙ as_string-str x.from_status_id from e1,
                subst (In from) same (inl refl),
              ),
              (
                to,
                ap (λ (t : TransitionDraft). t.to_status_id) here
                    ∙ as_string-str x.to_status_id to e2,
                subst (In to) same (inr (inl refl)),
              ),
            )
            | inr later ↦
                let ((s, a, b), (t, c, d)) = In-status_ids items rest item e3 later in
                ((s, a, subst (In s) same (inr (inr b))), (t, c, subst (In t) same (inr (inr d))))
          ]
    ]
  ]
]

pub In-rule_fields :
    (list : List WorkflowRule) (rule : WorkflowRule) (id : String)
    → In rule list
    → get "fieldId" rule.fields ≡ str id
    → In id (rule_fields list)
In-rule_fields [] rule id m e = absurd (elim m [ ])
In-rule_fields (x ∷ list) rule id (inl same) e =
    let here : get "fieldId" x.fields ≡ str id =
      ap (λ (r : WorkflowRule). get "fieldId" r.fields) (sym same) ∙ e in
    rw here (inl refl)
In-rule_fields (x ∷ list) rule id (inr m) e =
    let rest = In-rule_fields list rule id m e in
    elim (Option-cases (as_string (get "fieldId" x.fields))) [
      | inl nothing ↦ rw nothing rest
      | inr (first, given) ↦ rw given (inr rest)
    ]

pub In-draft_fields :
    (items : List TransitionDraft) (item : TransitionDraft) (id : String)
    → In item items
    → In id (rule_fields (all_rules item))
    → In id (draft_fields items)
In-draft_fields [] item id m n = absurd (elim m [ ])
In-draft_fields (x ∷ items) item id (inl same) n =
    (In-append id (rule_fields (all_rules x)) (draft_fields items)).1
      (inl (subst (λ (t : TransitionDraft). In id (rule_fields (all_rules t))) same n))
In-draft_fields (x ∷ items) item id (inr m) n =
    (In-append id (rule_fields (all_rules x)) (draft_fields items)).1
      (inr (In-draft_fields items item id m n))
