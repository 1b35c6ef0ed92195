-- ===== src/Workflow/Drafts/Valid.antt =====
-- validateWorkflowDraft of src/lib/workflow.ts: what the transitions of an accepted draft are.
use planeo.Prelude.{
  ℕ, ◌+◌, ◌≤◌, inl, inr, String, Bool, true, false, List, [], ◌∷◌, map, filter, length,
  length-filter_kept, In, In-any, all-In, In-unique, units, trim, unique, ltb, ◌===◌, ===_iff, ◌==◌,
  ==_iff, ok, throw_if_passed, >>=-eq-ok, ◌≡◌, ◌≢◌, refl, sym, subst, ◌∙◌, arith, Bool-cases,
  Option-cases,
}
use planeo.Prelude.Json.{Json, undefined, null, bool, num, str, arr, obj, get, same_value}
use planeo.Workflow.{WorkflowRule, rules, strings}
use planeo.Workflow.Drafts.{
  TransitionDraft, ReadyDraft, too_many, foreign_status, bad_issue_type, missing_field, same_status,
  long_name, rule_without_type, DraftTables, lacks_row, status_ids, condition_issue_types,
  all_rules, draft_fields, title_of, has_untyped, ready_draft, ready_drafts,
  validate_workflow_draft,
}
use planeo.Workflow.Drafts.Parts.{
  HasRule, IsPartOf, rule_from, HasRule-rules, HasRule-all_rules, In-rules_issue_types,
  In-condition_issue_types, In-status_ids, In-rule_fields, In-draft_fields,
}

-- A value that is the id of a row that there is.
abbrev pub IsRowOf : (String → Bool) → Json → Type 0
IsRowOf has value = (id : String) × (value ≡ str id) × (has id ≡ true)

-- The positions count on from a number.
abbrev pub AreNumbered : ℕ → List ReadyDraft → Type 0
AreNumbered n [] = Unit
AreNumbered n (r ∷ rs) = (r.position ≡ n) × AreNumbered (n + 1) rs

-- What the tests of a draft alone ensure.
pub record IsReady (r : ReadyDraft) : Type 0 where
  pub moves : same_value r.draft.from_status_id r.draft.to_status_id ≡ false
  pub titled : (r.title ≢ "") × (units r.title ≤ 100)
  pub typed :
      (value : Json) (fields : List (String × Json)) (type : String)
      → IsPartOf r.draft value
      → HasRule value fields type
      → type ≢ ""

-- What the tests against the project ensure.
pub record IsOfProject (tables : DraftTables) (item : TransitionDraft) : Type 0 where
  pub from : IsRowOf tables.has_status item.from_status_id
  pub to : IsRowOf tables.has_status item.to_status_id
  pub issue_types :
      (fields : List (String × Json)) (id : String)
      → HasRule item.conditions fields "ISSUE_TYPE"
      → In id (strings (get "issueTypeIds" fields))
      → tables.has_issue_type id ≡ true
  pub fields :
      (value : Json) (fields : List (String × Json)) (type id : String)
      → IsPartOf item value
      → HasRule value fields type
      → get "fieldId" fields ≡ str id
      → tables.has_field id ≡ true

not-lacks_row :
    (has : String → Bool) (ids : List String) (id : String)
    → lacks_row has ids ≡ false
    → In id ids
    → has id ≡ true
not-lacks_row has ids id h m =
    let counted : (length (filter has (unique ids)) == length (unique ids)) ≡ true = ground arith in
    let same = (==_iff (length (filter has (unique ids))) (length (unique ids))).0 counted in
    all-In has id (unique ids) (length-filter_kept has (unique ids) same) ((In-unique id ids).1 m)

title_of_given : (value : Json) (title : String) → title_of value ≡ ok title → title ≢ ""
title_of_given undefined title e blank = let same : "Transition" ≡ title = cc in absurd cc
title_of_given null title e blank = let same : "Transition" ≡ title = cc in absurd cc
title_of_given (str s) title e blank = elim (Bool-cases (trim s === "")) [
  | inl empty ↦
      let e1 : ok "Transition" ≡ ok title = rw empty at e in
      let same : "Transition" ≡ title = cc in absurd cc
  | inr given ↦
      let e1 : ok (trim s) ≡ ok title = rw given at e in
      let same : trim s ≡ title = cc in
      let bad = (===_iff (trim s) "").1 (same ∙ blank) in absurd cc
]
title_of_given (bool _) title e blank = absurd cc
title_of_given (num _) title e blank = absurd cc
title_of_given (arr _) title e blank = absurd cc
title_of_given (obj _) title e blank = absurd cc

ready_draft-IsReady :
    (n : ℕ) (item : TransitionDraft) (r : ReadyDraft)
    → ready_draft n item ≡ ok r
    → (r.draft ≡ item) × (r.position ≡ n) × IsReady r
ready_draft-IsReady n item r e =
    let (moves, e1) =
      throw_if_passed (same_value item.from_status_id item.to_status_id) same_status _ e in
    let (title, read, e2) = >>=-eq-ok (title_of item.name) _ e1 in
    let (short, e3) = throw_if_passed (ltb 100 (units title)) long_name _ e2 in
    let (typed, e4) = throw_if_passed (has_untyped item) rule_without_type _ e3 in
    let made : ReadyDraft = record { draft = item; title = title; position = n } in
    let same : made ≡ r = cc in
    subst (λ (x : ReadyDraft). (x.draft ≡ item) × (x.position ≡ n) × IsReady x) same
      (
        refl,
        refl,
        record {
          moves = moves;
          titled = (title_of_given item.name title read, ground arith);
          typed = λ value fields type part has blank.
              let m = HasRule-all_rules item value fields type part has in
              let bad = (===_iff type "").1 blank in
              let found =
                In-any (λ (w : WorkflowRule). w.type === "") (rule_from fields type)
                  (all_rules item) m bad in
              absurd cc;
        },
      )

ready_drafts-IsReady :
    (n : ℕ) (items : List TransitionDraft) (rs : List ReadyDraft)
    → ready_drafts n items ≡ ok rs
    → (map (λ r. r.draft) rs ≡ items) × AreNumbered n rs × ((r : ReadyDraft) → In r rs → IsReady r)
ready_drafts-IsReady n [] rs e =
    let same : [] ≡ rs = cc in
    subst
      (λ (xs : List ReadyDraft).
        (map (λ r. r.draft) xs ≡ []) × AreNumbered n xs × ((r : ReadyDraft) → In r xs → IsReady r))
      same (refl, tt, λ r m. absurd (elim m [ ]))
ready_drafts-IsReady n (item ∷ items) rs e =
    let (first, e1, e2) = >>=-eq-ok (ready_draft n item) _ e in
    let (rest, e3, e4) = >>=-eq-ok (ready_drafts (n + 1) items) _ e2 in
    let (own, at_n, ready) = ready_draft-IsReady n item first e1 in
    let (others, after, all_ready) = ready_drafts-IsReady (n + 1) items rest e3 in
    let same : first ∷ rest ≡ rs = cc in
    subst
      (λ (xs : List ReadyDraft).
        (map (λ r. r.draft) xs ≡ item ∷ items)
        × AreNumbered n xs
        × ((r : ReadyDraft) → In r xs → IsReady r))
      same
      (
        cc,
        (at_n, after),
        λ r m. elim m [ inl here ↦ subst IsReady (sym here) ready | inr later ↦ all_ready r later ],
      )

-- A draft that is accepted has at most 200 transitions, which are returned in their order, numbered
-- from 0. Each changes the status and has a name of 1 to 100 code units, and its statuses are of the
-- project. Of its conditions, validators and actions, those that are objects with a text for their
-- type have one that is not empty and name fields of the project, and such conditions on the type of
-- an issue name types of the project. Nothing is said of values of another shape, which the code lets
-- through: a condition without a type is accepted.
pub validate_workflow_draft-IsReady :
    (tables : DraftTables) (items : List TransitionDraft) (rs : List ReadyDraft)
    → validate_workflow_draft tables items ≡ ok rs
    → (length items ≤ 200)
      × (map (λ r. r.draft) rs ≡ items)
      × AreNumbered 0 rs
      × ((r : ReadyDraft) → In r rs → IsReady r)
      × ((item : TransitionDraft) → In item items → IsOfProject tables item)
unfolding validate_workflow_draft
validate_workflow_draft-IsReady tables items rs e =
    let (few, e0) = throw_if_passed (ltb 200 (length items)) too_many _ e in
    elim (Option-cases (status_ids items)) [
      | inl bad ↦ absurd (cc (rw bad at e0))
      | inr (ids, read) ↦
          let (known, e1) =
            throw_if_passed (lacks_row tables.has_status ids) foreign_status _ (rw read at e0) in
          let (typed, e2) =
            throw_if_passed (lacks_row tables.has_issue_type (condition_issue_types items))
              bad_issue_type _ e1 in
          let (there, e3) =
            throw_if_passed (lacks_row tables.has_field (draft_fields items)) missing_field _ e2 in
          let (same, numbered, ready) = ready_drafts-IsReady 0 items rs e3 in
          (
            ground arith,
            same,
            numbered,
            ready,
            λ item m.
                let ((s, a, b), (t, c, d)) = In-status_ids items ids item read m in
                record {
                  from = (s, a, not-lacks_row tables.has_status ids s known b);
                  to = (t, c, not-lacks_row tables.has_status ids t known d);
                  issue_types = λ fields id has n.
                      not-lacks_row tables.has_issue_type (condition_issue_types items) id typed (
                        In-condition_issue_types items item id m (
                          In-rules_issue_types (rules item.conditions)
                            (rule_from fields "ISSUE_TYPE") id
                            (HasRule-rules item.conditions fields "ISSUE_TYPE" has) refl n));
                  fields = λ value fields type id part has named.
                      not-lacks_row tables.has_field (draft_fields items) id there (
                        In-draft_fields items item id m (
                          In-rule_fields (all_rules item) (rule_from fields type) id
                            (HasRule-all_rules item value fields type part has) named));
                },
          )
    ]
