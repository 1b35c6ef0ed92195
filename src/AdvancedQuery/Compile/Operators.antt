-- ===== src/AdvancedQuery/Compile/Operators.antt =====
-- compile of src/lib/advanced-query.ts: what is left of an operator in the filter.
use planeo.Prelude.{ℕ, Option, none, some, List, [], ◌∷◌, ◌≡◌, ◌↔◌, In, arith}
use planeo.Prelude.Int.{ℤ}
use planeo.AdvancedQuery.{
  Field, key, text, summary, description, assignee, reporter, label, sprint, release, parent, link,
  request_type, created, updated, due, resolved, Operator, in_list, not_in_list, term, CaseMaps,
}
use planeo.AdvancedQuery.Compile.{
  Relation, labels, sprints, releases, comparison, text_comparison, user_predicate,
  relation_predicate, date_comparison, compile_term, compile,
}

-- The fields for which the code builds no negative filter of a list.
abbrev pub unnegated : List Field
unnegated =
    key ∷ text ∷ summary ∷ description ∷ assignee ∷ reporter ∷ parent ∷ link ∷ request_type
    ∷ created ∷ updated ∷ due ∷ resolved ∷ []

-- The fields that are looked up by their value alone.
abbrev pub valued : List Field
valued = key ∷ text ∷ description ∷ []

-- The fields with related rows.
abbrev pub relation_of : Field → Option Relation
relation_of label = some labels
relation_of sprint = some sprints
relation_of release = some releases
relation_of _ = none

module _ (maps : CaseMaps) (midnight : List ℕ → Option ℤ) (now : ℕ) where
  -- NOT IN compiles to the filter of IN for thirteen of the twenty fields, the assignee, the
  -- reporter and the summary among them, and to another filter for the other seven.
  pub negated_list_iff :
      (f : Field) (values : List (List ℕ))
      → (compile maps midnight now (term f not_in_list values)
          ≡ compile maps midnight now (term f in_list values))
        ↔ In f unnegated
  unfolding compile compile_term comparison text_comparison user_predicate relation_predicate
      date_comparison
  negated_list_iff f values = ground arith

  -- For a key, a text or a description the operator is not looked at: != compiles to the filter
  -- of =, and so does every other operator.
  pub operator_ignored :
      (f : Field) (o p : Operator) (values : List (List ℕ))
      → In f valued
      → compile maps midnight now (term f o values) ≡ compile maps midnight now (term f p values)
  unfolding compile compile_term
  operator_ignored f o p values m = ground arith
