-- ===== src/AdvancedQuery/Compile/Tests.antt =====
-- Runs of compile of src/lib/advanced-query.ts, over a client that answers filters on names.
use planeo.Prelude.{
  ℕ, Bool, true, false, not, Option, some, List, [], ◌∷◌, ◌≡◌, refl, ◌↔◌, In, any, all, ok, codes,
  same_units,
}
use planeo.Prelude.Int.{ℤ, pos}
use planeo.AdvancedQuery.{
  assignee, status, created, label, eq, ne, gt, in_list, not_in_list, Node, conj, negation, term,
  CaseMaps,
}
use planeo.AdvancedQuery.Compile.{
  Test, equals, differs, one_of, Filter, Relation, labels, Where, related, compile,
}
use planeo.AdvancedQuery.Compile.Operators.{negated_list_iff, unnegated}
use planeo.AdvancedQuery.Compile.Relations.{NameLaws, relation_lem}

abbrev maps : CaseMaps
maps = record { upper = λ s. s; lower = λ s. s }

abbrev midnight : List ℕ → Option ℤ
midnight value = some (pos 1700006400000)

abbrev now : ℕ
now = 1700000000000

abbrev passes_test : Test (List ℕ) → List ℕ → Bool
passes_test (equals v) n = same_units n v
passes_test (differs v) n = not (same_units n v)
passes_test (one_of vs) n = any (λ v. same_units n v) vs
passes_test _ n = false

abbrev passes : Filter → List ℕ → Bool
passes f n = passes_test f.test n

-- An issue by the names of its labels.
abbrev names : Relation → List (List ℕ) → List (List ℕ)
names labels row = row
names _ row = []

abbrev selects : Where → List (List ℕ) → Bool
selects (related r false f) row = any (λ n. passes f n) (names r row)
selects (related r true f) row = not (any (λ n. passes f n) (names r row))
selects _ row = false

laws : NameLaws (List (List ℕ)) names same_units passes selects
laws = record {
  selects-some = λ _ _ _. refl;
  selects-none = λ _ _ _. refl;
  passes-equals = λ _ _. refl;
  passes-differs = λ _ _. refl;
  passes-one_of = λ _ _. refl;
}

abbrev bug : List ℕ
bug = codes "bug"

abbrev row : List (List ℕ)
row = bug ∷ codes "ui" ∷ []

relation_lem_example :
    ((w : Where) × (compile maps midnight now (term label eq (bug ∷ [])) ≡ ok w)
      × (selects w row ≡ any (λ n. same_units n bug) (names labels row)))
    × ((w : Where) × (compile maps midnight now (term label in_list (bug ∷ [])) ≡ ok w)
        × (selects w row ≡ any (λ n. any (λ u. same_units n u) (bug ∷ [])) (names labels row)))
    × ((w : Where) × (compile maps midnight now (term label not_in_list (bug ∷ [])) ≡ ok w)
        × (selects w row
            ≡ not (any (λ n. any (λ u. same_units n u) (bug ∷ [])) (names labels row))))
    × ((w : Where) × (compile maps midnight now (term label ne (bug ∷ [])) ≡ ok w)
        × (selects w row ≡ all (λ n. same_units n bug) (names labels row)))
relation_lem_example =
    relation_lem names same_units passes selects laws maps midnight now label labels bug [] row refl

negated_list_iff_example :
    (compile maps midnight now (term assignee not_in_list (bug ∷ []))
      ≡ compile maps midnight now (term assignee in_list (bug ∷ [])))
    ↔ In assignee unnegated
negated_list_iff_example = negated_list_iff maps midnight now assignee (bug ∷ [])

abbrev tree : Node
tree = conj (negation (term status eq (bug ∷ []))) (term created gt (codes "-7d" ∷ []))
