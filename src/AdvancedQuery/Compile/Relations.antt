-- ===== src/AdvancedQuery/Compile/Relations.antt =====
-- relationPredicate of src/lib/advanced-query.ts: which issues a filter on the names of labels,
-- sprints or releases selects. What the database client does with a filter stands in `NameLaws`.
use planeo.Prelude.{
  ℕ, Bool, true, false, not, Option, some, List, [], ◌∷◌, ◌≡◌, refl, any, all, ok, arith, ap, ◌∙◌,
}
use planeo.Prelude.Int.{ℤ}
use planeo.AdvancedQuery.{Field, eq, ne, in_list, not_in_list, term, CaseMaps}
use planeo.AdvancedQuery.Compile.{
  equals, differs, one_of, Filter, either_case, Relation, Where, related, text_comparison,
  relation_predicate, compile_term, compile,
}
use planeo.AdvancedQuery.Compile.Operators.{relation_of}

-- What the client documents: a filter on related rows selects an issue if some related row passes,
-- or none does, and a text passes by its comparison; `same` is equality without regard to case.
pub record NameLaws (Row : Type 0) (names : Relation → Row → List (List ℕ))
    (same : List ℕ → List ℕ → Bool) (passes : Filter → List ℕ → Bool) (selects : Where → Row → Bool)
    : Type 0 where
  pub selects-some :
      (r : Relation) (f : Filter) (row : Row)
      → selects (related r false f) row ≡ any (λ n. passes f n) (names r row)
  pub selects-none :
      (r : Relation) (f : Filter) (row : Row)
      → selects (related r true f) row ≡ not (any (λ n. passes f n) (names r row))
  pub passes-equals : (v n : List ℕ) → passes (either_case (equals v)) n ≡ same n v
  pub passes-differs : (v n : List ℕ) → passes (either_case (differs v)) n ≡ not (same n v)
  pub passes-one_of :
      (vs : List (List ℕ)) (n : List ℕ)
      → passes (either_case (one_of vs)) n ≡ any (λ v. same n v) vs

any-cong :
    {A : Type 0} (p q : A → Bool) → ((a : A) → p a ≡ q a) → (xs : List A) → any p xs ≡ any q xs
any-cong p q h [] = refl
any-cong p q h (x ∷ xs) = ground (arith, h x, any-cong p q h xs)

not-any-not : {A : Type 0} (p : A → Bool) (xs : List A) → not (any (λ a. not (p a)) xs) ≡ all p xs
not-any-not p [] = refl
not-any-not p (x ∷ xs) = ground (arith, not-any-not p xs)

module _ {Row : Type 0} (names : Relation → Row → List (List ℕ)) (same : List ℕ → List ℕ → Bool)
    (passes : Filter → List ℕ → Bool) (selects : Where → Row → Bool)
    (laws : NameLaws Row names same passes selects) (maps : CaseMaps) (midnight : List ℕ → Option ℤ)
    (now : ℕ) where
  -- A query for the labels, sprints or releases of an issue compiles, and selects: by `= v` an
  -- issue with some name v; by IN one with some name of the list; by NOT IN one with no name of the
  -- list; and by `!= v` one whose names are all v, not one that lacks v.
  pub relation_lem :
      (f : Field) (r : Relation) (v : List ℕ) (vs : List (List ℕ)) (row : Row)
      → relation_of f ≡ some r
      → ((w : Where) × (compile maps midnight now (term f eq (v ∷ vs)) ≡ ok w)
          × (selects w row ≡ any (λ n. same n v) (names r row)))
        × ((w : Where) × (compile maps midnight now (term f in_list (v ∷ vs)) ≡ ok w)
            × (selects w row ≡ any (λ n. any (λ u. same n u) (v ∷ vs)) (names r row)))
        × ((w : Where) × (compile maps midnight now (term f not_in_list (v ∷ vs)) ≡ ok w)
            × (selects w row ≡ not (any (λ n. any (λ u. same n u) (v ∷ vs)) (names r row))))
        × ((w : Where) × (compile maps midnight now (term f ne (v ∷ vs)) ≡ ok w)
            × (selects w row ≡ all (λ n. same n v) (names r row)))
  unfolding compile compile_term text_comparison relation_predicate
  relation_lem f r v vs row e = (
    (
      related r false (either_case (equals v)),
      ground arith,
      laws.selects-some r _ row ∙ any-cong _ _ (laws.passes-equals v) (names r row),
    ),
    (
      related r false (either_case (one_of (v ∷ vs))),
      ground arith,
      laws.selects-some r _ row ∙ any-cong _ _ (laws.passes-one_of (v ∷ vs)) (names r row),
    ),
    (
      related r true (either_case (one_of (v ∷ vs))),
      ground arith,
      laws.selects-none r _ row ∙ ap not (any-cong _ _ (laws.passes-one_of (v ∷ vs)) (names r row)),
    ),
    (
      related r true (either_case (differs v)),
      ground arith,
      laws.selects-none r _ row
          ∙ ap not (any-cong _ _ (laws.passes-differs v) (names r row))
          ∙ not-any-not (λ n. same n v) (names r row),
    ),
  )
