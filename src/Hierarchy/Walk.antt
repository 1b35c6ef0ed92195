-- ===== src/Hierarchy/Walk.antt =====
-- The loop over the ancestors ends within its fuel, and finds the child if it is one of them.
use planeo.Prelude.{
  ℕ, zero, suc, String, ◌+◌, ◌≤◌, false, not, Option, none, some, inl, inr, List, [], ◌∷◌, ◌≡◌, ◌≢◌,
  refl, ◌===◌, ===_iff, includes, length, filter, Bool-cases, Option-cases, arith,
}
use planeo.Chain.{Reach, here, step}
use planeo.Hierarchy.{Issue, find_issue, parent_of, walk, clear, out_of_fuel, enough}

-- The issues that were not passed.
abbrev pub fresh : List Issue → List String → ℕ
fresh issues seen = length (filter (λ i. not (includes seen i.id)) issues)

fresh-cons :
    (issues : List Issue) (id : String) (seen : List String)
    → fresh issues (id ∷ seen) ≤ fresh issues seen
fresh-cons [] id seen = omega arith
fresh-cons (i ∷ issues) id seen = ground (arith, fresh-cons issues id seen)

fresh-lt :
    (issues : List Issue) (id : String) (seen : List String) {i : Issue}
    → find_issue issues id ≡ some i
    → includes seen id ≡ false
    → fresh issues (id ∷ seen) + 1 ≤ fresh issues seen
unfolding find_issue
fresh-lt [] id seen e new = cc
fresh-lt (j ∷ issues) id seen {i = i} e new = elim (Bool-cases (j.id === id)) [
  | inl same ↦
      let same' = (===_iff j.id id).0 same in
      rw same' (ground (arith, (===_iff id id).1 refl, fresh-cons issues id seen))
  | inr other ↦ ground (arith, fresh-lt issues id seen {i = i}, ===_iff j.id id, ===_iff id j.id)
]

walk-none :
    (fuel : ℕ) (issues : List Issue) (child : String) (seen : List String)
    → 1 ≤ fuel
    → walk fuel issues child none seen ≡ clear
unfolding walk
walk-none zero issues child seen h = absurd (omega arith)
walk-none (suc f) issues child seen h = refl

parent_of-missing :
    (issues : List Issue) (id : String) → find_issue issues id ≡ none → parent_of issues id ≡ none
unfolding parent_of
parent_of-missing issues id e = rw (e, parent_of)

walk_ends :
    (fuel : ℕ) (issues : List Issue) (child : String) (cursor : Option String) (seen : List String)
    → fresh issues seen + 2 ≤ fuel
    → walk fuel issues child cursor seen ≢ out_of_fuel
unfolding walk
walk_ends zero issues child cursor seen h = absurd (omega arith)
walk_ends (suc f) issues child none seen h = λ e. cc
walk_ends (suc f) issues child (some id) seen h = elim (Option-cases (find_issue issues id)) [
  | inl missing ↦
      rw (parent_of-missing issues id missing, walk-none f issues child (id ∷ seen) (omega arith))
        (ground arith)
  | inr (i, found) ↦ ground (
    arith,
    fresh-lt issues id seen found,
    walk_ends f issues child (parent_of issues id) (id ∷ seen),
  )
]

fresh-nil : (issues : List Issue) → fresh issues [] ≡ length issues
fresh-nil [] = refl
fresh-nil (i ∷ issues) = omega (arith, fresh-nil issues)

-- The loop over the ancestors ends, whatever the stored parents are: each round passes a new
-- issue, or leaves the stored issues, or finds an id again.
pub walk_terminates :
    (issues : List Issue) (child : String) (cursor : Option String)
    → walk (enough issues) issues child cursor [] ≢ out_of_fuel
walk_terminates issues child cursor =
    walk_ends (enough issues) issues child cursor [] (omega (arith, fresh-nil issues))

-- A loop that ends clear did not start at a descendant of the child.
pub walk_clear :
    (fuel : ℕ) (issues : List Issue) (child id : String) (seen : List String)
    → walk fuel issues child (some id) seen ≡ clear
    → ¬ Reach (parent_of issues) id child
unfolding walk
walk_clear zero issues child id seen e r = cc
walk_clear (suc f) issues child id seen e here = ground (arith, ===_iff id id)
walk_clear (suc f) issues child id seen e (step {z} first rest) =
    let next : walk f issues child (parent_of issues id) (id ∷ seen) ≡ clear = ground arith in
    walk_clear f issues child z (id ∷ seen) (rw first at next) rest
