-- ===== src/DependencyGraph/Search.antt =====
-- introducesCycle of src/lib/dependency-graph.ts: the search ends, and finds exactly the issues that
-- links lead to.
use planeo.Prelude.{
  ℕ, zero, suc, ◌+◌, ◌≤◌, String, true, false, not, inl, inr, List, [], ◌∷◌, ◌++◌, ◌≡◌, ◌≢◌, refl,
  sym, subst, ◌∙◌, ◌⊎◌, ◌↔◌, length, length-append, filter, includes, includes_iff, ◌===◌, ===_iff,
  In, In-append, Bool-cases, arith,
}
use planeo.DependencyGraph.{
  Link, outgoing, Searched, found, exhausted, out_of_fuel, search, rounds, introduces_cycle,
}

-- Links lead from an issue to itself and on.
pub data Leads (links : List Link) : String → String → Type 0 where
  here : {x : String} → Leads links x x
  step : {x y z : String} → In y (outgoing links x) → Leads links y z → Leads links x z

pub Leads-trans :
    (links : List Link) {x y z : String} → Leads links x y → Leads links y z → Leads links x z
Leads-trans links here q = q
Leads-trans links (step m p) q = step m (Leads-trans links p q)

-- The edges that leave issues that were not seen.
abbrev pending : List Link → List String → ℕ
pending links seen = length (filter (λ l. not (includes seen l.from_id)) links)

pending-nil : (links : List Link) → pending links [] ≡ length links
pending-nil [] = refl
pending-nil (l ∷ links) = omega (arith, pending-nil links)

pending-cons :
    (links : List Link) (id : String) (seen : List String)
    → includes seen id ≡ false
    → length (outgoing links id) + pending links (id ∷ seen) ≡ pending links seen
unfolding outgoing
pending-cons [] id seen new = refl
pending-cons (l ∷ links) id seen new = elim (Bool-cases (l.from_id === id)) [
  | inl same ↦
      ground (arith, ===_iff l.from_id id, ===_iff id l.from_id, pending-cons links id seen)
  | inr other ↦
      ground (arith, ===_iff l.from_id id, ===_iff id l.from_id, pending-cons links id seen)
]

search_ends :
    (fuel : ℕ) (links : List Link) (from_id : String) (seen queue : List String)
    → length queue + pending links seen + 1 ≤ fuel
    → search fuel links from_id seen queue ≢ out_of_fuel
unfolding search
search_ends zero links from_id seen queue h = absurd (omega arith)
search_ends (suc fuel) links from_id seen [] h = λ e. cc
search_ends (suc fuel) links from_id seen (id ∷ queue) h = ground (
  arith,
  search_ends fuel links from_id seen queue,
  search_ends fuel links from_id (id ∷ seen) (queue ++ outgoing links id),
  length-append queue (outgoing links id),
  pending-cons links id seen,
)

-- The search of the code ends, whatever cycles the links already have.
pub search_terminates :
    (links : List Link) (from_id to_id : String)
    → search (rounds links) links from_id [] (to_id ∷ []) ≢ out_of_fuel
search_terminates links from_id to_id =
    search_ends (rounds links) links from_id [] (to_id ∷ []) (omega (arith, pending-nil links))

-- What the search finds, something of the queue leads to.
found-Leads :
    (fuel : ℕ) (links : List Link) (from_id to_id : String) (seen queue : List String)
    → search fuel links from_id seen queue ≡ found
    → ((x : String) → In x queue → Leads links to_id x)
    → Leads links to_id from_id
unfolding search
found-Leads zero links from_id to_id seen queue e h = cc
found-Leads (suc fuel) links from_id to_id seen [] e h = cc
found-Leads (suc fuel) links from_id to_id seen (id ∷ queue) e h =
    elim (Bool-cases (id === from_id)) [
      | inl same ↦ rw (← (===_iff id from_id).0 same) (h id (inl refl))
      | inr other ↦ elim (Bool-cases (includes seen id)) [
        | inl old ↦
            found-Leads fuel links from_id to_id seen queue (ground arith) (λ x m. h x (inr m))
        | inr new ↦
            found-Leads fuel links from_id to_id (id ∷ seen) (queue ++ outgoing links id)
              (ground arith)
              (λ x m. elim ((In-append x queue (outgoing links id)).0 m) [
                | inl earlier ↦ h x (inr earlier)
                | inr later ↦ Leads-trans links (h id (inl refl)) (step later here)
              ])
      ]
    ]

-- What was seen is not the issue searched for, and its targets were seen or wait in the queue.
abbrev Closed : List Link → String → List String → List String → Type 0
Closed links from_id seen queue =
    (x : String)
    → In x seen
    → (x ≢ from_id) × ((y : String) → In y (outgoing links x) → In y seen ⊎ In y queue)

Closed-Leads :
    (links : List Link) (from_id : String) (seen : List String)
    → Closed links from_id seen []
    → (x : String) → In x seen
    → ¬ Leads links x from_id
Closed-Leads links from_id seen closed x m here = (closed x m).0 refl
Closed-Leads links from_id seen closed x m (step {y} n rest) = elim ((closed x m).1 y n) [
  | inl was ↦ Closed-Leads links from_id seen closed y was rest
  | inr waits ↦ elim waits [ ]
]

-- An issue that waits still waits, or was seen, when the first of the queue is passed over.
waits_on :
    (id y : String) (seen queue : List String)
    → In id seen
    → In y seen ⊎ In y (id ∷ queue)
    → In y seen ⊎ In y queue
waits_on id y seen queue was (inl s) = inl s
waits_on id y seen queue was (inr (inl e)) = inl (rw e was)
waits_on id y seen queue was (inr (inr q)) = inr q

-- The same when the first of the queue is seen and its targets join the queue.
waits_expanded :
    (id y : String) (seen queue more : List String)
    → In y seen ⊎ In y (id ∷ queue)
    → In y (id ∷ seen) ⊎ In y (queue ++ more)
waits_expanded id y seen queue more (inl s) = inl (inr s)
waits_expanded id y seen queue more (inr (inl e)) = inl (inl e)
waits_expanded id y seen queue more (inr (inr q)) = inr ((In-append y queue more).1 (inl q))

Closed-expanded :
    (links : List Link) (from_id id : String) (seen queue : List String)
    → id ≢ from_id
    → Closed links from_id seen (id ∷ queue)
    → Closed links from_id (id ∷ seen) (queue ++ outgoing links id)
Closed-expanded links from_id id seen queue apart closed x (inl e) = (
  λ same. apart (sym e ∙ same),
  λ y m.
      inr (
        (In-append y queue (outgoing links id)).1 (inr (subst (λ z. In y (outgoing links z)) e m))),
)
Closed-expanded links from_id id seen queue apart closed x (inr was) = (
  (closed x was).0,
  λ y m. waits_expanded id y seen queue (outgoing links id) ((closed x was).1 y m),
)

exhausted-Leads :
    (fuel : ℕ) (links : List Link) (from_id : String) (seen queue : List String)
    → search fuel links from_id seen queue ≡ exhausted
    → Closed links from_id seen queue
    → (x : String) → In x seen ⊎ In x queue
    → ¬ Leads links x from_id
unfolding search
exhausted-Leads zero links from_id seen queue e closed x m = cc
exhausted-Leads (suc fuel) links from_id seen [] e closed x m = elim m [
  | inl was ↦ Closed-Leads links from_id seen closed x was
  | inr waits ↦ elim waits [ ]
]
exhausted-Leads (suc fuel) links from_id seen (id ∷ queue) e closed x m =
    elim (Bool-cases (id === from_id)) [
      | inl same ↦ absurd (ground arith)
      | inr other ↦ elim (Bool-cases (includes seen id)) [
        | inl old ↦
            let was = (includes_iff seen id).0 old in
            exhausted-Leads fuel links from_id seen queue (ground arith)
              (λ z n. ((closed z n).0, λ y k. waits_on id y seen queue was ((closed z n).1 y k))) x
              (waits_on id x seen queue was m)
        | inr new ↦
            exhausted-Leads fuel links from_id (id ∷ seen) (queue ++ outgoing links id)
              (ground arith)
              (Closed-expanded links from_id id seen queue
                (λ same. ground (arith, ===_iff id from_id)) closed)
              x (waits_expanded id x seen queue (outgoing links id) m)
      ]
    ]

Searched-cases : (s : Searched) → (s ≡ found) ⊎ (s ≡ exhausted) ⊎ (s ≡ out_of_fuel)
Searched-cases found = inl refl
Searched-cases exhausted = inr (inl refl)
Searched-cases out_of_fuel = inr (inr refl)

-- The code answers that a link from one issue to another introduces a cycle exactly if the links
-- that are there already lead from the other issue to the one.
pub introduces_cycle_iff :
    (links : List Link) (from_id to_id : String)
    → (introduces_cycle links from_id to_id ≡ true) ↔ Leads links to_id from_id
unfolding introduces_cycle
introduces_cycle_iff links from_id to_id = elim (Bool-cases (from_id === to_id)) [
  | inl same ↦
      let at_once = (===_iff from_id to_id).0 same in (λ _. rw at_once here, λ _. rw same refl)
  | inr other ↦ elim (Searched-cases (search (rounds links) links from_id [] (to_id ∷ []))) [
    | inl e ↦ (
      λ _.
          found-Leads (rounds links) links from_id to_id [] (to_id ∷ []) e
            (λ x m. elim m [ inl same ↦ rw same here | inr none_left ↦ elim none_left [ ] ]),
      λ _. rw (other, e) refl,
    )
    | inr (inl e) ↦ (
      λ t. absurd (cc (rw (other, e) at t)),
      λ way. absurd (
          exhausted-Leads (rounds links) links from_id [] (to_id ∷ []) e (λ x m. elim m [ ]) to_id
            (inr (inl refl)) way),
    )
    | inr (inr e) ↦ absurd (search_terminates links from_id to_id e)
  ]
]
