-- ===== src/DependencyGraph/Links.antt =====
-- src/lib/dependency-graph.ts: links that pass introducesCycle keep the graph free of cycles, and
-- what validateDependencyInput accepts.
use planeo.Prelude.{
  String, false, Option, none, some, inl, inr, List, ◌∷◌, ◌≡◌, refl, sym, subst, ◌⊎◌, ◌↔◌, ◌===◌,
  ===_iff, In, Option-cases, arith, ok, find, find_sound, ap,
}
use planeo.Prelude.Int.{ℤ, pos, negsuc, ◌≤ℤ◌}
use planeo.Prelude.Json.{Json, Number, whole, get, as_string}
use planeo.DependencyGraph.{
  Link, outgoing, introduces_cycle, DependencyType, type_name, dependency_types, read_type,
  read_lag, fields_of, with_lag, validate_dependency_input, blocks, relates, duplicates,
}
use planeo.DependencyGraph.Search.{Leads, here, step, Leads-trans, introduces_cycle_iff}

-- No link leads back to where it starts.
abbrev pub Acyclic : List Link → Type 0
Acyclic links = (x y : String) → In y (outgoing links x) → ¬ Leads links y x

In-outgoing-cons :
    (l : Link) (links : List Link) (x y : String)
    → In y (outgoing (l ∷ links) x)
    → ((x ≡ l.from_id) × (y ≡ l.to_id)) ⊎ In y (outgoing links x)
unfolding outgoing
In-outgoing-cons l links x y m = ground (arith, ===_iff l.from_id x)

-- A way that may use the new link leads without it, or to its start and on from its end.
Leads-split :
    (l : Link) (links : List Link) {x y : String}
    → Leads (l ∷ links) x y
    → Leads links x y ⊎ (Leads links x l.from_id × Leads links l.to_id y)
Leads-split l links here = inl here
Leads-split l links {x} {y} (step {y = z} m rest) = elim (In-outgoing-cons l links x z m) [
  | inl (start, stop) ↦ elim (Leads-split l links rest) [
    | inl on ↦ inr (rw start here, subst (λ a. Leads links a y) stop on)
    | inr (back, on) ↦ inr (rw start here, on)
  ]
  | inr old ↦ elim (Leads-split l links rest) [
    | inl on ↦ inl (step old on)
    | inr (back, on) ↦ inr (step old back, on)
  ]
]

added-Acyclic :
    (l : Link) (links : List Link)
    → Acyclic links
    → ¬ Leads links l.to_id l.from_id
    → Acyclic (l ∷ links)
added-Acyclic l links acyclic apart x y m way = elim (In-outgoing-cons l links x y m) [
  | inl (start, stop) ↦ elim (Leads-split l links way) [
    | inl on ↦ apart (subst (λ a. Leads links a l.from_id) stop (subst (Leads links y) start on))
    | inr (_, on) ↦ apart (subst (Leads links l.to_id) start on)
  ]
  | inr old ↦ elim (Leads-split l links way) [
    | inl on ↦ acyclic x y old on
    | inr (back, on) ↦ apart (Leads-trans links on (step old back))
  ]
]

-- If the links have no cycle and the code answers that a new one introduces none, then they have
-- none with the new one either.
pub introduces_cycle-Acyclic :
    (l : Link) (links : List Link)
    → Acyclic links
    → introduces_cycle links l.from_id l.to_id ≡ false
    → Acyclic (l ∷ links)
introduces_cycle-Acyclic l links acyclic refused =
    added-Acyclic l links acyclic
      (λ way. let found = (introduces_cycle_iff links l.from_id l.to_id).1 way in cc)

-- `find` among the types, by their names.
abbrev named : String → Option DependencyType
named s = find (λ t. type_name t === s) dependency_types

named-type_name : (t : DependencyType) → named (type_name t) ≡ some t
named-type_name blocks = refl
named-type_name relates = refl
named-type_name duplicates = refl

named_iff : (s : String) (t : DependencyType) → (named s ≡ some t) ↔ (s ≡ type_name t)
named_iff s t = (
  λ e. sym ((===_iff (type_name t) s).0 (find_sound (λ u. type_name u === s) dependency_types e).0),
  λ e. rw e (named-type_name t),
)

named_text : Option String → Option DependencyType
named_text none = none
named_text (some s) = named s

named_text_iff :
    (o : Option String) (t : DependencyType) → (named_text o ≡ some t) ↔ (o ≡ some (type_name t))
unfolding named_text
named_text_iff none t = (λ e. cc, λ e. cc)
named_text_iff (some s) t = (λ e. ap some ((named_iff s t).0 e), λ e. (named_iff s t).1 cc)

read_type-named : (value : Json) → read_type value ≡ named_text (as_string value)
unfolding named_text
read_type-named value = elim (Option-cases (as_string value)) [
  | inl none_given ↦ rw (none_given, read_type)
  | inr (s, given) ↦ rw (given, read_type)
]

with_lag_iff :
    (u t : DependencyType) (n : Number) (lag : ℤ)
    → (with_lag u n ≡ ok (t, lag))
      ↔ ((u ≡ t) × (n ≡ whole lag) × (negsuc 364 ≤ℤ lag) × (lag ≤ℤ pos 365))
with_lag_iff u t n lag = ground arith

-- An input is accepted with a type and a lag exactly if it names the type and its lag, as `Number`
-- reads it, or 0 where none is given, is that integer and lies from -365 to 365.
pub validate_dependency_input_iff :
    (to_number : Json → Number) (value : Json) (t : DependencyType) (lag : ℤ)
    → (validate_dependency_input to_number value ≡ ok (t, lag)) ↔ (
        (as_string (get "type" (fields_of value)) ≡ some (type_name t))
        × (read_lag to_number (get "lagDays" (fields_of value)) ≡ whole lag)
        × (negsuc 364 ≤ℤ lag)
        × (lag ≤ℤ pos 365))
unfolding validate_dependency_input
validate_dependency_input_iff to_number value t lag =
    let type = get "type" (fields_of value) in
    elim (Option-cases (read_type type)) [
      | inl missing ↦ ground (arith, named_text_iff (as_string type) t, read_type-named type)
      | inr (u, given) ↦ ground (
        arith,
        named_text_iff (as_string type) t,
        read_type-named type,
        named_text_iff (as_string type) u,
        with_lag_iff u t (read_lag to_number (get "lagDays" (fields_of value))) lag,
      )
    ]
