-- ===== src/DependencyGraph.antt =====
-- src/lib/dependency-graph.ts: the input of a link between issues, and whether a new link closes a
-- cycle. JavaScript's `Number` is the parameter `to_number`.
pub mod Search
pub mod Links
mod Tests
use planeo.Prelude.{
  ℕ, zero, suc, ◌+◌, String, Bool, true, false, not, ◌&&◌, ◌||◌, Option, none, some, List, [], ◌∷◌,
  ◌++◌, length, includes, ◌===◌, if◌then◌else◌, find, Result, ok, err,
}
use planeo.Prelude.Int.{ℤ, pos, negsuc, lebℤ}
use planeo.Prelude.Json.{Json, Number, whole, as_object, as_string, get, is_undefined}

pub data DependencyType : Type 0 where
  blocks relates duplicates : DependencyType

abbrev pub type_name : DependencyType → String
type_name blocks = "blocks"
type_name relates = "relates"
type_name duplicates = "duplicates"

-- DEPENDENCY_TYPES
abbrev pub dependency_types : List DependencyType
dependency_types = blocks ∷ relates ∷ duplicates ∷ []

pub record Link : Type 0 where
  pub from_id : String
  pub to_id : String

-- `outgoing.get(id) ?? []`: the targets of an issue, in the order of the edges.
pub outgoing : List Link → String → List String
outgoing [] id = []
outgoing (l ∷ links) id =
    let rest = outgoing links id in if l.from_id === id then l.to_id ∷ rest else rest

pub data Searched : Type 0 where
  found exhausted out_of_fuel : Searched

-- The loop over the queue.
pub search : ℕ → List Link → String → List String → List String → Searched
search zero links from_id seen queue = out_of_fuel
search (suc fuel) links from_id seen [] = exhausted
search (suc fuel) links from_id seen (id ∷ queue) =
    let skipped = search fuel links from_id seen queue in
    let expanded = search fuel links from_id (id ∷ seen) (queue ++ outgoing links id) in
    if id === from_id then found else if includes seen id then skipped else expanded

-- One round for the first issue, one for each edge, and one for the end.
abbrev pub rounds : List Link → ℕ
rounds links = length links + 2

abbrev is_found : Searched → Bool
is_found found = true
is_found _ = false

pub introduces_cycle : List Link → String → String → Bool
introduces_cycle links from_id to_id =
    if from_id === to_id
    then true
    else is_found (search (rounds links) links from_id [] (to_id ∷ []))

-- The fields of a value that is an object, and none of another.
abbrev fields_of : Json → List (String × Json)
fields_of value = elim (as_object value) [ none ↦ [] | some fields ↦ fields ]

-- `DEPENDENCY_TYPES.find(item => item === input.type)`
abbrev pub read_type : Json → Option DependencyType
read_type value = elim (as_string value) [
  | none ↦ none
  | some s ↦ find (λ t. type_name t === s) dependency_types
]

abbrev read_lag : (Json → Number) → Json → Number
read_lag to_number value = if is_undefined value then whole (pos 0) else to_number value

-- -365 to 365
abbrev pub in_range : ℤ → Bool
in_range z = lebℤ (negsuc 364) z && lebℤ z (pos 365)

abbrev with_lag : DependencyType → Number → Result String (DependencyType × ℤ)
with_lag type (whole lag) =
    if in_range lag
    then ok (type, lag)
    else err "Use a supported link type and a lag from -365 to 365 days."
with_lag type _ = err "Use a supported link type and a lag from -365 to 365 days."

pub validate_dependency_input : (Json → Number) → Json → Result String (DependencyType × ℤ)
validate_dependency_input to_number value = elim (read_type (get "type" (fields_of value))) [
  | none ↦ err "Use a supported link type and a lag from -365 to 365 days."
  | some type ↦ with_lag type (read_lag to_number (get "lagDays" (fields_of value)))
]
