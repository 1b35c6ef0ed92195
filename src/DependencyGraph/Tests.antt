-- ===== src/DependencyGraph/Tests.antt =====
-- Runs of src/lib/dependency-graph.ts.
use planeo.Prelude.{true, false, [], ◌∷◌, ◌≡◌, refl, ◌↔◌}
use planeo.Prelude.Int.{negsuc}
use planeo.Prelude.Json.{Json, Number, nan, whole, str, num, obj, field, end}
use planeo.DependencyGraph.{Link, outgoing, search, introduces_cycle}
use planeo.DependencyGraph.Search.{Leads, introduces_cycle_iff}
use planeo.DependencyGraph.Links.{Acyclic, introduces_cycle-Acyclic}

abbrev first : Link
first = record { from_id = "a"; to_id = "b" }

abbrev second : Link
second = record { from_id = "b"; to_id = "c" }

abbrev back : Link
back = record { from_id = "c"; to_id = "a" }

none-Acyclic : Acyclic []
unfolding outgoing
none-Acyclic x y m way = elim m [ ]

one_free : introduces_cycle [] "a" "b" ≡ false
unfolding introduces_cycle search outgoing
one_free = refl

two_free : introduces_cycle (first ∷ []) "b" "c" ≡ false
unfolding introduces_cycle search outgoing
two_free = refl

closes : introduces_cycle (second ∷ first ∷ []) "c" "a" ≡ true
unfolding introduces_cycle search outgoing
closes = refl

introduces_cycle-Acyclic_example : Acyclic (second ∷ first ∷ [])
introduces_cycle-Acyclic_example =
    introduces_cycle-Acyclic second (first ∷ [])
      (introduces_cycle-Acyclic first [] none-Acyclic one_free) two_free

introduces_cycle_iff_example :
    (introduces_cycle (second ∷ first ∷ []) "c" "a" ≡ true) ↔ Leads (second ∷ first ∷ []) "a" "c"
introduces_cycle_iff_example = introduces_cycle_iff (second ∷ first ∷ []) "c" "a"

-- `Number` on numbers and on nothing else.
abbrev to_number : Json → Number
to_number (num n) = n
to_number _ = nan

abbrev input : Json
input = obj (field "type" (str "blocks") (field "lagDays" (num (whole (negsuc 2))) end))
