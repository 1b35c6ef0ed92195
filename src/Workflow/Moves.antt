-- ===== src/Workflow/Moves.antt =====
-- evaluateTransition of src/lib/workflow.ts: which transition an issue takes, described without the
-- code.
use planeo.Prelude.{Bool, true, List, ◌∷◌, ◌++◌, In, ◌≡◌}
use planeo.Prelude.Json.{Json}
use planeo.Workflow.{Transition}

-- A list cut at an element that has a property, which no element before it has.
record IsFirst (P : Transition → Type 0) (rows : List Transition) (t : Transition) : Type 0 where
  before : List Transition
  after : List Transition
  cut : rows ≡ before ++ t ∷ after
  none_before : (u : Transition) → In u before → ¬ P u
  here : P t

module _ (p q : Transition → Bool) where
  abbrev Both : Transition → Type 0
  Both t = (p t ≡ true) × (q t ≡ true)
