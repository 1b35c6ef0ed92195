-- ===== src/Chain.antt =====
-- Chains of parents: what the hierarchy of issues and the hierarchy of goals walk along.
use planeo.Prelude.{
  String, false, Option, some, ◌≡◌, refl, subst, ◌⊎◌, inl, inr, ◌===◌, ===_iff, Bool-cases,
  if◌then◌else◌, sym, ◌∙◌,
}

-- `y` is `x`, or one of the ancestors of `x`.
pub data Reach (next : String → Option String) : String → String → Type 0 where
  here : {x : String} → Reach next x x
  step : {x z y : String} → next x ≡ some z → Reach next z y → Reach next x y

-- Nothing is its own proper ancestor.
abbrev pub Acyclic : (String → Option String) → Type 0
Acyclic next = (x z : String) → next x ≡ some z → ¬ Reach next z x

pub Reach-trans :
    (next : String → Option String) {x y z : String}
    → Reach next x y
    → Reach next y z
    → Reach next x z
Reach-trans next here q = q
Reach-trans next (step e p) q = step e (Reach-trans next p q)

module _ (next after : String → Option String) (c : String) (p : Option String)
    (moved : (x : String) → after x ≡ (if x === c then p else next x)) where
  after-moved : after c ≡ p
  after-moved = moved c ∙ rw ((===_iff c c).1 refl)

  after_other : (x : String) → (x === c) ≡ false → after x ≡ next x
  after_other x other = moved x ∙ rw other

  -- A way to the moved node does not use its new parent.
  Reach-to_moved : {y z : String} → z ≡ c → Reach after y z → Reach next y z
  Reach-to_moved e here = here
  Reach-to_moved {y} {z} e (step {z = w} first rest) = elim (Bool-cases (y === c)) [
    | inl same ↦ rw ((===_iff y c).0 same ∙ sym e) here
    | inr other ↦ step (sym (after_other y other) ∙ first) (Reach-to_moved e rest)
  ]

  -- A way either keeps clear of the moved node's new parent, or goes through it.
  Reach-through :
      {x y : String}
      → Reach after x y
      → Reach next x y ⊎ ((q : String) × (p ≡ some q) × Reach after x c × Reach after q y)
  Reach-through here = inl here
  Reach-through (step {x} {z} e r) = elim (Bool-cases (x === c)) [
    | inl same ↦
        let same' = (===_iff x c).0 same in
        inr (z, sym after-moved ∙ rw (← same') e, rw same' here, r)
    | inr other ↦ elim (Reach-through r) [
      | inl old ↦ inl (step (sym (after_other x other) ∙ e) old)
      | inr (q, eq, before, later) ↦ inr (q, eq, step e before, later)
    ]
  ]

  -- A node may move below any node that is not one of its descendants.
  pub moved-Acyclic : Acyclic next → ((q : String) → p ≡ some q → ¬ Reach next q c) → Acyclic after
  moved-Acyclic old apart x z e r = elim (Bool-cases (x === c)) [
    | inl same ↦
        let same' = (===_iff x c).0 same in
        apart z (sym after-moved ∙ rw (← same') e)
          (subst (Reach next z) same' (Reach-to_moved same' r))
    | inr other ↦ elim (Reach-through r) [
      | inl kept ↦ old x z (sym (after_other x other) ∙ e) kept
      | inr (q, eq, before, later) ↦
          apart q eq (Reach-to_moved refl (Reach-trans after later (step e before)))
    ]
  ]
