-- ===== src/Prelude/Results.antt =====
-- Fallible code: a value, or what the source throws or returns in its place.
use mathlib.Core.Path.{◌≡◌, refl, subst, ap}
use mathlib.Core.Logic.{◌⊎◌, inl, inr}
use mathlib.Core.Bool.{Bool, true, false}
use planeo.Prelude.Tests.{if◌then◌else◌}
use mathlib.Core.List.{List, [], ◌∷◌}
use planeo.Prelude.Lists.{All, length}
use Prim.Native.Nat.{suc}

pub data Result {ℓe ℓv} (Fault : Type ℓe) (Value : Type ℓv) : Type (ℓe ⊔ ℓv) where
  err : Fault → Result Fault Value
  ok : Value → Result Fault Value

-- `if (bad) throw fault;`
abbrev pub throw_if {ℓe} : {Fault : Type ℓe} → Bool → Fault → Result Fault (Unit {0})
throw_if false fault = ok tt
throw_if true fault = err fault

infixl 5 ◌>>=◌ ◌>>◌
abbrev pub ◌>>=◌ {ℓe ℓv ℓw} :
    {Fault : Type ℓe} {Value : Type ℓv} {Next : Type ℓw}
    → Result Fault Value
    → (Value → Result Fault Next)
    → Result Fault Next
err fault >>= next = err fault
ok value >>= next = next value

-- The same where the step before gives nothing.
abbrev pub ◌>>◌ {ℓe ℓw} :
    {Fault : Type ℓe} {Next : Type ℓw}
    → Result Fault (Unit {0})
    → Result Fault Next
    → Result Fault Next
check >> next = check >>= (λ nothing. next)

-- Where a chain gives a value, its first step gave one, from which the others made it.
pub >>=-eq-ok {ℓe ℓv ℓw} :
    {Fault : Type ℓe} {Value : Type ℓv} {Next : Type ℓw} (step : Result Fault Value)
    (next : Value → Result Fault Next) {final : Next}
    → (step >>= next) ≡ ok final
    → (value : Value) × (step ≡ ok value) × (next value ≡ ok final)
>>=-eq-ok (err fault) next reached = cc
>>=-eq-ok (ok value) next reached = (value, refl, reached)

pub Result-cases {ℓe ℓv} :
    {Fault : Type ℓe} {Value : Type ℓv} (step : Result Fault Value)
    → ((fault : Fault) × (step ≡ err fault)) ⊎ ((value : Value) × (step ≡ ok value))
Result-cases (err fault) = inl (fault, refl)
Result-cases (ok value) = inr (value, refl)

-- Where a guarded chain gives a value, the guard did not throw.
pub throw_if_passed {ℓe ℓv} :
    {Fault : Type ℓe} {Value : Type ℓv} (bad : Bool) (fault : Fault) (next : Result Fault Value)
    {final : Value}
    → (throw_if bad fault >> next) ≡ ok final
    → (bad ≡ false) × (next ≡ ok final)
throw_if_passed false fault next reached = (refl, reached)
throw_if_passed true fault next reached = cc

pub if_err_passed {ℓe ℓv} :
    {Fault : Type ℓe} {Value : Type ℓv} (bad : Bool) (fault : Fault) (next : Result Fault Value)
    {final : Value}
    → (if bad then err fault else next) ≡ ok final
    → (bad ≡ false) × (next ≡ ok final)
if_err_passed false fault next reached = (refl, reached)
if_err_passed true fault next reached = cc

-- What holds of the value, if there is one.
abbrev pub Yields {ℓ κ} :
    {Fault : Type 0} {Value : Type ℓ} → (Value → Type κ) → Result Fault Value → Type κ
Yields P (err fault) = Unit
Yields P (ok value) = P value

module _ {ℓ κ} {Fault : Type 0} {Value : Type ℓ} (P : Value → Type κ) where
  pub Yields_value :
      (step : Result Fault Value) {final : Value} → Yields P step → step ≡ ok final → P final
  Yields_value (err fault) holds reached = cc
  Yields_value (ok value) holds reached = subst P (cc reached) holds

  pub Yields-bind {μ ν} :
      {Next : Type μ} (Q : Next → Type ν) (step : Result Fault Value)
      (next : Value → Result Fault Next)
      → Yields P step
      → ((value : Value) → P value → Yields Q (next value))
      → Yields Q (step >>= next)
  Yields-bind Q (err fault) next holds then_holds = tt
  Yields-bind Q (ok value) next holds then_holds = then_holds value holds

  pub Yields-throw_if :
      (bad : Bool) (fault : Fault) (next : Result Fault Value)
      → (bad ≡ false → Yields P next)
      → Yields P (throw_if bad fault >> next)
  Yields-throw_if false fault next holds = holds refl
  Yields-throw_if true fault next holds = tt

-- `values.map(step)`, where the step may throw.
abbrev pub traverse {ℓ κ} :
    {Fault : Type 0} {A : Type ℓ} {B : Type κ}
    → (A → Result Fault B)
    → List A
    → Result Fault (List B)
traverse step [] = ok []
traverse step (x ∷ xs) = step x >>= λ y. traverse step xs >>= λ ys. ok (y ∷ ys)

pub traverse-All {ℓ κ μ} :
    {Fault : Type 0} {A : Type ℓ} {B : Type κ} (P : B → Type μ) (step : A → Result Fault B)
    → ((x : A) (y : B) → step x ≡ ok y → P y)
    → (xs : List A) (ys : List B) → traverse step xs ≡ ok ys
    → All P ys
traverse-All P step each [] ys e = let same : [] ≡ ys = cc e in subst (All P) same tt
traverse-All P step each (x ∷ xs) ys e =
    let (y, first, e1) = >>=-eq-ok (step x) _ e in
    let (rest, others, e2) = >>=-eq-ok (traverse step xs) _ e1 in
    let same : y ∷ rest ≡ ys = cc e2 in
    subst (All P) same (each x y first, traverse-All P step each xs rest others)

pub length-traverse {ℓ κ} :
    {Fault : Type 0} {A : Type ℓ} {B : Type κ} (step : A → Result Fault B) (xs : List A)
    (ys : List B)
    → traverse step xs ≡ ok ys
    → length ys ≡ length xs
length-traverse step [] ys e = let same : [] ≡ ys = cc e in rw (← same) refl
length-traverse step (x ∷ xs) ys e =
    let (y, first, e1) = >>=-eq-ok (step x) _ e in
    let (rest, others, e2) = >>=-eq-ok (traverse step xs) _ e1 in
    let same : y ∷ rest ≡ ys = cc e2 in rw (← same) (ap suc (length-traverse step xs rest others))
