-- ===== src/Sla/Hours/Steps.antt =====
-- accrue of ops/sla-engine.mjs: a clock that is brought forward in steps.
use planeo.Prelude.{
  ℕ, ◌+◌, ◌-◌, ◌≤◌, ◌<◌, Bool, some, inl, inr, leb, ltb, Result, ok, ◌≡◌, refl, sym, ap, ◌∙◌, arith,
  Bool-cases,
}
use planeo.Sla.{SlaError}
use planeo.Sla.Hours.{business_milliseconds, business_threshold}
use planeo.Sla.Hours.Minutes.{
  business_milliseconds_ordered, business_milliseconds_split, business_milliseconds_lem,
}
use planeo.Sla.Hours.Deadline.{
  business_threshold_at, business_threshold_least, business_threshold_exists,
}

module _ (works : ℕ → Bool) where
  -- Two moments by which an amount has just been worked since one start are the same.
  first_unique :
      (start middle stop amount t s : ℕ)
      → 0 < amount
      → start ≤ middle
      → start ≤ stop
      → business_threshold works start middle amount ≡ some t
      → business_milliseconds works start s ≡ ok amount
      → ((earlier total : ℕ)
          → earlier < s
          → business_milliseconds works start earlier ≡ ok total
          → total < amount)
      → t ≡ s
  first_unique start middle stop amount t s p q r e at_s least =
      let at_t = business_threshold_at works start middle amount t p q e in
      let not_before = business_threshold_least works start middle amount t s amount p q e in
      elim (Bool-cases (ltb t s)) [
        | inl before ↦ absurd (omega (arith, least t amount (ground arith) at_t.0))
        | inr not_t ↦ elim (Bool-cases (ltb s t)) [
          | inl after ↦ absurd (omega (arith, not_before (ground arith) at_s))
          | inr not_s ↦ ground arith
        ]
      ]

  pub business_exists :
      (start stop : ℕ)
      → start ≤ stop
      → (total : ℕ) × (business_milliseconds works start stop ≡ ok total)
  business_exists start stop p =
      (_, business_milliseconds_lem works stop start stop p (omega arith))

  pub ok_unique : {a b : ℕ} {r : Result SlaError ℕ} → r ≡ ok a → r ≡ ok b → a ≡ b
  ok_unique p q = cc

  extend_positive :
      (start middle stop amount total : ℕ)
      → 0 < amount
      → business_milliseconds works start middle ≡ ok total
      → middle ≤ stop
      → amount ≤ total
      → business_threshold works start stop amount ≡ business_threshold works start middle amount
  extend_positive start middle stop amount total p e order enough =
      let q = business_milliseconds_ordered works start middle total e in
      let (rest, f) = business_exists middle stop order in
      let whole = business_milliseconds_split works start middle stop total rest e f in
      let (t, et) =
        business_threshold_exists works start stop amount (total + rest) p whole (omega arith) in
      let (s, es) = business_threshold_exists works start middle amount total p e enough in
      let at_s = business_threshold_at works start middle amount s p q es in
      let same =
        first_unique start stop stop amount t s p (omega arith) (omega arith) et at_s.0
          (λ earlier sum.
            business_threshold_least works start middle amount s earlier sum p q es) in
      et ∙ ap some same ∙ sym es

  -- The moment is the same whichever later end the range has.
  pub threshold_extend :
      (start middle stop amount total : ℕ)
      → business_milliseconds works start middle ≡ ok total
      → middle ≤ stop
      → amount ≤ total
      → business_threshold works start stop amount ≡ business_threshold works start middle amount
  unfolding business_threshold
  threshold_extend start middle stop amount total e order enough =
      elim (Bool-cases (leb amount 0)) [
        | inl nothing ↦ rw nothing refl
        | inr something ↦
            extend_positive start middle stop amount total (ground arith) e order enough
      ]

  -- What has been worked by an earlier moment, told from a start between.
  resume_least :
      (start middle amount total s earlier sum : ℕ)
      → business_milliseconds works start middle ≡ ok total
      → total < amount
      → ((later rest : ℕ)
          → later < s
          → business_milliseconds works middle later ≡ ok rest
          → rest < amount - total)
      → earlier < s
      → business_milliseconds works start earlier ≡ ok sum
      → sum < amount
  resume_least start middle amount total s earlier sum e more least before g =
      elim (Bool-cases (leb middle earlier)) [
        | inl after ↦
            let (rest, f) = business_exists middle earlier (ground arith) in
            let whole = business_milliseconds_split works start middle earlier total rest e f in
            omega (arith, ok_unique whole g, least earlier rest before f)
        | inr sooner ↦
            let (rest, f) = business_exists earlier middle (ground arith) in
            let whole = business_milliseconds_split works start earlier middle sum rest g f in
            omega (arith, ok_unique whole e)
      ]

  -- The moment is the same whichever earlier start the range has, with the time worked since then.
  pub threshold_resume :
      (start middle stop amount total rest : ℕ)
      → business_milliseconds works start middle ≡ ok total
      → business_milliseconds works middle stop ≡ ok rest
      → total < amount
      → amount ≤ total + rest
      → business_threshold works start stop amount
        ≡ business_threshold works middle stop (amount - total)
  threshold_resume start middle stop amount total rest e f more enough =
      let p : 0 < amount = omega arith in
      let left : 0 < amount - total = omega arith in
      let q = business_milliseconds_ordered works start middle total e in
      let r = business_milliseconds_ordered works middle stop rest f in
      let whole = business_milliseconds_split works start middle stop total rest e f in
      let (t, et) =
        business_threshold_exists works start stop amount (total + rest) p whole enough in
      let (s, es) =
        business_threshold_exists works middle stop (amount - total) rest left f (omega arith) in
      let at_s = business_threshold_at works middle stop (amount - total) s left r es in
      let sum : total + (amount - total) ≡ amount = omega arith in
      let from_start =
        business_milliseconds_split works start middle s total (amount - total) e at_s.0
        ∙ ap ok sum in
      let same =
        first_unique start stop stop amount t s p (omega arith) (omega arith) et from_start
          (λ earlier part.
            resume_least start middle amount total s earlier part e more (λ later piece.
              business_threshold_least works middle stop (amount - total) s later piece left r
                es)) in
      et ∙ ap some same ∙ sym es
