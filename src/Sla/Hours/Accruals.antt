-- ===== src/Sla/Hours/Accruals.antt =====
-- accrue of ops/sla-engine.mjs: a clock that is brought forward in steps.
use planeo.Prelude.{
  ℕ, ◌+◌, ◌-◌, ◌≤◌, ◌<◌, Bool, true, false, not, ◌&&◌, Option, some, ◌⊎◌, inl, inr, List, [], ◌∷◌,
  ◌++◌, leb, ltb, is_absent, if◌then◌else◌, Result, ok, >>=-eq-ok, throw_if_passed, ◌≡◌, refl, sym,
  ap, ◌∙◌, arith, Bool-cases,
}
use mathlib.Core.List.{append-nil, append_assoc}
use planeo.Sla.{SlaError, out_of_order}
use planeo.Sla.Hours.{
  business_milliseconds, business_threshold, SlaEventType, risk, breached, SlaEvent, Clock, Accrual,
  runs, event_if, events_of, accrue, note, note_all, advanced,
}
use planeo.Sla.Hours.Minutes.{business_milliseconds_split}
use planeo.Sla.Hours.Deadline.{business_threshold_exists}
use planeo.Sla.Hours.Steps.{threshold_extend, threshold_resume}

-- Noting events changes nothing of a clock but the two moments.
note_all-kept :
    (es : List SlaEvent) (c : Clock)
    → ((note_all es c).last_at ≡ c.last_at)
      × ((note_all es c).elapsed_ms ≡ c.elapsed_ms)
      × ((note_all es c).ended_at ≡ c.ended_at)
      × ((note_all es c).pause_reasons ≡ c.pause_reasons)
note_all-kept [] c = (refl, refl, refl, refl)
note_all-kept ((risk, at) ∷ es) c = note_all-kept es (note risk at c)
note_all-kept ((breached, at) ∷ es) c = note_all-kept es (note breached at c)

module _ (works : ℕ → Bool) where
  -- The time that a clock adds.
  abbrev added : Clock → ℕ → Result SlaError ℕ
  added c at = if runs c then business_milliseconds works c.last_at at else ok 0

  accrue_inv :
      (c : Clock) (at target_ms risk_ms : ℕ) (a : Accrual)
      → accrue works c at target_ms risk_ms ≡ ok a
      → (more : ℕ) × (c.last_at ≤ at)
        × (added c at ≡ ok more)
        × (a ≡ record {
          elapsed_ms = c.elapsed_ms + more;
          last_at = at;
          events = events_of works c at target_ms risk_ms (c.elapsed_ms + more);
        })
  unfolding accrue
  accrue_inv c at target_ms risk_ms a e =
      let (order, e1) = throw_if_passed (ltb at c.last_at) out_of_order _ e in
      let (more, grown, e2) = >>=-eq-ok (added c at) _ e1 in (more, ground arith, grown, cc)

  threshold_nothing : (start stop : ℕ) → business_threshold works start stop 0 ≡ some start
  unfolding business_threshold
  threshold_nothing start stop = refl

  -- What two steps add: both run, or neither does.
  abbrev Adds : Clock → ℕ → ℕ → ℕ → ℕ → Type 0
  Adds c middle stop first second =
      ((business_milliseconds works c.last_at middle ≡ ok first)
        × (business_milliseconds works middle stop ≡ ok second))
      ⊎ ((first ≡ 0) × (second ≡ 0))

  moment_nothing :
      (start middle stop amount : ℕ)
      → amount ≡ 0
      → (t : ℕ) × (business_threshold works start middle amount ≡ some t)
        × (business_threshold works start stop amount ≡ some t)
  moment_nothing start middle stop amount e =
      (start, rw e (threshold_nothing start middle), rw e (threshold_nothing start stop))

  -- An amount that is reached in the first step.
  moment_first :
      (c : Clock) (middle stop amount first second : ℕ)
      → Adds c middle stop first second
      → middle ≤ stop
      → amount ≤ c.elapsed_ms + first
      → (t : ℕ) × (business_threshold works c.last_at middle (amount - c.elapsed_ms) ≡ some t)
        × (business_threshold works c.last_at stop (amount - c.elapsed_ms) ≡ some t)
  moment_first c middle stop amount first second (inr (p, q)) order reached =
      moment_nothing c.last_at middle stop (amount - c.elapsed_ms) (omega arith)
  moment_first c middle stop amount first second (inl (e, f)) order reached =
      let left = amount - c.elapsed_ms in
      elim (Bool-cases (leb left 0)) [
        | inl nothing ↦ moment_nothing c.last_at middle stop left (ground arith)
        | inr something ↦
            let (t, found) =
              business_threshold_exists works c.last_at middle left first (ground arith) e
                (omega arith) in
            let same =
              threshold_extend works c.last_at middle stop left first e order (omega arith) in
            (t, found, same ∙ found)
      ]

  -- An amount that is reached in the second.
  moment_second :
      (c : Clock) (middle stop amount first second : ℕ)
      → Adds c middle stop first second
      → c.elapsed_ms + first < amount
      → amount ≤ c.elapsed_ms + first + second
      → business_threshold works c.last_at stop (amount - c.elapsed_ms)
        ≡ business_threshold works middle stop (amount - (c.elapsed_ms + first))
  moment_second c middle stop amount first second (inr (p, q)) more reached = absurd (omega arith)
  moment_second c middle stop amount first second (inl (e, f)) more reached =
      let same : amount - c.elapsed_ms - first ≡ amount - (c.elapsed_ms + first) = omega arith in
      threshold_resume works c.last_at middle stop (amount - c.elapsed_ms) first second e f
        (omega arith) (omega arith)
      ∙ ap (λ x. business_threshold works middle stop x) same

  module _ (type : SlaEventType) (c d : Clock) (middle stop amount first second : ℕ)
      (adds : Adds c middle stop first second) (order : middle ≤ stop)
      (at_middle : d.last_at ≡ middle) (grown : d.elapsed_ms ≡ c.elapsed_ms + first) where
    abbrev now : Bool
    now = leb amount (c.elapsed_ms + first)

    abbrev then_too : Bool
    then_too = leb amount (c.elapsed_ms + first + second)

    -- The events of one kind in two steps are those of one.
    events_join :
        (may : Bool)
        → event_if works (may && now) type c middle amount
            ++ event_if works (may && not (may && now) && then_too) type d stop amount
          ≡ event_if works (may && then_too) type c stop amount
    events_join false = refl
    events_join true = elim (Bool-cases now) [
      | inl reached ↦
          let later : then_too ≡ true = ground arith in
          let (t, e, f) =
            moment_first c middle stop amount first second adds order (ground arith) in
          rw (reached, later, e, f) refl
      | inr more ↦ elim (Bool-cases then_too) [
        | inl later ↦
            let e =
              moment_second c middle stop amount first second adds (ground arith) (ground arith) in
            rw (more, later, e, at_middle, grown) refl
        | inr still ↦ rw (more, still) refl
      ]
    ]

  -- Whether a moment is noted after the events of the two kinds.
  noted :
      (p q : Bool) (c k : Clock) (at x y : ℕ)
      → let after = note_all (event_if works p risk c at x ++ event_if works q breached c at y) k in
        (is_absent after.risk_at ≡ not p && is_absent k.risk_at)
        × (is_absent after.breached_at ≡ not q && is_absent k.breached_at)
  noted true true c k at x y = (refl, refl)
  noted true false c k at x y = (refl, refl)
  noted false true c k at x y = (refl, refl)
  noted false false c k at x y = (refl, refl)

  -- The conditions of the two events.
  abbrev due : Option ℕ → Clock → ℕ → ℕ → Bool
  due noted_at c amount total = is_absent c.ended_at && is_absent noted_at && leb amount total

  module _ (c d : Clock) (middle stop target_ms risk_ms first second : ℕ)
      (adds : Adds c middle stop first second) (order : middle ≤ stop)
      (at_middle : d.last_at ≡ middle) (grown : d.elapsed_ms ≡ c.elapsed_ms + first)
      (same_end : d.ended_at ≡ c.ended_at) where
    -- The events of one kind, by the clock's own conditions.
    kind_join :
        (type : SlaEventType) (before after : Option ℕ) (amount : ℕ)
        → is_absent after ≡ not (due before c amount (c.elapsed_ms + first)) && is_absent before
        → event_if works (due before c amount (c.elapsed_ms + first)) type c middle amount
            ++ event_if works (due after d amount (d.elapsed_ms + second)) type d stop amount
          ≡ event_if works (due before c amount (c.elapsed_ms + first + second)) type c stop amount
    kind_join type before after amount flag =
        let may = is_absent c.ended_at && is_absent before in
        let joined =
          events_join type c d middle stop amount first second adds order at_middle grown may in
        let total : d.elapsed_ms + second ≡ c.elapsed_ms + first + second = omega arith in
        let now = leb amount (c.elapsed_ms + first) in
        let then_too = leb amount (c.elapsed_ms + first + second) in
        let two : due after d amount (d.elapsed_ms + second) ≡ may && not (may && now) && then_too =
          rw (total, same_end, flag) (ground arith) in
        ap
          (λ b.
            event_if works (may && now) type c middle amount ++ event_if works b type d stop amount)
          two
        ∙ joined

    regroup :
        (r1 b1 r2 b2 : List SlaEvent)
        → (b1 ≡ []) ⊎ (r2 ≡ [])
        → (r1 ++ b1) ++ (r2 ++ b2) ≡ (r1 ++ r2) ++ (b1 ++ b2)
    regroup r1 b1 r2 b2 (inl e) = rw e (simp (append-nil, append_assoc))
    regroup r1 b1 r2 b2 (inr e) = rw e (simp (append-nil, append_assoc))

    events_of_join :
        (is_absent d.risk_at
          ≡ not (due c.risk_at c (target_ms - risk_ms) (c.elapsed_ms + first))
            && is_absent c.risk_at)
        → (is_absent d.breached_at
            ≡ not (due c.breached_at c target_ms (c.elapsed_ms + first)) && is_absent c.breached_at)
        → events_of works c middle target_ms risk_ms (c.elapsed_ms + first)
            ++ events_of works d stop target_ms risk_ms (d.elapsed_ms + second)
          ≡ events_of works c stop target_ms risk_ms (c.elapsed_ms + first + second)
    events_of_join risk_flag breach_flag =
        let sooner = target_ms - risk_ms in
        let risks = kind_join risk c.risk_at d.risk_at sooner risk_flag in
        let breaches = kind_join breached c.breached_at d.breached_at target_ms breach_flag in
        let r1 =
          event_if works (due c.risk_at c sooner (c.elapsed_ms + first)) risk c middle sooner in
        let b1 =
          event_if works (due c.breached_at c target_ms (c.elapsed_ms + first)) breached c middle
            target_ms in
        let r2 =
          event_if works (due d.risk_at d sooner (d.elapsed_ms + second)) risk d stop sooner in
        let b2 =
          event_if works (due d.breached_at d target_ms (d.elapsed_ms + second)) breached d stop
            target_ms in
        let apart : (b1 ≡ []) ⊎ (r2 ≡ []) =
          elim (Bool-cases (due c.breached_at c target_ms (c.elapsed_ms + first))) [
            | inr calm ↦ inl (rw calm refl)
            | inl over ↦
                let quiet : due d.risk_at d sooner (d.elapsed_ms + second) ≡ false =
                  rw risk_flag (ground (arith, over)) in
                inr (rw quiet refl)
          ] in
        let r =
          event_if works (due c.risk_at c sooner (c.elapsed_ms + first + second)) risk c stop
            sooner in
        regroup r1 b1 r2 b2 apart ∙ ap (λ x. x ++ (b1 ++ b2)) risks ∙ ap (λ x. r ++ x) breaches

  abbrev start_of : Clock → Accrual → Clock
  start_of c a = record c { elapsed_ms = a.elapsed_ms; last_at = a.last_at }

  two_steps :
      (c d : Clock) (middle stop first second : ℕ)
      → d.last_at ≡ middle
      → runs d ≡ runs c
      → added c middle ≡ ok first
      → added d stop ≡ ok second
      → Adds c middle stop first second
  two_steps c d middle stop first second at_middle same e f = elim (Bool-cases (runs c)) [
    | inl on ↦ inl (rw on at e, rw (same, on, at_middle) at f)
    | inr off ↦ inr (cc (rw off at e), cc (rw (same, off) at f))
  ]

  added_both :
      (c d : Clock) (middle stop first second : ℕ)
      → d.last_at ≡ middle
      → runs d ≡ runs c
      → added c middle ≡ ok first
      → added d stop ≡ ok second
      → added c stop ≡ ok (first + second)
  added_both c d middle stop first second at_middle same e f = elim (Bool-cases (runs c)) [
    | inl on ↦ rw on (
        business_milliseconds_split works c.last_at middle stop first second (rw on at e)
          (rw (same, on, at_middle) at f))
    | inr off ↦
        let none_first : 0 ≡ first = cc (rw off at e) in
        let none_second : 0 ≡ second = cc (rw (same, off) at f) in
        rw off (ap ok (omega (arith, none_first, none_second)))
  ]

  accrue_of :
      (c : Clock) (at target_ms risk_ms more : ℕ)
      → c.last_at ≤ at
      → added c at ≡ ok more
      → accrue works c at target_ms risk_ms
        ≡ ok (record {
          elapsed_ms = c.elapsed_ms + more;
          last_at = at;
          events = events_of works c at target_ms risk_ms (c.elapsed_ms + more);
        })
  unfolding accrue
  accrue_of c at target_ms risk_ms more order grew =
      let timely : ltb at c.last_at ≡ false = ground arith in rw (timely, grew) refl

  -- Bringing a clock forward in two steps is bringing it forward at once: the same time is counted,
  -- and the same events are found at the same moments.
  pub accrue_in_steps :
      (c : Clock) (middle stop target_ms risk_ms : ℕ) (first second : Accrual)
      → accrue works c middle target_ms risk_ms ≡ ok first
      → accrue works (advanced c first) stop target_ms risk_ms ≡ ok second
      → accrue works c stop target_ms risk_ms
        ≡ ok (record second { events = first.events ++ second.events })
  accrue_in_steps c middle stop target_ms risk_ms first second e f =
      let (more, early, grew, first_is) = accrue_inv c middle target_ms risk_ms first e in
      let d = advanced c first in
      let (rest, late, grew_on, second_is) = accrue_inv d stop target_ms risk_ms second f in
      let kept = note_all-kept first.events (start_of c first) in
      let at_middle : d.last_at ≡ middle = kept.0 ∙ ap (λ a. a.last_at) first_is in
      let grown : d.elapsed_ms ≡ c.elapsed_ms + more = kept.1 ∙ ap (λ a. a.elapsed_ms) first_is in
      let same_end : d.ended_at ≡ c.ended_at = kept.2 in
      let same_runs : runs d ≡ runs c = rw (kept.2, kept.3) refl in
      let adds = two_steps c d middle stop more rest at_middle same_runs grew grew_on in
      let order : middle ≤ stop = omega (arith, late, at_middle) in
      let flags =
        noted (due c.risk_at c (target_ms - risk_ms) (c.elapsed_ms + more))
          (due c.breached_at c target_ms (c.elapsed_ms + more)) c (start_of c first) middle
          (target_ms - risk_ms) target_ms in
      let noted_events = ap (λ a. a.events) first_is in
      let later_events = events_of works d stop target_ms risk_ms (d.elapsed_ms + rest) in
      let joined =
        events_of_join c d middle stop target_ms risk_ms more rest adds order at_middle grown
          same_end
          (ap (λ es. is_absent (note_all es (start_of c first)).risk_at) noted_events ∙ flags.0)
          (ap (λ es. is_absent (note_all es (start_of c first)).breached_at) noted_events
            ∙ flags.1) in
      let whole =
        accrue_of c stop target_ms risk_ms (more + rest) (omega (arith, early, order))
          (added_both c d middle stop more rest at_middle same_runs grew grew_on) in
      let sum : c.elapsed_ms + (more + rest) ≡ c.elapsed_ms + more + rest = omega arith in
      let total : c.elapsed_ms + (more + rest) ≡ second.elapsed_ms =
        omega (arith, ap (λ a. a.elapsed_ms) second_is, grown) in
      let moment : stop ≡ second.last_at = sym (ap (λ a. a.last_at) second_is) in
      let events : events_of works c stop target_ms risk_ms (c.elapsed_ms + (more + rest))
          ≡ first.events ++ second.events =
        ap (λ n. events_of works c stop target_ms risk_ms n) sum
        ∙ sym joined
        ∙ ap (λ es. es ++ later_events) (sym noted_events)
        ∙ ap (λ es. first.events ++ es) (sym (ap (λ a. a.events) second_is)) in
      whole ∙ λ i. ok (record { elapsed_ms = total i; last_at = moment i; events = events i })
