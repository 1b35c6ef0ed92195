-- ===== src/Sla/Hours/Deadline.antt =====
-- businessThreshold of ops/sla-engine.mjs: what is known of the moment that it gives.
use planeo.Prelude.{
  ℕ, zero, suc, ◌+◌, ◌-◌, ◌*◌, ◌/◌, ◌≤◌, ◌<◌, Bool, false, none, some, inl, inr, leb, ok, ◌≡◌, ◌↔◌,
  sym, ap, ◌∙◌, max, arith, Bool-cases, Option-cases,
}
use planeo.Sla.Hours.{minute, day_length, business_milliseconds, business_threshold}
use planeo.Sla.Hours.Minutes.{
  worked_minute, worked, worked_split, worked_after, worked_before, business_milliseconds_lem,
  business_milliseconds_ordered,
}
use planeo.Sla.Hours.Threshold.{seek, seek_append, seek_outside, threshold_from-seek}

module _ (works : ℕ → Bool) (start stop : ℕ) where
  -- A moment that is found is the first by which so much has been worked.
  abbrev Found : ℕ → ℕ → ℕ → ℕ → Type 0
  Found n at remaining t =
      (worked works n at start t ≡ remaining) × (start ≤ t) × (t ≤ stop) × (at ≤ t)

  seek-Found :
      (n at remaining t : ℕ)
      → 0 < remaining
      → (seek works n at start stop remaining).0 ≡ some t
      → Found n at remaining t
  unfolding seek worked
  seek-Found zero at remaining t p e = absurd (cc e)
  seek-Found (suc n) at remaining t p e =
      let worth = worked_minute works at start stop in
      elim (Bool-cases (leb remaining worth)) [
        | inl hit ↦
            let here : max start at + remaining ≡ t = cc (rw hit at e) in
            ground (arith, here, worked_after works n (at + minute) start t)
        | inr missed ↦
            let later =
              seek-Found n (at + minute) (remaining - worth) t (ground arith) (rw missed at e) in
            ground (arith, later)
      ]

  seek_least :
      (n at remaining t earlier : ℕ)
      → 0 < remaining
      → (seek works n at start stop remaining).0 ≡ some t
      → earlier < t
      → worked works n at start earlier < remaining
  unfolding seek worked
  seek_least zero at remaining t earlier p e q = p
  seek_least (suc n) at remaining t earlier p e q =
      let worth = worked_minute works at start stop in
      elim (Bool-cases (leb remaining worth)) [
        | inl hit ↦
            let here : max start at + remaining ≡ t = cc (rw hit at e) in
            ground (arith, here, worked_after works n (at + minute) start earlier)
        | inr missed ↦
            let left = remaining - worth in
            let e' = rw missed at e in
            let later = seek_least n (at + minute) left t earlier (ground arith) e' q in
            let found = seek-Found n (at + minute) left t (ground arith) e' in
            ground (arith, later, found, worked_after works n (at + minute) start earlier)
      ]

  seek_missing :
      (n at remaining : ℕ)
      → 0 < remaining
      → (seek works n at start stop remaining).0 ≡ none
      → worked works n at start stop < remaining
  unfolding seek worked
  seek_missing zero at remaining p e = p
  seek_missing (suc n) at remaining p e =
      let worth = worked_minute works at start stop in
      elim (Bool-cases (leb remaining worth)) [
        | inl hit ↦ absurd (cc (rw hit at e))
        | inr missed ↦
            let later =
              seek_missing n (at + minute) (remaining - worth) (ground arith) (rw missed at e) in
            ground (arith, later)
      ]

  -- As many minutes as the loops over the days pass, from the first one on.
  abbrev passed : ℕ
  passed = start / day_length * 1440 + (stop / day_length + 1) * 1440

  business_threshold-seek :
      (amount : ℕ)
      → 0 < amount
      → business_threshold works start stop amount ≡ (seek works passed 0 start stop amount).0
  unfolding business_threshold
  business_threshold-seek amount p =
      let first = start / day_length in
      let fuel = stop / day_length + 1 in
      let skipped =
        seek_outside works start stop (first * 1440) 0 amount p
          (worked_before works (first * 1440) 0 start stop (omega arith)) in
      let parts = seek_append works start stop (first * 1440) (fuel * 1440) 0 amount in
      let place : 0 + first * 1440 * minute ≡ first * day_length = omega arith in
      let loop =
        threshold_from-seek works start stop fuel (first * day_length) amount p (omega arith) in
      let unfinished : leb amount 0 ≡ false = ground arith in
      rw (parts, skipped, unfinished, place) loop

  pub business_threshold_at :
      (amount t : ℕ)
      → 0 < amount
      → start ≤ stop
      → business_threshold works start stop amount ≡ some t
      → (business_milliseconds works start t ≡ ok amount) × (start ≤ t) × (t ≤ stop)
  business_threshold_at amount t p range e =
      let found = seek-Found passed 0 amount t p (sym (business_threshold-seek amount p) ∙ e) in
      let at_t = business_milliseconds_lem works passed start t found.1 (omega (arith, found)) in
      (at_t ∙ ap ok found.0, found.1, found.2)

  pub business_threshold_least :
      (amount t earlier total : ℕ)
      → 0 < amount
      → start ≤ stop
      → business_threshold works start stop amount ≡ some t
      → earlier < t
      → business_milliseconds works start earlier ≡ ok total
      → total < amount
  business_threshold_least amount t earlier total p range e before before_t =
      let e' = sym (business_threshold-seek amount p) ∙ e in
      let found = seek-Found passed 0 amount t p e' in
      let least = seek_least passed 0 amount t earlier p e' before in
      let from = business_milliseconds_ordered works start earlier total before_t in
      let at_earlier =
        business_milliseconds_lem works passed start earlier from (omega (arith, found)) in
      let same : total ≡ worked works passed 0 start earlier = cc in omega (arith, least, same)

  -- Where businessThreshold gives a moment, that is the first by which the amount has been worked
  -- since the start, and it is not after the end of the range.
  pub business_threshold_found :
      (amount t earlier total : ℕ)
      → 0 < amount
      → start ≤ stop
      → business_threshold works start stop amount ≡ some t
      → earlier < t
      → business_milliseconds works start earlier ≡ ok total
      → (business_milliseconds works start t ≡ ok amount) × (t ≤ stop) × (total < amount)
  business_threshold_found amount t earlier total p range e before before_t =
      let here = business_threshold_at amount t p range e in
      (here.0, here.2, business_threshold_least amount t earlier total p range e before before_t)

  -- It gives none exactly where less than the amount is worked in the range.
  pub business_threshold-none_iff :
      (amount total : ℕ)
      → 0 < amount
      → business_milliseconds works start stop ≡ ok total
      → (business_threshold works start stop amount ≡ none) ↔ (total < amount)
  business_threshold-none_iff amount total p e =
      let range = business_milliseconds_ordered works start stop total e in
      let all_of_it = business_milliseconds_lem works passed start stop range (omega arith) in
      let same : total ≡ worked works passed 0 start stop = cc in
      (
        λ missing.
            let less =
              seek_missing passed 0 amount p (sym (business_threshold-seek amount p) ∙ missing) in
            omega (arith, less, same),
        λ less. elim (Option-cases (business_threshold works start stop amount)) [
          | inl missing ↦ missing
          | inr (t, e1) ↦
              let found =
                seek-Found passed 0 amount t p (sym (business_threshold-seek amount p) ∙ e1) in
              let parts = worked_split works passed 0 start t stop found.1 found.2 in
              absurd (omega (arith, parts, found, same))
        ],
      )

  pub business_threshold_exists :
      (amount total : ℕ)
      → 0 < amount
      → business_milliseconds works start stop ≡ ok total
      → amount ≤ total
      → (t : ℕ) × (business_threshold works start stop amount ≡ some t)
  business_threshold_exists amount total p e enough =
      elim (Option-cases (business_threshold works start stop amount)) [
        | inl missing ↦
            absurd (omega (arith, (business_threshold-none_iff amount total p e).0 missing))
        | inr found ↦ found
      ]
