-- ===== src/Sla/Hours/Minutes.antt =====
-- intervals and businessMilliseconds of ops/sla-engine.mjs against a count minute by minute.
use planeo.Prelude.{
  ℕ, zero, suc, ◌+◌, ◌*◌, ◌/◌, ◌≤◌, Bool, Option, none, some, inl, inr, ltb, if◌then◌else◌, ok, ◌≡◌,
  refl, sym, ap, ◌∙◌, arith, Bool-cases,
}
use planeo.Sla.Hours.{
  minute, day_length, open_spans, intervals, overlap, overlaps, days_from, business_milliseconds,
}

module _ (works : ℕ → Bool) where
  -- What of the range lies in the minute that begins at a moment, if the minute is a working one.
  abbrev pub worked_minute : ℕ → ℕ → ℕ → ℕ
  worked_minute at start stop = if works at then overlap start stop at (at + minute) else 0

  -- What of the range lies in the working minutes among so many that follow a moment.
  unfoldable pub worked : ℕ → ℕ → ℕ → ℕ → ℕ
  worked zero at start stop = 0
  worked (suc n) at start stop = worked_minute at start stop + worked n (at + minute) start stop

  pub overlap_join :
      (start stop a b c : ℕ)
      → a ≤ b
      → b ≤ c
      → overlap start stop a b + overlap start stop b c ≡ overlap start stop a c
  overlap_join start stop a b c p q = ground arith

  overlap_split :
      (start middle stop a b : ℕ)
      → start ≤ middle
      → middle ≤ stop
      → overlap start stop a b ≡ overlap start middle a b + overlap middle stop a b
  overlap_split start middle stop a b p q = ground arith

  pub worked_split :
      (n at start middle stop : ℕ)
      → start ≤ middle
      → middle ≤ stop
      → worked n at start stop ≡ worked n at start middle + worked n at middle stop
  unfolding worked
  worked_split zero at start middle stop p q = refl
  worked_split (suc n) at start middle stop p q = ground (
    arith,
    worked_split n (at + minute) start middle stop p q,
    overlap_split start middle stop at (at + minute) p q,
  )

  pub worked_append :
      (n m at start stop : ℕ)
      → worked (n + m) at start stop
        ≡ worked n at start stop + worked m (at + n * minute) start stop
  unfolding worked
  worked_append zero m at start stop =
      let count : zero + m ≡ m = omega arith in
      let place : at + zero * minute ≡ at = omega arith in rw (count, place) (omega arith)
  worked_append (suc n) m at start stop =
      let ih = worked_append n m (at + minute) start stop in
      let shift : at + minute + n * minute ≡ at + suc n * minute = omega arith in
      let count : suc n + m ≡ suc (n + m) = omega arith in rw (count, ← shift) (omega (arith, ih))

  -- Minutes that end before the range begins.
  pub worked_before : (n at start stop : ℕ) → at + n * minute ≤ start → worked n at start stop ≡ 0
  unfolding worked
  worked_before zero at start stop p = refl
  worked_before (suc n) at start stop p =
      ground (arith, worked_before n (at + minute) start stop (omega arith))

  pub worked_after : (n at start stop : ℕ) → stop ≤ at → worked n at start stop ≡ 0
  unfolding worked
  worked_after zero at start stop p = refl
  worked_after (suc n) at start stop p =
      ground (arith, worked_after n (at + minute) start stop (omega arith))

  -- What an interval that is open adds.
  abbrev open_overlap : ℕ → ℕ → Option ℕ → ℕ → ℕ
  open_overlap start stop none at = 0
  open_overlap start stop (some o) at = overlap start stop o at

  abbrev Before : Option ℕ → ℕ → Type 0
  Before none at = Unit
  Before (some o) at = o ≤ at

  overlaps-open_spans :
      (n at start stop : ℕ) (opened : Option ℕ)
      → Before opened at
      → overlaps start stop (open_spans works n at opened)
        ≡ open_overlap start stop opened at + worked n at start stop
  unfolding open_spans worked
  overlaps-open_spans zero at start stop none p = refl
  overlaps-open_spans zero at start stop (some o) p = refl
  overlaps-open_spans (suc n) at start stop none p = elim (Bool-cases (works at)) [
    | inl on ↦
        rw on
          (omega (arith, overlaps-open_spans n (at + minute) start stop (some at) (omega arith)))
    | inr off ↦ rw off (omega (arith, overlaps-open_spans n (at + minute) start stop none tt))
  ]
  overlaps-open_spans (suc n) at start stop (some o) p = elim (Bool-cases (works at)) [
    | inl on ↦
        let ih = overlaps-open_spans n (at + minute) start stop (some o) (omega arith) in
        rw on (omega (arith, ih, overlap_join start stop o at (at + minute) p (omega arith)))
    | inr off ↦ rw off (omega (arith, overlaps-open_spans n (at + minute) start stop none tt))
  ]

  overlaps-intervals :
      (day start stop : ℕ) → overlaps start stop (intervals works day) ≡ worked 1440 day start stop
  overlaps-intervals day start stop = omega (arith, overlaps-open_spans 1440 day start stop none tt)

  days_from-worked :
      (fuel day start stop : ℕ)
      → stop ≤ day + fuel * day_length
      → days_from works fuel day start stop ≡ worked (fuel * 1440) day start stop
  unfolding days_from
  days_from-worked zero day start stop p = sym (worked_after _ day start stop (omega arith))
  days_from-worked (suc fuel) day start stop p =
      let count : suc fuel * 1440 ≡ 1440 + fuel * 1440 = omega arith in
      let ih = days_from-worked fuel (day + day_length) start stop (omega arith) in
      let parts = worked_append 1440 (fuel * 1440) day start stop in
      elim (Bool-cases (ltb day stop)) [
        | inl more ↦ rw (count, more) (omega (arith, ih, parts, overlaps-intervals day start stop))
        | inr done ↦ rw done (sym (worked_after (suc fuel * 1440) day start stop (ground arith)))
      ]

  -- The minutes after the range add nothing.
  worked_enough :
      (n m start stop : ℕ) → stop ≤ n * minute → worked (n + m) 0 start stop ≡ worked n 0 start stop
  worked_enough n m start stop p = omega (
    arith,
    worked_append n m 0 start stop,
    worked_after m (0 + n * minute) start stop (omega arith),
  )

  -- businessMilliseconds is what of the range lies in working minutes, counted one by one from the
  -- first minute on, for as many minutes as reach the end of the range.
  pub business_milliseconds_lem :
      (n start stop : ℕ)
      → start ≤ stop
      → stop ≤ n * minute
      → business_milliseconds works start stop ≡ ok (worked n 0 start stop)
  unfolding business_milliseconds
  business_milliseconds_lem n start stop p q =
      let first = start / day_length in
      let fuel = stop / day_length + 1 in
      let skipped = first * 1440 in
      let rest = fuel * 1440 in
      let loop : days_from works fuel (first * day_length) start stop
          ≡ worked rest (first * day_length) start stop =
        days_from-worked fuel (first * day_length) start stop (omega arith) in
      let before = worked_before skipped 0 start stop (omega arith) in
      let parts = worked_append skipped rest 0 start stop in
      let place : 0 + skipped * minute ≡ first * day_length = omega arith in
      let far = worked_enough n (skipped + rest) start stop q in
      let near = worked_enough (skipped + rest) n start stop (omega arith) in
      let swap : n + (skipped + rest) ≡ skipped + rest + n = omega arith in
      let moved = ap (λ x. worked rest x start stop) place in
      let swapped = ap (λ x. worked x 0 start stop) swap in
      let total : days_from works fuel (first * day_length) start stop ≡ worked n 0 start stop =
        omega (arith, loop, before, parts, moved, far, near, swapped) in
      rw total (ground arith)

  pub business_milliseconds_ordered :
      (start stop total : ℕ) → business_milliseconds works start stop ≡ ok total → start ≤ stop
  unfolding business_milliseconds
  business_milliseconds_ordered start stop total e = ground arith

  -- The working time of a range is that of its parts.
  pub business_milliseconds_split :
      (start middle stop first second : ℕ)
      → business_milliseconds works start middle ≡ ok first
      → business_milliseconds works middle stop ≡ ok second
      → business_milliseconds works start stop ≡ ok (first + second)
  business_milliseconds_split start middle stop first second e f =
      let p = business_milliseconds_ordered start middle first e in
      let q = business_milliseconds_ordered middle stop second f in
      let whole = business_milliseconds_lem stop start stop (omega arith) (omega arith) in
      let head = business_milliseconds_lem stop start middle p (omega arith) in
      let tail = business_milliseconds_lem stop middle stop q (omega arith) in
      let parts = worked_split stop 0 start middle stop p q in
      let first_is : first ≡ worked stop 0 start middle = cc in
      let second_is : second ≡ worked stop 0 middle stop = cc in
      whole ∙ ap ok (omega (arith, parts, first_is, second_is))
