-- ===== src/Sla/Hours/Threshold.antt =====
-- businessThreshold of ops/sla-engine.mjs: the moment at which an amount of working time is over.
use planeo.Prelude.{
  ℕ, zero, suc, ◌+◌, ◌-◌, ◌*◌, ◌≤◌, ◌<◌, Bool, true, false, Option, none, some, inl, inr, leb, ltb,
  if◌then◌else◌, maybe, ◌≡◌, refl, sym, ap, ◌∙◌, max, arith, Bool-cases, Option-cases,
}
use planeo.Sla.Hours.{minute, day_length, open_spans, overlap, spend_time, threshold_from}
use planeo.Sla.Hours.Minutes.{worked_minute, worked, overlap_join, worked_after}

module _ (works : ℕ → Bool) where
  -- The search minute by minute, among so many that follow a moment.
  unfoldable pub seek : ℕ → ℕ → ℕ → ℕ → ℕ → Option ℕ × ℕ
  seek zero at start stop remaining = (none, remaining)
  seek (suc n) at start stop remaining =
      let worth = worked_minute works at start stop in
      let rest = seek n (at + minute) start stop (remaining - worth) in
      if leb remaining worth then (some (max start at + remaining), 0) else rest

  module _ (start stop : ℕ) where
    -- The search after an interval that began before it.
    abbrev seek_open : ℕ → ℕ → Option ℕ → ℕ → Option ℕ × ℕ
    seek_open n at none remaining = seek n at start stop remaining
    seek_open n at (some o) remaining =
        if leb remaining (overlap start stop o at)
        then (some (max start o + remaining), 0)
        else seek n at start stop (remaining - overlap start stop o at)

    abbrev Before : Option ℕ → ℕ → Type 0
    Before none at = Unit
    Before (some o) at = o ≤ at

    seek_idle :
        (n at remaining : ℕ)
        → 0 < remaining
        → works at ≡ false
        → seek (suc n) at start stop remaining ≡ seek n (at + minute) start stop remaining
    unfolding seek
    seek_idle n at remaining p off =
        let unfinished : leb remaining 0 ≡ false = ground arith in
        let unspent : remaining - 0 ≡ remaining = omega arith in rw (off, unfinished, unspent) refl

    seek_no_minutes : (at remaining : ℕ) → seek zero at start stop remaining ≡ (none, remaining)
    unfolding seek
    seek_no_minutes at remaining = refl

    -- An interval that is joined to the minute after it.
    seek_joined :
        {A : Type 0} (found : ℕ → A) (rest : ℕ → A) (o at remaining : ℕ)
        → o ≤ at
        → (if leb remaining (overlap start stop o (at + minute))
            then found (max start o + remaining)
            else rest (remaining - overlap start stop o (at + minute)))
          ≡ (if leb remaining (overlap start stop o at)
              then found (max start o + remaining)
              else if leb
                  (remaining - overlap start stop o at)
                  (overlap start stop at (at + minute))
              then found (max start at + (remaining - overlap start stop o at))
              else rest (remaining - overlap start stop o at - overlap start stop at (at + minute)))
    seek_joined found rest o at remaining p =
        ground (arith, overlap_join (λ _. true) start stop o at (at + minute) p (omega arith))

    seek_start :
        (n at remaining : ℕ)
        → works at ≡ true
        → seek_open n (at + minute) (some at) remaining ≡ seek (suc n) at start stop remaining
    unfolding seek
    seek_start n at remaining on = rw on refl

    seek_busy :
        (n at o remaining : ℕ)
        → o ≤ at
        → works at ≡ true
        → seek_open n (at + minute) (some o) remaining ≡ seek_open (suc n) at (some o) remaining
    unfolding seek
    seek_busy n at o remaining p on = rw on (
        seek_joined (λ t. (some t, 0)) (λ left. seek n (at + minute) start stop left) o at remaining
          p)

    spend_time-open_spans :
        (n at remaining : ℕ) (opened : Option ℕ)
        → Before opened at
        → 0 < remaining
        → spend_time start stop (open_spans works n at opened) remaining
          ≡ seek_open n at opened remaining
    unfolding open_spans
    spend_time-open_spans zero at remaining none b p = sym (seek_no_minutes at remaining)
    spend_time-open_spans zero at remaining (some o) b p =
        rw (seek_no_minutes at (remaining - overlap start stop o at)) refl
    spend_time-open_spans (suc n) at remaining none b p = elim (Bool-cases (works at)) [
      | inl on ↦ rw on (
          spend_time-open_spans n (at + minute) remaining (some at) (omega arith) p
          ∙ seek_start n at remaining on)
      | inr off ↦ rw off (
          spend_time-open_spans n (at + minute) remaining none tt p
          ∙ sym (seek_idle n at remaining p off))
    ]
    spend_time-open_spans (suc n) at remaining (some o) b p = elim (Bool-cases (works at)) [
      | inl on ↦ rw on (
          spend_time-open_spans n (at + minute) remaining (some o) (omega arith) p
          ∙ seek_busy n at o remaining b on)
      | inr off ↦ rw off (elim (Bool-cases (leb remaining (overlap start stop o at))) [
        | inl hit ↦ rw hit refl
        | inr missed ↦
            let left = remaining - overlap start stop o at in
            let p' : 0 < left = ground arith in
            rw missed (
              spend_time-open_spans n (at + minute) left none tt p'
              ∙ sym (seek_idle n at left p' off))
      ])
    ]

    pub seek_append :
        (n m at remaining : ℕ)
        → seek (n + m) at start stop remaining ≡ (
            let first = seek n at start stop remaining in
            maybe first.0 (seek m (at + n * minute) start stop first.1) (λ t. (some t, 0)))
    unfolding seek
    seek_append zero m at remaining =
        let count : zero + m ≡ m = omega arith in
        let place : at + zero * minute ≡ at = omega arith in rw (count, place) refl
    seek_append (suc n) m at remaining =
        let shift : at + minute + n * minute ≡ at + suc n * minute = omega arith in
        let count : suc n + m ≡ suc (n + m) = omega arith in
        let left = remaining - worked_minute works at start stop in
        let ih = seek_append n m (at + minute) left in
        rw (count, ← shift)
          (elim (Bool-cases (leb remaining (worked_minute works at start stop))) [
            | inl hit ↦ rw hit refl
            | inr missed ↦ rw missed ih
          ])

    -- Minutes that lie outside the range.
    pub seek_outside :
        (n at remaining : ℕ)
        → 0 < remaining
        → worked works n at start stop ≡ 0
        → seek n at start stop remaining ≡ (none, remaining)
    unfolding seek worked
    seek_outside zero at remaining p w = refl
    seek_outside (suc n) at remaining p w =
        let nothing : worked_minute works at start stop ≡ 0 = omega arith in
        let unfinished : leb remaining 0 ≡ false = ground arith in
        let unspent : remaining - 0 ≡ remaining = omega arith in
        rw (nothing, unfinished, unspent) (seek_outside n (at + minute) remaining p (omega arith))

    seek_left :
        (n at remaining : ℕ)
        → 0 < remaining
        → (seek n at start stop remaining).0 ≡ none
        → 0 < (seek n at start stop remaining).1
    unfolding seek
    seek_left zero at remaining p missing = p
    seek_left (suc n) at remaining p missing =
        elim (Bool-cases (leb remaining (worked_minute works at start stop))) [
          | inl hit ↦ absurd (cc (rw hit at missing))
          | inr missed ↦
              let left = remaining - worked_minute works at start stop in
              rw missed (seek_left n (at + minute) left (ground arith) (rw missed at missing))
        ]

    pub threshold_from-seek :
        (fuel day remaining : ℕ)
        → 0 < remaining
        → stop ≤ day + fuel * day_length
        → threshold_from works fuel day start stop remaining
          ≡ (seek (fuel * 1440) day start stop remaining).0
    unfolding threshold_from
    threshold_from-seek zero day remaining p far =
        ap (λ r. r.0)
          (sym (seek_outside 0 day remaining p (worked_after works 0 day start stop (omega arith))))
    threshold_from-seek (suc fuel) day remaining p far = elim (Bool-cases (ltb day stop)) [
      | inr over ↦ rw over (
          ap (λ r. r.0)
            (sym (
              seek_outside (suc fuel * 1440) day remaining p
                (worked_after works (suc fuel * 1440) day start stop (ground arith)))))
      | inl more ↦
          let count : suc fuel * 1440 ≡ 1440 + fuel * 1440 = omega arith in
          let place : day + 1440 * minute ≡ day + day_length = omega arith in
          let today = spend_time-open_spans 1440 day remaining none tt p in
          let parts = seek_append 1440 (fuel * 1440) day remaining in
          rw (count, more, today, parts, place)
            (elim (Option-cases (seek 1440 day start stop remaining).0) [
              | inr (t, found) ↦ rw found refl
              | inl missing ↦ rw missing (
                  threshold_from-seek fuel (day + day_length) (seek 1440 day start stop remaining).1
                    (seek_left 1440 day remaining p missing) (omega arith))
            ])
    ]
