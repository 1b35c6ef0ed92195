-- ===== src/Sla/Hours.antt =====
-- intervals, businessMilliseconds, businessThreshold and accrue of ops/sla-engine.mjs. The maps
-- `days` and `formatters` only keep what was computed before.
pub mod Minutes
pub mod Threshold
pub mod Deadline
pub mod Steps
pub mod Accruals
use planeo.Prelude.{
  ℕ, zero, suc, ◌+◌, ◌-◌, ◌*◌, ◌/◌, ◌≤◌, String, Bool, true, false, not, ◌&&◌, ◌||◌, Option, none,
  some, List, [], ◌∷◌, ◌++◌, any, includes, ◌===◌, leb, ltb, is_absent, maybe, if◌then◌else◌,
  Result, ok, err, throw_if, ◌>>=◌, ◌>>◌, ◌≡◌, min, max,
}
use planeo.Sla.{Window, CalendarConfig, SlaError, bad_range, out_of_order}

abbrev pub minute : ℕ
minute = 60000

abbrev pub day_length : ℕ
day_length = 86400000

-- What the formatter gives of a moment in the calendar's time zone; `weekday` counts from Sunday.
pub record LocalTime : Type 0 where
  pub date : String
  pub weekday : ℕ
  pub wall : ℕ

-- The hours of a day of the week; a calendar that was validated has seven.
abbrev hours_on : ℕ → List (List Window) → List Window
hours_on n [] = []
hours_on zero (ws ∷ week) = ws
hours_on (suc n) (ws ∷ week) = hours_on n week

abbrev exception_on : String → List (String × List Window) → Option (List Window)
exception_on day [] = none
exception_on day ((d, ws) ∷ rest) = if d === day then some ws else exception_on day rest

abbrev hours_of : CalendarConfig → LocalTime → List Window
hours_of config t =
    maybe (exception_on t.date config.exceptions)
      (if includes config.holidays t.date then [] else hours_on t.weekday config.week) (λ ws. ws)

-- `working`, of the minute that begins at a moment.
unfoldable pub working : (ℕ → LocalTime) → CalendarConfig → ℕ → Bool
working local config at =
    let t = local at in any (λ w. leb w.start t.wall && ltb t.wall w.stop) (hours_of config t)

abbrev pub Span : Type 0
Span = ℕ × ℕ

-- `Math.max(0, Math.min(end, b) - Math.max(start, a))`
abbrev pub overlap : ℕ → ℕ → ℕ → ℕ → ℕ
overlap start stop a b = min stop b - max start a

abbrev pub overlaps : ℕ → ℕ → List Span → ℕ
overlaps start stop [] = 0
overlaps start stop ((a, b) ∷ spans) = overlap start stop a b + overlaps start stop spans

-- The intervals of a day: the moment that is found, or what remains.
abbrev pub spend_time : ℕ → ℕ → List Span → ℕ → Option ℕ × ℕ
spend_time start stop [] remaining = (none, remaining)
spend_time start stop ((a, b) ∷ spans) remaining =
    let duration = overlap start stop a b in
    let rest = spend_time start stop spans (remaining - duration) in
    if leb remaining duration then (some (max start a + remaining), 0) else rest

pub data SlaEventType : Type 0 where
  risk breached : SlaEventType

abbrev pub SlaEvent : Type 0
SlaEvent = SlaEventType × ℕ

-- The part of a cycle that its clock reads and sets; `lastAt` is a moment, `elapsedMs` a length.
pub record Clock : Type 0 where
  pub last_at : ℕ
  pub elapsed_ms : ℕ
  pub ended_at : Option ℕ
  pub pause_reasons : List String
  pub risk_at : Option ℕ
  pub breached_at : Option ℕ

pub record Accrual : Type 0 where
  pub elapsed_ms : ℕ
  pub last_at : ℕ
  pub events : List SlaEvent

abbrev is_empty : List String → Bool
is_empty [] = true
is_empty (s ∷ ss) = false

abbrev pub runs : Clock → Bool
runs c = is_absent c.ended_at && is_empty c.pause_reasons

module _ (works : ℕ → Bool) where
  -- The loop of `intervals`, with the minutes that are left and the interval that is open.
  unfoldable pub open_spans : ℕ → ℕ → Option ℕ → List Span
  open_spans zero at none = []
  open_spans zero at (some opened) = (opened, at) ∷ []
  open_spans (suc n) at none = open_spans n (at + minute) (if works at then some at else none)
  open_spans (suc n) at (some opened) =
      let still = open_spans n (at + minute) (some opened) in
      let closed = (opened, at) ∷ open_spans n (at + minute) none in
      if works at then still else closed

  -- `intervals`
  abbrev pub intervals : ℕ → List Span
  intervals utc_day = open_spans 1440 utc_day none

  -- The loop over the days.
  unfoldable pub days_from : ℕ → ℕ → ℕ → ℕ → ℕ
  days_from zero day start stop = 0
  days_from (suc fuel) day start stop =
      let rest = days_from fuel (day + day_length) start stop in
      if ltb day stop then overlaps start stop (intervals day) + rest else 0

  -- `businessMilliseconds`
  unfoldable pub business_milliseconds : ℕ → ℕ → Result SlaError ℕ
  business_milliseconds start stop =
      throw_if (ltb stop start) bad_range
      >> ok (days_from (stop / day_length + 1) (start / day_length * day_length) start stop)

  unfoldable pub threshold_from : ℕ → ℕ → ℕ → ℕ → ℕ → Option ℕ
  threshold_from zero day start stop remaining = none
  threshold_from (suc fuel) day start stop remaining =
      let today = spend_time start stop (intervals day) remaining in
      let rest = threshold_from fuel (day + day_length) start stop today.1 in
      if ltb day stop then maybe today.0 rest some else none

  -- `businessThreshold`; an amount that is no more than 0 is 0 here.
  unfoldable pub business_threshold : ℕ → ℕ → ℕ → Option ℕ
  business_threshold start stop amount =
      let loop =
        threshold_from (stop / day_length + 1) (start / day_length * day_length) start stop
          amount in
      if leb amount 0 then some start else loop

  -- The event, at the moment that the clock passes the amount, if it does so now.
  abbrev pub event_if : Bool → SlaEventType → Clock → ℕ → ℕ → List SlaEvent
  event_if due type c at amount =
      if due
      then (type, maybe (business_threshold c.last_at at (amount - c.elapsed_ms)) at (λ t. t)) ∷ []
      else []

  abbrev pub events_of : Clock → ℕ → ℕ → ℕ → ℕ → List SlaEvent
  events_of c at target_ms risk_ms total =
      event_if (is_absent c.ended_at && is_absent c.risk_at && leb (target_ms - risk_ms) total) risk
        c at (target_ms - risk_ms)
      ++ event_if (is_absent c.ended_at && is_absent c.breached_at && leb target_ms total) breached
          c at target_ms

  -- `accrue`, of a target and a time of risk that is no longer.
  unfoldable pub accrue : Clock → ℕ → ℕ → ℕ → Result SlaError Accrual
  accrue c at target_ms risk_ms =
      throw_if (ltb at c.last_at) out_of_order
      >> ((if runs c then business_milliseconds c.last_at at else ok 0) >>= λ added. ok (record {
        elapsed_ms = c.elapsed_ms + added;
        last_at = at;
        events = events_of c at target_ms risk_ms (c.elapsed_ms + added);
      }))

-- What the worker sets in the cycle for one event, and for all that accrue gives.
abbrev pub note : SlaEventType → ℕ → Clock → Clock
note risk at c = record c { risk_at = some at }
note breached at c = record c { breached_at = some at }

abbrev pub note_all : List SlaEvent → Clock → Clock
note_all [] c = c
note_all ((type, at) ∷ es) c = note_all es (note type at c)

abbrev pub advanced : Clock → Accrual → Clock
advanced c a = note_all a.events (record c { elapsed_ms = a.elapsed_ms; last_at = a.last_at })
