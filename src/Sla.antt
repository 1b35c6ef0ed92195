-- ===== src/Sla.antt =====
-- ops/sla-engine.mjs and ops/sla-worker.mjs: the clocks of service goals. A time is a number of
-- milliseconds. Time zones are those of the runtime's Intl, given as `Local`.
pub mod Calendar
pub mod Hours
pub mod Rules
pub mod Worker
mod Tests
use planeo.Prelude.{ℕ, String, List}
use planeo.Prelude.Json.{Json}

-- A working interval of a day, in minutes from midnight, the end excluded.
pub record Window : Type 0 where
  pub start : ℕ
  pub stop : ℕ

-- What validateCalendar gives.
pub record CalendarConfig : Type 0 where
  pub timezone : String
  pub week : List (List Window)
  pub holidays : List String
  pub exceptions : List (String × List Window)

-- One comparison of a rule: `{ field, equals }`.
pub record Condition : Type 0 where
  pub field : String
  pub equals : Json

pub record PauseReason : Type 0 where
  pub id : String
  pub conditions : List Condition

-- What validateRules gives.
pub record TimerRules : Type 0 where
  pub start : List Condition
  pub pause : List PauseReason
  pub resume : List Condition
  pub stop : List Condition
  pub reset : List Condition
  pub success : List Condition

pub data SlaError : Type 0 where
  too_many_intervals bad_interval overlapping : SlaError
  no_calendar unsupported_setting no_timezone unknown_timezone : SlaError
  not_seven_days bad_holidays bad_exceptions no_working_time : SlaError
  too_many_conditions bad_condition bad_rules bad_pauses bad_reason repeated_reason : SlaError
  bad_range out_of_order : SlaError
