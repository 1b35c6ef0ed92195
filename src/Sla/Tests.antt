-- ===== src/Sla/Tests.antt =====
-- Runs of ops/sla-engine.mjs and ops/sla-worker.mjs.
use planeo.Prelude.{
  ℕ, String, Bool, true, false, none, some, List, [], ◌∷◌, ltb, ok, err, if◌then◌else◌, ◌≡◌, refl,
  arith, unique,
}
use planeo.Prelude.Int.{pos}
use planeo.Prelude.Json.{Json, num, str, arr, obj, whole, nil, cons, end, field}
use planeo.Sla.{Window, CalendarConfig, Condition, overlapping}
use planeo.Sla.Calendar.{Zones, windows, validate_calendar}
use planeo.Sla.Hours.{
  LocalTime, Clock, Accrual, risk, breached, open_spans, days_from, business_milliseconds,
  threshold_from, business_threshold, accrue, advanced, working,
}
use planeo.Sla.Hours.Minutes.{worked, business_milliseconds_lem}
use planeo.Sla.Hours.Accruals.{accrue_in_steps}
use planeo.Sla.Rules.{all_match}
use planeo.Sla.Worker.{
  response, GoalVersion, Cycle, running, met, Store, none_open, completed, EventKey, named,
  sla_succeeded, realtime, audit, World, emit, advance, react,
}
use planeo.Sla.Worker.Request.{process_sla_request}
use planeo.Sla.Worker.Sound.{IsStore, process_sla_request-IsStore}

-- Work goes on in the first three minutes, and from the eleventh on.
abbrev works : ℕ → Bool
works at = if ltb at 180000 then true else if ltb at 600000 then false else true

business_milliseconds_lem_example :
    business_milliseconds works 60000 630000 ≡ ok (worked works 11 0 60000 630000)
business_milliseconds_lem_example =
    business_milliseconds_lem works 11 60000 630000 (omega arith) (omega arith)

counted : business_milliseconds works 60000 630000 ≡ ok 150000
unfolding business_milliseconds days_from open_spans
counted = refl

until_earlier : business_milliseconds works 60000 600000 ≡ ok 120000
unfolding business_milliseconds days_from open_spans
until_earlier = refl

found : business_threshold works 60000 630000 130000 ≡ some 610000
unfolding business_threshold threshold_from open_spans
found = refl

abbrev clock : Clock
clock = record {
  last_at = 60000;
  elapsed_ms = 0;
  ended_at = none;
  pause_reasons = [];
  risk_at = none;
  breached_at = none;
}

abbrev at_six : Accrual
at_six = record { elapsed_ms = 120000; last_at = 600000; events = (risk, 120000) ∷ [] }

abbrev at_end : Accrual
at_end = record { elapsed_ms = 150000; last_at = 630000; events = (breached, 610000) ∷ [] }

first_step : accrue works clock 600000 130000 70000 ≡ ok at_six
unfolding accrue business_milliseconds days_from business_threshold threshold_from open_spans
first_step = refl

second_step : accrue works (advanced clock at_six) 630000 130000 70000 ≡ ok at_end
unfolding accrue business_milliseconds days_from business_threshold threshold_from open_spans
second_step = refl

accrue_in_steps_example :
    accrue works clock 630000 130000 70000
    ≡ ok (record at_end { events = (risk, 120000) ∷ (breached, 610000) ∷ [] })
accrue_in_steps_example =
    accrue_in_steps works clock 600000 630000 130000 70000 at_six at_end first_step second_step

abbrev zones : Zones
zones = record { is_timezone = λ _. true; reads_back = λ _. true }

abbrev interval : ℕ → ℕ → Json
interval start stop = arr (cons (num (whole (pos start))) (cons (num (whole (pos stop))) nil))

-- The afternoon stands first, and is sorted behind the morning.
abbrev hours : Json
hours = arr (cons (interval 780 1020) (cons (interval 540 720) nil))

abbrev input : Json
input = obj (
    field "timezone" (str "UTC") (
      field "week"
        (arr (
          cons (arr nil)
            (cons hours (cons hours (cons hours (cons hours (cons hours (cons (arr nil) nil))))))))
        end))

abbrev work_day : List Window
work_day = record { start = 540; stop = 720 } ∷ record { start = 780; stop = 1020 } ∷ []

abbrev config : CalendarConfig
config = record {
  timezone = "UTC";
  week = [] ∷ work_day ∷ work_day ∷ work_day ∷ work_day ∷ work_day ∷ [] ∷ [];
  holidays = [];
  exceptions = [];
}

accepted : validate_calendar zones input ≡ ok config
unfolding validate_calendar windows unique
accepted = refl

overlapping_hours :
    windows (arr (cons (interval 540 720) (cons (interval 700 800) nil))) ≡ err overlapping
unfolding windows
overlapping_hours = refl

-- It is Monday morning.
abbrev local : String → ℕ → LocalTime
local zone at = record { date = "2026-01-05"; weekday = 1; wall = 600 }

abbrev condition : String → String → Condition
condition name value = record { field = name; equals = str value }

abbrev version : GoalVersion
version = record {
  id = "v1";
  metric = response;
  target_minutes = 60;
  risk_minutes = 15;
  portal_visible = true;
  conditions = [];
  rules = record {
    start = [];
    pause = [];
    resume = [];
    stop = condition "event" "agent.replied" ∷ [];
    reset = condition "event" "request.reopened" ∷ [];
    success = [];
  };
  config = config;
}

abbrev world : World
world = record {
  local = local;
  rules = λ _. [];
  subscriptions = λ _. [];
  is_active_member = λ _. false;
  version_of = λ _. none;
  new_cycle_id = λ _ _. "c2";
  assignee_id = none;
  customer_id = none;
}

abbrev cycle : Cycle
cycle = record {
  id = "c1";
  version = version;
  sequence = 1;
  started_at = 0;
  clock = record clock { last_at = 0 };
  state = running;
  succeeded_at = none;
}

abbrev store : Store
store = record {
  cycles = cycle ∷ [];
  signals =
      record {
        id = "s1";
        happened_at = 120000;
        goal_ids = [];
        payload = obj (field "event" (str "agent.replied") end);
        processed_at = none;
      }
      ∷ [];
  events = [];
  consequences = [];
  sla_state = none_open;
  checked_at = none;
}

abbrev key : EventKey
key = record { cycle_id = "c1"; suffix = named sla_succeeded }

-- The answer has met the goal.
abbrev after : Store
after = record {
  cycles =
      record cycle {
        clock = record clock { last_at = 120000; elapsed_ms = 120000; ended_at = some 120000 };
        state = met;
        succeeded_at = some 120000;
      }
      ∷ [];
  signals =
      record {
        id = "s1";
        happened_at = 120000;
        goal_ids = [];
        payload = obj (field "event" (str "agent.replied") end);
        processed_at = some 150000;
      }
      ∷ [];
  events =
      record {
        key = key;
        name = sla_succeeded;
        happened_at = 120000;
        elapsed_ms = 120000;
        state = met;
        pause_reasons = [];
      }
      ∷ [];
  consequences = realtime ∷ audit key sla_succeeded 120000 ∷ [];
  sla_state = completed;
  checked_at = some 150000;
}

ran : process_sla_request world false 150000 store ≡ ok (true, after)
unfolding process_sla_request react advance emit accrue business_milliseconds days_from open_spans
    working all_match unique
ran = refl

process_sla_request-IsStore_example : IsStore after
process_sla_request-IsStore_example =
    process_sla_request-IsStore world false 150000 store after true (((refl, refl), tt), tt) ran
