-- ===== src/Sla/Worker.antt =====
-- ops/sla-worker.mjs: what one signal does to one cycle.
-- The rows of one request are `Store`; `World` is what it asks of other tables.
pub mod Request
pub mod Sound
use planeo.Prelude.{
  ℕ, zero, suc, ◌+◌, ◌-◌, ◌*◌, String, Bool, true, false, not, ◌&&◌, ◌||◌, Option, none, some, List,
  [], ◌∷◌, ◌++◌, any, map, filter, find, length, includes, unique, ◌===◌, ◌==◌, leb, ltb, is_absent,
  maybe, if◌then◌else◌, Result, ok, err, ◌>>=◌, ◌≡◌,
}
use planeo.Prelude.Json.{Json}
use planeo.Sla.{CalendarConfig, Condition, PauseReason, TimerRules, SlaError}
use planeo.Sla.Hours.{
  minute, LocalTime, working, Clock, Accrual, SlaEventType, risk, breached, SlaEvent, accrue, note,
}
use planeo.Sla.Rules.{all_match}

pub data Metric : Type 0 where
  response resolution : Metric

abbrev pub same_metric : Metric → Metric → Bool
same_metric response response = true
same_metric response resolution = false
same_metric resolution response = false
same_metric resolution resolution = true

pub data CycleState : Type 0 where
  running paused met stopped reset : CycleState

-- A goal's version with its goal's metric and its calendar.
pub record GoalVersion : Type 0 where
  pub id : String
  pub metric : Metric
  pub target_minutes : ℕ
  pub risk_minutes : ℕ
  pub portal_visible : Bool
  pub conditions : List Condition
  pub rules : TimerRules
  pub config : CalendarConfig

pub record Cycle : Type 0 where
  pub id : String
  pub version : GoalVersion
  pub sequence : ℕ
  pub started_at : ℕ
  pub clock : Clock
  pub state : CycleState
  pub succeeded_at : Option ℕ

pub record Signal : Type 0 where
  pub id : String
  pub happened_at : ℕ
  pub goal_ids : List String
  pub payload : Json
  pub processed_at : Option ℕ

pub data EventName : Type 0 where
  started sla_risk sla_breached sla_paused sla_resumed sla_stopped sla_succeeded sla_reset :
      EventName

abbrev pub event_name : EventName → String
event_name started = "sla.started"
event_name sla_risk = "sla.risk"
event_name sla_breached = "sla.breached"
event_name sla_paused = "sla.paused"
event_name sla_resumed = "sla.resumed"
event_name sla_stopped = "sla.stopped"
event_name sla_succeeded = "sla.succeeded"
event_name sla_reset = "sla.reset"

-- What stands after the cycle's id in the key of an event.
pub data Suffix : Type 0 where
  named : EventName → Suffix
  reset_by : String → Suffix
  pause_by : String → Suffix

abbrev same_suffix : Suffix → Suffix → Bool
same_suffix (named a) (named b) = event_name a === event_name b
same_suffix (reset_by a) (reset_by b) = a === b
same_suffix (pause_by a) (pause_by b) = a === b
same_suffix _ _ = false

pub record EventKey : Type 0 where
  pub cycle_id : String
  pub suffix : Suffix

abbrev pub same_key : EventKey → EventKey → Bool
same_key a b = a.cycle_id === b.cycle_id && same_suffix a.suffix b.suffix

pub record StoredEvent : Type 0 where
  pub key : EventKey
  pub name : EventName
  pub happened_at : ℕ
  pub elapsed_ms : ℕ
  pub state : CycleState
  pub pause_reasons : List String

-- What is written besides: a line of the audit log, a job of an automation rule, a delivery to a
-- subscription, a notification of the assignee or of the customer.
pub data Consequence : Type 0 where
  audit : EventKey → EventName → ℕ → Consequence
  automation_job : String → EventKey → EventName → Consequence
  webhook_delivery : String → EventKey → EventName → ℕ → Consequence
  notification : String → EventKey → EventName → Consequence
  portal_notification : String → EventName → Consequence
  realtime : Consequence

pub data SlaState : Type 0 where
  none_open at_risk overdue in_progress waiting completed : SlaState

pub record Store : Type 0 where
  pub cycles : List Cycle
  pub signals : List Signal
  pub events : List StoredEvent
  pub consequences : List Consequence
  pub sla_state : SlaState
  pub checked_at : Option ℕ

-- `local` is Intl's; the enabled rules and subscriptions of the request's project for an event;
-- the active members; the goal versions of the project; the ids of new rows.
pub record World : Type 0 where
  pub local : String → ℕ → LocalTime
  pub rules : EventName → List String
  pub subscriptions : EventName → List String
  pub is_active_member : String → Bool
  pub version_of : String → Option GoalVersion
  pub new_cycle_id : Metric → ℕ → String
  pub assignee_id : Option String
  pub customer_id : Option String

abbrev is_announced : EventName → Bool
is_announced sla_risk = true
is_announced sla_breached = true
is_announced sla_succeeded = true
is_announced _ = false

abbrev one_if {ℓ} : {A : Type ℓ} → Bool → A → List A
one_if true x = x ∷ []
one_if false x = []

abbrev pub ended : Cycle → Bool
ended c = not (is_absent c.clock.ended_at)

abbrev pub end_with : CycleState → Option ℕ → ℕ → Cycle → Cycle
end_with state succeeded_at at c = record c {
  clock = record c.clock { ended_at = some at };
  state = state;
  succeeded_at = succeeded_at;
}

abbrev pub reasons_for : TimerRules → Json → List String
reasons_for rules payload =
    map (λ (r : PauseReason). r.id) (filter (λ r. all_match r.conditions payload) rules.pause)

abbrev same_texts : List String → List String → Bool
same_texts [] [] = true
same_texts (a ∷ r) (b ∷ s) = a === b && same_texts r s
same_texts _ _ = false

abbrev pub is_empty : List String → Bool
is_empty [] = true
is_empty (s ∷ ss) = false

abbrev pub state_for : List String → CycleState
state_for reasons = if is_empty reasons then running else paused

module _ (world : World) where
  abbrev announcements : Cycle → EventKey → EventName → ℕ → List Consequence
  announcements c key name at =
      map (λ rule. automation_job rule key name) (world.rules name)
      ++ (map (λ s. webhook_delivery s key name at) (world.subscriptions name)
          ++ (maybe world.assignee_id []
                (λ id. one_if (world.is_active_member id) (notification id key name))
              ++ maybe world.customer_id []
                  (λ id. one_if c.version.portal_visible (portal_notification id name))))

  -- `event`: nothing is done where the key stands among the events already. The rows of the cycle
  -- are those of `c`, with the elapsed time that is given.
  unfoldable pub emit : Cycle → EventName → ℕ → ℕ → Suffix → Store → Store
  emit c name at elapsed_ms suffix store =
      let key : EventKey = record { cycle_id = c.id; suffix = suffix } in
      if any (λ (e : StoredEvent). same_key e.key key) store.events then store else record store {
        events =
            record {
              key = key;
              name = name;
              happened_at = at;
              elapsed_ms = elapsed_ms;
              state = c.state;
              pause_reasons = c.clock.pause_reasons;
            }
            ∷ store.events;
        consequences =
            audit key name at
            ∷ ((if is_announced name then announcements c key name at else [])
                ++ store.consequences);
      }

  abbrev pub works : Cycle → ℕ → Bool
  works c = working (world.local c.version.config.timezone) c.version.config

  abbrev pub target_ms : Cycle → ℕ
  target_ms c = c.version.target_minutes * minute

  abbrev pub risk_ms : Cycle → ℕ
  risk_ms c = c.version.risk_minutes * minute

  abbrev pub with_clock : Cycle → Clock → Cycle
  with_clock c clock = record c { clock = clock }

  abbrev pub name_of : SlaEventType → EventName
  name_of risk = sla_risk
  name_of breached = sla_breached

  abbrev pub marks : Cycle → SlaEventType → ℕ
  marks c risk = (c.version.target_minutes - c.version.risk_minutes) * minute
  marks c breached = target_ms c

  -- One event of the clock: its moment is set in the cycle, and it is emitted with the elapsed
  -- time that it marks.
  abbrev pub mark : Cycle × Store → SlaEvent → Cycle × Store
  mark (c, store) (type, at) =
      let c' = with_clock c (note type at c.clock) in
      (c', emit c' (name_of type) at (marks c type) (named (name_of type)) store)

  abbrev pub mark_all : Cycle × Store → List SlaEvent → Cycle × Store
  mark_all state [] = state
  mark_all state (e ∷ es) = mark_all (mark state e) es

  -- `advance`
  unfoldable pub advance : ℕ → Cycle → Store → Result SlaError (Cycle × Store)
  advance at c store = accrue (works c) c.clock at (target_ms c) (risk_ms c) >>= λ a. ok (
      mark_all
        (with_clock c (record c.clock { elapsed_ms = a.elapsed_ms; last_at = a.last_at }), store)
        a.events)

  -- The pause reasons after a signal that neither resets nor stops the cycle.
  abbrev pub pause : Signal → Cycle × Store → Cycle × Store
  pause signal (c, store) =
      let reasons = reasons_for c.version.rules signal.payload in
      let next =
        if all_match c.version.rules.resume signal.payload
        then reasons
        else unique (c.clock.pause_reasons ++ reasons) in
      let c' = record c {
        clock = record c.clock { pause_reasons = next };
        state = state_for next;
      } in
      if same_texts next c.clock.pause_reasons then (c, store) else (
        c',
        emit c' (if is_empty next then sla_resumed else sla_paused) signal.happened_at
            c.clock.elapsed_ms (pause_by signal.id) store,
      )

  abbrev pub reset_cycle : Signal → Cycle × Store → Cycle × Store
  reset_cycle signal (c, store) =
      let c' = end_with reset c.succeeded_at signal.happened_at c in
      (c', emit c' sla_reset signal.happened_at c.clock.elapsed_ms (reset_by signal.id) store)

  abbrev pub stop_cycle : Signal → Cycle × Store → Cycle × Store
  stop_cycle signal (c, store) =
      if is_absent c.clock.breached_at && all_match c.version.rules.success signal.payload
      then (let c' = end_with met (some signal.happened_at) signal.happened_at c in
          (
            c',
            emit c' sla_succeeded signal.happened_at c.clock.elapsed_ms (named sla_succeeded) store,
          ))
      else (let c' = end_with stopped none signal.happened_at c in
          (c', emit c' sla_stopped signal.happened_at c.clock.elapsed_ms (named sla_stopped) store))

  abbrev pub apply_rules : Signal → Cycle × Store → Cycle × Store
  apply_rules signal (c, store) =
      if all_match c.version.rules.reset signal.payload
      then reset_cycle signal (c, store)
      else if all_match c.version.rules.stop signal.payload
      then stop_cycle signal (c, store)
      else pause signal (c, store)

  -- The body of the loop over the cycles.
  unfoldable pub react : Signal → Cycle → Store → Result SlaError (Cycle × Store)
  react signal c store =
      if ended c
      then ok (c, store)
      else advance signal.happened_at c store >>= λ state. ok (apply_rules signal state)
