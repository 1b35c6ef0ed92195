-- ===== src/Sla/Worker/Request.antt =====
-- ops/sla-worker.mjs: processSlaRequest, which runs the cycles of a request through its signals.
use planeo.Prelude.{
  ℕ, ◌+◌, String, Bool, true, false, not, ◌&&◌, ◌||◌, Option, none, some, List, [], ◌∷◌, any, take,
  map, filter, find, unique, ◌===◌, leb, ltb, is_absent, maybe, if◌then◌else◌, Result, ok, ◌>>=◌,
}
use planeo.Sla.{SlaError}
use planeo.Sla.Rules.{all_match}
use planeo.Sla.Worker.{
  Metric, same_metric, CycleState, running, met, GoalVersion, Cycle, Signal, started, named,
  realtime, SlaState, none_open, at_risk, overdue, in_progress, waiting, completed, Store, World,
  emit, advance, ended, reasons_for, state_for, react,
}

abbrev pub is_pending : ℕ → Signal → Bool
is_pending now s = is_absent s.processed_at && leb s.happened_at now

abbrev of_metric : Metric → Cycle → Bool
of_metric metric c = same_metric c.version.metric metric

-- `latest.set(cycle.metric, cycle)`
abbrev pub put : Cycle → List Cycle → List Cycle
put c [] = c ∷ []
put c (x ∷ xs) = let rest = put c xs in if of_metric c.version.metric x then c ∷ xs else x ∷ rest

abbrev previous_sequence : Option Cycle → ℕ
previous_sequence none = 0
previous_sequence (some c) = c.sequence

-- The previous cycle is in the way unless it has ended and the signal resets.
abbrev is_blocked : GoalVersion → Signal → Option Cycle → Bool
is_blocked version signal none = false
is_blocked version signal (some c) =
    not (ended c) || not (all_match version.rules.reset signal.payload)

abbrev pub mark_processed : ℕ → String → Signal → Signal
mark_processed now id s = if s.id === id then record s { processed_at = some now } else s

abbrev pub some_versions : List (Option GoalVersion) → List GoalVersion
some_versions [] = []
some_versions (none ∷ vs) = some_versions vs
some_versions (some v ∷ vs) = v ∷ some_versions vs

module _ (world : World) where
  -- The body of the loop over the goal versions. `cycles` holds the latest cycle of each metric.
  abbrev pub new_cycle : GoalVersion → Signal → List Cycle → Cycle
  new_cycle version signal cycles =
      let sequence = previous_sequence (find (of_metric version.metric) cycles) + 1 in
      let reasons = reasons_for version.rules signal.payload in
      record {
        id = world.new_cycle_id version.metric sequence;
        version = version;
        sequence = sequence;
        started_at = signal.happened_at;
        clock = record {
          last_at = signal.happened_at;
          elapsed_ms = 0;
          ended_at = none;
          pause_reasons = reasons;
          risk_at = none;
          breached_at = none;
        };
        state = state_for reasons;
        succeeded_at = none;
      }

  abbrev pub starts : GoalVersion → Signal → List Cycle → Bool
  starts version signal cycles =
      all_match version.conditions signal.payload
      && not (is_blocked version signal (find (of_metric version.metric) cycles))
      && all_match version.rules.start signal.payload
      && not (all_match version.rules.stop signal.payload)

  abbrev pub start_cycle : Signal → GoalVersion → Store → Store
  start_cycle signal version store =
      let c = new_cycle version signal store.cycles in
      if starts version signal store.cycles
      then emit world c started signal.happened_at 0 (named started)
          (record store { cycles = put c store.cycles })
      else store

  abbrev pub start_cycles : Signal → List GoalVersion → Store → Store
  start_cycles signal [] store = store
  start_cycles signal (v ∷ vs) store = start_cycles signal vs (start_cycle signal v store)

  -- The loop over the latest cycles, with each that was changed saved.
  abbrev pub each_cycle :
      (Cycle → Store → Result SlaError (Cycle × Store)) → List Cycle → Store → Result SlaError Store
  each_cycle step [] store = ok store
  each_cycle step (c ∷ cs) store = step c store >>= λ next.
      each_cycle step cs (record next.1 { cycles = put next.0 next.1.cycles })

  -- The body of the loop over the signals.
  abbrev pub process_signal : ℕ → Signal → Store → Result SlaError Store
  process_signal now signal store =
      each_cycle (react world signal) store.cycles store >>= λ reacted.
      (let versions = some_versions (map world.version_of (unique signal.goal_ids)) in
        let begun = start_cycles signal versions reacted in
        ok (record begun { signals = map (mark_processed now signal.id) begun.signals }))

  abbrev pub process_signals : ℕ → List Signal → Store → Result SlaError Store
  process_signals now [] store = ok store
  process_signals now (s ∷ ss) store =
      process_signal now s store >>= λ next. process_signals now ss next

  abbrev last_moment : List Signal → Option ℕ
  last_moment [] = none
  last_moment (s ∷ []) = some s.happened_at
  last_moment (s ∷ t ∷ ss) = last_moment (t ∷ ss)

  -- `tickAt`: no cycle runs past a signal that is still to be processed.
  abbrev pub tick_at : ℕ → List Signal → Store → ℕ
  tick_at now batch store =
      if any (is_pending now) store.signals
      then maybe (last_moment batch) (maybe store.checked_at now (λ t. t)) (λ t. t)
      else now

  abbrev pub tick : ℕ → Cycle → Store → Result SlaError (Cycle × Store)
  tick at c store = if ended c then ok (c, store) else advance world at c store

  abbrev is_running : CycleState → Bool
  is_running running = true
  is_running _ = false

  abbrev is_met : CycleState → Bool
  is_met met = true
  is_met _ = false

  -- The state of the request, of the latest cycles.
  abbrev pub summary : List Cycle → SlaState
  summary cycles =
      if any (λ c. not (is_absent c.clock.breached_at)) cycles
      then overdue
      else if any (λ c. not (ended c) && not (is_absent c.clock.risk_at)) cycles
      then at_risk
      else if any (λ c. not (ended c) && is_running c.state) cycles
      then in_progress
      else if any (λ c. not (ended c)) cycles
      then waiting
      else if any (λ c. is_met c.state) cycles
      then completed
      else none_open

  abbrev same_state : SlaState → SlaState → Bool
  same_state none_open none_open = true
  same_state at_risk at_risk = true
  same_state overdue overdue = true
  same_state in_progress in_progress = true
  same_state waiting waiting = true
  same_state completed completed = true
  same_state _ _ = false

  abbrev is_empty : List Signal → Bool
  is_empty [] = true
  is_empty (s ∷ ss) = false

  abbrev pub close_run : ℕ → SlaState → List Signal → Store → Store
  close_run at before batch store =
      let state = summary store.cycles in
      record store {
        sla_state = state;
        checked_at = some at;
        consequences =
            if not (same_state before state) || not (is_empty batch)
            then realtime ∷ store.consequences
            else store.consequences;
      }

  -- Another worker has checked the request at a later time.
  abbrev pub is_ahead : ℕ → Store → Bool
  is_ahead now store = maybe store.checked_at false (λ t. ltb now t)

  abbrev pub run : ℕ → List Signal → Store → Result SlaError Store
  run now batch store = process_signals now batch store >>= λ processed.
      (let at = tick_at now batch processed in
        each_cycle (tick at) processed.cycles processed >>= λ ticked.
        ok (close_run at store.sla_state batch ticked))

  -- `processSlaRequest` of a request that is there, its row locked or not by another worker. The
  -- signals are in the order of their ids.
  unfoldable pub process_sla_request : Bool → ℕ → Store → Result SlaError (Bool × Store)
  process_sla_request locked now store =
      if locked || is_ahead now store
      then ok (false, store)
      else run now (take 100 (filter (is_pending now) store.signals)) store >>= λ done.
          ok (true, done)
