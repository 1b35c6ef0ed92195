-- ===== src/Sla/Worker/Sound.antt =====
-- ops/sla-worker.mjs: what every run of processSlaRequest keeps of the rows of a request.
use planeo.Prelude.{
  ℕ, Bool, true, false, not, ◌&&◌, ◌||◌, Option, none, some, inl, inr, List, [], ◌∷◌, All, any,
  filter, take, map, unique, is_absent, Result, ok, >>=-eq-ok, ◌≡◌, refl, sym, ap, subst, ◌∙◌,
  arith, Bool-cases, Option-cases, if_both, if_with,
}
use planeo.Sla.{SlaError}
use planeo.Sla.Hours.{Clock, SlaEvent, SlaEventType, risk, breached, accrue}
use planeo.Sla.Rules.{all_match}
use planeo.Sla.Worker.{
  CycleState, running, paused, met, stopped, reset, GoalVersion, Cycle, Signal, EventName, Suffix,
  EventKey, same_key, StoredEvent, Store, World, emit, mark, mark_all, advance, with_clock, ended,
  works, target_ms, risk_ms, same_metric, started, state_for, name_of, marks, named, sla_succeeded,
  sla_stopped, sla_reset, stop_cycle, apply_rules, react,
}
use planeo.Sla.Worker.Request.{
  put, new_cycle, starts, start_cycle, start_cycles, each_cycle, process_signal, process_signals,
  tick, close_run, run, is_ahead, is_pending, mark_processed, some_versions, tick_at,
  process_sla_request,
}

-- How a cycle has ended: with success only if its goal was not breached, and then at its end.
abbrev pub ClosedAs : CycleState → Clock → Option ℕ → Type 0
ClosedAs running clock succeeded_at = ⊥
ClosedAs paused clock succeeded_at = ⊥
ClosedAs met clock succeeded_at = (clock.breached_at ≡ none) × (succeeded_at ≡ clock.ended_at)
ClosedAs stopped clock succeeded_at = succeeded_at ≡ none
ClosedAs reset clock succeeded_at = succeeded_at ≡ none

-- A cycle that has not ended runs exactly if nothing pauses it, and has not succeeded.
abbrev pub IsCycle : Cycle → Type 0
IsCycle c = elim c.clock.ended_at [
  | none ↦ (c.state ≡ state_for c.clock.pause_reasons) × (c.succeeded_at ≡ none)
  | some at ↦ ClosedAs c.state c.clock c.succeeded_at
]

-- No event stands twice.
abbrev pub Unrepeated : List StoredEvent → Type 0
Unrepeated [] = Unit
Unrepeated (e ∷ es) = (any (λ (x : StoredEvent). same_key x.key e.key) es ≡ false) × Unrepeated es

abbrev pub IsStore : Store → Type 0
IsStore store = All IsCycle store.cycles × Unrepeated store.events

-- What writes events alone.
abbrev Writes : Store → Store → Type 0
Writes s t = (t.cycles ≡ s.cycles) × (Unrepeated s.events → Unrepeated t.events)

-- What the clock leaves of a cycle.
abbrev Ticks : Cycle → Cycle → Type 0
Ticks c d =
    (d.clock.ended_at ≡ c.clock.ended_at)
    × (d.clock.pause_reasons ≡ c.clock.pause_reasons)
    × (d.state ≡ c.state)
    × (d.succeeded_at ≡ c.succeeded_at)

module _ (world : World) where
  emit-Writes :
      (c : Cycle) (name : EventName) (at elapsed : ℕ) (suffix : Suffix) (s : Store)
      → Writes s (emit world c name at elapsed suffix s)
  unfolding emit
  emit-Writes c name at elapsed suffix s =
      let key : EventKey = record { cycle_id = c.id; suffix = suffix } in
      elim (Bool-cases (any (λ (e : StoredEvent). same_key e.key key) s.events)) [
        | inl there ↦ rw there (refl, λ h. h)
        | inr new ↦ rw new (refl, λ h. (new, h))
      ]

  mark-Ticks :
      (type : SlaEventType) (at : ℕ) (c : Cycle) (s : Store)
      → Ticks c (mark world (c, s) (type, at)).0
  mark-Ticks risk at c s = (refl, refl, refl, refl)
  mark-Ticks breached at c s = (refl, refl, refl, refl)

  mark_all-kept :
      (es : List SlaEvent) (c : Cycle) (s : Store)
      → Ticks c (mark_all world (c, s) es).0 × Writes s (mark_all world (c, s) es).1
  mark_all-kept [] c s = ((refl, refl, refl, refl), (refl, λ h. h))
  mark_all-kept ((type, at) ∷ es) c s =
      let (d, t) = mark world (c, s) (type, at) in
      let (kept, written) = mark_all-kept es d t in
      let marked = mark-Ticks type at c s in
      let first =
        emit-Writes d (name_of world type) at (marks world c type) (named (name_of world type)) s in
      (
        (kept.0 ∙ marked.0, kept.1 ∙ marked.1, kept.2 ∙ marked.2, kept.3 ∙ marked.3),
        (written.0 ∙ first.0, λ h. written.1 (first.1 h)),
      )

  advance-kept :
      (at : ℕ) (c d : Cycle) (s t : Store)
      → advance world at c s ≡ ok (d, t)
      → Ticks c d × Writes s t
  unfolding advance
  advance-kept at c d s t e =
      let (a, grown, e1) =
        >>=-eq-ok (accrue (works world c) c.clock at (target_ms world c) (risk_ms world c)) _ e in
      let start =
        with_clock world c (record c.clock { elapsed_ms = a.elapsed_ms; last_at = a.last_at }) in
      let same : mark_all world (start, s) a.events ≡ (d, t) = cc in
      subst (λ (p : Cycle × Store). Ticks c p.0 × Writes s p.1) same
        (mark_all-kept a.events start s)

  -- What a test between two outcomes does to both.
  abbrev Ruled : Store → Cycle × Store → Type 0
  Ruled s p = IsCycle p.0 × Writes s p.1

  stop_cycle-Ruled :
      (signal : Signal) (c : Cycle) (s : Store) → Ruled s (stop_cycle world signal (c, s))
  stop_cycle-Ruled signal c s =
      if_with (Ruled s)
        (is_absent c.clock.breached_at && all_match c.version.rules.success signal.payload)
        (λ good.
          let in_time : c.clock.breached_at ≡ none =
            ground (arith, good, Option-cases c.clock.breached_at) in
          ((in_time, refl), emit-Writes _ sla_succeeded _ _ _ s))
        (λ bad. (refl, emit-Writes _ sla_stopped _ _ _ s))

  apply_rules-Ruled :
      (signal : Signal) (c : Cycle) (s : Store)
      → c.clock.ended_at ≡ none
      → IsCycle c
      → Ruled s (apply_rules world signal (c, s))
  apply_rules-Ruled signal c s e h =
      let facts : (c.state ≡ state_for c.clock.pause_reasons) × (c.succeeded_at ≡ none) =
        rw e at h in
      if_both (Ruled s) (all_match c.version.rules.reset signal.payload)
        (facts.1, emit-Writes _ sla_reset _ _ _ s)
        (if_both (Ruled s) (all_match c.version.rules.stop signal.payload)
          (stop_cycle-Ruled signal c s)
          (if_both (Ruled s) _ (h, (refl, λ x. x)) (rw e (refl, facts.1), emit-Writes _ _ _ _ _ s)))

  Ticks-IsCycle :
      (c d : Cycle)
      → c.clock.ended_at ≡ none
      → Ticks c d
      → IsCycle c
      → (d.clock.ended_at ≡ none) × IsCycle d
  Ticks-IsCycle c d e ticks h =
      let facts : (c.state ≡ state_for c.clock.pause_reasons) × (c.succeeded_at ≡ none) =
        rw e at h in
      let open_still : d.clock.ended_at ≡ none = ticks.0 ∙ e in
      (
        open_still,
        rw open_still (ticks.2 ∙ facts.0 ∙ ap state_for (sym ticks.1), ticks.3 ∙ facts.1),
      )

  -- A step on one cycle, which leaves the rows of the cycles to be saved.
  abbrev IsStep : (Cycle → Store → Result SlaError (Cycle × Store)) → Type 0
  IsStep step =
      (c d : Cycle) (s t : Store) → IsCycle c → step c s ≡ ok (d, t) → IsCycle d × Writes s t

  unchanged :
      (c d : Cycle) (s t : Store)
      → IsCycle c
      → ◌≡◌ {A = Result SlaError (Cycle × Store)} (ok (c, s)) (ok (d, t))
      → IsCycle d × Writes s t
  unchanged c d s t h e =
      let same : ◌≡◌ {A = Cycle × Store} (c, s) (d, t) = cc in
      subst (Ruled s) same (h, (refl, λ x. x))

  react-IsStep : (signal : Signal) → IsStep (react world signal)
  unfolding react
  react-IsStep signal c d s t h e = elim (Option-cases c.clock.ended_at) [
    | inr (at, closed) ↦
        let shut : ended c ≡ true = ap (λ o. not (is_absent o)) closed in
        unchanged c d s t h (rw (shut, react) at e)
    | inl open_still ↦
        let on : ended c ≡ false = ap (λ o. not (is_absent o)) open_still in
        let (state, ticked, e1) =
          >>=-eq-ok (advance world signal.happened_at c s) _ (rw (on, react) at e) in
        let kept = advance-kept signal.happened_at c state.0 s state.1 ticked in
        let ready = Ticks-IsCycle c state.0 open_still kept.0 h in
        let done = apply_rules-Ruled signal state.0 state.1 ready.0 ready.1 in
        let same : apply_rules world signal state ≡ (d, t) = cc in
        let (valid, written) = subst (Ruled state.1) same done in
        (valid, (written.0 ∙ kept.1.0, λ x. written.1 (kept.1.1 x)))
  ]

  tick-IsStep : (at : ℕ) → IsStep (tick world at)
  tick-IsStep at c d s t h e = elim (Option-cases c.clock.ended_at) [
    | inr (ended_at, closed) ↦
        let shut : ended c ≡ true = ap (λ o. not (is_absent o)) closed in
        unchanged c d s t h (rw shut at e)
    | inl open_still ↦
        let on : ended c ≡ false = ap (λ o. not (is_absent o)) open_still in
        let kept = advance-kept at c d s t (rw on at e) in
        ((Ticks-IsCycle c d open_still kept.0 h).1, kept.1)
  ]

  All-put : (c : Cycle) (cs : List Cycle) → IsCycle c → All IsCycle cs → All IsCycle (put c cs)
  All-put c [] h hs = (h, tt)
  All-put c (x ∷ cs) h hs =
      let kept : All IsCycle (x ∷ put c cs) = (hs.0, All-put c cs h hs.1) in
      let replaced : All IsCycle (c ∷ cs) = (h, hs.1) in
      if_both (All IsCycle) (same_metric x.version.metric c.version.metric) replaced kept

  each_cycle-IsStore :
      (step : Cycle → Store → Result SlaError (Cycle × Store))
      → IsStep step
      → (cs : List Cycle) (s t : Store) → All IsCycle cs
      → IsStore s
      → each_cycle world step cs s ≡ ok t
      → IsStore t
  each_cycle-IsStore step sound [] s t hs h e = let same : s ≡ t = cc in subst IsStore same h
  each_cycle-IsStore step sound (c ∷ cs) s t hs h e =
      let (next, done, e1) = >>=-eq-ok (step c s) _ e in
      let (valid, written) = sound c next.0 s next.1 hs.0 done in
      let cycles = All-put next.0 next.1.cycles valid (subst (All IsCycle) (sym written.0) h.0) in
      each_cycle-IsStore step sound cs (record next.1 { cycles = put next.0 next.1.cycles }) t hs.1
        (cycles, written.1 h.1) e1

  start_cycle-IsStore :
      (signal : Signal) (v : GoalVersion) (s : Store)
      → IsStore s
      → IsStore (start_cycle world signal v s)
  start_cycle-IsStore signal v s h =
      let c = new_cycle world v signal s.cycles in
      let put_in = record s { cycles = put c s.cycles } in
      let written = emit-Writes c started signal.happened_at 0 (named started) put_in in
      let valid = All-put c s.cycles (refl, refl) h.0 in
      elim (Bool-cases (starts world v signal s.cycles)) [
        | inl begins ↦ rw begins (subst (All IsCycle) (sym written.0) valid, written.1 h.1)
        | inr waits ↦ rw waits h
      ]

  start_cycles-IsStore :
      (signal : Signal) (vs : List GoalVersion) (s : Store)
      → IsStore s
      → IsStore (start_cycles world signal vs s)
  start_cycles-IsStore signal [] s h = h
  start_cycles-IsStore signal (v ∷ vs) s h =
      start_cycles-IsStore signal vs (start_cycle world signal v s)
        (start_cycle-IsStore signal v s h)

  process_signal-IsStore :
      (now : ℕ) (signal : Signal) (s t : Store)
      → IsStore s
      → process_signal world now signal s ≡ ok t
      → IsStore t
  process_signal-IsStore now signal s t h e =
      let (reacted, done, e1) = >>=-eq-ok (each_cycle world (react world signal) s.cycles s) _ e in
      let valid =
        each_cycle-IsStore (react world signal) (react-IsStep signal) s.cycles s reacted h.0 h
          done in
      let versions = some_versions (map world.version_of (unique signal.goal_ids)) in
      let begun = start_cycles-IsStore signal versions reacted valid in
      let same : record (start_cycles world signal versions reacted) {
        signals =
            map (mark_processed now signal.id) (start_cycles world signal versions reacted).signals;
      }
          ≡ t =
        cc in
      subst IsStore same begun

  process_signals-IsStore :
      (now : ℕ) (batch : List Signal) (s t : Store)
      → IsStore s
      → process_signals world now batch s ≡ ok t
      → IsStore t
  process_signals-IsStore now [] s t h e = let same : s ≡ t = cc in subst IsStore same h
  process_signals-IsStore now (x ∷ batch) s t h e =
      let (next, done, e1) = >>=-eq-ok (process_signal world now x s) _ e in
      process_signals-IsStore now batch next t (process_signal-IsStore now x s next h done) e1

  run-IsStore :
      (now : ℕ) (batch : List Signal) (s t : Store)
      → IsStore s
      → run world now batch s ≡ ok t
      → IsStore t
  run-IsStore now batch s t h e =
      let (processed, done, e1) = >>=-eq-ok (process_signals world now batch s) _ e in
      let valid = process_signals-IsStore now batch s processed h done in
      let at = tick_at world now batch processed in
      let (ticked, moved, e2) =
        >>=-eq-ok (each_cycle world (tick world at) processed.cycles processed) _ e1 in
      let kept =
        each_cycle-IsStore (tick world at) (tick-IsStep at) processed.cycles processed ticked
          valid.0 valid moved in
      let same : close_run world at s.sla_state batch ticked ≡ t = cc in subst IsStore same kept

  -- Every run of processSlaRequest keeps the rows sound: a cycle that has not ended runs exactly if
  -- nothing pauses it; one that has ended was met only if it was not breached, and then at its end;
  -- and no event is stored twice.
  pub process_sla_request-IsStore :
      (locked : Bool) (now : ℕ) (s t : Store) (done : Bool)
      → IsStore s
      → process_sla_request world locked now s ≡ ok (done, t)
      → IsStore t
  unfolding process_sla_request
  process_sla_request-IsStore locked now s t done h e =
      elim (Bool-cases (locked || is_ahead world now s)) [
        | inl idle ↦
            let same : s ≡ t = cc (rw (idle, process_sla_request) at e) in subst IsStore same h
        | inr free ↦
            let batch = take 100 (filter (is_pending now) s.signals) in
            let (after, ran, e1) =
              >>=-eq-ok (run world now batch s) _ (rw (free, process_sla_request) at e) in
            let same : after ≡ t = cc in subst IsStore same (run-IsStore now batch s after h ran)
      ]
