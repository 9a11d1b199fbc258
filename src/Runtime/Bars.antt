-- ===== src/Runtime/Bars.antt =====
-- The bar lane, `on_bar_close` of ReferenceProfileRuntime, with `EngineOutput.validate_after`, and the
-- slow lane, `run_slow_lane`.
use bot_ea.Base.{
  ℕ, ◌+◌, Bool, false, not, ◌||◌, Option, none, some, String, List, [], ◌∷◌, ◌++◌, map, leb, ltb,
  ◌==◌, str_eq, if◌then◌else◌,
}
use bot_ea.Base.Errors.{first_error}
use bot_ea.Runtime.Time.{Timeframe, d1, h1, m15, m5, m1, same_frame}
use bot_ea.Runtime.State.{
  RuntimeError, lane_halted, request_crossed, bar_mismatch, before_cursor, changed_profile,
  changed_strategy, changed_version, not_next_sequence, moved_backwards, future_decision,
  future_event, decision_profile, decision_strategy, event_ownership, Result, ok, err, ◌>>=◌, Bar,
  StrategyState, StrategyDecision, EngineEvent, EngineOutput, EngineCall, output, failure,
  raised_by_engine, unless_error, bar_closed, decision, engine_event, bar_id, decision_id,
  engine_id, ReferenceEnvelope, BarRequest, Opens, ReferenceRuntimeState, ReferenceProfileRuntime,
  made,
}
use bot_ea.Runtime.Fast.{open_of, later, append_pending, validated}

pub record BarLaneOutput (S Q : Type 0) : Type 0 where
  pub next_state : ReferenceRuntimeState S Q
  pub events : List ReferenceEnvelope

abbrev pub any_decision : (StrategyDecision → Bool) → List StrategyDecision → Bool
any_decision test [] = false
any_decision test (d ∷ ds) = test d || any_decision test ds

abbrev pub any_event : (EngineEvent → Bool) → List EngineEvent → Bool
any_event test [] = false
any_event test (e ∷ es) = test e || any_event test es

-- The tests of the owner of a decision's plan, over the decisions in turn.
unfoldable pub plan_tests : String → String → List StrategyDecision → List (Bool × RuntimeError)
plan_tests profile strategy [] = []
plan_tests profile strategy (d ∷ ds) = elim d.plan_owner [
  | none ↦ plan_tests profile strategy ds
  | some owner ↦
      (not (str_eq owner.0 profile), decision_profile)
      ∷ (not (str_eq owner.1 strategy), decision_strategy)
      ∷ plan_tests profile strategy ds
]

module _ {S : Type 0} where
  unfoldable pub output_tests : EngineOutput S → StrategyState S → List (Bool × RuntimeError)
  unfolding plan_tests
  output_tests o previous =
      let next = o.next_state in
      (not (str_eq next.profile_id previous.profile_id), changed_profile)
        ∷ (not (str_eq next.strategy_id previous.strategy_id), changed_strategy)
        ∷ (not (str_eq next.strategy_version previous.strategy_version), changed_version)
        ∷ (not (next.sequence == previous.sequence + 1), not_next_sequence)
        ∷ (ltb next.as_of previous.as_of, moved_backwards)
        ∷ (any_decision (λ d. ltb next.as_of d.available_at) o.decisions, future_decision)
        ∷ (any_event (λ e. ltb next.as_of e.available_at) o.events, future_event)
        ∷ plan_tests next.profile_id next.strategy_id o.decisions
      ++ ((
        any_event
            (λ e.
              not (str_eq e.profile_id next.profile_id)
              || not (str_eq e.strategy_id next.strategy_id))
            o.events,
        event_ownership,
      )
          ∷ [])

  -- `validate_after` of an output behind a previous state
  unfoldable pub validate_after : EngineOutput S → StrategyState S → Result (EngineOutput S)
  unfolding output_tests first_error
  validate_after o previous = unless_error (first_error (output_tests o previous)) o

  abbrev pub called : EngineCall S → Result (EngineOutput S)
  called (output o) = ok o
  called (failure text) = err (raised_by_engine text)

-- `_BAR_TIMEFRAMES.index`
abbrev pub index_of : Timeframe → ℕ
index_of d1 = 0
index_of h1 = 1
index_of m15 = 2
index_of m5 = 3
index_of m1 = 4

-- The cursors of the other timeframes.
unfoldable pub without : Timeframe → Opens → Opens
without tf [] = []
without tf ((u, t) ∷ rest) = if same_frame u tf then without tf rest else (u, t) ∷ without tf rest

-- `sorted(cursors, key=...)`, as an insertion sort, which is stable.
unfoldable pub insert_cursor : Timeframe × ℕ → Opens → Opens
insert_cursor c [] = c ∷ []
insert_cursor c (d ∷ rest) =
    if leb (index_of c.0) (index_of d.0) then c ∷ d ∷ rest else d ∷ insert_cursor c rest

unfoldable pub sort_cursors : Opens → Opens
unfolding insert_cursor
sort_cursors [] = []
sort_cursors (c ∷ rest) = insert_cursor c (sort_cursors rest)

module _ {S Q P : Type 0} (r : ReferenceProfileRuntime S Q P) where
  abbrev pub bar_envelope : BarRequest → ReferenceEnvelope
  bar_envelope q = record {
    event_id = bar_id q.timeframe q.open_time;
    profile_id = r.profile_id;
    kind = bar_closed;
    semantic_time = q.close_time;
    timeframe = some q.timeframe;
    decision = none;
    engine_event = none;
    reasons = [];
  }

  -- `_decision_envelope`
  abbrev pub decision_envelope : Timeframe → StrategyDecision → ReferenceEnvelope
  decision_envelope tf d = record {
    event_id = decision_id d.decision_id;
    profile_id = r.profile_id;
    kind = decision;
    semantic_time = d.available_at;
    timeframe = some tf;
    decision = some d;
    engine_event = none;
    reasons = [];
  }

  -- `_engine_event_envelope`
  abbrev pub engine_event_envelope : Timeframe → EngineEvent → ReferenceEnvelope
  engine_event_envelope tf e = record {
    event_id = engine_id e.event_id;
    profile_id = r.profile_id;
    kind = engine_event;
    semantic_time = e.available_at;
    timeframe = some tf;
    decision = none;
    engine_event = some e;
    reasons = [];
  }

  abbrev pub envelopes_of : BarRequest → EngineOutput S → List ReferenceEnvelope
  envelopes_of q o =
      (bar_envelope q ∷ map (decision_envelope q.timeframe) o.decisions)
      ++ map (engine_event_envelope q.timeframe) o.events

  -- The state behind a bar, given the engine's output and the pending events.
  abbrev pub closed :
      ReferenceRuntimeState S Q
      → BarRequest
      → EngineOutput S
      → List ReferenceEnvelope
      → ReferenceRuntimeState S Q
  closed s q o pending = record s {
    sequence = s.sequence + 1;
    as_of = later s.as_of q.close_time;
    engine_state = o.next_state;
    bar_cursors =
        sort_cursors (without q.timeframe s.bar_cursors ++ ((q.timeframe, q.open_time) ∷ []));
    pending = pending;
  }

  -- `on_bar_close` behind the cursor: the engine's step.
  unfoldable pub engine_step :
      ReferenceRuntimeState S Q → BarRequest → Bar P → Result (BarLaneOutput S Q)
  engine_step s q bar = do
    out ← called (r.on_bar_close s.engine_state q.timeframe bar)
    valid ← validate_after out s.engine_state
    pending ← append_pending r s.pending (envelopes_of q valid)
    next ← made (closed s q valid pending)
    ok (record { next_state = next; events = envelopes_of q valid })

  -- A request against the cursor of its timeframe.
  unfoldable pub after_cursor :
      Option ℕ → ReferenceRuntimeState S Q → BarRequest → Bar P → Result (BarLaneOutput S Q)
  after_cursor none s q bar = engine_step s q bar
  after_cursor (some opened) s q bar =
      if q.open_time == opened
      then ok (record { next_state = s; events = [] })
      else if ltb q.open_time opened
      then err before_cursor
      else engine_step s q bar

  -- The checks of a bar against its request.
  unfoldable pub in_lane :
      ReferenceRuntimeState S Q → BarRequest → Bar P → Result (BarLaneOutput S Q)
  in_lane s q bar =
      if s.halted
      then err lane_halted
      else if not (str_eq q.profile_id r.profile_id)
      then err request_crossed
      else if not (bar.open_time == q.open_time) || not (bar.close_time == q.close_time)
      then err bar_mismatch
      else after_cursor (open_of q.timeframe s.bar_cursors) s q bar

  -- `on_bar_close`
  unfoldable pub on_bar_close :
      ReferenceRuntimeState S Q → BarRequest → Bar P → Result (BarLaneOutput S Q)
  on_bar_close s q bar = validated r s >>= λ s'. in_lane s' q bar
