-- ===== src/Examples/Runtime.antt =====
-- The reference runtime on a concrete profile: prices are numbers, the guard turns a price of zero
-- down, and the engine counts the bars that it has seen.
use bot_ea.Base.{ℕ, zero, suc, ◌+◌, ◌≡◌, refl, ◌==◌, false, none, some, List, [], ◌∷◌, ◌++◌}
use bot_ea.Base.Errors.{first_error}
use bot_ea.Runtime.Time.{d1, h1, m15, m5, m1, minute, bucket_open}
use bot_ea.Runtime.State.{
  ok, Tick, Bar, StrategyState, EngineOutput, output, GuardResult, admits, rejects,
  ReferenceEnvelope, BarRequest, ReferenceRuntimeState, ReferenceProfileRuntime, made,
}
use bot_ea.Runtime.Fast.{
  FastLaneOutput, open_of, catch_up, catch_up_all, buckets_at, append_pending, initial_state,
  tick_result, guarded, after_tick, on_tick,
}
use bot_ea.Runtime.Bars.{
  BarLaneOutput, plan_tests, output_tests, validate_after, without, insert_cursor, sort_cursors,
  envelopes_of, engine_step, after_cursor, in_lane, on_bar_close,
}
use bot_ea.Runtime.Slow.{
  Called, returned, raised, SlowLaneSink, SlowLaneOutput, send, deliver, settle, run_slow_lane,
}
use bot_ea.Runtime.Once.{on_bar_close_again}
use bot_ea.Runtime.Outbox.{Outbox, run_slow_lane-Outbox}
use bot_ea.Runtime.Queue.{
  published, failed, Queue, Lanes, idle, called, fast, bar_closed, slow_failed, Lanes-Queue,
}

abbrev judge : ℕ → GuardResult
judge zero = rejects "NO_PRICE" []
judge (suc n) = admits

abbrev stepped : StrategyState ℕ → Bar ℕ → EngineOutput ℕ
stepped s bar = record {
  next_state = record s {
    as_of = bar.close_time;
    sequence = s.sequence + 1;
    inner = s.inner + bar.prices;
  };
  decisions =
      record { decision_id = "no_trade"; available_at = bar.close_time; plan_owner = none } ∷ [];
  events = [];
}

abbrev pub counting : ReferenceProfileRuntime ℕ ℕ ℕ
counting = record {
  profile_id = "gold";
  maximum_catchup_bars = 2;
  maximum_pending_events = 20;
  same_quote = λ a b. a == b;
  evaluate = λ t. judge t.quote;
  on_bar_close = λ s _ bar. output (stepped s bar);
}

abbrev pub engine_start : StrategyState ℕ
engine_start = record {
  profile_id = "gold";
  strategy_id = "counter";
  strategy_version = "1";
  as_of = 0;
  sequence = 0;
  inner = 0;
}

abbrev pub state_start : ReferenceRuntimeState ℕ ℕ
state_start = record {
  profile_id = "gold";
  sequence = 0;
  as_of = 0;
  engine_state = engine_start;
  last_tick = none;
  buckets = [];
  bar_cursors = [];
  pending = [];
  halted = false;
  halt_reasons = [];
}

abbrev pub first_tick : Tick ℕ
first_tick = record { time = 5; quote = 7 }

abbrev pub minute_later : Tick ℕ
minute_later = record { time = minute + 9; quote = 8 }

abbrev pub first_minute : Bar ℕ
first_minute = record { open_time = 0; close_time = minute; prices = 3 }

abbrev asked : BarRequest
asked = record { profile_id = "gold"; timeframe = m1; open_time = 0; close_time = minute }

abbrev pub watching : ReferenceRuntimeState ℕ ℕ
watching = record state_start {
  sequence = 1;
  as_of = 5;
  last_tick = some first_tick;
  buckets = (d1, 0) ∷ (h1, 0) ∷ (m15, 0) ∷ (m5, 0) ∷ (m1, 0) ∷ [];
}

-- A tick of the next minute asks for the bar of the first one.
abbrev pub one_minute : FastLaneOutput ℕ ℕ
one_minute = record {
  next_state = record watching {
    sequence = 2;
    as_of = minute + 9;
    last_tick = some minute_later;
    buckets = (d1, 0) ∷ (h1, 0) ∷ (m15, 0) ∷ (m5, 0) ∷ (m1, minute) ∷ [];
  };
  bar_requests = asked ∷ [];
  events = [];
}

pub start_is_state : initial_state counting engine_start ≡ ok state_start
unfolding initial_state made first_error
start_is_state = refl

pub tick_moves : on_tick counting watching minute_later ≡ ok one_minute
unfolding on_tick after_tick guarded tick_result append_pending catch_up_all catch_up buckets_at
    bucket_open open_of made first_error
tick_moves = refl

-- The lane behind the bar that the tick asked for.
abbrev engine_stepped : EngineOutput ℕ
engine_stepped = stepped engine_start first_minute

abbrev bar_done : BarLaneOutput ℕ ℕ
bar_done = record {
  next_state = record one_minute.next_state {
    sequence = 3;
    engine_state = engine_stepped.next_state;
    bar_cursors = (m1, 0) ∷ [];
    pending = envelopes_of counting asked engine_stepped;
  };
  events = envelopes_of counting asked engine_stepped;
}

bar_closes : on_bar_close counting one_minute.next_state asked first_minute ≡ ok bar_done
unfolding on_bar_close in_lane after_cursor engine_step validate_after output_tests plan_tests
    append_pending made first_error open_of without insert_cursor sort_cursors
bar_closes = refl

on_bar_close_again_example :
    on_bar_close counting bar_done.next_state asked first_minute
    ≡ ok (record { next_state = bar_done.next_state; events = [] })
on_bar_close_again_example =
    on_bar_close_again counting one_minute.next_state asked first_minute bar_done bar_closes

-- A sink that keeps all it is given, and fails to tell of it when its store is full.
abbrev all_or_full : ℕ → List ReferenceEnvelope → Called (Unit {0}) (List ReferenceEnvelope)
all_or_full zero kept = raised "StoreError:full" kept
all_or_full (suc room) kept = returned tt kept

abbrev pub store : ℕ → SlowLaneSink (List ReferenceEnvelope)
store room = record {
  reconcile = λ _ _ kept. returned [] kept;
  persist = λ _ delivery kept. returned tt (kept ++ delivery);
  notify = λ _ _ kept. all_or_full room kept;
}

abbrev all_sent : SlowLaneOutput ℕ ℕ
all_sent = record {
  next_state = record bar_done.next_state { sequence = 4; pending = [] };
  delivered = bar_done.events;
  error = none;
}

outbox_sent :
    run_slow_lane counting (store 1) bar_done.next_state [] ≡ (ok all_sent, bar_done.events)
unfolding run_slow_lane settle deliver send made first_error
outbox_sent = refl

outbox_kept : run_slow_lane counting (store 0) bar_done.next_state [] ≡ (
  ok (record { next_state = bar_done.next_state; delivered = []; error = some "StoreError:full" }),
  bar_done.events,
)
unfolding run_slow_lane settle deliver send made first_error
outbox_kept = refl

run_slow_lane-Outbox_example :
    Outbox counting (store 1) bar_done.next_state [] all_sent bar_done.events
run_slow_lane-Outbox_example =
    run_slow_lane-Outbox counting (store 1) bar_done.next_state [] bar_done.events all_sent
      outbox_sent

-- A tick, the bar that it closes, and a delivery that fails.
abbrev kept_output : SlowLaneOutput ℕ ℕ
kept_output = record {
  next_state = bar_done.next_state;
  delivered = [];
  error = some "StoreError:full";
}

abbrev run_until_delivery :
    Lanes counting
      (store 0)
      watching
      (failed "StoreError:full" ∷ published bar_done.events ∷ published [] ∷ [])
      bar_done.next_state
run_until_delivery =
    called
      (called (called idle (fast minute_later one_minute tick_moves))
        (bar_closed asked first_minute bar_done bar_closes))
      (slow_failed "StoreError:full" [] bar_done.events kept_output outbox_kept refl)

Lanes-Queue_example :
    Queue []
      (failed "StoreError:full" ∷ published bar_done.events ∷ published [] ∷ [])
      bar_done.events
Lanes-Queue_example = Lanes-Queue counting (store 0) run_until_delivery
