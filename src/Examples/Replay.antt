-- ===== src/Examples/Replay.antt =====
-- The replay of recorded data, and the states that are reached, on the profile of the lanes.
use bot_ea.Base.{ℕ, ◌+◌, ◌*◌, ◌≡◌, ◌≢◌, refl, Bool, true, false, List, [], ◌∷◌}
use bot_ea.Base.Errors.{first_error}
use bot_ea.Runtime.Time.{m1, minute, hour, bucket_open}
use bot_ea.Runtime.State.{ok, err, ◌>>=◌, future_bar, Tick, BarRequest, made}
use bot_ea.Runtime.Fast.{
  FastLaneOutput, open_of, catch_up, catch_up_all, buckets_at, append_pending, tick_result, guarded,
  after_tick, on_tick,
}
use bot_ea.Runtime.Bars.{
  plan_tests, output_tests, validate_after, without, insert_cursor, sort_cursors, engine_step,
  after_cursor, in_lane, on_bar_close,
}
use bot_ea.Runtime.Replay.{
  ReplayBar, Contract, CausalReplayDataset, find_bar, ascending, is_dataset, ticks_until,
  close_with, close_bars, replay_tick, replay_ticks, report_of, run,
}
use bot_ea.Runtime.NoFuture.{run-ne-future_bar}
use bot_ea.Runtime.Reach.{IsSound, Forward, fast_lane, Reach, started, moved, Step-IsSound}
use bot_ea.Examples.Runtime.{
  counting, engine_start, state_start, first_tick, minute_later, first_minute, watching, one_minute,
  store, start_is_state, tick_moves,
}

abbrev first_output : FastLaneOutput ℕ ℕ
first_output = record { next_state = watching; bar_requests = []; events = [] }

first_tick_moves : on_tick counting state_start first_tick ≡ ok first_output
unfolding on_tick after_tick guarded tick_result append_pending catch_up_all catch_up buckets_at
    bucket_open open_of made first_error
first_tick_moves = refl

abbrev watching-Reach : Reach counting (store 1) watching
watching-Reach =
    moved (started engine_start state_start start_is_state)
      (fast_lane first_tick first_output first_tick_moves)

Step-IsSound_example :
    IsSound counting one_minute.next_state × Forward counting watching one_minute.next_state
Step-IsSound_example =
    Step-IsSound counting (store 1) watching one_minute.next_state watching-Reach
      (fast_lane minute_later one_minute tick_moves)

abbrev gold_contract : Contract
gold_contract = record {
  profile_id = "gold";
  profile_fingerprint = "0123456789abcdef0123456789abcdef0123456789abcdef0123456789abcdef";
  symbol = "XAUUSD";
}

abbrev recorded : List (ReplayBar ℕ)
recorded = record { timeframe = m1; bar = first_minute } ∷ []

abbrev morning : CausalReplayDataset ℕ ℕ
morning = record {
  contract = gold_contract;
  ticks = first_tick ∷ minute_later ∷ [];
  bars = recorded;
  warmup_until = minute;
  replay_end = hour;
}

run-ne-future_bar_example : run counting gold_contract morning state_start ≢ err future_bar
unfolding is_dataset ascending
run-ne-future_bar_example = run-ne-future_bar counting gold_contract morning state_start refl

-- The replay of the morning closes the bar of its first minute.
morning_replayed :
    (run counting gold_contract morning state_start >>= λ report. ok report.closed_bar_count) ≡ ok 1
unfolding run report_of ticks_until replay_ticks replay_tick close_bars close_with find_bar on_tick
    after_tick guarded tick_result append_pending catch_up_all catch_up buckets_at bucket_open
    open_of made first_error on_bar_close in_lane after_cursor engine_step validate_after
    output_tests plan_tests without insert_cursor sort_cursors
morning_replayed = refl

-- A gap of five minutes, more than the limit allows, stops the lane; the next tick opens it again and
-- asks for none of the bars of the gap.
abbrev gap_tick : Tick ℕ
gap_tick = record { time = 5 * minute; quote = 8 }

abbrev next_tick : Tick ℕ
next_tick = record { time = 5 * minute + 1; quote = 9 }

abbrev halted_and_requests : FastLaneOutput ℕ ℕ → Bool × List BarRequest
halted_and_requests out = (out.next_state.halted, out.bar_requests)

gap_halts :
    (on_tick counting watching gap_tick >>= λ out. ok (halted_and_requests out)) ≡ ok (true, [])
unfolding on_tick after_tick guarded tick_result append_pending catch_up_all catch_up buckets_at
    bucket_open open_of made first_error
gap_halts = refl

gap_is_skipped :
    (on_tick counting watching gap_tick >>= λ out.
    on_tick counting out.next_state next_tick >>= λ later. ok (halted_and_requests later))
    ≡ ok (false, [])
unfolding on_tick after_tick guarded tick_result append_pending catch_up_all catch_up buckets_at
    bucket_open open_of made first_error
gap_is_skipped = refl
