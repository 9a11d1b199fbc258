-- ===== src/Runtime/Fast.antt =====
-- The fast lane: `on_tick` of ReferenceProfileRuntime.
use bot_ea.Base.{
  ℕ, zero, suc, ◌+◌, Bool, false, not, ◌&&◌, Option, none, some, String, List, [], ◌∷◌, ◌++◌, leb,
  ltb, ◌==◌, str_eq, length, if◌then◌else◌,
}
use bot_ea.Runtime.Time.{
  Timeframe, d1, h1, m15, m5, m1, bar_timeframes, duration, bucket_open, same_frame,
}
use bot_ea.Runtime.State.{
  tick_not_later, outbox_full, crossed_profile, initial_crossed, Result, ok, err, ◌>>=◌, Tick,
  StrategyState, GuardResult, admits, rejects, Kind, guard_rejected, bar_catchup_rejected, numbered,
  ReferenceEnvelope, BarRequest, Opens, ReferenceRuntimeState, ReferenceProfileRuntime, made,
  has_any,
}

pub record FastLaneOutput (S Q : Type 0) : Type 0 where
  pub next_state : ReferenceRuntimeState S Q
  pub bar_requests : List BarRequest
  pub events : List ReferenceEnvelope

-- `buckets.get(timeframe)`
unfoldable pub open_of : Timeframe → Opens → Option ℕ
open_of tf [] = none
open_of tf ((u, t) ∷ rest) = if same_frame tf u then some t else open_of tf rest

-- `max(a, b)`
abbrev pub later : ℕ → ℕ → ℕ
later a b = if ltb a b then b else a

-- The text `f"{timeframe.value}_CATCHUP_LIMIT"`.
abbrev pub catchup_limit : Timeframe → String
catchup_limit d1 = "D1_CATCHUP_LIMIT"
catchup_limit h1 = "H1_CATCHUP_LIMIT"
catchup_limit m15 = "M15_CATCHUP_LIMIT"
catchup_limit m5 = "M5_CATCHUP_LIMIT"
catchup_limit m1 = "M1_CATCHUP_LIMIT"

-- The requests of a timeframe, and whether the limit was hit. The first argument counts the bars
-- that the limit still allows.
unfoldable pub catch_up : ℕ → String → Timeframe → ℕ → ℕ → List BarRequest × Bool
catch_up zero profile tf cursor current = ([], leb (cursor + duration tf) current)
catch_up (suc allowed) profile tf cursor current =
    let rest = catch_up allowed profile tf (cursor + duration tf) current in
    if leb (cursor + duration tf) current
    then (
      record {
        profile_id = profile;
        timeframe = tf;
        open_time = cursor;
        close_time = cursor + duration tf;
      }
          ∷ rest.0,
      rest.1,
    )
    else ([], false)

-- The same of a timeframe that may have no bucket yet.
abbrev pub catch_up_from : ℕ → String → Timeframe → Option ℕ → ℕ → List BarRequest × Bool
catch_up_from most profile tf none current = ([], false)
catch_up_from most profile tf (some previous) current = catch_up most profile tf previous current

abbrev pub with_reason : Bool → String → List String → List String
with_reason b s ss = if b then s ∷ ss else ss

-- The loop over `_BAR_TIMEFRAMES`: all requests and the reasons of the failures.
unfoldable pub catch_up_all :
    ℕ → String → Opens → ℕ → List Timeframe → List BarRequest × List String
catch_up_all most profile buckets t [] = ([], [])
catch_up_all most profile buckets t (tf ∷ tfs) =
    let one = catch_up_from most profile tf (open_of tf buckets) (bucket_open t tf) in
    let rest = catch_up_all most profile buckets t tfs in
    (one.0 ++ rest.0, with_reason one.1 (catchup_limit tf) rest.1)

-- `tuple(RuntimeBucket(item, buckets[item]) for item in _BAR_TIMEFRAMES)`
unfoldable pub buckets_at : ℕ → List Timeframe → Opens
buckets_at t [] = []
buckets_at t (tf ∷ tfs) = (tf, bucket_open t tf) ∷ buckets_at t tfs

module _ {S Q P : Type 0} (r : ReferenceProfileRuntime S Q P) where
  -- `_append_pending`
  unfoldable pub append_pending :
      List ReferenceEnvelope → List ReferenceEnvelope → Result (List ReferenceEnvelope)
  append_pending existing values =
      if ltb r.maximum_pending_events (length (existing ++ values))
      then err outbox_full
      else ok (existing ++ values)

  -- `_validate_state`
  abbrev pub validated : ReferenceRuntimeState S Q → Result (ReferenceRuntimeState S Q)
  validated s = if str_eq s.profile_id r.profile_id then ok s else err crossed_profile

  -- `initial_state`
  unfoldable pub initial_state : StrategyState S → Result (ReferenceRuntimeState S Q)
  initial_state engine =
      if not (str_eq engine.profile_id r.profile_id)
      then err initial_crossed
      else made (record {
        profile_id = r.profile_id;
        sequence = 0;
        as_of = engine.as_of;
        engine_state = engine;
        last_tick = none;
        buckets = [];
        bar_cursors = [];
        pending = [];
        halted = false;
        halt_reasons = [];
      })

  -- The envelope of a rejection.
  abbrev pub rejection_event : ℕ → Kind → ℕ → List String → ReferenceEnvelope
  rejection_event sequence k t reasons = record {
    event_id = numbered sequence k;
    profile_id = r.profile_id;
    kind = k;
    semantic_time = t;
    timeframe = none;
    decision = none;
    engine_event = none;
    reasons = reasons;
  }

  -- The state behind a tick, given its buckets, halt reasons and pending events.
  abbrev pub ticked :
      ReferenceRuntimeState S Q
      → Tick Q
      → Opens
      → List String
      → List ReferenceEnvelope
      → ReferenceRuntimeState S Q
  ticked s tick buckets reasons pending = record s {
    sequence = s.sequence + 1;
    as_of = later s.as_of tick.time;
    last_tick = some tick;
    buckets = buckets;
    halted = has_any reasons;
    halt_reasons = reasons;
    pending = pending;
  }

  unfoldable pub tick_result :
      ReferenceRuntimeState S Q
      → Tick Q
      → Opens
      → List String
      → List BarRequest
      → List ReferenceEnvelope
      → Result (FastLaneOutput S Q)
  tick_result s tick buckets reasons requests events = do
    pending ← append_pending s.pending events
    next ← made (ticked s tick buckets reasons pending)
    ok (record { next_state = next; bar_requests = requests; events = events })

  abbrev pub no_requests : List String → List BarRequest → List BarRequest
  no_requests [] requests = requests
  no_requests (_ ∷ _) requests = []

  abbrev pub catchup_events : ℕ → ℕ → List String → List ReferenceEnvelope
  catchup_events sequence t [] = []
  catchup_events sequence t (x ∷ xs) = rejection_event sequence bar_catchup_rejected t (x ∷ xs) ∷ []

  -- `on_tick` behind the guard.
  unfoldable pub guarded :
      GuardResult → ReferenceRuntimeState S Q → Tick Q → Result (FastLaneOutput S Q)
  guarded (rejects x xs) s tick =
      tick_result s tick s.buckets (x ∷ xs) []
        (rejection_event (s.sequence + 1) guard_rejected tick.time (x ∷ xs) ∷ [])
  guarded admits s tick =
      let caught =
        catch_up_all r.maximum_catchup_bars r.profile_id s.buckets tick.time bar_timeframes in
      tick_result s tick (buckets_at tick.time bar_timeframes) caught.1
        (no_requests caught.1 caught.0) (catchup_events (s.sequence + 1) tick.time caught.1)

  abbrev pub unchanged : ReferenceRuntimeState S Q → FastLaneOutput S Q
  unchanged s = record { next_state = s; bar_requests = []; events = [] }

  -- A tick against the last one.
  unfoldable pub after_tick :
      Option (Tick Q) → ReferenceRuntimeState S Q → Tick Q → Result (FastLaneOutput S Q)
  after_tick none s tick = guarded (r.evaluate tick) s tick
  after_tick (some last) s tick =
      if leb tick.time last.time
      then if (tick.time == last.time) && r.same_quote tick.quote last.quote
        then ok (unchanged s)
        else err tick_not_later
      else guarded (r.evaluate tick) s tick

  -- `on_tick`
  unfoldable pub on_tick : ReferenceRuntimeState S Q → Tick Q → Result (FastLaneOutput S Q)
  on_tick s tick = do s' ← validated s; after_tick s'.last_tick s' tick
