-- ===== src/Runtime/Replay.antt =====
-- gold_engine_core/causal_replay.py: the data set with its constructor's checks and
-- `ReferenceRuntimeReplay.run` over it. The hash of the events is left out,
-- and so is the profile of the report, which is the runtime's.
use bot_ea.Base.{
  ℕ, suc, ◌+◌, count, is_none, is_empty, Bool, true, false, not, ◌&&◌, ◌||◌, Option, none, some,
  String, List, [], ◌∷◌, ◌++◌, leb, ltb, ◌==◌, str_eq, length, if◌then◌else◌,
}
use bot_ea.Runtime.Time.{Timeframe, duration, same_frame}
use bot_ea.Runtime.State.{
  crossed_contract, crossed_profile, no_ticks, bar_unavailable, future_bar, Result, ok, err, ◌>>=◌,
  Tick, Bar, ReferenceEnvelope, BarRequest, ReferenceRuntimeState, ReferenceProfileRuntime,
}
use bot_ea.Runtime.Fast.{on_tick}
use bot_ea.Runtime.Bars.{on_bar_close}

pub record ReplayBar (P : Type 0) : Type 0 where
  pub timeframe : Timeframe
  pub bar : Bar P

-- The profile that a data set or a runtime is for.
pub record Contract : Type 0 where
  pub profile_id : String
  pub profile_fingerprint : String
  pub symbol : String

pub record CausalReplayDataset (Q P : Type 0) : Type 0 where
  pub contract : Contract
  pub ticks : List (Tick Q)
  pub bars : List (ReplayBar P)
  pub warmup_until : ℕ
  pub replay_end : ℕ

pub record CausalReplayReport (S Q : Type 0) : Type 0 where
  pub from_time : ℕ
  pub to_time : ℕ
  pub tick_count : ℕ
  pub closed_bar_count : ℕ
  pub decision_count : ℕ
  pub warmup_suppressed_decisions : ℕ
  pub events : List ReferenceEnvelope
  pub final_state : ReferenceRuntimeState S Q

-- The variables of the loop.
pub record Progress (S Q : Type 0) : Type 0 where
  pub state : ReferenceRuntimeState S Q
  pub events : List ReferenceEnvelope
  pub closed_bars : ℕ

abbrev pub same_contract : Contract → Contract → Bool
same_contract a b =
    str_eq a.profile_id b.profile_id
    && str_eq a.profile_fingerprint b.profile_fingerprint
    && str_eq a.symbol b.symbol

abbrev pub or_else {ℓ} : {A : Type ℓ} → Option A → Option A → Option A
or_else none o = o
or_else (some a) o = some a

abbrev pub when {ℓ} : {A : Type ℓ} → Bool → A → Option A
when true a = some a
when false a = none

-- `bar_index.get((timeframe, open_time))` of the bars that close by the end; the last one wins.
unfoldable pub find_bar : {P : Type 0} → ℕ → Timeframe → ℕ → List (ReplayBar P) → Option (Bar P)
find_bar end tf t [] = none
find_bar end tf t (b ∷ bs) =
    or_else (find_bar end tf t bs)
      (when (leb b.bar.close_time end && same_frame b.timeframe tf && (b.bar.open_time == t)) b.bar)

-- `tick_times != tuple(sorted(set(tick_times)))`, negated: each time is later than the one before.
unfoldable pub ascending : {Q : Type 0} → List (Tick Q) → Bool
ascending [] = true
ascending (t ∷ []) = true
ascending (t ∷ u ∷ rest) = ltb t.time u.time && ascending (u ∷ rest)

abbrev pub has_bar : {P : Type 0} → Timeframe → ℕ → List (ReplayBar P) → Bool
has_bar tf t [] = false
has_bar tf t (b ∷ bs) = (same_frame b.timeframe tf && b.bar.open_time == t) || has_bar tf t bs

abbrev pub repeats_bar : {P : Type 0} → List (ReplayBar P) → Bool
repeats_bar [] = false
repeats_bar (b ∷ bs) = has_bar b.timeframe b.bar.open_time bs || repeats_bar bs

-- `ReplayBar.__post_init__` of every bar, and `CausalReplayDataset.__post_init__`
abbrev pub have_durations : {P : Type 0} → List (ReplayBar P) → Bool
have_durations [] = true
have_durations (b ∷ bs) =
    (b.bar.close_time == b.bar.open_time + duration b.timeframe) && have_durations bs

unfoldable pub is_dataset : {Q P : Type 0} → CausalReplayDataset Q P → Bool
unfolding ascending
is_dataset d =
    have_durations d.bars
    && not (is_empty d.contract.profile_id)
    && (count d.contract.profile_fingerprint == 64)
    && not (is_empty d.contract.symbol)
    && leb d.warmup_until d.replay_end
    && ascending d.ticks
    && not (repeats_bar d.bars)

-- The ticks up to the end.
unfoldable pub ticks_until : {Q : Type 0} → ℕ → List (Tick Q) → List (Tick Q)
ticks_until end [] = []
ticks_until end (t ∷ ts) = if leb t.time end then t ∷ ticks_until end ts else ticks_until end ts

module _ {S Q P : Type 0} (r : ReferenceProfileRuntime S Q P) (end : ℕ)
    (bars : List (ReplayBar P)) where
  -- A bar that has been looked up, against the tick that asks for it.
  unfoldable pub close_with :
      Option (Bar P) → Tick Q → BarRequest → Progress S Q → Result (Progress S Q)
  close_with none tick q p = err bar_unavailable
  close_with (some bar) tick q p =
      if ltb tick.time bar.close_time
      then err future_bar
      else on_bar_close r p.state q bar >>= λ out. ok (record {
        state = out.next_state;
        events = p.events ++ out.events;
        closed_bars = p.closed_bars + 1;
      })

  -- The inner loop.
  unfoldable pub close_bars : Tick Q → List BarRequest → Progress S Q → Result (Progress S Q)
  close_bars tick [] p = ok p
  close_bars tick (q ∷ qs) p =
      close_with (find_bar end q.timeframe q.open_time bars) tick q p >>= λ p'.
      close_bars tick qs p'

  -- One tick with the bars that it closes.
  unfoldable pub replay_tick : Tick Q → Progress S Q → Result (Progress S Q)
  replay_tick tick p = on_tick r p.state tick >>= λ fast.
      close_bars tick fast.bar_requests
        (record p { state = fast.next_state; events = p.events ++ fast.events })

  -- The outer loop.
  unfoldable pub replay_ticks : List (Tick Q) → Progress S Q → Result (Progress S Q)
  replay_ticks [] p = ok p
  replay_ticks (t ∷ ts) p = replay_tick t p >>= λ p'. replay_ticks ts p'

abbrev pub is_decision : ReferenceEnvelope → Bool
is_decision e = not (is_none e.decision)

-- `sum(test for item in events)`
unfoldable pub count_of : (ReferenceEnvelope → Bool) → List ReferenceEnvelope → ℕ
count_of test [] = 0
count_of test (e ∷ es) = if test e then suc (count_of test es) else count_of test es

abbrev pub last_time : {Q : Type 0} → Tick Q → List (Tick Q) → ℕ
last_time t [] = t.time
last_time t (u ∷ us) = last_time u us

module _ {S Q P : Type 0} (r : ReferenceProfileRuntime S Q P) (own : Contract) where
  unfoldable pub report_of :
      CausalReplayDataset Q P → Tick Q → List (Tick Q) → Progress S Q → CausalReplayReport S Q
  report_of d t ts p = record {
    from_time = t.time;
    to_time = last_time t ts;
    tick_count = length (t ∷ ts);
    closed_bar_count = p.closed_bars;
    decision_count = count_of is_decision p.events;
    warmup_suppressed_decisions =
        count_of (λ e. is_decision e && ltb e.semantic_time d.warmup_until) p.events;
    events = p.events;
    final_state = p.state;
  }

  abbrev pub replay_from :
      CausalReplayDataset Q P
      → ReferenceRuntimeState S Q
      → List (Tick Q)
      → Result (CausalReplayReport S Q)
  replay_from d initial [] = err no_ticks
  replay_from d initial (t ∷ ts) =
      replay_ticks r d.replay_end d.bars (t ∷ ts)
        (record { state = initial; events = []; closed_bars = 0 })
      >>= λ p. ok (report_of d t ts p)

  -- `run`
  unfoldable pub run :
      CausalReplayDataset Q P → ReferenceRuntimeState S Q → Result (CausalReplayReport S Q)
  run d initial =
      if not (same_contract d.contract own)
      then err crossed_contract
      else if not (str_eq initial.profile_id own.profile_id)
      then err crossed_profile
      else replay_from d initial (ticks_until d.replay_end d.ticks)
