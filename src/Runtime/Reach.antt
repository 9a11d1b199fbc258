-- ===== src/Runtime/Reach.antt =====
-- The states that the lanes of a profile reach, and what holds of all of them.
use mathlib.Core.Path.{subst}
use bot_ea.Base.{
  ℕ, ◌+◌, ◌≤◌, ◌≡◌, sym, ap, not, Option, none, some, String, List, ◌++◌, length, str_eq, arith,
}
use bot_ea.Runtime.State.{
  ok, Tick, Bar, StrategyState, GuardResult, admits, rejects, ReferenceEnvelope, BarRequest, Opens,
  ReferenceRuntimeState, ReferenceProfileRuntime,
}
use bot_ea.Runtime.Fast.{FastLaneOutput, later, initial_state, tick_result, guarded, on_tick}
use bot_ea.Runtime.Bars.{BarLaneOutput, envelopes_of, closed, on_bar_close}
use bot_ea.Runtime.Slow.{SlowLaneSink, SlowLaneOutput, run_slow_lane}
use bot_ea.Runtime.Steps.{guard_lem, IsMade, made_lem, tick_result_lem}
use bot_ea.Runtime.TickSteps.{Ticked, repeated, judged, on_tick-Ticked}
use bot_ea.Runtime.BarSteps.{Stepped, Accepted, known, first, behind, on_bar_close-Accepted}
use bot_ea.Runtime.Outbox.{Outbox, kept, cleared, run_slow_lane-Outbox}

later-≥ : (a b : ℕ) → (a ≤ later a b) × (b ≤ later a b)
later-≥ a b = ground (arith)

-- The last tick is not later than the time of a state.
abbrev pub LastBy : {Q : Type 0} → Option (Tick Q) → ℕ → Type 0
LastBy none t = Unit {0}
LastBy (some tick) t = tick.time ≤ t

LastBy-later : {Q : Type 0} (o : Option (Tick Q)) {t u : ℕ} → LastBy o t → t ≤ u → LastBy o u
LastBy-later none h le = tt
LastBy-later (some tick) h le = omega arith

module _ {S Q P : Type 0} (r : ReferenceProfileRuntime S Q P) where
  -- A state that its constructor accepts, whose outbox is within its capacity and whose last tick is
  -- not later than the state.
  pub record IsSound (s : ReferenceRuntimeState S Q) : Type 0 where
    pub is_made : IsMade s
    pub fits : length s.pending ≤ r.maximum_pending_events
    pub in_time : LastBy s.last_tick s.as_of

  -- The state `t` is not before the state `s`, and at most one event number behind it.
  pub record Forward (s t : ReferenceRuntimeState S Q) : Type 0 where
    pub as_of : s.as_of ≤ t.as_of
    pub counts_up : s.sequence ≤ t.sequence
    pub by_one : t.sequence ≤ s.sequence + 1

  Forward-refl : (s : ReferenceRuntimeState S Q) → Forward s s
  Forward-refl s = record { as_of = omega arith; counts_up = omega arith; by_one = omega arith }

  -- A state that is sound behind one that is, and not before it.
  abbrev Fine : ReferenceRuntimeState S Q → ReferenceRuntimeState S Q → Type 0
  Fine s t = IsSound s → IsSound t × Forward s t

  Fine-same : (s t : ReferenceRuntimeState S Q) → t ≡ s → Fine s t
  Fine-same s t e v = (subst IsSound (sym e) v, subst (Forward s) (sym e) (Forward-refl s))

  tick_result-Fine :
      (s : ReferenceRuntimeState S Q) (tick : Tick Q) (buckets : Opens) (reasons : List String)
      (requests : List BarRequest) (events : List ReferenceEnvelope) (out : FastLaneOutput S Q)
      → tick_result r s tick buckets reasons requests events ≡ ok out
      → Fine s out.next_state
  tick_result-Fine s tick buckets reasons requests events out h v =
      let (same, is_made, fits) = tick_result_lem r s tick buckets reasons requests events out h in
      let state = ap (λ (o : FastLaneOutput S Q). o.next_state) same in
      let forward = later-≥ s.as_of tick.time in
      subst (λ t. IsSound t × Forward s t) (sym state)
        (
          record { is_made = is_made; fits = fits; in_time = forward.1 },
          record { as_of = forward.0; counts_up = omega arith; by_one = omega arith },
        )

  guarded-Fine :
      (g : GuardResult) (s : ReferenceRuntimeState S Q) (tick : Tick Q) (out : FastLaneOutput S Q)
      → guarded r g s tick ≡ ok out
      → Fine s out.next_state
  unfolding guarded
  guarded-Fine (rejects x xs) s tick out h = tick_result-Fine s tick _ _ _ _ out h
  guarded-Fine admits s tick out h = tick_result-Fine s tick _ _ _ _ out h

  Ticked-Fine :
      (s : ReferenceRuntimeState S Q) (tick : Tick Q) (out : FastLaneOutput S Q)
      → Ticked r s tick out
      → Fine s out.next_state
  Ticked-Fine s tick out (repeated same) =
      Fine-same s out.next_state (ap (λ (o : FastLaneOutput S Q). o.next_state) same)
  Ticked-Fine s tick out (judged h) = guarded-Fine (r.evaluate tick) s tick out h

  closed-Fine :
      (s : ReferenceRuntimeState S Q) (q : BarRequest) (bar : Bar P) (out : BarLaneOutput S Q)
      → Stepped r s q bar out
      → Fine s out.next_state
  closed-Fine s q bar out p v =
      let forward = later-≥ s.as_of q.close_time in
      let to : ReferenceRuntimeState S Q =
        closed r s q p.engine (s.pending ++ envelopes_of r q p.engine) in
      let after : LastBy s.last_tick to.as_of = LastBy-later s.last_tick v.in_time forward.0 in
      (
        record {
          is_made = p.is_made;
          fits = p.fits;
          in_time =
              subst (λ (t : ReferenceRuntimeState S Q). LastBy t.last_tick t.as_of) (sym p.next)
                after;
        },
        subst (Forward s) (sym p.next)
            (record { as_of = forward.0; counts_up = omega arith; by_one = omega arith }),
      )

  on_bar_close-Fine :
      (s : ReferenceRuntimeState S Q) (q : BarRequest) (bar : Bar P) (out : BarLaneOutput S Q)
      → Accepted r s q bar out
      → Fine s out.next_state
  on_bar_close-Fine s q bar out (known at same quiet) = Fine-same s out.next_state same
  on_bar_close-Fine s q bar out (first at p) = closed-Fine s q bar out p
  on_bar_close-Fine s q bar out (behind c at lt p) = closed-Fine s q bar out p

  module _ {E : Type 0} (sink : SlowLaneSink E) where
    run_slow_lane-Fine :
        (s : ReferenceRuntimeState S Q) (e e' : E) (out : SlowLaneOutput S Q)
        → Outbox r sink s e out e'
        → Fine s out.next_state
    run_slow_lane-Fine s e e' out (kept x failed same none_sent) v =
        Fine-same s out.next_state same v
    run_slow_lane-Fine s e e' out (cleared fine next sent) v =
        subst (λ t. IsSound t × Forward s t) (sym next)
          (
            record { is_made = v.is_made; fits = omega arith; in_time = v.in_time },
            record { as_of = omega arith; counts_up = omega arith; by_one = omega arith },
          )

    -- One call of a lane that returns, from a state to its next one.
    pub data Step (s : ReferenceRuntimeState S Q) : ReferenceRuntimeState S Q → Type 0 where
      fast_lane :
          (tick : Tick Q) (out : FastLaneOutput S Q)
          → on_tick r s tick ≡ ok out
          → Step s out.next_state
      bar_lane :
          (q : BarRequest) (bar : Bar P) (out : BarLaneOutput S Q)
          → on_bar_close r s q bar ≡ ok out
          → Step s out.next_state
      slow_lane :
          (e e' : E) (out : SlowLaneOutput S Q)
          → run_slow_lane r sink s e ≡ (ok out, e')
          → Step s out.next_state

    -- The states that calls of the lanes reach from the initial state of some engine state.
    pub data Reach : ReferenceRuntimeState S Q → Type 0 where
      started :
          (engine : StrategyState S) (s : ReferenceRuntimeState S Q)
          → initial_state r engine ≡ ok s
          → Reach s
      moved : {s t : ReferenceRuntimeState S Q} → Reach s → Step s t → Reach t

    Step-Fine : {s t : ReferenceRuntimeState S Q} → Step s t → Fine s t
    Step-Fine {s} (fast_lane tick out h) = Ticked-Fine s tick out (on_tick-Ticked r s tick out h)
    Step-Fine {s} (bar_lane q bar out h) =
        on_bar_close-Fine s q bar out (on_bar_close-Accepted r s q bar out h).1
    Step-Fine {s} (slow_lane e e' out h) =
        run_slow_lane-Fine s e e' out (run_slow_lane-Outbox r sink s e e' out h)

    initial_state-IsSound :
        (engine : StrategyState S) (s : ReferenceRuntimeState S Q)
        → initial_state r engine ≡ ok s
        → IsSound s
    unfolding initial_state
    initial_state-IsSound engine s h =
        let (own, built) = guard_lem (not (str_eq engine.profile_id r.profile_id)) _ _ s h in
        let both = made_lem _ s built in
        subst IsSound (sym both.0) (record { is_made = both.1; fits = omega arith; in_time = tt })

    Reach-IsSound : {s : ReferenceRuntimeState S Q} → Reach s → IsSound s
    Reach-IsSound (started engine s h) = initial_state-IsSound engine s h
    Reach-IsSound (moved reached step) = (Step-Fine step (Reach-IsSound reached)).0

    -- From a state that the lanes have reached, in whatever order and however often they ran and
    -- whatever the engine, the guard and the sink gave, a further call that returns gives a state
    -- that the checks of its constructor accept, whose outbox is within its capacity and whose last
    -- tick is not later than the state, and that is not before the first in its time or its
    -- sequence, nor more than one number behind in the latter.
    pub Step-IsSound :
        (s t : ReferenceRuntimeState S Q) → Reach s → Step s t → IsSound t × Forward s t
    Step-IsSound s t reached step = Step-Fine step (Reach-IsSound reached)
