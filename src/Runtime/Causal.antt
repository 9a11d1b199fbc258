-- ===== src/Runtime/Causal.antt =====
-- No step of a lane ends in the error of a bar that is read too early.
use bot_ea.Base.{
  ℕ, ◌≡◌, refl, inl, inr, Bool, true, false, not, ◌&&◌, ◌||◌, Option, none, some, String, List, [],
  ◌∷◌, ◌++◌, leb, ltb, ◌==◌, str_eq, if◌then◌else◌, Option-cases, length,
}
use bot_ea.Base.Errors.{first_error}
use bot_ea.Runtime.State.{
  BarRequest, Opens, Tick, ReferenceProfileRuntime, ReferenceRuntimeState, Bar, Result, ok, err,
  ◌>>=◌, tick_not_later, outbox_full, crossed_profile, before_cursor, bar_mismatch, request_crossed,
  lane_halted, RuntimeError, future_bar, unless_error, StrategyDecision, ReferenceEnvelope,
  GuardResult, admits, rejects, made, made_tests, EngineCall, EngineOutput, output, failure,
  StrategyState,
}
use bot_ea.Runtime.Bars.{
  plan_tests, output_tests, validate_after, called, engine_step, after_cursor, in_lane,
  on_bar_close, closed, envelopes_of, BarLaneOutput,
}
use bot_ea.Runtime.Fast.{
  FastLaneOutput, open_of, on_tick, validated, append_pending, ticked, tick_result, guarded,
  after_tick, unchanged,
}

-- The step does not end in the error of a bar that is read too early.
abbrev pub is_future_bar : RuntimeError → Bool
is_future_bar future_bar = true
is_future_bar e = false

abbrev pub Causal : {A : Type 0} → Result A → Type 0
Causal (ok a) = Unit
Causal (err e) = is_future_bar e ≡ false

pub Causal->>= :
    {A B : Type 0} (m : Result A) (f : A → Result B)
    → Causal m
    → ((a : A) → m ≡ ok a → Causal (f a))
    → Causal (m >>= f)
Causal->>= (ok a) f h k = k a refl
Causal->>= (err e) f h k = h

-- No error of a row of checks is that one.
abbrev CausalErrors : List (Bool × RuntimeError) → Type 0
CausalErrors [] = Unit
CausalErrors ((_, e) ∷ rest) = (is_future_bar e ≡ false) × CausalErrors rest

unless_error-Causal :
    {A : Type 0} (ts : List (Bool × RuntimeError)) (a : A)
    → CausalErrors ts
    → Causal (unless_error (first_error ts) a)
unfolding first_error
unless_error-Causal [] a h = tt
unless_error-Causal ((true, e) ∷ rest) a h = h.0
unless_error-Causal ((false, e) ∷ rest) a h = unless_error-Causal rest a h.1

plan_tests-CausalErrors :
    (profile strategy : String) (ds : List StrategyDecision) (more : List (Bool × RuntimeError))
    → CausalErrors more
    → CausalErrors (plan_tests profile strategy ds ++ more)
unfolding plan_tests
plan_tests-CausalErrors profile strategy [] more h = h
plan_tests-CausalErrors profile strategy (d ∷ ds) more h = elim (Option-cases d.plan_owner) [
  | inl e ↦ rw (e, plan_tests) (plan_tests-CausalErrors profile strategy ds more h)
  | inr (owner, e) ↦
      rw (e, plan_tests) (refl, (refl, plan_tests-CausalErrors profile strategy ds more h))
]

pub if-Causal :
    {A : Type 0} (b : Bool) (m n : Result A) → Causal m → Causal n → Causal (if b then m else n)
if-Causal true m n h k = h
if-Causal false m n h k = k

module _ {S Q P : Type 0} (r : ReferenceProfileRuntime S Q P) where
  validated-Causal : (s : ReferenceRuntimeState S Q) → Causal (validated r s)
  validated-Causal s =
      if-Causal (str_eq s.profile_id r.profile_id) (ok s) (err crossed_profile) tt refl

  append_pending-Causal : (xs ys : List ReferenceEnvelope) → Causal (append_pending r xs ys)
  unfolding append_pending
  append_pending-Causal xs ys =
      if-Causal (ltb r.maximum_pending_events (length (xs ++ ys))) (err outbox_full) (ok (xs ++ ys))
        refl tt

  made-Causal : (s : ReferenceRuntimeState S Q) → Causal (made s)
  unfolding made
  made-Causal s = unless_error-Causal (made_tests s) s (refl, (refl, (refl, (refl, (refl, tt)))))

  tick_result-Causal :
      (s : ReferenceRuntimeState S Q) (tick : Tick Q) (buckets : Opens) (reasons : List String)
      (requests : List BarRequest) (events : List ReferenceEnvelope)
      → Causal (tick_result r s tick buckets reasons requests events)
  unfolding tick_result
  tick_result-Causal s tick buckets reasons requests events =
      Causal->>= (append_pending r s.pending events) _ (append_pending-Causal s.pending events)
        (λ pending _.
          Causal->>= (made (ticked r s tick buckets reasons pending)) _ (made-Causal _) (λ _ _. tt))

  guarded-Causal :
      (g : GuardResult) (s : ReferenceRuntimeState S Q) (tick : Tick Q)
      → Causal (guarded r g s tick)
  unfolding guarded
  guarded-Causal (rejects x xs) s tick = tick_result-Causal s tick _ _ _ _
  guarded-Causal admits s tick = tick_result-Causal s tick _ _ _ _

  after_tick-Causal :
      (o : Option (Tick Q)) (s : ReferenceRuntimeState S Q) (tick : Tick Q)
      → Causal (after_tick r o s tick)
  unfolding after_tick
  after_tick-Causal none s tick = guarded-Causal (r.evaluate tick) s tick
  after_tick-Causal (some last) s tick =
      let again = (tick.time == last.time) && r.same_quote tick.quote last.quote in
      let repeated : Result (FastLaneOutput S Q) =
        if again then ok (unchanged r s) else err tick_not_later in
      if-Causal (leb tick.time last.time) repeated (guarded r (r.evaluate tick) s tick)
        (if-Causal again (ok (unchanged r s)) (err tick_not_later) tt refl)
        (guarded-Causal (r.evaluate tick) s tick)

  pub on_tick-Causal : (s : ReferenceRuntimeState S Q) (tick : Tick Q) → Causal (on_tick r s tick)
  unfolding on_tick
  on_tick-Causal s tick =
      Causal->>= (validated r s) _ (validated-Causal s)
        (λ s' _. after_tick-Causal s'.last_tick s' tick)

  called-Causal : (c : EngineCall S) → Causal (called c)
  called-Causal (output o) = tt
  called-Causal (failure text) = refl

  validate_after-Causal :
      (o : EngineOutput S) (previous : StrategyState S) → Causal (validate_after o previous)
  unfolding validate_after
  validate_after-Causal o previous = unless_error-Causal (output_tests o previous) o (
    refl,
    (
      refl,
      (
        refl,
        (
          refl,
          (
            refl,
            (
              refl,
              (
                refl,
                plan_tests-CausalErrors o.next_state.profile_id o.next_state.strategy_id o.decisions
                    _ (refl, tt),
              ),
            ),
          ),
        ),
      ),
    ),
  )

  engine_step-Causal :
      (s : ReferenceRuntimeState S Q) (q : BarRequest) (bar : Bar P)
      → Causal (engine_step r s q bar)
  unfolding engine_step
  engine_step-Causal s q bar =
      Causal->>= (called (r.on_bar_close s.engine_state q.timeframe bar)) _
        (called-Causal (r.on_bar_close s.engine_state q.timeframe bar))
        (λ out _.
          Causal->>= (validate_after out s.engine_state) _
            (validate_after-Causal out s.engine_state)
            (λ o _.
              Causal->>= (append_pending r s.pending (envelopes_of r q o)) _
                (append_pending-Causal s.pending (envelopes_of r q o))
                (λ pending _.
                  Causal->>= (made (closed r s q o pending)) _ (made-Causal _) (λ _ _. tt))))

  after_cursor-Causal :
      (o : Option ℕ) (s : ReferenceRuntimeState S Q) (q : BarRequest) (bar : Bar P)
      → Causal (after_cursor r o s q bar)
  unfolding after_cursor
  after_cursor-Causal none s q bar = engine_step-Causal s q bar
  after_cursor-Causal (some opened) s q bar =
      let late : Result (BarLaneOutput S Q) =
        if ltb q.open_time opened then err before_cursor else engine_step r s q bar in
      if-Causal (q.open_time == opened) (ok (record { next_state = s; events = [] })) late tt (
        if-Causal (ltb q.open_time opened) (err before_cursor) (engine_step r s q bar) refl
          (engine_step-Causal s q bar))

  in_lane-Causal :
      (s : ReferenceRuntimeState S Q) (q : BarRequest) (bar : Bar P) → Causal (in_lane r s q bar)
  unfolding in_lane
  in_lane-Causal s q bar =
      let last = after_cursor r (open_of q.timeframe s.bar_cursors) s q bar in
      let times = not (bar.open_time == q.open_time) || not (bar.close_time == q.close_time) in
      let third : Result (BarLaneOutput S Q) = if times then err bar_mismatch else last in
      let own = not (str_eq q.profile_id r.profile_id) in
      let second : Result (BarLaneOutput S Q) = if own then err request_crossed else third in
      if-Causal s.halted (err lane_halted) second refl (
        if-Causal own (err request_crossed) third refl (
          if-Causal times (err bar_mismatch) last refl
            (after_cursor-Causal (open_of q.timeframe s.bar_cursors) s q bar)))

  pub on_bar_close-Causal :
      (s : ReferenceRuntimeState S Q) (q : BarRequest) (bar : Bar P)
      → Causal (on_bar_close r s q bar)
  unfolding on_bar_close
  on_bar_close-Causal s q bar =
      Causal->>= (validated r s) _ (validated-Causal s) (λ s' _. in_lane-Causal s' q bar)
