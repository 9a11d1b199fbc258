-- ===== src/Runtime/Catchup.antt =====
-- The bars that a tick asks for.
use mathlib.Core.Path.{subst}
use bot_ea.Base.{
  ℕ, zero, suc, ◌+◌, ◌*◌, ◌≤◌, ◌<◌, ◌≡◌, refl, sym, ap, ◌∙◌, inl, inr, Bool, true, false, Option,
  none, some, String, List, [], ◌∷◌, ◌++◌, leb, arith, Bool-cases,
}
use bot_ea.Runtime.Time.{Timeframe, bar_timeframes, duration, bucket_open}
use bot_ea.Runtime.State.{
  ok, Tick, GuardResult, admits, rejects, ReferenceEnvelope, BarRequest, Opens,
  ReferenceRuntimeState, ReferenceProfileRuntime,
}
use bot_ea.Runtime.Steps.{tick_result_lem}
use bot_ea.Runtime.TickSteps.{Ticked, repeated, judged, on_tick-Ticked}
use bot_ea.Runtime.Fast.{
  FastLaneOutput, open_of, catchup_limit, catch_up, catch_up_from, catch_up_all, with_reason,
  buckets_at, tick_result, no_requests, guarded, on_tick,
}

-- One bar of the timeframe after the other from the cursor on, up to the last that has closed by the
-- current bucket.
abbrev pub Follows : Timeframe → ℕ → ℕ → List BarRequest → Type 0
Follows tf cursor current [] = current < cursor + duration tf
Follows tf cursor current (q ∷ qs) =
    (q.timeframe ≡ tf)
    × (q.open_time ≡ cursor)
    × (q.close_time ≡ cursor + duration tf)
    × (q.close_time ≤ current)
    × Follows tf (cursor + duration tf) current qs

-- A timeframe that has no bucket yet asks for no bar.
abbrev pub FollowsFrom : Timeframe → Option ℕ → ℕ → List BarRequest → Type 0
FollowsFrom tf none current qs = qs ≡ []
FollowsFrom tf (some cursor) current qs = Follows tf cursor current qs

-- The bars of every timeframe in turn, from its bucket to the one of the time.
abbrev pub CaughtUp : Opens → ℕ → List Timeframe → List BarRequest → Type 0
CaughtUp buckets t [] qs = qs ≡ []
CaughtUp buckets t (tf ∷ tfs) qs =
    (own : List BarRequest) × (others : List BarRequest) × (qs ≡ own ++ others)
    × FollowsFrom tf (open_of tf buckets) (bucket_open t tf) own
    × CaughtUp buckets t tfs others

catch_up-Follows :
    (most : ℕ) (profile : String) (tf : Timeframe) (cursor current : ℕ)
    → (catch_up most profile tf cursor current).1 ≡ false
    → Follows tf cursor current (catch_up most profile tf cursor current).0
unfolding catch_up
catch_up-Follows zero profile tf cursor current h = ground arith
catch_up-Follows (suc most) profile tf cursor current h =
    elim (Bool-cases (leb (cursor + duration tf) current)) [
      | inl e ↦ rw e (
        refl,
        refl,
        refl,
        ground arith,
        catch_up-Follows most profile tf (cursor + duration tf) current (rw e at h),
      )
      | inr e ↦ rw e (ground arith)
    ]

one_more : (c d m : ℕ) → c + d + (m + 1) * d ≡ c + (suc m + 1) * d
one_more c d m = grind arith

too_late : (c d m current : ℕ) → leb (c + d) current ≡ false → leb (c + (m + 1) * d) current ≡ false
too_late c d m current h = grind arith

-- The limit is hit exactly when one bar more than it allows has closed.
pub catch_up_fails :
    (most : ℕ) (profile : String) (tf : Timeframe) (cursor current : ℕ)
    → (catch_up most profile tf cursor current).1 ≡ leb (cursor + (most + 1) * duration tf) current
unfolding catch_up
catch_up_fails zero profile tf cursor current = ap (λ d. leb (cursor + d) current) (omega arith)
catch_up_fails (suc most) profile tf cursor current =
    elim (Bool-cases (leb (cursor + duration tf) current)) [
      | inl e ↦ rw e (
          catch_up_fails most profile tf (cursor + duration tf) current
          ∙ ap (λ c. leb c current) (one_more cursor (duration tf) most))
      | inr e ↦ rw e (sym (too_late cursor (duration tf) (suc most) current e))
    ]

catch_up_from-FollowsFrom :
    (most : ℕ) (profile : String) (tf : Timeframe) (o : Option ℕ) (current : ℕ)
    → (catch_up_from most profile tf o current).1 ≡ false
    → FollowsFrom tf o current (catch_up_from most profile tf o current).0
catch_up_from-FollowsFrom most profile tf none current h = refl
catch_up_from-FollowsFrom most profile tf (some cursor) current h =
    catch_up-Follows most profile tf cursor current h

no_reason :
    (b : Bool) (s : String) (ss : List String) → with_reason b s ss ≡ [] → (b ≡ false) × (ss ≡ [])
no_reason true s ss h = cc
no_reason false s ss h = (refl, h)

catch_up_all-CaughtUp :
    (most : ℕ) (profile : String) (buckets : Opens) (t : ℕ) (tfs : List Timeframe)
    → (catch_up_all most profile buckets t tfs).1 ≡ []
    → CaughtUp buckets t tfs (catch_up_all most profile buckets t tfs).0
unfolding catch_up_all
catch_up_all-CaughtUp most profile buckets t [] h = refl
catch_up_all-CaughtUp most profile buckets t (tf ∷ tfs) h =
    let one = catch_up_from most profile tf (open_of tf buckets) (bucket_open t tf) in
    let both = no_reason one.1 (catchup_limit tf) (catch_up_all most profile buckets t tfs).1 h in
    (
      one.0,
      (catch_up_all most profile buckets t tfs).0,
      refl,
      catch_up_from-FollowsFrom most profile tf (open_of tf buckets) (bucket_open t tf) both.0,
      catch_up_all-CaughtUp most profile buckets t tfs both.1,
    )

module _ {S Q P : Type 0} (r : ReferenceProfileRuntime S Q P) where
  -- What an output of `on_tick` says of the bars behind a state and a tick.
  pub data Requests (s : ReferenceRuntimeState S Q) (tick : Tick Q) (out : FastLaneOutput S Q)
      : Type 0 where
    again : out.next_state ≡ s → out.bar_requests ≡ [] → Requests s tick out
    stopped : out.next_state.halted ≡ true → out.bar_requests ≡ [] → Requests s tick out
    caught_up :
        out.next_state.halted ≡ false
        → out.next_state.buckets ≡ buckets_at tick.time bar_timeframes
        → CaughtUp s.buckets tick.time bar_timeframes out.bar_requests
        → Requests s tick out

  reasons-Requests :
      (reasons : List String) (s : ReferenceRuntimeState S Q) (tick : Tick Q)
      (requests : List BarRequest) (events : List ReferenceEnvelope) (out : FastLaneOutput S Q)
      → (reasons ≡ [] → CaughtUp s.buckets tick.time bar_timeframes requests)
      → tick_result r s tick
          (buckets_at tick.time bar_timeframes)
          reasons
          (no_requests r reasons requests)
          events
        ≡ ok out
      → Requests s tick out
  reasons-Requests [] s tick requests events out c h =
      let step = tick_result_lem r s tick _ [] requests events out h in
      caught_up (ap (λ (o : FastLaneOutput S Q). o.next_state.halted) step.0)
        (ap (λ (o : FastLaneOutput S Q). o.next_state.buckets) step.0)
        (subst (CaughtUp s.buckets tick.time bar_timeframes)
          (sym (ap (λ (o : FastLaneOutput S Q). o.bar_requests) step.0)) (c refl))
  reasons-Requests (x ∷ xs) s tick requests events out c h =
      let step = tick_result_lem r s tick _ (x ∷ xs) [] events out h in
      stopped (ap (λ (o : FastLaneOutput S Q). o.next_state.halted) step.0)
        (ap (λ (o : FastLaneOutput S Q). o.bar_requests) step.0)

  guarded-Requests :
      (g : GuardResult) (s : ReferenceRuntimeState S Q) (tick : Tick Q) (out : FastLaneOutput S Q)
      → guarded r g s tick ≡ ok out
      → Requests s tick out
  unfolding guarded
  guarded-Requests (rejects x xs) s tick out h =
      let step = tick_result_lem r s tick _ (x ∷ xs) [] _ out h in
      stopped (ap (λ (o : FastLaneOutput S Q). o.next_state.halted) step.0)
        (ap (λ (o : FastLaneOutput S Q). o.bar_requests) step.0)
  guarded-Requests admits s tick out h =
      reasons-Requests _ s tick _ _ out
        (catch_up_all-CaughtUp r.maximum_catchup_bars r.profile_id s.buckets tick.time
          bar_timeframes)
        h

  Ticked-Requests :
      (s : ReferenceRuntimeState S Q) (tick : Tick Q) (out : FastLaneOutput S Q)
      → Ticked r s tick out
      → Requests s tick out
  Ticked-Requests s tick out (repeated same) =
      again (ap (λ (o : FastLaneOutput S Q). o.next_state) same)
        (ap (λ (o : FastLaneOutput S Q). o.bar_requests) same)
  Ticked-Requests s tick out (judged h) = guarded-Requests (r.evaluate tick) s tick out h

  pub on_tick-Requests :
      (s : ReferenceRuntimeState S Q) (tick : Tick Q) (out : FastLaneOutput S Q)
      → on_tick r s tick ≡ ok out
      → Requests s tick out
  on_tick-Requests s tick out h = Ticked-Requests s tick out (on_tick-Ticked r s tick out h)
