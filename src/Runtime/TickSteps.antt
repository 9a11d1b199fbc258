-- ===== src/Runtime/TickSteps.antt =====
-- What a tick that returns has done.
use bot_ea.Base.{◌≡◌, sym, inl, inr, ◌&&◌, Option, none, some, leb, ◌==◌, Bool-cases}
use bot_ea.Runtime.State.{ok, Tick, ReferenceRuntimeState, ReferenceProfileRuntime}
use bot_ea.Runtime.Fast.{FastLaneOutput, validated, guarded, unchanged, after_tick, on_tick}
use bot_ea.Runtime.Steps.{first_step, ok_injective, validated_lem}

module _ {S Q P : Type 0} (r : ReferenceProfileRuntime S Q P) where
  -- A tick was the last one again, or it has passed the guard's judgement.
  pub data Ticked (s : ReferenceRuntimeState S Q) (tick : Tick Q) (out : FastLaneOutput S Q)
      : Type 0 where
    repeated : out ≡ unchanged r s → Ticked s tick out
    judged : guarded r (r.evaluate tick) s tick ≡ ok out → Ticked s tick out

  after_tick-Ticked :
      (o : Option (Tick Q)) (s : ReferenceRuntimeState S Q) (tick : Tick Q)
      (out : FastLaneOutput S Q)
      → after_tick r o s tick ≡ ok out
      → Ticked s tick out
  unfolding after_tick
  after_tick-Ticked none s tick out h = judged h
  after_tick-Ticked (some last) s tick out h = elim (Bool-cases (leb tick.time last.time)) [
    | inr e ↦ judged (rw e at h)
    | inl e ↦ elim (Bool-cases ((tick.time == last.time) && r.same_quote tick.quote last.quote)) [
      | inl f ↦ repeated (sym (ok_injective _ _ (rw (e, f) at h)))
      | inr f ↦ absurd (let failed = rw (e, f) at h in cc)
    ]
  ]

  pub on_tick-Ticked :
      (s : ReferenceRuntimeState S Q) (tick : Tick Q) (out : FastLaneOutput S Q)
      → on_tick r s tick ≡ ok out
      → Ticked s tick out
  unfolding on_tick
  on_tick-Ticked s tick out h =
      let (s', valid, rest) = first_step (validated r s) _ h in
      after_tick-Ticked s.last_tick s tick out (rw (validated_lem r s s' valid).0 at rest)
