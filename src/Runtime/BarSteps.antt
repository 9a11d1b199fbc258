-- ===== src/Runtime/BarSteps.antt =====
-- What a bar that is accepted has done.
use mathlib.Core.Path.{subst}
use bot_ea.Base.{
  ℕ, ◌≤◌, ◌<◌, ◌≡◌, refl, sym, ap, ◌∙◌, inl, inr, false, not, ◌||◌, Option, none, some, ◌++◌, [],
  ltb, ◌==◌, ==_iff, str_eq, length, arith, Bool-cases,
}
use bot_ea.Runtime.State.{
  ok, Bar, EngineOutput, StrategyState, BarRequest, ReferenceRuntimeState, ReferenceProfileRuntime,
  made,
}
use bot_ea.Base.Errors.{first_error}
use bot_ea.Runtime.Fast.{open_of, append_pending, validated}
use bot_ea.Runtime.Bars.{
  BarLaneOutput, output_tests, validate_after, called, envelopes_of, closed, engine_step,
  after_cursor, in_lane, on_bar_close,
}
use bot_ea.Runtime.Steps.{
  first_step, ok_injective, unless_error_lem, IsMade, made_lem, append_pending_lem, validated_lem,
  guard_lem,
}

validate_after_lem :
    {S : Type 0} (o o' : EngineOutput S) (previous : StrategyState S)
    → validate_after o previous ≡ ok o'
    → o' ≡ o
unfolding validate_after
validate_after_lem o o' previous h =
    (unless_error_lem (first_error (output_tests o previous)) o o' h).1

module _ {S Q P : Type 0} (r : ReferenceProfileRuntime S Q P) where
  -- The engine has run once on the bar, its output is valid behind the state, and the state and the
  -- events are those of that output.
  pub record Stepped (s : ReferenceRuntimeState S Q) (q : BarRequest) (bar : Bar P)
      (out : BarLaneOutput S Q) : Type 0 where
    pub engine : EngineOutput S
    pub ran : called (r.on_bar_close s.engine_state q.timeframe bar) ≡ ok engine
    pub valid : validate_after engine s.engine_state ≡ ok engine
    pub next : out.next_state ≡ closed r s q engine (s.pending ++ envelopes_of r q engine)
    pub events : out.events ≡ envelopes_of r q engine
    pub is_made : IsMade out.next_state
    pub fits : length out.next_state.pending ≤ r.maximum_pending_events

  engine_step-Stepped :
      (s : ReferenceRuntimeState S Q) (q : BarRequest) (bar : Bar P) (out : BarLaneOutput S Q)
      → engine_step r s q bar ≡ ok out
      → Stepped s q bar out
  unfolding engine_step
  engine_step-Stepped s q bar out h =
      let (o, ran, rest) =
        first_step (called (r.on_bar_close s.engine_state q.timeframe bar)) _ h in
      let (o', valid, rest') = first_step (validate_after o s.engine_state) _ rest in
      let (pending, appended, rest'') =
        first_step (append_pending r s.pending (envelopes_of r q o')) _ rest' in
      let (next, built, last) = first_step (made (closed r s q o' pending)) _ rest'' in
      let same = validate_after_lem o o' s.engine_state valid in
      let more = append_pending_lem r s.pending (envelopes_of r q o') pending appended in
      let whole = made_lem _ next built in
      let output = ok_injective _ _ last in
      let state = sym (ap (λ (b : BarLaneOutput S Q). b.next_state) output) ∙ whole.0 in
      record {
        engine = o';
        ran = ran ∙ ap ok (sym same);
        valid =
            subst (λ (x : EngineOutput S). validate_after x s.engine_state ≡ ok o') (sym same)
              valid;
        next = state ∙ ap (closed r s q o') more.0;
        events = sym (ap (λ (b : BarLaneOutput S Q). b.events) output);
        is_made = subst IsMade (sym state) whole.1;
        fits =
            subst (λ (t : ReferenceRuntimeState S Q). length t.pending ≤ r.maximum_pending_events)
              (sym state) more.1;
      }

  -- A bar that the lane accepts is the one of the cursor, and nothing has changed, or it lies behind
  -- the cursor of its timeframe, if there is one, and the engine has stepped.
  pub data Accepted (s : ReferenceRuntimeState S Q) (q : BarRequest) (bar : Bar P)
      (out : BarLaneOutput S Q) : Type 0 where
    known :
        open_of q.timeframe s.bar_cursors ≡ some q.open_time
        → out.next_state ≡ s
        → out.events ≡ []
        → Accepted s q bar out
    first : open_of q.timeframe s.bar_cursors ≡ none → Stepped s q bar out → Accepted s q bar out
    behind :
        (c : ℕ)
        → open_of q.timeframe s.bar_cursors ≡ some c
        → c < q.open_time
        → Stepped s q bar out
        → Accepted s q bar out

  after_cursor-Accepted :
      (o : Option ℕ) (s : ReferenceRuntimeState S Q) (q : BarRequest) (bar : Bar P)
      (out : BarLaneOutput S Q)
      → open_of q.timeframe s.bar_cursors ≡ o
      → after_cursor r o s q bar ≡ ok out
      → Accepted s q bar out
  unfolding after_cursor
  after_cursor-Accepted none s q bar out e h = first e (engine_step-Stepped s q bar out h)
  after_cursor-Accepted (some c) s q bar out e h = elim (Bool-cases (q.open_time == c)) [
    | inl same ↦
        let idle = ok_injective _ _ (rw same at h) in
        known (e ∙ ap some (sym ((==_iff q.open_time c).0 same)))
          (sym (ap (λ (b : BarLaneOutput S Q). b.next_state) idle))
          (sym (ap (λ (b : BarLaneOutput S Q). b.events) idle))
    | inr other ↦ elim (Bool-cases (ltb q.open_time c)) [
      | inl early ↦ absurd (let failed = rw (other, early) at h in cc)
      | inr late ↦
          behind c e (ground arith) (engine_step-Stepped s q bar out (rw (other, late) at h))
    ]
  ]

  in_lane-Accepted :
      (s : ReferenceRuntimeState S Q) (q : BarRequest) (bar : Bar P) (out : BarLaneOutput S Q)
      → in_lane r s q bar ≡ ok out
      → (s.halted ≡ false) × Accepted s q bar out
  unfolding in_lane
  in_lane-Accepted s q bar out h =
      let (running, h') = guard_lem s.halted _ _ out h in
      let (own, h'') = guard_lem (not (str_eq q.profile_id r.profile_id)) _ _ out h' in
      let (times, h''') =
        guard_lem (not (bar.open_time == q.open_time) || not (bar.close_time == q.close_time)) _ _
          out h'' in
      (running, after_cursor-Accepted (open_of q.timeframe s.bar_cursors) s q bar out refl h''')

  pub on_bar_close-Accepted :
      (s : ReferenceRuntimeState S Q) (q : BarRequest) (bar : Bar P) (out : BarLaneOutput S Q)
      → on_bar_close r s q bar ≡ ok out
      → (s.halted ≡ false) × Accepted s q bar out
  unfolding on_bar_close
  on_bar_close-Accepted s q bar out h =
      let (s', valid, rest) = first_step (validated r s) _ h in
      in_lane-Accepted s q bar out (rw (validated_lem r s s' valid).0 at rest)
