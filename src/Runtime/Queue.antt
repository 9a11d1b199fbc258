-- ===== src/Runtime/Queue.antt =====
-- The outbox of the lanes as an abstract queue: what is published waits until it is delivered.
use mathlib.Core.Path.{subst}
use mathlib.Core.List.{append-nil}
use bot_ea.Base.{◌≡◌, refl, sym, ap, ◌∙◌, none, some, String, List, [], ◌∷◌, ◌++◌}
use bot_ea.Runtime.State.{
  ok, Tick, Bar, GuardResult, admits, rejects, ReferenceEnvelope, BarRequest, Opens,
  ReferenceRuntimeState, ReferenceProfileRuntime,
}
use bot_ea.Runtime.Fast.{FastLaneOutput, tick_result, guarded, on_tick}
use bot_ea.Runtime.Bars.{BarLaneOutput, on_bar_close}
use bot_ea.Runtime.Slow.{SlowLaneSink, SlowLaneOutput, run_slow_lane}
use bot_ea.Runtime.Steps.{tick_result_lem}
use bot_ea.Runtime.TickSteps.{Ticked, repeated, judged, on_tick-Ticked}
use bot_ea.Runtime.BarSteps.{Stepped, Accepted, known, first, behind, on_bar_close-Accepted}
use bot_ea.Runtime.Outbox.{Outbox, kept, cleared, run_slow_lane-Outbox}

-- What a call of a lane shows to the outside.
pub data Shown : Type 0 where
  published delivered : List ReferenceEnvelope → Shown
  failed : String → Shown

-- The queue: an event that is published waits behind the others, a delivery takes all that wait, in
-- their order and in front of what it finds elsewhere, and one that fails takes none.
pub data Serves : List ReferenceEnvelope → Shown → List ReferenceEnvelope → Type 0 where
  joins : {waiting xs : List ReferenceEnvelope} → Serves waiting (published xs) (waiting ++ xs)
  leaves :
      {waiting : List ReferenceEnvelope} (found : List ReferenceEnvelope)
      → Serves waiting (delivered (waiting ++ found)) []
  stays : {waiting : List ReferenceEnvelope} (x : String) → Serves waiting (failed x) waiting

-- A run of the queue.
pub data Queue (waiting : List ReferenceEnvelope)
    : List Shown → List ReferenceEnvelope → Type 0 where
  begins : Queue waiting [] waiting
  goes :
      {shown : List Shown} {x : Shown} {now next : List ReferenceEnvelope}
      → Queue waiting shown now
      → Serves now x next
      → Queue waiting (x ∷ shown) next

module _ {S Q P : Type 0} (r : ReferenceProfileRuntime S Q P) where
  -- The pending events of a state behind another, with some events published between them.
  abbrev Grows :
      ReferenceRuntimeState S Q → ReferenceRuntimeState S Q → List ReferenceEnvelope → Type 0
  Grows s t events = t.pending ≡ s.pending ++ events

  Grows-same :
      (s t : ReferenceRuntimeState S Q) (events : List ReferenceEnvelope)
      → t ≡ s
      → events ≡ []
      → Grows s t events
  Grows-same s t events same e =
      ap (λ (u : ReferenceRuntimeState S Q). u.pending) same
      ∙ sym (append-nil s.pending)
      ∙ ap (λ es. s.pending ++ es) (sym e)

  tick_result-Grows :
      (s : ReferenceRuntimeState S Q) (tick : Tick Q) (buckets : Opens) (reasons : List String)
      (requests : List BarRequest) (events : List ReferenceEnvelope) (out : FastLaneOutput S Q)
      → tick_result r s tick buckets reasons requests events ≡ ok out
      → Grows s out.next_state out.events
  tick_result-Grows s tick buckets reasons requests events out h =
      let same = (tick_result_lem r s tick buckets reasons requests events out h).0 in
      subst (λ (o : FastLaneOutput S Q). Grows s o.next_state o.events) (sym same) refl

  guarded-Grows :
      (g : GuardResult) (s : ReferenceRuntimeState S Q) (tick : Tick Q) (out : FastLaneOutput S Q)
      → guarded r g s tick ≡ ok out
      → Grows s out.next_state out.events
  unfolding guarded
  guarded-Grows (rejects x xs) s tick out h = tick_result-Grows s tick _ _ _ _ out h
  guarded-Grows admits s tick out h = tick_result-Grows s tick _ _ _ _ out h

  Ticked-Grows :
      (s : ReferenceRuntimeState S Q) (tick : Tick Q) (out : FastLaneOutput S Q)
      → Ticked r s tick out
      → Grows s out.next_state out.events
  Ticked-Grows s tick out (repeated same) =
      Grows-same s out.next_state out.events (ap (λ (o : FastLaneOutput S Q). o.next_state) same)
        (ap (λ (o : FastLaneOutput S Q). o.events) same)
  Ticked-Grows s tick out (judged h) = guarded-Grows (r.evaluate tick) s tick out h

  Stepped-Grows :
      (s : ReferenceRuntimeState S Q) (q : BarRequest) (bar : Bar P) (out : BarLaneOutput S Q)
      → Stepped r s q bar out
      → Grows s out.next_state out.events
  Stepped-Grows s q bar out p =
      ap (λ (t : ReferenceRuntimeState S Q). t.pending) p.next
      ∙ ap (λ es. s.pending ++ es) (sym p.events)

  Accepted-Grows :
      (s : ReferenceRuntimeState S Q) (q : BarRequest) (bar : Bar P) (out : BarLaneOutput S Q)
      → Accepted r s q bar out
      → Grows s out.next_state out.events
  Accepted-Grows s q bar out (known at same quiet) =
      Grows-same s out.next_state out.events same quiet
  Accepted-Grows s q bar out (first at p) = Stepped-Grows s q bar out p
  Accepted-Grows s q bar out (behind c at lt p) = Stepped-Grows s q bar out p

  module _ {E : Type 0} (sink : SlowLaneSink E) where
    -- A call of a lane that returns, with what it shows.
    pub data Lane (s : ReferenceRuntimeState S Q) : Shown → ReferenceRuntimeState S Q → Type 0 where
      fast :
          (tick : Tick Q) (out : FastLaneOutput S Q)
          → on_tick r s tick ≡ ok out
          → Lane s (published out.events) out.next_state
      bar_closed :
          (q : BarRequest) (bar : Bar P) (out : BarLaneOutput S Q)
          → on_bar_close r s q bar ≡ ok out
          → Lane s (published out.events) out.next_state
      slow :
          (e e' : E) (out : SlowLaneOutput S Q)
          → run_slow_lane r sink s e ≡ (ok out, e')
          → out.error ≡ none
          → Lane s (delivered out.delivered) out.next_state
      slow_failed :
          (x : String) (e e' : E) (out : SlowLaneOutput S Q)
          → run_slow_lane r sink s e ≡ (ok out, e')
          → out.error ≡ some x
          → Lane s (failed x) out.next_state

    -- A run of the lanes, the last call in front.
    pub data Lanes (s : ReferenceRuntimeState S Q)
        : List Shown → ReferenceRuntimeState S Q → Type 0 where
      idle : Lanes s [] s
      called :
          {shown : List Shown} {x : Shown} {t u : ReferenceRuntimeState S Q}
          → Lanes s shown t
          → Lane t x u
          → Lanes s (x ∷ shown) u

    Grows-Serves :
        (s t : ReferenceRuntimeState S Q) (events : List ReferenceEnvelope)
        → Grows s t events
        → Serves s.pending (published events) t.pending
    Grows-Serves s t events e = subst (Serves s.pending (published events)) (sym e) joins

    Outbox-delivered :
        (s : ReferenceRuntimeState S Q) (e e' : E) (out : SlowLaneOutput S Q)
        → Outbox r sink s e out e'
        → out.error ≡ none
        → Serves s.pending (delivered out.delivered) out.next_state.pending
    Outbox-delivered s e e' out (kept x error same none_sent) h = cc
    Outbox-delivered s e e' out (cleared error next (found, e1, asked, whole, sent)) h =
        subst (λ d. Serves s.pending (delivered d) out.next_state.pending) (sym whole)
          (subst
            (λ (t : ReferenceRuntimeState S Q).
              Serves s.pending (delivered (s.pending ++ found)) t.pending)
            (sym next) (leaves found))

    Outbox-failed :
        (s : ReferenceRuntimeState S Q) (e e' : E) (out : SlowLaneOutput S Q) (x : String)
        → Outbox r sink s e out e'
        → out.error ≡ some x
        → Serves s.pending (failed x) out.next_state.pending
    Outbox-failed s e e' out x (kept y error same none_sent) h =
        subst (λ (t : ReferenceRuntimeState S Q). Serves s.pending (failed x) t.pending) (sym same)
          (stays x)
    Outbox-failed s e e' out x (cleared error next sent) h = cc

    Lane-Serves :
        {s t : ReferenceRuntimeState S Q} {x : Shown} → Lane s x t → Serves s.pending x t.pending
    Lane-Serves {s} (fast tick out h) =
        Grows-Serves s out.next_state out.events
          (Ticked-Grows s tick out (on_tick-Ticked r s tick out h))
    Lane-Serves {s} (bar_closed q bar out h) =
        Grows-Serves s out.next_state out.events
          (Accepted-Grows s q bar out (on_bar_close-Accepted r s q bar out h).1)
    Lane-Serves {s} (slow e e' out h fine) =
        Outbox-delivered s e e' out (run_slow_lane-Outbox r sink s e e' out h) fine
    Lane-Serves {s} (slow_failed x e e' out h error) =
        Outbox-failed s e e' out x (run_slow_lane-Outbox r sink s e e' out h) error

    -- Whatever the order of the calls, a run of the lanes shows what a run of the abstract queue from
    -- and to the pending events shows: each published event waits behind those before it, stays
    -- through failed deliveries, and leaves with the first delivery that succeeds, once and in its
    -- order.
    pub Lanes-Queue :
        {s t : ReferenceRuntimeState S Q} {shown : List Shown}
        → Lanes s shown t
        → Queue s.pending shown t.pending
    Lanes-Queue idle = begins
    Lanes-Queue (called run lane) = goes (Lanes-Queue run) (Lane-Serves lane)
