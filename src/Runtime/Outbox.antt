-- ===== src/Runtime/Outbox.antt =====
-- The slow lane keeps the outbox until all of it is delivered.
use mathlib.Core.Path.{subst}
use bot_ea.Base.{
  ◌+◌, ◌≡◌, refl, sym, ap, ◌∙◌, ◌⊎◌, inl, inr, none, some, String, List, [], ◌∷◌, ◌++◌,
}
use bot_ea.Runtime.State.{
  Result, ok, err, ReferenceEnvelope, ReferenceRuntimeState, ReferenceProfileRuntime, made,
}
use bot_ea.Runtime.Fast.{validated}
use bot_ea.Runtime.Slow.{
  Called, returned, raised, SlowLaneSink, SlowLaneOutput, told, notified, send, sent_with, deliver,
  settle, run_valid, run_slow_lane,
}
use bot_ea.Runtime.Steps.{first_step, ok_injective, made_lem, validated_lem}

module _ {S Q P E : Type 0} (r : ReferenceProfileRuntime S Q P) (sink : SlowLaneSink E) where
  told_lem :
      (delivery d : List ReferenceEnvelope) (c : Called (Unit {0}) E) (e : E)
      → told sink delivery c ≡ returned d e
      → (d ≡ delivery) × (c ≡ returned tt e)
  told_lem delivery d (raised x e') e h = cc
  told_lem delivery d (returned _ e') e h = (cc, cc)

  notified_lem :
      (delivery d : List ReferenceEnvelope) (c : Called (Unit {0}) E) (e : E)
      → notified sink r.profile_id delivery c ≡ returned d e
      → (d ≡ delivery)
        × ((e2 : E) × (c ≡ returned tt e2) × (sink.notify r.profile_id delivery e2 ≡ returned tt e))
  notified_lem delivery d (raised x e') e h = cc
  notified_lem delivery d (returned _ e') e h =
      let both = told_lem delivery d (sink.notify r.profile_id delivery e') e h in
      (both.0, (e', refl, both.1))

  -- The sink has kept the delivery and told of it, or there was nothing to keep.
  abbrev Sent : List ReferenceEnvelope → E → E → Type 0
  Sent delivery e1 e' =
      ((delivery ≡ []) × (e' ≡ e1))
      ⊎ ((e2 : E) × (sink.persist r.profile_id delivery e1 ≡ returned tt e2)
          × (sink.notify r.profile_id delivery e2 ≡ returned tt e'))

  send_lem :
      (delivery d : List ReferenceEnvelope) (e1 e' : E)
      → send sink r.profile_id delivery e1 ≡ returned d e'
      → (d ≡ delivery) × Sent delivery e1 e'
  unfolding send
  send_lem [] d e1 e' h = (cc, inl (refl, cc))
  send_lem (x ∷ xs) d e1 e' h =
      let both = notified_lem (x ∷ xs) d (sink.persist r.profile_id (x ∷ xs) e1) e' h in
      (both.0, inr both.1)

  -- The sink was asked for what it reconciles, and that was sent behind what was pending.
  abbrev pub Delivered : ReferenceRuntimeState S Q → E → List ReferenceEnvelope → E → Type 0
  Delivered s e delivery e' =
      (reconciled : List ReferenceEnvelope) × (e1 : E) × (sink.reconcile r.profile_id s.as_of e
        ≡ returned reconciled e1)
      × (delivery ≡ s.pending ++ reconciled)
      × Sent delivery e1 e'

  sent_with_lem :
      (s : ReferenceRuntimeState S Q) (e e' : E) (d : List ReferenceEnvelope)
      (c : Called (List ReferenceEnvelope) E)
      → sink.reconcile r.profile_id s.as_of e ≡ c
      → sent_with sink r.profile_id s.pending c ≡ returned d e'
      → Delivered s e d e'
  sent_with_lem s e e' d (raised x e1) asked h = cc
  sent_with_lem s e e' d (returned reconciled e1) asked h =
      let both = send_lem (s.pending ++ reconciled) d e1 e' h in
      (reconciled, e1, asked, both.0, subst (λ x. Sent x e1 e') (sym both.0) both.1)

  -- What the output of a slow lane that returns holds.
  pub data Outbox (s : ReferenceRuntimeState S Q) (e : E) (out : SlowLaneOutput S Q) (e' : E)
      : Type 0 where
    kept :
        (x : String)
        → out.error ≡ some x
        → out.next_state ≡ s
        → out.delivered ≡ []
        → Outbox s e out e'
    cleared :
        out.error ≡ none
        → out.next_state ≡ record s { sequence = s.sequence + 1; pending = [] }
        → Delivered s e out.delivered e'
        → Outbox s e out e'

  settle_lem :
      (s : ReferenceRuntimeState S Q) (e e' : E) (out : SlowLaneOutput S Q)
      (c : Called (List ReferenceEnvelope) E)
      → deliver sink r.profile_id s.as_of s.pending e ≡ c
      → settle r sink s c ≡ (ok out, e')
      → Outbox s e out e'
  unfolding settle deliver
  settle_lem s e e' out (raised x e1) made_call h =
      let same = ok_injective _ _ (ap (λ (p : Result (SlowLaneOutput S Q) × E). p.0) h) in
      kept x (sym (ap (λ (o : SlowLaneOutput S Q). o.error) same))
        (sym (ap (λ (o : SlowLaneOutput S Q). o.next_state) same))
        (sym (ap (λ (o : SlowLaneOutput S Q). o.delivered) same))
  settle_lem s e e' out (returned d e1) made_call h =
      let (next, built, last) =
        first_step (made (record s { sequence = s.sequence + 1; pending = [] })) _
          (ap (λ (p : Result (SlowLaneOutput S Q) × E). p.0) h) in
      let same = ok_injective _ _ last in
      let world : e1 ≡ e' = ap (λ (p : Result (SlowLaneOutput S Q) × E). p.1) h in
      let whole = sent_with_lem s e e1 d (sink.reconcile r.profile_id s.as_of e) refl made_call in
      cleared (sym (ap (λ (o : SlowLaneOutput S Q). o.error) same))
        (sym (ap (λ (o : SlowLaneOutput S Q). o.next_state) same) ∙ (made_lem _ next built).0)
        (subst (λ w. Delivered s e out.delivered w) world
          (subst (λ x. Delivered s e x e1) (ap (λ (o : SlowLaneOutput S Q). o.delivered) same)
            whole))

  run_valid_lem :
      (s : ReferenceRuntimeState S Q) (e e' : E) (out : SlowLaneOutput S Q)
      (m : Result (ReferenceRuntimeState S Q))
      → validated r s ≡ m
      → run_valid r sink m e ≡ (ok out, e')
      → Outbox s e out e'
  run_valid_lem s e e' out (err x) valid h =
      absurd
        (let failed : err x ≡ ok out = ap (λ (p : Result (SlowLaneOutput S Q) × E). p.0) h in cc)
  run_valid_lem s e e' out (ok s') valid h =
      let same = (validated_lem r s s' valid).0 in
      settle_lem s e e' out (deliver sink r.profile_id s.as_of s.pending e) refl (
        subst (λ t. settle r sink t (deliver sink r.profile_id t.as_of t.pending e) ≡ (ok out, e'))
          same h)

  -- A slow lane that returns with an error has left the state and its outbox as they were and
  -- delivered nothing. One that returns without has cleared the outbox, and has sent all that was
  -- pending with what the sink reconciled behind it: kept first, then told of.
  pub run_slow_lane-Outbox :
      (s : ReferenceRuntimeState S Q) (e e' : E) (out : SlowLaneOutput S Q)
      → run_slow_lane r sink s e ≡ (ok out, e')
      → Outbox s e out e'
  unfolding run_slow_lane
  run_slow_lane-Outbox s e e' out h = run_valid_lem s e e' out (validated r s) refl h
