-- ===== src/Runtime/Slow.antt =====
-- The slow lane, `run_slow_lane` of ReferenceProfileRuntime. The sink is a parameter with a state `E`
-- of its own; a call that raises gives the text of its exception and the state it left.
use bot_ea.Base.{ℕ, ◌+◌, Option, none, some, String, List, [], ◌∷◌, ◌++◌}
use bot_ea.Runtime.State.{
  Result, ok, err, ◌>>=◌, ReferenceEnvelope, ReferenceRuntimeState, ReferenceProfileRuntime, made,
}
use bot_ea.Runtime.Fast.{validated}
pub use bot_ea.Base.Calls.{Called, returned, raised}

pub record SlowLaneSink (E : Type 0) : Type 0 where
  pub reconcile : String → ℕ → E → Called (List ReferenceEnvelope) E
  pub persist : String → List ReferenceEnvelope → E → Called (Unit {0}) E
  pub notify : String → List ReferenceEnvelope → E → Called (Unit {0}) E

pub record SlowLaneOutput (S Q : Type 0) : Type 0 where
  pub next_state : ReferenceRuntimeState S Q
  pub delivered : List ReferenceEnvelope
  pub error : Option String

module _ {E : Type 0} (sink : SlowLaneSink E) where
  abbrev pub told : List ReferenceEnvelope → Called (Unit {0}) E → Called (List ReferenceEnvelope) E
  told delivery (raised x e) = raised x e
  told delivery (returned _ e) = returned delivery e

  abbrev pub notified :
      String → List ReferenceEnvelope → Called (Unit {0}) E → Called (List ReferenceEnvelope) E
  notified profile delivery (raised x e) = raised x e
  notified profile delivery (returned _ e) = told delivery (sink.notify profile delivery e)

  -- `if delivery: sink.persist(...); sink.notify(...)`
  unfoldable pub send : String → List ReferenceEnvelope → E → Called (List ReferenceEnvelope) E
  send profile [] e = returned [] e
  send profile (x ∷ xs) e = notified profile (x ∷ xs) (sink.persist profile (x ∷ xs) e)

  abbrev pub sent_with :
      String
      → List ReferenceEnvelope
      → Called (List ReferenceEnvelope) E
      → Called (List ReferenceEnvelope) E
  sent_with profile pending (raised x e) = raised x e
  sent_with profile pending (returned reconciled e) = send profile (pending ++ reconciled) e

  -- The body of the `try`.
  unfoldable pub deliver :
      String → ℕ → List ReferenceEnvelope → E → Called (List ReferenceEnvelope) E
  deliver profile as_of pending e = sent_with profile pending (sink.reconcile profile as_of e)

module _ {S Q P E : Type 0} (r : ReferenceProfileRuntime S Q P) (sink : SlowLaneSink E) where
  -- The output of a delivery, with the sink's state behind it.
  unfoldable pub settle :
      ReferenceRuntimeState S Q
      → Called (List ReferenceEnvelope) E
      → Result (SlowLaneOutput S Q) × E
  settle s (raised x e) = (ok (record { next_state = s; delivered = []; error = some x }), e)
  settle s (returned delivery e) = (
    made (record s { sequence = s.sequence + 1; pending = [] }) >>= λ next.
        ok (record { next_state = next; delivered = delivery; error = none }),
    e,
  )

  abbrev pub run_valid : Result (ReferenceRuntimeState S Q) → E → Result (SlowLaneOutput S Q) × E
  run_valid (err x) e = (err x, e)
  run_valid (ok s) e = settle s (deliver sink r.profile_id s.as_of s.pending e)

  -- `run_slow_lane`
  unfoldable pub run_slow_lane : ReferenceRuntimeState S Q → E → Result (SlowLaneOutput S Q) × E
  run_slow_lane s e = run_valid (validated r s) e
