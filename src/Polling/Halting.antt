-- ===== src/Polling/Halting.antt =====
-- A run is marked as halted exactly by the cycles that say so, and those place no order.
use bot_ea.Base.{
  ◌≡◌, refl, sym, ◌∙◌, Bool, true, false, Option, none, some, List, [], ◌∷◌, Bool-cases, inl, inr,
  arith,
}
use bot_ea.Base.Number.{Number}
use bot_ea.Base.Library.{Library}
use bot_ea.Base.Calls.{Called, returned, raised}
use bot_ea.Risk.Models.{PositionSizeResult}
use bot_ea.Risk.Size.{compute_position_size}
use bot_ea.Session.Stop.{SessionPerformance, evaluate_stop_policy}
use bot_ea.Polling.Models.{
  DecisionAction, no_trade, open_trade, add, reduce, close, cancel_pending, halt, RuntimeSnapshot,
  AiIntent, SizeResult, sized, PreflightResult, ExecutionResult, Row, cycle_started, stop_event,
  run_halted, market_snapshot, ai_decision, risk_guard, execution_event, position_event, Ending,
  finished, failed, Outcome, PollingRuntime,
}
use bot_ea.Polling.Report.{
  after_execution, report, executed, after_preflight, checked, preflighted, attempt,
  preflight_failure, execution_failure,
}
use bot_ea.Polling.Cycle.{
  halted, open_sized, manage, act, after_decision, decision, after_snapshot, seen, run_cycle,
  position_request, account_fingerprint_changed,
}
use bot_ea.Polling.Verdict.{phases}

-- The run is marked as halted by some row.
unfoldable pub marks_halted : {R : Type 0} → List (Row R) → Bool
marks_halted [] = false
marks_halted (run_halted _ ∷ rows) = true
marks_halted (cycle_started ∷ rows) = marks_halted rows
marks_halted (stop_event _ _ _ ∷ rows) = marks_halted rows
marks_halted (market_snapshot _ ∷ rows) = marks_halted rows
marks_halted (ai_decision _ ∷ rows) = marks_halted rows
marks_halted (risk_guard _ ∷ rows) = marks_halted rows
marks_halted (execution_event _ ∷ rows) = marks_halted rows
marks_halted (position_event _ ∷ rows) = marks_halted rows

abbrev pub says_halted : {R : Type 0} → Ending R → Bool
says_halted (finished r) = r.halted
says_halted failed = false

-- The rows of a cycle agree with its ending.
pub record Agrees {R E : Type 0} (o : Outcome R E) : Type 0 where
  pub marked : marks_halted o.rows ≡ says_halted o.ending
  pub no_order : says_halted o.ending ≡ true → phases o.rows ≡ []

-- A cycle that goes on, with any rows but that of a halt.
pub record GoesOn {R E : Type 0} (o : Outcome R E) : Type 0 where
  pub unmarked : marks_halted o.rows ≡ false
  pub unsaid : says_halted o.ending ≡ false

GoesOn-Agrees : {R E : Type 0} (o : Outcome R E) → GoesOn o → Agrees o
GoesOn-Agrees o g = record {
  marked = g.unmarked ∙ sym g.unsaid;
  no_order = λ h. absurd (let no_halt = g.unsaid in cc);
}

module _ {R : Type 0} ⦃num : Number R⦄ {E : Type 0} where
  after_execution-GoesOn :
      (s : RuntimeSnapshot R) (i : AiIntent R) (size : SizeResult R) (x : ExecutionResult R) (e : E)
      → GoesOn (after_execution s i size x e)
  unfolding after_execution marks_halted
  after_execution-GoesOn s i size x e = record {
    unmarked = ground (arith);
    unsaid = ground (arith);
  }

  report-GoesOn :
      (s : RuntimeSnapshot R) (i : AiIntent R) (size : SizeResult R) (x : ExecutionResult R) (e : E)
      → GoesOn (report s i size x e)
  unfolding report marks_halted
  report-GoesOn s i size x e =
      let rest = after_execution-GoesOn s i size x e in
      record { unmarked = rest.unmarked; unsaid = rest.unsaid }

  executed-GoesOn :
      (s : RuntimeSnapshot R) (i : AiIntent R) (size : SizeResult R)
      (c : Called (ExecutionResult R) E)
      → GoesOn (executed s i size c)
  unfolding executed
  executed-GoesOn s i size (returned x e) = report-GoesOn s i size x e
  executed-GoesOn s i size (raised exc e) = report-GoesOn s i size (execution_failure exc) e

  module _ (p : PollingRuntime R E) where
    checked-GoesOn :
        (s : RuntimeSnapshot R) (i : AiIntent R) (size : SizeResult R) (x : PreflightResult R)
        (e : E)
        → GoesOn (checked p s i size x e)
    unfolding checked after_preflight marks_halted
    checked-GoesOn s i size x e =
        let rest = executed-GoesOn s i size (p.execute s i size x e) in
        record { unmarked = ground (arith, rest.unmarked); unsaid = ground (arith, rest.unsaid) }

    preflighted-GoesOn :
        (s : RuntimeSnapshot R) (i : AiIntent R) (size : SizeResult R)
        (c : Called (PreflightResult R) E)
        → GoesOn (preflighted p s i size c)
    unfolding preflighted
    preflighted-GoesOn s i size (returned x e) = checked-GoesOn s i size x e
    preflighted-GoesOn s i size (raised exc e) = checked-GoesOn s i size (preflight_failure exc) e

    attempt-GoesOn :
        (s : RuntimeSnapshot R) (i : AiIntent R) (size : SizeResult R) (e : E)
        → GoesOn (attempt p s i size e)
    unfolding attempt marks_halted
    attempt-GoesOn s i size e =
        let rest = preflighted-GoesOn s i size (p.preflight s i size e) in
        record { unmarked = rest.unmarked; unsaid = rest.unsaid }

    module _ ⦃lib : Library R⦄ where
      manage-GoesOn : (s : RuntimeSnapshot R) (i : AiIntent R) (e : E) → GoesOn (manage p s i e)
      unfolding manage marks_halted
      manage-GoesOn s i e =
          let rest = attempt-GoesOn s i _ e in
          record { unmarked = rest.unmarked; unsaid = rest.unsaid }

      open_sized-GoesOn :
          (s : RuntimeSnapshot R) (i : AiIntent R) (o : Option (PositionSizeResult R)) (e : E)
          → GoesOn (open_sized p s i o e)
      unfolding open_sized marks_halted
      open_sized-GoesOn s i none e = record { unmarked = refl; unsaid = refl }
      open_sized-GoesOn s i (some r) e =
          let rest = attempt-GoesOn s i (sized r) e in
          record { unmarked = ground (arith, rest.unmarked); unsaid = ground (arith, rest.unsaid) }

      act-Agrees :
          (a : DecisionAction) (s : RuntimeSnapshot R) (i : AiIntent R) (e : E)
          → Agrees (act p a s i e)
      unfolding act halted marks_halted phases
      act-Agrees no_trade s i e = record { marked = refl; no_order = λ h. refl }
      act-Agrees halt s i e = record { marked = refl; no_order = λ h. refl }
      act-Agrees open_trade s i e =
          GoesOn-Agrees _ (open_sized-GoesOn s i (compute_position_size (position_request s i)) e)
      act-Agrees add s i e = GoesOn-Agrees _ (manage-GoesOn s i e)
      act-Agrees reduce s i e = GoesOn-Agrees _ (manage-GoesOn s i e)
      act-Agrees close s i e = GoesOn-Agrees _ (manage-GoesOn s i e)
      act-Agrees cancel_pending s i e = GoesOn-Agrees _ (manage-GoesOn s i e)

      after_decision-Agrees :
          (s : RuntimeSnapshot R) (i : AiIntent R) (e : E) → Agrees (after_decision p s i e)
      unfolding after_decision marks_halted phases
      after_decision-Agrees s i e =
          let rest = act-Agrees i.action s i e in
          record { marked = rest.marked; no_order = rest.no_order }

      decision-Agrees :
          (s : RuntimeSnapshot R) (c : Called (AiIntent R) E) → Agrees (decision p s c)
      unfolding decision
      decision-Agrees s (returned i e) = after_decision-Agrees s i e
      decision-Agrees s (raised exc e) = after_decision-Agrees s _ e

      seen-Agrees : (c : Called (RuntimeSnapshot R) E) → Agrees (seen p c)
      unfolding seen after_snapshot halted marks_halted phases
      seen-Agrees (raised exc e) = record { marked = refl; no_order = λ h. refl }
      seen-Agrees (returned s e) =
          let rest = decision-Agrees s (p.decide s e) in
          elim (Bool-cases (account_fingerprint_changed p.expected_fingerprint s.fingerprint)) [
            | inl changed ↦ rw changed (record { marked = refl; no_order = λ h. refl })
            | inr same ↦ rw same (record { marked = rest.marked; no_order = rest.no_order })
          ]

      -- A cycle marks the run as halted in the store exactly when it returns that it has halted, and
      -- then it has written no order row: it never places an order and halts.
      pub run_cycle-Agrees :
          (performance : SessionPerformance R) (e : E) → Agrees (run_cycle p performance e)
      unfolding run_cycle halted marks_halted phases
      run_cycle-Agrees performance e =
          let rest = seen-Agrees (p.get_snapshot e) in
          elim (Bool-cases (evaluate_stop_policy p.stop_policy performance).should_halt) [
            | inl stops ↦ rw stops (record { marked = refl; no_order = λ h. refl })
            | inr goes ↦ rw goes (record { marked = rest.marked; no_order = rest.no_order })
          ]
