-- ===== src/Polling/Verdict.antt =====
-- The order rows of a cycle: an attempt never stays without its verdict.
use bot_ea.Base.{
  ◌≢◌, ◌≡◌, refl, Bool, true, false, eq_iff, ap, Option, none, some, String, List, [], ◌∷◌, if_both,
  str_eq, one_of, Bool-cases, inl, inr, arith,
}
use bot_ea.Base.Number.{Number}
use bot_ea.Base.Library.{Library}
use bot_ea.Base.Calls.{Called, returned, raised}
use bot_ea.Risk.Models.{PositionSizeResult}
use bot_ea.Risk.Size.{compute_position_size}
use bot_ea.Session.Stop.{SessionPerformance, evaluate_stop_policy}
use bot_ea.Polling.Models.{
  DecisionAction, no_trade, open_trade, add, reduce, close, cancel_pending, halt, RuntimeSnapshot,
  AiIntent, SizeResult, sized, PreflightResult, ExecutionResult, Phase, intent, guard, precheck,
  fill, send, Row, cycle_started, stop_event, run_halted, market_snapshot, ai_decision,
  risk_rejected, risk_guard, execution_event, position_event, Outcome, PollingRuntime,
}
use bot_ea.Polling.Report.{
  get_or, execution_status, go_on, text_or, final_phase, preflight_status, preflight_row,
  execution_row, after_execution, report, executed, after_preflight, checked, preflighted, attempt,
  preflight_failure, execution_failure,
}
use bot_ea.Polling.Cycle.{
  halted, open_sized, manage, act, after_decision, decision, after_snapshot, seen, run_cycle,
  position_request, account_fingerprint_changed,
}

-- The phases of the order rows, in their order.
unfoldable pub phases : {R : Type 0} → List (Row R) → List Phase
phases [] = []
phases (execution_event o ∷ rows) = o.phase ∷ phases rows
phases (cycle_started ∷ rows) = phases rows
phases (stop_event _ _ _ ∷ rows) = phases rows
phases (run_halted _ ∷ rows) = phases rows
phases (market_snapshot _ ∷ rows) = phases rows
phases (ai_decision _ ∷ rows) = phases rows
phases (risk_guard _ ∷ rows) = phases rows
phases (position_event _ ∷ rows) = phases rows

-- The phases and statuses of the order rows, in their order.
unfoldable pub verdicts : {R : Type 0} → List (Row R) → List (Phase × String)
verdicts [] = []
verdicts (execution_event o ∷ rows) = (o.phase, o.status) ∷ verdicts rows
verdicts (cycle_started ∷ rows) = verdicts rows
verdicts (stop_event _ _ _ ∷ rows) = verdicts rows
verdicts (run_halted _ ∷ rows) = verdicts rows
verdicts (market_snapshot _ ∷ rows) = verdicts rows
verdicts (ai_decision _ ∷ rows) = verdicts rows
verdicts (risk_guard _ ∷ rows) = verdicts rows
verdicts (position_event _ ∷ rows) = verdicts rows

-- The statuses of an execution that has an outcome.
abbrev pub is_outcome : String → Bool
is_outcome s = one_of s ("FILLED" ∷ "DRY_RUN_OK" ∷ "REJECTED" ∷ "ERROR" ∷ [])

-- No order was tried, or the guard or the broker's check turned it down, or it was executed after a
-- check that passed, with an outcome or without.
pub data Verdict : List (Phase × String) → Type 0 where
  not_tried : Verdict []
  turned_down : Verdict ((intent, "READY") ∷ (guard, "GUARD_REJECTED") ∷ [])
  rejected :
      (status : String)
      → status ≢ "GUARD_REJECTED"
      → status ≢ "PRECHECK_OK"
      → Verdict ((intent, "READY") ∷ (precheck, status) ∷ [])
  carried_out :
      (status : String)
      → is_outcome status ≡ true
      → Verdict ((intent, "READY") ∷ (precheck, "PRECHECK_OK") ∷ (fill, status) ∷ [])
  sent :
      (status : String)
      → is_outcome status ≡ false
      → Verdict ((intent, "READY") ∷ (precheck, "PRECHECK_OK") ∷ (send, status) ∷ [])

abbrev Passed : Phase × String → Type 0
Passed v = Verdict ((intent, "READY") ∷ (precheck, "PRECHECK_OK") ∷ v ∷ [])

-- The row of an execution whose result has that status, or none.
Verdict-final : (status : Option String) → Passed (final_phase status, get_or status "UNKNOWN")
Verdict-final none = sent "UNKNOWN" refl
Verdict-final (some s) = if_both (λ ph. Passed (ph, s)) (is_outcome s) (carried_out s) (sent s)

unlike : (s t : String) → str_eq s t ≡ false → s ≢ t
unlike s t h same = let both = (eq_iff s t).1 same in cc

module _ {R : Type 0} ⦃num : Number R⦄ {E : Type 0} where
  abbrev NoOrder : Outcome R E → Type 0
  NoOrder o = verdicts o.rows ≡ []

  after_execution-NoOrder :
      (s : RuntimeSnapshot R) (i : AiIntent R) (size : SizeResult R) (x : ExecutionResult R) (e : E)
      → NoOrder (after_execution s i size x e)
  unfolding after_execution verdicts
  after_execution-NoOrder s i size x e = ground (arith)

  verdicts-report :
      (s : RuntimeSnapshot R) (i : AiIntent R) (size : SizeResult R) (x : ExecutionResult R) (e : E)
      → verdicts (report s i size x e).rows ≡ (final_phase x.status, execution_status x) ∷ []
  unfolding report verdicts execution_row
  verdicts-report s i size x e =
      ap (λ vs. (final_phase x.status, execution_status x) ∷ vs)
        (after_execution-NoOrder s i size x e)

  executed-Judged :
      (s : RuntimeSnapshot R) (i : AiIntent R) (size : SizeResult R)
      (c : Called (ExecutionResult R) E)
      → Verdict
          ((intent, "READY") ∷ (precheck, "PRECHECK_OK") ∷ verdicts (executed s i size c).rows)
  unfolding executed
  executed-Judged s i size (returned x e) =
      rw (verdicts-report s i size x e) (Verdict-final x.status)
  executed-Judged s i size (raised exc e) =
      rw (verdicts-report s i size (execution_failure exc) e) (Verdict-final (some "ERROR"))

  module _ (p : PollingRuntime R E) where
    abbrev Judged : Outcome R E → Type 0
    Judged o = Verdict ((intent, "READY") ∷ verdicts o.rows)

    checked-Judged :
        (s : RuntimeSnapshot R) (i : AiIntent R) (size : SizeResult R) (x : PreflightResult R)
        (e : E)
        → Judged (checked p s i size x e)
    unfolding checked verdicts preflight_row after_preflight
    checked-Judged s i size x e = elim (Bool-cases (str_eq (preflight_status x) "GUARD_REJECTED")) [
      | inl guarded ↦
          let is_guarded = (eq_iff (preflight_status x) "GUARD_REJECTED").0 guarded in
          rw (guarded, is_guarded) turned_down
      | inr passed ↦ elim (Bool-cases (str_eq (preflight_status x) "PRECHECK_OK")) [
        | inr bad ↦
            rw (passed, bad)
              (rejected (preflight_status x) (unlike (preflight_status x) "GUARD_REJECTED" passed)
                (unlike (preflight_status x) "PRECHECK_OK" bad))
        | inl good ↦
            let is_ok = (eq_iff (preflight_status x) "PRECHECK_OK").0 good in
            rw (passed, good, is_ok) (executed-Judged s i size (p.execute s i size x e))
      ]
    ]

    preflighted-Judged :
        (s : RuntimeSnapshot R) (i : AiIntent R) (size : SizeResult R)
        (c : Called (PreflightResult R) E)
        → Judged (preflighted p s i size c)
    unfolding preflighted
    preflighted-Judged s i size (returned x e) = checked-Judged s i size x e
    preflighted-Judged s i size (raised exc e) = checked-Judged s i size (preflight_failure exc) e

    attempt-Verdict :
        (s : RuntimeSnapshot R) (i : AiIntent R) (size : SizeResult R) (e : E)
        → Verdict (verdicts (attempt p s i size e).rows)
    unfolding attempt verdicts
    attempt-Verdict s i size e = preflighted-Judged s i size (p.preflight s i size e)

    module _ ⦃lib : Library R⦄ where
      manage-Verdict :
          (s : RuntimeSnapshot R) (i : AiIntent R) (e : E)
          → Verdict (verdicts (manage p s i e).rows)
      unfolding manage verdicts
      manage-Verdict s i e = attempt-Verdict s i _ e

      open_sized-Verdict :
          (s : RuntimeSnapshot R) (i : AiIntent R) (o : Option (PositionSizeResult R)) (e : E)
          → Verdict (verdicts (open_sized p s i o e).rows)
      unfolding open_sized verdicts
      open_sized-Verdict s i none e = not_tried
      open_sized-Verdict s i (some r) e =
          if_both (λ (o : Outcome R E). Verdict (verdicts o.rows)) r.accepted
            {x = attempt p s i (sized r) e}
            {y = go_on s (text_or r.rejection_reason "risk guard rejected") risk_rejected e}
            (λ _. attempt-Verdict s i (sized r) e) (λ _. not_tried)

      act-Verdict :
          (a : DecisionAction) (s : RuntimeSnapshot R) (i : AiIntent R) (e : E)
          → Verdict (verdicts (act p a s i e).rows)
      unfolding act halted verdicts
      act-Verdict no_trade s i e = not_tried
      act-Verdict halt s i e = not_tried
      act-Verdict open_trade s i e =
          open_sized-Verdict s i (compute_position_size (position_request s i)) e
      act-Verdict add s i e = manage-Verdict s i e
      act-Verdict reduce s i e = manage-Verdict s i e
      act-Verdict close s i e = manage-Verdict s i e
      act-Verdict cancel_pending s i e = manage-Verdict s i e

      decision-Verdict :
          (s : RuntimeSnapshot R) (c : Called (AiIntent R) E)
          → Verdict (verdicts (decision p s c).rows)
      unfolding decision after_decision verdicts
      decision-Verdict s (returned i e) = act-Verdict i.action s i e
      decision-Verdict s (raised exc e) = act-Verdict _ s _ e

      seen-Verdict : (c : Called (RuntimeSnapshot R) E) → Verdict (verdicts (seen p c).rows)
      unfolding seen after_snapshot halted verdicts
      seen-Verdict (raised exc e) = not_tried
      seen-Verdict (returned s e) =
          elim (Bool-cases (account_fingerprint_changed p.expected_fingerprint s.fingerprint)) [
            | inl changed ↦ rw changed not_tried
            | inr same ↦ rw same (decision-Verdict s (p.decide s e))
          ]

      -- Whatever the calls of a cycle return and whichever of them raise, the store has no order row of
      -- it, or those of one attempt with its verdict: its intent and the refusal of the guard, its
      -- intent and a check of another status than PRECHECK_OK, or its intent, a check that is
      -- PRECHECK_OK and the execution, as a fill for the statuses of an outcome and as sent for others.
      pub run_cycle-Verdict :
          (performance : SessionPerformance R) (e : E)
          → Verdict (verdicts (run_cycle p performance e).rows)
      unfolding run_cycle halted verdicts
      run_cycle-Verdict performance e =
          elim (Bool-cases (evaluate_stop_policy p.stop_policy performance).should_halt) [
            | inl stops ↦ rw stops not_tried
            | inr goes ↦ rw goes (seen-Verdict (p.get_snapshot e))
          ]
