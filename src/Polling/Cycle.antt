-- ===== src/Polling/Cycle.antt =====
-- `run_cycle` of bot_ea/polling_runtime.py up to the attempt of an order, over the risk engine and the
-- stop policy of the other modules.
use Prim.Native.String.{◌++◌}
use bot_ea.Base.{
  Bool, true, false, not, ◌&&◌, Option, none, some, String, [], str_eq, if◌then◌else◌,
}
use bot_ea.Base.Number.{Number, ◌≤R◌, zero_R}
use bot_ea.Base.Library.{Library}
use bot_ea.Base.Calls.{Called, returned, raised}
use bot_ea.Risk.Models.{PositionSizeRequest, PositionSizeResult}
use bot_ea.Risk.Size.{compute_position_size}
use bot_ea.Session.Stop.{session_timeout, SessionPerformance, evaluate_stop_policy}
use bot_ea.Polling.Models.{
  DecisionAction, no_trade, open_trade, add, reduce, close, cancel_pending, halt, Fingerprint,
  RuntimeSnapshot, AiIntent, LifecycleSize, sized, lifecycle, StopCode, because, account_changed,
  Detail, of_reason, said, decided, risk_rejected, RiskGuardRow, cycle_started, stop_event,
  run_halted, market_snapshot, ai_decision, risk_guard, finished, failed, Outcome, PollingRuntime,
}
use bot_ea.Polling.Report.{text_or, number_or, write, end_with, go_on, attempt}

-- `actual != expected`
abbrev pub same_fingerprint : Fingerprint → Fingerprint → Bool
same_fingerprint a b =
    str_eq a.login b.login && str_eq a.server b.server && str_eq a.broker b.broker

-- `_account_fingerprint_changed`
unfoldable pub account_fingerprint_changed : Option Fingerprint → Option Fingerprint → Bool
account_fingerprint_changed none actual = false
account_fingerprint_changed (some expected) none = false
account_fingerprint_changed (some expected) (some actual) = not (same_fingerprint actual expected)

-- `if x: ...` on a text of the configuration.
abbrev pub fallback_action : String → DecisionAction
fallback_action mode = if str_eq mode "NO_TRADE" then no_trade else halt

module _ {R E : Type 0} where
  -- `record_stop_event`, `update_run_status` and the return of a cycle that halts.
  unfoldable pub halted :
      StopCode → Bool → Detail → Detail → Option (RuntimeSnapshot R) → E → Outcome R E
  halted code hard detail told s e = write (stop_event code hard detail) (
      write (run_halted code) (
        end_with
          (finished (record { halted = true; detail = told; action = decided halt; snapshot = s }))
          e))

module _ {R : Type 0} ⦃num : Number R⦄ ⦃lib : Library R⦄ where
  -- The intent that stands in for a decision engine that raises.
  abbrev pub fallback_intent : String → String → AiIntent R
  fallback_intent mode exc = record {
    action = fallback_action mode;
    side = none;
    confidence = none;
    reason = some ("decision engine failure: " ++ exc);
    stop_distance_points = none;
    entry_price = none;
    volume = none;
    position_volume = none;
    position_ticket = none;
  }

  -- `float(payload.get("volume") or payload.get("position_volume") or 0.0)`
  abbrev pub payload_volume : AiIntent R → R
  payload_volume i = number_or i.volume (number_or i.position_volume zero_R)

  unfoldable pub lifecycle_volume : DecisionAction → R → R
  lifecycle_volume cancel_pending volume = zero_R
  lifecycle_volume add volume = if volume ≤R zero_R then lib.literal 1 2 else volume
  lifecycle_volume _ volume = volume

  -- `_lifecycle_size_result`
  unfoldable pub lifecycle_size : RuntimeSnapshot R → AiIntent R → LifecycleSize R
  unfolding lifecycle_volume
  lifecycle_size s i = record {
    capital_base_cash = s.account.equity;
    normalized_volume = lifecycle_volume i.action (payload_volume i);
    stop_distance_points = number_or i.stop_distance_points s.stop_distance_points;
  }

  abbrev pub lifecycle_row : LifecycleSize R → RiskGuardRow R
  lifecycle_row r = record {
    allowed = true;
    mode = none;
    rejection_reason = none;
    normalized_volume = r.normalized_volume;
    risk_cash_budget = zero_R;
    warnings = [];
  }

  abbrev pub risk_row : PositionSizeResult R → RiskGuardRow R
  risk_row r = record {
    allowed = r.accepted;
    mode = some r.mode;
    rejection_reason = r.rejection_reason;
    normalized_volume = r.normalized_volume;
    risk_cash_budget = r.risk_cash_budget;
    warnings = r.warnings;
  }

  abbrev pub position_request : RuntimeSnapshot R → AiIntent R → PositionSizeRequest R
  position_request s i = record {
    account = s.account;
    symbol = s.symbol_snapshot;
    policy = s.risk_policy;
    stop_distance_points = number_or i.stop_distance_points s.stop_distance_points;
    trading_style = s.trading_style;
    capital_allocation = s.capital_allocation;
    force_symbol = false;
    requested_mode = none;
  }

  module _ {E : Type 0} (p : PollingRuntime R E) where
    -- What follows the sizing of an OPEN; `none` is the exception of `math.floor`.
    unfoldable pub open_sized :
        RuntimeSnapshot R → AiIntent R → Option (PositionSizeResult R) → E → Outcome R E
    open_sized s i none e = end_with failed e
    open_sized s i (some r) e = write (risk_guard (risk_row r)) (
        if r.accepted
        then attempt p s i (sized r) e
        else go_on s (text_or r.rejection_reason "risk guard rejected") risk_rejected e)

    -- The attempt that changes an order or a position that is there.
    unfoldable pub manage : RuntimeSnapshot R → AiIntent R → E → Outcome R E
    manage s i e =
        write (risk_guard (lifecycle_row (lifecycle_size s i)))
          (attempt p s i (lifecycle (lifecycle_size s i)) e)

    unfoldable pub act : DecisionAction → RuntimeSnapshot R → AiIntent R → E → Outcome R E
    act no_trade s i e = go_on s (text_or i.reason "no trade") (decided no_trade) e
    act halt s i e =
        halted (because session_timeout) false (said (text_or i.reason "AI requested halt"))
          (said (text_or i.reason "halted")) (some s) e
    act open_trade s i e = open_sized s i (compute_position_size (position_request s i)) e
    act add s i e = manage s i e
    act reduce s i e = manage s i e
    act close s i e = manage s i e
    act cancel_pending s i e = manage s i e

    unfoldable pub after_decision : RuntimeSnapshot R → AiIntent R → E → Outcome R E
    after_decision s i e = write (ai_decision i) (act i.action s i e)

    -- A decision engine that raises is replaced by the fallback.
    unfoldable pub decision : RuntimeSnapshot R → Called (AiIntent R) E → Outcome R E
    decision s (returned i e) = after_decision s i e
    decision s (raised exc e) = after_decision s (fallback_intent p.fallback_mode exc) e

    unfoldable pub after_snapshot : RuntimeSnapshot R → E → Outcome R E
    after_snapshot s e = write (market_snapshot s) (
        if account_fingerprint_changed p.expected_fingerprint s.fingerprint
        then halted account_changed true
            (said
              "account fingerprint changed during runtime; review akun baru sebelum melanjutkan trading")
            (said
              "account fingerprint changed during runtime; review akun baru sebelum melanjutkan trading")
            (some s) e
        else decision s (p.decide s e))

    unfoldable pub seen : Called (RuntimeSnapshot R) E → Outcome R E
    seen (returned s e) = after_snapshot s e
    seen (raised exc e) = end_with failed e

    -- `run_cycle`
    unfoldable pub run_cycle : SessionPerformance R → E → Outcome R E
    run_cycle performance e =
        let stop = evaluate_stop_policy p.stop_policy performance in
        write cycle_started (
          if stop.should_halt
          then halted (because stop.reason) true (of_reason stop.reason) (of_reason stop.reason)
              none e
          else seen (p.get_snapshot e))
