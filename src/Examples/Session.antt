-- ===== src/Examples/Session.antt =====
-- The stop policy of bot_ea on a concrete session.
use bot_ea.Base.{◌≡◌, refl, none, some}
use bot_ea.Base.Int.{ℤ, pos, negsuc}
use bot_ea.Session.Stop.{loss_limit, StopPolicy, SessionPerformance, evaluate_stop_policy}
use bot_ea.Session.Halt.{any_of, first_reason, reached_limits, halts_exactly}
use bot_ea.Examples.Numbers.{integers}

abbrev policy : StopPolicy ℤ
policy = record {
  profit_target_cash = some (pos 100);
  loss_limit_cash = some (pos 50);
  max_drawdown_cash = none;
  max_consecutive_losses = some (pos 3);
  max_trades = none;
  max_runtime_minutes = none;
  min_remaining_allocation_cash = some (pos 10);
}

abbrev session : SessionPerformance ℤ
session = record {
  realized_pnl_cash = negsuc 59;
  peak_pnl_cash = pos 0;
  consecutive_losses = pos 4;
  trades_count = pos 9;
  elapsed_minutes = pos 30;
  remaining_allocation_cash = none;
}

stops_for_loss : (evaluate_stop_policy policy session).reason ≡ loss_limit
unfolding evaluate_stop_policy integers
stops_for_loss = refl

halts_exactly_example :
    ((evaluate_stop_policy policy session).should_halt ≡ any_of (reached_limits policy session))
    × ((evaluate_stop_policy policy session).reason ≡ first_reason (reached_limits policy session))
    × ((evaluate_stop_policy policy session).hard_stop
        ≡ (evaluate_stop_policy policy session).should_halt)
halts_exactly_example = halts_exactly policy session
