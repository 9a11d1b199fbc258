-- ===== src/Examples/Polling.antt =====
-- A cycle of the polling runtime on a concrete account, in whole numbers. The world counts the calls
-- of the execution runtime.
use bot_ea.Base.{◌≡◌, ◌∙◌, ap, refl, true, none, some, ◌+◌, ℕ}
use bot_ea.Base.Int.{ℤ, pos}
use bot_ea.Base.Calls.{returned}
use bot_ea.Risk.Size.{compute_position_size}
use bot_ea.Risk.Models.{intraday, fixed_cash}
use bot_ea.Session.Stop.{SessionPerformance}
use bot_ea.Polling.Models.{
  open_trade, number, Fingerprint, RuntimeSnapshot, AiIntent, PreflightResult, ExecutionResult,
  PollingRuntime,
}
use bot_ea.Polling.Report.{intended_price}
use bot_ea.Polling.Cycle.{open_sized, position_request, run_cycle}
use bot_ea.Polling.Verdict.{phases, verdicts, Verdict, run_cycle-Verdict}
use bot_ea.Polling.Halting.{Agrees, run_cycle-Agrees}
use bot_ea.Polling.Cleared.{executes, Cleared, run_cycle-Cleared}
use bot_ea.Polling.Exposure.{Bounded, run_cycle-Bounded}
use bot_ea.Examples.Numbers.{integers}
use bot_ea.Examples.Exact.{integers-IsExact}
use bot_ea.Examples.Risk.{whole, account, gold, policy, result, request_is_sized, integers-IsTotal}

abbrev demo : Fingerprint
demo = record { login = "7"; server = "Demo"; broker = "B" }

abbrev seen : RuntimeSnapshot ℤ
seen = record {
  symbol = "XAUUSD";
  timeframe = "M5";
  bid = pos 2000;
  ask = pos 2002;
  spread_points = pos 2;
  account = account;
  symbol_snapshot = gold;
  risk_policy = policy;
  trading_style = intraday;
  stop_distance_points = pos 100;
  capital_allocation = some (record { mode = fixed_cash; value = pos 2000 });
  session_state = "open";
  news_state = "clear";
  fingerprint = some demo;
}

abbrev buy : AiIntent ℤ
buy = record {
  action = open_trade;
  side = some "buy";
  confidence = none;
  reason = some "breakout";
  stop_distance_points = none;
  entry_price = some (pos 2001);
  volume = none;
  position_volume = none;
  position_ticket = none;
}

abbrev approved : PreflightResult ℤ
approved = record {
  status = some "PRECHECK_OK";
  retcode = some "0";
  detail = none;
  request_price = some (pos 2002);
}

abbrev filled : ExecutionResult ℤ
filled = record {
  status = some "FILLED";
  retcode = some "10009";
  detail = none;
  order = some (number (pos 11));
  deal = some (number (pos 12));
  position_ticket = none;
  request_ticket = none;
  realized_price = some (some (pos 2002));
  price = none;
  quoted_price = some (pos 2002);
  volume = none;
  slippage_points = some (pos 0);
  fill_latency_ms = none;
  commission_cash = none;
  swap_cash = none;
}

abbrev runtime : PollingRuntime ℤ ℕ
runtime = record {
  stop_policy = record {
    profit_target_cash = none;
    loss_limit_cash = none;
    max_drawdown_cash = none;
    max_consecutive_losses = some (pos 3);
    max_trades = none;
    max_runtime_minutes = none;
    min_remaining_allocation_cash = none;
  };
  fallback_mode = "HALT";
  expected_fingerprint = some demo;
  get_snapshot = λ e. returned seen e;
  decide = λ _ e. returned buy e;
  preflight = λ _ _ _ e. returned approved e;
  execute = λ _ _ _ _ e. returned filled (e + 1);
}

abbrev quiet : SessionPerformance ℤ
quiet = record {
  realized_pnl_cash = pos 0;
  peak_pnl_cash = pos 0;
  consecutive_losses = pos 0;
  trades_count = pos 0;
  elapsed_minutes = pos 5;
  remaining_allocation_cash = none;
}

order_executes : executes (open_sized runtime seen buy (some result) 0).rows ≡ true
unfolding open_sized phases bot_ea.Polling.Report.attempt bot_ea.Polling.Report.preflighted
    bot_ea.Polling.Report.checked bot_ea.Polling.Report.preflight_row
    bot_ea.Polling.Report.after_preflight bot_ea.Polling.Report.executed
    bot_ea.Polling.Report.report bot_ea.Polling.Report.execution_row
order_executes = refl

sized_executes :
    executes
      (open_sized runtime seen buy (compute_position_size (position_request seen buy)) 0).rows
    ≡ true
unfolding integers
sized_executes =
    ap (λ o. executes (open_sized runtime seen buy o 0).rows) request_is_sized ∙ order_executes

cycle_executes : executes (run_cycle runtime quiet 0).rows ≡ true
unfolding run_cycle phases bot_ea.Session.Stop.evaluate_stop_policy open_sized
    bot_ea.Polling.Cycle.seen compute_position_size bot_ea.Polling.Cycle.after_snapshot integers
    bot_ea.Polling.Cycle.account_fingerprint_changed bot_ea.Risk.Size.capital_base_cash
    bot_ea.Polling.Cycle.decision bot_ea.Risk.Allocation.evaluate_allocation
    bot_ea.Risk.Allocation.hard_floor_of whole bot_ea.Risk.Tables.style_max_risk_pct
    bot_ea.Risk.Tables.minimum_practical_risk_cash bot_ea.Polling.Cycle.after_decision
    bot_ea.Risk.Tables.recommended_minimum_allocation bot_ea.Polling.Cycle.act
    bot_ea.Risk.Size.size_in_mode
cycle_executes = sized_executes

run_cycle-Verdict_example : Verdict (verdicts (run_cycle runtime quiet 0).rows)
run_cycle-Verdict_example = run_cycle-Verdict runtime quiet 0

run_cycle-Agrees_example : Agrees (run_cycle runtime quiet 0)
run_cycle-Agrees_example = run_cycle-Agrees runtime quiet 0

run_cycle-Cleared_example : Cleared runtime quiet 0 (run_cycle runtime quiet 0).world
run_cycle-Cleared_example = run_cycle-Cleared runtime quiet 0 cycle_executes

run_cycle-Bounded_example :
    (c : Cleared runtime quiet 0 (run_cycle runtime quiet 0).world) × Bounded c.snapshot c.order
      c.ordered.size
run_cycle-Bounded_example =
    run_cycle-Bounded integers-IsTotal integers-IsExact runtime quiet 0 cycle_executes

-- The price that an order states is recorded for a BUY only.
abbrev sell : AiIntent ℤ
sell = record buy { side = some "sell" }

price_of_buy : intended_price seen buy ≡ pos 2001
unfolding intended_price integers
price_of_buy = refl

price_of_sell : intended_price seen sell ≡ pos 2000
unfolding intended_price integers
price_of_sell = refl
