-- ===== src/Examples/Risk.antt =====
-- The risk engine of bot_ea on a concrete account, in whole numbers.
use bot_ea.Base.{◌≤◌, ◌≡◌, refl, true, false, none, some, ◌/◌, ◌^◌, ℕ, zero, suc, [], ◌∷◌, arith}
use bot_ea.Base.Int.{ℤ, pos, negsuc, leb_ℤ}
use bot_ea.Base.Library.{Library}
use bot_ea.Base.Choices.{all_of}
use bot_ea.Risk.Models.{
  intraday, strict, AccountSnapshot, SymbolSnapshot, RiskPolicy, PositionSizeRequest,
  PositionSizeResult, fixed_cash,
}
use bot_ea.Risk.Size.{
  compute_position_size, capital_base_cash, base_budget, remaining_daily, remaining_open,
}
use bot_ea.Risk.Suitability.{assess_suitability}
use bot_ea.Risk.Guard.{evaluate_execution_guards}
use bot_ea.Risk.Accepted.{accepts, acceptance, accepts_exactly}
use bot_ea.Risk.Results.{Holds, results_hold}
use bot_ea.Risk.Budget.{IsTotal, IsShare}
use bot_ea.Risk.Gates.{spread_fits, modes_fit, guards_exact}
use bot_ea.Examples.Numbers.{integers}

-- Whole numbers: a literal is cut, and nothing is left to round.
instance unfoldable pub whole : Library ℤ
whole = record {
  literal = λ n k. pos (n / 10 ^ k);
  infinity = pos 1000000;
  floor = λ x. some x;
  round = λ x _. x;
  fixed = λ _ _. "n";
  upper = λ s. s;
  lower = λ s. s;
  is_digits = λ _. false;
}

abbrev pub account : AccountSnapshot ℤ
account = record {
  equity = pos 5000;
  balance = pos 5000;
  free_margin = pos 10000;
  margin_level = pos 0;
  trade_allowed = true;
  trade_expert = true;
  current_open_risk_pct = pos 0;
  daily_realized_loss_pct = pos 0;
  positions_total = pos 0;
}

abbrev pub gold : SymbolSnapshot ℤ
gold = record {
  name = "XAUUSD";
  instrument_class = "metal";
  risk_weight = pos 1;
  point = pos 1;
  tick_size = pos 1;
  tick_value = pos 1;
  volume_min = pos 1;
  volume_max = pos 100;
  volume_step = pos 1;
  spread_points = pos 2;
  stops_level_points = pos 5;
  freeze_level_points = pos 0;
  trade_mode = "full";
  order_mode = "market";
  execution_mode = "";
  filling_mode = "";
  quote_session_active = true;
  trade_session_active = true;
  trade_allowed = true;
  volatility_points = none;
  price = none;
  bid = none;
  ask = none;
  contract_size = none;
  margin_rate = none;
}

abbrev pub policy : RiskPolicy ℤ
policy = record {
  base_risk_pct = pos 100;
  max_total_open_risk_pct = pos 300;
  daily_loss_limit_pct = pos 400;
  caution_risk_multiplier = pos 1;
  strict_risk_multiplier = pos 1;
  caution_spread_to_volatility_ratio = pos 1;
  strict_spread_to_volatility_ratio = pos 2;
  caution_margin_buffer_ratio = pos 1;
  strict_margin_buffer_ratio = pos 0;
  small_equity_threshold = pos 1000;
  caution_risk_weight = pos 2;
  strict_risk_weight = pos 3;
  min_allocated_capital_cash = pos 25;
  min_effective_risk_cash = pos 1;
}

abbrev pub request : PositionSizeRequest ℤ
request = record {
  account = account;
  symbol = gold;
  policy = policy;
  stop_distance_points = pos 100;
  trading_style = intraday;
  capital_allocation = some (record { mode = fixed_cash; value = pos 2000 });
  force_symbol = false;
  requested_mode = none;
}

runs : accepts (compute_position_size request) ≡ true
unfolding compute_position_size whole integers capital_base_cash
    bot_ea.Risk.Allocation.evaluate_allocation bot_ea.Risk.Allocation.hard_floor_of
    bot_ea.Risk.Tables.style_max_risk_pct bot_ea.Risk.Tables.minimum_practical_risk_cash
    bot_ea.Risk.Tables.recommended_minimum_allocation bot_ea.Risk.Size.size_in_mode
    bot_ea.Risk.Size.risk_cash_budget bot_ea.Risk.Size.effective_risk_pct assess_suitability
    bot_ea.Risk.Suitability.spread_to_volatility_ratio bot_ea.Risk.Suitability.margin_buffer_ratio
    bot_ea.Risk.Suitability.ratio bot_ea.Risk.Size.loss_per_lot_of bot_ea.Risk.Size.normalize_volume
runs = refl

abbrev pub result : PositionSizeResult ℤ
result = record {
  accepted = true;
  mode = strict;
  capital_base_cash = pos 2000;
  recommended_minimum_allocation_cash = pos 250;
  effective_risk_pct = pos 100;
  risk_cash_budget = pos 2000;
  normalized_volume = pos 20;
  estimated_loss_cash = pos 2000;
  stop_distance_points = pos 100;
  rejection_reason = none;
  warnings = "operating mode downgraded to strict" ∷ [];
  raw_volume = pos 20;
  loss_per_lot = pos 100;
  volume_min = pos 1;
  volume_max = pos 100;
  volume_step = pos 1;
}

pub request_is_sized : compute_position_size request ≡ some result
unfolding compute_position_size whole integers capital_base_cash
    bot_ea.Risk.Allocation.evaluate_allocation bot_ea.Risk.Allocation.hard_floor_of
    bot_ea.Risk.Tables.style_max_risk_pct bot_ea.Risk.Tables.minimum_practical_risk_cash
    bot_ea.Risk.Tables.recommended_minimum_allocation bot_ea.Risk.Size.size_in_mode
    bot_ea.Risk.Size.risk_cash_budget bot_ea.Risk.Size.effective_risk_pct assess_suitability
    bot_ea.Risk.Suitability.spread_to_volatility_ratio bot_ea.Risk.Suitability.margin_buffer_ratio
    bot_ea.Risk.Suitability.ratio bot_ea.Risk.Size.loss_per_lot_of bot_ea.Risk.Size.normalize_volume
request_is_sized = refl

pub integers-IsTotal : IsTotal ℤ
unfolding integers
integers-IsTotal = record {
  le_refl = λ a. ground arith;
  le_trans = λ a b c p q. ground arith;
  not_lt = λ a b p. ground arith;
  not_le = λ a b p. ground arith;
  lt_le = λ a b p. ground arith;
}

times : (e k : ℕ) → k ≤ 1 → leb_ℤ (integers.mul (pos e) (pos k)) (pos e) ≡ true
unfolding integers
times e zero h = ground arith
times e (suc zero) h = ground arith
times e (suc (suc k)) h = absurd (omega arith)

share_ℤ :
    (e p : ℤ)
    → leb_ℤ (pos 0) e ≡ true
    → leb_ℤ (pos 0) p ≡ true
    → leb_ℤ p (pos 100) ≡ true
    → leb_ℤ (integers.mul e (integers.div p (pos 100))) e ≡ true
unfolding integers
share_ℤ (pos e) (pos p) h k l = times e (p / 100) (ground arith)
share_ℤ (pos e) (negsuc p) h k l = ground arith
share_ℤ (negsuc e) p h k l = ground arith

integers-IsShare : IsShare ℤ
unfolding integers
integers-IsShare = record { hundred = refl; share = share_ℤ }

accepts_exactly_example : accepts (compute_position_size request) ≡ all_of (acceptance request)
accepts_exactly_example = accepts_exactly request

results_hold_example : Holds request result
results_hold_example = results_hold request result request_is_sized

guards_exact_example :
    (evaluate_execution_guards account gold policy strict (pos 100)).allowed
    ≡ all_of (
        true
        ∷ true
        ∷ true
        ∷ true
        ∷ true
        ∷ true
        ∷ true
        ∷ true
        ∷ modes_fit gold
        ∷ spread_fits gold policy strict none
        ∷ [])
unfolding integers
guards_exact_example = guards_exact account gold policy strict (pos 100)
