-- ===== src/Risk/Models.antt =====
-- The records of bot_ea/models.py that the risk engine and the execution guards read. Floats are a
-- `Number`.
use bot_ea.Base.{Bool, Option, String, List}
use bot_ea.Base.Int.{ℤ}

pub data TradingStyle : Type 0 where
  scalping intraday swing : TradingStyle

pub data OperatingMode : Type 0 where
  recommend caution strict : OperatingMode

pub data CapitalAllocationMode : Type 0 where
  full_equity percent_equity fixed_cash : CapitalAllocationMode

pub record AccountSnapshot (R : Type 0) : Type 0 where
  pub equity : R
  pub balance : R
  pub free_margin : R
  pub margin_level : R
  pub trade_allowed : Bool
  pub trade_expert : Bool
  pub current_open_risk_pct : R
  pub daily_realized_loss_pct : R
  pub positions_total : ℤ

pub record SymbolSnapshot (R : Type 0) : Type 0 where
  pub name : String
  pub instrument_class : String
  pub risk_weight : R
  pub point : R
  pub tick_size : R
  pub tick_value : R
  pub volume_min : R
  pub volume_max : R
  pub volume_step : R
  pub spread_points : R
  pub stops_level_points : R
  pub freeze_level_points : R
  pub trade_mode : String
  pub order_mode : String
  pub execution_mode : String
  pub filling_mode : String
  pub quote_session_active : Bool
  pub trade_session_active : Bool
  pub trade_allowed : Bool
  pub volatility_points : Option R
  pub price : Option R
  pub bid : Option R
  pub ask : Option R
  pub contract_size : Option R
  pub margin_rate : Option R

pub record RiskPolicy (R : Type 0) : Type 0 where
  pub base_risk_pct : R
  pub max_total_open_risk_pct : R
  pub daily_loss_limit_pct : R
  pub caution_risk_multiplier : R
  pub strict_risk_multiplier : R
  pub caution_spread_to_volatility_ratio : R
  pub strict_spread_to_volatility_ratio : R
  pub caution_margin_buffer_ratio : R
  pub strict_margin_buffer_ratio : R
  pub small_equity_threshold : R
  pub caution_risk_weight : R
  pub strict_risk_weight : R
  pub min_allocated_capital_cash : R
  pub min_effective_risk_cash : R

pub record CapitalAllocation (R : Type 0) : Type 0 where
  pub mode : CapitalAllocationMode
  pub value : R

pub record SuitabilityAssessment : Type 0 where
  pub mode : OperatingMode
  pub reasons : List String
  pub warnings : List String

pub record PositionSizeRequest (R : Type 0) : Type 0 where
  pub account : AccountSnapshot R
  pub symbol : SymbolSnapshot R
  pub policy : RiskPolicy R
  pub stop_distance_points : R
  pub trading_style : TradingStyle
  pub capital_allocation : Option (CapitalAllocation R)
  pub force_symbol : Bool
  pub requested_mode : Option OperatingMode

pub record PositionSizeResult (R : Type 0) : Type 0 where
  pub accepted : Bool
  pub mode : OperatingMode
  pub capital_base_cash : R
  pub recommended_minimum_allocation_cash : R
  pub effective_risk_pct : R
  pub risk_cash_budget : R
  pub normalized_volume : R
  pub estimated_loss_cash : R
  pub stop_distance_points : R
  pub rejection_reason : Option String
  pub warnings : List String
  pub raw_volume : R
  pub loss_per_lot : R
  pub volume_min : R
  pub volume_max : R
  pub volume_step : R

pub record GateCheck : Type 0 where
  pub name : String
  pub passed : Bool
  pub detail : String

pub record ExecutionGateResult : Type 0 where
  pub allowed : Bool
  pub checks : List GateCheck

-- `mode.value` and `trading_style.value`
abbrev pub mode_value : OperatingMode → String
mode_value recommend = "recommend"
mode_value caution = "caution"
mode_value strict = "strict"

abbrev pub style_value : TradingStyle → String
style_value scalping = "scalping"
style_value intraday = "intraday"
style_value swing = "swing"
