-- ===== src/Polling/Models.antt =====
-- The records of bot_ea/polling_runtime.py, with what it reads of the dicts of its execution runtime,
-- and the rows that a cycle adds to the runtime store. Tickets are kept as they are, without `str`;
-- the identifiers and times of rows are left out.
use bot_ea.Base.{Bool, Option, String, List}
use bot_ea.Base.Int.{ℤ}
use bot_ea.Base.Calls.{Called}
use bot_ea.Risk.Models.{
  TradingStyle, OperatingMode, AccountSnapshot, SymbolSnapshot, RiskPolicy, CapitalAllocation,
  PositionSizeResult,
}
use bot_ea.Session.Stop.{StopReason, StopPolicy}

pub data DecisionAction : Type 0 where
  no_trade open_trade add reduce close cancel_pending halt : DecisionAction

-- A ticket is an integer or a text.
pub data Ticket : Type 0 where
  number : ℤ → Ticket
  text : String → Ticket

-- The parts of an account fingerprint that are compared, as `str(value or "")`.
pub record Fingerprint : Type 0 where
  pub login : String
  pub server : String
  pub broker : String

-- `fingerprint`: the one in the context, if it is a dict.
pub record RuntimeSnapshot (R : Type 0) : Type 0 where
  pub symbol : String
  pub timeframe : String
  pub bid : R
  pub ask : R
  pub spread_points : R
  pub account : AccountSnapshot R
  pub symbol_snapshot : SymbolSnapshot R
  pub risk_policy : RiskPolicy R
  pub trading_style : TradingStyle
  pub stop_distance_points : R
  pub capital_allocation : Option (CapitalAllocation R)
  pub session_state : String
  pub news_state : String
  pub fingerprint : Option Fingerprint

-- Of the payload, what the runtime reads: its `volume`, `position_volume` and `position_ticket`.
pub record AiIntent (R : Type 0) : Type 0 where
  pub action : DecisionAction
  pub side : Option String
  pub confidence : Option R
  pub reason : Option String
  pub stop_distance_points : Option R
  pub entry_price : Option R
  pub volume : Option R
  pub position_volume : Option R
  pub position_ticket : Option Ticket

-- The SimpleNamespace of `_lifecycle_size_result`, without its constants.
pub record LifecycleSize (R : Type 0) : Type 0 where
  pub capital_base_cash : R
  pub normalized_volume : R
  pub stop_distance_points : R

pub data SizeResult (R : Type 0) : Type 0 where
  sized : PositionSizeResult R → SizeResult R
  lifecycle : LifecycleSize R → SizeResult R

-- What the dict of a preflight holds: `none` where a key is missing.
pub record PreflightResult (R : Type 0) : Type 0 where
  pub status : Option String
  pub retcode : Option String
  pub detail : Option String
  pub request_price : Option R

-- What the dict of an execution holds. For `realized_price` and `volume`, a key that is missing
-- (`none`) and a None under it (`some none`) are told apart.
pub record ExecutionResult (R : Type 0) : Type 0 where
  pub status : Option String
  pub retcode : Option String
  pub detail : Option String
  pub order : Option Ticket
  pub deal : Option Ticket
  pub position_ticket : Option Ticket
  pub request_ticket : Option Ticket
  pub realized_price : Option (Option R)
  pub price : Option R
  pub quoted_price : Option R
  pub volume : Option (Option R)
  pub slippage_points : Option R
  pub fill_latency_ms : Option R
  pub commission_cash : Option R
  pub swap_cash : Option R

-- The code and the reason of a stop: those of the stop policy, or a change of the account.
pub data StopCode : Type 0 where
  because : StopReason → StopCode
  account_changed : StopCode

-- A detail text: the stop policy's, which is that of its reason, or another.
pub data Detail : Type 0 where
  of_reason : StopReason → Detail
  said : String → Detail

pub data CycleAction : Type 0 where
  decided : DecisionAction → CycleAction
  risk_rejected execution_guard_rejected precheck_rejected approval_required : CycleAction
  execution_rejected execution_error : CycleAction

-- `snapshot` stands for the payload that is made of it.
pub record PollingCycleResult (R : Type 0) : Type 0 where
  pub halted : Bool
  pub detail : Detail
  pub action : CycleAction
  pub snapshot : Option (RuntimeSnapshot R)

pub record RiskGuardRow (R : Type 0) : Type 0 where
  pub allowed : Bool
  pub mode : Option OperatingMode
  pub rejection_reason : Option String
  pub normalized_volume : R
  pub risk_cash_budget : R
  pub warnings : List String

pub data Phase : Type 0 where
  intent guard precheck fill send : Phase

pub record OrderRow (R : Type 0) : Type 0 where
  pub phase : Phase
  pub status : String
  pub side : Option String
  pub volume : R
  pub price : R
  pub quoted_price : Option R
  pub executed_price : Option R
  pub slippage_points : Option R
  pub fill_latency_ms : Option R
  pub order_ticket : Option Ticket
  pub deal_ticket : Option Ticket
  pub retcode : Option String
  pub detail : String

pub data PositionStatus : Type 0 where
  opened added reduced closed : PositionStatus

pub record PositionRow (R : Type 0) : Type 0 where
  pub broker_position_id : Option Ticket
  pub side : Option String
  pub volume : Option R
  pub status : PositionStatus
  pub entry_price : Option R
  pub exit_price : Option R
  pub commission_cash : Option R
  pub swap_cash : Option R

-- A call of the store that writes.
pub data Row (R : Type 0) : Type 0 where
  cycle_started : Row R
  stop_event : StopCode → Bool → Detail → Row R
  run_halted : StopCode → Row R
  market_snapshot : RuntimeSnapshot R → Row R
  ai_decision : AiIntent R → Row R
  risk_guard : RiskGuardRow R → Row R
  execution_event : OrderRow R → Row R
  position_event : PositionRow R → Row R

-- How a cycle ends: it returns, or an exception leaves it.
pub data Ending (R : Type 0) : Type 0 where
  finished : PollingCycleResult R → Ending R
  failed : Ending R

-- The rows that were written, the ending, and the world that the calls left.
pub record Outcome (R E : Type 0) : Type 0 where
  pub rows : List (Row R)
  pub ending : Ending R
  pub world : E

-- What `PollingRuntime` is built from.
pub record PollingRuntime (R E : Type 0) : Type 0 where
  pub stop_policy : StopPolicy R
  pub fallback_mode : String
  pub expected_fingerprint : Option Fingerprint
  pub get_snapshot : E → Called (RuntimeSnapshot R) E
  pub decide : RuntimeSnapshot R → E → Called (AiIntent R) E
  pub preflight : RuntimeSnapshot R → AiIntent R → SizeResult R → E → Called (PreflightResult R) E
  pub execute :
      RuntimeSnapshot R
      → AiIntent R
      → SizeResult R
      → PreflightResult R
      → E
      → Called (ExecutionResult R) E
