-- ===== src/Risk/Guard.antt =====
-- `evaluate_execution_guards` of bot_ea/execution_guard.py: the checks before an order is sent.
use Prim.Native.String.{◌++◌ as append}
use bot_ea.Base.{
  Bool, true, not, ◌&&◌, ◌||◌, Option, none, some, String, List, [], ◌∷◌, ◌++◌, if◌then◌else◌,
  is_empty, one_of,
}
use bot_ea.Base.Number.{Number, ◌/R◌, ◌<R◌, ◌≤R◌, ◌=R◌, zero_R}
use bot_ea.Base.Library.{Library, contains}
use bot_ea.Risk.Models.{
  OperatingMode, recommend, caution, strict, AccountSnapshot, SymbolSnapshot, RiskPolicy, GateCheck,
  ExecutionGateResult,
}

-- A check whose detail depends on its outcome.
abbrev pub check : String → Bool → String → String → GateCheck
check n ok good bad = record { name = n; passed = ok; detail = if ok then good else bad }

-- `all(check.passed for check in checks)`
unfoldable pub all_passed : List GateCheck → Bool
all_passed [] = true
all_passed (c ∷ cs) = c.passed && all_passed cs

abbrev pub opens_positions : String → Bool
opens_positions mode = not (one_of mode ("disabled" ∷ "closeonly" ∷ []))

-- The second argument is `order_mode.isdigit()`.
abbrev pub takes_market_orders : String → Bool → Bool
takes_market_orders mode is_number = contains mode "market" || is_number

module _ {R : Type 0} ⦃num : Number R⦄ where
  -- The ratio that a mode allows.
  abbrev pub allowed_ratio : RiskPolicy R → OperatingMode → R
  allowed_ratio p recommend = p.strict_spread_to_volatility_ratio
  allowed_ratio p caution = p.caution_spread_to_volatility_ratio
  allowed_ratio p strict = p.strict_spread_to_volatility_ratio

  -- `points and points > 0`
  abbrev pub is_volatile : R → Bool
  is_volatile v = not (v =R zero_R) && (zero_R <R v)

  abbrev pub sessions_active : SymbolSnapshot R → Bool
  sessions_active s = s.quote_session_active && s.trade_session_active

  module _ ⦃lib : Library R⦄ where
    unfoldable pub account_checks :
        AccountSnapshot R → SymbolSnapshot R → RiskPolicy R → R → List GateCheck
    account_checks a s p stop =
        check "account_trade_allowed" a.trade_allowed "account trading allowed"
          "account trading disabled"
        ∷ check "account_trade_expert" a.trade_expert "expert trading allowed"
            "expert trading disabled"
        ∷ check "trade_allowed" s.trade_allowed "symbol is trade-allowed" "symbol trading disabled"
        ∷ check "session_active" (sessions_active s) "quote and trade sessions active"
            "quote or trade session inactive"
        ∷ check "stop_level" (s.stops_level_points ≤R stop)
            "stop distance satisfies broker stop level" "stop distance below broker stop level"
        ∷ check "daily_loss" (a.daily_realized_loss_pct <R p.daily_loss_limit_pct)
            "daily loss below limit" "daily loss limit hit"
        ∷ check "open_risk" (a.current_open_risk_pct <R p.max_total_open_risk_pct)
            "open risk below cap" "open risk cap hit"
        ∷ []

    unfoldable pub trade_mode_checks : SymbolSnapshot R → List GateCheck
    trade_mode_checks s =
        let mode = lib.lower s.trade_mode in
        if is_empty mode
        then []
        else check "trade_mode_supported" (opens_positions mode)
            "trade mode allows opening positions"
            (append "trade mode " (append mode " blocks opening positions"))
          ∷ []

    unfoldable pub order_mode_checks : SymbolSnapshot R → List GateCheck
    order_mode_checks s =
        let mode = lib.lower s.order_mode in
        if is_empty mode
        then []
        else check "market_order_capability" (takes_market_orders mode (lib.is_digits mode))
            "market order capability available"
            (append "order mode " (append mode " does not expose market orders"))
          ∷ []

    abbrev pub ratio_text : String → R → R → String
    ratio_text verb ratio cap =
        append "spread ratio "
          (append (lib.fixed ratio 3) (append verb (append " cap " (lib.fixed cap 3))))

    abbrev pub spread_check :
        SymbolSnapshot R → RiskPolicy R → OperatingMode → Option R → List GateCheck
    spread_check s p m none = []
    spread_check s p m (some v) =
        if is_volatile v
        then check "spread_efficiency" ((s.spread_points /R v) ≤R allowed_ratio p m)
            (ratio_text " within" (s.spread_points /R v) (allowed_ratio p m))
            (ratio_text " exceeds" (s.spread_points /R v) (allowed_ratio p m))
          ∷ []
        else []

    unfoldable pub spread_checks : SymbolSnapshot R → RiskPolicy R → OperatingMode → List GateCheck
    spread_checks s p m = spread_check s p m s.volatility_points

    unfoldable pub guard_checks :
        AccountSnapshot R → SymbolSnapshot R → RiskPolicy R → OperatingMode → R → List GateCheck
    guard_checks a s p m stop =
        account_checks a s p stop
        ++ (trade_mode_checks s ++ (order_mode_checks s ++ spread_checks s p m))

    -- `evaluate_execution_guards`
    unfoldable pub evaluate_execution_guards :
        AccountSnapshot R
        → SymbolSnapshot R
        → RiskPolicy R
        → OperatingMode
        → R
        → ExecutionGateResult
    unfolding guard_checks
    evaluate_execution_guards a s p m stop =
        let checks = guard_checks a s p m stop in
        record { allowed = all_passed checks; checks = checks }
