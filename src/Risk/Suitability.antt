-- ===== src/Risk/Suitability.antt =====
-- `assess_suitability` of RiskEngine and the ratios it reads: the operating mode of a trade.
use bot_ea.Base.{
  Bool, true, false, not, ◌&&◌, ◌||◌, Option, none, some, String, List, [], ◌∷◌, ◌++◌,
  if◌then◌else◌, is_empty,
}
use bot_ea.Base.Int.{pos}
use bot_ea.Base.Number.{Number, ◌/R◌, ◌<R◌, ◌≤R◌, ◌=R◌, zero_R, max_R}
use bot_ea.Base.Library.{Library, choose}
use bot_ea.Risk.Models.{
  TradingStyle, OperatingMode, recommend, caution, strict, AccountSnapshot, SymbolSnapshot,
  RiskPolicy, SuitabilityAssessment, mode_value,
}
use bot_ea.Risk.Allocation.{AllocationAssessment, is_rejection, is_warning, evaluate_allocation}
use Prim.Native.String.{◌++◌ as append}

-- `message or default`
abbrev pub text_or : String → Option String → String
text_or default none = default
text_or default (some m) = if is_empty m then default else m

-- `[message] if warning and message else []`
abbrev pub warning_text : Bool → Option String → List String
warning_text false m = []
warning_text true none = []
warning_text true (some m) = if is_empty m then [] else m ∷ []

abbrev pub assessment : OperatingMode → String → List String → SuitabilityAssessment
assessment m reason ws = record { mode = m; reasons = reason ∷ []; warnings = ws }

module _ {R : Type 0} ⦃num : Number R⦄ where
  abbrev pub one : R
  one = num.of_int (pos 1)

  -- `_ratio`
  unfoldable pub ratio : R → R → R
  ratio numerator denominator = if denominator ≤R zero_R then one else numerator /R denominator

  -- `_margin_buffer_ratio`
  unfoldable pub margin_buffer_ratio : AccountSnapshot R → R
  margin_buffer_ratio a =
      if a.equity ≤R zero_R then zero_R else max_R a.free_margin zero_R /R a.equity

  -- `not points or points <= 0`
  abbrev pub no_volatility : R → Bool
  no_volatility v = (v =R zero_R) || (v ≤R zero_R)

  -- `_spread_to_volatility_ratio`
  unfoldable pub spread_to_volatility_ratio : SymbolSnapshot R → R
  spread_to_volatility_ratio s = elim s.volatility_points [
    | none ↦ zero_R
    | some v ↦ if no_volatility v then zero_R else s.spread_points /R v
  ]

  module _ ⦃lib : Library R⦄ where
    abbrev pub daily_loss_pressure : AccountSnapshot R → RiskPolicy R → R
    daily_loss_pressure a p = ratio a.daily_realized_loss_pct p.daily_loss_limit_pct

    abbrev pub open_risk_pressure : AccountSnapshot R → RiskPolicy R → R
    open_risk_pressure a p = ratio a.current_open_risk_pct p.max_total_open_risk_pct

    -- The two tests of friction and account pressure.
    abbrev pub has_friction : R → R → R → AccountSnapshot R → SymbolSnapshot R → RiskPolicy R → Bool
    has_friction spread margin pressure a s p =
        (spread ≤R spread_to_volatility_ratio s)
        || (margin_buffer_ratio a ≤R margin)
        || (pressure ≤R daily_loss_pressure a p)
        || (pressure ≤R open_risk_pressure a p)

    abbrev pub is_small : R → R → SymbolSnapshot R → RiskPolicy R → Bool
    is_small capital weight s p = (capital ≤R p.small_equity_threshold) && (weight ≤R s.risk_weight)

    -- The tests of `assess_suitability` behind the warning, in their order.
    unfoldable pub pressure_tests :
        AccountSnapshot R
        → SymbolSnapshot R
        → RiskPolicy R
        → R
        → List String
        → List (Bool × SuitabilityAssessment)
    pressure_tests a s p capital ws =
        (
          capital <R p.min_allocated_capital_cash,
          assessment strict "allocated capital below practical minimum" ws,
        )
        ∷ (
          is_small capital p.strict_risk_weight s p,
          assessment strict "small equity against high-risk symbol" ws,
        )
        ∷ (
          has_friction p.strict_spread_to_volatility_ratio p.strict_margin_buffer_ratio
              (lib.literal 80 2) a s p,
          assessment strict "high friction or account pressure" ws,
        )
        ∷ (
          is_small capital p.caution_risk_weight s p,
          assessment caution "small equity against elevated symbol risk" ws,
        )
        ∷ (
          has_friction p.caution_spread_to_volatility_ratio p.caution_margin_buffer_ratio
              (lib.literal 50 2) a s p,
          assessment caution "borderline friction or account pressure" ws,
        )
        ∷ []

    -- The tests before it.
    unfoldable pub symbol_tests :
        SymbolSnapshot R → Bool → AllocationAssessment R → List (Bool × SuitabilityAssessment)
    symbol_tests s forced alloc =
        (
          forced,
          assessment strict "forced-risk override"
              ("user forced symbol despite risk pressure" ∷ []),
        )
        ∷ (not s.trade_allowed, assessment strict "symbol not trade-allowed" [])
        ∷ (
          not s.quote_session_active || not s.trade_session_active,
          assessment strict "symbol session inactive" [],
        )
        ∷ (
          is_rejection alloc.status,
          assessment strict
              (text_or "allocated capital rejected by practical allocation rules" alloc.message) [],
        )
        ∷ []

    -- `capital_base_cash if capital_base_cash is not None else account.equity`
    abbrev pub working_capital : AccountSnapshot R → Option R → R
    working_capital a none = a.equity
    working_capital a (some c) = c

    -- `assess_suitability`
    unfoldable pub assess_suitability :
        AccountSnapshot R
        → SymbolSnapshot R
        → RiskPolicy R
        → TradingStyle
        → Option R
        → Bool
        → Option OperatingMode
        → SuitabilityAssessment
    unfolding symbol_tests pressure_tests
    assess_suitability a s p style base forced (some m) =
        assessment m (append "requested mode override: " (mode_value m)) []
    assess_suitability a s p style base forced none =
        let capital = working_capital a base in
        let alloc = evaluate_allocation s style capital in
        let ws = warning_text (is_warning alloc.status) alloc.message in
        choose (symbol_tests s forced alloc ++ pressure_tests a s p capital ws)
          (assessment recommend "account and symbol conditions acceptable" ws)
