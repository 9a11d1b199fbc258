-- ===== src/Risk/Mode.antt =====
-- The mode that `assess_suitability` gives.
use bot_ea.Base.{◌≡◌, Bool, not, ◌||◌, Option, none, arith, if◌then◌else◌}
use bot_ea.Base.Number.{Number, ◌<R◌}
use bot_ea.Base.Library.{Library, choose}
use bot_ea.Risk.Models.{
  OperatingMode, recommend, caution, strict, AccountSnapshot, SymbolSnapshot, RiskPolicy,
  TradingStyle,
}
use bot_ea.Risk.Allocation.{is_rejection, evaluate_allocation}
use bot_ea.Risk.Suitability.{assess_suitability, working_capital, is_small, has_friction}

-- The stricter of the modes that are wanted.
abbrev pub strictest : Bool → Bool → OperatingMode
strictest wants_strict wants_caution =
    if wants_strict then strict else if wants_caution then caution else recommend

module _ {R : Type 0} ⦃num : Number R⦄ ⦃lib : Library R⦄ (a : AccountSnapshot R)
    (s : SymbolSnapshot R) (p : RiskPolicy R) (style : TradingStyle) (base : Option R)
    (forced : Bool) where
  abbrev pub wants_strict : Bool
  wants_strict =
      let capital = working_capital a base in
      forced
      || not s.trade_allowed
      || not s.quote_session_active
      || not s.trade_session_active
      || is_rejection (evaluate_allocation s style capital).status
      || (capital <R p.min_allocated_capital_cash)
      || is_small capital p.strict_risk_weight s p
      || has_friction p.strict_spread_to_volatility_ratio p.strict_margin_buffer_ratio
          (lib.literal 80 2) a s p

  abbrev pub wants_caution : Bool
  wants_caution =
      is_small (working_capital a base) p.caution_risk_weight s p
      || has_friction p.caution_spread_to_volatility_ratio p.caution_margin_buffer_ratio
          (lib.literal 50 2) a s p

  -- With no requested mode, the mode is STRICT exactly if the symbol is forced, not tradable or its
  -- capital or pressure is out of bounds, else CAUTION exactly if a caution test holds, else RECOMMEND.
  mode_exact :
      (assess_suitability a s p style base forced none).mode ≡ strictest wants_strict wants_caution
  unfolding assess_suitability choose
  mode_exact = ground arith
