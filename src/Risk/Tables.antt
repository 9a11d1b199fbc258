-- ===== src/Risk/Tables.antt =====
-- The tables of RiskEngine in bot_ea/risk_engine.py, by instrument class and trading style.
-- Their entries are multiples of 0.001, written as literals.
use bot_ea.Base.{ℕ, String, str_eq, if◌then◌else◌}
use bot_ea.Base.Int.{pos}
use bot_ea.Base.Number.{Number}
use bot_ea.Base.Library.{Library}
use bot_ea.Risk.Models.{TradingStyle, scalping, intraday, swing}

-- The keys of the tables; every other class has the entries of "unknown".
pub data InstrumentClass : Type 0 where
  forex_major metal index_cfd unknown : InstrumentClass

unfoldable pub class_of : String → InstrumentClass
class_of s =
    if str_eq s "forex_major"
    then forex_major
    else if str_eq s "metal"
    then metal
    else if str_eq s "index_cfd"
    then index_cfd
    else unknown

-- An entry of `_CLASS_BASELINE`.
pub record Baseline (R : Type 0) : Type 0 where
  pub min_lot : R
  pub contract_size : R
  pub margin_rate : R
  pub class_hard_floor : R

module _ {R : Type 0} ⦃num : Number R⦄ where
  abbrev pub dollars : ℕ → R
  dollars n = num.of_int (pos n)

  -- A row of a table with an entry for each style.
  abbrev pub by_style : ℕ → ℕ → ℕ → TradingStyle → R
  by_style a b c scalping = dollars a
  by_style a b c intraday = dollars b
  by_style a b c swing = dollars c

  -- `_CLASS_MINIMUM_ALLOCATION`
  unfoldable pub class_minimum_allocation : InstrumentClass → TradingStyle → R
  class_minimum_allocation forex_major = by_style 50 100 150
  class_minimum_allocation metal = by_style 150 250 400
  class_minimum_allocation index_cfd = by_style 100 200 350
  class_minimum_allocation unknown = by_style 100 150 250

  -- `_CLASS_STYLE_MINIMUM_RISK`
  unfoldable pub class_style_minimum_risk : InstrumentClass → TradingStyle → R
  class_style_minimum_risk forex_major = by_style 1 3 6
  class_style_minimum_risk metal = by_style 3 10 20
  class_style_minimum_risk index_cfd = by_style 2 8 18
  class_style_minimum_risk unknown = by_style 2 5 10

  -- `_STYLE_MAX_RISK_PCT`
  unfoldable pub style_max_risk_pct : TradingStyle → R
  style_max_risk_pct = by_style 2 4 5

  module _ ⦃lib : Library R⦄ where
    -- `_CLASS_BASELINE`
    unfoldable pub class_baseline : InstrumentClass → Baseline R
    class_baseline forex_major = record {
      min_lot = lib.literal 1 2;
      contract_size = dollars 100000;
      margin_rate = lib.literal 5 3;
      class_hard_floor = dollars 30;
    }
    class_baseline metal = record {
      min_lot = lib.literal 1 2;
      contract_size = dollars 100;
      margin_rate = lib.literal 5 3;
      class_hard_floor = dollars 75;
    }
    class_baseline index_cfd = record {
      min_lot = lib.literal 10 2;
      contract_size = dollars 1;
      margin_rate = lib.literal 5 3;
      class_hard_floor = dollars 50;
    }
    class_baseline unknown = record {
      min_lot = lib.literal 1 2;
      contract_size = dollars 1;
      margin_rate = lib.literal 5 3;
      class_hard_floor = dollars 50;
    }

  -- `recommended_minimum_allocation`
  unfoldable pub recommended_minimum_allocation : String → TradingStyle → R
  unfolding class_of class_minimum_allocation
  recommended_minimum_allocation c style = class_minimum_allocation (class_of c) style

  -- `minimum_practical_risk_cash`
  unfoldable pub minimum_practical_risk_cash : TradingStyle → String → R
  unfolding class_of class_style_minimum_risk
  minimum_practical_risk_cash style c = class_style_minimum_risk (class_of c) style
