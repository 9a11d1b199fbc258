-- ===== src/Risk/Symbols.antt =====
-- bot_ea/symbol_policy.py and bot_ea/decision_tree.py: what a symbol's name says of its class and
-- risk, and the family of strategies for a market.
use text.Mathlib.Text.{starts_with}
use bot_ea.Base.{
  Bool, not, ◌||◌, Option, none, some, String, List, [], ◌∷◌, if◌then◌else◌, one_of, str_eq,
}
use bot_ea.Base.Library.{Library, contains, contains_any}

abbrev pub majors : List String
majors = "EURUSD" ∷ "GBPUSD" ∷ "USDJPY" ∷ "AUDUSD" ∷ "USDCHF" ∷ "USDCAD" ∷ "NZDUSD" ∷ []

abbrev pub index_tags : List String
index_tags = "US30" ∷ "NAS" ∷ "SPX" ∷ "GER" ∷ "UK" ∷ "JP" ∷ []

-- `infer_instrument_class` of the name in upper case
unfoldable pub class_of_upper : String → String
class_of_upper s =
    if one_of s majors
    then "forex_major"
    else if starts_with s "XAU" || contains s "GOLD"
    then "metal"
    else if contains_any s index_tags
    then "index_cfd"
    else "unknown"

module _ {R : Type 0} ⦃lib : Library R⦄ where
  -- `default_risk_weight`
  unfoldable pub default_risk_weight : String → R
  unfolding class_of_upper
  default_risk_weight name =
      let c = class_of_upper (lib.upper name) in
      if str_eq c "forex_major"
      then lib.literal 100 2
      else if str_eq c "metal"
      then lib.literal 130 2
      else if str_eq c "index_cfd"
      then lib.literal 150 2
      else lib.literal 120 2

pub data StrategyFamily : Type 0 where
  session_breakout pullback_continuation volatility_expansion failed_breakout : StrategyFamily

-- `choose_family`
unfoldable pub choose_family : Bool → Bool → Bool → Bool → Option StrategyFamily
choose_family global_gate_pass session_active trend_active compression_present =
    if not global_gate_pass
    then none
    else if session_active
    then some session_breakout
    else if trend_active
    then some pullback_continuation
    else if compression_present
    then some volatility_expansion
    else some failed_breakout
