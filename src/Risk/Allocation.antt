-- ===== src/Risk/Allocation.antt =====
-- `evaluate_allocation` and `_hard_floor` of RiskEngine: whether a capital can carry a style of trading.
use Prim.Native.String.{◌++◌}
use text.Mathlib.Text.{starts_with}
use bot_ea.Base.{
  Bool, true, false, not, ◌&&◌, ◌||◌, Option, none, some, String, [], ◌∷◌, if◌then◌else◌,
}
use bot_ea.Base.Number.{Number, ◌*R◌, ◌/R◌, ◌<R◌, ◌≤R◌, ◌=R◌, zero_R, max_R}
use bot_ea.Base.Library.{Library, choose}
use bot_ea.Risk.Models.{TradingStyle, SymbolSnapshot, style_value}
use bot_ea.Risk.Tables.{
  class_of, class_baseline, style_max_risk_pct, recommended_minimum_allocation,
  minimum_practical_risk_cash, dollars,
}

-- The texts of `status`.
pub data AllocationStatus : Type 0 where
  rejection warning fine : AllocationStatus

abbrev pub is_rejection : AllocationStatus → Bool
is_rejection rejection = true
is_rejection warning = false
is_rejection fine = false

abbrev pub is_warning : AllocationStatus → Bool
is_warning rejection = false
is_warning warning = true
is_warning fine = false

pub record AllocationAssessment (R : Type 0) : Type 0 where
  pub status : AllocationStatus
  pub hard_floor : R
  pub recommended_minimum : R
  pub minimum_practical_risk_cash : R
  pub minimum_practical_risk_pct : R
  pub message : Option String

module _ {R : Type 0} ⦃num : Number R⦄ where
  -- `x if x and x > 0 else default` of an optional number
  abbrev pub positive_or : R → Option R → R
  positive_or default none = default
  positive_or default (some x) = if not (x =R zero_R) && (zero_R <R x) then x else default

  module _ ⦃lib : Library R⦄ where
    -- `_hard_floor`
    unfoldable pub hard_floor_of : SymbolSnapshot R → R
    unfolding class_of class_baseline
    hard_floor_of s =
        let base = class_baseline (class_of s.instrument_class) in
        let min_lot = if zero_R <R s.volume_min then s.volume_min else base.min_lot in
        let contract_size = positive_or base.contract_size s.contract_size in
        let margin_rate = positive_or base.margin_rate s.margin_rate in
        let price = positive_or zero_R s.price in
        max_R base.class_hard_floor
          (dollars 2 *R (price *R contract_size *R min_lot *R margin_rate))

    -- `_format_warning`
    unfoldable pub format_warning : String → TradingStyle → R → R → R → R → String
    format_warning name style usd recommended cash pct =
        name
        ++ " masih bisa diperdagangkan dengan alokasi "
        ++ lib.fixed usd 2
        ++ " USD, tetapi kurang realistis untuk style "
        ++ style_value style
        ++ ". Minimum rekomendasi kami "
        ++ lib.fixed recommended 2
        ++ " USD. Pada alokasi ini, risiko minimum praktis sekitar "
        ++ lib.fixed cash 2
        ++ " USD per trade ("
        ++ lib.fixed pct 1
        ++ "% dari modal)."

    -- `_format_rejection`
    unfoldable pub format_rejection : String → TradingStyle → R → R → R → String
    format_rejection name style usd floor recommended =
        if starts_with (lib.upper name) "XAU"
        then name
          ++ " tidak realistis untuk alokasi "
          ++ lib.fixed usd 2
          ++ " USD. Meskipun sebagian broker masih mungkin membuka 0.01 lot, free margin akan terlalu tipis "
          ++ "dan risiko minimum per trade tetap terlalu besar untuk akun sekecil ini."
        else "Alokasi "
          ++ lib.fixed usd 2
          ++ " USD ditolak untuk "
          ++ name
          ++ ". Modal ini belum cukup untuk ukuran posisi minimum yang sehat. Dibutuhkan setidaknya "
          ++ lib.fixed floor 2
          ++ " USD untuk openability yang aman, dan "
          ++ lib.fixed recommended 2
          ++ " USD agar style "
          ++ style_value style
          ++ " lebih realistis."

    -- `evaluate_allocation`
    unfoldable pub evaluate_allocation :
        SymbolSnapshot R → TradingStyle → R → AllocationAssessment R
    evaluate_allocation s style usd =
        let recommended = recommended_minimum_allocation s.instrument_class style in
        let floor = hard_floor_of s in
        let cash = minimum_practical_risk_cash style s.instrument_class in
        let pct = if usd ≤R zero_R then lib.infinity else (cash /R usd) *R dollars 100 in
        let most = style_max_risk_pct style in
        let assessed : AllocationStatus → Option String → AllocationAssessment R = λ st m. record {
          status = st;
          hard_floor = floor;
          recommended_minimum = recommended;
          minimum_practical_risk_cash = cash;
          minimum_practical_risk_pct = pct;
          message = m;
        } in
        choose
          ((
            usd <R floor || ((dollars 2 *R most) <R pct),
            assessed rejection (some (format_rejection s.name style usd floor recommended)),
          )
            ∷ (
              usd <R recommended || (most <R pct),
              assessed warning (some (format_warning s.name style usd recommended cash pct)),
            )
            ∷ [])
          (assessed fine none)
