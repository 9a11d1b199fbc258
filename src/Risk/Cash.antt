-- ===== src/Risk/Cash.antt =====
-- The cash that RiskEngine lets a position risk, and the loss of a lot.
use bot_ea.Base.{
  Bool, true, false, ◌||◌, Option, none, some, String, List, [], ◌∷◌, ◌++◌, if◌then◌else◌, is_empty,
  one_of,
}
use bot_ea.Base.Number.{Number, ◌-R◌, ◌*R◌, ◌/R◌, ◌<R◌, ◌≤R◌, zero_R, max_R}
use bot_ea.Risk.Models.{
  OperatingMode, recommend, caution, strict, CapitalAllocationMode, full_equity, percent_equity,
  fixed_cash, CapitalAllocation, RiskPolicy, PositionSizeRequest,
}
use bot_ea.Risk.Tables.{dollars}

-- `if warning and message and message not in warnings: warnings.append(message)`
abbrev pub with_message : Bool → Option String → List String → List String
with_message false m ws = ws
with_message true none ws = ws
with_message true (some m) ws = if is_empty m || one_of m ws then ws else ws ++ (m ∷ [])

module _ {R : Type 0} ⦃num : Number R⦄ where
  -- `min(a, b)`: the first unless the second is less
  abbrev pub min_R : R → R → R
  min_R a b = if b <R a then b else a

  abbrev pub hundredth : R → R
  hundredth x = x /R dollars 100

  -- What an allocation's mode and value leave of the equity.
  abbrev pub share_of : R → CapitalAllocationMode → R → R
  share_of equity full_equity value = equity
  share_of equity percent_equity value =
      equity *R hundredth (min_R (max_R value zero_R) (dollars 100))
  share_of equity fixed_cash value = min_R (max_R value zero_R) equity

  abbrev pub allocated : R → Option (CapitalAllocation R) → R
  allocated equity none = equity
  allocated equity (some c) = share_of equity c.mode c.value

  -- `_capital_base_cash`
  unfoldable pub capital_base_cash : PositionSizeRequest R → R
  capital_base_cash q = allocated (max_R q.account.equity zero_R) q.capital_allocation

  -- `_effective_risk_pct`
  unfoldable pub effective_risk_pct : RiskPolicy R → OperatingMode → R
  effective_risk_pct p recommend = p.base_risk_pct
  effective_risk_pct p caution = p.base_risk_pct *R p.caution_risk_multiplier
  effective_risk_pct p strict = p.base_risk_pct *R p.strict_risk_multiplier

  -- The three budgets of `_risk_cash_budget`.
  abbrev pub base_budget : R → R → R
  base_budget pct capital = capital *R hundredth pct

  abbrev pub remaining_daily : PositionSizeRequest R → R → R
  remaining_daily q capital =
      capital
      *R hundredth
          (max_R (q.policy.daily_loss_limit_pct -R q.account.daily_realized_loss_pct) zero_R)

  abbrev pub remaining_open : PositionSizeRequest R → R → R
  remaining_open q capital =
      capital
      *R hundredth
          (max_R (q.policy.max_total_open_risk_pct -R q.account.current_open_risk_pct) zero_R)

  -- `_risk_cash_budget`
  unfoldable pub risk_cash_budget : PositionSizeRequest R → R → R → R
  risk_cash_budget q pct capital =
      max_R
        (min_R (min_R (base_budget pct capital) (remaining_daily q capital))
          (remaining_open q capital))
        zero_R

  -- `_loss_per_lot`
  unfoldable pub loss_per_lot_of : PositionSizeRequest R → R
  loss_per_lot_of q =
      let s = q.symbol in
      if (s.tick_size ≤R zero_R) || (s.tick_value ≤R zero_R) || (s.point ≤R zero_R)
      then zero_R
      else ((q.stop_distance_points *R s.point) /R s.tick_size) *R s.tick_value
