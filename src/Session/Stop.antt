-- ===== src/Session/Stop.antt =====
-- `evaluate_stop_policy` of bot_ea/stop_policy.py. Floats are a `Number`; a decision's detail text
-- is the one of its reason.
use bot_ea.Base.{Bool, true, false, Option, none, some, String, List, [], ◌∷◌, if◌then◌else◌}
use bot_ea.Base.Int.{ℤ, leb_ℤ}
use bot_ea.Base.Number.{Number, ◌-R◌, ◌≤R◌, zero_R, max_R, abs_R}

pub data StopReason : Type 0 where
  no_reason profit_target loss_limit drawdown_limit consecutive_losses max_trades : StopReason
  session_timeout allocation_exhausted : StopReason

pub record StopPolicy (R : Type 0) : Type 0 where
  pub profit_target_cash : Option R
  pub loss_limit_cash : Option R
  pub max_drawdown_cash : Option R
  pub max_consecutive_losses : Option ℤ
  pub max_trades : Option ℤ
  pub max_runtime_minutes : Option R
  pub min_remaining_allocation_cash : Option R

pub record SessionPerformance (R : Type 0) : Type 0 where
  pub realized_pnl_cash : R
  pub peak_pnl_cash : R
  pub consecutive_losses : ℤ
  pub trades_count : ℤ
  pub elapsed_minutes : R
  pub remaining_allocation_cash : Option R

-- `metadata` holds at most the limit that was reached, under its name.
pub data Metadata (R : Type 0) : Type 0 where
  empty : Metadata R
  cash_limit : String → R → Metadata R
  count_limit : String → ℤ → Metadata R

pub record StopDecision (R : Type 0) : Type 0 where
  pub should_halt : Bool
  pub reason : StopReason
  pub hard_stop : Bool
  pub metadata : Metadata R

module _ {R : Type 0} ⦃num : Number R⦄ where
  -- `SessionPerformance.drawdown_cash`
  abbrev pub drawdown_cash : SessionPerformance R → R
  drawdown_cash s = max_R (s.peak_pnl_cash -R s.realized_pnl_cash) zero_R

  abbrev pub halt : StopReason → Metadata R → StopDecision R
  halt why limit = record { should_halt = true; reason = why; hard_stop = true; metadata = limit }

  abbrev pub go_on : StopDecision R
  go_on = record { should_halt = false; reason = no_reason; hard_stop = false; metadata = empty }

  -- `if policy.limit is not None and test: return StopDecision(...)`; `none` goes on.
  unfoldable pub limit_of :
      {L : Type 0} → Option L → (L → Bool) → StopReason → (L → Metadata R) → Option (StopDecision R)
  limit_of none test why limit = none
  limit_of (some l) test why limit = if test l then some (halt why (limit l)) else none

  abbrev pub is_exhausted : SessionPerformance R → R → Bool
  is_exhausted s limit = elim s.remaining_allocation_cash [
    | none ↦ false
    | some left ↦ left ≤R limit
  ]

  -- The limits in the order of the code.
  unfoldable pub limits : StopPolicy R → SessionPerformance R → List (Option (StopDecision R))
  unfolding limit_of
  limits p s =
      limit_of p.profit_target_cash (λ l. l ≤R s.realized_pnl_cash) profit_target
        (cash_limit "profit_target_cash")
      ∷ limit_of p.loss_limit_cash (λ l. s.realized_pnl_cash ≤R num.sub zero_R (abs_R l)) loss_limit
          (cash_limit "loss_limit_cash")
      ∷ limit_of p.max_drawdown_cash (λ l. l ≤R drawdown_cash s) drawdown_limit
          (cash_limit "max_drawdown_cash")
      ∷ limit_of p.max_consecutive_losses (λ l. leb_ℤ l s.consecutive_losses)
          StopReason.consecutive_losses (count_limit "max_consecutive_losses")
      ∷ limit_of p.max_trades (λ l. leb_ℤ l s.trades_count) StopReason.max_trades
          (count_limit "max_trades")
      ∷ limit_of p.max_runtime_minutes (λ l. l ≤R s.elapsed_minutes) session_timeout
          (cash_limit "max_runtime_minutes")
      ∷ limit_of p.min_remaining_allocation_cash (is_exhausted s) allocation_exhausted
          (cash_limit "min_remaining_allocation_cash")
      ∷ []

  -- The first `if` that returns, or the last `return`.
  unfoldable pub first_decision : List (Option (StopDecision R)) → StopDecision R
  first_decision [] = go_on
  first_decision (none ∷ rest) = first_decision rest
  first_decision (some d ∷ rest) = d

  -- `evaluate_stop_policy`
  unfoldable pub evaluate_stop_policy : StopPolicy R → SessionPerformance R → StopDecision R
  unfolding first_decision limits
  evaluate_stop_policy p s = first_decision (limits p s)
