-- ===== src/Risk/Results.antt =====
-- What the results of `compute_position_size` hold.
use mathlib.Core.Path.{subst}
use bot_ea.Base.{◌≡◌, refl, inl, inr, true, false, Option, none, some, String, Bool-cases}
use bot_ea.Base.Number.{Number, ◌*R◌, ◌<R◌, zero_R}
use bot_ea.Base.Library.{Library}
use bot_ea.Base.Choices.{choose-cases}
use bot_ea.Risk.Models.{PositionSizeRequest, PositionSizeResult, SymbolSnapshot, TradingStyle}
use bot_ea.Risk.Allocation.{AllocationAssessment, is_rejection, evaluate_allocation}
use bot_ea.Risk.Size.{
  capital_base_cash, loss_per_lot_of, with_volume, budget_returns, size_in_mode, request_returns,
  allocation_of, suitability_of, compute_position_size,
}
use bot_ea.Risk.Accepted.{pct_of, budget_of, volume_of}

module _ {R : Type 0} ⦃num : Number R⦄ ⦃lib : Library R⦄ where
  -- What a result holds.
  pub data Holds (q : PositionSizeRequest R) (r : PositionSizeResult R) : Type 0 where
    is_refused :
        r.accepted ≡ false
        → r.normalized_volume ≡ zero_R
        → r.estimated_loss_cash ≡ zero_R
        → ((why : String) × (r.rejection_reason ≡ some why))
        → Holds q r
    is_accepted :
        r.accepted ≡ true
        → r.rejection_reason ≡ none
        → r.mode ≡ (suitability_of q).mode
        → r.capital_base_cash ≡ capital_base_cash q
        → r.risk_cash_budget ≡ budget_of q
        → volume_of q ≡ some r.normalized_volume
        → r.estimated_loss_cash ≡ r.normalized_volume *R loss_per_lot_of q
        → Holds q r

  -- The same of a call, which may raise.
  abbrev pub HoldsAny : PositionSizeRequest R → Option (PositionSizeResult R) → Type 0
  HoldsAny q none = Unit
  HoldsAny q (some r) = Holds q r

  with_volume-HoldsAny :
      (q : PositionSizeRequest R) (o : Option R)
      → volume_of q ≡ o
      → HoldsAny q (
          with_volume q
            (allocation_of q)
            (suitability_of q)
            (capital_base_cash q)
            (pct_of q)
            (budget_of q)
            (loss_per_lot_of q)
            o)
  with_volume-HoldsAny q none h = tt
  with_volume-HoldsAny q (some v) h = elim (Bool-cases (v <R q.symbol.volume_min)) [
    | inl e ↦ rw e (is_refused refl refl refl (_, refl))
    | inr e ↦ rw e (is_accepted refl refl refl refl refl h refl)
  ]

  rejection_says_why :
      (s : SymbolSnapshot R) (style : TradingStyle) (usd : R)
      → is_rejection (evaluate_allocation s style usd).status ≡ true
      → (why : String) × ((evaluate_allocation s style usd).message ≡ some why)
  unfolding evaluate_allocation
  rejection_says_why s style usd =
      choose-cases
        (λ (a : AllocationAssessment R).
          is_rejection a.status ≡ true → (why : String) × (a.message ≡ some why))
        _ _ ((λ _ _. (_, refl)), ((λ _ h. cc), tt)) (λ h. cc)

  size_in_mode-HoldsAny :
      (q : PositionSizeRequest R)
      → HoldsAny q (size_in_mode q (allocation_of q) (suitability_of q) (capital_base_cash q))
  unfolding size_in_mode
  size_in_mode-HoldsAny q =
      choose-cases (HoldsAny q)
        (budget_returns q (allocation_of q) (suitability_of q) (capital_base_cash q) (pct_of q)
          (budget_of q) (loss_per_lot_of q))
        _
        (
          (λ _. is_refused refl refl refl (_, refl)),
          (
            (λ _. is_refused refl refl refl (_, refl)),
            ((λ _. is_refused refl refl refl (_, refl)), tt),
          ),
        )
        (with_volume-HoldsAny q (volume_of q) refl)

  compute_position_size-HoldsAny :
      (q : PositionSizeRequest R) → HoldsAny q (compute_position_size q)
  unfolding compute_position_size
  compute_position_size-HoldsAny q =
      choose-cases (HoldsAny q) (request_returns q (allocation_of q) (capital_base_cash q)) _
        (
          (λ _. is_refused refl refl refl (_, refl)),
          (
            (λ _. is_refused refl refl refl (_, refl)),
            (
              (λ _. is_refused refl refl refl (_, refl)),
              (
                (λ h.
                    is_refused refl refl refl
                      (rejection_says_why q.symbol q.trading_style (capital_base_cash q) h)),
                tt,
              ),
            ),
          ),
        )
        (size_in_mode-HoldsAny q)

  -- Every call that returns gives a refusal, with a reason and no volume and no loss, or an accepted
  -- size: in the mode of the suitability, with the request's capital and risk budget, the volume that
  -- was found for that budget, and the loss of that volume.
  pub results_hold :
      (q : PositionSizeRequest R) (r : PositionSizeResult R)
      → compute_position_size q ≡ some r
      → Holds q r
  results_hold q r h = subst (HoldsAny q) h (compute_position_size-HoldsAny q)
