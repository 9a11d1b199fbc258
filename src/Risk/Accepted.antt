-- ===== src/Risk/Accepted.antt =====
-- When `compute_position_size` accepts a request, and what its results hold.
use bot_ea.Base.{
  ◌≡◌, refl, inl, inr, Bool, false, not, Option, none, some, List, [], ◌∷◌, Bool-cases,
}
use bot_ea.Base.Number.{Number, ◌/R◌, ◌<R◌, ◌≤R◌, zero_R}
use bot_ea.Base.Library.{Library}
use bot_ea.Base.Choices.{choose_passes, all_of}
use bot_ea.Risk.Models.{PositionSizeRequest, PositionSizeResult, SuitabilityAssessment}
use bot_ea.Risk.Allocation.{AllocationAssessment, is_rejection}
use bot_ea.Risk.Size.{
  capital_base_cash, effective_risk_pct, risk_cash_budget, loss_per_lot_of, normalize_volume,
  with_volume, budget_returns, size_in_mode, request_returns, allocation_of, suitability_of,
  compute_position_size,
}

module _ {R : Type 0} ⦃num : Number R⦄ ⦃lib : Library R⦄ where
  -- The call has returned and its result is accepted.
  abbrev pub accepts : Option (PositionSizeResult R) → Bool
  accepts none = false
  accepts (some r) = r.accepted

  -- The volume is there and large enough for the broker.
  abbrev pub is_tradable : R → Option R → Bool
  is_tradable volume_min none = false
  is_tradable volume_min (some v) = not (v <R volume_min)

  -- The figures of a request in the mode that it is given.
  abbrev pub pct_of : PositionSizeRequest R → R
  pct_of q = effective_risk_pct q.policy (suitability_of q).mode

  abbrev pub budget_of : PositionSizeRequest R → R
  budget_of q = risk_cash_budget q (pct_of q) (capital_base_cash q)

  abbrev pub volume_of : PositionSizeRequest R → Option R
  volume_of q =
      normalize_volume (budget_of q /R loss_per_lot_of q) q.symbol.volume_min q.symbol.volume_max
        q.symbol.volume_step

  accepts-with_volume :
      (q : PositionSizeRequest R) (alloc : AllocationAssessment R) (suits : SuitabilityAssessment)
      (capital pct budget per_lot : R) (o : Option R)
      → accepts (with_volume q alloc suits capital pct budget per_lot o)
        ≡ all_of (is_tradable q.symbol.volume_min o ∷ [])
  accepts-with_volume q alloc suits capital pct budget per_lot none = refl
  accepts-with_volume q alloc suits capital pct budget per_lot (some v) =
      elim (Bool-cases (v <R q.symbol.volume_min)) [ inl e ↦ rw e refl | inr e ↦ rw e refl ]

  abbrev volume_conditions : PositionSizeRequest R → SuitabilityAssessment → R → List Bool
  volume_conditions q suits capital =
      is_tradable q.symbol.volume_min (
        normalize_volume
          (risk_cash_budget q (effective_risk_pct q.policy suits.mode) capital /R loss_per_lot_of q)
          q.symbol.volume_min q.symbol.volume_max q.symbol.volume_step)
      ∷ []

  abbrev budget_conditions : PositionSizeRequest R → SuitabilityAssessment → R → List Bool
  budget_conditions q suits capital =
      let budget = risk_cash_budget q (effective_risk_pct q.policy suits.mode) capital in
      not (budget ≤R zero_R)
      ∷ not (loss_per_lot_of q ≤R zero_R)
      ∷ not (budget <R q.policy.min_effective_risk_cash)
      ∷ volume_conditions q suits capital

  accepts-size_in_mode :
      (q : PositionSizeRequest R) (alloc : AllocationAssessment R) (suits : SuitabilityAssessment)
      (capital : R)
      → accepts (size_in_mode q alloc suits capital) ≡ all_of (budget_conditions q suits capital)
  unfolding size_in_mode
  accepts-size_in_mode q alloc suits capital =
      let pct = effective_risk_pct q.policy suits.mode in
      let budget = risk_cash_budget q pct capital in
      let per_lot = loss_per_lot_of q in
      choose_passes accepts (budget_returns q alloc suits capital pct budget per_lot) _
        (volume_conditions q suits capital) (refl, (refl, (refl, tt)))
        (accepts-with_volume q alloc suits capital pct budget per_lot _)

  -- What an accepted request meets.
  abbrev pub acceptance : PositionSizeRequest R → List Bool
  acceptance q =
      not (capital_base_cash q ≤R zero_R)
      ∷ not (q.stop_distance_points ≤R zero_R)
      ∷ not (q.stop_distance_points <R q.symbol.stops_level_points)
      ∷ not (is_rejection (allocation_of q).status)
      ∷ not (budget_of q ≤R zero_R)
      ∷ not (loss_per_lot_of q ≤R zero_R)
      ∷ not (budget_of q <R q.policy.min_effective_risk_cash)
      ∷ is_tradable q.symbol.volume_min (volume_of q)
      ∷ []

  -- A request is accepted exactly when its capital and its stop distance are positive, the stop keeps
  -- the broker's distance, the capital is not rejected, a risk budget is left that is not below the
  -- minimum, the symbol's ticks are valid, and the volume for that budget is not below the minimum.
  pub accepts_exactly :
      (q : PositionSizeRequest R) → accepts (compute_position_size q) ≡ all_of (acceptance q)
  unfolding compute_position_size request_returns
  accepts_exactly q =
      choose_passes accepts (request_returns q (allocation_of q) (capital_base_cash q)) _
        (budget_conditions q (suitability_of q) (capital_base_cash q))
        (refl, (refl, (refl, (refl, tt))))
        (accepts-size_in_mode q (allocation_of q) (suitability_of q) (capital_base_cash q))
